-- ===== src/Scanner/Kscan/Started.antt =====
-- What an initialisation that returns 0 has checked, and the scans after it.
use ykb_firmware.Base.{
  ℕ, suc, ◌+◌, ◌^◌, ◌≤◌, ◌<◌, ◌≡◌, refl, sym, ap, ◌∙◌, Bool, true, false, Option, none, some, List,
  [], ◌∷◌, map, length, arith, copy_into, subst,
}
use ykb_firmware.Base.Int.{pos}
use ykb_firmware.Scanner.Kscan.{KscanBuild, Inputs, Line, scan_ok, scan}
use ykb_firmware.Scanner.Kscan.Stable.{IsGood, rows, key_sum}
use ykb_firmware.Scanner.Kscan.Parallel.{IsSampled}
use ykb_firmware.Scanner.Kscan.Rounds.{length-rows}
use ykb_firmware.Scanner.Kscan.Toggle.{HasAmounts, AllAre, scan-rows}
use ykb_firmware.Scanner.Kscan.Start.{
  AdcSpec, StartInputs, same_converter, out_of_order, after_mux, start_muxes, start_channels,
  StartEnd, kscan_init,
}

-- Channels in ascending order, all after `previous`.
abbrev pub AreAscending : Option AdcSpec → List AdcSpec → Type 0
AreAscending previous [] = Unit
AreAscending none (spec ∷ specs) = AreAscending (some spec) specs
AreAscending (some previous) (spec ∷ specs) =
    (previous.channel_id < spec.channel_id) × AreAscending (some spec) specs

-- Channels of one converter, read alike.
abbrev pub AreAlike : AdcSpec → List AdcSpec → Type 0
AreAlike first [] = Unit
AreAlike first (spec ∷ specs) =
    (spec.dev ≡ first.dev)
    × (spec.resolution ≡ first.resolution)
    × (spec.oversampling ≡ first.oversampling)
    × AreAlike first specs

after_mux-HasAmounts :
    (ready toggle enables : Bool) (line : Line) (lines : List Line) (rest : Option ℕ × List Line)
    (amount : ℕ) (amounts : List ℕ)
    → line.answer ≡ pos amount
    → HasAmounts lines amounts
    → HasAmounts rest.1 amounts
    → HasAmounts (after_mux ready toggle enables line lines rest).1 (amount ∷ amounts)
unfolding after_mux
after_mux-HasAmounts false toggle enables line lines rest amount amounts a h h' = (a, h)
after_mux-HasAmounts true true enables line lines rest amount amounts a h h' = (a, h')
after_mux-HasAmounts true false true line lines rest amount amounts a h h' = (a, h')
after_mux-HasAmounts true false false line lines rest amount amounts a h h' = (a, h)

after_mux-AllAre :
    (ready enables : Bool) (line : Line) (lines : List Line) (rest : Option ℕ × List Line)
    (total : ℕ)
    → (rest.0 ≡ some total → AllAre true rest.1)
    → (after_mux ready false enables line lines rest).0 ≡ some total
    → AllAre true (after_mux ready false enables line lines rest).1
unfolding after_mux
after_mux-AllAre false enables line lines rest total h e = absurd (cc)
after_mux-AllAre true true line lines rest total h e = (refl, h e)
after_mux-AllAre true false line lines rest total h e = absurd (cc)

module _ (build : KscanBuild) (inp : StartInputs) where
  start_muxes_step :
      (line : Line) (lines : List Line) (amount : ℕ)
      → line.answer ≡ pos amount
      → (j total : ℕ)
      → start_muxes build inp j total (line ∷ lines)
        ≡ after_mux
            (inp.mux_ready j)
            build.toggle
            (inp.mux_enables j)
            line
            lines
            (start_muxes build inp (suc j) (total + amount) lines)
  unfolding start_muxes
  start_muxes_step line lines amount a j total = simp (a) refl

  start_muxes-total :
      (lines : List Line) (amounts : List ℕ)
      → HasAmounts lines amounts
      → (j total total' : ℕ) → (start_muxes build inp j total lines).0 ≡ some total'
      → total' ≡ total + key_sum amounts
  unfolding start_muxes key_sum
  start_muxes-total [] [] h j total total' e = ground arith
  start_muxes-total [] (amount ∷ amounts) h j total total' e = absurd h
  start_muxes-total (line ∷ lines) [] h j total total' e = absurd h
  start_muxes-total (line ∷ lines) (amount ∷ amounts) (a, h) j total total' e =
      ground (arith, a, start_muxes-total lines amounts h (suc j) (total + amount) total')

  start_muxes-HasAmounts :
      (lines : List Line) (amounts : List ℕ)
      → HasAmounts lines amounts
      → (j total : ℕ) → HasAmounts (start_muxes build inp j total lines).1 amounts
  unfolding start_muxes
  start_muxes-HasAmounts [] amounts h j total = h
  start_muxes-HasAmounts (line ∷ lines) [] h j total = absurd h
  start_muxes-HasAmounts (line ∷ lines) (amount ∷ amounts) (a, h) j total =
      let rest = start_muxes build inp (suc j) (total + amount) lines in
      let later = start_muxes-HasAmounts lines amounts h (suc j) (total + amount) in
      subst (λ r. HasAmounts r.1 (amount ∷ amounts))
        (sym (start_muxes_step line lines amount a j total))
        (after_mux-HasAmounts (inp.mux_ready j) build.toggle (inp.mux_enables j) line lines rest
          amount amounts a h later)

  start_muxes-AllAre :
      build.toggle ≡ false
      → (lines : List Line) (amounts : List ℕ) → HasAmounts lines amounts
      → (j total total' : ℕ) → (start_muxes build inp j total lines).0 ≡ some total'
      → AllAre true (start_muxes build inp j total lines).1
  unfolding start_muxes
  start_muxes-AllAre t [] amounts h j total total' e = tt
  start_muxes-AllAre t (line ∷ lines) [] h j total total' e = absurd h
  start_muxes-AllAre t (line ∷ lines) (amount ∷ amounts) (a, h) j total total' e =
      let rest = start_muxes build inp (suc j) (total + amount) lines in
      let step =
        start_muxes_step line lines amount a j total
        ∙ ap (λ b. after_mux (inp.mux_ready j) b (inp.mux_enables j) line lines rest) t in
      subst (λ r. AllAre true r.1) (sym step)
        (after_mux-AllAre (inp.mux_ready j) (inp.mux_enables j) line lines rest total'
          (start_muxes-AllAre t lines amounts h (suc j) (total + amount) total')
          (sym (ap (λ r. r.0) step) ∙ e))

  start_channels-ids :
      (first : AdcSpec) (previous : Option AdcSpec) (i : ℕ) (specs : List AdcSpec)
      → (start_channels build inp first previous i specs).0 ≡ true
      → (start_channels build inp first previous i specs).1
        ≡ map (λ (s : AdcSpec). s.channel_id) specs
  unfolding start_channels
  start_channels-ids first previous i [] e = refl
  start_channels-ids first previous i (spec ∷ specs) e =
      ground (arith, start_channels-ids first (some spec) (suc i) specs)

  start_channels-AreAlike :
      build.parallel ≡ true
      → (first : AdcSpec) (previous : Option AdcSpec) (i : ℕ) (specs : List AdcSpec)
      → (start_channels build inp first previous i specs).0 ≡ true
      → AreAlike first specs
  unfolding start_channels same_converter
  start_channels-AreAlike p first previous i [] e = tt
  start_channels-AreAlike p first previous i (spec ∷ specs) e =
      let rest = start_channels-AreAlike p first (some spec) (suc i) specs in
      (ground (arith), ground (arith), ground (arith), rest (ground (arith)))

  start_channels-AreAscending :
      build.parallel ≡ true
      → (first : AdcSpec) (previous : Option AdcSpec) (i : ℕ) (specs : List AdcSpec)
      → (start_channels build inp first previous i specs).0 ≡ true
      → AreAscending previous specs
  unfolding start_channels out_of_order
  start_channels-AreAscending p first previous i [] e = tt
  start_channels-AreAscending p first none i (spec ∷ specs) e =
      start_channels-AreAscending p first (some spec) (suc i) specs (ground (arith))
  start_channels-AreAscending p first (some previous) i (spec ∷ specs) e = (
    ground (arith),
    start_channels-AreAscending p first (some spec) (suc i) specs (ground (arith)),
  )

-- What an initialisation that returns 0 leaves and has found out, for channels `specs` of the converter.
pub record IsStarted (build : KscanBuild) (key_amount : ℕ) (amounts : List ℕ) (first : AdcSpec)
    (specs : List AdcSpec) (end : StartEnd) : Type 0 where
  pub counted : key_sum amounts ≡ key_amount
  pub answers : HasAmounts end.lines amounts
  pub on : build.toggle ≡ false → AllAre true end.lines
  pub set_up : end.ids ≡ map (λ (s : AdcSpec). s.channel_id) (first ∷ specs)
  pub alike : build.parallel ≡ true → AreAlike first (first ∷ specs)
  pub ascending : build.parallel ≡ true → AreAscending none (first ∷ specs)

module _ (build : KscanBuild) (inp : StartInputs) (key_amount : ℕ) (first : AdcSpec)
    (specs : List AdcSpec) (lines : List Line) where
  mux_loop : Option ℕ × List Line
  mux_loop = start_muxes build inp 0 0 lines

  channel_loop : Bool × List ℕ
  channel_loop = start_channels build inp first none 0 (first ∷ specs)

  -- What a return of 0 says of the two loops.
  kscan_init-checked :
      (kscan_init build inp key_amount first specs lines).is_started ≡ true
      → (mux_loop.0 ≡ some key_amount)
        × (channel_loop.0 ≡ true)
        × ((kscan_init build inp key_amount first specs lines).lines ≡ mux_loop.1)
        × ((kscan_init build inp key_amount first specs lines).ids ≡ channel_loop.1)
  unfolding kscan_init mux_loop channel_loop
  kscan_init-checked e = ground arith

  -- An initialisation that returns 0 has found as many channels of the multiplexers as there are keys, has set
  -- up every channel of the converter, and in the parallel build they belong to one converter, are read alike
  -- and ascend; without toggling it has enabled every multiplexer.
  pub kscan_init-IsStarted :
      (amounts : List ℕ)
      → HasAmounts lines amounts
      → (kscan_init build inp key_amount first specs lines).is_started ≡ true
      → IsStarted build key_amount amounts first specs
          (kscan_init build inp key_amount first specs lines)
  unfolding mux_loop channel_loop
  kscan_init-IsStarted amounts h e =
      let (total, ok, same_lines, same_ids) = kscan_init-checked e in
      record {
        counted = omega (arith, start_muxes-total build inp lines amounts h 0 0 key_amount total);
        answers =
            subst (λ l. HasAmounts l amounts) (sym same_lines)
              (start_muxes-HasAmounts build inp lines amounts h 0 0);
        on = λ t.
            subst (AllAre true) (sym same_lines)
              (start_muxes-AllAre build inp t lines amounts h 0 0 key_amount total);
        set_up = same_ids ∙ start_channels-ids build inp first none 0 (first ∷ specs) ok;
        alike = λ p. start_channels-AreAlike build inp p first none 0 (first ∷ specs) ok;
        ascending = λ p. start_channels-AreAscending build inp p first none 0 (first ∷ specs) ok;
      }

  -- After an initialisation that returns 0, with `key_amount` a uint16_t, a scan of either build by devices
  -- that answer ends without error, and the values are those of the first multiplexer's channels in order,
  -- then the second's, and so on, one for each key, from the start of an array that has room for them; what
  -- lies after them is as it was.
  pub scan-kscan_init :
      (amounts : List ℕ)
      → HasAmounts lines amounts
      → key_amount < 2 ^ 16
      → (kscan_init build inp key_amount first specs lines).is_started ≡ true
      → (devices : Inputs) (reading : ℕ → ℕ → ℕ) → IsGood devices reading
      → IsSampled devices reading (length amounts)
      → (values : List ℕ) → key_amount ≤ length values
      → (length (rows reading 0 amounts) ≡ key_amount)
        × ((scan build devices
              (some values)
              (kscan_init build inp key_amount first specs lines).lines).ret
            ≡ scan_ok)
        × ((scan build devices
              (some values)
              (kscan_init build inp key_amount first specs lines).lines).values
            ≡ some (copy_into values 0 (rows reading 0 amounts)))
  scan-kscan_init amounts h small e devices reading g s values room =
      let ready = kscan_init-IsStarted amounts h e in
      let (ret, written) =
        scan-rows build devices reading g (kscan_init build inp key_amount first specs lines).lines
          amounts values ready.answers s (omega (arith, ready.counted))
          (omega (arith, ready.counted)) in
      (length-rows reading 0 amounts ∙ ready.counted, ret, written)
