-- ===== src/Scanner/Kscan/Toggle.antt =====
-- A whole scan: what it returns, and which multiplexers are enabled after it.
use ykb_firmware.Base.{
  ℕ, suc, ◌^◌, ◌≤◌, ◌<◌, ◌≡◌, ◌&&◌, Bool-cases, inl, inr, ◌≢◌, refl, Bool, true, false, some, List,
  [], ◌∷◌, length, arith, copy_into,
}
use ykb_firmware.Base.Int.{pos}
use ykb_firmware.Scanner.Kscan.{
  KscanBuild, Inputs, Line, Prepared, prepared, negative_amount, enable_failed, add_amount, scan_ok,
  prepare_muxes, cleanup, cleanup_if, scan_amounts, scan_prepared, scan,
}
use ykb_firmware.Scanner.Kscan.Stable.{IsGood, rows, key_sum, stable_scan-rows}
use ykb_firmware.Scanner.Kscan.Parallel.{IsSampled, parallel_scan-stable_scan}

-- The multiplexers answer with these channel amounts, none of them negative.
abbrev pub HasAmounts : List Line → List ℕ → Type 0
HasAmounts [] [] = Unit
HasAmounts (line ∷ lines) (amount ∷ amounts) = (line.answer ≡ pos amount) × HasAmounts lines amounts
HasAmounts [] (amount ∷ amounts) = ⊥
HasAmounts (line ∷ lines) [] = ⊥

-- Every multiplexer is enabled, or every one is not.
abbrev pub AllAre : Bool → List Line → Type 0
AllAre on [] = Unit
AllAre on (line ∷ lines) = (line.enabled ≡ on) × AllAre on lines

-- Every multiplexer, from `j` on, is disabled, but for one whose mux_disable fails.
abbrev pub AreOff : Inputs → ℕ → List Line → Type 0
AreOff inp j [] = Unit
AreOff inp j (line ∷ lines) = ((line.enabled && inp.disables j) ≡ false) × AreOff inp (suc j) lines

cleanup-AreOff : (inp : Inputs) (j : ℕ) (lines : List Line) → AreOff inp j (cleanup inp j lines)
unfolding cleanup
cleanup-AreOff inp j [] = tt
cleanup-AreOff inp j (line ∷ lines) = (ground arith, cleanup-AreOff inp (suc j) lines)

cleanup-HasAmounts :
    (inp : Inputs) (j : ℕ) (lines : List Line) (amounts : List ℕ)
    → HasAmounts lines amounts
    → HasAmounts (cleanup inp j lines) amounts
unfolding cleanup
cleanup-HasAmounts inp j [] amounts h = h
cleanup-HasAmounts inp j (line ∷ lines) [] h = absurd h
cleanup-HasAmounts inp j (line ∷ lines) (amount ∷ amounts) (a, h) =
    (ground (arith, a), cleanup-HasAmounts inp (suc j) lines amounts h)

add_amount-negative :
    (amount : ℕ) (p : Prepared) → p ≢ negative_amount → add_amount amount p ≢ negative_amount
unfolding add_amount
add_amount-negative amount (prepared amounts) h e = cc
add_amount-negative amount negative_amount h e = h refl
add_amount-negative amount enable_failed h e = cc

prepare_muxes-HasAmounts :
    (inp : Inputs) (toggle : Bool) (j : ℕ) (lines : List Line) (amounts : List ℕ)
    → HasAmounts lines amounts
    → (prepare_muxes inp toggle j lines).0 ≢ negative_amount
unfolding prepare_muxes
prepare_muxes-HasAmounts inp toggle j [] amounts h e = cc
prepare_muxes-HasAmounts inp toggle j (line ∷ lines) [] h e = absurd h
prepare_muxes-HasAmounts inp toggle j (line ∷ lines) (amount ∷ amounts) (a, h) e =
    let rest =
      add_amount-negative amount (prepare_muxes inp toggle (suc j) lines).0
        (prepare_muxes-HasAmounts inp toggle (suc j) lines amounts h) in
    ground (arith, a, rest)

prepare_muxes-prepared :
    (inp : Inputs) (reading : ℕ → ℕ → ℕ)
    → IsGood inp reading
    → (toggle : Bool) (j : ℕ) (lines : List Line) (amounts : List ℕ) → HasAmounts lines amounts
    → (prepare_muxes inp toggle j lines).0 ≡ prepared amounts
unfolding prepare_muxes add_amount
prepare_muxes-prepared inp reading g toggle j [] [] h = refl
prepare_muxes-prepared inp reading g toggle j (line ∷ lines) (amount ∷ amounts) (a, h) =
    ground
      (arith, a, g.enabled j, prepare_muxes-prepared inp reading g toggle (suc j) lines amounts h)
prepare_muxes-prepared inp reading g toggle j [] (amount ∷ amounts) h = absurd h
prepare_muxes-prepared inp reading g toggle j (line ∷ lines) [] h = absurd h

prepare_muxes_lines :
    (inp : Inputs) (toggle : Bool) (j : ℕ) (lines : List Line) (amounts : List ℕ)
    → HasAmounts lines amounts
    → HasAmounts (prepare_muxes inp toggle j lines).1 amounts
unfolding prepare_muxes
prepare_muxes_lines inp toggle j [] amounts h = h
prepare_muxes_lines inp toggle j (line ∷ lines) [] h = absurd h
prepare_muxes_lines inp toggle j (line ∷ lines) (amount ∷ amounts) (a, h) =
    let rest = prepare_muxes_lines inp toggle (suc j) lines amounts h in
    elim (Bool-cases toggle) [
      | inr off ↦ simp (prepare_muxes, a, off) (refl, rest)
      | inl on ↦ elim (Bool-cases (inp.enables j)) [
        | inl e ↦ simp (prepare_muxes, a, on, e) (refl, rest)
        | inr e ↦ simp (prepare_muxes, a, on, e) (refl, h)
      ]
    ]

module _ (build : KscanBuild) (inp : Inputs) where
  prepared-AreOff :
      build.toggle ≡ true
      → (values : List ℕ) (first : Prepared) (lines : List Line) (amounts : List ℕ)
      → HasAmounts lines amounts
      → first ≢ negative_amount
      → HasAmounts (scan_prepared build inp values first lines).lines amounts
        × AreOff inp 0 (scan_prepared build inp values first lines).lines
  unfolding scan_prepared cleanup_if
  prepared-AreOff t values (prepared _) lines amounts l h =
      rw t (cleanup-HasAmounts inp 0 lines amounts l, cleanup-AreOff inp 0 lines)
  prepared-AreOff t values negative_amount lines amounts l h = absurd (h refl)
  prepared-AreOff t values enable_failed lines amounts l h =
      rw t (cleanup-HasAmounts inp 0 lines amounts l, cleanup-AreOff inp 0 lines)

  -- In a build that toggles the multiplexers, where each has a channel amount that is not negative, a scan
  -- into an array leaves the multiplexers there are, each of them disabled unless its mux_disable fails,
  -- whatever error of enabling, selecting or reading the scan met.
  pub scan-AreOff :
      build.toggle ≡ true
      → (lines : List Line) (amounts values : List ℕ) → HasAmounts lines amounts
      → HasAmounts (scan build inp (some values) lines).lines amounts
        × AreOff inp 0 (scan build inp (some values) lines).lines
  unfolding scan
  scan-AreOff t lines amounts values h =
      prepared-AreOff t values _ _ amounts (prepare_muxes_lines inp build.toggle 0 lines amounts h)
        (prepare_muxes-HasAmounts inp build.toggle 0 lines amounts h)

module _ (build : KscanBuild) (inp : Inputs) (reading : ℕ → ℕ → ℕ) (g : IsGood inp reading) where
  scan_amounts-rows :
      (amounts : List ℕ)
      → IsSampled inp reading (length amounts)
      → (values : List ℕ) → key_sum amounts < 2 ^ 16
      → key_sum amounts ≤ length values
      → scan_amounts build inp amounts values
        ≡ (scan_ok, copy_into values 0 (rows reading 0 amounts))
  unfolding scan_amounts
  scan_amounts-rows amounts s values small room =
      let one = stable_scan-rows inp reading g amounts 0 0 values (omega arith) in
      ground (arith, one, parallel_scan-stable_scan inp reading g amounts s values small room)

  -- With devices that answer, and as many keys as fit the array and fewer than 65536, a scan of either build
  -- ends without error, and the values are those of the first multiplexer's channels in order, then the
  -- second's, and so on, from the start of the array; what lies after them is as it was.
  pub scan-rows :
      (lines : List Line) (amounts values : List ℕ)
      → HasAmounts lines amounts
      → IsSampled inp reading (length amounts)
      → key_sum amounts < 2 ^ 16
      → key_sum amounts ≤ length values
      → ((scan build inp (some values) lines).ret ≡ scan_ok)
        × ((scan build inp (some values) lines).values
            ≡ some (copy_into values 0 (rows reading 0 amounts)))
  unfolding scan scan_prepared
  scan-rows lines amounts values h s small room =
      let first = prepare_muxes-prepared inp reading g build.toggle 0 lines amounts h in
      let done = scan_amounts-rows amounts s values small room in
      (simp (first, done) refl, simp (first, done) refl)
