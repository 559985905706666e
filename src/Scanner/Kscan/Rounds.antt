-- ===== src/Scanner/Kscan/Rounds.antt =====
-- The rounds of a parallel scan: which multiplexer and channel a key has, and which keys a round writes.
use ykb_firmware.Base.{
  ℕ, zero, suc, ◌+◌, ◌-◌, ◌%◌, ◌^◌, ◌≤◌, ◌<◌, ◌≡◌, refl, ap, ◌∙◌, List, [], ◌∷◌, ◌++◌, set, length,
  arith, get_or, ltb, leb, ◌==◌, if◌then◌else◌, get_or-set_self, get_or-set_ne, length-set,
  get_or-append_left, get_or-append_right, dec_lt, subst, ◌⊎◌, inl, inr, length-append,
}
use ykb_firmware.Scanner.Kscan.{store_round, max_amount}
use ykb_firmware.Scanner.Kscan.Stable.{row, rows, key_sum, length-row}

-- The multiplexer and the channel of key `k`, from multiplexer `j` on.
unfoldable pub mux_of : List ℕ → ℕ → ℕ → ℕ
mux_of [] j k = j
mux_of (amount ∷ amounts) j k =
    let rest = mux_of amounts (suc j) (k - amount) in if ltb k amount then j else rest

unfoldable pub channel_of : List ℕ → ℕ → ℕ
channel_of [] k = k
channel_of (amount ∷ amounts) k =
    let rest = channel_of amounts (k - amount) in if ltb k amount then k else rest

pub mux_of_bound :
    (amounts : List ℕ) (j k : ℕ) → k < key_sum amounts → mux_of amounts j k < j + length amounts
unfolding mux_of key_sum
mux_of_bound [] j k h = omega arith
mux_of_bound (amount ∷ amounts) j k h =
    ground (arith, dec_lt k amount, mux_of_bound amounts (suc j) (k - amount))

pub channel_of_bound :
    (amounts : List ℕ) (k : ℕ) → k < key_sum amounts → channel_of amounts k < max_amount amounts
unfolding channel_of key_sum max_amount
channel_of_bound [] k h = omega arith
channel_of_bound (amount ∷ amounts) k h = ground (arith, channel_of_bound amounts (k - amount))

get_or-row :
    (reading : ℕ → ℕ → ℕ) (j i left k : ℕ)
    → k < left
    → get_or (row reading j i left) k 0 ≡ reading j (i + k)
unfolding row
get_or-row reading j i zero k h = omega arith
get_or-row reading j i (suc left) zero h = ap (reading j) (omega arith)
get_or-row reading j i (suc left) (suc k) h =
    get_or-row reading j (suc i) left k (omega arith) ∙ ap (reading j) (omega arith)

pub length-rows :
    (reading : ℕ → ℕ → ℕ) (j : ℕ) (amounts : List ℕ)
    → length (rows reading j amounts) ≡ key_sum amounts
unfolding rows key_sum
length-rows reading j [] = refl
length-rows reading j (amount ∷ amounts) = omega (
  arith,
  length-append (row reading j 0 amount) (rows reading (suc j) amounts),
  length-row reading j 0 amount,
  length-rows reading (suc j) amounts,
)

pub get_or-rows :
    (reading : ℕ → ℕ → ℕ) (j : ℕ) (amounts : List ℕ) (k : ℕ)
    → k < key_sum amounts
    → get_or (rows reading j amounts) k 0 ≡ reading (mux_of amounts j k) (channel_of amounts k)
unfolding rows key_sum mux_of channel_of
get_or-rows reading j [] k h = omega arith
get_or-rows reading j (amount ∷ amounts) k h =
    let first = row reading j 0 amount in
    let later = rows reading (suc j) amounts in
    let size = length-row reading j 0 amount in
    elim (dec_lt k amount) [
      | yes l ↦ ground (
        arith,
        get_or-append_left first later k 0 (omega (arith, size)),
        get_or-row reading j 0 amount k l,
      )
      | no g ↦
          let at : length first + (k - amount) ≡ k = omega (arith, size) in
          let value = get_or-append_right first later (k - amount) 0 in
          ground (
            arith,
            ap (λ x. get_or (first ++ later) x 0) at,
            value,
            get_or-rows reading (suc j) amounts (k - amount) (omega arith),
          )
    ]

-- A round leaves what lies before the keys of the multiplexers, and after them, and the length.
length-store_round :
    (i j offset : ℕ) (amounts buf values : List ℕ)
    → length (store_round i j offset amounts buf values) ≡ length values
unfolding store_round
length-store_round i j offset [] buf values = refl
length-store_round i j offset (amount ∷ amounts) buf values =
    let at = (offset + i) % 2 ^ 16 in
    ground (
      arith,
      length-set values at (get_or buf j 0),
      length-store_round i (suc j) ((offset + amount) % 2 ^ 16) amounts buf
          (if leb amount i then values else set values at (get_or buf j 0)),
    )

store_round_out :
    (i j offset : ℕ) (amounts buf values : List ℕ) (x : ℕ)
    → offset + key_sum amounts < 2 ^ 16
    → x < offset ⊎ offset + key_sum amounts ≤ x
    → get_or (store_round i j offset amounts buf values) x 0 ≡ get_or values x 0
unfolding store_round key_sum
store_round_out i j offset [] buf values x h out = refl
store_round_out i j offset (amount ∷ amounts) buf values x h out =
    let b = get_or buf j 0 in
    ground (
      arith,
      get_or-set_ne values ((offset + i) % 2 ^ 16) x b 0,
      store_round_out i (suc j) ((offset + amount) % 2 ^ 16) amounts buf
          (if leb amount i then values else set values ((offset + i) % 2 ^ 16) b) x (omega arith)
          (at_end out),
    )
  where
    at_end :
        x < offset ⊎ offset + (amount + key_sum amounts) ≤ x
        → x < (offset + amount) % 2 ^ 16 ⊎ (offset + amount) % 2 ^ 16 + key_sum amounts ≤ x
    at_end (inl l) = inl (omega arith)
    at_end (inr g) = inr (omega arith)

-- A round writes the sample of the keys that have its channel, and no other key.
get_or-store_round :
    (i j offset : ℕ) (amounts buf values : List ℕ) (k : ℕ)
    → offset + key_sum amounts < 2 ^ 16
    → offset + key_sum amounts ≤ length values
    → k < key_sum amounts
    → get_or (store_round i j offset amounts buf values) (offset + k) 0 ≡ (
        if channel_of amounts k == i
        then get_or buf (mux_of amounts j k) 0
        else get_or values (offset + k) 0)
unfolding store_round key_sum channel_of mux_of
get_or-store_round i j offset [] buf values k h room hk = omega arith
get_or-store_round i j offset (amount ∷ amounts) buf values k h room hk =
    let b = get_or buf j 0 in
    let at = (offset + i) % 2 ^ 16 in
    let next = (offset + amount) % 2 ^ 16 in
    let values' = if leb amount i then values else set values at b in
    let outside = store_round_out i (suc j) next amounts buf values' (offset + k) (omega arith) in
    let others = get_or-set_ne values at (offset + k) b 0 in
    elim (dec_lt k amount) [
      | yes l ↦ ground (arith, outside (inl (omega arith)), others, get_or-set_self values at b 0)
      | no g ↦
          let size : length values' ≡ length values = ground (arith, length-set values at b) in
          let shift : next + (k - amount) ≡ offset + k = omega arith in
          ground (
            arith,
            others,
            ap (λ x. get_or (store_round i (suc j) next amounts buf values') x 0) shift,
            ap (λ x. get_or values' x 0) shift,
            get_or-store_round i (suc j) next amounts buf values' (k - amount) (omega arith)
                (omega (arith, size)) (omega arith),
          )
    ]

-- The array after `left` rounds from round `i` on, when every device answers.
unfoldable pub rounds : (ℕ → List ℕ) → ℕ → ℕ → List ℕ → List ℕ → List ℕ
rounds buf i zero amounts values = values
rounds buf i (suc left) amounts values =
    rounds buf (suc i) left amounts (store_round i 0 0 amounts (buf i) values)

pub length-rounds :
    (buf : ℕ → List ℕ) (i left : ℕ) (amounts values : List ℕ)
    → length (rounds buf i left amounts values) ≡ length values
unfolding rounds
length-rounds buf i zero amounts values = refl
length-rounds buf i (suc left) amounts values =
    length-rounds buf (suc i) left amounts (store_round i 0 0 amounts (buf i) values)
    ∙ length-store_round i 0 0 amounts (buf i) values

module _ (buf : ℕ → List ℕ) (amounts : List ℕ) (small : key_sum amounts < 2 ^ 16) where
  round_out :
      (i : ℕ) (values : List ℕ) (x : ℕ)
      → key_sum amounts ≤ x
      → get_or (store_round i 0 0 amounts (buf i) values) x 0 ≡ get_or values x 0
  round_out i values x out =
      store_round_out i 0 0 amounts (buf i) values x (omega arith) (inr (omega arith))

  round_key :
      (i : ℕ) (values : List ℕ) (k : ℕ)
      → key_sum amounts ≤ length values
      → k < key_sum amounts
      → get_or (store_round i 0 0 amounts (buf i) values) k 0 ≡ (
          if channel_of amounts k == i
          then get_or (buf i) (mux_of amounts 0 k) 0
          else get_or values k 0)
  round_key i values k room hk =
      let at : 0 + k ≡ k = omega arith in
      subst
        (λ x. get_or (store_round i 0 0 amounts (buf i) values) x 0 ≡ (
          if channel_of amounts k == i
          then get_or (buf i) (mux_of amounts 0 k) 0
          else get_or values x 0))
        at (get_or-store_round i 0 0 amounts (buf i) values k (omega arith) (omega arith) hk)

  pub rounds_out :
      (i left : ℕ) (values : List ℕ) (x : ℕ)
      → key_sum amounts ≤ x
      → get_or (rounds buf i left amounts values) x 0 ≡ get_or values x 0
  unfolding rounds
  rounds_out i zero values x out = refl
  rounds_out i (suc left) values x out =
      rounds_out (suc i) left (store_round i 0 0 amounts (buf i) values) x out
      ∙ round_out i values x out

  -- A key whose channel the rounds have passed keeps its value.
  rounds_past :
      (i left : ℕ) (values : List ℕ) (k : ℕ)
      → key_sum amounts ≤ length values
      → k < key_sum amounts
      → channel_of amounts k < i
      → get_or (rounds buf i left amounts values) k 0 ≡ get_or values k 0
  unfolding rounds
  rounds_past i zero values k room hk past = refl
  rounds_past i (suc left) values k room hk past =
      let values' = store_round i 0 0 amounts (buf i) values in
      let size = length-store_round i 0 0 amounts (buf i) values in
      ground (
        arith,
        rounds_past (suc i) left values' k (omega (arith, size)) hk (omega arith),
        round_key i values k room hk,
      )

  pub rounds_hit :
      (i left : ℕ) (values : List ℕ) (k : ℕ)
      → key_sum amounts ≤ length values
      → k < key_sum amounts
      → i ≤ channel_of amounts k
      → channel_of amounts k < i + left
      → get_or (rounds buf i left amounts values) k 0
        ≡ get_or (buf (channel_of amounts k)) (mux_of amounts 0 k) 0
  unfolding rounds
  rounds_hit i zero values k room hk from to = omega arith
  rounds_hit i (suc left) values k room hk from to =
      let values' = store_round i 0 0 amounts (buf i) values in
      let size = length-store_round i 0 0 amounts (buf i) values in
      let now = round_key i values k room hk in
      elim (dec_lt i (channel_of amounts k)) [
        | yes later ↦ rounds_hit (suc i) left values' k (omega (arith, size)) hk later (omega arith)
        | no g ↦
            let same : channel_of amounts k ≡ i = omega arith in
            ground (
              arith,
              now,
              same,
              ap buf same,
              rounds_past (suc i) left values' k (omega (arith, size)) hk (omega arith),
            )
      ]
