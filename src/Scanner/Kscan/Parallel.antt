-- ===== src/Scanner/Kscan/Parallel.antt =====
-- Where the values of a parallel scan go: the samples come round by round, a channel of every multiplexer in
-- each, and are the same array in the end.
use ykb_firmware.Base.{
  ℕ, zero, suc, ◌^◌, ◌≤◌, ◌<◌, ◌≡◌, refl, sym, ap, ◌∙◌, true, some, List, [], ◌∷◌, length, arith,
  copy_into, get_or, eq_of_get_or, length-copy_into, get_or-copy_into_out, get_or-copy_into_start,
  dec_lt, inr,
}
use ykb_firmware.Scanner.Kscan.{
  Inputs, scan_ok, stable_scan, select_round, store_round, parallel_scan, max_amount,
}
use ykb_firmware.Scanner.Kscan.Stable.{IsGood, rows, key_sum, stable_scan-rows}
use ykb_firmware.Scanner.Kscan.Rounds.{
  channel_of, channel_of_bound, get_or-rows, length-rounds, length-rows, mux_of, mux_of_bound,
  rounds, rounds_hit, rounds_out,
}

-- The converter answers every round, with the value `reading j i` for multiplexer `j` of the first `count` in
-- round `i`.
pub record IsSampled (inp : Inputs) (reading : ℕ → ℕ → ℕ) (count : ℕ) : Type 0 where
  pub buf : ℕ → List ℕ
  pub answered : (i : ℕ) → inp.reads_all i ≡ some (buf i)
  pub sample : (i j : ℕ) → j < count → get_or (buf i) j 0 ≡ reading j i

module _ (inp : Inputs) (reading : ℕ → ℕ → ℕ) (g : IsGood inp reading) where
  select_round-true : (i j : ℕ) (amounts : List ℕ) → select_round inp i j amounts ≡ true
  unfolding select_round
  select_round-true i j [] = refl
  select_round-true i j (amount ∷ amounts) =
      ground (arith, g.selected j i, select_round-true i (suc j) amounts)

  module _ (amounts : List ℕ) (s : IsSampled inp reading (length amounts)) where
    parallel_scan-rounds :
        (i left : ℕ) (values : List ℕ)
        → parallel_scan inp i left amounts values ≡ (scan_ok, rounds s.buf i left amounts values)
    unfolding parallel_scan rounds
    parallel_scan-rounds i zero values = refl
    parallel_scan-rounds i (suc left) values =
        simp (parallel_scan, s.answered i, select_round-true i 0 amounts)
          (parallel_scan-rounds (suc i) left (store_round i 0 0 amounts (s.buf i) values))

    rounds-rows :
        (values : List ℕ)
        → key_sum amounts < 2 ^ 16
        → key_sum amounts ≤ length values
        → rounds s.buf 0 (max_amount amounts) amounts values
          ≡ copy_into values 0 (rows reading 0 amounts)
    rounds-rows values small room =
        eq_of_get_or _ _ 0
          (length-rounds s.buf 0 (max_amount amounts) amounts values
            ∙ sym (length-copy_into values 0 (rows reading 0 amounts)))
          cell
      where
        size : length (rows reading 0 amounts) ≡ key_sum amounts
        size = length-rows reading 0 amounts

        cell :
            (k : ℕ)
            → k < length (rounds s.buf 0 (max_amount amounts) amounts values)
            → get_or (rounds s.buf 0 (max_amount amounts) amounts values) k 0
              ≡ get_or (copy_into values 0 (rows reading 0 amounts)) k 0
        cell k h = elim (dec_lt k (key_sum amounts)) [
          | yes l ↦
              rounds_hit s.buf amounts small 0 (max_amount amounts) values k room l (omega arith)
                (omega (arith, channel_of_bound amounts k l))
              ∙ s.sample (channel_of amounts k) (mux_of amounts 0 k)
                  (omega (arith, mux_of_bound amounts 0 k l))
              ∙ sym (get_or-rows reading 0 amounts k l)
              ∙ sym (
                  get_or-copy_into_start values (rows reading 0 amounts) k 0 (omega (arith, size))
                    (omega (arith, size)))
          | no o ↦
              rounds_out s.buf amounts small 0 (max_amount amounts) values k (omega arith)
              ∙ sym (
                  get_or-copy_into_out values 0 (rows reading 0 amounts) k 0
                    (inr (omega (arith, size))))
        ]

  -- When the devices answer with the same values to a parallel scan as one by one, both give the same.
  pub parallel_scan-stable_scan :
      (amounts : List ℕ)
      → IsSampled inp reading (length amounts)
      → (values : List ℕ) → key_sum amounts < 2 ^ 16
      → key_sum amounts ≤ length values
      → parallel_scan inp 0 (max_amount amounts) amounts values ≡ stable_scan inp 0 0 amounts values
  parallel_scan-stable_scan amounts s values small room =
      parallel_scan-rounds amounts s 0 (max_amount amounts) values
      ∙ ap (λ vs. (scan_ok, vs)) (rounds-rows amounts s values small room)
      ∙ sym (stable_scan-rows inp reading g amounts 0 0 values (omega arith))
