-- ===== src/Scanner/Kscan/Stable.antt =====
-- Where the values of a scan go.
use ykb_firmware.Base.{
  ℕ, zero, suc, ◌+◌, ◌%◌, ◌^◌, ◌<◌, ◌≡◌, refl, sym, ap, ◌∙◌, true, some, List, [], ◌∷◌, ◌++◌, set,
  length, arith, copy_into,
}
use ykb_firmware.Scanner.Kscan.{Inputs, scan_ok, scan_mux, is_scan_ok, stable_scan}

-- Devices that all answer, channel `i` of multiplexer `j` with the value `reading j i`.
pub record IsGood (inp : Inputs) (reading : ℕ → ℕ → ℕ) : Type 0 where
  pub enabled : (j : ℕ) → inp.enables j ≡ true
  pub disabled : (j : ℕ) → inp.disables j ≡ true
  pub selected : (j i : ℕ) → inp.selects j i ≡ true
  pub value : (j i : ℕ) → inp.reads j i ≡ some (reading j i)

-- The values of one multiplexer from channel `i` on, and of all from multiplexer `j` on.
unfoldable pub row : (ℕ → ℕ → ℕ) → ℕ → ℕ → ℕ → List ℕ
row reading j i zero = []
row reading j i (suc left) = reading j i ∷ row reading j (suc i) left

unfoldable pub rows : (ℕ → ℕ → ℕ) → ℕ → List ℕ → List ℕ
rows reading j [] = []
rows reading j (amount ∷ amounts) = row reading j 0 amount ++ rows reading (suc j) amounts

pub length-row : (reading : ℕ → ℕ → ℕ) (j i left : ℕ) → length (row reading j i left) ≡ left
unfolding row
length-row reading j i zero = refl
length-row reading j i (suc left) = ap suc (length-row reading j (suc i) left)

copy_into-append {ℓ} :
    {A : Type ℓ} (dst : List A) (off : ℕ) (xs ys : List A)
    → copy_into dst off (xs ++ ys) ≡ copy_into (copy_into dst off xs) (off + length xs) ys
unfolding copy_into
copy_into-append dst off [] ys = ap (λ k. copy_into dst k ys) (omega arith)
copy_into-append dst off (x ∷ xs) ys =
    copy_into-append (set dst off x) (suc off) xs ys
    ∙ ap (λ k. copy_into (copy_into (set dst off x) (suc off) xs) k ys) (omega arith)

-- The keys of all multiplexers.
unfoldable pub key_sum : List ℕ → ℕ
key_sum [] = 0
key_sum (amount ∷ amounts) = amount + key_sum amounts

joined :
    (reading : ℕ → ℕ → ℕ) (values : List ℕ) (offset j amount : ℕ) (amounts : List ℕ)
    → copy_into values offset (row reading j 0 amount ++ rows reading (suc j) amounts)
      ≡ copy_into
          (copy_into values offset (row reading j 0 amount))
          (offset + amount)
          (rows reading (suc j) amounts)
joined reading values offset j amount amounts =
    copy_into-append values offset (row reading j 0 amount) (rows reading (suc j) amounts)
    ∙ ap
        (λ k.
          copy_into (copy_into values offset (row reading j 0 amount)) (offset + k)
            (rows reading (suc j) amounts))
        (length-row reading j 0 amount)

module _ (inp : Inputs) (reading : ℕ → ℕ → ℕ) (g : IsGood inp reading) where
  scan_mux-row :
      (j offset i left : ℕ) (values : List ℕ)
      → offset + i + left < 2 ^ 16
      → scan_mux inp j offset i left values
        ≡ (scan_ok, copy_into values (offset + i) (row reading j i left))
  unfolding scan_mux row copy_into
  scan_mux-row j offset i zero values h = refl
  scan_mux-row j offset i (suc left) values h =
      let small : (offset + i) % 2 ^ 16 ≡ offset + i = omega arith in
      simp (scan_mux, g.value j i, g.selected j i, small)
        (scan_mux-row j offset (suc i) left (set values (offset + i) (reading j i)) (omega arith)
          ∙ ap
              (λ k. (
                scan_ok,
                copy_into (set values (offset + i) (reading j i)) k (row reading j (suc i) left),
              ))
              (omega arith))

  pub stable_scan-rows :
      (amounts : List ℕ) (j offset : ℕ) (values : List ℕ)
      → offset + key_sum amounts < 2 ^ 16
      → stable_scan inp j offset amounts values
        ≡ (scan_ok, copy_into values offset (rows reading j amounts))
  unfolding stable_scan rows key_sum is_scan_ok copy_into
  stable_scan-rows [] j offset values h = refl
  stable_scan-rows (amount ∷ amounts) j offset values h =
      let at : offset + 0 ≡ offset = omega arith in
      let small : (offset + amount) % 2 ^ 16 ≡ offset + amount = omega (arith) in
      let first = scan_mux-row j offset 0 amount values (omega arith) in
      simp (stable_scan, first, small, at)
        (stable_scan-rows amounts (suc j) (offset + amount)
            (copy_into values offset (row reading j 0 amount)) (omega arith)
          ∙ sym (ap (λ vs. (scan_ok, vs)) (joined reading values offset j amount amounts)))
