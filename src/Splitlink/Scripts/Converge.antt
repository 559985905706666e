-- ===== src/Splitlink/Scripts/Converge.antt =====
-- What the slave asks for, and what it has once it was sent.
use ykb_firmware.Base.{
  ℕ, zero, suc, ◌+◌, ◌/◌, ◌≤◌, ◌<◌, ◌≡◌, refl, sym, ap, subst, ◌∙◌, ◌≢◌, Bool, true, false, ◌||◌,
  none, some, List, [], ◌∷◌, if◌then◌else◌, replicate, length, take, arith, inl, inr, Bool-cases,
  length-replicate, ==_refl, ==_ne, ℕ_discrete,
}
use ykb_firmware.Protocol.Bitmap.{
  IsBitmap, bitmap_size_bytes, bitmap_test, bitmap_clear_all, bitmap_clear_all-IsBitmap,
  bitmap_test-bitmap_clear_all,
}
use ykb_firmware.Protocol.Exchange.Delivery.{contains}
use ykb_firmware.Splitlink.Scripts.{
  Script, Entry, script_at, entry_of, build_manifest, mismatch, compare_slots, manifest_received,
  requested, slots_received,
}
use ykb_firmware.Splitlink.Scripts.Compare.{
  differing, mismatch-entry_of, compare_slots-bits, compare_slots-same, differing_lem, agreeing,
}
use ykb_firmware.Splitlink.Scripts.Received.{
  script_at-below, slots_received-master, slots_received-other, length-slots_received,
}

length-build_manifest :
    {A : Type 0} (crc : Script A → ℕ) (slots : List (Script A)) (i left : ℕ)
    → length (build_manifest crc slots i left) ≡ left
unfolding build_manifest
length-build_manifest crc slots i zero = refl
length-build_manifest crc slots i (suc left) = ap suc (length-build_manifest crc slots (suc i) left)

requested_lem :
    (bitmap : List ℕ) (i left k : ℕ)
    → i ≤ k
    → k < i + left
    → bitmap_test bitmap k ≡ true
    → contains k (requested bitmap i left) ≡ true
unfolding requested
requested_lem bitmap i zero k lo hi bit = ground arith
requested_lem bitmap i (suc left) k lo hi bit = elim (ℕ_discrete i k) [
  | yes e ↦ rw (requested, e, bit, ==_refl k) refl
  | no ne ↦
      let later = requested_lem bitmap (suc i) left k (omega arith) (omega arith) bit in
      elim (Bool-cases (bitmap_test bitmap i)) [
        | inl here ↦ rw (requested, here, ==_ne i k ne) later
        | inr off ↦ rw (requested, off) later
      ]
]

zeros-IsBitmap : (n : ℕ) → IsBitmap (replicate n 0)
unfolding bitmap_clear_all
zeros-IsBitmap n =
    subst (λ m. IsBitmap (replicate m 0)) (length-replicate n 0)
      (bitmap_clear_all-IsBitmap (replicate n 0))

bitmap_test-zeros : (n k : ℕ) → bitmap_test (replicate n 0) k ≡ false
unfolding bitmap_clear_all
bitmap_test-zeros n k =
    subst (λ m. bitmap_test (replicate m 0) k ≡ false) (length-replicate n 0)
      (bitmap_test-bitmap_clear_all (replicate n 0) k)

pub take-all {ℓ} : {A : Type ℓ} (n : ℕ) (xs : List A) → length xs ≤ n → take n xs ≡ xs
take-all zero [] h = refl
take-all zero (x ∷ xs) h = ground arith
take-all (suc n) [] h = refl
take-all (suc n) (x ∷ xs) h = ap (λ ys. x ∷ ys) (take-all n xs (omega arith))

zeros_le {ℓ} :
    {A : Type ℓ} (slots : List A) (es : List Entry)
    → length es ≤ length slots
    → (0 + length es + 7) / 8 ≤ length {A = ℕ} (replicate (bitmap_size_bytes (length slots)) 0)
unfolding bitmap_size_bytes
zeros_le slots es h = rw (length-replicate {A = ℕ} ((length slots + 7) / 8) 0) (omega arith)

or_nothing : (b : Bool) → (b || false) ≡ b
or_nothing true = refl
or_nothing false = refl

false_ne_true : false ≢ true
false_ne_true e = cc

request_of {ℓ} :
    {A : Type ℓ} (any : Bool) (a b : A) → (if any then some a else none) ≡ some b → a ≡ b
request_of true a b e = cc
request_of false a b e = cc

module _ {A : Type 0} (crc : Script A → ℕ) where
  -- The slave that reads its `n` slots without error asks for exactly the slots whose occupied flag, size or
  -- checksum is not the manifest's, and asks for none when all agree.
  pub manifest_received_lem :
      (slots : List (Script A)) (es : List Entry)
      → length es ≤ length slots
      → ((bitmap : List ℕ)
          → manifest_received crc slots es ≡ some bitmap
          → (k : ℕ) → bitmap_test bitmap k ≡ differing crc slots 0 es k)
        × (((k : ℕ) → differing crc slots 0 es k ≡ false) → manifest_received crc slots es ≡ none)
  unfolding manifest_received
  manifest_received_lem slots es h =
      rw (take-all (length slots) es h)
        let n = bitmap_size_bytes (length slots) in
          let blank = zeros-IsBitmap n in
          let result = compare_slots crc slots 0 es (false, replicate n 0) in
          (
            λ bitmap e k.
                ap (λ bm. bitmap_test bm k) (sym (request_of result.0 result.1 bitmap e))
                ∙ compare_slots-bits crc slots 0 es (false, replicate n 0) k blank
                    (zeros_le slots es h)
                ∙ ap (λ b. differing crc slots 0 es k || b) (bitmap_test-zeros n k)
                ∙ or_nothing (differing crc slots 0 es k),
            λ none_differ.
                rw (compare_slots-same crc slots 0 es (false, replicate n 0) none_differ) refl,
          )

  -- When the master's scripts fit a slot and both halves have as many slots: after the master's scripts of the
  -- slots that the slave asked for (and perhaps others, in any order and
  -- repeated) have come, the same manifest finds nothing to ask for.
  pub manifest_received-slots_received :
      (slot_size : ℕ) (master_slots : List (Script A))
      (fits : (i : ℕ) (s : Script A) → script_at master_slots i ≡ some s → s.size ≤ slot_size)
      (slots : List (Script A)) (bitmap : List ℕ) (is : List ℕ)
      → length master_slots ≡ length slots
      → manifest_received crc slots (build_manifest crc master_slots 0 (length master_slots))
        ≡ some bitmap
      → ((k : ℕ) → contains k (requested bitmap 0 (length slots)) ≡ true → contains k is ≡ true)
      → manifest_received crc
          (slots_received slot_size master_slots slots is)
          (build_manifest crc master_slots 0 (length master_slots))
        ≡ none
  manifest_received-slots_received slot_size master_slots fits slots bitmap is same asked sent =
      (manifest_received_lem (slots_received slot_size master_slots slots is) _ (
          omega (
            arith,
            length-build_manifest crc master_slots 0 (length master_slots),
            same,
            length-slots_received slot_size master_slots fits slots is,
          ))).1
        (λ k.
          agreeing crc master_slots (slots_received slot_size master_slots slots is) 0
            (length master_slots) k (λ j h. agree j (omega (arith, h))))
    where
      unasked :
          (j : ℕ)
          → j < length master_slots
          → contains j is ≡ false
          → mismatch crc (entry_of crc (script_at master_slots j)) (script_at slots j) ≡ false
      unasked j below not_sent =
          elim (Bool-cases
            (mismatch crc (entry_of crc (script_at master_slots j)) (script_at slots j))) [
              | inr e ↦ e
              | inl e ↦
                  let bit =
                    (manifest_received_lem slots _ (
                        omega (
                          arith,
                          length-build_manifest crc master_slots 0 (length master_slots),
                          same,
                        ))).0
                      bitmap asked j
                    ∙ differing_lem crc master_slots slots 0 (length master_slots) j (omega arith)
                        (omega (arith, below)) e in
                  absurd (
                    false_ne_true (
                      sym not_sent
                      ∙ sent j (
                          requested_lem bitmap 0 (length slots) j (omega arith)
                            (omega (arith, same, below)) bit)))
            ]

      agree :
          (j : ℕ)
          → j < length master_slots
          → mismatch crc
              (entry_of crc (script_at master_slots j))
              (script_at (slots_received slot_size master_slots slots is) j)
            ≡ false
      agree j below = elim (Bool-cases (contains j is)) [
        | inl come ↦
            let (s, present) = script_at-below master_slots j below in
            rw
              (
                slots_received-master slot_size master_slots fits slots is j
                    (omega (arith, same, below)) below come,
                present,
              )
              (mismatch-entry_of crc s)
        | inr not_sent ↦
            rw (slots_received-other slot_size master_slots fits slots is j not_sent)
              (unasked j below not_sent)
      ]
