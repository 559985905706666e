-- ===== src/Splitlink/Scripts/Compare.antt =====
-- The comparison of the slave's slots with a manifest: splitlink_sync_slave.c of subsys/splitlink/src/sync.
use ykb_firmware.Base.{
  ℕ, zero, suc, ◌+◌, ◌/◌, ◌≤◌, ◌<◌, ◌≡◌, refl, ◌∙◌, Bool, true, false, ◌||◌, ◌&&◌, some, List, [],
  ◌∷◌, ◌==◌, length, arith, inl, inr, Bool-cases, ==_refl, ==_ne, ℕ_discrete,
}
use ykb_firmware.Protocol.Bitmap.{
  IsBitmap, bitmap_test, bitmap_set, bitmap_test-bitmap_set, bitmap_set-IsBitmap, length-bitmap_set,
}
use ykb_firmware.Splitlink.Scripts.{
  Script, Entry, script_at, differ, entry_of, build_manifest, mismatch, note_mismatch,
  compare_slots,
}

differ_same : (b : Bool) → differ b b ≡ false
unfolding differ
differ_same true = refl
differ_same false = refl

pub or_both : (a b : Bool) → (a || b) ≡ false → (a ≡ false) × (b ≡ false)
or_both false b h = (refl, h)
or_both true b h = ground arith

and_here : (i : ℕ) (b : Bool) → (i == i && b) ≡ false → b ≡ false
and_here i b h = ground (arith, ==_refl i)

and_never : (a : Bool) → (a && false || false) ≡ false
and_never true = refl
and_never false = refl

module _ {A : Type 0} (crc : Script A → ℕ) where
  -- The slots from `i` on that differ from the manifest.
  unfoldable pub differing : List (Script A) → ℕ → List Entry → ℕ → Bool
  differing slots i [] k = false
  differing slots i (e ∷ es) k =
      i == k && mismatch crc e (script_at slots i) || differing slots (suc i) es k

  -- A slot is never different from its own entry.
  pub mismatch-entry_of : (s : Script A) → mismatch crc (entry_of crc (some s)) (some s) ≡ false
  unfolding mismatch entry_of
  mismatch-entry_of s = simp (differ_same s.occupied, ==_refl s.size, ==_refl (crc s)) refl

  -- The bitmap has the bits of the slots that differ, besides those it had.
  pub compare_slots-bits :
      (slots : List (Script A)) (i : ℕ) (es : List Entry) (acc : Bool × List ℕ) (k : ℕ)
      → IsBitmap acc.1
      → (i + length es + 7) / 8 ≤ length acc.1
      → bitmap_test (compare_slots crc slots i es acc).1 k
        ≡ (differing slots i es k || bitmap_test acc.1 k)
  unfolding compare_slots differing note_mismatch
  compare_slots-bits slots i [] acc k b h = refl
  compare_slots-bits slots i (e ∷ es) acc k b h =
      elim (Bool-cases (mismatch crc e (script_at slots i))) [
        | inr same ↦
            simp (same) (compare_slots-bits slots (suc i) es acc k b (omega arith) ∙ ground arith)
        | inl other ↦ simp (other) (
            compare_slots-bits slots (suc i) es (true, bitmap_set acc.1 i) k
              (bitmap_set-IsBitmap acc.1 i (omega arith) b)
              (omega (arith, length-bitmap_set acc.1 i))
            ∙ ground (arith, bitmap_test-bitmap_set acc.1 i k b (omega arith)))
      ]

  -- Where no slot differs, nothing is noted.
  pub compare_slots-same :
      (slots : List (Script A)) (i : ℕ) (es : List Entry) (acc : Bool × List ℕ)
      → ((k : ℕ) → differing slots i es k ≡ false)
      → compare_slots crc slots i es acc ≡ acc
  unfolding compare_slots differing note_mismatch
  compare_slots-same slots i [] acc none_differ = refl
  compare_slots-same slots i (e ∷ es) acc none_differ =
      let same : mismatch crc e (script_at slots i) ≡ false =
        and_here i _ (or_both _ _ (none_differ i)).0 in
      let rest : (k : ℕ) → differing slots (suc i) es k ≡ false =
        λ k. (or_both _ _ (none_differ k)).1 in
      simp (same) (compare_slots-same slots (suc i) es acc rest)

  -- A slot that differs is noted.
  pub differing_lem :
      (master_slots slots : List (Script A)) (i left k : ℕ)
      → i ≤ k
      → k < i + left
      → mismatch crc (entry_of crc (script_at master_slots k)) (script_at slots k) ≡ true
      → differing slots i (build_manifest crc master_slots i left) k ≡ true
  unfolding differing build_manifest
  differing_lem master_slots slots i zero k lo hi other = ground arith
  differing_lem master_slots slots i (suc left) k lo hi other = elim (ℕ_discrete i k) [
    | yes e ↦ simp (e, ==_refl k, other) refl
    | no ne ↦
        simp (==_ne i k ne)
          (differing_lem master_slots slots (suc i) left k (omega arith) (omega arith) other)
  ]

  -- If every slot of the manifest agrees, none differs.
  pub agreeing :
      (master_slots slots : List (Script A)) (i left k : ℕ)
      → ((j : ℕ)
          → j < i + left
          → mismatch crc (entry_of crc (script_at master_slots j)) (script_at slots j) ≡ false)
      → differing slots i (build_manifest crc master_slots i left) k ≡ false
  unfolding differing build_manifest
  agreeing master_slots slots i zero k agree = refl
  agreeing master_slots slots i (suc left) k agree =
      let here = agree i (omega arith) in
      let rest = agreeing master_slots slots (suc i) left k (λ j h. agree j (omega arith)) in
      simp (here, rest) (and_never (i == k))
