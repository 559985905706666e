-- ===== src/KbHandler/Topology/Cover.antt =====
-- A topology is valid exactly when its scanners cover the expected keys without gap or overlap.
use ykb_firmware.Base.{
  ℕ, ◌+◌, Bool, true, false, List, [], ◌∷◌, ltb, ◌==◌, ◌≡◌, refl, sym, ap, ◌∙◌, arith, Bool-cases,
  inl, inr, ◌↔◌, subst,
}
use ykb_firmware.Base.Int.{ℤ, pos, negsuc}
use ykb_firmware.KbHandler.Topology.{
  Kscan, Verdict, valid, read, covers, check_kscans, validate_kscan_topology, Tiles, tiled, tile,
}

-- The keys still expected are those from `start` on.
pub record Covered (count total : ℕ) (kscans : List Kscan) (start : ℕ) : Type 0 where
  pub rest : ℕ
  pub sum : total + rest ≡ count
  pub tiles : Tiles start rest kscans

-- The scanners cover `count` keys from some start on.
pub record IsTiling (count : ℕ) (kscans : List Kscan) : Type 0 where
  pub start : ℕ
  pub tiles : Tiles start count kscans

is_valid : Verdict → Bool
is_valid valid = true
is_valid _ = false

invalid_ne : {A : Type 0} (v : Verdict) → is_valid v ≡ false → v ≡ valid → A
unfolding is_valid
invalid_ne v h e = absurd (true_false (sym (ap is_valid e) ∙ h))
  where
    true_false : true ≡ false → ⊥
    true_false p = ground arith

ltb_neither : (a b : ℕ) → ltb a b ≡ false → ltb b a ≡ false → a ≡ b
ltb_neither a b h k = ground arith

ltb_self : (a : ℕ) → ltb a a ≡ false
ltb_self a = ground arith

-- The loop after the first scanner.
after_sound :
    (count expected total : ℕ) (kscans : List Kscan)
    → check_kscans count true expected total kscans ≡ valid
    → Covered count total kscans expected
unfolding check_kscans read is_valid
after_sound count expected total [] h = elim (Bool-cases (total == count)) [
  | inl e ↦ record { rest = 0; sum = ground arith; tiles = tiled refl }
  | inr e ↦ invalid_ne _ refl (simp e at h)
]
after_sound count expected total (k ∷ kscans) h =
    step k.offset k.amount (λ e t. after_sound count e t kscans) h
  where
    step :
        (o a : ℤ)
        → ((e t : ℕ) → check_kscans count true e t kscans ≡ valid → Covered count t kscans e)
        → check_kscans count true expected total (record { offset = o; amount = a } ∷ kscans)
          ≡ valid
        → Covered count total (record { offset = o; amount = a } ∷ kscans) expected
    step (negsuc e) a ih h = invalid_ne _ refl h
    step (pos o) (negsuc e) ih h = invalid_ne _ refl h
    step (pos o) (pos a) ih h = elim (Bool-cases (ltb expected o)) [
      | inl l ↦ invalid_ne _ refl (simp l at h)
      | inr l ↦ elim (Bool-cases (ltb o expected)) [
        | inl g ↦ invalid_ne _ refl (simp (l, g) at h)
        | inr g ↦ joined (ltb_neither o expected g l) (ih (o + a) (total + a) (simp (l, g) at h))
      ]
    ]
      where
        joined :
            o ≡ expected
            → Covered count (total + a) kscans (o + a)
            → Covered count total (record { offset = pos o; amount = pos a } ∷ kscans) expected
        joined e c = record {
          rest = a + c.rest;
          sum = omega (arith, c.sum);
          tiles =
              tile (ap pos e) refl refl (subst (λ (n : ℕ). Tiles (n + a) c.rest kscans) e c.tiles);
        }

read_pos : (o a : ℤ) (x y : ℕ) → o ≡ pos x → a ≡ pos y → read o a ≡ covers x y
unfolding read
read_pos o a x y e f = rw (e, f)

after_complete :
    (count expected total rest : ℕ) (kscans : List Kscan)
    → Tiles expected rest kscans
    → total + rest ≡ count
    → check_kscans count true expected total kscans ≡ valid
unfolding check_kscans
after_complete count expected total rest [] (tiled z) e = ground arith
after_complete count expected total rest (k ∷ kscans) (tile {m = m} {amount = amount} eo ea en t)
      e =
    rw (read_pos k.offset k.amount expected amount eo ea, check_kscans)
      (simp (ltb_self expected)
        (after_complete count (expected + amount) (total + amount) m kscans t (omega arith)))

first_sound :
    (count : ℕ) (kscans : List Kscan) (o a : ℤ)
    → validate_kscan_topology count (record { offset = o; amount = a } ∷ kscans) ≡ valid
    → IsTiling count (record { offset = o; amount = a } ∷ kscans)
unfolding validate_kscan_topology check_kscans read is_valid
first_sound count kscans (negsuc e) a h = invalid_ne _ refl h
first_sound count kscans (pos o) (negsuc e) h = invalid_ne _ refl h
first_sound count kscans (pos o) (pos a) h =
    let c = after_sound count (o + a) (0 + a) kscans h in
    record { start = o; tiles = tile refl refl (omega (arith, c.sum)) c.tiles }

-- The check passes exactly for the scanners that cover `count` keys, each beginning where the one before it ends.
pub validate_kscan_topology-IsTiling :
    (count : ℕ) (kscans : List Kscan)
    → (validate_kscan_topology count kscans ≡ valid) ↔ IsTiling count kscans
unfolding validate_kscan_topology check_kscans read is_valid
validate_kscan_topology-IsTiling count kscans = (sound kscans, complete kscans)
  where
    sound :
        (kscans : List Kscan) → validate_kscan_topology count kscans ≡ valid → IsTiling count kscans
    sound [] h = elim (Bool-cases (0 == count)) [
      | inl e ↦ record { start = 0; tiles = tiled (ground arith) }
      | inr e ↦ invalid_ne _ refl (simp e at h)
    ]
    sound (k ∷ kscans) h = first_sound count kscans k.offset k.amount h

    covered :
        (start n : ℕ) (kscans : List Kscan)
        → Tiles start n kscans
        → n ≡ count
        → check_kscans count false 0 0 kscans ≡ valid
    covered start n [] (tiled z) e = ground arith
    covered start n (k ∷ kscans) (tile {m = m} {amount = amount} eo ea en t) e =
        rw (read_pos k.offset k.amount start amount eo ea, check_kscans)
          (after_complete count (start + amount) (0 + amount) m kscans t (omega arith))

    complete :
        (kscans : List Kscan) → IsTiling count kscans → validate_kscan_topology count kscans ≡ valid
    complete kscans t = covered t.start count kscans t.tiles refl
