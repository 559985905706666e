-- ===== src/Metrics/Units.antt =====
-- The table of the scanners' units in ykb_metrics.c.
use ykb_firmware.Base.{
  ℕ, zero, suc, ◌≡◌, ◌≢◌, ◌∙◌, refl, sym, ap, Bool, true, false, ◌&&◌, Option, none, some, List, [],
  ◌∷◌, ◌==◌, arith, inl, inr, Bool-cases, Option-cases, ==_refl,
}
use ykb_firmware.Metrics.{
  KscanUnit, is_free, is_unit, find_unit, shift, update, register, kscan_unit_get,
}

-- No device and unit have two places in the table.
abbrev pub IsDistinct : List KscanUnit → Type 0
IsDistinct [] = Unit
IsDistinct (u ∷ units) =
    (u.registered ≡ true → find_unit (is_unit u.dev u.unit_idx) units ≡ none) × IsDistinct units

find_head :
    (test : KscanUnit → Bool) (u : KscanUnit) (units : List KscanUnit)
    → test u ≡ true
    → find_unit test (u ∷ units) ≡ some zero
unfolding find_unit
find_head test u units e = simp e refl

find_tail :
    (test : KscanUnit → Bool) (u : KscanUnit) (units : List KscanUnit)
    → test u ≡ false
    → find_unit test (u ∷ units) ≡ shift (find_unit test units)
unfolding find_unit
find_tail test u units e = simp e refl

find_none :
    (test : KscanUnit → Bool) (u : KscanUnit) (units : List KscanUnit)
    → find_unit test (u ∷ units) ≡ none
    → (test u ≡ false) × (find_unit test units ≡ none)
find_none test u units e = elim (Bool-cases (test u)) [
  | inl hit ↦ cc (find_head test u units hit)
  | inr miss ↦ (miss, shift-none (find_unit test units) (sym (find_tail test u units miss) ∙ e))
]
  where
    shift-none : (o : Option ℕ) → shift o ≡ none → o ≡ none
    shift-none none e = refl
    shift-none (some i) e = cc

shift-suc : (o : Option ℕ) (i : ℕ) → shift o ≡ some (suc i) → o ≡ some i
shift-suc none i e = cc
shift-suc (some j) i e = cc

shift-zero : (o : Option ℕ) → shift o ≢ some zero
shift-zero none e = cc
shift-zero (some j) e = cc

find_zero :
    (test : KscanUnit → Bool) (u : KscanUnit) (units : List KscanUnit)
    → find_unit test (u ∷ units) ≡ some zero
    → test u ≡ true
find_zero test u units e = elim (Bool-cases (test u)) [
  | inl hit ↦ hit
  | inr miss ↦ absurd (shift-zero (find_unit test units) (sym (find_tail test u units miss) ∙ e))
]

find_suc :
    (test : KscanUnit → Bool) (u : KscanUnit) (units : List KscanUnit) (i : ℕ)
    → find_unit test (u ∷ units) ≡ some (suc i)
    → (test u ≡ false) × (find_unit test units ≡ some i)
find_suc test u units i e = elim (Bool-cases (test u)) [
  | inl hit ↦ cc (find_head test u units hit, e)
  | inr miss ↦ (miss, shift-suc (find_unit test units) i (sym (find_tail test u units miss) ∙ e))
]

same_unit :
    (dev unit_idx : ℕ) (u : KscanUnit) (dev' idx' : ℕ)
    → is_unit dev' idx' (register dev unit_idx u) ≡ (dev == dev' && unit_idx == idx')
unfolding is_unit register
same_unit dev unit_idx u dev' idx' = refl

free_is_not : (dev unit_idx : ℕ) (u : KscanUnit) → is_free u ≡ true → is_unit dev unit_idx u ≡ false
unfolding is_unit
free_is_not dev unit_idx u e = ground arith

same_self :
    (dev unit_idx : ℕ) (u : KscanUnit) → is_unit dev unit_idx (register dev unit_idx u) ≡ true
unfolding is_unit register
same_self dev unit_idx u = simp (==_refl dev, ==_refl unit_idx) refl

differs :
    (dev unit_idx : ℕ) (u : KscanUnit)
    → u.registered ≡ true
    → is_unit dev unit_idx u ≡ false
    → (dev == u.dev && unit_idx == u.unit_idx) ≡ false
unfolding is_unit
differs dev unit_idx u r e = ground arith

module _ (dev unit_idx : ℕ) where
  register-found :
      (units : List KscanUnit) (i : ℕ)
      → find_unit is_free units ≡ some i
      → find_unit (is_unit dev unit_idx) units ≡ none
      → find_unit (is_unit dev unit_idx) (update units i (register dev unit_idx)) ≡ some i
  unfolding update find_unit
  register-found [] i free absent = cc
  register-found (u ∷ units) zero free absent =
      find_head (is_unit dev unit_idx) (register dev unit_idx u) units (same_self dev unit_idx u)
  register-found (u ∷ units) (suc i) free absent =
      let (miss, absent') = find_none (is_unit dev unit_idx) u units absent in
      find_tail (is_unit dev unit_idx) u (update units i (register dev unit_idx)) miss
      ∙ ap shift (register-found units i (find_suc is_free u units i free).1 absent')

  register-none :
      (dev' idx' : ℕ) (units : List KscanUnit) (i : ℕ)
      → (dev == dev' && unit_idx == idx') ≡ false
      → find_unit is_free units ≡ some i
      → find_unit (is_unit dev' idx') units ≡ none
      → find_unit (is_unit dev' idx') (update units i (register dev unit_idx)) ≡ none
  unfolding update
  register-none dev' idx' [] i ne free absent = absent
  register-none dev' idx' (u ∷ units) zero ne free absent =
      find_tail (is_unit dev' idx') (register dev unit_idx u) units
        (same_unit dev unit_idx u dev' idx' ∙ ne)
      ∙ ap shift (find_none (is_unit dev' idx') u units absent).1
  register-none dev' idx' (u ∷ units) (suc i) ne free absent =
      let (miss, absent') = find_none (is_unit dev' idx') u units absent in
      find_tail (is_unit dev' idx') u (update units i (register dev unit_idx)) miss
      ∙ ap shift (register-none dev' idx' units i ne (find_suc is_free u units i free).1 absent')

  register-kept :
      (dev' idx' : ℕ) (units : List KscanUnit) (i j : ℕ)
      → (dev == dev' && unit_idx == idx') ≡ false
      → find_unit is_free units ≡ some i
      → find_unit (is_unit dev' idx') units ≡ some j
      → find_unit (is_unit dev' idx') (update units i (register dev unit_idx)) ≡ some j
  unfolding update find_unit
  register-kept dev' idx' [] i j ne free there = cc
  register-kept dev' idx' (u ∷ units) zero zero ne free there = cc (
    find_zero (is_unit dev' idx') u units there,
    free_is_not dev' idx' u (find_zero is_free u units free),
  )
  register-kept dev' idx' (u ∷ units) zero (suc j) ne free there =
      find_tail (is_unit dev' idx') (register dev unit_idx u) units
        (same_unit dev unit_idx u dev' idx' ∙ ne)
      ∙ ap shift (find_suc (is_unit dev' idx') u units j there).1
  register-kept dev' idx' (u ∷ units) (suc i) zero ne free there =
      find_head (is_unit dev' idx') u (update units i (register dev unit_idx))
        (find_zero (is_unit dev' idx') u units there)
  register-kept dev' idx' (u ∷ units) (suc i) (suc j) ne free there =
      let (miss, there') = find_suc (is_unit dev' idx') u units j there in
      find_tail (is_unit dev' idx') u (update units i (register dev unit_idx)) miss
      ∙ ap shift (register-kept dev' idx' units i j ne (find_suc is_free u units i free).1 there')

  register-IsDistinct :
      (units : List KscanUnit) (i : ℕ)
      → find_unit is_free units ≡ some i
      → find_unit (is_unit dev unit_idx) units ≡ none
      → IsDistinct units
      → IsDistinct (update units i (register dev unit_idx))
  unfolding update register
  register-IsDistinct [] i free absent d = d
  register-IsDistinct (u ∷ units) zero free absent d =
      (λ r. (find_none (is_unit dev unit_idx) u units absent).1, d.1)
  register-IsDistinct (u ∷ units) (suc i) free absent d =
      let (miss, absent') = find_none (is_unit dev unit_idx) u units absent in
      let free' = (find_suc is_free u units i free).1 in
      (
        λ r. register-none u.dev u.unit_idx units i (differs dev unit_idx u r miss) free' (d.0 r),
        register-IsDistinct units i free' absent' d.1,
      )

  same_key :
      (dev' idx' : ℕ) (units : List KscanUnit) (j : ℕ)
      → find_unit (is_unit dev unit_idx) units ≡ none
      → find_unit (is_unit dev' idx') units ≡ some j
      → (dev == dev' && unit_idx == idx') ≡ false
  same_key dev' idx' units j absent there = elim (Bool-cases (dev == dev' && unit_idx == idx')) [
    | inr ne ↦ ne
    | inl e ↦
        let d : dev ≡ dev' = ground (arith, e) in
        let x : unit_idx ≡ idx' = ground (arith, e) in
        let here : find_unit (is_unit dev unit_idx) units ≡ some j = rw (d, x) there in
        cc (absent, here)
  ]

  get_full :
      (before units : List KscanUnit)
      → find_unit (is_unit dev unit_idx) before ≡ none
      → find_unit (is_unit dev unit_idx) units ≡ none
      → find_unit is_free units ≡ none
      → kscan_unit_get dev unit_idx before units ≡ (none, units)
  unfolding kscan_unit_get
  get_full before units miss absent full = simp (kscan_unit_get, miss, absent, full) refl

  get_new :
      (before units : List KscanUnit) (i : ℕ)
      → find_unit (is_unit dev unit_idx) before ≡ none
      → find_unit (is_unit dev unit_idx) units ≡ none
      → find_unit is_free units ≡ some i
      → kscan_unit_get dev unit_idx before units ≡ (some i, update units i (register dev unit_idx))
  unfolding kscan_unit_get
  get_new before units i miss absent free = simp (kscan_unit_get, miss, absent, free) refl

  get_before :
      (before units : List KscanUnit) (i : ℕ)
      → find_unit (is_unit dev unit_idx) before ≡ some i
      → kscan_unit_get dev unit_idx before units ≡ (some i, units)
  unfolding kscan_unit_get
  get_before before units i hit = simp (kscan_unit_get, hit) refl

  get_locked :
      (before units : List KscanUnit) (i : ℕ)
      → find_unit (is_unit dev unit_idx) before ≡ none
      → find_unit (is_unit dev unit_idx) units ≡ some i
      → kscan_unit_get dev unit_idx before units ≡ (some i, units)
  unfolding kscan_unit_get
  get_locked before units i miss hit = simp (kscan_unit_get, miss, hit) refl

  -- Where the units that were found without the lock are still where they were: a table without two places for a unit stays one, the unit asked for is afterwards where the result says, every other unit stays where it was, and a result of none means that the table was full.
  pub kscan_unit_get_lem :
      (before units : List KscanUnit)
      → IsDistinct units
      → ((i : ℕ)
          → find_unit (is_unit dev unit_idx) before ≡ some i
          → find_unit (is_unit dev unit_idx) units ≡ some i)
      → let (found, units') = kscan_unit_get dev unit_idx before units in
        IsDistinct units'
        × (find_unit (is_unit dev unit_idx) units' ≡ found)
        × ((dev' idx' j : ℕ)
            → find_unit (is_unit dev' idx') units ≡ some j
            → find_unit (is_unit dev' idx') units' ≡ some j)
        × (found ≡ none → find_unit is_free units ≡ none)
  kscan_unit_get_lem before units d stay =
      elim (Option-cases (find_unit (is_unit dev unit_idx) before)) [
        | inr (i, hit) ↦
            rw (get_before before units i hit) (d, stay i hit, λ dev' idx' j there. there, λ e. cc)
        | inl miss ↦ elim (Option-cases (find_unit (is_unit dev unit_idx) units)) [
          | inr (i, hit) ↦
              rw (get_locked before units i miss hit) (d, hit, λ dev' idx' j there. there, λ e. cc)
          | inl absent ↦ elim (Option-cases (find_unit is_free units)) [
            | inr (i, free) ↦ rw (get_new before units i miss absent free) (
              register-IsDistinct units i free absent d,
              register-found units i free absent,
              λ dev' idx' j there.
                  register-kept dev' idx' units i j (same_key dev' idx' units j absent there) free
                    there,
              λ e. cc,
            )
            | inl full ↦
                rw (get_full before units miss absent full)
                  (d, absent, λ dev' idx' j there. there, λ e. full)
          ]
        ]
      ]
