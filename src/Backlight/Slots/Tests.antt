-- ===== src/Backlight/Slots/Tests.antt =====
-- A settings library that keeps the items below "ykb_bl" in a list, without error, and script slots over a
-- restart with it.
use ykb_firmware.Base.{
  ℕ, ◌≡◌, ◌≢◌, refl, sym, ap, ◌∙◌, Bool, true, false, some, List, [], ◌∷◌, ◌&&◌, ◌==◌, drop,
  if◌then◌else◌, arith, Bool-cases, inl, inr, ==_refl,
}
use ykb_firmware.Splitlink.Scripts.{Script}
use ykb_firmware.Backlight.Names.{
  slot_name, digits, strtoul, signed, unsigned, skip_space, is_space, is_digit, starts_digit,
  read_digits, as_ulong,
}
use ykb_firmware.Backlight.Slots.{
  Stored, Library, save_script_slot, save_from, save_scripts, init_scripts,
}
use ykb_firmware.Backlight.Slots.Saved.{Has, item_of, IsKeeping}
use ykb_firmware.Backlight.Slots.Loaded.{AreNamed, init_scripts-save_scripts}

abbrev ListItem : Type 0
ListItem = Stored (List ℕ)

unfoldable same_name : List ℕ → List ℕ → Bool
same_name [] [] = true
same_name [] (y ∷ ys) = false
same_name (x ∷ xs) [] = false
same_name (x ∷ xs) (y ∷ ys) = x == y && same_name xs ys

same_name-true : (xs ys : List ℕ) → same_name xs ys ≡ true → xs ≡ ys
unfolding same_name
same_name-true [] [] h = refl
same_name-true [] (y ∷ ys) h = cc
same_name-true (x ∷ xs) [] h = cc
same_name-true (x ∷ xs) (y ∷ ys) h = ground (arith, same_name-true xs ys)

same_name_refl : (xs : List ℕ) → same_name xs xs ≡ true
unfolding same_name
same_name_refl [] = refl
same_name_refl (x ∷ xs) = rw (==_refl x) (same_name_refl xs)

unfoldable without : List ℕ → List ListItem → List ListItem
without name [] = []
without name (item ∷ items) =
    let rest = without name items in if same_name item.name name then rest else item ∷ rest

without-Has :
    (name : List ℕ) (items : List ListItem) (item : ListItem)
    → item.name ≢ name
    → Has item items
    → Has item (without name items)
unfolding without
without-Has name [] item ne h = h
without-Has name (first ∷ items) item ne h = elim (Bool-cases (same_name first.name name)) [
  | inr other ↦
      simp (without, other)
        (elim h [ inl here ↦ inl here | inr later ↦ inr (without-Has name items item ne later) ])
  | inl same ↦
      simp (without, same)
        (elim h [
          | inl here ↦
              absurd (ne (ap (λ x. x.name) (sym here) ∙ same_name-true first.name name same))
          | inr later ↦ without-Has name items item ne later
        ])
]

without-only :
    (name : List ℕ) (items : List ListItem) (item : ListItem)
    → Has item (without name items)
    → (item.name ≢ name) × Has item items
unfolding without
without-only name [] item h = absurd h
without-only name (first ∷ items) item h = elim (Bool-cases (same_name first.name name)) [
  | inl same ↦ let (ne, later) = without-only name items item (simp (same) at h) in (ne, inr later)
  | inr other ↦ elim (simp (other) at h) [
    | inl here ↦ (
      (λ e.
          let equal : same_name first.name name ≡ true =
            ap (λ n. same_name n name) (ap (λ x. x.name) here ∙ e) ∙ same_name_refl name in
          true_false (sym equal ∙ other)),
      inl here,
    )
    | inr later ↦ let (ne, has) = without-only name items item later in (ne, inr has)
  ]
]
  where
    true_false : true ≡ false → ⊥
    true_false x = cc

abbrev list_library : Library (List ℕ) (List ListItem)
list_library = record {
  subsys_ok = λ flash. true;
  register_ok = λ flash. true;
  load_ok = λ flash. true;
  items = λ flash. flash;
  save_one = λ flash key image. (true, item_of (drop 7 key) image ∷ without (drop 7 key) flash);
}

list_library-IsKeeping : IsKeeping list_library
list_library-IsKeeping = record {
  starts = λ flash. (refl, refl, refl);
  keeps = λ flash name image ok. inl refl;
  keeps_others = λ flash name image item ok ne h. inr (without-Has name flash item ne h);
  adds_none = λ flash name image item ok h. elim h [
    | inl here ↦ inl (sym here)
    | inr later ↦ inr (without-only name flash item later)
  ];
}

abbrev kept_script : Script (List ℕ)
kept_script = record { occupied = true; size = 2; contents = 7 ∷ 8 ∷ [] }

abbrev blank : Script (List ℕ)
blank = record { occupied = false; size = 0; contents = [] }

-- An older image of slot 1.
abbrev old_flash : List ListItem
old_flash = item_of (slot_name 1) (record { version = 1; image_slot = kept_script }) ∷ []

-- A space and a sign before the number are read too, and what follows it is left.
strtoul_sign : strtoul (32 ∷ (43 ∷ (49 ∷ (50 ∷ (120 ∷ []))))) ≡ (12, 120 ∷ [])
unfolding strtoul signed unsigned skip_space is_space is_digit starts_digit read_digits as_ulong
strtoul_sign = refl

old_named : AreNamed list_library 2 old_flash
old_named item (inl here) = (1, omega arith, ap (λ x. x.name) (sym here))
old_named item (inr later) = absurd later

all_saved : (save_scripts list_library 32 true (kept_script ∷ blank ∷ []) old_flash).0 ≡ true
unfolding save_scripts save_from save_script_slot slot_name digits
all_saved = refl

init_scripts-save_scripts_example :
    init_scripts list_library 32 false blank
      (blank ∷ blank ∷ [])
      2
      (save_scripts list_library 32 true (kept_script ∷ blank ∷ []) old_flash).1
    ≡ (
      some (kept_script ∷ blank ∷ []),
      (save_scripts list_library 32 true (kept_script ∷ blank ∷ []) old_flash).1,
    )
init_scripts-save_scripts_example =
    init_scripts-save_scripts list_library 32 list_library-IsKeeping false blank
      (blank ∷ blank ∷ []) kept_script (blank ∷ []) old_flash (omega arith) old_named all_saved
