-- ===== src/Backlight/Slots/Saved.antt =====
-- What the flash holds once the script slots have been saved.
use ykb_firmware.Base.{
  ℕ, zero, suc, ◌+◌, ◌^◌, ◌≤◌, ◌<◌, ◌≡◌, ◌≢◌, refl, sym, ap, subst, ◌∙◌, true, some, List, [], ◌∷◌,
  ◌++◌, length, get_or, arith, ◌⊎◌, inl, inr, Bool-cases, leb,
}
use ykb_firmware.Splitlink.Scripts.{Script}
use ykb_firmware.Backlight.Names.{namespace, slot_name, slot_name_injective}
use ykb_firmware.Backlight.Slots.{Image, Stored, Library, image_of, save_script_slot, save_from}

module _ {A : Type 0} where
  -- The list has this item.
  abbrev pub Has : Stored A → List (Stored A) → Type 0
  Has item [] = ⊥
  Has item (first ∷ items) = (first ≡ item) ⊎ Has item items

  -- The item that an image saved under this name gives.
  abbrev pub item_of : List ℕ → Image A → Stored A
  item_of name image = record { name = name; len_ok = true; read = some image }

  -- A settings library that starts without error, hands over an image that was saved under a name below
  -- "ykb_bl" with that name, and with it the items of other names as they were, in any order.
  pub record IsKeeping {F : Type 0} (lib : Library A F) : Type 0 where
    pub starts :
        (flash : F)
        → (lib.subsys_ok flash ≡ true) × (lib.register_ok flash ≡ true) × (lib.load_ok flash ≡ true)
    pub keeps :
        (flash : F) (name : List ℕ) (image : Image A)
        → (lib.save_one flash (namespace ++ name) image).0 ≡ true
        → Has (item_of name image) (lib.items (lib.save_one flash (namespace ++ name) image).1)
    pub keeps_others :
        (flash : F) (name : List ℕ) (image : Image A) (item : Stored A)
        → (lib.save_one flash (namespace ++ name) image).0 ≡ true
        → item.name ≢ name
        → Has item (lib.items flash)
        → Has item (lib.items (lib.save_one flash (namespace ++ name) image).1)
    pub adds_none :
        (flash : F) (name : List ℕ) (image : Image A) (item : Stored A)
        → (lib.save_one flash (namespace ++ name) image).0 ≡ true
        → Has item (lib.items (lib.save_one flash (namespace ++ name) image).1)
        → (item ≡ item_of name image) ⊎ ((item.name ≢ name) × Has item (lib.items flash))

  module _ {F : Type 0} (lib : Library A F) (name_max : ℕ) (keep : IsKeeping lib) where
    -- A slot that was saved was saved under its name.
    save_script_slot-saved :
        (flash : F) (i : ℕ) (s : Script A)
        → (save_script_slot lib name_max flash i s).0 ≡ true
        → save_script_slot lib name_max flash i s
          ≡ lib.save_one flash (namespace ++ slot_name i) (image_of s)
    unfolding save_script_slot
    save_script_slot-saved flash i s e =
        elim (Bool-cases (leb name_max (length (namespace ++ slot_name i)))) [
          | inl long ↦ ground (arith, long, e)
          | inr fits ↦ simp (fits) refl
        ]

    one_saved :
        (flash : F) (i : ℕ) (s : Script A)
        → (save_script_slot lib name_max flash i s).0 ≡ true
        → (lib.save_one flash (namespace ++ slot_name i) (image_of s)).0 ≡ true
    one_saved flash i s e = sym (ap (λ r. r.0) (save_script_slot-saved flash i s e)) ∙ e

    -- Where all slots are saved, the first is, and then the others.
    save_from_step :
        (s : Script A) (slots : List (Script A)) (i : ℕ) (flash : F)
        → (save_from lib name_max i (s ∷ slots) flash).0 ≡ true
        → let first = lib.save_one flash (namespace ++ slot_name i) (image_of s) in
          (first.0 ≡ true)
          × (save_from lib name_max i (s ∷ slots) flash
              ≡ save_from lib name_max (suc i) slots first.1)
    unfolding save_from
    save_from_step s slots i flash ok =
        elim (Bool-cases (save_script_slot lib name_max flash i s).0) [
          | inr bad ↦ ground (arith, bad, ok)
          | inl good ↦
              let same = save_script_slot-saved flash i s good in
              (
                one_saved flash i s good,
                simp (good) (ap (λ r. save_from lib name_max (suc i) slots r.1) same),
              )
        ]

    -- An item of another name stays where slots are saved.
    save_from_other :
        (slots : List (Script A)) (i : ℕ) (flash : F) (item : Stored A)
        → (save_from lib name_max i slots flash).0 ≡ true
        → ((k : ℕ) → k < length slots → item.name ≢ slot_name (i + k))
        → Has item (lib.items flash)
        → Has item (lib.items (save_from lib name_max i slots flash).1)
    unfolding save_from
    save_from_other [] i flash item ok other h = h
    save_from_other (s ∷ slots) i flash item ok other h =
        let (first, step) = save_from_step s slots i flash ok in
        let here : i + 0 ≡ i = omega arith in
        subst (λ r. Has item (lib.items r.1)) (sym step)
          (save_from_other slots (suc i) _ item (sym (ap (λ r. r.0) step) ∙ ok)
            (λ k l. shifted k (other (suc k) (omega arith)))
            (keep.keeps_others flash (slot_name i) (image_of s) item first
              (λ e. other 0 (omega arith) (e ∙ ap slot_name (sym here))) h))
      where
        shifted : (k : ℕ) → item.name ≢ slot_name (i + suc k) → item.name ≢ slot_name (suc i + k)
        shifted k n e = n (e ∙ ap slot_name (omega arith))

    pub save_from-Has :
        (d : Script A) (slots : List (Script A)) (i : ℕ) (flash : F)
        → i + length slots ≤ 2 ^ 16
        → (save_from lib name_max i slots flash).0 ≡ true
        → (k : ℕ) → k < length slots
        → Has
            (item_of (slot_name (i + k)) (image_of (get_or slots k d)))
            (lib.items (save_from lib name_max i slots flash).1)
    unfolding save_from
    save_from-Has d [] i flash small ok k h = absurd (omega arith)
    save_from-Has d (s ∷ slots) i flash small ok zero h =
        let (first, step) = save_from_step s slots i flash ok in
        let here : i ≡ i + 0 = omega arith in
        let item = item_of (slot_name i) (image_of s) in
        subst
          (λ j.
            Has (item_of (slot_name j) (image_of s))
              (lib.items (save_from lib name_max i (s ∷ slots) flash).1))
          here
          (subst (λ r. Has item (lib.items r.1)) (sym step)
            (save_from_other slots (suc i) _ item (sym (ap (λ r. r.0) step) ∙ ok)
              (λ k l e. later k l e) (keep.keeps flash (slot_name i) (image_of s) first)))
      where
        later : (k : ℕ) → k < length slots → slot_name i ≡ slot_name (suc i + k) → ⊥
        later k l e =
            let same = slot_name_injective i (suc i + k) (omega arith) (omega arith) e in
            omega (arith, same)
    save_from-Has d (s ∷ slots) i flash small ok (suc k) h =
        let (first, step) = save_from_step s slots i flash ok in
        let at : suc i + k ≡ i + suc k = omega arith in
        subst
          (λ j.
            Has (item_of (slot_name j) (image_of (get_or slots k d)))
              (lib.items (save_from lib name_max i (s ∷ slots) flash).1))
          at
          (subst
            (λ r.
              Has (item_of (slot_name (suc i + k)) (image_of (get_or slots k d))) (lib.items r.1))
            (sym step)
            (save_from-Has d slots (suc i) _ (omega arith) (sym (ap (λ r. r.0) step) ∙ ok) k
              (omega arith)))

    pub save_from-only :
        (d : Script A) (slots : List (Script A)) (i : ℕ) (flash : F)
        → (save_from lib name_max i slots flash).0 ≡ true
        → (item : Stored A) → Has item (lib.items (save_from lib name_max i slots flash).1)
        → ((k : ℕ) × (k < length slots)
            × (item ≡ item_of (slot_name (i + k)) (image_of (get_or slots k d))))
          ⊎ (((k : ℕ) → k < length slots → item.name ≢ slot_name (i + k))
              × Has item (lib.items flash))
    unfolding save_from
    save_from-only d [] i flash ok item h = inr ((λ k l. absurd (omega arith)), h)
    save_from-only d (s ∷ slots) i flash ok item h =
        let (first, step) = save_from_step s slots i flash ok in
        let here : i ≡ i + 0 = omega arith in
        let found = subst (λ r. Has item (lib.items r.1)) step h in
        elim (save_from-only d slots (suc i) _ (sym (ap (λ r. r.0) step) ∙ ok) item found) [
          | inl (k, l, e) ↦ inl (
            suc k,
            omega arith,
            e ∙ ap (λ j. item_of (slot_name j) (image_of (get_or slots k d))) (omega arith),
          )
          | inr (others, before) ↦
              elim (keep.adds_none flash (slot_name i) (image_of s) item first before) [
                | inl e ↦
                    inl (0, omega arith, e ∙ ap (λ j. item_of (slot_name j) (image_of s)) here)
                | inr (ne, old) ↦ inr (none_of others ne, old)
              ]
        ]
      where
        none_of :
            ((k : ℕ) → k < length slots → item.name ≢ slot_name (suc i + k))
            → item.name ≢ slot_name i
            → (k : ℕ) → k < suc (length slots)
            → item.name ≢ slot_name (i + k)
        none_of others ne zero l e = ne (e ∙ ap slot_name (omega arith))
        none_of others ne (suc k) l e = others k (omega arith) (e ∙ ap slot_name (omega arith))
