-- ===== src/Backlight/Slots/Loaded.antt =====
-- What the initialisation makes of the items that the flash holds, and the script slots over a restart.
use ykb_firmware.Base.{
  ℕ, suc, ◌+◌, ◌^◌, ◌≤◌, ◌<◌, ◌≡◌, refl, ap, ap₂, subst, ◌∙◌, Bool, true, false, some, List, [],
  ◌∷◌, length, get_or, set, arith, inl, inr, Bool-cases, length-set, get_or-set_self, get_or-set_ne,
  eq_of_get_or, replicate, length-replicate, ℕ_discrete, leb,
}
use ykb_firmware.Splitlink.Scripts.{Script}
use ykb_firmware.Backlight.Names.{slot_name, strtoul-slot_name}
use ykb_firmware.Backlight.Slots.{
  Stored, Library, Scripts, set_ok, image_of, store_slot, handler_set, load_items, save_scripts,
  save_from, init_scripts,
}
use ykb_firmware.Backlight.Slots.Saved.{Has, item_of, IsKeeping, save_from-Has, save_from-only}

module _ {A : Type 0} where
  -- The handler takes the image of a slot.
  handler_set-item_of :
      (j : ℕ) (s : Script A) (st : Scripts A)
      → j < 2 ^ 16
      → j < length st.slots
      → handler_set (item_of (slot_name j) (image_of s)) st
        ≡ (set_ok, record { slots = set st.slots j s; scripts_loaded = true })
  unfolding handler_set store_slot image_of
  handler_set-item_of j s st small room =
      let (c, text, at, number) = strtoul-slot_name j small in
      let within : leb (length st.slots) j ≡ false = ground arith in simp (at, number, within) refl

  module _ (d : Script A) (slots : List (Script A)) (small : length slots ≤ 2 ^ 16) where
    -- Every item is the image of one of the slots.
    abbrev AreOwn : List (Stored A) → Type 0
    AreOwn [] = Unit
    AreOwn (item ∷ items) =
        ((k : ℕ) × (k < length slots)
          × (item ≡ item_of (slot_name k) (image_of (get_or slots k d))))
        × AreOwn items

    step :
        (item : Stored A) (st : Scripts A) (k : ℕ)
        → length st.slots ≡ length slots
        → k < length slots
        → item ≡ item_of (slot_name k) (image_of (get_or slots k d))
        → (handler_set item st).1
          ≡ record { slots = set st.slots k (get_or slots k d); scripts_loaded = true }
    step item st k size l e =
        ap (λ x. (handler_set x st).1) e
        ∙ ap (λ r. r.1) (handler_set-item_of k (get_or slots k d) st (omega arith) (omega arith))

    step_size :
        (item : Stored A) (st : Scripts A) (k : ℕ)
        → length st.slots ≡ length slots
        → k < length slots
        → item ≡ item_of (slot_name k) (image_of (get_or slots k d))
        → length (handler_set item st).1.slots ≡ length slots
    step_size item st k size l e =
        ap (λ r. length r.slots) (step item st k size l e)
        ∙ length-set st.slots k (get_or slots k d)
        ∙ size

    load_items-size :
        (items : List (Stored A)) (st : Scripts A)
        → AreOwn items
        → length st.slots ≡ length slots
        → length (load_items items st).slots ≡ length slots
    unfolding load_items
    load_items-size [] st own size = size
    load_items-size (item ∷ items) st ((k, l, e), own) size =
        load_items-size items (handler_set item st).1 own (step_size item st k size l e)

    load_items-loaded :
        (items : List (Stored A)) (st : Scripts A)
        → AreOwn items
        → length st.slots ≡ length slots
        → st.scripts_loaded ≡ true
        → (load_items items st).scripts_loaded ≡ true
    unfolding load_items
    load_items-loaded [] st own size on = on
    load_items-loaded (item ∷ items) st ((k, l, e), own) size on =
        load_items-loaded items (handler_set item st).1 own (step_size item st k size l e)
          (ap (λ r. r.scripts_loaded) (step item st k size l e))

    -- A slot that is right stays right.
    load_items_keeps :
        (items : List (Stored A)) (st : Scripts A) (i : ℕ)
        → AreOwn items
        → length st.slots ≡ length slots
        → i < length slots
        → get_or st.slots i d ≡ get_or slots i d
        → get_or (load_items items st).slots i d ≡ get_or slots i d
    unfolding load_items
    load_items_keeps [] st i own size h right = right
    load_items_keeps (item ∷ items) st i ((k, l, e), own) size h right =
        load_items_keeps items (handler_set item st).1 i own (step_size item st k size l e) h
          (ap (λ r. get_or r.slots i d) (step item st k size l e) ∙ cell)
      where
        cell : get_or (set st.slots k (get_or slots k d)) i d ≡ get_or slots i d
        cell = elim (ℕ_discrete k i) [
          | yes same ↦
              subst (λ j. get_or (set st.slots k (get_or slots k d)) j d ≡ get_or slots j d) same
                (get_or-set_self st.slots k (get_or slots k d) d (omega arith))
          | no other ↦ get_or-set_ne st.slots k i (get_or slots k d) d other ∙ right
        ]

    -- A slot whose image is among the items becomes right.
    load_items_hits :
        (items : List (Stored A)) (st : Scripts A) (i : ℕ)
        → AreOwn items
        → length st.slots ≡ length slots
        → i < length slots
        → Has (item_of (slot_name i) (image_of (get_or slots i d))) items
        → (get_or (load_items items st).slots i d ≡ get_or slots i d)
          × ((load_items items st).scripts_loaded ≡ true)
    unfolding load_items
    load_items_hits [] st i own size h has = absurd has
    load_items_hits (item ∷ items) st i ((k, l, e), own) size h (inr later) =
        load_items_hits items (handler_set item st).1 i own (step_size item st k size l e) h later
    load_items_hits (item ∷ items) st i ((k, l, e), own) size h (inl here) =
        let now = step item st i size h here in
        let size' = step_size item st i size h here in
        (
          load_items_keeps items (handler_set item st).1 i own size' h (
              ap (λ r. get_or r.slots i d) now
              ∙ get_or-set_self st.slots i (get_or slots i d) d (omega arith)),
          load_items-loaded items (handler_set item st).1 own size'
              (ap (λ r. r.scripts_loaded) now),
        )

    owns :
        (items : List (Stored A))
        → ((item : Stored A)
            → Has item items
            → (k : ℕ) × (k < length slots)
              × (item ≡ item_of (slot_name k) (image_of (get_or slots k d))))
        → AreOwn items
    owns [] h = tt
    owns (item ∷ items) h = (h item (inl refl), owns items (λ x has. h x (inr has)))

    -- From all the images the slots are loaded.
    load_items-slots :
        (items : List (Stored A)) (st : Scripts A)
        → 0 < length slots
        → AreOwn items
        → length st.slots ≡ length slots
        → ((i : ℕ)
            → i < length slots
            → Has (item_of (slot_name i) (image_of (get_or slots i d))) items)
        → load_items items st ≡ record { slots = slots; scripts_loaded = true }
    load_items-slots items st some_slot own size has =
        ap₂ (λ a b. record { slots = a; scripts_loaded = b })
          (eq_of_get_or (load_items items st).slots slots d (load_items-size items st own size)
            (λ i h. cell i (omega (arith, h, load_items-size items st own size))))
          (load_items_hits items st 0 own size some_slot (has 0 some_slot)).1
      where
        cell :
            (i : ℕ) → i < length slots → get_or (load_items items st).slots i d ≡ get_or slots i d
        cell i h = (load_items_hits items st i own size h (has i h)).0

  -- The items of the flash are named like the slots.
  abbrev pub AreNamed : {F : Type 0} → Library A F → ℕ → F → Type 0
  AreNamed lib count flash =
      (item : Stored A)
      → Has item (lib.items flash)
      → (k : ℕ) × (k < count) × (item.name ≡ slot_name k)

  module _ {F : Type 0} (lib : Library A F) (name_max : ℕ) (keep : IsKeeping lib) where
    saved_own :
        (d : Script A) (slots : List (Script A)) (flash : F)
        → (save_from lib name_max 0 slots flash).0 ≡ true
        → AreNamed lib (length slots) flash
        → (item : Stored A) → Has item (lib.items (save_from lib name_max 0 slots flash).1)
        → (k : ℕ) × (k < length slots)
          × (item ≡ item_of (slot_name k) (image_of (get_or slots k d)))
    saved_own d slots flash ok named item has =
        elim (save_from-only lib name_max keep d slots 0 flash ok item has) [
          | inl (k, l, e) ↦ (
            k,
            l,
            e ∙ ap (λ j. item_of (slot_name j) (image_of (get_or slots k d))) (omega arith),
          )
          | inr (others, old) ↦
              let (k, l, e) = named item old in absurd (others k l (e ∙ ap slot_name (omega arith)))
        ]

    saved-Has :
        (d : Script A) (slots : List (Script A)) (flash : F)
        → length slots ≤ 2 ^ 16
        → (save_from lib name_max 0 slots flash).0 ≡ true
        → (i : ℕ) → i < length slots
        → Has
            (item_of (slot_name i) (image_of (get_or slots i d)))
            (lib.items (save_from lib name_max 0 slots flash).1)
    saved-Has d slots flash small ok i h =
        let at : 0 + i ≡ i = omega arith in
        subst
          (λ j.
            Has (item_of (slot_name j) (image_of (get_or slots i d)))
              (lib.items (save_from lib name_max 0 slots flash).1))
          at (save_from-Has lib name_max keep d slots 0 flash (omega arith) ok i h)

    -- When all the slots of an array of at most 65536 have been saved, over a flash whose items below
    -- "ykb_bl" have names of these slots, the next initialisation reads from their names exactly these
    -- slots and writes nothing, whether the handler is registered then or not.
    pub init_scripts-save_scripts :
        (registered : Bool) (blank : Script A) (defaults : List (Script A)) (s : Script A)
        (slots : List (Script A)) (flash : F)
        → suc (length slots) ≤ 2 ^ 16
        → AreNamed lib (suc (length slots)) flash
        → (save_scripts lib name_max true (s ∷ slots) flash).0 ≡ true
        → init_scripts lib name_max registered blank defaults
            (suc (length slots))
            (save_scripts lib name_max true (s ∷ slots) flash).1
          ≡ (some (s ∷ slots), (save_scripts lib name_max true (s ∷ slots) flash).1)
    unfolding init_scripts save_scripts
    init_scripts-save_scripts registered blank defaults s slots flash small named ok =
        let saved = (save_from lib name_max 0 (s ∷ slots) flash).1 in
        let (subsys, register, load) = keep.starts saved in
        let read =
          load_items-slots blank (s ∷ slots) small (lib.items saved)
            (record { slots = replicate (suc (length slots)) blank; scripts_loaded = false })
            (omega arith)
            (owns blank (s ∷ slots) small (lib.items saved)
              (saved_own blank (s ∷ slots) flash ok named))
            (length-replicate (suc (length slots)) blank)
            (saved-Has blank (s ∷ slots) flash small ok) in
        elim (Bool-cases registered) [
          | inl on ↦ simp (init_scripts, on, read, load) refl
          | inr off ↦ simp (init_scripts, off, read, subsys, register, load) refl
        ]
