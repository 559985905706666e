-- ===== src/Settings/Store/Load.antt =====
-- What the handler makes of an item, and what the initialisation ends with.
use ykb_firmware.Base.{
  ℕ, ◌≤◌, ◌≡◌, refl, ap, ◌≢◌, true, false, Option, none, some, List, ◌∷◌, ◌==◌, length, arith,
  if◌then◌else◌, ◌⊎◌, inl, inr, Bool-cases, Option-cases,
}
use ykb_firmware.Settings.{Settings}
use ykb_firmware.Settings.Arithmetic.{Floats}
use ykb_firmware.KbHandler.Mouse.{mouseemu_check}
use ykb_firmware.Settings.Store.{
  Item, Nvs, Defaults, Store, Result, ok, library, image_version, load_defaults, with_keymap,
  with_defaults, told, notify, returns, no_entry, invalid, same_size, handler_set, init_defaults,
  load_subtree, init_load, init,
}

module _ (fl : Floats) where
  -- An item that the handler takes: the right key, an image of the right size read whole, and the version.
  pub record IsImage (image_size : ℕ) (item : Item fl) : Type 0 where
    pub key : item.key_matches ≡ true
    pub size : item.len ≡ image_size
    pub whole : item.rlen ≡ some image_size
    pub version : item.image.version ≡ image_version

  taken : Item fl → Store fl → Store fl
  taken item st = told fl (record st { settings = item.image.settings; loaded = true })

  same_size-some : (o : Option ℕ) (n : ℕ) → same_size fl o n ≡ true → o ≡ some n
  unfolding same_size
  same_size-some none n e = cc
  same_size-some (some k) n e = ap some (ground arith)

  -- An item is taken, which panics unless its mouse settings pass the check, or refused with an error.
  handler_set_cases :
      (total image_size : ℕ) (item : Item fl) (st : Store fl)
      → (IsImage image_size item
          × (handler_set fl total image_size item st ≡ (
              if mouseemu_check fl total item.image.settings.mouseemu
              then some (ok, taken item st)
              else none)))
        ⊎ ((res : Result fl) × (res ≢ ok)
            × (handler_set fl total image_size item st ≡ some (res, st)))
  unfolding handler_set taken notify returns
  handler_set_cases total image_size item st = elim (Bool-cases item.key_matches) [
    | inr e ↦ inr (no_entry, (λ x. cc), simp (e))
    | inl k ↦ elim (Bool-cases (item.len == image_size)) [
      | inr e ↦ inr (invalid, (λ x. cc), simp (k, e))
      | inl l ↦ elim (Bool-cases (same_size fl item.rlen image_size)) [
        | inr e ↦ inr (invalid, (λ x. cc), simp (k, l, e))
        | inl r ↦ elim (Bool-cases (item.image.version == image_version)) [
          | inr e ↦ inr (invalid, (λ x. cc), simp (k, l, r, e))
          | inl v ↦ inl (
            record {
              key = k;
              size = ground arith;
              whole = same_size-some item.rlen image_size r;
              version = ground arith;
            },
            simp (k, l, r, v) (ground arith),
          )
        ]
      ]
    ]
  ]

  -- The callbacks were last given the settings that are in force.
  pub record IsTold (st : Store fl) : Type 0 where
    pub earlier : List (Settings fl)
    pub last : st.notified ≡ st.settings ∷ earlier

  told-IsTold : (st : Store fl) → IsTold (told fl st)
  unfolding told
  told-IsTold st = record { earlier = st.notified; last = refl }

  taken-IsTold : (item : Item fl) (st : Store fl) → IsTold (taken item st)
  unfolding taken
  taken-IsTold item st = told-IsTold (record st { settings = item.image.settings; loaded = true })

  module _ {F : Type 0} (nvs : Nvs fl F) (total image_size shortcuts_max : ℕ)
      (d : Defaults fl) where
    -- The flash has an image whose mouse settings the handler's check refuses.
    pub record IsRefused (flash : F) : Type 0 where
      pub item : Item fl
      pub found : nvs.load flash ≡ some item
      pub image : IsImage image_size item
      pub refused : mouseemu_check fl total item.image.settings.mouseemu ≡ false

    -- The initialisation returns with the callbacks told, or it panics over what is in the flash.
    abbrev Ends : F → F × Option (Result fl × Store fl) → Type 0
    Ends flash out =
        ((r : Result fl) × (st : Store fl) × (out.1 ≡ some (r, st)) × IsTold st)
        ⊎ ((out ≡ (flash, none)) × IsRefused flash)

    load_defaults_fit :
        (st : Store fl)
        → length d.fn_shortcuts ≤ shortcuts_max
        → load_defaults fl shortcuts_max d st
          ≡ (ok, record st { settings = with_defaults fl shortcuts_max d st.settings })
    unfolding load_defaults
    load_defaults_fit st h = ground arith

    init_defaults-Ends :
        (err : Result fl) (flash : F) (st : Store fl)
        → length d.fn_shortcuts ≤ shortcuts_max
        → mouseemu_check fl total d.mouseemu ≡ true
        → Ends flash (init_defaults fl nvs total image_size shortcuts_max d err flash st)
    unfolding init_defaults notify returns with_defaults with_keymap
    init_defaults-Ends err flash st h c =
        let st' = record st { settings = with_defaults fl shortcuts_max d st.settings } in
        inl (err, told fl st', simp (init_defaults, load_defaults_fit st h, c), told-IsTold st')

    load_subtree_cases :
        (flash : F) (st : Store fl)
        → (load_subtree fl nvs total image_size shortcuts_max d flash st ≡ some st)
          ⊎ ((item : Item fl) × (load_subtree fl nvs total image_size shortcuts_max d flash st
                ≡ some (taken item st)))
          ⊎ ((load_subtree fl nvs total image_size shortcuts_max d flash st ≡ none)
              × IsRefused flash)
    unfolding load_subtree
    load_subtree_cases flash st = elim (Option-cases (nvs.load flash)) [
      | inl e ↦ inl (simp (load_subtree, e))
      | inr (item, e) ↦ elim (handler_set_cases total image_size item st) [
        | inr (res, bad, same) ↦ inl (simp (load_subtree, e, same))
        | inl (image, t) ↦
            elim (Bool-cases (mouseemu_check fl total item.image.settings.mouseemu)) [
              | inl c ↦ inr (inl (item, simp (load_subtree, e, t, c)))
              | inr c ↦ inr (
                  inr (
                    simp (load_subtree, e, t, c),
                    record { item = item; found = e; image = image; refused = c },
                  ))
            ]
      ]
    ]

    init_load-Ends :
        (flash : F) (st : Store fl)
        → length d.fn_shortcuts ≤ shortcuts_max
        → mouseemu_check fl total d.mouseemu ≡ true
        → st.loaded ≡ false
        → Ends flash (init_load fl nvs total image_size shortcuts_max d flash st)
    unfolding init_load taken told
    init_load-Ends flash st h c off =
        let error = nvs.load_error flash in
        elim (load_subtree_cases flash st) [
          | inl same ↦ elim (Bool-cases (error == 0)) [
            | inr e ↦
                simp (init_load, same, off, e) (init_defaults-Ends (library error) flash st h c)
            | inl e ↦
                simp (init_load, same, off, e) (init_defaults-Ends (library error) flash st h c)
          ]
          | inr (inr (stops, refused)) ↦ simp (init_load, stops) (inr (refl, refused))
          | inr (inl (item, on)) ↦ elim (Bool-cases (error == 0)) [
            | inr e ↦
                simp (init_load, on, e)
                  (init_defaults-Ends (library error) flash (taken item st) h c)
            | inl e ↦ simp (init_load, on, e) (inl (ok, taken item st, refl, taken-IsTold item st))
          ]
        ]

    -- When the default shortcuts fit their array and the default mouse settings pass the handler's check,
    -- then whatever the settings library answers the initialisation returns, and the callbacks were last
    -- given the settings that are then in force; but for a flash with an image of the right key, size and
    -- version whose mouse settings the check refuses, over which the kernel panics.
    pub init-IsTold :
        (flash : F) (st : Store fl)
        → length d.fn_shortcuts ≤ shortcuts_max
        → mouseemu_check fl total d.mouseemu ≡ true
        → ((r : Result fl) × (st' : Store fl) × ((init fl nvs total image_size shortcuts_max d flash
                st).1
              ≡ some (r, st'))
            × IsTold st')
          ⊎ ((init fl nvs total image_size shortcuts_max d flash st ≡ (flash, none))
              × IsRefused flash)
    unfolding init
    init-IsTold flash st h c = elim (Bool-cases st.registered) [
      | inl r ↦
          simp (init, r)
            (init_load-Ends flash (record st { loaded = false; registered = true }) h c refl)
      | inr r ↦ elim (Bool-cases (nvs.subsys_error flash == 0)) [
        | inr e ↦
            simp (init, r, e)
              (init_defaults-Ends (library (nvs.subsys_error flash)) flash
                (record st { loaded = false; registered = false }) h c)
        | inl e ↦ elim (Bool-cases (nvs.register_error flash == 0)) [
          | inr g ↦
              simp (init, r, e, g)
                (init_defaults-Ends (library (nvs.register_error flash)) flash
                  (record st { loaded = false; registered = false }) h c)
          | inl g ↦
              simp (init, r, e, g)
                (init_load-Ends flash (record st { loaded = false; registered = true }) h c refl)
        ]
      ]
    ]
