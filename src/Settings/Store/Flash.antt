-- ===== src/Settings/Store/Flash.antt =====
-- Settings that are applied, and read again after a restart.
use ykb_firmware.Base.{
  ℕ, ◌≡◌, refl, sym, subst, true, false, none, some, ◌∷◌, ==_refl, if◌then◌else◌, arith, Bool-cases,
  inl, inr,
}
use ykb_firmware.Settings.{Settings}
use ykb_firmware.Settings.Arithmetic.{Floats}
use ykb_firmware.KbHandler.Mouse.{mouseemu_check}
use ykb_firmware.Settings.Store.{
  Image, Item, Nvs, Defaults, Store, ok, told, notify, returns, same_size, handler_set, save,
  image_of, apply, get, load_subtree, init_load, init,
}

module _ (fl : Floats) where
  -- A settings library that starts without error and keeps what it says it has saved.
  pub record IsKeeping {F : Type 0} (nvs : Nvs fl F) (image_size : ℕ) : Type 0 where
    pub starts :
        (flash : F)
        → (nvs.subsys_error flash ≡ 0) × (nvs.register_error flash ≡ 0) × (nvs.load_error flash ≡ 0)
    pub load-save :
        (flash : F) (image : Image fl)
        → (nvs.save_one flash image).0 ≡ true
        → nvs.load (nvs.save_one flash image).1
          ≡ some (record {
            key_matches = true;
            len = image_size;
            rlen = some image_size;
            image = image;
          })

  abbrev kept : ℕ → Settings fl → Item fl
  kept image_size s = record {
    key_matches = true;
    len = image_size;
    rlen = some image_size;
    image = image_of fl s;
  }

  -- The store once settings have been loaded and given to the callbacks.
  unfoldable pub loaded_with : Settings fl → Store fl → Store fl
  unfolding told
  loaded_with s st = told fl (record st { settings = s; loaded = true })

  handler_set-kept :
      (total image_size : ℕ) (s : Settings fl) (st : Store fl)
      → handler_set fl total image_size (kept image_size s) st
        ≡ (if mouseemu_check fl total s.mouseemu then some (ok, loaded_with s st) else none)
  unfolding handler_set same_size image_of notify returns loaded_with
  handler_set-kept total image_size s st = rw (==_refl image_size) (ground arith)

  save_on :
      {F : Type 0} (nvs : Nvs fl F) (total : ℕ) (flash : F) (st : Store fl) (s : Settings fl)
      → st.registered ≡ true
      → (apply fl nvs total flash st (some s)).0 ≡ (nvs.save_one flash (image_of fl s)).1
  unfolding apply save
  save_on nvs total flash st s on = simp (on)

  init-kept :
      {F : Type 0} (nvs : Nvs fl F) (total image_size shortcuts_max : ℕ) (d : Defaults fl)
      (flash : F) (fresh : Store fl) (s : Settings fl)
      → (nvs.subsys_error flash ≡ 0) × (nvs.register_error flash ≡ 0) × (nvs.load_error flash ≡ 0)
      → nvs.load flash ≡ some (kept image_size s)
      → fresh.registered ≡ false
      → init fl nvs total image_size shortcuts_max d flash fresh ≡ (
        flash,
        if mouseemu_check fl total s.mouseemu
            then some (ok, loaded_with s (record fresh { registered = true }))
            else none,
      )
  unfolding init init_load load_subtree loaded_with
  init-kept nvs total image_size shortcuts_max d flash fresh s (sub, reg, load) found new =
      elim (Bool-cases (mouseemu_check fl total s.mouseemu)) [
        | inl c ↦ simp (
          init,
          new,
          sub,
          reg,
          init_load,
          load,
          load_subtree,
          found,
          handler_set-kept total image_size s,
          c,
        )
        | inr c ↦ simp (
          init,
          new,
          sub,
          reg,
          init_load,
          load_subtree,
          found,
          handler_set-kept total image_size s,
          c,
        )
      ]

  -- Settings are applied in a store that is registered, and saved with success. If then the keyboard starts
  -- again, the initialisation writes nothing; with settings that mouseemu_check passes it ends without error,
  -- with these settings in force and given to the callbacks, and with any others the kernel panics.
  pub init-apply :
      {F : Type 0} (nvs : Nvs fl F) (total image_size shortcuts_max : ℕ) (d : Defaults fl)
      (flash : F) (st fresh : Store fl) (s : Settings fl)
      → IsKeeping nvs image_size
      → st.registered ≡ true
      → (nvs.save_one flash (image_of fl s)).0 ≡ true
      → fresh.registered ≡ false
      → let flash' = (apply fl nvs total flash st (some s)).0 in
        (st' : Store fl) × (init fl nvs total image_size shortcuts_max d flash' fresh
          ≡ (flash', if mouseemu_check fl total s.mouseemu then some (ok, st') else none))
        × (get fl st' ≡ s)
        × (st'.notified ≡ s ∷ fresh.notified)
  unfolding get loaded_with told
  init-apply nvs total image_size shortcuts_max d flash st fresh s keep on saved new =
      let at = save_on nvs total flash st s on in
      let found = keep.load-save flash (image_of fl s) saved in
      let st' = loaded_with s (record fresh { registered = true }) in
      (
        st',
        subst
            (λ f.
              init fl nvs total image_size shortcuts_max d f fresh
              ≡ (f, if mouseemu_check fl total s.mouseemu then some (ok, st') else none))
            (sym at)
            (init-kept nvs total image_size shortcuts_max d _ fresh s (keep.starts _) found new),
        refl,
        refl,
      )
