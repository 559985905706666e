-- ===== src/Settings/Store.antt =====
-- The settings in memory and in flash: subsys/kb_settings/src/kb_settings.c, in a build with the
-- backlight and the keyboard handler. Zephyr's settings library is the parameter `nvs`. The callbacks are
-- events, the last one first; that of the handler panics on mouse settings that mouseemu_check refuses.
pub mod Flash
pub mod Load
use ykb_firmware.Base.{
  ℕ, ◌%◌, Bool, true, false, not, ◌||◌, Option, none, some, List, [], ◌∷◌, ltb, ◌==◌, if◌then◌else◌,
  length, replicate, copy_into,
}
use ykb_firmware.Base.Int.{ℤ, pos}
use ykb_firmware.Settings.{Settings, Mouseemu, Backlight, FnShortcut, Mode, normal, no_action}
use ykb_firmware.Settings.Arithmetic.{Floats}
use ykb_firmware.KbHandler.Mouse.{mouseemu_check}

abbrev pub image_version : ℕ
image_version = 1

module _ (fl : Floats) where
  -- `kb_settings_image_t`
  pub record Image : Type 0 where
    pub version : ℕ
    pub settings : Settings fl

  -- What the settings library tells the handler of one stored item: whether its key is the item's, its
  -- length, and what `read_cb` returns, `none` for an error, and fills in.
  pub record Item : Type 0 where
    pub key_matches : Bool
    pub len : ℕ
    pub rlen : Option ℕ
    pub image : Image

  -- Zephyr's settings library with a flash of type `F`: the errors of settings_subsys_init,
  -- settings_register and settings_load_subtree, 0 for success; the item that the last hands to the
  -- handler, if any; and settings_save_one with whether it succeeds.
  pub record Nvs (F : Type 0) : Type 0 where
    pub subsys_error : F → ℕ
    pub register_error : F → ℕ
    pub load_error : F → ℕ
    pub load : F → Option Item
    pub save_one : F → Image → Bool × F

  -- What generated_default_settings.h and the subsystems give.
  pub record Defaults : Type 0 where
    pub keymap_layer1 : List ℕ
    pub keymap_layer2 : List ℕ
    pub keymap_layer3 : List ℕ
    pub mouseemu : Mouseemu fl
    pub fn_shortcuts : List FnShortcut
    pub thresholds : List ℕ
    pub minimums : List ℕ
    pub maximums : List ℕ
    pub deadzones : List ℕ
    pub backlight : Backlight fl

  -- The static variables, and the settings that the callbacks were given.
  pub record Store : Type 0 where
    pub settings : Settings fl
    pub registered : Bool
    pub loaded : Bool
    pub notified : List (Settings fl)

  -- 0, -E2BIG, -ENOENT, -EINVAL; a code of the settings library.
  pub data Result : Type 0 where
    ok too_big no_entry invalid : Result
    library : ℕ → Result

  unfoldable pub zero_shortcut : FnShortcut
  zero_shortcut = record { key = 0; action = no_action; param = pos 0 }

  -- What kb_settings_load_defaults sets before it looks at the shortcuts.
  unfoldable pub with_keymap : Defaults → Settings fl → Settings fl
  with_keymap d s = record s {
    mode = normal;
    mappings_layer1 = d.keymap_layer1;
    mappings_layer2 = d.keymap_layer2;
    mappings_layer3 = d.keymap_layer3;
    mouseemu = d.mouseemu;
  }

  unfoldable pub with_defaults : ℕ → Defaults → Settings fl → Settings fl
  with_defaults shortcuts_max d s = record (with_keymap d s) {
    fn_shortcuts_count = length d.fn_shortcuts % 256;
    fn_shortcuts = copy_into (replicate shortcuts_max zero_shortcut) 0 d.fn_shortcuts;
    thresholds = d.thresholds;
    minimums = d.minimums;
    maximums = d.maximums;
    deadzones = d.deadzones;
    backlight = d.backlight;
  }

  -- `shortcuts_max` is CONFIG_KB_SETTINGS_FN_SHORTCUTS_MAX.
  unfoldable pub load_defaults : ℕ → Defaults → Store → Result × Store
  load_defaults shortcuts_max d st =
      if ltb shortcuts_max (length d.fn_shortcuts)
      then (too_big, record st { settings = with_keymap d st.settings })
      else (ok, record st { settings = with_defaults shortcuts_max d st.settings })

  unfoldable pub told : Store → Store
  told st = record st { notified = st.settings ∷ st.notified }

  -- kb_settings_handle_on_update_snapshot: `total` is TOTAL_KEY_COUNT, and `none` stands for the panic that
  -- mouseemu_check makes of the handler's callback kb_handler_on_settings_update.
  unfoldable pub notify : ℕ → Store → Option Store
  unfolding told
  notify total st = if mouseemu_check fl total st.settings.mouseemu then some (told st) else none

  -- A function that returns `res` once the callbacks have been called.
  unfoldable pub returns : Result → Option Store → Option (Result × Store)
  returns res none = none
  returns res (some st) = some (res, st)

  -- `image_size` is sizeof(kb_settings_image_t).
  unfoldable pub same_size : Option ℕ → ℕ → Bool
  same_size none image_size = false
  same_size (some n) image_size = n == image_size

  unfoldable pub handler_set : ℕ → ℕ → Item → Store → Option (Result × Store)
  unfolding notify returns
  handler_set total image_size item st =
      if not item.key_matches
      then some (no_entry, st)
      else if not (item.len == image_size)
      then some (invalid, st)
      else if not (same_size item.rlen image_size)
      then some (invalid, st)
      else if not (item.image.version == image_version)
      then some (invalid, st)
      else returns ok (notify total (record st { settings = item.image.settings; loaded = true }))

  unfoldable pub image_of : Settings fl → Image
  image_of s = record { version = image_version; settings = s }

  -- The image that kb_settings_handler_export hands over.
  unfoldable pub handler_export : Store → Image
  handler_export st = image_of st.settings

  unfoldable pub get : Store → Settings fl
  get st = st.settings

  module _ {F : Type 0} (nvs : Nvs F) where
    unfoldable pub save : F → Store → F
    save flash st = if st.registered then (nvs.save_one flash (image_of st.settings)).1 else flash

    -- kb_settings_apply; NULL is refused. The flash, and what is returned, `none` where the kernel panics.
    unfoldable pub apply : ℕ → F → Store → Option (Settings fl) → F × Option (Result × Store)
    unfolding notify returns
    apply total flash st none = (flash, some (invalid, st))
    apply total flash st (some s) =
        let st' = record st { settings = s } in (save flash st', returns ok (notify total st'))

    module _ (total image_size shortcuts_max : ℕ) (d : Defaults) where
      -- From the label `load_defaults`; the result is as that of `apply`.
      unfoldable pub init_defaults : Result → F → Store → F × Option (Result × Store)
      unfolding notify returns
      init_defaults err flash st =
          let (res, st') = load_defaults shortcuts_max d st in
          elim res [ ok ↦ (save flash st', returns err (notify total st')) | _ ↦ (flash, none) ]

      -- settings_load_subtree, which hands the item to the handler.
      unfoldable pub load_subtree : F → Store → Option Store
      load_subtree flash st = elim (nvs.load flash) [
        | none ↦ some st
        | some item ↦ elim (handler_set total image_size item st) [
          | none ↦ none
          | some (res, st') ↦ some st'
        ]
      ]

      -- kb_settings_init from the loading on.
      unfoldable pub init_load : F → Store → F × Option (Result × Store)
      init_load flash st = elim (load_subtree flash st) [
        | none ↦ (flash, none)
        | some st' ↦
            if not (nvs.load_error flash == 0) || not st'.loaded
            then init_defaults (library (nvs.load_error flash)) flash st'
            else (flash, some (ok, st'))
      ]

      unfoldable pub init : F → Store → F × Option (Result × Store)
      init flash st =
          let st' = record st { loaded = false } in
          if st.registered
          then init_load flash st'
          else if not (nvs.subsys_error flash == 0)
          then init_defaults (library (nvs.subsys_error flash)) flash st'
          else if not (nvs.register_error flash == 0)
          then init_defaults (library (nvs.register_error flash)) flash st'
          else init_load flash (record st' { registered = true })
