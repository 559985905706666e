-- ===== src/Backlight/Slots.antt =====
-- The script slots in the flash: the settings handler of ykb_backlight.c and the part of its initialisation
-- that reads them. Zephyr's settings library is a parameter. `name_max` is SETTINGS_FULL_NAME_LEN.
pub mod Saved
pub mod Loaded
mod Tests
use ykb_firmware.Base.{
  ℕ, suc, Bool, true, false, not, ◌&&◌, ◌||◌, Option, none, some, List, [], ◌∷◌, ◌++◌, leb, ◌==◌,
  if◌then◌else◌, length, set, replicate,
}
use ykb_firmware.Splitlink.Scripts.{Script}
use ykb_firmware.Backlight.Names.{slot_prefix, namespace, slot_name, after_prefix, strtoul}

-- `ykb_backlight_script_slot_image_t`
pub record Image (A : Type 0) : Type 0 where
  pub version : ℕ
  pub image_slot : Script A

pub data SetResult : Type 0 where
  set_ok no_entry invalid : SetResult

-- script_slots and scripts_loaded
pub record Scripts (A : Type 0) : Type 0 where
  pub slots : List (Script A)
  pub scripts_loaded : Bool

-- What the settings library hands to the handler for one item: its name below "ykb_bl", whether its length
-- is that of an image, and what read_cb reads, `none` for an error or less than an image.
pub record Stored (A : Type 0) : Type 0 where
  pub name : List ℕ
  pub len_ok : Bool
  pub read : Option (Image A)

-- The settings library with a flash of type `F`: whether settings_subsys_init, settings_register and
-- settings_load_subtree succeed, the items that the last hands over in turn, and settings_save_one for a
-- key, with whether it succeeds.
pub record Library (A F : Type 0) : Type 0 where
  pub subsys_ok : F → Bool
  pub register_ok : F → Bool
  pub load_ok : F → Bool
  pub items : F → List (Stored A)
  pub save_one : F → List ℕ → Image A → Bool × F

module _ {A : Type 0} where
  -- YKB_BACKLIGHT_SCRIPT_IMAGE_VERSION is 1.
  unfoldable pub image_of : Script A → Image A
  image_of s = record { version = 1; image_slot = s }

  unfoldable pub store_slot : Option (List ℕ) → Stored A → Scripts A → SetResult × Scripts A
  store_slot none item st = (no_entry, st)
  store_slot (some []) item st = (invalid, st)
  store_slot (some (c ∷ text)) item st =
      let (slot_idx, rest) = strtoul (c ∷ text) in
      if leb 1 (length rest) || leb (length st.slots) slot_idx || not item.len_ok
      then (invalid, st)
      else elim item.read [
        | none ↦ (invalid, st)
        | some image ↦ if not (image.version == 1) then (invalid, st) else (
          set_ok,
          record { slots = set st.slots slot_idx image.image_slot; scripts_loaded = true },
        )
      ]

  -- ykb_backlight_script_handler_set
  unfoldable pub handler_set : Stored A → Scripts A → SetResult × Scripts A
  unfolding store_slot
  handler_set item st = store_slot (after_prefix slot_prefix item.name) item st

  -- ykb_backlight_script_handler_export from slot `i` on, for an export_func that says for which names it
  -- succeeds: whether none failed, and what is exported.
  unfoldable pub handler_export :
      ℕ → (List ℕ → Bool) → ℕ → List (Script A) → Bool × List (List ℕ × Image A)
  handler_export name_max exports i [] = (true, [])
  handler_export name_max exports i (s ∷ slots) =
      let (ok, rest) = handler_export name_max exports (suc i) slots in
      if leb name_max (length (slot_name i))
      then (false, [])
      else if exports (slot_name i)
      then (ok, (slot_name i, image_of s) ∷ rest)
      else (false, [])

  -- settings_load_subtree, which calls the handler for each item.
  unfoldable pub load_items : List (Stored A) → Scripts A → Scripts A
  load_items [] st = st
  load_items (item ∷ items) st = load_items items (handler_set item st).1

  module _ {F : Type 0} (lib : Library A F) (name_max : ℕ) where
    -- ykb_backlight_save_script_slot for a slot of the array: whether it succeeds, and the flash.
    unfoldable pub save_script_slot : F → ℕ → Script A → Bool × F
    unfolding image_of
    save_script_slot flash slot s =
        if leb name_max (length (namespace ++ slot_name slot))
        then (false, flash)
        else lib.save_one flash (namespace ++ slot_name slot) (image_of s)

    -- The loop of ykb_backlight_save_scripts from slot `i` on.
    unfoldable pub save_from : ℕ → List (Script A) → F → Bool × F
    save_from i [] flash = (true, flash)
    save_from i (s ∷ slots) flash =
        let (ok, flash') = save_script_slot flash i s in
        let rest = save_from (suc i) slots flash' in if ok then rest else (false, flash')

    -- ykb_backlight_save_scripts: whether all slots were saved, which it only logs, and the flash.
    unfoldable pub save_scripts : Bool → List (Script A) → F → Bool × F
    save_scripts registered slots flash =
        if not registered then (false, flash) else save_from 0 slots flash

    -- The part of ykb_backlight_init that reads the slots, for whether the handler is registered; `blank` is
    -- a slot of zeros, and `count` the size of the array. The slots, `none` for an error, and the flash.
    unfoldable pub init_scripts :
        Bool → Script A → List (Script A) → ℕ → F → Option (List (Script A)) × F
    init_scripts registered blank defaults count flash =
        let read =
          load_items (lib.items flash)
            (record { slots = replicate count blank; scripts_loaded = false }) in
        if not registered && (not (lib.subsys_ok flash) || not (lib.register_ok flash))
        then (none, flash)
        else if not (lib.load_ok flash) || not read.scripts_loaded
        then (some defaults, (save_scripts true defaults flash).1)
        else (some read.slots, flash)
