-- ===== src/KbHandler/Report.antt =====
-- The keyboard report of kb_handler_core.c: six key codes and a byte of modifiers.
pub mod Slots
pub mod Distinct
pub mod Content
use ykb_firmware.Base.{
  ℕ, zero, suc, ◌+◌, ◌-◌, ◌^◌, ◌%◌, Bool, true, false, not, ◌&&◌, ◌||◌, List, [], ◌∷◌, ltb, leb,
  ◌==◌, if◌then◌else◌, bit_or, get_or, replicate, take,
}
use ykb_firmware.Settings.{Settings, Mouseemu, Mode, mousesim, normal, race}
use ykb_firmware.Settings.Arithmetic.{Floats}
use Slots.{add_key, key_nokey, no_keys}

abbrev pub key_leftcontrol : ℕ
key_leftcontrol = 0xE0

abbrev pub key_rightgui : ℕ
key_rightgui = 0xE7

abbrev pub key_fn : ℕ
key_fn = 0xE8

abbrev pub key_layer1 : ℕ
key_layer1 = 0xE9

abbrev pub key_layer2 : ℕ
key_layer2 = 0xEA

-- `hid_kb_report_t`
pub record KbReport : Type 0 where
  pub mods : ℕ
  pub reserved : ℕ
  pub keys : List ℕ

unfoldable pub is_modifier : ℕ → Bool
is_modifier hid = leb key_leftcontrol hid && leb hid key_rightgui

unfoldable pub mod_bit : ℕ → ℕ
mod_bit hid = 2 ^ (hid - key_leftcontrol) % 256

-- The loop over the first `count` entries of an array.
unfoldable pub key_in_list : ℕ → List ℕ → ℕ → Bool
key_in_list key keys zero = false
key_in_list key [] (suc count) = false
key_in_list key (k ∷ keys) (suc count) = k == key || key_in_list key keys count

unfoldable pub is_special : ℕ → Bool
is_special hid = hid == key_layer1 || hid == key_layer2 || hid == key_fn || hid == key_nokey

-- The report under construction, and whether a key found no slot.
pub record Draft : Type 0 where
  pub mods : ℕ
  pub keys : List ℕ
  pub overflow : Bool

-- What one pressed key with code `hid` adds.
unfoldable pub add_hid : ℕ → Draft → Draft
add_hid hid draft =
    if is_special hid
    then draft
    else if is_modifier hid
    then record draft { mods = bit_or draft.mods (mod_bit hid) }
    else (let (keys, added) = add_key draft.keys hid in
        record draft { keys = keys; overflow = draft.overflow || not added })

unfoldable pub is_mousesim : Mode → Bool
is_mousesim mousesim = true
is_mousesim _ = false

-- CONFIG_KB_HANDLER_REPORT_ROLLOVER is `rollover`.
unfoldable pub finish_report : Bool → Draft → KbReport
finish_report rollover draft = record {
  mods = draft.mods;
  reserved = 0;
  keys = if draft.overflow && rollover then replicate 6 0x01 else draft.keys;
}

module _ (fl : Floats) where
  unfoldable pub resolve_hid : Settings fl → ℕ → Bool → Bool → ℕ
  resolve_hid settings key second_layer_active third_layer_active =
      if third_layer_active
      then get_or settings.mappings_layer3 key 0
      else if second_layer_active
      then get_or settings.mappings_layer2 key 0
      else get_or settings.mappings_layer1 key 0

  unfoldable pub is_mouseemu_physical_key : Mouseemu fl → ℕ → Bool
  unfolding key_in_list
  is_mouseemu_physical_key emu key_index =
      emu.enabled
      && (key_in_list key_index emu.move_keys emu.move_keys_count
          || key_in_list key_index emu.scroll_keys emu.scroll_keys_count
          || key_in_list key_index emu.button_keys emu.button_keys_count)

  -- The loop of `build_kb_report` from key `i` on, over the keys' states from there on.
  unfoldable pub add_pressed : Settings fl → Bool → Bool → ℕ → List Bool → Draft → Draft
  add_pressed settings second third i [] draft = draft
  add_pressed settings second third i (is_down ∷ rest) draft =
      add_pressed settings second third (i + 1) rest (
        if not is_down
        then draft
        else if is_mousesim settings.mode && is_mouseemu_physical_key settings.mouseemu i
        then draft
        else add_hid (resolve_hid settings i second third) draft)

  unfoldable pub build_kb_report : Bool → Settings fl → List Bool → ℕ → Bool → Bool → KbReport
  build_kb_report rollover settings pressed_keys total_key_count second third =
      finish_report rollover (
        add_pressed settings second third 0 (take total_key_count pressed_keys)
          (record { mods = 0; keys = no_keys; overflow = false }))
