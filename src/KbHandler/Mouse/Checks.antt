-- ===== src/KbHandler/Mouse/Checks.antt =====
-- What the checks of the mouse settings are for: no index read from them is out of range.
use ykb_firmware.Base.{
  ℕ, zero, suc, ◌≤◌, ◌<◌, true, List, [], ◌∷◌, length, get_or, arith, ◌≡◌, if◌then◌else◌,
}
use ykb_firmware.Settings.{Mouseemu}
use ykb_firmware.Settings.Arithmetic.{Floats}
use ykb_firmware.KbHandler.Mouse.{indices_in_range, is_eight_way, mouseemu_check}

-- The first `count` entries are keys of the keyboard.
abbrev pub InRange : ℕ → List ℕ → ℕ → Type 0
InRange total keys count = (i : ℕ) → i < count → get_or keys i 0 < total

indices_in_range-InRange :
    (total : ℕ) (keys : List ℕ) (count : ℕ)
    → count ≤ length keys
    → indices_in_range total keys count ≡ true
    → InRange total keys count
unfolding indices_in_range
indices_in_range-InRange total keys zero h e i l = absurd (omega arith)
indices_in_range-InRange total [] (suc count) h e i l = absurd (omega arith)
indices_in_range-InRange total (k ∷ keys) (suc count) h e zero l = ground arith
indices_in_range-InRange total (k ∷ keys) (suc count) h e (suc i) l =
    indices_in_range-InRange total keys count (omega arith) (ground arith) i (omega arith)

module _ (fl : Floats) where
  -- The arrays have their declared sizes.
  pub record HasArrays (emu : Mouseemu fl) : Type 0 where
    pub move_size : length emu.move_keys ≡ 8
    pub scroll_size : length emu.scroll_keys ≡ 2
    pub button_size : length emu.button_keys ≡ 3

  -- Every entry in use is a key, and there are as many moving keys as the directions need.
  pub record IsUsable (total : ℕ) (emu : Mouseemu fl) : Type 0 where
    pub moves : InRange total emu.move_keys emu.move_keys_count
    pub scrolls : InRange total emu.scroll_keys emu.scroll_keys_count
    pub buttons : InRange total emu.button_keys emu.button_keys_count
    pub directions : emu.move_keys_count ≡ (if is_eight_way emu.direction_mode then 8 else 4)

  -- With the mouse switched on, settings that pass the checks name only keys of the keyboard, and four or eight keys to move as their mode asks.
  mouseemu_check-IsUsable :
      (total : ℕ) (emu : Mouseemu fl)
      → HasArrays emu
      → emu.enabled ≡ true
      → mouseemu_check fl total emu ≡ true
      → IsUsable total emu
  unfolding mouseemu_check
  mouseemu_check-IsUsable total emu a on e =
      let move_count : emu.move_keys_count ≤ 8 = ground arith in
      let scroll_count : emu.scroll_keys_count ≤ 2 = ground arith in
      let button_count : emu.button_keys_count ≤ 3 = ground arith in
      record {
        moves =
            indices_in_range-InRange total emu.move_keys emu.move_keys_count
              (omega (arith, a.move_size)) (ground arith);
        scrolls =
            indices_in_range-InRange total emu.scroll_keys emu.scroll_keys_count
              (omega (arith, a.scroll_size)) (ground arith);
        buttons =
            indices_in_range-InRange total emu.button_keys emu.button_keys_count
              (omega (arith, a.button_size)) (ground arith);
        directions = ground arith;
      }
