-- ===== src/KbHandler/Mouse/Vectors.antt =====
-- The size of a movement.
use ykb_firmware.Base.{ℕ, ◌^◌, ◌≤◌, ◌<◌, List, get_or, arith}
use ykb_firmware.Settings.{Settings, Mouseemu}
use ykb_firmware.Settings.Arithmetic.{Floats}
use ykb_firmware.KbHandler.Calibration.{key_value_from_minimum_range}
use ykb_firmware.KbHandler.Calibration.Scale.{scaled_mono}
use ykb_firmware.KbHandler.Mouse.{mouseemu_vector_value, move_value}

module _ (fl : Floats) where
  -- The arrays of 16-bit words that a key value is made of.
  record HasWords (settings : Settings fl) (current_values : List ℕ) : Type 0 where
    current_word : (k : ℕ) → get_or current_values k 0 < 2 ^ 16
    pub minimum_word : (k : ℕ) → get_or settings.minimums k 0 < 2 ^ 16
    pub maximum_word : (k : ℕ) → get_or settings.maximums k 0 < 2 ^ 16
    pub deadzone_word : (k : ℕ) → get_or settings.deadzones k 0 < 2 ^ 16

  move_value_le :
      (settings : Settings fl) (current_values : List ℕ) (key : ℕ)
      → HasWords settings current_values
      → move_value fl settings current_values key ≤ 100
  unfolding move_value key_value_from_minimum_range
  move_value_le settings current_values key w =
      let cur = get_or current_values key 0 in
      (scaled_mono cur cur (get_or settings.minimums key 0) (get_or settings.maximums key 0)
        (get_or settings.deadzones key 0) 100 (w.current_word key) (w.minimum_word key)
        (w.maximum_word key) (w.deadzone_word key) (omega arith) (omega arith)).1

  -- A movement in one direction is at most 200, twice the value of one key, so its sum does not wrap.
  mouseemu_vector_value_le :
      (settings : Settings fl) (current_values : List ℕ) (emu : Mouseemu fl)
      (left straight right : ℕ)
      → HasWords settings current_values
      → mouseemu_vector_value fl settings current_values emu left straight right ≤ 200
  unfolding mouseemu_vector_value
  mouseemu_vector_value_le settings current_values emu left straight right w =
      let bound = λ (i : ℕ). move_value_le settings current_values (get_or emu.move_keys i 0) w in
      ground (arith, bound left, bound straight, bound right)
