-- ===== src/KbHandler/Calibration.antt =====
-- Scaling a reading of a key to the range its calibration gives, in kb_handler_core.c.
pub mod Scale
use ykb_firmware.Base.{ℕ, ◌+◌, ◌-◌, ◌*◌, ◌/◌, ◌%◌, ◌^◌, leb, ltb, ◌==◌, if◌then◌else◌, get_or}
use ykb_firmware.Settings.{Settings}
use ykb_firmware.Settings.Arithmetic.{Floats}

-- Subtraction of `uint32_t`.
unfoldable pub sub_u32 : ℕ → ℕ → ℕ
sub_u32 a b = (a + 2 ^ 32 - b) % 2 ^ 32

unfoldable pub key_value_from_minimum_range_scaled : ℕ → ℕ → ℕ → ℕ → ℕ → ℕ
key_value_from_minimum_range_scaled current_value minimum maximum deadzone scale_max =
    let sum = (minimum + deadzone) % 2 ^ 32 in
    let baseline = if ltb maximum sum then maximum else sum in
    if leb maximum minimum
    then 0
    else if leb current_value baseline
    then 0
    else (let current = if ltb maximum current_value then maximum else current_value in
        let span = sub_u32 maximum baseline in
        if span == 0
        then 0
        else (let active = sub_u32 current baseline in
            (((active * scale_max) % 2 ^ 32 + span / 2) % 2 ^ 32 / span) % 2 ^ 16))

unfoldable pub key_value_from_minimum_range : ℕ → ℕ → ℕ → ℕ → ℕ
key_value_from_minimum_range current_value minimum maximum deadzone =
    key_value_from_minimum_range_scaled current_value minimum maximum deadzone 100

unfoldable pub key_scroll_value_from_minimum_range : ℕ → ℕ → ℕ → ℕ → ℕ
key_scroll_value_from_minimum_range current_value minimum maximum deadzone =
    key_value_from_minimum_range_scaled current_value minimum maximum deadzone 8

module _ (fl : Floats) where
  -- TOTAL_KEY_COUNT is `total_key_count`.
  unfoldable pub key_press_percent : ℕ → Settings fl → ℕ → ℕ → ℕ
  key_press_percent total_key_count settings key current_value =
      if leb total_key_count key
      then 0
      else key_value_from_minimum_range_scaled current_value (get_or settings.minimums key 0)
          (get_or settings.maximums key 0) (get_or settings.deadzones key 0) 100
