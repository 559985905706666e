-- ===== src/Power.antt =====
-- The power key and the breathing light: ykb_power.c of subsys/ykb_power, in a build with a shutdown pin, a
-- button and a light of adjustable brightness. Both run once in every round of the thread, under its mutex.
pub mod Hold
pub mod Light
pub mod Indicator
pub mod Tests
use ykb_firmware.Base.{
  ℕ, zero, suc, ◌+◌, ◌-◌, ◌*◌, ◌/◌, ◌%◌, ◌^◌, Bool, true, false, List, [], ◌∷◌, ◌==◌, if◌then◌else◌,
  ltb, leb, min, max,
}

-- What gpio_pin_get_dt answers: an error, or the level of the pin.
pub data Reading : Type 0 where
  read_error : Reading
  level : ℕ → Reading

-- The static variables of ykb_power_handle_power_button_shutdown, and how often
-- ykb_power_trigger_shutdown was called.
pub record Button : Type 0 where
  pub pressed_since_ms : ℕ
  pub shutdown_requested : Bool
  pub shutdowns : ℕ

unfoldable pub hold : ℕ → ℕ → Button → Button
hold shutdown_time now_ms b =
    if b.pressed_since_ms == 0
    then record b { pressed_since_ms = now_ms }
    else if b.shutdown_requested
    then b
    else if leb shutdown_time ((now_ms - b.pressed_since_ms) % 2 ^ 32)
    then record b { shutdown_requested = true; shutdowns = b.shutdowns + 1 }
    else b

-- ykb_power_handle_power_button_shutdown, at the uptime `now_ms`.
unfoldable pub handle_button : ℕ → Reading → ℕ → Button → Button
handle_button shutdown_time read_error now_ms b = b
handle_button shutdown_time (level zero) now_ms b = record b {
  pressed_since_ms = 0;
  shutdown_requested = false;
}
handle_button shutdown_time (level (suc value)) now_ms b = hold shutdown_time now_ms b

-- The rounds of the thread, each with what it reads and its uptime.
unfoldable pub handle_rounds : ℕ → List (Reading × ℕ) → Button → Button
handle_rounds shutdown_time [] b = b
handle_rounds shutdown_time ((reading, now_ms) ∷ rounds) b =
    handle_rounds shutdown_time rounds (handle_button shutdown_time reading now_ms b)

-- The level of ykb_power_handle_power_indicator_breathe_mode in uint32_t, for a peak and an uptime.
unfoldable pub breathe_level : ℕ → ℕ → ℕ → ℕ
breathe_level speed peak now_ms =
    let cycle_ms = max speed 2 in
    let phase_ms = now_ms % 2 ^ 32 % cycle_ms in
    let rising_ms = cycle_ms / 2 in
    let falling_ms = cycle_ms - rising_ms in
    if ltb phase_ms rising_ms
    then (phase_ms * peak) % 2 ^ 32 / rising_ms
    else ((falling_ms - (phase_ms - rising_ms)) * peak) % 2 ^ 32 / falling_ms

-- The brightness that the light is set to; `brightness_max` is LED_BRIGHTNESS_MAX.
unfoldable pub breathe : ℕ → ℕ → ℕ → ℕ → ℕ
breathe brightness_max speed brightness now_ms =
    min (breathe_level speed (min brightness brightness_max) now_ms) brightness_max
