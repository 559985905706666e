-- ===== src/KbHandler/Mouse.antt =====
-- The mouse that kb_handler_core.c makes of the keys: the values of the keys that move, scroll and
-- click, the report, and the checks of the settings that say which keys these are.
pub mod Checks
pub mod Vectors
use ykb_firmware.Base.{
  ℕ, zero, suc, ◌+◌, ◌-◌, ◌/◌, ◌%◌, ◌^◌, Bool, true, false, not, ◌&&◌, ◌||◌, List, [], ◌∷◌, ltb,
  leb, ◌==◌, if◌then◌else◌, get_or, bit_or, Option, none, some,
}
use ykb_firmware.Base.Int.{ℤ, pos, negsuc, sub_ℕ, ltb_ℤ}
use ykb_firmware.Settings.{Settings, Mouseemu, Direction, four_way, eight_way}
use ykb_firmware.Settings.Arithmetic.{Floats}
use ykb_firmware.KbHandler.Calibration.{
  key_value_from_minimum_range, key_scroll_value_from_minimum_range,
}

-- `hid_mouse_report_t`
pub record MouseReport : Type 0 where
  pub buttons : ℕ
  pub x : ℤ
  pub y : ℤ
  pub wheel : ℤ

unfoldable pub is_eight_way : Direction → Bool
is_eight_way eight_way = true
is_eight_way four_way = false

unfoldable pub eq_ℤ : ℤ → ℤ → Bool
eq_ℤ (pos m) (pos n) = m == n
eq_ℤ (negsuc m) (negsuc n) = m == n
eq_ℤ _ _ = false

unfoldable pub mouse_reports_equal : MouseReport → MouseReport → Bool
mouse_reports_equal a b =
    a.buttons == b.buttons && (eq_ℤ a.x b.x && (eq_ℤ a.y b.y && eq_ℤ a.wheel b.wheel))

unfoldable pub mouse_report_has_motion : MouseReport → Bool
mouse_report_has_motion r =
    not (eq_ℤ r.x (pos 0)) || not (eq_ℤ r.y (pos 0)) || not (eq_ℤ r.wheel (pos 0))

-- A number cut to -128 .. 127.
unfoldable pub clamp_steps : ℤ → ℤ
clamp_steps n =
    if ltb_ℤ (pos 127) n then pos 127 else if ltb_ℤ n (negsuc 127) then negsuc 127 else n

-- KBH_MOUSEEMU_REPEAT_INTERVAL_MS
abbrev pub repeat_interval_ms : ℕ
repeat_interval_ms = 8

-- The counts and indices of one group of keys.
unfoldable pub indices_in_range : ℕ → List ℕ → ℕ → Bool
indices_in_range total_key_count keys zero = true
indices_in_range total_key_count [] (suc count) = true
indices_in_range total_key_count (k ∷ keys) (suc count) =
    ltb k total_key_count && indices_in_range total_key_count keys count

module _ (fl : Floats) where
  unfoldable pub clamp_s8 : fl.Double → ℤ
  clamp_s8 v =
      if fl.double_lt (fl.double (pos 127)) v
      then pos 127
      else if fl.double_lt v (fl.double (negsuc 127))
      then negsuc 127
      else fl.lround v

  unfoldable pub move_value : Settings fl → List ℕ → ℕ → ℕ
  move_value settings current_values key =
      key_value_from_minimum_range (get_or current_values key 0) (get_or settings.minimums key 0)
        (get_or settings.maximums key 0) (get_or settings.deadzones key 0)

  unfoldable pub scroll_value : Settings fl → List ℕ → ℕ → ℕ
  scroll_value settings current_values key =
      key_scroll_value_from_minimum_range (get_or current_values key 0)
        (get_or settings.minimums key 0) (get_or settings.maximums key 0)
        (get_or settings.deadzones key 0)

  unfoldable pub mouseemu_scroll_delta : Settings fl → List ℕ → Mouseemu fl → fl.Double
  mouseemu_scroll_delta settings current_values emu =
      let up = scroll_value settings current_values (get_or emu.scroll_keys 0 0) in
      let down = scroll_value settings current_values (get_or emu.scroll_keys 1 0) in
      fl.mul (fl.double (sub_ℕ up down)) emu.scroll_k

  unfoldable pub mouseemu_vector_value : Settings fl → List ℕ → Mouseemu fl → ℕ → ℕ → ℕ → ℕ
  mouseemu_vector_value settings current_values emu left_vec_idx straight_vec_idx right_vec_idx =
      let value_of = λ (i : ℕ). move_value settings current_values (get_or emu.move_keys i 0) in
      let straight = value_of straight_vec_idx in
      if is_eight_way emu.direction_mode
      then (straight + value_of left_vec_idx / 2 + value_of right_vec_idx / 2) % 2 ^ 16
      else straight

  unfoldable pub button : Mouseemu fl → List Bool → ℕ → ℕ
  button emu pressed_keys i =
      if leb (i + 1) emu.button_keys_count && get_or pressed_keys (get_or emu.button_keys i 0) false
      then 2 ^ i
      else 0

  -- The report, and the movement of the wheel.
  unfoldable pub mouseemu_value_handler : Settings fl → List ℕ → List Bool → MouseReport × fl.Double
  mouseemu_value_handler settings current_values pressed_keys =
      let emu = settings.mouseemu in
      let vector = mouseemu_vector_value settings current_values emu in
      let still : MouseReport = record { buttons = 0; x = pos 0; y = pos 0; wheel = pos 0 } in
      let moved : MouseReport =
        if ltb 0 emu.move_keys_count
        then record still {
          x = clamp_s8 (fl.mul (fl.double (sub_ℕ (vector 5 3 7) (vector 6 0 4))) emu.move_x_k);
          y = clamp_s8 (fl.mul (fl.double (sub_ℕ (vector 7 2 6) (vector 4 1 5))) emu.move_y_k);
        }
        else still in
      let delta =
        if emu.scroll_keys_count == 2
        then mouseemu_scroll_delta settings current_values emu
        else fl.double (pos 0) in
      let clicked =
        bit_or (bit_or (button emu pressed_keys 0) (button emu pressed_keys 1))
          (button emu pressed_keys 2) in
      if not emu.enabled
      then (still, fl.double (pos 0))
      else (record moved { buttons = clicked }, delta)

  -- The part of the handler's state for the mouse, and whether a report was sent last.
  pub record MouseState : Type 0 where
    pub mouse_report : MouseReport
    pub prev_mouse_report : MouseReport
    pub last_mouse_report_ms : ℕ
    pub mouse_wheel_remainder : fl.Double

  -- The state at time `now_ms`, and the report if one is sent.
  unfoldable pub send_mouse_report_if_changed :
      Settings fl → List ℕ → List Bool → ℕ → MouseState → Option MouseReport × MouseState
  send_mouse_report_if_changed settings current_values pressed_keys now_ms st =
      let (built, wheel_delta) = mouseemu_value_handler settings current_values pressed_keys in
      let wheel_total = fl.add st.mouse_wheel_remainder wheel_delta in
      let wheel_steps = clamp_steps (fl.truncate wheel_total) in
      let report : MouseReport = record built { wheel = wheel_steps } in
      let kept : MouseState = record st {
        mouse_report = report;
        mouse_wheel_remainder = fl.sub wheel_total (fl.double wheel_steps);
      } in
      let repeat_due =
        mouse_report_has_motion report
        && leb (st.last_mouse_report_ms + repeat_interval_ms) now_ms in
      if not (mouse_reports_equal report st.prev_mouse_report) || repeat_due
      then (some report, record kept { prev_mouse_report = report; last_mouse_report_ms = now_ms })
      else (none, kept)

  -- `mouseemu_check`: false where the code panics.
  unfoldable pub mouseemu_check : ℕ → Mouseemu fl → Bool
  mouseemu_check total_key_count emu =
      not emu.enabled
      || (leb emu.move_keys_count 8
          && (leb emu.scroll_keys_count 2
              && (leb emu.button_keys_count 3
                  && ((if is_eight_way emu.direction_mode
                        then emu.move_keys_count == 8
                        else emu.move_keys_count == 4)
                      && ((emu.scroll_keys_count == 0 || emu.scroll_keys_count == 2)
                          && ((emu.button_keys_count == 0 || emu.button_keys_count == 3)
                              && (indices_in_range total_key_count emu.move_keys emu.move_keys_count
                                  && (indices_in_range total_key_count emu.scroll_keys
                                        emu.scroll_keys_count
                                      && indices_in_range total_key_count emu.button_keys
                                          emu.button_keys_count))))))))
