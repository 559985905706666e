-- ===== src/Power/Tests.antt =====
-- A key held for 1.2 seconds, with a failed reading and an update of the settings.
use ykb_firmware.Base.{◌≡◌, refl, false, List, [], ◌∷◌, arith}
use ykb_firmware.Power.{read_error, level}
use ykb_firmware.Power.Indicator.{
  PowerState, PowerSettings, PowerEvent, updated, round, mode_off, mode_breathe, led_off,
  led_set_brightness, power_run, power_event, handle_power_indicator, indicator_calls, key_rounds,
}
use ykb_firmware.Power.Hold.{power_run-shutdowns}

abbrev second_settings : PowerSettings
second_settings = record {
  pwr_indicator_mode = mode_off;
  speed = 4000;
  brightness = 80;
  shutdown_time = 1000;
}

abbrev events : List PowerEvent
events =
    round (level 1) 600 600
    ∷ (updated second_settings
        ∷ (round read_error 1200 1200
            ∷ (round (level 1) 1300 1301 ∷ (round (level 1) 1400 1400 ∷ []))))

abbrev power : PowerState
power = record {
  settings = record second_settings { pwr_indicator_mode = mode_breathe };
  button = record { pressed_since_ms = 0; shutdown_requested = false; shutdowns = 0 };
  calls = [];
}

-- With the mode off, the last call sets the light to its brightness.
off_is_lit :
    (power_run 100 (updated second_settings ∷ []) power).calls
    ≡ led_set_brightness 80 ∷ (led_off ∷ [])
unfolding power_run power_event handle_power_indicator indicator_calls
off_is_lit = refl

power_run-shutdowns_example :
    (power_run 100 (round (level 1) 100 100 ∷ events) power).button.shutdowns ≡ 1
unfolding key_rounds
power_run-shutdowns_example =
    power_run-shutdowns 100 0 100 100 events power (omega arith) refl refl (refl, tt) tt
