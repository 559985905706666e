-- ===== src/Backlight/Tests.antt =====
-- A strip of two lamps and two slots, of which one has a script.
use ykb_firmware.Base.{ℕ, ◌+◌, true, false, none, some, List, [], ◌∷◌}
use ykb_firmware.Splitlink.Scripts.{Script}
use ykb_firmware.Backlight.{LoadAnswers, LightSettings, Light, dark}
use ykb_firmware.Backlight.Running.{
  Change, settings_updated, slot_set, round, Board, changes, IsRunning, changes-IsRunning,
}

abbrev script : Script (List ℕ)
script = record { occupied = true; size = 2; contents = 7 ∷ 8 ∷ [] }

abbrev blank : Script (List ℕ)
blank = record { occupied = false; size = 0; contents = [] }

abbrev light : Light ℕ (List ℕ)
light = record {
  script_slots = script ∷ blank ∷ [];
  script_loaded = false;
  machine = record { machine_loaded = false; program = none };
  on = true;
  init_success = true;
  cur_speed = 1;
  cur_brightness = 1;
  thread_sleep_time = 10;
  prev_update = 0;
  press = 0 ∷ 0 ∷ [];
  pressed = false ∷ false ∷ [];
  buf_front = dark ∷ dark ∷ [];
  buf_back = dark ∷ dark ∷ [];
  shown = [];
}

abbrev board : Board ℕ (List ℕ)
board = record {
  slot_size = 4;
  led_count = 2;
  slave = false;
  keys_of_half = 2;
  layout = record {
    key_count = 2;
    led_map = 1 ∷ 0 ∷ [];
    x_coordinates = 0 ∷ 10 ∷ [];
    y_coordinates = 0 ∷ 0 ∷ [];
  };
  scale = λ brightness color. brightness + color;
}

abbrev good : LoadAnswers
good = record { accepted = true; program_ok = true; state_ok = true }

abbrev bad : LoadAnswers
bad = record { accepted = true; program_ok = false; state_ok = true }

abbrev light_settings : LightSettings ℕ
light_settings = record {
  light_on = true;
  active_script_index = 0;
  speed = 1;
  brightness = 1;
  thread_sleep_ms = 10;
}

abbrev some_changes : List (Change ℕ (List ℕ))
some_changes =
    settings_updated good true light_settings
    ∷ round 5 true (some 100 ∷ some 200 ∷ [])
    ∷ slot_set bad true (some light_settings) 0 script
    ∷ []

changes-IsRunning_example : IsRunning ℕ (List ℕ) (changes ℕ (List ℕ) board some_changes light)
changes-IsRunning_example = changes-IsRunning ℕ (List ℕ) board some_changes light (λ e. cc)
