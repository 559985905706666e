-- ===== src/KbHandler/Tests.antt =====
-- A keyboard of four keys, and the theorems at work on it. Its `float` counts hundredths, and its
-- `double` whole numbers.
use ykb_firmware.Base.{
  ℕ, zero, suc, ◌+◌, ◌-◌, ◌*◌, ◌/◌, ◌<◌, ◌≡◌, refl, Bool, true, false, List, [], ◌∷◌, some, take,
  length, ltb, leb, arith, ◌↔◌, min, if◌then◌else◌, ◌&&◌, replicate, get_or,
}
use ykb_firmware.Base.Int.{ℤ, pos, pos_part, ltb_ℤ, ◌-ℤ◌}
use ykb_firmware.Settings.{Settings, Mouseemu, normal, four_way, prio_usb, mode_race}
use ykb_firmware.Settings.Arithmetic.{Floats}
use ykb_firmware.KbHandler.Report.{KbReport, build_kb_report, key_leftcontrol}
use ykb_firmware.KbHandler.Report.Slots.{has_key}
use ykb_firmware.KbHandler.Report.Distinct.{shown}
use ykb_firmware.KbHandler.Report.Content.{build_kb_report_lem, active_codes, collect, has_mod}
use ykb_firmware.KbHandler.Calibration.{key_value_from_minimum_range_scaled}
use ykb_firmware.KbHandler.Calibration.Scale.{nearest, base_of, scaled-eq-nearest}
use ykb_firmware.KbHandler.Layers.{build_layer_keys}
use ykb_firmware.KbHandler.Actions.{ScriptSlot}
use ykb_firmware.KbHandler.Handler.{
  Build, State, process_values, send_kb_report_if_changed, kb_report_sent,
}
use ykb_firmware.KbHandler.Handler.Thresholds.{Tracks, process_values-Tracks}
use ykb_firmware.KbHandler.Handler.Reports.{
  InSync, last_handed, report_of, send_kb_report_if_changed-report_of,
}
use ykb_firmware.KbHandler.Mouse.{is_eight_way, indices_in_range, mouseemu_check}
use ykb_firmware.KbHandler.Mouse.Checks.{HasArrays}
use ykb_firmware.KbHandler.Frame.{
  Handler, scan_frames, reset_handler_state, scan_frames-reset_handler_state,
}
use ykb_firmware.KbHandler.Transport.{Links}
use ykb_firmware.KbHandler.Topology.{Kscan, valid, validate_kscan_topology}
use ykb_firmware.KbHandler.Topology.Cover.{IsTiling, validate_kscan_topology-IsTiling}

abbrev pub floats : Floats
floats = record {
  Single = ℕ;
  single = λ n d. (n * 100) / d;
  single_add = λ a b. a + b;
  single_sub = λ a b. a - b;
  single_lt = ltb;
  Double = ℤ;
  double = λ n. n;
  add = λ a b. pos (pos_part a + pos_part b);
  sub = λ a b. a -ℤ b;
  mul = λ a b. pos (pos_part a * pos_part b);
  quotient = λ a b. pos (pos_part a / pos_part b);
  double_lt = ltb_ℤ;
  lround = λ d. d;
  truncate = λ d. d;
}

-- The keys are A, LAYER1, FN and left Control.
abbrev codes : List ℕ
codes = 4 ∷ 0xE9 ∷ 0xE8 ∷ 0xE0 ∷ []

abbrev settings : Settings floats
settings = record {
  mode = normal;
  thresholds = 500 ∷ 500 ∷ 500 ∷ 500 ∷ [];
  minimums = 100 ∷ 100 ∷ 100 ∷ 100 ∷ [];
  maximums = 900 ∷ 900 ∷ 900 ∷ 900 ∷ [];
  deadzones = 50 ∷ 50 ∷ 50 ∷ 50 ∷ [];
  mappings_layer1 = codes;
  mappings_layer2 = 5 ∷ 0xE9 ∷ 0xE8 ∷ 0xE0 ∷ [];
  mappings_layer3 = codes;
  mouseemu = record {
    enabled = false;
    direction_mode = four_way;
    move_keys_count = 0;
    move_keys = [];
    scroll_keys_count = 0;
    scroll_keys = [];
    button_keys_count = 0;
    button_keys = [];
    move_x_k = pos 0;
    move_y_k = pos 0;
    scroll_k = pos 0;
  };
  kbh_prio = prio_usb;
  fn_shortcuts_count = 1;
  fn_shortcuts = record { key = 4; action = mode_race; param = pos 0 } ∷ [];
  backlight = record {
    on = true;
    active_script_index = 0;
    speed = 100;
    brightness = 100;
    thread_sleep_ms = 20;
  };
}

abbrev pub build : Build
build = record { total_key_count = 4; rollover = true }

abbrev no_report : KbReport
no_report = record { mods = 0; reserved = 0; keys = replicate 6 0 }

-- The state after a reset, which sends an empty report.
abbrev start : State floats
start = record {
  settings = settings;
  active_mode = normal;
  second_layer_active = false;
  third_layer_active = false;
  pressed_keys = replicate 4 false;
  current_values = replicate 4 0;
  notified_press_percent = replicate 4 0;
  layer_keys = build_layer_keys floats settings 4;
  shortcut_consumed_keys = replicate 4 false;
  kb_report = no_report;
  prev_kb_report = no_report;
  values = replicate 4 0;
  events = kb_report_sent no_report prio_usb ∷ [];
}

start-Tracks : Tracks floats build start
start-Tracks = record { pressed_width = refl; current_width = refl; tracks = tracked }
  where
    tracked :
        (k : ℕ)
        → k < 4
        → get_or start.pressed_keys k false
          ≡ leb (get_or start.settings.thresholds k 0) (get_or start.current_values k 0)
    tracked zero h = refl
    tracked (suc zero) h = refl
    tracked (suc (suc zero)) h = refl
    tracked (suc (suc (suc zero))) h = refl
    tracked (suc (suc (suc (suc k)))) h = absurd (omega arith)

start-InSync : InSync floats start
unfolding last_handed
start-InSync = refl

process_values-Tracks_example :
    Tracks floats build (process_values floats build [] 0 (600 ∷ 0 ∷ 700 ∷ 0 ∷ 9 ∷ []) start)
process_values-Tracks_example =
    process_values-Tracks floats build [] 0 (600 ∷ 0 ∷ 700 ∷ 0 ∷ 9 ∷ []) start start-Tracks

send_kb_report_if_changed-report_of_example :
    (last_handed floats (send_kb_report_if_changed floats build start).events
      ≡ some (report_of floats build start))
    × ((send_kb_report_if_changed floats build start).prev_kb_report ≡ report_of floats build start)
send_kb_report_if_changed-report_of_example =
    send_kb_report_if_changed-report_of floats build start start-InSync

-- A and left Control are down.
abbrev two_down : List Bool
two_down = true ∷ false ∷ false ∷ true ∷ []

build_kb_report_lem_example :
    let report = build_kb_report floats true settings two_down 4 false false in
    let active = active_codes floats settings false false 0 (take 4 two_down) in
    let plain = collect [] active in
    (report.keys ≡ (if ltb 6 (length plain) && true then replicate 6 0x01 else shown 6 plain))
    × ((k : ℕ) → k < 8 → has_mod report.mods k ≡ has_key active (key_leftcontrol + k))
    × (report.reserved ≡ 0)
build_kb_report_lem_example = build_kb_report_lem floats true settings two_down 4 false false

scaled-eq-nearest_example :
    key_value_from_minimum_range_scaled 600 100 900 50 100
    ≡ nearest (min 600 900 - base_of 100 900 50) (900 - base_of 100 900 50) 100
scaled-eq-nearest_example =
    scaled-eq-nearest 600 100 900 50 100 (omega arith) (omega arith) (omega arith) (omega arith)
      (omega arith)

-- The middle slot has a script.
abbrev slots : List ScriptSlot
slots =
    record { occupied = false; size = 0 }
    ∷ record { occupied = true; size = 12 }
    ∷ record { occupied = true; size = 0 }
    ∷ []

abbrev links : Links
links = record { has_usb = true; has_bt = true; usb_ready = true; bt_ready = false }

abbrev kscans : List Kscan
kscans = record { offset = pos 0; amount = pos 3 } ∷ record { offset = pos 3; amount = pos 1 } ∷ []

validate_kscan_topology-IsTiling_example :
    (validate_kscan_topology 4 kscans ≡ valid) ↔ IsTiling 4 kscans
validate_kscan_topology-IsTiling_example = validate_kscan_topology-IsTiling 4 kscans

-- Four keys to move, and none to scroll or click.
abbrev mouse : Mouseemu floats
mouse = record {
  enabled = true;
  direction_mode = four_way;
  move_keys_count = 4;
  move_keys = 3 ∷ 2 ∷ 1 ∷ 0 ∷ 0 ∷ 0 ∷ 0 ∷ 0 ∷ [];
  scroll_keys_count = 0;
  scroll_keys = 0 ∷ 0 ∷ [];
  button_keys_count = 0;
  button_keys = 0 ∷ 0 ∷ 0 ∷ [];
  move_x_k = pos 1;
  move_y_k = pos 1;
  scroll_k = pos 1;
}

mouse-HasArrays : HasArrays floats mouse
mouse-HasArrays = record { move_size = refl; scroll_size = refl; button_size = refl }

mouse_passes : mouseemu_check floats 4 mouse ≡ true
unfolding mouseemu_check is_eight_way indices_in_range
mouse_passes = refl

abbrev pub handler : Handler floats
handler = record {
  keys = start;
  mouse = record {
    mouse_report = record { buttons = 0; x = pos 0; y = pos 0; wheel = pos 0 };
    prev_mouse_report = record { buttons = 0; x = pos 0; y = pos 0; wheel = pos 0 };
    last_mouse_report_ms = 0;
    mouse_wheel_remainder = pos 0;
  };
  mouse_reports = [];
}

abbrev two_frames : List (List ℕ × ℕ)
two_frames = (600 ∷ 0 ∷ 700 ∷ 0 ∷ [], 5) ∷ (0 ∷ 800 ∷ 0 ∷ 900 ∷ [], 12) ∷ []

scan_frames-reset_handler_state_example :
    InSync floats
      (scan_frames floats build [] 0 two_frames (reset_handler_state floats build handler)).keys
scan_frames-reset_handler_state_example =
    scan_frames-reset_handler_state floats build [] 0 two_frames handler
