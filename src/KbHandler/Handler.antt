-- ===== src/KbHandler/Handler.antt =====
-- The state of the handler's thread (include/subsys/kb_handler_core.h) and what
-- kb_handler_core.c does with one key value.
pub mod Tracking
pub mod Thresholds
pub mod Reports
use ykb_firmware.Base.{
  ℕ, zero, suc, ◌+◌, Bool, true, false, not, ◌&&◌, ◌||◌, List, [], ◌∷◌, ltb, leb, ◌==◌,
  if◌then◌else◌, get_or, set, length, replicate, take,
}
use ykb_firmware.Settings.{Settings, Mode, normal, race, mousesim, TransportPrio, FnShortcut}
use ykb_firmware.Settings.Arithmetic.{Floats}
use ykb_firmware.KbHandler.Report.{KbReport, build_kb_report, resolve_hid, key_in_list, key_fn}
use ykb_firmware.KbHandler.Calibration.{key_press_percent}
use ykb_firmware.KbHandler.Layers.{KeyCache, LayerKeys, build_layer_keys, handle_layer_key}
use ykb_firmware.KbHandler.Actions.{ScriptSlot, execute_fn_action}

-- The build: TOTAL_KEY_COUNT and CONFIG_KB_HANDLER_REPORT_ROLLOVER.
pub record Build : Type 0 where
  pub total_key_count : ℕ
  pub rollover : Bool

unfoldable pub keys_equal : List ℕ → List ℕ → Bool
keys_equal [] [] = true
keys_equal [] (y ∷ ys) = false
keys_equal (x ∷ xs) [] = false
keys_equal (x ∷ xs) (y ∷ ys) = x == y && keys_equal xs ys

-- `memcmp` of the two.
unfoldable pub reports_equal : KbReport → KbReport → Bool
reports_equal a b = a.mods == b.mods && (a.reserved == b.reserved && keys_equal a.keys b.keys)

unfoldable pub same_bool : Bool → Bool → Bool
same_bool true c = c
same_bool false c = not c

unfoldable pub is_race : Mode → Bool
is_race race = true
is_race _ = false

module _ (fl : Floats) where
  -- The calls that leave the handler.
  pub data Event : Type 0 where
    kb_report_sent : KbReport → TransportPrio → Event
    kb_report_counted : Event
    transition_notified : ℕ → Bool → Event
    transition_counted : Bool → Event
    value_notified : ℕ → ℕ → Event
    settings_applied : Settings fl → Event

  -- `struct kbh_runtime_state` with the static array `values`, less the mouse (KbHandler/Mouse) and the two arrays that each frame fills anew; `events` are the calls made, the last one first.
  pub record State : Type 0 where
    pub settings : Settings fl
    pub active_mode : Mode
    pub second_layer_active : Bool
    pub third_layer_active : Bool
    pub pressed_keys : List Bool
    pub current_values : List ℕ
    pub notified_press_percent : List ℕ
    pub layer_keys : LayerKeys
    pub shortcut_consumed_keys : List Bool
    pub kb_report : KbReport
    pub prev_kb_report : KbReport
    pub values : List ℕ
    pub events : List Event

  unfoldable pub emit : Event → State → State
  emit e st = record st { events = e ∷ st.events }

  unfoldable pub send_kb_report_if_changed : Build → State → State
  unfolding emit
  send_kb_report_if_changed b st =
      let report =
        build_kb_report fl b.rollover st.settings st.pressed_keys b.total_key_count
          st.second_layer_active st.third_layer_active in
      let built = record st { kb_report = report } in
      if not (reports_equal report st.prev_kb_report)
      then record (emit kb_report_counted
          (emit (kb_report_sent report st.settings.kbh_prio) built)) { prev_kb_report = report }
      else built

  unfoldable pub rebuild_layer_cache : Build → State → State
  rebuild_layer_cache b st = record st {
    layer_keys = build_layer_keys fl st.settings b.total_key_count;
  }

  -- The first `count` FN keys.
  unfoldable pub any_fn_pressed : State → ℕ → List ℕ → ℕ → Bool
  any_fn_pressed st key keys zero = false
  any_fn_pressed st key [] (suc count) = false
  any_fn_pressed st key (fn_key ∷ keys) (suc count) =
      let rest = any_fn_pressed st key keys count in
      if fn_key == key
      then rest
      else if get_or st.pressed_keys fn_key false
          || leb (get_or st.settings.thresholds fn_key 0) (get_or st.values fn_key 0)
      then true
      else rest

  unfoldable pub is_any_fn_pressed : State → ℕ → Bool
  is_any_fn_pressed st key = any_fn_pressed st key st.layer_keys.fn.keys st.layer_keys.fn.count

  unfoldable pub consume : ℕ → State → State
  consume key st = record st { shortcut_consumed_keys = set st.shortcut_consumed_keys key true }

  -- The action of a shortcut. `kb_settings_apply` gives 0 for settings that are not NULL.
  unfoldable pub run_shortcut : List ScriptSlot → FnShortcut → State → State
  unfolding emit
  run_shortcut slots shortcut st =
      let (acted, settings) = execute_fn_action fl slots shortcut st.settings in
      if acted
      then record (emit (settings_applied settings) st) {
        settings = settings;
        active_mode = settings.mode;
      }
      else record st { settings = settings }

  -- The first of the shortcuts in use whose key is `resolved_hid`.
  unfoldable pub run_shortcuts : List ScriptSlot → ℕ → List FnShortcut → State → State
  run_shortcuts slots resolved_hid [] st = st
  run_shortcuts slots resolved_hid (shortcut ∷ shortcuts) st =
      let rest = run_shortcuts slots resolved_hid shortcuts st in
      if shortcut.key == resolved_hid then run_shortcut slots shortcut st else rest

  -- Whether the key is taken, and the state.
  unfoldable pub maybe_handle_fn_shortcut : List ScriptSlot → ℕ → Bool → ℕ → State → Bool × State
  maybe_handle_fn_shortcut slots key status resolved_hid st =
      let fn_active = is_any_fn_pressed st key in
      if get_or st.shortcut_consumed_keys key false
      then (
        true,
        if not status
            then record st { shortcut_consumed_keys = set st.shortcut_consumed_keys key false }
            else st,
      )
      else if not status || resolved_hid == key_fn || not fn_active
      then (false, st)
      else (
        true,
        consume key (
            run_shortcuts slots resolved_hid
              (take st.settings.fn_shortcuts_count st.settings.fn_shortcuts) st),
      )

  -- The layer keys, the FN keys and the report, when no shortcut took the key.
  unfoldable pub apply_transition : Build → ℕ → Bool → State → State
  apply_transition b key status st =
      let layer1 = st.layer_keys.layer1 in
      let layer2 = st.layer_keys.layer2 in
      let fn = st.layer_keys.fn in
      if is_race st.active_mode
      then st
      else if key_in_list key layer1.keys layer1.count
      then (let (changed, is_active) =
            handle_layer_key key status st.pressed_keys st.second_layer_active layer1 in
          if changed
          then send_kb_report_if_changed b (record st { second_layer_active = is_active })
          else st)
      else if key_in_list key layer2.keys layer2.count
      then (let (changed, is_active) =
            handle_layer_key key status st.pressed_keys st.third_layer_active layer2 in
          if changed
          then send_kb_report_if_changed b (record st { third_layer_active = is_active })
          else st)
      else if key_in_list key fn.keys fn.count
      then st
      else send_kb_report_if_changed b st

  unfoldable pub note_transition : ℕ → Bool → State → State
  unfolding emit
  note_transition key status st = emit (transition_notified key status) (
      emit (transition_counted status)
        (record st { pressed_keys = set st.pressed_keys key status }))

  unfoldable pub process_key_transition : Build → List ScriptSlot → ℕ → Bool → State → State
  process_key_transition b slots key status st =
      if leb b.total_key_count key
      then st
      else (let noted = note_transition key status st in
          let resolved_hid =
            resolve_hid fl noted.settings key noted.second_layer_active noted.third_layer_active in
          let (taken, after) = maybe_handle_fn_shortcut slots key status resolved_hid noted in
          if taken then after else apply_transition b key status after)

  unfoldable pub notify_value_if_changed : Build → ℕ → ℕ → State → State
  unfolding emit
  notify_value_if_changed b key press_percent st =
      if leb b.total_key_count key || get_or st.notified_press_percent key 0 == press_percent
      then st
      else emit (value_notified key press_percent)
          (record st { notified_press_percent = set st.notified_press_percent key press_percent })

  unfoldable pub store_value : ℕ → ℕ → State → State
  store_value key value st = record st {
    current_values = set st.current_values key value;
    values = set st.values key value;
  }

  -- Whether the key went up or down, and the state.
  unfoldable pub process_key_value : Build → List ScriptSlot → ℕ → ℕ → State → Bool × State
  process_key_value b slots key value st =
      if leb b.total_key_count key
      then (false, st)
      else (let was_pressed = get_or st.pressed_keys key false in
          let is_pressed = leb (get_or st.settings.thresholds key 0) value in
          let percent = key_press_percent fl b.total_key_count st.settings key value in
          let noted = notify_value_if_changed b key percent (store_value key value st) in
          if same_bool was_pressed is_pressed
          then (false, noted)
          else (true, process_key_transition b slots key is_pressed noted))

  -- A frame of values from the key `key` on.
  unfoldable pub process_values : Build → List ScriptSlot → ℕ → List ℕ → State → State
  process_values b slots key [] st = st
  process_values b slots key (value ∷ frame) st =
      process_values b slots (key + 1) frame (process_key_value b slots key value st).1
