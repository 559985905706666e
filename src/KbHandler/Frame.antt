-- ===== src/KbHandler/Frame.antt =====
-- Whole frames of kb_handler_core.c: the values of one scan, then the reports of the mouse and of
-- the race mode; the reset; and the values that other subsystems read.
use ykb_firmware.Base.{
  ℕ, ◌+◌, false, List, [], ◌∷◌, ltb, ◌==◌, if◌then◌else◌, replicate, take, Option, none, some, refl,
  Bool-cases, inl, inr,
}
use ykb_firmware.Base.Int.{pos}
use ykb_firmware.Settings.{TransportPrio}
use ykb_firmware.Settings.Arithmetic.{Floats}
use ykb_firmware.KbHandler.Report.{KbReport, build_kb_report}
use ykb_firmware.KbHandler.Actions.{ScriptSlot}
use ykb_firmware.KbHandler.Handler.{
  Build, State, emit, kb_report_sent, kb_report_counted, process_values, is_race, reports_equal,
}
use ykb_firmware.KbHandler.Handler.Reports.{InSync, last_handed, process_key_value-InSync}
use ykb_firmware.KbHandler.Mouse.{MouseReport, MouseState, send_mouse_report_if_changed}
use ykb_firmware.KbHandler.Race.{race_key, race_pressed_keys, send_race_report_if_changed}
use ykb_firmware.KbHandler.Report.{is_mousesim}

module _ (fl : Floats) where
  -- The two parts of the state, and the mouse reports sent, the last one first.
  pub record Handler : Type 0 where
    pub keys : State fl
    pub mouse : MouseState fl
    pub mouse_reports : List (MouseReport × TransportPrio)

  unfoldable pub note_mouse : Option MouseReport × MouseState fl → Handler → Handler
  note_mouse (none, mouse) h = record h { mouse = mouse }
  note_mouse (some report, mouse) h = record h {
    mouse = mouse;
    mouse_reports = (report, h.keys.settings.kbh_prio) ∷ h.mouse_reports;
  }

  unfoldable pub finish_value_frame : Build → ℕ → Handler → Handler
  finish_value_frame b now_ms h =
      if is_mousesim h.keys.active_mode
      then note_mouse
          (send_mouse_report_if_changed fl h.keys.settings h.keys.current_values h.keys.pressed_keys
            now_ms h.mouse)
          h
      else if is_race h.keys.active_mode
      then record h { keys = send_race_report_if_changed fl b h.keys }
      else h

  -- A scan of this half's keys, which begin at `offset`; no hook is registered in this build.
  unfoldable pub process_local_scan_frame :
      Build → List ScriptSlot → ℕ → List ℕ → ℕ → Handler → Handler
  process_local_scan_frame b slots offset local_scan_values now_ms h =
      finish_value_frame b now_ms
        (record h { keys = process_values fl b slots offset local_scan_values h.keys })

  abbrev pub blank_report : KbReport
  blank_report = record { mods = 0; reserved = 0; keys = replicate 6 0 }

  abbrev pub blank_mouse_report : MouseReport
  blank_mouse_report = record { buttons = 0; x = pos 0; y = pos 0; wheel = pos 0 }

  unfoldable pub reset_keys : Build → State fl → State fl
  unfolding emit
  reset_keys b st =
      let cleared = record st {
        pressed_keys = replicate b.total_key_count false;
        current_values = replicate b.total_key_count 0;
        notified_press_percent = replicate b.total_key_count 0;
        values = replicate b.total_key_count 0;
        second_layer_active = false;
        third_layer_active = false;
        kb_report = blank_report;
        prev_kb_report = blank_report;
      } in
      emit fl kb_report_counted (emit fl (kb_report_sent blank_report st.settings.kbh_prio) cleared)

  unfoldable pub reset_handler_state : Build → Handler → Handler
  reset_handler_state b h = record {
    keys = reset_keys b h.keys;
    mouse = record {
      mouse_report = blank_mouse_report;
      prev_mouse_report = blank_mouse_report;
      last_mouse_report_ms = 0;
      mouse_wheel_remainder = fl.double (pos 0);
    };
    mouse_reports = (blank_mouse_report, h.keys.settings.kbh_prio) ∷ h.mouse_reports;
  }

  -- `kb_handler_core_get_values`: what is copied out.
  unfoldable pub get_values : Build → State fl → ℕ → List ℕ
  get_values b st count =
      if count == 0
      then []
      else take (if ltb b.total_key_count count then b.total_key_count else count) st.values

  -- Rounds of the thread's loop whose scan succeeds, each a frame with the uptime at its end.
  unfoldable pub scan_frames : Build → List ScriptSlot → ℕ → List (List ℕ × ℕ) → Handler → Handler
  scan_frames b slots offset [] h = h
  scan_frames b slots offset ((frame, now_ms) ∷ frames) h =
      scan_frames b slots offset frames (process_local_scan_frame b slots offset frame now_ms h)

  send_race-InSync :
      (b : Build) (st : State fl) → InSync fl st → InSync fl (send_race_report_if_changed fl b st)
  unfolding send_race_report_if_changed emit last_handed
  send_race-InSync b st h =
      let report =
        build_kb_report fl b.rollover st.settings (race_pressed_keys fl b (race_key fl b st))
          b.total_key_count st.second_layer_active st.third_layer_active in
      elim (Bool-cases (reports_equal report st.prev_kb_report)) [
        | inl e ↦ simp e h
        | inr e ↦ simp e refl
      ]

  values-InSync :
      (b : Build) (slots : List ScriptSlot) (key : ℕ) (frame : List ℕ) (st : State fl)
      → InSync fl st
      → InSync fl (process_values fl b slots key frame st)
  unfolding process_values
  values-InSync b slots key [] st h = h
  values-InSync b slots key (value ∷ frame) st h =
      values-InSync b slots (key + 1) frame _ (process_key_value-InSync fl b slots key value st h)

  finish-InSync :
      (b : Build) (now_ms : ℕ) (h : Handler)
      → InSync fl h.keys
      → InSync fl (finish_value_frame b now_ms h).keys
  unfolding finish_value_frame note_mouse
  finish-InSync b now_ms h s = elim (Bool-cases (is_mousesim h.keys.active_mode)) [
    | inl m ↦ simp m (noted _)
    | inr m ↦ elim (Bool-cases (is_race h.keys.active_mode)) [
      | inl r ↦ simp (m, r) (send_race-InSync b h.keys s)
      | inr r ↦ simp (m, r) s
    ]
  ]
    where
      noted : (sent : Option MouseReport × MouseState fl) → InSync fl (note_mouse sent h).keys
      noted (none, mouse) = s
      noted (some report, mouse) = s

  reset-InSync : (b : Build) (h : Handler) → InSync fl (reset_handler_state b h).keys
  unfolding reset_handler_state reset_keys emit last_handed
  reset-InSync b h = refl

  frames-InSync :
      (b : Build) (slots : List ScriptSlot) (offset : ℕ) (frames : List (List ℕ × ℕ)) (h : Handler)
      → InSync fl h.keys
      → InSync fl (scan_frames b slots offset frames h).keys
  unfolding scan_frames process_local_scan_frame
  frames-InSync b slots offset [] h s = s
  frames-InSync b slots offset ((frame, now_ms) ∷ frames) h s =
      frames-InSync b slots offset frames _ (
        finish-InSync b now_ms (record h { keys = process_values fl b slots offset frame h.keys })
          (values-InSync b slots offset frame h.keys s))

  -- A reset and then any frames of values, in any mode, keep the handler's copy of the last keyboard report equal to the last one that was sent.
  pub scan_frames-reset_handler_state :
      (b : Build) (slots : List ScriptSlot) (offset : ℕ) (frames : List (List ℕ × ℕ)) (h : Handler)
      → InSync fl (scan_frames b slots offset frames (reset_handler_state b h)).keys
  scan_frames-reset_handler_state b slots offset frames h =
      frames-InSync b slots offset frames (reset_handler_state b h) (reset-InSync b h)
