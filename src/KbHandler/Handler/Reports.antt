-- ===== src/KbHandler/Handler/Reports.antt =====
-- What the handler handed to the transport last; the transport drops a report where no link is ready.
use ykb_firmware.Base.{
  ℕ, Bool, true, false, not, ◌||◌, List, [], ◌∷◌, ◌==◌, leb, if◌then◌else◌, get_or, set, take,
  Option, none, some, ◌≡◌, refl, sym, ap, ◌∙◌, arith, Bool-cases, inl, inr,
}
use ykb_firmware.Settings.{FnShortcut}
use ykb_firmware.Settings.Arithmetic.{Floats}
use ykb_firmware.KbHandler.Report.{KbReport, build_kb_report, key_in_list, key_fn}
use ykb_firmware.KbHandler.Calibration.{key_press_percent}
use ykb_firmware.KbHandler.Actions.{ScriptSlot, execute_fn_action}
use ykb_firmware.KbHandler.Handler.{
  Build, State, Event, kb_report_sent, reports_equal, keys_equal, send_kb_report_if_changed, emit,
  consume, run_shortcut, run_shortcuts, maybe_handle_fn_shortcut, apply_transition, note_transition,
  process_key_transition, notify_value_if_changed, store_value, process_key_value, is_race,
  is_any_fn_pressed, same_bool,
}

keys_equal-true : (xs ys : List ℕ) → keys_equal xs ys ≡ true → xs ≡ ys
unfolding keys_equal
keys_equal-true [] [] h = refl
keys_equal-true [] (y ∷ ys) h = ground arith
keys_equal-true (x ∷ xs) [] h = ground arith
keys_equal-true (x ∷ xs) (y ∷ ys) h = ground (arith, keys_equal-true xs ys)

reports_equal-true : (a b : KbReport) → reports_equal a b ≡ true → a ≡ b
unfolding reports_equal
reports_equal-true a b h = ground (arith, keys_equal-true a.keys b.keys)

module _ (fl : Floats) where
  -- The report of the last call of kb_handler_transport_send_kb_report.
  unfoldable pub last_handed : List (Event fl) → Option KbReport
  last_handed [] = none
  last_handed (kb_report_sent report prio ∷ events) = some report
  last_handed (_ ∷ events) = last_handed events

  -- The handler's copy of the last report is the last one that it handed to the transport.
  abbrev pub InSync : State fl → Type 0
  InSync st = last_handed st.events ≡ some st.prev_kb_report

  -- The report that the state stands for.
  abbrev pub report_of : Build → State fl → KbReport
  report_of b st =
      build_kb_report fl b.rollover st.settings st.pressed_keys b.total_key_count
        st.second_layer_active st.third_layer_active

  -- Where the handler's copy is the report handed to the transport last, so it is after sending, and that
  -- report, handed over now or before, is the one that the state stands for.
  pub send_kb_report_if_changed-report_of :
      (b : Build) (st : State fl)
      → InSync st
      → (last_handed (send_kb_report_if_changed fl b st).events ≡ some (report_of b st))
        × ((send_kb_report_if_changed fl b st).prev_kb_report ≡ report_of b st)
  unfolding send_kb_report_if_changed emit last_handed
  send_kb_report_if_changed-report_of b st h =
      elim (Bool-cases (reports_equal (report_of b st) st.prev_kb_report)) [
        | inl e ↦ let same = reports_equal-true _ _ e in simp e (h ∙ ap some (sym same), sym same)
        | inr e ↦ simp e (refl, refl)
      ]

  send-InSync : (b : Build) (st : State fl) → InSync st → InSync (send_kb_report_if_changed fl b st)
  send-InSync b st h =
      let (sent, copied) = send_kb_report_if_changed-report_of b st h in sent ∙ ap some (sym copied)

  run_shortcut-InSync :
      (slots : List ScriptSlot) (shortcut : FnShortcut) (st : State fl)
      → InSync st
      → InSync (run_shortcut fl slots shortcut st)
  unfolding run_shortcut emit last_handed
  run_shortcut-InSync slots shortcut st h =
      elim (Bool-cases (execute_fn_action fl slots shortcut st.settings).0) [
        | inl e ↦ simp e h
        | inr e ↦ simp e h
      ]

  run_shortcuts-InSync :
      (slots : List ScriptSlot) (hid : ℕ) (shortcuts : List FnShortcut) (st : State fl)
      → InSync st
      → InSync (run_shortcuts fl slots hid shortcuts st)
  unfolding run_shortcuts
  run_shortcuts-InSync slots hid [] st h = h
  run_shortcuts-InSync slots hid (shortcut ∷ shortcuts) st h =
      elim (Bool-cases (shortcut.key == hid)) [
        | inl e ↦ simp e (run_shortcut-InSync slots shortcut st h)
        | inr e ↦ simp e (run_shortcuts-InSync slots hid shortcuts st h)
      ]

  maybe_handle_fn_shortcut-InSync :
      (slots : List ScriptSlot) (key : ℕ) (status : Bool) (hid : ℕ) (st : State fl)
      → InSync st
      → InSync (maybe_handle_fn_shortcut fl slots key status hid st).1
  unfolding maybe_handle_fn_shortcut consume
  maybe_handle_fn_shortcut-InSync slots key status hid st h =
      elim (Bool-cases (get_or st.shortcut_consumed_keys key false)) [
        | inl e ↦ simp e (released status)
        | inr e ↦
            simp e
              (elim (Bool-cases
                (not status || hid == key_fn || not (is_any_fn_pressed fl st key))) [
                  | inl e' ↦ simp e' h
                  | inr e' ↦ simp e' (
                      run_shortcuts-InSync slots hid
                        (take st.settings.fn_shortcuts_count st.settings.fn_shortcuts) st h)
                ])
      ]
    where
      released :
          (status : Bool)
          → InSync (
              if not status
              then record st { shortcut_consumed_keys = set st.shortcut_consumed_keys key false }
              else st)
      released true = h
      released false = h

  layer_change-InSync :
      (b : Build) (st changed : State fl) (r : Bool)
      → InSync st
      → InSync changed
      → InSync (if r then send_kb_report_if_changed fl b changed else st)
  layer_change-InSync b st changed true h k = send-InSync b changed k
  layer_change-InSync b st changed false h k = h

  apply_transition-InSync :
      (b : Build) (key : ℕ) (status : Bool) (st : State fl)
      → InSync st
      → InSync (apply_transition fl b key status st)
  unfolding apply_transition
  apply_transition-InSync b key status st h = elim (Bool-cases (is_race st.active_mode)) [
    | inl e ↦ simp e h
    | inr e ↦
        simp e
          (elim (Bool-cases
            (key_in_list key st.layer_keys.layer1.keys st.layer_keys.layer1.count)) [
              | inl l ↦ simp l (layer_change-InSync b st _ _ h h)
              | inr l ↦
                  simp l
                    (elim (Bool-cases
                      (key_in_list key st.layer_keys.layer2.keys st.layer_keys.layer2.count)) [
                        | inl m ↦ simp m (layer_change-InSync b st _ _ h h)
                        | inr m ↦
                            simp m
                              (elim (Bool-cases
                                (key_in_list key st.layer_keys.fn.keys st.layer_keys.fn.count)) [
                                  | inl f ↦ simp f h
                                  | inr f ↦ simp f (send-InSync b st h)
                                ])
                      ])
            ])
  ]

  taken-InSync :
      (b : Build) (key : ℕ) (status : Bool) (after : State fl) (taken : Bool)
      → InSync after
      → InSync (if taken then after else apply_transition fl b key status after)
  taken-InSync b key status after true h = h
  taken-InSync b key status after false h = apply_transition-InSync b key status after h

  process_key_transition-InSync :
      (b : Build) (slots : List ScriptSlot) (key : ℕ) (status : Bool) (st : State fl)
      → InSync st
      → InSync (process_key_transition fl b slots key status st)
  unfolding process_key_transition note_transition emit last_handed
  process_key_transition-InSync b slots key status st h =
      elim (Bool-cases (leb b.total_key_count key)) [
        | inl e ↦ simp e h
        | inr e ↦
            simp e (
              taken-InSync b key status _ _
                (maybe_handle_fn_shortcut-InSync slots key status _ _ h))
      ]

  notify-InSync :
      (b : Build) (key percent : ℕ) (st : State fl)
      → InSync st
      → InSync (notify_value_if_changed fl b key percent st)
  unfolding notify_value_if_changed emit last_handed
  notify-InSync b key percent st h =
      elim (Bool-cases
        (leb b.total_key_count key || get_or st.notified_press_percent key 0 == percent)) [
          | inl e ↦ simp e h
          | inr e ↦ simp e h
        ]

  -- The handler's copy of the last report stays the last report that was sent, whatever values come in.
  pub process_key_value-InSync :
      (b : Build) (slots : List ScriptSlot) (key value : ℕ) (st : State fl)
      → InSync st
      → InSync (process_key_value fl b slots key value st).1
  unfolding process_key_value store_value
  process_key_value-InSync b slots key value st h =
      let is_down = leb (get_or st.settings.thresholds key 0) value in
      let percent = key_press_percent fl b.total_key_count st.settings key value in
      let noted = notify-InSync b key percent (store_value fl key value st) h in
      elim (Bool-cases (leb b.total_key_count key)) [
        | inl e ↦ simp e h
        | inr e ↦ simp e (elim (Bool-cases (same_bool (get_or st.pressed_keys key false) is_down)) [
          | inl e' ↦ simp e' noted
          | inr e' ↦ simp e' (process_key_transition-InSync b slots key is_down _ noted)
        ])
      ]
