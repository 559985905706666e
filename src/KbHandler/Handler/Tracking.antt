-- ===== src/KbHandler/Handler/Tracking.antt =====
-- The keys that the handler takes to be down are those at or above their thresholds.
use ykb_firmware.Base.{
  ℕ, ◌<◌, Bool, true, false, not, ◌||◌, List, [], ◌∷◌, leb, ◌==◌, if◌then◌else◌, get_or, set, take,
  ◌≡◌, refl, sym, ◌∙◌, arith, Bool-cases, inl, inr,
}
use ykb_firmware.Settings.{Settings, FnShortcut, FnAction, no_action}
use ykb_firmware.Settings.Arithmetic.{Floats}
use ykb_firmware.KbHandler.Report.{build_kb_report, key_in_list, key_fn}
use ykb_firmware.KbHandler.Actions.{ScriptSlot, execute_fn_action, with_backlight}
use ykb_firmware.KbHandler.Handler.{
  Build, State, send_kb_report_if_changed, emit, consume, run_shortcut, run_shortcuts,
  maybe_handle_fn_shortcut, apply_transition, note_transition, process_key_transition,
  notify_value_if_changed, is_race, is_any_fn_pressed, reports_equal,
}

module _ (fl : Floats) where
  -- The two states agree on what says which keys are down.
  pub record Agree (a b : State fl) : Type 0 where
    pub same_pressed : a.pressed_keys ≡ b.pressed_keys
    pub same_current : a.current_values ≡ b.current_values
    pub same_thresholds : a.settings.thresholds ≡ b.settings.thresholds

  Agree-refl : (a : State fl) → Agree a a
  Agree-refl a = record { same_pressed = refl; same_current = refl; same_thresholds = refl }

  pub Agree-trans : {a b c : State fl} → Agree a b → Agree b c → Agree a c
  Agree-trans p q = record {
    same_pressed = p.same_pressed ∙ q.same_pressed;
    same_current = p.same_current ∙ q.same_current;
    same_thresholds = p.same_thresholds ∙ q.same_thresholds;
  }

  pub send-Agree : (b : Build) (st : State fl) → Agree st (send_kb_report_if_changed fl b st)
  unfolding send_kb_report_if_changed emit
  send-Agree b st =
      elim (Bool-cases (
        reports_equal
          (build_kb_report fl b.rollover st.settings st.pressed_keys b.total_key_count
            st.second_layer_active st.third_layer_active)
          st.prev_kb_report)) [
            | inl e ↦
                simp e (record { same_pressed = refl; same_current = refl; same_thresholds = refl })
            | inr e ↦
                simp e (record { same_pressed = refl; same_current = refl; same_thresholds = refl })
          ]

  execute-thresholds :
      (slots : List ScriptSlot) (shortcut : FnShortcut) (settings : Settings fl)
      → (execute_fn_action fl slots shortcut settings).1.thresholds ≡ settings.thresholds
  unfolding execute_fn_action with_backlight
  execute-thresholds slots shortcut settings = by_action shortcut.action
    where
      by_action :
          (a : FnAction)
          → (execute_fn_action fl slots (record shortcut { action = a }) settings).1.thresholds
            ≡ settings.thresholds
      by_action no_action = refl
      by_action _ = refl

  run_shortcut-Agree :
      (slots : List ScriptSlot) (shortcut : FnShortcut) (st : State fl)
      → Agree st (run_shortcut fl slots shortcut st)
  unfolding run_shortcut emit
  run_shortcut-Agree slots shortcut st =
      let kept = sym (execute-thresholds slots shortcut st.settings) in
      elim (Bool-cases (execute_fn_action fl slots shortcut st.settings).0) [
        | inl e ↦
            simp e (record { same_pressed = refl; same_current = refl; same_thresholds = kept })
        | inr e ↦
            simp e (record { same_pressed = refl; same_current = refl; same_thresholds = kept })
      ]

  run_shortcuts-Agree :
      (slots : List ScriptSlot) (hid : ℕ) (shortcuts : List FnShortcut) (st : State fl)
      → Agree st (run_shortcuts fl slots hid shortcuts st)
  unfolding run_shortcuts
  run_shortcuts-Agree slots hid [] st = Agree-refl st
  run_shortcuts-Agree slots hid (shortcut ∷ shortcuts) st =
      elim (Bool-cases (shortcut.key == hid)) [
        | inl e ↦ simp e (run_shortcut-Agree slots shortcut st)
        | inr e ↦ simp e (run_shortcuts-Agree slots hid shortcuts st)
      ]

  maybe_handle_fn_shortcut-Agree :
      (slots : List ScriptSlot) (key : ℕ) (status : Bool) (hid : ℕ) (st : State fl)
      → Agree st (maybe_handle_fn_shortcut fl slots key status hid st).1
  unfolding maybe_handle_fn_shortcut consume
  maybe_handle_fn_shortcut-Agree slots key status hid st =
      elim (Bool-cases (get_or st.shortcut_consumed_keys key false)) [
        | inl e ↦ simp e (released status)
        | inr e ↦
            simp e
              (elim (Bool-cases
                (not status || hid == key_fn || not (is_any_fn_pressed fl st key))) [
                  | inl e' ↦ simp e' (Agree-refl st)
                  | inr e' ↦ simp e' (
                      consumed (
                        run_shortcuts-Agree slots hid
                          (take st.settings.fn_shortcuts_count st.settings.fn_shortcuts) st))
                ])
      ]
    where
      released :
          (status : Bool)
          → Agree st (
              if not status
              then record st { shortcut_consumed_keys = set st.shortcut_consumed_keys key false }
              else st)
      released true = Agree-refl st
      released false = record { same_pressed = refl; same_current = refl; same_thresholds = refl }

      consumed : {a : State fl} → Agree st a → Agree st (consume fl key a)
      consumed p = record {
        same_pressed = p.same_pressed;
        same_current = p.same_current;
        same_thresholds = p.same_thresholds;
      }

  layer_change-Agree :
      (b : Build) (st changed : State fl) (r : Bool)
      → Agree st changed
      → Agree st (if r then send_kb_report_if_changed fl b changed else st)
  layer_change-Agree b st changed true p = Agree-trans p (send-Agree b changed)
  layer_change-Agree b st changed false p = Agree-refl st

  apply_transition-Agree :
      (b : Build) (key : ℕ) (status : Bool) (st : State fl)
      → Agree st (apply_transition fl b key status st)
  unfolding apply_transition
  apply_transition-Agree b key status st = elim (Bool-cases (is_race st.active_mode)) [
    | inl e ↦ simp e (Agree-refl st)
    | inr e ↦
        simp e
          (elim (Bool-cases
            (key_in_list key st.layer_keys.layer1.keys st.layer_keys.layer1.count)) [
              | inl l ↦ simp l (
                  layer_change-Agree b st _ _
                    (record { same_pressed = refl; same_current = refl; same_thresholds = refl }))
              | inr l ↦
                  simp l
                    (elim (Bool-cases
                      (key_in_list key st.layer_keys.layer2.keys st.layer_keys.layer2.count)) [
                        | inl m ↦ simp m (
                            layer_change-Agree b st _ _ (record {
                              same_pressed = refl;
                              same_current = refl;
                              same_thresholds = refl;
                            }))
                        | inr m ↦
                            simp m
                              (elim (Bool-cases
                                (key_in_list key st.layer_keys.fn.keys st.layer_keys.fn.count)) [
                                  | inl f ↦ simp f (Agree-refl st)
                                  | inr f ↦ simp f (send-Agree b st)
                                ])
                      ])
            ])
  ]

  taken-Agree :
      (b : Build) (key : ℕ) (status : Bool) (st after : State fl) (taken : Bool)
      → Agree st after
      → Agree st (if taken then after else apply_transition fl b key status after)
  taken-Agree b key status st after true p = p
  taken-Agree b key status st after false p =
      Agree-trans p (apply_transition-Agree b key status after)

  -- The transition of a key in range sets its flag, and no other.
  pub process_key_transition-Agree :
      (b : Build) (slots : List ScriptSlot) (key : ℕ) (status : Bool) (st : State fl)
      → key < b.total_key_count
      → Agree (note_transition fl key status st) (process_key_transition fl b slots key status st)
  unfolding process_key_transition
  process_key_transition-Agree b slots key status st h = simp (lt_leb _ _ h) (
      taken-Agree b key status (note_transition fl key status st) _ _
        (maybe_handle_fn_shortcut-Agree slots key status _ (note_transition fl key status st)))
    where
      lt_leb : (a c : ℕ) → a < c → leb c a ≡ false
      lt_leb a c h = ground arith

  pub notify-Agree :
      (b : Build) (key percent : ℕ) (st : State fl)
      → Agree st (notify_value_if_changed fl b key percent st)
  unfolding notify_value_if_changed emit
  notify-Agree b key percent st =
      elim (Bool-cases
        (leb b.total_key_count key || get_or st.notified_press_percent key 0 == percent)) [
          | inl e ↦ simp e (Agree-refl st)
          | inr e ↦
              simp e (record { same_pressed = refl; same_current = refl; same_thresholds = refl })
        ]
