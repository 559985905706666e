-- ===== src/Battery/Tests.antt =====
-- A battery that falls from 20 to 4 percent, with a critical threshold of 5.
use ykb_firmware.Base.{◌≡◌, refl, true, false, none, some, [], ◌∷◌, arith}
use ykb_firmware.Battery.{Answers, Batt, thread_run, thread_step, get_state, on_settings_update}
use ykb_firmware.Battery.Thread.{
  IsSteady, shutdowns, thread_run-IsSteady, IsCritical, get_state_stuck,
}

abbrev fallen : Answers
fallen = record { failed = false; status = some 2; charge = some 4 }

abbrev gauge_error : Answers
gauge_error = record { failed = false; status = some 2; charge = none }

abbrev thread : Batt
thread = record {
  state = record { percentage = 20; charge_status = 2 };
  settings = record { thread_sleep_ms = 1000; low_threshold = 15 };
  locked = false;
  running = true;
  events = [];
}

thread-IsSteady : IsSteady thread
unfolding shutdowns
thread-IsSteady = record { free = λ e. refl; once = refl }

thread_run-IsSteady_example : IsSteady (thread_run 5 (gauge_error ∷ fallen ∷ fallen ∷ []) thread)
thread_run-IsSteady_example =
    thread_run-IsSteady 5 (gauge_error ∷ fallen ∷ fallen ∷ []) thread thread-IsSteady

fallen-IsCritical : IsCritical 5 fallen thread 4
fallen-IsCritical = record {
  healthy = refl;
  status = λ e. cc;
  read = refl;
  drop = omega arith;
  reached = omega arith;
}

get_state_stuck_example :
    ((thread_step 5 fallen thread).running ≡ false)
    × ((thread_step 5 fallen thread).locked ≡ true)
    × (thread_run 5 (fallen ∷ gauge_error ∷ []) (thread_step 5 fallen thread)
        ≡ thread_step 5 fallen thread)
    × (get_state (thread_run 5 (fallen ∷ gauge_error ∷ []) (thread_step 5 fallen thread)) ≡ none)
    × (on_settings_update thread.settings
          (thread_run 5 (fallen ∷ gauge_error ∷ []) (thread_step 5 fallen thread))
        ≡ none)
get_state_stuck_example =
    get_state_stuck 5 fallen (fallen ∷ gauge_error ∷ []) thread 4 thread.settings refl refl
      fallen-IsCritical
