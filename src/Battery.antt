-- ===== src/Battery.antt =====
-- The battery thread: subsys/ykb_battsense/src/ykb_battsense.c, built with
-- CONFIG_YKB_BATTSENSE_SHUTOFF_ON_CHARGER_FAILURE. The answers of the charger and of the fuel gauge are
-- inputs of each round; the calls that leave the thread are events, the last one first.
pub mod Thread
mod Tests
use ykb_firmware.Base.{
  ℕ, ◌≤◌, min, Bool, true, false, not, ◌&&◌, ◌||◌, Option, none, some, List, [], ◌∷◌, ltb, leb,
  ◌==◌, if◌then◌else◌,
}

-- `ykb_battsense_state_t`; the status is the charger's number for it.
pub record BattState : Type 0 where
  pub percentage : ℕ
  pub charge_status : ℕ

pub record BattSettings : Type 0 where
  pub thread_sleep_ms : ℕ
  pub low_threshold : ℕ

-- The answers of one round: whether the charger reports the failure, its status and the charge of the
-- battery, `none` for an error.
pub record Answers : Type 0 where
  pub failed : Bool
  pub status : Option ℕ
  pub charge : Option ℕ

pub data BattEvent : Type 0 where
  shutdown_scheduled : BattEvent
  critical low changed : BattState → BattEvent
  slept : ℕ → BattEvent

-- Whether the thread runs, who holds battsense_mut, and what the thread has done.
pub record Batt : Type 0 where
  pub state : BattState
  pub settings : BattSettings
  pub locked : Bool
  pub running : Bool
  pub events : List BattEvent

unfoldable pub emit_batt : BattEvent → Batt → Batt
emit_batt e b = record b { events = e ∷ b.events }

unfoldable pub unlock : Batt → Batt
unlock b = record b { locked = false }

unfoldable pub stop : Batt → Batt
stop b = record b { running = false }

-- The state that the answers give.
unfoldable pub read_state : ℕ → ℕ → BattState
read_state status charge = record { percentage = min charge 100; charge_status = status }

-- The end of a round that goes on: the mutex is freed, and the thread sleeps.
unfoldable pub end_round : Batt → Batt
end_round b = emit_batt (slept b.settings.thread_sleep_ms) (unlock b)

-- The new state, which is in `b`, compared with the old; `crit` is CONFIG_YKB_BATTSENSE_CRIT_THRESHOLD.
unfoldable pub announce : ℕ → BattState → Batt → Batt
announce crit old b =
    if ltb b.state.percentage old.percentage && leb b.state.percentage crit
    then stop (emit_batt shutdown_scheduled (emit_batt (critical b.state) b))
    else if ltb b.state.percentage old.percentage && leb b.state.percentage b.settings.low_threshold
    then end_round (emit_batt (low b.state) b)
    else if not (old.percentage == b.state.percentage)
        || not (old.charge_status == b.state.charge_status)
    then end_round (emit_batt (changed b.state) b)
    else end_round b

-- One round of battsense_thread_handler once it holds the mutex.
unfoldable pub thread_round : ℕ → Answers → Batt → Batt
thread_round crit answers b =
    if answers.failed then stop (emit_batt shutdown_scheduled (unlock b)) else elim answers.status [
      | none ↦ unlock b
      | some status ↦ elim answers.charge [
        | none ↦ unlock b
        | some charge ↦ announce crit b.state (record b { state = read_state status charge })
      ]
    ]

-- A round of the thread, which waits for the mutex as long as another holds it.
unfoldable pub thread_step : ℕ → Answers → Batt → Batt
thread_step crit answers b =
    let stepped = thread_round crit answers (record b { locked = true }) in
    if b.running && not b.locked then stepped else b

unfoldable pub thread_run : ℕ → List Answers → Batt → Batt
thread_run crit [] b = b
thread_run crit (a ∷ rest) b = thread_run crit rest (thread_step crit a b)

-- ykb_battsense_get_state for an address that is not NULL: `none` while the mutex is not free.
unfoldable pub get_state : Batt → Option BattState
get_state b = if b.locked then none else some b.state

-- on_settings_update, likewise.
unfoldable pub on_settings_update : BattSettings → Batt → Option Batt
on_settings_update settings b = if b.locked then none else some (record b { settings = settings })

-- ykb_battsense_init with the two devices' readiness and the answer of charger_charge_enable, where
-- `true` stands for success and for -ENOTSUP: whether it succeeds, and the thread.
unfoldable pub battsense_init : Bool → Bool → Bool → Batt → Bool × Batt
battsense_init charger_ready gauge_ready enabled b =
    if not charger_ready
    then (false, b)
    else if not gauge_ready
    then (false, b)
    else if not enabled
    then (false, b)
    else (true, record b { running = true })
