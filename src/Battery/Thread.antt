-- ===== src/Battery/Thread.antt =====
-- What the rounds of the battery thread keep, and when they stop.
use ykb_firmware.Base.{
  ℕ, suc, lt→ltb, le→leb, ◌≤◌, ◌<◌, min, ◌≡◌, refl, ap, ◌∙◌, ◌≢◌, true, false, none, some, List, [],
  ◌∷◌, if◌then◌else◌, arith, inl, inr, Bool-cases, Option-cases,
}
use ykb_firmware.Battery.{
  BattState, Answers, BattEvent, shutdown_scheduled, critical, low, changed, slept, Batt, emit_batt,
  unlock, stop, read_state, end_round, announce, thread_round, thread_step, thread_run, get_state,
  BattSettings, on_settings_update,
}

-- The shutdowns among the events.
unfoldable pub shutdowns : List BattEvent → ℕ
shutdowns [] = 0
shutdowns (shutdown_scheduled ∷ es) = suc (shutdowns es)
shutdowns (critical s ∷ es) = shutdowns es
shutdowns (low s ∷ es) = shutdowns es
shutdowns (changed s ∷ es) = shutdowns es
shutdowns (slept n ∷ es) = shutdowns es

-- A thread that runs leaves the mutex free between its rounds and has scheduled no shutdown; one that
-- has stopped has scheduled one.
pub record IsSteady (b : Batt) : Type 0 where
  pub free : b.running ≡ true → b.locked ≡ false
  pub once : shutdowns b.events ≡ (if b.running then 0 else 1)

announce-IsSteady :
    (crit : ℕ) (old : BattState) (b : Batt)
    → b.running ≡ true
    → shutdowns b.events ≡ 0
    → IsSteady (announce crit old b)
unfolding announce end_round emit_batt unlock stop shutdowns
announce-IsSteady crit old b on none_yet = record {
  free = λ e. ground arith;
  once = ground (arith, on, none_yet);
}

thread_round-IsSteady :
    (crit : ℕ) (a : Answers) (b : Batt)
    → b.running ≡ true
    → shutdowns b.events ≡ 0
    → IsSteady (thread_round crit a b)
unfolding thread_round emit_batt unlock stop shutdowns
thread_round-IsSteady crit a b on none_yet = elim (Bool-cases a.failed) [
  | inl f ↦ simp (thread_round, f) (record { free = λ e. refl; once = ap suc none_yet })
  | inr f ↦ elim (Option-cases a.status) [
    | inl s ↦ simp (thread_round, f, s) (record { free = λ e. refl; once = none_yet ∙ rw on refl })
    | inr (status, s) ↦ elim (Option-cases a.charge) [
      | inl c ↦
          simp (thread_round, f, s, c) (record { free = λ e. refl; once = none_yet ∙ rw on refl })
      | inr (charge, c) ↦
          simp (thread_round, f, s, c)
            (announce-IsSteady crit b.state (record b { state = read_state status charge }) on
              none_yet)
    ]
  ]
]

thread_step-IsSteady :
    (crit : ℕ) (a : Answers) (b : Batt) → IsSteady b → IsSteady (thread_step crit a b)
unfolding thread_step thread_round unlock emit_batt stop
thread_step-IsSteady crit a b w = elim (Bool-cases b.running) [
  | inr off ↦ simp (off) w
  | inl on ↦
      simp (on, w.free on)
        (thread_round-IsSteady crit a (record b { locked = true }) on (w.once ∙ rw on refl))
]

-- However the charger and the fuel gauge answer, the battery thread schedules a shutdown exactly once when it stops and none before, and as long as it runs it leaves the mutex free between its rounds.
pub thread_run-IsSteady :
    (crit : ℕ) (answers : List Answers) (b : Batt)
    → IsSteady b
    → IsSteady (thread_run crit answers b)
unfolding thread_run
thread_run-IsSteady crit [] b w = w
thread_run-IsSteady crit (a ∷ rest) b w =
    thread_run-IsSteady crit rest (thread_step crit a b) (thread_step-IsSteady crit a b w)

-- A round that reads a drop to the critical threshold.
pub record IsCritical (crit : ℕ) (a : Answers) (b : Batt) (charge : ℕ) : Type 0 where
  pub healthy : a.failed ≡ false
  pub status : a.status ≢ none
  pub read : a.charge ≡ some charge
  pub drop : min charge 100 < b.state.percentage
  pub reached : min charge 100 ≤ crit

critical_round :
    (crit : ℕ) (a : Answers) (b : Batt) (charge : ℕ)
    → IsCritical crit a b charge
    → b.running ≡ true
    → b.locked ≡ false
    → ((thread_step crit a b).locked ≡ true) × ((thread_step crit a b).running ≡ false)
unfolding thread_step thread_round announce emit_batt stop read_state
critical_round crit a b charge c on free = elim (Option-cases a.status) [
  | inl s ↦ absurd (c.status s)
  | inr (status, s) ↦
      simp (thread_round, on, free, c.healthy, s, c.read, lt→ltb _ _ c.drop, le→leb _ _ c.reached)
        (refl, refl)
]

-- A thread that has ended takes no further step.
ended_run :
    (crit : ℕ) (answers : List Answers) (b : Batt)
    → b.running ≡ false
    → thread_run crit answers b ≡ b
unfolding thread_run thread_step
ended_run crit [] b off = refl
ended_run crit (a ∷ rest) b off = simp (off) (ended_run crit rest b off)

-- When the charge drops to the critical threshold, the thread ends in that round with the mutex held, and
-- nothing changes after it: the state of the battery can then not be read any more and its settings not be
-- updated, however long one waits.
pub get_state_stuck :
    (crit : ℕ) (a : Answers) (rest : List Answers) (b : Batt) (charge : ℕ) (settings : BattSettings)
    → b.running ≡ true
    → b.locked ≡ false
    → IsCritical crit a b charge
    → ((thread_step crit a b).running ≡ false)
      × ((thread_step crit a b).locked ≡ true)
      × (thread_run crit rest (thread_step crit a b) ≡ thread_step crit a b)
      × (get_state (thread_run crit rest (thread_step crit a b)) ≡ none)
      × (on_settings_update settings (thread_run crit rest (thread_step crit a b)) ≡ none)
unfolding get_state on_settings_update
get_state_stuck crit a rest b charge settings on free c =
    let (locked, off) = critical_round crit a b charge c on free in
    let same = ended_run crit rest (thread_step crit a b) off in
    (off, locked, same, simp (same, locked) refl, simp (same, locked) refl)
