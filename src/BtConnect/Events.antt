-- ===== src/BtConnect/Events.antt =====
-- What can happen to the Bluetooth side, and the slots of its connections.
use ykb_firmware.Base.{
  ℕ, suc, ◌+◌, ◌≡◌, refl, ap, Bool, true, false, not, ◌||◌, Option, none, some, List, [], ◌∷◌,
  length, ◌==◌, if◌then◌else◌, arith, inl, inr, Bool-cases,
}
use ykb_firmware.BtConnect.{
  Bt, ConnState, AdvAnswer, BtEvent, conn_referenced, conn_released, ModeEvent, boot_mode_entered,
  report_mode_entered, other_mode_event, is_conn, is_held, names, is_some, is_vacant, any_held,
  at_first, enter_mode, hold_conn, drop_conn, connected, disconnected, security_changed,
  hids_pm_evt_handler, set_battery_level, publish_pending_battery_level,
  primary_battery_ccc_cfg_changed, secondary_battery_ccc_cfg_changed, set_secondary_battery_state,
}

-- A callback or a call from another subsystem, with what the Bluetooth host answers in it.
pub data Happening : Type 0 where
  link_up : Bool → Bool → Bool → ℕ → Happening
  link_down : Bool → AdvAnswer → ℕ → Happening
  secured : Bool → Bool → ℕ → Happening
  mode_changed : ModeEvent → ℕ → Happening
  level_set level_subscribed other_level_set other_level_subscribed : ℕ → Happening
  publish_ran : Bool → Happening

unfoldable pub happen : Happening → Bt → Bt
happen (link_up err manages hids_err conn) s = connected err manages hids_err conn s
happen (link_down manages adv conn) s = disconnected manages adv conn s
happen (secured manages err level) s = security_changed manages err level s
happen (mode_changed evt conn) s = hids_pm_evt_handler evt conn s
happen (level_set percentage) s = set_battery_level percentage s
happen (level_subscribed value) s = primary_battery_ccc_cfg_changed value s
happen (other_level_set percentage) s = set_secondary_battery_state percentage s
happen (other_level_subscribed value) s = secondary_battery_ccc_cfg_changed value s
happen (publish_ran err) s = publish_pending_battery_level err s

unfoldable pub run : List Happening → Bt → Bt
run [] s = s
run (h ∷ hs) s = run hs (happen h s)

-- The references of a connection that were taken, and those that were given back.
abbrev pub taken : ℕ → List BtEvent → ℕ
taken conn [] = 0
taken conn (conn_referenced c ∷ es) =
    (let rest = taken conn es in if c == conn then suc rest else rest)
taken conn (_ ∷ es) = taken conn es

abbrev pub given_back : ℕ → List BtEvent → ℕ
given_back conn [] = 0
given_back conn (conn_released c ∷ es) =
    (let rest = given_back conn es in if c == conn then suc rest else rest)
given_back conn (_ ∷ es) = given_back conn es

abbrev pub count_if : Bool → ℕ
count_if true = 1
count_if false = 0

-- The slots that hold a connection.
abbrev pub holding : ℕ → List ConnState → ℕ
holding conn [] = 0
holding conn (st ∷ states) = count_if (is_conn conn st) + holding conn states

names-vacant : (o : Option ℕ) (conn : ℕ) → not (is_some o) ≡ true → names o conn ≡ false
names-vacant none conn e = refl
names-vacant (some held) conn e = cc

names-same : (o : Option ℕ) (c conn : ℕ) → names o c ≡ true → names o conn ≡ (c == conn)
names-same none c conn e = cc
names-same (some held) c conn e =
    let same : held ≡ c = ground (arith, e) in ap (λ h. h == conn) same

names-is_some : (o : Option ℕ) (c : ℕ) → names o c ≡ true → is_some o ≡ true
names-is_some none c e = e
names-is_some (some held) c e = refl

or_later : (a b : Bool) → b ≡ true → (a || b) ≡ true
or_later true b e = refl
or_later false b e = e

pub at_first-hold :
    (conn c : ℕ) (states : List ConnState)
    → let (found, states') = at_first is_vacant (hold_conn c) states in
      found ≡ true
      → (any_held states' ≡ true)
        × (holding conn states' ≡ count_if (c == conn) + holding conn states)
unfolding at_first any_held is_vacant is_conn is_held hold_conn
at_first-hold conn c [] = λ e. cc
at_first-hold conn c (st ∷ states) = elim (Bool-cases (is_vacant st)) [
  | inl free ↦
      simp (at_first, is_vacant, free)
        (λ e. (refl, omega (arith, ap count_if (names-vacant st.conn conn free))))
  | inr busy ↦
      simp (at_first, is_vacant, busy)
        (λ e.
          let rest = at_first-hold conn c states e in
          (or_later (is_held st) _ rest.0, omega (arith, rest.1)))
]

pub at_first-drop :
    (conn c : ℕ) (states : List ConnState)
    → let (found, states') = at_first (is_conn c) drop_conn states in
      found ≡ true
      → (any_held states ≡ true)
        × (holding conn states ≡ count_if (c == conn) + holding conn states')
unfolding at_first any_held is_conn is_held drop_conn
at_first-drop conn c [] = λ e. cc
at_first-drop conn c (st ∷ states) = elim (Bool-cases (is_conn c st)) [
  | inl here ↦
      simp (at_first, is_conn, here)
        (λ e. (
          rw (names-is_some st.conn c here) refl,
          omega (arith, ap count_if (names-same st.conn c conn here)),
        ))
  | inr there ↦
      simp (at_first, is_conn, there)
        (λ e.
          let rest = at_first-drop conn c states e in
          (or_later (is_held st) _ rest.0, omega (arith, rest.1)))
]

enter_mode-conn : (evt : ModeEvent) (st : ConnState) → (enter_mode evt st).conn ≡ st.conn
unfolding enter_mode
enter_mode-conn boot_mode_entered st = refl
enter_mode-conn report_mode_entered st = refl
enter_mode-conn other_mode_event st = refl

pub at_first-mode :
    (conn c : ℕ) (evt : ModeEvent) (states : List ConnState)
    → let states' = (at_first (is_conn c) (enter_mode evt) states).1 in
      (any_held states' ≡ any_held states) × (holding conn states' ≡ holding conn states)
unfolding at_first any_held is_conn is_held
at_first-mode conn c evt [] = (refl, refl)
at_first-mode conn c evt (st ∷ states) = elim (Bool-cases (is_conn c st)) [
  | inl here ↦
      simp (at_first, is_conn, here)
        (
          ap (λ o. is_some o || any_held states) (enter_mode-conn evt st),
          ap (λ o. count_if (names o conn) + holding conn states) (enter_mode-conn evt st),
        )
  | inr there ↦
      let rest = at_first-mode conn c evt states in
      simp (at_first, is_conn, there) (ap (λ b. is_some st.conn || b) rest.0, omega (arith, rest.1))
]

pub length-at_first :
    (test : ConnState → Bool) (f : ConnState → ConnState) (states : List ConnState)
    → length (at_first test f states).1 ≡ length states
unfolding at_first
length-at_first test f [] = refl
length-at_first test f (st ∷ states) = elim (Bool-cases (test st)) [
  | inl e ↦ simp (at_first, e) refl
  | inr e ↦ simp (at_first, e) (ap suc (length-at_first test f states))
]
