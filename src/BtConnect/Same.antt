-- ===== src/BtConnect/Same.antt =====
-- What does not touch the connections of bt_connect.c.
use ykb_firmware.Base.{ℕ, ◌≡◌, refl, Bool, not, ◌||◌, ◌∷◌, leb, length, inl, inr, Bool-cases}
use ykb_firmware.BtConnect.{
  Bt, BatteryService, battery_notified, conn_refused, emit_bt, any_connected, is_conn, enter_mode,
  security_changed, hids_pm_evt_handler, set_battery_level, publish_pending_battery_level,
  secondary_battery_publish, set_secondary_battery_state,
}
use ykb_firmware.BtConnect.Events.{taken, given_back, holding, at_first-mode, length-at_first}

-- The connections and the flag stay as they are, and no reference is taken or given back.
pub record Same (conn : ℕ) (s s' : Bt) : Type 0 where
  pub same_any : any_connected s' ≡ any_connected s
  pub same_flag : s'.is_advertising ≡ s.is_advertising
  pub same_taken : taken conn s'.events ≡ taken conn s.events
  pub same_back : given_back conn s'.events ≡ given_back conn s.events
  pub same_holding : holding conn s'.conn_states ≡ holding conn s.conn_states
  pub same_size : length s'.conn_states ≡ length s.conn_states

pub Same-refl : (conn : ℕ) (s : Bt) → Same conn s s
Same-refl conn s = record {
  same_any = refl;
  same_flag = refl;
  same_taken = refl;
  same_back = refl;
  same_holding = refl;
  same_size = refl;
}

pub battery-Same : (conn : ℕ) (s : Bt) (b : BatteryService) → Same conn s (record s { battery = b })
unfolding any_connected
battery-Same conn s b = record {
  same_any = refl;
  same_flag = refl;
  same_taken = refl;
  same_back = refl;
  same_holding = refl;
  same_size = refl;
}

notified-Same :
    (conn : ℕ) (s : Bt) (b : BatteryService) (level : ℕ)
    → Same conn s (record s { battery = b; events = battery_notified level ∷ s.events })
unfolding any_connected
notified-Same conn s b level = record {
  same_any = refl;
  same_flag = refl;
  same_taken = refl;
  same_back = refl;
  same_holding = refl;
  same_size = refl;
}

pub refused-Same :
    (conn : ℕ) (s : Bt) (c : ℕ) → Same conn s (record s { events = conn_refused c ∷ s.events })
unfolding any_connected
refused-Same conn s c = record {
  same_any = refl;
  same_flag = refl;
  same_taken = refl;
  same_back = refl;
  same_holding = refl;
  same_size = refl;
}

pub secured-Same :
    (conn : ℕ) (manages err : Bool) (level : ℕ) (s : Bt)
    → Same conn s (security_changed manages err level s)
unfolding security_changed any_connected
secured-Same conn manages err level s = elim (Bool-cases (not manages || err)) [
  | inl e ↦ simp (security_changed, e) (Same-refl conn s)
  | inr e ↦ elim (Bool-cases (leb 2 level)) [
    | inl l ↦ simp (security_changed, e, l) (battery-Same conn s _)
    | inr l ↦ simp (security_changed, e, l) (Same-refl conn s)
  ]
]

pub mode-Same : (conn : ℕ) (evt : _) (c : ℕ) (s : Bt) → Same conn s (hids_pm_evt_handler evt c s)
unfolding hids_pm_evt_handler any_connected
mode-Same conn evt c s =
    let same = at_first-mode conn c evt s.conn_states in
    record {
      same_any = same.0;
      same_flag = refl;
      same_taken = refl;
      same_back = refl;
      same_holding = same.1;
      same_size = length-at_first (is_conn c) (enter_mode evt) s.conn_states;
    }

pub level-Same : (conn percentage : ℕ) (s : Bt) → Same conn s (set_battery_level percentage s)
unfolding set_battery_level any_connected
level-Same conn percentage s = (battery-Same conn s _)

pub publish-Same :
    (conn : ℕ) (err : Bool) (s : Bt) → Same conn s (publish_pending_battery_level err s)
unfolding publish_pending_battery_level any_connected emit_bt
publish-Same conn err s =
    elim (Bool-cases (not s.battery.notifications_ready || not s.battery.pending_valid)) [
      | inl e ↦ simp (publish_pending_battery_level, e) (battery-Same conn s _)
      | inr e ↦ elim (Bool-cases err) [
        | inl f ↦ simp (publish_pending_battery_level, e, f) (notified-Same conn s _ _)
        | inr f ↦ simp (publish_pending_battery_level, e, f) (notified-Same conn s _ _)
      ]
    ]

pub secondary-Same :
    (conn percentage : ℕ) (s : Bt) → Same conn s (set_secondary_battery_state percentage s)
unfolding set_secondary_battery_state secondary_battery_publish any_connected emit_bt
secondary-Same conn percentage s = elim (Bool-cases (not s.battery.secondary_ready)) [
  | inl e ↦ simp (set_secondary_battery_state, secondary_battery_publish, e) (battery-Same conn s _)
  | inr e ↦
      simp (set_secondary_battery_state, secondary_battery_publish, e)
        (record {
          same_any = refl;
          same_flag = refl;
          same_taken = refl;
          same_back = refl;
          same_holding = refl;
          same_size = refl;
        })
]
