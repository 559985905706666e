-- ===== src/BtConnect.antt =====
-- The Bluetooth side of a keyboard: subsys/bt_connect/src/bt_connect.c, with the battery service of both
-- halves. A connection is a number. What the Bluetooth host answers to a call is an argument, and the calls
-- that leave the file are events, the last one first.
pub mod ReportMap
pub mod Events
pub mod Same
pub mod Reachable
pub mod Air
mod Tests
use ykb_firmware.Base.{
  ℕ, zero, suc, ◌+◌, ◌≤◌, min, Bool, true, false, not, ◌&&◌, ◌||◌, Option, none, some, List, [],
  ◌∷◌, leb, ◌==◌, if◌then◌else◌, replicate,
}

-- `struct bt_connect_conn_state`
pub record ConnState : Type 0 where
  pub conn : Option ℕ
  pub in_boot_mode : Bool

-- What bt_le_adv_start answers.
pub data AdvAnswer : Type 0 where
  adv_ok adv_already adv_failed : AdvAnswer

pub data BtEvent : Type 0 where
  adv_started : AdvAnswer → BtEvent
  conn_referenced conn_released : ℕ → BtEvent
  conn_refused : ℕ → BtEvent
  security_requested : ℕ → BtEvent
  host_connected host_disconnected : ℕ → BtEvent
  battery_notified secondary_notified : ℕ → BtEvent

pub record BatteryService : Type 0 where
  pub notifications_ready : Bool
  pub pending_valid : Bool
  pub pending_level : ℕ
  pub primary_level : ℕ
  pub secondary_level : ℕ
  pub secondary_ready : Bool
  pub publish_in_ms : Option ℕ

-- The static variables of the file, and the calls made.
pub record Bt : Type 0 where
  pub conn_states : List ConnState
  pub is_advertising : Bool
  pub battery : BatteryService
  pub events : List BtEvent

unfoldable pub emit_bt : BtEvent → Bt → Bt
emit_bt e s = record s { events = e ∷ s.events }

abbrev pub names : Option ℕ → ℕ → Bool
names none conn = false
names (some held) conn = held == conn

abbrev pub is_some : Option ℕ → Bool
is_some none = false
is_some (some held) = true

-- The `conn` of a slot is this connection.
unfoldable pub is_conn : ℕ → ConnState → Bool
is_conn conn st = names st.conn conn

unfoldable pub is_held : ConnState → Bool
is_held st = is_some st.conn

unfoldable pub any_held : List ConnState → Bool
any_held [] = false
any_held (st ∷ states) = is_held st || any_held states

unfoldable pub any_connected : Bt → Bool
any_connected s = any_held s.conn_states

-- The states that bt_connect_foreach_conn calls the function with; errors of the calls are only logged.
unfoldable pub foreach_conn : List ConnState → List ConnState
foreach_conn [] = []
foreach_conn (st ∷ states) =
    let rest = foreach_conn states in if is_held st then st ∷ rest else rest

-- The states with the first one that passes the test changed, and whether there is one: find_conn_state and
-- alloc_conn_state with what is done to the state that they give.
unfoldable pub at_first :
    (ConnState → Bool) → (ConnState → ConnState) → List ConnState → Bool × List ConnState
at_first test f [] = (false, [])
at_first test f (st ∷ states) =
    let (found, rest) = at_first test f states in
    if test st then (true, f st ∷ states) else (found, st ∷ rest)

unfoldable pub started : AdvAnswer → Bool
started adv_ok = true
started adv_already = true
started adv_failed = false

unfoldable pub advertising_start : AdvAnswer → Bt → Bt
unfolding emit_bt
advertising_start adv s =
    let called = emit_bt (adv_started adv) s in
    if started adv then record called { is_advertising = true } else called

unfoldable pub maybe_restart_advertising : AdvAnswer → Bt → Bt
maybe_restart_advertising adv s =
    if not (any_connected s) && not s.is_advertising then advertising_start adv s else s

pub data ModeEvent : Type 0 where
  boot_mode_entered report_mode_entered other_mode_event : ModeEvent

unfoldable pub enter_mode : ModeEvent → ConnState → ConnState
enter_mode boot_mode_entered st = record st { in_boot_mode = true }
enter_mode report_mode_entered st = record st { in_boot_mode = false }
enter_mode other_mode_event st = st

unfoldable pub hids_pm_evt_handler : ModeEvent → ℕ → Bt → Bt
hids_pm_evt_handler evt conn s = record s {
  conn_states = (at_first (is_conn conn) (enter_mode evt) s.conn_states).1;
}

unfoldable pub hold_conn : ℕ → ConnState → ConnState
hold_conn conn st = record { conn = some conn; in_boot_mode = false }

unfoldable pub drop_conn : ConnState → ConnState
drop_conn st = record { conn = none; in_boot_mode = false }

unfoldable pub is_vacant : ConnState → Bool
is_vacant st = not (is_held st)

-- The battery service waits for a new subscription.
unfoldable pub not_ready : Bt → Bt
not_ready s = record s { battery = record s.battery { notifications_ready = false } }

-- The callback `connected`: whether it reports an error, bt_connect_manages_conn, and whether
-- bt_hids_connected fails.
unfoldable pub connected : Bool → Bool → Bool → ℕ → Bt → Bt
unfolding emit_bt
connected err manages hids_err conn s =
    if err || not manages
    then s
    else (let (found, states) = at_first is_vacant (hold_conn conn) s.conn_states in
        if not found
        then emit_bt (conn_refused conn) s
        else if hids_err
        then s
        else emit_bt (host_connected conn) (
            emit_bt (security_requested conn) (
              not_ready (record (emit_bt (conn_referenced conn) s) {
                conn_states = states;
                is_advertising = false;
              }))))

unfoldable pub cancel_publish : Bt → Bt
cancel_publish s = record s { battery = record s.battery { publish_in_ms = none } }

-- The callback `disconnected`; an error of bt_hids_disconnected is only logged.
unfoldable pub disconnected : Bool → AdvAnswer → ℕ → Bt → Bt
unfolding emit_bt
disconnected manages adv conn s =
    let (found, states) = at_first (is_conn conn) drop_conn s.conn_states in
    if not manages && not found
    then s
    else (let freed =
          if found then record (emit_bt (conn_released conn) s) { conn_states = states } else s in
        maybe_restart_advertising adv
          (emit_bt (host_disconnected conn) (cancel_publish (not_ready freed))))

unfoldable pub security_changed : Bool → Bool → ℕ → Bt → Bt
security_changed manages err level s =
    if not manages || err
    then s
    else if leb 2 level
    then record s {
      battery = record s.battery { notifications_ready = true; publish_in_ms = some 500 };
    }
    else s

unfoldable pub set_battery_level : ℕ → Bt → Bt
set_battery_level percentage s =
    let pending = record s.battery { pending_level = min percentage 100; pending_valid = true } in
    record s {
      battery =
          if pending.notifications_ready
          then record pending { publish_in_ms = some 50 }
          else pending;
    }

-- publish_pending_battery_level, when its work runs; `err` is an error of bt_gatt_notify.
unfoldable pub publish_pending_battery_level : Bool → Bt → Bt
unfolding emit_bt
publish_pending_battery_level err s =
    let ran = record s { battery = record s.battery { publish_in_ms = none } } in
    if not s.battery.notifications_ready || not s.battery.pending_valid
    then ran
    else (let level = min s.battery.pending_level 100 in
        let notified =
          emit_bt (battery_notified level)
            (record ran { battery = record ran.battery { primary_level = level } }) in
        if err
        then notified
        else record notified { battery = record notified.battery { pending_valid = false } })

-- BT_GATT_CCC_NOTIFY is 1.
unfoldable pub primary_battery_ccc_cfg_changed : ℕ → Bt → Bt
primary_battery_ccc_cfg_changed value s = record s {
  battery = record s.battery { notifications_ready = value == 1 };
}

unfoldable pub secondary_battery_ccc_cfg_changed : ℕ → Bt → Bt
secondary_battery_ccc_cfg_changed value s = record s {
  battery = record s.battery { secondary_ready = value == 1 };
}

-- secondary_battery_publish: an error of bt_gatt_notify is only logged.
unfoldable pub secondary_battery_publish : Bt → Bt
unfolding emit_bt
secondary_battery_publish s =
    if not s.battery.secondary_ready
    then s
    else emit_bt (secondary_notified s.battery.secondary_level) s

-- bt_connect_set_secondary_battery_state, and with 0 bt_connect_clear_secondary_battery_state.
unfoldable pub set_secondary_battery_state : ℕ → Bt → Bt
set_secondary_battery_state percentage s =
    secondary_battery_publish
      (record s { battery = record s.battery { secondary_level = min percentage 100 } })
