-- ===== src/Splitlink/Slave.antt =====
-- The sending side of the slave half: the values and the battery state that wait while their slots are
-- busy, and the requests for scripts. Structures are the bytes that they have in memory.
pub mod Latest
use ykb_firmware.Base.{
  ℕ, ◌*◌, ◌/◌, ◌%◌, ◌^◌, Bool, true, false, not, ◌&&◌, ◌||◌, Option, none, some, List, [], ◌∷◌, ltb,
  ◌==◌, if◌then◌else◌, take, copy_into, length,
}
use ykb_firmware.Splitlink.TxSlot.{
  TxSlot, is_transceiving, Answer, Next, reschedule_now, reschedule_later, returned, out, Work,
  loaded, tx_slot_begin_transfer, tx_slot_begin_transfer_or_log_busy, tx_slot_work,
}
use ykb_firmware.Splitlink.RxSlot.{values_slot_id, battery_slot_id}

pub record Slave : Type 0 where
  pub connected : Bool
  pub values_tx : TxSlot
  pub battery_tx : TxSlot
  pub scripts_request_tx : TxSlot
  pub pending_values_tx_data : List ℕ
  pub pending_values_tx_len : ℕ
  pub pending_values_tx_ready : Bool
  pub pending_battery_tx_state : List ℕ
  pub pending_battery_tx_ready : Bool

-- An array of uint16_t, low byte first.
unfoldable pub word_bytes : List ℕ → List ℕ
word_bytes [] = []
word_bytes (v ∷ vs) = (v % 256) ∷ (v / 256) ∷ word_bytes vs

-- The bytes that `size_bytes` counts, a uint16_t.
unfoldable pub value_bytes : List ℕ → List ℕ
value_bytes values = take ((length values * 2) % 2 ^ 16) (word_bytes values)

-- The handler came to the label `out`.
unfoldable pub reaches_out : Next → Bool
reaches_out out = true
reaches_out _ = false

module _ (mp : ℕ) where
  unfoldable pub send_values : Slave → Option (List ℕ) → Slave
  send_values s none = s
  send_values s (some values) =
      let bytes = value_bytes values in
      if length values == 0 || not s.connected
      then s
      else if is_transceiving s.values_tx.state
      then (if ltb (length s.pending_values_tx_data) (length bytes) then s else record s {
        pending_values_tx_data = copy_into s.pending_values_tx_data 0 bytes;
        pending_values_tx_len = length bytes;
        pending_values_tx_ready = true;
      })
      else record s { values_tx = (tx_slot_begin_transfer mp s.values_tx bytes).1 }

  unfoldable pub send_battery_state : Slave → Option (List ℕ) → Slave
  send_battery_state s none = s
  send_battery_state s (some bytes) =
      if not s.connected
      then s
      else if is_transceiving s.battery_tx.state
      then record s { pending_battery_tx_state = bytes; pending_battery_tx_ready = true }
      else record s { battery_tx = (tx_slot_begin_transfer mp s.battery_tx bytes).1 }

  unfoldable pub request_scripts : Slave → Option (List ℕ) → Slave
  request_scripts s none = s
  request_scripts s (some bytes) = if not s.connected then s else record s {
    scripts_request_tx = (tx_slot_begin_transfer_or_log_busy mp s.scripts_request_tx bytes).1;
  }

  -- What follows the label `out`, in the slots of values and of the battery state.
  unfoldable pub values_out : Slave → Slave
  values_out s =
      if s.pending_values_tx_ready && not (is_transceiving s.values_tx.state)
      then record s {
        values_tx = loaded mp s.values_tx (take s.pending_values_tx_len s.pending_values_tx_data);
        pending_values_tx_ready = false;
      }
      else s

  unfoldable pub battery_out : Slave → Slave
  battery_out s =
      if s.pending_battery_tx_ready && not (is_transceiving s.battery_tx.state)
      then record s {
        battery_tx = (tx_slot_begin_transfer mp s.battery_tx s.pending_battery_tx_state).1;
        pending_battery_tx_ready = false;
      }
      else s

  -- tx_slot_work_handler of each slot: the bytes sent, and the half.
  unfoldable pub values_work : Answer → Slave → Option (List ℕ) × Slave
  values_work answer s =
      let w = tx_slot_work mp answer s.values_tx in
      let s' = record s { values_tx = w.slot } in
      (w.call, if reaches_out w.next then values_out s' else s')

  unfoldable pub battery_work : Answer → Slave → Option (List ℕ) × Slave
  battery_work answer s =
      let w = tx_slot_work mp answer s.battery_tx in
      let s' = record s { battery_tx = w.slot } in
      (w.call, if reaches_out w.next then battery_out s' else s')

  unfoldable pub request_work : Answer → Slave → Option (List ℕ) × Slave
  request_work answer s =
      let w = tx_slot_work mp answer s.scripts_request_tx in
      (w.call, record s { scripts_request_tx = w.slot })

-- splitlink_sync_init, on_connect and on_disconnect, which leave the slots as they are.
unfoldable pub slave_init : Slave → Slave
slave_init s = record s {
  connected = false;
  pending_values_tx_len = 0;
  pending_values_tx_ready = false;
  pending_battery_tx_ready = false;
}

unfoldable pub slave_on_connect : Slave → Slave
slave_on_connect s = record s { connected = true }

unfoldable pub slave_on_disconnect : Slave → Slave
slave_on_disconnect s = record s { connected = false }
