-- ===== src/Splitlink/TxSlot.antt =====
-- The sending slots. The state points into `data`, so a packet is built from the array as it is then;
-- `mp` is SPLITLINK_MAX_PACKET_LENGTH less the header.
pub mod Sending
use ykb_firmware.Base.{
  ℕ, Bool, true, false, not, Option, none, some, List, [], ◌∷◌, ltb, if◌then◌else◌, copy_into,
  length,
}
use ykb_firmware.Protocol.Packet.{Packet, type_data}
use ykb_firmware.Protocol.Tx.{TxState, tx_init, tx_build_packet, tx_has_more}
use ykb_firmware.Splitlink.Wire.{wire_bytes}

pub data TxSlotState : Type 0 where
  tx_empty transceiving : TxSlotState

pub record TxSlot : Type 0 where
  pub state : TxSlotState
  pub data_bytes : List ℕ
  pub max_data_length : ℕ
  pub tx : TxState
  pub pending_packet : Packet
  pub pending_packet_ready : Bool
  pub id : ℕ

-- What splitlink_send returns: 0, -ENOMEM, -EAGAIN, or another error.
pub data Answer : Type 0 where
  sent no_memory try_again send_error : Answer

unfoldable pub is_transceiving : TxSlotState → Bool
is_transceiving tx_empty = false
is_transceiving transceiving = true

-- How a run of the handler ends: the work is scheduled again, at once or after 5 ms, or the
-- function returns at once, or it reaches the label `out`.
pub data Next : Type 0 where
  reschedule_now reschedule_later returned out : Next

-- One run: the bytes of the call of splitlink_send, if there is one, and the slot.
pub record Work : Type 0 where
  pub next : Next
  pub call : Option (List ℕ)
  pub slot : TxSlot

-- What follows the call of splitlink_send.
unfoldable pub after_send : Answer → TxSlot → Next × TxSlot
after_send sent slot =
    let left = record slot { pending_packet_ready = false } in
    if tx_has_more slot.tx then (reschedule_now, left) else (out, record left { state = tx_empty })
after_send no_memory slot = (reschedule_later, slot)
after_send try_again slot = (reschedule_later, slot)
after_send send_error slot = (out, record slot { state = tx_empty; pending_packet_ready = false })

module _ (mp : ℕ) where
  -- The slot with its message copied and the work scheduled; `memcpy` into `data`.
  unfoldable pub loaded : TxSlot → List ℕ → TxSlot
  loaded slot bytes = record slot {
    tx = tx_init mp (some slot.data_bytes) (length bytes) slot.id type_data;
    data_bytes = copy_into slot.data_bytes 0 bytes;
    pending_packet_ready = false;
    state = transceiving;
  }

  -- The flag is the result of the function.
  unfoldable pub tx_slot_begin_transfer : TxSlot → List ℕ → Bool × TxSlot
  unfolding loaded is_transceiving
  tx_slot_begin_transfer slot bytes =
      if is_transceiving slot.state
      then (false, slot)
      else if ltb slot.max_data_length (length bytes)
      then (false, slot)
      else (true, loaded slot bytes)

  unfoldable pub tx_slot_begin_transfer_or_log_busy : TxSlot → List ℕ → Bool × TxSlot
  unfolding is_transceiving
  tx_slot_begin_transfer_or_log_busy slot bytes =
      if is_transceiving slot.state then (false, slot) else tx_slot_begin_transfer slot bytes

  -- The next packet built into `pending_packet` where there is none; `none` when the transfer is over.
  unfoldable pub prepare : TxSlot → Option TxSlot
  prepare slot =
      if slot.pending_packet_ready
      then some slot
      else if not (tx_has_more slot.tx)
      then none
      else elim (tx_build_packet mp (record slot.tx { data_ptr = some slot.data_bytes })) [
        | none ↦ none
        | some (p, tx) ↦
            some (record slot { pending_packet = p; tx = tx; pending_packet_ready = true })
      ]

  -- tx_slot_work_handler as far as the label `out`, for the answer that splitlink_send gives.
  unfoldable pub tx_slot_work : Answer → TxSlot → Work
  unfolding is_transceiving
  tx_slot_work answer slot =
      if not (is_transceiving slot.state)
      then record { next = returned; call = none; slot = slot }
      else elim (prepare slot) [
        | none ↦ record { next = out; call = none; slot = record slot { state = tx_empty } }
        | some ready ↦
            let (next, after) = after_send answer ready in
            record { next = next; call = some (wire_bytes mp ready.pending_packet); slot = after }
      ]
