-- ===== src/Splitlink/RxSlot.antt =====
-- The receiving slots. `data_bytes` and `bitmap` are the arrays that the receiver's state points to, so a
-- change of the one is a change of the other. A slot's `id` is its number in Receiver. `track` is
-- CONFIG_SPLITLINK_OUT_OF_ORDER_TRACK and `mp` SPLITLINK_MAX_PACKET_LENGTH less the header.
pub mod States
pub mod Frames
pub mod Delivery
pub mod Sound
use ykb_firmware.Base.{
  ℕ, Bool, true, false, not, ◌||◌, ◌==◌, Option, none, some, List, [], ◌∷◌, if◌then◌else◌, take,
}
use ykb_firmware.Protocol.Packet.{Packet}
use ykb_firmware.Protocol.Rx.{RxState, RxResult, complete, is_error, push, rx_init, rx_reset}
use ykb_firmware.Splitlink.Wire.{read_packet}

pub data RxSlotState : Type 0 where
  rx_empty receiving ready processing : RxSlotState

pub record RxSlot : Type 0 where
  pub state : RxSlotState
  pub data_bytes : List ℕ
  pub max_data_length : ℕ
  pub bitmap : List ℕ
  pub rx : RxState

unfoldable pub or_else : List ℕ → Option (List ℕ) → List ℕ
or_else bitmap none = bitmap
or_else bitmap (some changed) = changed

-- The slot once its receiver is in the state `rx`.
unfoldable pub with_rx : RxSlot → RxState → RxSlot
with_rx slot rx = record slot {
  rx = rx;
  data_bytes = rx.buffer;
  bitmap = or_else slot.bitmap rx.received_bitmap;
}

-- `rx_init` of the slots.
unfoldable pub slot_init : Bool → RxSlot → RxSlot
slot_init track slot =
    with_rx slot (
      rx_init slot.data_bytes slot.max_data_length track (if track then some slot.bitmap else none))

-- Its receiver reset and the slot empty.
unfoldable pub slot_cleared : RxSlot → RxSlot
slot_cleared slot = record (with_rx slot (rx_reset slot.rx)) { state = rx_empty }

unfoldable pub is_complete_result : RxResult → Bool
is_complete_result complete = true
is_complete_result _ = false

module _ (mp : ℕ) where
  -- The packet pushed, and what follows; the flag says that the work is submitted.
  unfoldable pub slot_push : RxSlot → Packet → Bool × RxSlot
  slot_push slot packet =
      let (res, rx) = push mp slot.rx packet in
      let pushed = with_rx slot rx in
      if is_error res
      then (false, slot_cleared pushed)
      else if is_complete_result res
      then (true, record pushed { state = ready })
      else (false, pushed)

  -- The switch on the slot's state, and what follows it, in on_receive.
  unfoldable pub slot_receive : Bool → RxSlot → Packet → Bool × RxSlot
  slot_receive track slot packet = elim slot.state [
    | rx_empty ↦ slot_push (record (slot_init track slot) { state = receiving }) packet
    | receiving ↦ slot_push slot packet
    | ready ↦ (false, slot)
    | processing ↦ (false, slot)
  ]

-- Which half of the keyboard the code is built for.
pub data Role : Type 0 where
  master slave : Role

abbrev pub values_slot_id : ℕ
values_slot_id = 1

abbrev pub settings_slot_id : ℕ
settings_slot_id = 2

abbrev pub script_manifest_slot_id : ℕ
script_manifest_slot_id = 4

abbrev pub script_request_slot_id : ℕ
script_request_slot_id = 5

abbrev pub script_slot_slot_id : ℕ
script_slot_slot_id = 6

abbrev pub battery_slot_id : ℕ
battery_slot_id = 7

-- The slots that a half receives on.
unfoldable pub receives : Role → ℕ → Bool
receives master id = id == values_slot_id || id == battery_slot_id || id == script_request_slot_id
receives slave id =
    id == settings_slot_id || id == script_manifest_slot_id || id == script_slot_slot_id

-- rx_slot_work_handler: the bytes that the upper layer is given, and the slot. Values are copied up
-- to the length of the message, the other structures are read from the array as it stands.
unfoldable pub rx_slot_work : Role → ℕ → RxSlot → Option (List ℕ) × RxSlot
rx_slot_work role id slot =
    if not (receives role id)
    then (none, slot_cleared slot)
    else if id == values_slot_id
    then (some (take slot.rx.total_len slot.data_bytes), slot_cleared slot)
    else (some slot.data_bytes, slot_cleared slot)

-- The slots of a half, by their numbers; those it does not receive on are never used.
pub record Receiver : Type 0 where
  pub role : Role
  pub slot_of : ℕ → RxSlot

unfoldable pub put_slot : (ℕ → RxSlot) → ℕ → RxSlot → ℕ → RxSlot
put_slot slots id slot other = if id == other then slot else slots other

-- splitlink_sync_protocol_on_receive; the work that it submits, if any, is named by its slot.
unfoldable pub on_receive : ℕ → Bool → Receiver → List ℕ → Option ℕ × Receiver
on_receive mp track node bytes = elim (read_packet mp bytes) [
  | none ↦ (none, node)
  | some packet ↦
      let id = packet.header.transfer_id in
      let (submit, slot) = slot_receive mp track (node.slot_of id) packet in
      if not (receives node.role id) then (none, node) else (
        if submit then some id else none,
        record node { slot_of = put_slot node.slot_of id slot },
      )
]

-- What happens to a half: a frame comes in, or the work of a slot that is ready runs.
pub data ReceiverEvent : Type 0 where
  frame : List ℕ → ReceiverEvent
  work : ℕ → ReceiverEvent

unfoldable pub is_ready : RxSlotState → Bool
is_ready ready = true
is_ready _ = false

-- The works that were submitted run one at a time; one runs only for a slot that is ready.
unfoldable pub receiver_step : ℕ → Bool → Receiver → ReceiverEvent → Receiver
receiver_step mp track node (frame bytes) = (on_receive mp track node bytes).1
receiver_step mp track node (work id) =
    if is_ready (node.slot_of id).state
    then record node {
      slot_of = put_slot node.slot_of id (rx_slot_work node.role id (node.slot_of id)).1;
    }
    else node

unfoldable pub receiver_run : ℕ → Bool → Receiver → List ReceiverEvent → Receiver
receiver_run mp track node [] = node
receiver_run mp track node (e ∷ es) = receiver_run mp track (receiver_step mp track node e) es
