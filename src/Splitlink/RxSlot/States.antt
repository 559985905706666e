-- ===== src/Splitlink/RxSlot/States.antt =====
-- What on_receive does with a packet, for each state of the slot.
use ykb_firmware.Base.{ℕ, Bool, false, ◌≡◌, arith}
use ykb_firmware.Protocol.Packet.{Packet}
use ykb_firmware.Splitlink.RxSlot.{
  RxSlot, rx_empty, receiving, ready, processing, slot_init, slot_push, slot_receive, rx_slot_work,
  slot_cleared, Role,
}

module _ (mp : ℕ) (track : Bool) (slot : RxSlot) (p : Packet) where
  pub receive_first :
      slot.state ≡ rx_empty
      → slot_receive mp track slot p
        ≡ slot_push mp (record (slot_init track slot) { state = receiving }) p
  unfolding slot_receive
  receive_first e = ground (arith, e)

  pub receive_on : slot.state ≡ receiving → slot_receive mp track slot p ≡ slot_push mp slot p
  unfolding slot_receive
  receive_on e = ground (arith, e)

  pub receive_ready : slot.state ≡ ready → slot_receive mp track slot p ≡ (false, slot)
  unfolding slot_receive
  receive_ready e = ground (arith, e)

  pub receive_processing : slot.state ≡ processing → slot_receive mp track slot p ≡ (false, slot)
  unfolding slot_receive
  receive_processing e = ground (arith, e)

-- The work clears the slot whatever its number.
pub rx_slot_work-slot_cleared :
    (role : Role) (id : ℕ) (slot : RxSlot) → (rx_slot_work role id slot).1 ≡ slot_cleared slot
unfolding rx_slot_work
rx_slot_work-slot_cleared role id slot = ground arith
