-- ===== src/Protocol/Tests.antt =====
-- A message of seven bytes in packets of three, and the theorems at work on it.
use ykb_firmware.Base.{
  ℕ, ◌<◌, ◌≡◌, refl, true, false, List, [], ◌∷◌, none, some, take, length, map, arith, ◌↔◌, ◌/◌,
}
use ykb_firmware.Protocol.Packet.{
  Header, Packet, Splits, get_type, calc_packet_count, is_header_valid,
}
use ykb_firmware.Protocol.Bitmap.{bitmap_size_bytes, bitmap_clear_all}
use ykb_firmware.Protocol.Tx.{tx_init, tx_packets}
use ykb_firmware.Protocol.Tx.Packets.{
  Message, IsData, packet_of, packets, packets_from, tx_packets-tx_init,
}
use ykb_firmware.Protocol.Rx.{
  RxState, accepted, is_error, push, rx_init, opened, lacks_bitmap, header_error,
}
use ykb_firmware.Protocol.Rx.Transfer.{Transfer}
use ykb_firmware.Protocol.Rx.Valid.{
  IsValid, IsHeader, rx_init-IsValid, push-IsValid, push_refused, IsIntact,
}
use ykb_firmware.Protocol.Rx.Bounds.{Within, push-Within, push-IsIntact}
use ykb_firmware.Protocol.Exchange.{IsReady, opened-Belongs}
use ykb_firmware.Protocol.Exchange.Delivery.{
  receive, contains, AllBelow, IsDelivered, transfer_in_order, transfer_any_order,
  transfer_any_order_bytes,
}

abbrev message : Message
message = record { bytes = 1 ∷ 2 ∷ 3 ∷ 4 ∷ 5 ∷ 6 ∷ 7 ∷ []; transfer_id = 9; type_flags = 0 }

message-IsData : IsData message
unfolding get_type
message-IsData = record { word = omega arith; byte = omega arith; kind = refl }

three_pos : 0 < 3
three_pos = omega arith

abbrev room : List ℕ
room = 0 ∷ 0 ∷ 0 ∷ 0 ∷ 0 ∷ 0 ∷ 0 ∷ 0 ∷ []

-- The receiver that takes packets in order, and the one that tracks them by a bitmap.
abbrev strict_rx : RxState
strict_rx = rx_init room 8 false none

abbrev any_rx : RxState
any_rx = rx_init room 8 true (some (0 ∷ []))

strict_rx-IsReady : IsReady 3 message strict_rx
unfolding rx_init
strict_rx-IsReady = record {
  idle = refl;
  storage = omega arith;
  room = omega arith;
  bitmap = λ e. cc;
}

any_rx-IsReady : IsReady 3 message any_rx
unfolding rx_init calc_packet_count lacks_bitmap bitmap_size_bytes
any_rx-IsReady = record {
  idle = refl;
  storage = omega arith;
  room = omega arith;
  bitmap = λ e. refl;
}

three_packets : packets 3 message ≡ 3
unfolding calc_packet_count
three_packets = refl

any_mode : any_rx.allow_out_of_order ≡ true
unfolding rx_init
any_mode = refl

open_mode : (opened any_rx (packet_of 3 message 0)).allow_out_of_order ≡ true
unfolding opened rx_init
open_mode = refl

two_bytes : 9 / 8 < length (bitmap_clear_all (0 ∷ 0 ∷ []))
unfolding bitmap_clear_all
two_bytes = omega arith

transfer_in_order_example :
    (ps : List Packet) × (tx_packets 3 5 (tx_init 3 (some message.bytes) 7 9 0) ≡ some ps)
    × IsDelivered 3 message three_pos message-IsData (receive 3 (accepted, strict_rx) ps)
transfer_in_order_example =
    transfer_in_order 3 message three_pos message-IsData strict_rx 5 strict_rx-IsReady
      (omega (arith, three_packets))

-- The packets 2, 0, 0 and 1.
below_three : AllBelow (packets 3 message) (2 ∷ 0 ∷ 0 ∷ 1 ∷ [])
below_three = (
  omega (arith, three_packets),
  (
    omega (arith, three_packets),
    (omega (arith, three_packets), (omega (arith, three_packets), tt)),
  ),
)

all_sent : (j : ℕ) → j < packets 3 message → contains j (2 ∷ 0 ∷ 0 ∷ 1 ∷ []) ≡ true
all_sent j h = ground (arith, three_packets)

transfer_any_order_bytes_example :
    take 7 (receive 3 (accepted, any_rx) (map (packet_of 3 message) (2 ∷ 0 ∷ 0 ∷ 1 ∷ []))).1.buffer
    ≡ message.bytes
transfer_any_order_bytes_example =
    transfer_any_order_bytes 3 message three_pos message-IsData any_rx 2 (0 ∷ 0 ∷ 1 ∷ [])
      any_rx-IsReady any_mode below_three all_sent

transfer_any_order_example :
    (is_error (receive 3 (accepted, any_rx) (map (packet_of 3 message) (2 ∷ 0 ∷ 0 ∷ 1 ∷ []))).0
      ≡ false)
    × (((receive 3
            (accepted, any_rx)
            (map (packet_of 3 message) (2 ∷ 0 ∷ 0 ∷ 1 ∷ []))).1.is_complete
          ≡ true)
        ↔ ((j : ℕ) → j < packets 3 message → contains j (2 ∷ 0 ∷ 0 ∷ 1 ∷ []) ≡ true))
transfer_any_order_example =
    transfer_any_order 3 message three_pos message-IsData any_rx 2 (0 ∷ 0 ∷ 1 ∷ []) any_rx-IsReady
      any_mode below_three

-- A receiver in the middle of the transfer, and a packet of another version.
abbrev open_rx : RxState
open_rx = opened any_rx (packet_of 3 message 0)

open_rx-Transfer : Transfer 3 open_rx
open_rx-Transfer =
    (opened-Belongs 3 message three_pos message-IsData any_rx 0 (omega (arith, three_packets))
      any_rx-IsReady).transfer

open_rx-IsValid : IsValid 3 three_pos open_rx
unfolding opened rx_init
open_rx-IsValid = record { storage = omega arith; transfer = λ e. open_rx-Transfer }

abbrev other_header : Header
other_header = record {
  crc = 0;
  version = 7;
  type_flags = 0;
  transfer_id = 9;
  packet_idx = 1;
  packet_count = 3;
  total_len = 7;
}

abbrev other_packet : Packet
other_packet = record { header = other_header; payload = 0 ∷ 0 ∷ 0 ∷ [] }

other_header-IsHeader : IsHeader other_header
other_header-IsHeader = record { total_word = omega arith; count_word = omega arith }

second-IsHeader : IsHeader (packet_of 3 message 1).header
unfolding packet_of calc_packet_count
second-IsHeader = record { total_word = omega arith; count_word = omega arith }

push-IsValid_example : IsValid 3 three_pos (push 3 open_rx (packet_of 3 message 1)).1
push-IsValid_example =
    push-IsValid 3 three_pos open_rx (packet_of 3 message 1) second-IsHeader open_rx-IsValid

push-Within_example : Within open_rx (push 3 open_rx (packet_of 3 message 1)).1
push-Within_example =
    push-Within 3 three_pos open_rx (packet_of 3 message 1) second-IsHeader open_rx-IsValid

other_refused : is_error (push 3 open_rx other_packet).0 ≡ true
unfolding push header_error is_header_valid is_error
other_refused = refl

open_rx_on : open_rx.is_active ≡ true
unfolding opened
open_rx_on = refl

push_refused_example : (push 3 open_rx other_packet).1 ≡ open_rx
push_refused_example =
    push_refused 3 three_pos open_rx other_packet other_header-IsHeader open_rx-IsValid open_rx_on
      other_refused

any_rx-IsValid : IsValid 3 three_pos any_rx
any_rx-IsValid = rx_init-IsValid 3 three_pos room 8 true (some (0 ∷ [])) (omega arith)

second_taken : is_error (push 3 any_rx (packet_of 3 message 1)).0 ≡ false
unfolding receive
second_taken =
    (transfer_any_order 3 message three_pos message-IsData any_rx 1 [] any_rx-IsReady any_mode
      (omega (arith, three_packets), tt)).0

push-IsIntact_example : IsIntact 3 three_pos (packet_of 3 message 1)
push-IsIntact_example =
    push-IsIntact 3 three_pos any_rx (packet_of 3 message 1) second-IsHeader any_rx-IsValid
      second_taken

tx_packets-tx_init_example :
    tx_packets 3 5 (tx_init 3 (some message.bytes) 7 9 0)
    ≡ some (packets_from 3 message 0 (packets 3 message))
tx_packets-tx_init_example =
    tx_packets-tx_init 3 message three_pos message-IsData 5 (omega (arith, three_packets))

seven-Splits : Splits 3 7 3
seven-Splits = record {
  some_packet = omega arith;
  word = omega arith;
  small = omega arith;
  enough = omega arith;
  tight = omega arith;
}
