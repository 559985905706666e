-- ===== src/Splitlink/Tests.antt =====
-- A message of seven bytes on slot 1, in packets of three, and the theorems at work on it.
use ykb_firmware.Base.{
  get_or, copy_into, ltb, ◌&&◌, zero, suc, ℕ, ◌≤◌, ◌≡◌, refl, Bool, true, false, Option, none, some,
  List, [], ◌∷◌, map, if◌then◌else◌, length, replicate, arith,
}
use ykb_firmware.Protocol.Crc.{crc16_update}
use ykb_firmware.Protocol.Packet.{
  Packet, payload_len_for_index, calc_packet_count, is_header_valid, get_type, compute_packet_crc,
  header_bytes, flags_base,
}
use ykb_firmware.Protocol.Bitmap.{bitmap_size_bytes, bitmap_test, bitmap_set, bitmap_clear_all}
use ykb_firmware.Protocol.Tx.{TxState, tx_has_more}
use ykb_firmware.Protocol.Tx.Packets.{packets, packets_from}
use ykb_firmware.Protocol.Rx.{
  rx_init, push, admit, rx_begin_transfer, opened, lacks_bitmap, store, stored, finish, mismatches,
  test_bitmap, set_bitmap, clear_bitmap, rx_reset, is_error,
}
use ykb_firmware.Splitlink.Wire.{
  header_of_bytes, le_field, wire_bytes, packet_len, read_packet, IsPadded,
}
use ykb_firmware.Splitlink.TxSlot.{
  TxSlot, tx_empty, transceiving, Answer, sent, no_memory, try_again, send_error, out, loaded,
  tx_slot_begin_transfer, tx_slot_work, prepare, after_send, is_transceiving,
}
use ykb_firmware.Splitlink.TxSlot.Sending.{
  run, delivered, ended, message_of, IsFree, run-tx_slot_begin_transfer, again, taken,
}
use ykb_firmware.Splitlink.RxSlot.{
  RxSlot, rx_empty, ready, master, Receiver, receives, rx_slot_work, frame, work, receiver_run,
  receiver_step, is_ready, on_receive, slot_receive, slot_push, slot_init, with_rx, or_else,
  slot_cleared, is_complete_result, put_slot,
}
use ykb_firmware.Splitlink.RxSlot.Delivery.{feed, IsOpen}
use ykb_firmware.Splitlink.RxSlot.Frames.{IsBytes}
use ykb_firmware.Splitlink.RxSlot.Sound.{IsIdle, receiver_run-Holding}
use ykb_firmware.Splitlink.Link.{sent_count, IsHandled, link_delivers}
use ykb_firmware.Splitlink.Slave.{Slave, send_values, value_bytes, word_bytes}
use ykb_firmware.Splitlink.Slave.Latest.{values_until_out, values_until_out-send_values}
use ykb_firmware.Splitlink.Master.{Master, script_slot_work, slot_packet_bytes}
use ykb_firmware.Splitlink.Master.Queue.{pending_from, script_slot_work-loaded}

abbrev message_bytes : List ℕ
message_bytes = 1 ∷ 2 ∷ 3 ∷ 4 ∷ 5 ∷ 6 ∷ 7 ∷ []

abbrev array : List ℕ
array = replicate 8 0

abbrev blank_packet : Packet
blank_packet = record {
  header = record {
    crc = 0;
    version = 1;
    type_flags = 0;
    transfer_id = 1;
    packet_idx = 0;
    packet_count = 1;
    total_len = 2;
  };
  payload = 5 ∷ 6 ∷ 0 ∷ [];
}

abbrev idle_tx : TxState
idle_tx = record {
  data_ptr = none;
  total_len = 0;
  offset = 0;
  transfer_id = 0;
  packet_count = 0;
  next_packet_idx = 0;
  type_flags_base = 0;
}

abbrev tx_slot_at : ℕ → TxSlot
tx_slot_at id = record {
  state = tx_empty;
  data_bytes = array;
  max_data_length = 8;
  tx = idle_tx;
  pending_packet = blank_packet;
  pending_packet_ready = false;
  id = id;
}

abbrev answers : List Answer
answers = sent ∷ no_memory ∷ sent ∷ try_again ∷ sent ∷ []

tx_slot_at-IsFree : (id : ℕ) → IsFree (tx_slot_at id) message_bytes
tx_slot_at-IsFree id = record {
  idle = refl;
  room = omega arith;
  storage = omega arith;
  word = omega arith;
}

three_packets : packets 3 (message_of (tx_slot_at 1) message_bytes) ≡ 3
unfolding calc_packet_count message_of
three_packets = refl

abbrev empty_slot : RxSlot
empty_slot = record {
  state = rx_empty;
  data_bytes = array;
  max_data_length = 8;
  bitmap = 0 ∷ [];
  rx = rx_init [] 0 false none;
}

abbrev node : Receiver
node = record { role = master; slot_of = λ id. empty_slot }

node-IsOpen : IsOpen 3 (message_of (tx_slot_at 1) message_bytes) true empty_slot
unfolding bitmap_size_bytes calc_packet_count message_of
node-IsOpen = record {
  idle = refl;
  room = omega arith;
  storage = omega arith;
  tracked = λ e. omega arith;
}

three_sent : packets 3 (message_of (tx_slot_at 1) message_bytes) ≤ sent_count answers
unfolding calc_packet_count message_of sent_count
three_sent = omega arith

on_values : receives master 1 ≡ true
unfolding receives
on_values = refl

link_delivers_example :
    let (frames, end) = run 3 answers (tx_slot_begin_transfer 3 (tx_slot_at 1) message_bytes).1 in
    let (works, node') = feed 3 true node frames in
    (end.state ≡ tx_empty)
    × (works ≡ 1 ∷ [])
    × IsHandled message_bytes (rx_slot_work master 1 (node'.slot_of 1))
link_delivers_example =
    link_delivers 3 true (tx_slot_at 1) message_bytes answers node (omega arith)
      (tx_slot_at-IsFree 1) tt three_sent on_values node-IsOpen

run-tx_slot_begin_transfer_example :
    let (begun, loaded_slot) = tx_slot_begin_transfer 3 (tx_slot_at 1) message_bytes in
    let (frames, end) = run 3 (sent ∷ send_error ∷ []) loaded_slot in
    let m = message_of (tx_slot_at 1) message_bytes in
    (begun ≡ true)
    × (frames
        ≡ map
            (wire_bytes 3)
            (packets_from 3 m 0 (delivered (packets 3 m) (sent ∷ send_error ∷ []))))
    × (end.state
        ≡ (if ended (packets 3 m) (sent ∷ send_error ∷ []) then tx_empty else transceiving))
run-tx_slot_begin_transfer_example =
    run-tx_slot_begin_transfer 3 (tx_slot_at 1) message_bytes (sent ∷ send_error ∷ []) (omega arith)
      (tx_slot_at-IsFree 1)

blank_packet-IsPadded : IsPadded 3 blank_packet
unfolding packet_len payload_len_for_index
blank_packet-IsPadded = record {
  array = refl;
  room = omega arith;
  zeros = λ j l h. zero_at j (omega arith);
}
  where
    zero_at : (j : ℕ) → j ≡ 2 → get_or blank_packet.payload j 0 ≡ 0
    zero_at j e = rw e refl

-- The frame of a message of two bytes.
abbrev two_frame : List ℕ
two_frame = 73 ∷ 131 ∷ 1 ∷ 12 ∷ 1 ∷ 0 ∷ 0 ∷ 1 ∷ 0 ∷ 2 ∷ 0 ∷ 5 ∷ 6 ∷ []

abbrev after_frame : Receiver
after_frame = receiver_run 3 true node (work 1 ∷ frame two_frame ∷ [])

after_frame_ready : (after_frame.slot_of 1).state ≡ ready
unfolding receiver_run receiver_step is_ready on_receive read_packet header_of_bytes le_field
    copy_into receives slot_receive slot_push slot_init with_rx or_else slot_cleared
    is_complete_result put_slot push is_header_valid get_type compute_packet_crc header_bytes
    crc16_update payload_len_for_index admit rx_begin_transfer opened lacks_bitmap bitmap_size_bytes
    calc_packet_count store stored finish mismatches flags_base test_bitmap set_bitmap bitmap_test
    bitmap_set clear_bitmap bitmap_clear_all rx_init rx_reset is_error
after_frame_ready = refl

abbrev all_small : List ℕ → Bool
all_small [] = true
all_small (x ∷ xs) = ltb x 256 && all_small xs

all_small-IsBytes : (xs : List ℕ) → all_small xs ≡ true → IsBytes xs
all_small-IsBytes [] h i = omega arith
all_small-IsBytes (x ∷ xs) h zero = ground arith
all_small-IsBytes (x ∷ xs) h (suc i) = all_small-IsBytes xs (ground arith) i

two_frame-IsBytes : IsBytes two_frame
two_frame-IsBytes = all_small-IsBytes two_frame refl

node-IsIdle : IsIdle 3 (omega arith) node
node-IsIdle = record { idle = λ id. refl; storage = λ id. omega arith }

receiver_run-Holding_example :
    let slot = after_frame.slot_of 1 in
    (slot.rx.is_complete ≡ true)
    × (slot.rx.total_len ≤ slot.max_data_length)
    × (slot.max_data_length ≤ length slot.data_bytes)
receiver_run-Holding_example =
    receiver_run-Holding 3 (omega arith) true node (work 1 ∷ frame two_frame ∷ []) 1 node-IsIdle
      (two_frame-IsBytes, tt) after_frame_ready

-- A slave in the middle of its last packet, with room for two values.
abbrev slave : Slave
slave = record {
  connected = true;
  values_tx = record (tx_slot_at 1) { state = transceiving; pending_packet_ready = true };
  battery_tx = tx_slot_at 7;
  scripts_request_tx = tx_slot_at 5;
  pending_values_tx_data = 9 ∷ 9 ∷ 9 ∷ 9 ∷ [];
  pending_values_tx_len = 4;
  pending_values_tx_ready = true;
  pending_battery_tx_state = 0 ∷ 0 ∷ [];
  pending_battery_tx_ready = false;
}

two_values_fit : length (value_bytes (513 ∷ 4 ∷ [])) ≤ 4
unfolding value_bytes word_bytes
two_values_fit = omega arith

slave_done : (run 3 (no_memory ∷ sent ∷ []) slave.values_tx).1.state ≡ tx_empty
unfolding run tx_slot_work prepare after_send is_transceiving again taken tx_has_more
slave_done = refl

values_until_out-send_values_example :
    let end =
      values_until_out 3 (no_memory ∷ sent ∷ []) (send_values 3 slave (some (513 ∷ 4 ∷ []))) in
    (end.values_tx
      ≡ loaded 3 (run 3 (no_memory ∷ sent ∷ []) slave.values_tx).1 (value_bytes (513 ∷ 4 ∷ [])))
    × (end.pending_values_tx_ready ≡ false)
values_until_out-send_values_example =
    values_until_out-send_values 3 slave (513 ∷ 4 ∷ []) (no_memory ∷ sent ∷ []) refl refl
      (omega arith) two_values_fit slave_done

-- A master that sends a script, with the slots 1 and 3 to follow.
abbrev flags : List Bool
flags = false ∷ true ∷ false ∷ true ∷ []

abbrev master_half : Master
master_half = record {
  connected = true;
  settings_tx = tx_slot_at 2;
  scripts_manifest_tx = tx_slot_at 4;
  script_slot_tx = record (tx_slot_at 6) { state = transceiving; pending_packet_ready = true };
  script_slot_sync_pending = flags;
}

abbrev scripts : ℕ → Option (List ℕ)
scripts slot = some (7 ∷ 7 ∷ [])

flags_pending : pending_from 0 flags ≡ 1 ∷ 3 ∷ []
unfolding pending_from
flags_pending = refl

master_done : (tx_slot_work 3 sent master_half.script_slot_tx).next ≡ out
unfolding tx_slot_work prepare after_send is_transceiving tx_has_more
master_done = refl

master_half-IsFree :
    IsFree (tx_slot_work 3 sent master_half.script_slot_tx).slot (slot_packet_bytes 1 (7 ∷ 7 ∷ []))
unfolding tx_slot_work prepare after_send is_transceiving tx_has_more slot_packet_bytes
master_half-IsFree = record {
  idle = refl;
  room = omega arith;
  storage = omega arith;
  word = omega arith;
}

script_slot_work-loaded_example :
    let s' = (script_slot_work 3 scripts sent master_half).1 in
    (s'.script_slot_tx
      ≡ loaded 3
          (tx_slot_work 3 sent master_half.script_slot_tx).slot
          (slot_packet_bytes 1 (7 ∷ 7 ∷ [])))
    × (pending_from 0 s'.script_slot_sync_pending ≡ 3 ∷ [])
script_slot_work-loaded_example =
    script_slot_work-loaded 3 scripts master_half sent 1 (3 ∷ []) (7 ∷ 7 ∷ []) refl flags_pending
      refl master_done master_half-IsFree

abbrev idle_master : Master
idle_master = record master_half { script_slot_tx = tx_slot_at 6 }

abbrev no_scripts : ℕ → Option (List ℕ)
no_scripts slot = none
