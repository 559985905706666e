-- ===== src/Protocol/Tx.antt =====
-- The sender of include/lib/ykb_protocol.h. `data` is NULL or the bytes of the message, and a
-- packet is built in a buffer of its own: `none` is the result `false`, with nothing changed.
pub mod Packets
use ykb_firmware.Base.{
  ℕ, zero, suc, ◌+◌, ◌-◌, ◌%◌, ◌^◌, Bool, ◌&&◌, Option, none, some, List, [], ◌∷◌, ltb, ◌==◌,
  if◌then◌else◌, bit_or, take, drop, copy_into, replicate,
}
use ykb_firmware.Protocol.Packet.{
  Header, Packet, protocol_version, flag_start, flag_end, flags_base, calc_packet_count,
  payload_len_for_index, compute_packet_crc,
}

pub record TxState : Type 0 where
  pub data_ptr : Option (List ℕ)
  pub total_len : ℕ
  pub offset : ℕ
  pub transfer_id : ℕ
  pub packet_count : ℕ
  pub next_packet_idx : ℕ
  pub type_flags_base : ℕ

-- `type_flags` of packet `idx`, with START on the first and END on the last.
unfoldable pub packet_flags : ℕ → ℕ → ℕ → ℕ
packet_flags base idx packet_count =
    let started = if idx == 0 then bit_or base flag_start else base in
    if idx == packet_count - 1 then bit_or started flag_end else started

-- The packet's payload once `payload_len` bytes of the message are copied into the zeroed packet.
unfoldable pub fill_payload : ℕ → Option (List ℕ) → ℕ → ℕ → List ℕ
unfolding copy_into
fill_payload max_payload none offset payload_len = replicate max_payload 0
fill_payload max_payload (some bytes) offset payload_len =
    copy_into (replicate max_payload 0) 0 (take payload_len (drop offset bytes))

-- `offset` moves only when bytes are copied.
unfoldable pub next_offset : Option (List ℕ) → ℕ → ℕ → ℕ
next_offset none offset payload_len = offset
next_offset (some bytes) offset payload_len = (offset + payload_len) % 2 ^ 16

unfoldable pub tx_has_more : TxState → Bool
tx_has_more tx = ltb tx.next_packet_idx tx.packet_count

module _ (max_payload : ℕ) where
  unfoldable pub tx_init : Option (List ℕ) → ℕ → ℕ → ℕ → TxState
  unfolding flags_base
  tx_init bytes total_len transfer_id type_flags = record {
    data_ptr = bytes;
    total_len = total_len;
    offset = 0;
    transfer_id = transfer_id;
    packet_count = calc_packet_count max_payload total_len;
    next_packet_idx = 0;
    type_flags_base = flags_base type_flags;
  }

  unfoldable pub tx_build_packet : TxState → Option (Packet × TxState)
  tx_build_packet tx =
      let len = payload_len_for_index max_payload tx.total_len tx.next_packet_idx tx.packet_count in
      let blank : Header = record {
        crc = 0;
        version = protocol_version;
        type_flags = packet_flags tx.type_flags_base tx.next_packet_idx tx.packet_count;
        transfer_id = tx.transfer_id;
        packet_idx = tx.next_packet_idx;
        packet_count = tx.packet_count;
        total_len = tx.total_len;
      } in
      let filled : Packet = record {
        header = blank;
        payload = fill_payload max_payload tx.data_ptr tx.offset len;
      } in
      let signed : Packet = record filled {
        header = record blank { crc = compute_packet_crc max_payload filled };
      } in
      if tx_has_more tx
      then some (
        signed,
        record tx {
          offset = next_offset tx.data_ptr tx.offset len;
          next_packet_idx = (tx.next_packet_idx + 1) % 2 ^ 16;
        },
      )
      else none

  -- The loop `while (tx_has_more(&tx)) { tx_build_packet(&tx, &packet); ... }` of the callers, the
  -- packets in order; `none` means that the fuel ran out.
  unfoldable pub tx_packets : ℕ → TxState → Option (List Packet)
  tx_packets zero tx = if tx_has_more tx then none else some []
  tx_packets (suc fuel) tx = elim (tx_build_packet tx) [
    | none ↦ some []
    | some (p, tx') ↦ elim (tx_packets fuel tx') [ none ↦ none | some ps ↦ some (p ∷ ps) ]
  ]
