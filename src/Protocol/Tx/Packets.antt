-- ===== src/Protocol/Tx/Packets.antt =====
-- The packets that the sender makes of a message, each as a function of its index.
use ykb_firmware.Base.{
  ℕ, zero, suc, ◌+◌, ◌*◌, ◌%◌, ◌^◌, ◌≤◌, ◌<◌, min, ◌≡◌, refl, Bool, true, false, ◌&&◌, none, some,
  List, [], ◌∷◌, ◌==◌, bit_or, take, drop, copy_into, replicate, length, arith, passes_table,
  law_of_table, lt→ltb,
}
use ykb_firmware.Protocol.Packet.{
  Header, Packet, Splits, protocol_version, flags_base, get_type, flag_start, flag_end,
  calc_packet_count, calc_packet_count-Splits, payload_len_for_index, payload_len_bounds,
  payload_len-eq-min, compute_packet_crc, type_data,
}
use ykb_firmware.Protocol.Tx.{
  TxState, tx_init, tx_build_packet, tx_packets, tx_has_more, packet_flags, fill_payload,
  next_offset,
}

-- START and END touch neither the type nor the other flags.
flags_law : ℕ → Bool
flags_law x =
    let b = flags_base x in
    let s = bit_or b flag_start in
    let e = bit_or b flag_end in
    let se = bit_or s flag_end in
    (flags_base b == b)
    && (flags_base s == b)
    && (flags_base e == b)
    && (flags_base se == b)
    && (get_type b == get_type x)
    && (get_type s == get_type x)
    && (get_type e == get_type x)
    && (get_type se == get_type x)

flags_table : passes_table flags_law 256 ≡ true
unfolding passes_table flags_law flags_base get_type
flags_table = refl

pub packet_flags_parts :
    (type_flags idx count : ℕ)
    → type_flags < 256
    → (flags_base (packet_flags (flags_base type_flags) idx count) ≡ flags_base type_flags)
      × (get_type (packet_flags (flags_base type_flags) idx count) ≡ get_type type_flags)
unfolding flags_law packet_flags
packet_flags_parts type_flags idx count h =
    ground (arith, law_of_table flags_law type_flags h flags_table)

-- The message and what the sender stamps on each of its packets.
pub record Message : Type 0 where
  pub bytes : List ℕ
  pub transfer_id : ℕ
  pub type_flags : ℕ

-- It fits the header's fields, and is data.
pub record IsData (m : Message) : Type 0 where
  pub word : length m.bytes < 2 ^ 16
  pub byte : m.type_flags < 256
  pub kind : get_type m.type_flags ≡ type_data

module _ (mp : ℕ) (m : Message) where
  abbrev pub total : ℕ
  total = length m.bytes

  abbrev pub packets : ℕ
  packets = calc_packet_count mp (length m.bytes)

  -- The sender before packet `i`.
  unfoldable pub tx_at : ℕ → TxState
  tx_at i = record {
    data_ptr = some m.bytes;
    total_len = length m.bytes;
    offset = min (i * mp) (length m.bytes);
    transfer_id = m.transfer_id;
    packet_count = calc_packet_count mp (length m.bytes);
    next_packet_idx = i;
    type_flags_base = flags_base m.type_flags;
  }

  abbrev header_of : ℕ → Header
  header_of i = record {
    crc = 0;
    version = protocol_version;
    type_flags = packet_flags (flags_base m.type_flags) i packets;
    transfer_id = m.transfer_id;
    packet_idx = i;
    packet_count = packets;
    total_len = total;
  }

  abbrev unsigned_packet : ℕ → Packet
  unsigned_packet i = record {
    header = header_of i;
    payload =
        copy_into (replicate mp 0) 0
          (take (payload_len_for_index mp total i packets) (drop (i * mp) m.bytes));
  }

  -- Packet `i` of the message, described with no state: its slice of the bytes, and the checksum.
  unfoldable pub packet_of : ℕ → Packet
  packet_of i = record (unsigned_packet i) {
    header = record (header_of i) { crc = compute_packet_crc mp (unsigned_packet i) };
  }

  -- The packets from `i` on.
  unfoldable pub packets_from : ℕ → ℕ → List Packet
  packets_from i zero = []
  packets_from i (suc k) = packet_of i ∷ packets_from (suc i) k

  module _ (mp_pos : 0 < mp) (d : IsData m) where
    pub message-Splits : Splits mp total packets
    message-Splits = calc_packet_count-Splits mp total mp_pos d.word

    pub start_at : (i : ℕ) → i < packets → min (i * mp) total ≡ i * mp
    start_at i h = omega (arith, payload_len_bounds mp i message-Splits h)

    pub next_at :
        (i : ℕ)
        → i < packets
        → (i * mp + payload_len_for_index mp total i packets) % 2 ^ 16 ≡ min (suc i * mp) total
    next_at i h = omega (
      arith,
      payload_len_bounds mp i message-Splits h,
      payload_len-eq-min mp i message-Splits h,
      message-Splits.word,
    )

    -- The sender builds packet `i` and moves on to the next.
    pub build_at :
        (i : ℕ) → i < packets → tx_build_packet mp (tx_at i) ≡ some (packet_of i, tx_at (suc i))
    unfolding tx_build_packet tx_at packet_of fill_payload next_offset tx_has_more
    build_at i h =
        let small : (i + 1) % 2 ^ 16 ≡ suc i = omega (arith, message-Splits.small) in
        rw (start_at i h, lt→ltb i packets h, small, next_at i h)

    pub build_end : tx_build_packet mp (tx_at packets) ≡ none
    unfolding tx_build_packet tx_at tx_has_more
    build_end = ground arith

    more_end : tx_has_more (tx_at packets) ≡ false
    unfolding tx_at tx_has_more
    more_end = ground arith

    pub tx_packets_at :
        (fuel i k : ℕ)
        → k ≤ fuel
        → i + k ≡ packets
        → tx_packets mp fuel (tx_at i) ≡ some (packets_from i k)
    unfolding tx_packets packets_from
    tx_packets_at zero i zero h e = rw (at_end, more_end)
      where
        at_end : i ≡ packets
        at_end = omega arith
    tx_packets_at (suc fuel) i zero h e = rw (at_end, build_end, tx_packets)
      where
        at_end : i ≡ packets
        at_end = omega arith
    tx_packets_at zero i (suc k) h e = absurd (omega arith)
    tx_packets_at (suc fuel) i (suc k) h e =
        rw (build_at i (omega arith), tx_packets)
          (rw (tx_packets_at fuel (suc i) k (omega arith) (omega arith)))

    pub tx_init-tx_at : tx_init mp (some m.bytes) total m.transfer_id m.type_flags ≡ tx_at 0
    unfolding tx_init tx_at
    tx_init-tx_at = ground arith

    -- The sender's loop ends, and makes exactly the packets of the message in order.
    pub tx_packets-tx_init :
        (fuel : ℕ)
        → packets ≤ fuel
        → tx_packets mp fuel (tx_init mp (some m.bytes) total m.transfer_id m.type_flags)
          ≡ some (packets_from 0 packets)
    tx_packets-tx_init fuel h = rw tx_init-tx_at (tx_packets_at fuel 0 packets h (omega arith))
