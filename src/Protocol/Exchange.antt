-- ===== src/Protocol/Exchange.antt =====
-- A message sent by ykb_protocol_tx_* and taken in by ykb_protocol_rx_push_packet.
pub mod Step
pub mod Delivery
use ykb_firmware.Base.{
  ℕ, zero, suc, ◌+◌, ◌-◌, ◌*◌, ◌%◌, ◌^◌, ◌≤◌, ◌<◌, min, ◌≡◌, refl, sym, ap, ◌∙◌, Bool, true, false,
  not, ◌&&◌, ◌||◌, Option, none, some, List, [], ◌∷◌, ltb, ◌==◌, ==_iff, ==_refl, ==_ne,
  if◌then◌else◌, take, drop, copy_into, replicate, length, get_or, arith, Bool-cases, inl, inr, ◌⊎◌,
  length-copy_into, get_or-copy_into_start, get_or-copy_into_out, get_or-take, get_or-drop,
  length-take, length-drop, length-replicate, ℕ_discrete,
}
use ykb_firmware.Protocol.Packet.{
  Header, Packet, Splits, flags_base, get_type, calc_packet_count, calc_packet_count-zero,
  payload_len_for_index, payload_len_bounds, payload_len-eq-min, compute_packet_crc,
  is_header_valid, type_data,
}
use ykb_firmware.Protocol.Bitmap.{bitmap_size_bytes}
use ykb_firmware.Protocol.Tx.{packet_flags}
use ykb_firmware.Protocol.Tx.Packets.{
  Message, IsData, packet_of, message-Splits, packet_flags_parts, total, packets,
}
use ykb_firmware.Protocol.Rx.{
  RxState, RxResult, accepted, complete, rx_begin_transfer, opened, mismatches, lacks_bitmap, push,
  admit,
}
use ykb_firmware.Protocol.Rx.Transfer.{Transfer, has_seen}
use ykb_firmware.Protocol.Rx.Valid.{IsIntact, has_seen-opened, opened-Transfer}

module _ (mp : ℕ) (m : Message) where
  -- A receiver that waits for a message, with room for this one.
  pub record IsReady (rx : RxState) : Type 0 where
    pub idle : rx.is_active ≡ false
    pub storage : rx.capacity ≤ length rx.buffer
    pub room : length m.bytes ≤ rx.capacity
    pub bitmap :
        rx.allow_out_of_order ≡ true
        → lacks_bitmap rx.received_bitmap (bitmap_size_bytes (packets mp m)) ≡ false

  -- The bytes of the packets that were seen are in the buffer.
  abbrev pub Holds : RxState → Type 0
  Holds rx =
      (i j : ℕ)
      → i < packets mp m
      → has_seen rx i ≡ true
      → j < payload_len_for_index mp (total mp m) i (packets mp m)
      → get_or rx.buffer (i * mp + j) 0 ≡ get_or m.bytes (i * mp + j) 0

  -- A receiver in the middle of this message.
  pub record Belongs (rx : RxState) : Type 0 where
    pub on : rx.is_active ≡ true
    pub same_id : rx.transfer_id ≡ m.transfer_id
    pub same_len : rx.total_len ≡ length m.bytes
    pub same_count : rx.packet_count ≡ packets mp m
    pub same_flags : rx.type_flags_base ≡ flags_base m.type_flags
    pub transfer : Transfer mp rx
    pub holds : Holds rx

  module _ (mp_pos : 0 < mp) (d : IsData m) where
    header_of_valid :
        (i : ℕ) → i < packets mp m → is_header_valid mp (packet_of mp m i).header ≡ true
    unfolding is_header_valid packet_of
    header_of_valid i h =
        let count = message-Splits mp m mp_pos d in
        ground (
          arith,
          (packet_flags_parts m.type_flags i (packets mp m) d.byte).1,
          d.kind,
          count_of_empty,
        )
      where
        count_of_empty : length m.bytes ≡ 0 → packets mp m ≡ 1
        count_of_empty e = rw e (calc_packet_count-zero mp)

    -- Every packet of the message passes the receiver's checks.
    pub packet_of-IsIntact : (i : ℕ) → i < packets mp m → IsIntact mp mp_pos (packet_of mp m i)
    unfolding packet_of compute_packet_crc
    packet_of-IsIntact i h = (
      header_of_valid i h,
      (packet_flags_parts m.type_flags i (packets mp m) d.byte).1 ∙ d.kind,
      refl,
    )

    pub length-payload : (i : ℕ) → length (packet_of mp m i).payload ≡ mp
    unfolding packet_of
    length-payload i = length-copy_into (replicate mp 0) 0 _ ∙ length-replicate mp 0

    -- The payload is the message's slice.
    pub slice :
        (i j : ℕ)
        → i < packets mp m
        → j < payload_len_for_index mp (total mp m) i (packets mp m)
        → get_or (packet_of mp m i).payload j 0 ≡ get_or m.bytes (i * mp + j) 0
    unfolding packet_of
    slice i j h l =
        let len = payload_len_for_index mp (total mp m) i (packets mp m) in
        let bounds = payload_len_bounds mp i (message-Splits mp m mp_pos d) h in
        let part = take len (drop (i * mp) m.bytes) in
        let part_len : length part ≡ len =
          omega (
            arith,
            length-take len (drop (i * mp) m.bytes),
            length-drop (i * mp) m.bytes,
            bounds,
          ) in
        get_or-copy_into_start (replicate mp 0) part j 0
          (omega (arith, part_len, bounds, length-replicate {A = ℕ} mp 0)) (omega (arith, part_len))
        ∙ get_or-take len j (drop (i * mp) m.bytes) 0 l
        ∙ get_or-drop (i * mp) j m.bytes 0

    -- A packet of the message goes on with the transfer.
    pub Belongs-matches :
        (rx : RxState) (i : ℕ) → Belongs rx → mismatches rx (packet_of mp m i).header ≡ false
    unfolding mismatches packet_of
    Belongs-matches rx i b = ground (
      arith,
      b.same_id,
      b.same_len,
      b.same_count,
      b.same_flags,
      (packet_flags_parts m.type_flags i (packets mp m) d.byte).0,
    )

    -- A receiver that is ready opens the transfer at whichever packet comes first.
    pub ready_begins :
        (rx : RxState) (i : ℕ) → IsReady rx → (rx_begin_transfer rx (packet_of mp m i)).0 ≡ accepted
    unfolding rx_begin_transfer packet_of
    ready_begins rx i r = elim (Bool-cases rx.allow_out_of_order) [
      | inl e ↦ ground (arith, r.bitmap e, r.room)
      | inr e ↦ ground (arith, r.room)
    ]

    pub opened-Belongs :
        (rx : RxState) (i : ℕ)
        → i < packets mp m
        → IsReady rx
        → Belongs (opened rx (packet_of mp m i))
    unfolding opened packet_of
    opened-Belongs rx i h r = record {
      on = refl;
      same_id = refl;
      same_len = refl;
      same_count = refl;
      same_flags = (packet_flags_parts m.type_flags i (packets mp m) d.byte).0;
      transfer =
          opened-Transfer mp mp_pos rx (packet_of mp m i) r.storage (message-Splits mp m mp_pos d)
            (ready_begins rx i r);
      holds = λ k j hk seen hj. cc (has_seen-opened mp mp_pos rx (packet_of mp m i) k);
    }
