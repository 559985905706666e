-- ===== src/Splitlink/RxSlot/Delivery.antt =====
-- A whole message on its way from the frames of the link to a receiving slot.
use ykb_firmware.Base.{
  ℕ, zero, suc, ◌+◌, ◌-◌, ◌*◌, ◌≤◌, ◌<◌, ◌≡◌, refl, sym, subst, ◌∙◌, ◌≢◌, Bool, true, false, none,
  some, List, [], ◌∷◌, map, ltb, if◌then◌else◌, take, drop, replicate, length, arith, inr, inl,
  Bool-cases, ==_refl, ==_ne, length-replicate, length-take, get_or-copy_into_out, get_or-replicate,
  get_or,
}
use ykb_firmware.Protocol.Packet.{Packet, payload_len_for_index, payload_len_bounds}
use ykb_firmware.Protocol.Bitmap.{bitmap_size_bytes, bitmap_clear_all}
use ykb_firmware.Protocol.Tx.Packets.{
  Message, IsData, packet_of, packets_from, packets, total, message-Splits,
}
use ykb_firmware.Protocol.Rx.{
  RxState, accepted, complete, is_error, opened, push, rx_init, lacks_bitmap, clear_bitmap,
}
use ykb_firmware.Protocol.Rx.Transfer.{has_seen}
use ykb_firmware.Protocol.Rx.Valid.{has_seen-opened}
use ykb_firmware.Protocol.Exchange.{IsReady, Belongs, length-payload}
use ykb_firmware.Protocol.Exchange.Step.{Advances, push-Belongs, push_ready}
use ykb_firmware.Protocol.Exchange.Delivery.{
  complete_of_seen, seen_of_complete, buffer_of_complete, next_seen, expected,
}
use ykb_firmware.Splitlink.Wire.{
  wire_bytes, packet_len, header_size, IsPadded, read_packet-wire_bytes,
}
use ykb_firmware.Splitlink.RxSlot.States.{receive_first, receive_on}
use ykb_firmware.Splitlink.RxSlot.{
  RxSlot, rx_empty, receiving, ready, with_rx, slot_init, slot_push, slot_receive,
  is_complete_result, Receiver, receives, put_slot, on_receive,
}

-- Frames handed to the receiver one after the other: the works that it submits, in order.
unfoldable pub feed : ℕ → Bool → Receiver → List (List ℕ) → List ℕ × Receiver
feed mp track node [] = ([], node)
feed mp track node (frame ∷ frames) =
    let (work, next) = on_receive mp track node frame in
    let (works, end) = feed mp track next frames in
    (elim work [ none ↦ works | some id ↦ id ∷ works ], end)

put_slot_same : (slots : ℕ → RxSlot) (id : ℕ) (slot : RxSlot) → put_slot slots id slot id ≡ slot
unfolding put_slot
put_slot_same slots id slot = rw (==_refl id) refl

put_slot_other :
    (slots : ℕ → RxSlot) (id : ℕ) (slot : RxSlot) (other : ℕ)
    → id ≢ other
    → put_slot slots id slot other ≡ slots other
unfolding put_slot
put_slot_other slots id slot other h = rw (==_ne id other h) refl

-- The slot that a packet goes to, and the others.
on_receive-wire_bytes :
    (mp : ℕ) (track : Bool) (node : Receiver) (p : Packet)
    → IsPadded mp p
    → receives node.role p.header.transfer_id ≡ true
    → on_receive mp track node (wire_bytes mp p) ≡ (
      if (slot_receive mp track (node.slot_of p.header.transfer_id) p).0
          then some p.header.transfer_id
          else none,
      record node {
        slot_of =
            put_slot node.slot_of p.header.transfer_id
              (slot_receive mp track (node.slot_of p.header.transfer_id) p).1;
      },
    )
unfolding on_receive
on_receive-wire_bytes mp track node p w r = simp (on_receive, read_packet-wire_bytes mp p w, r)

-- A slot that waits for its work, with the message in the array.
pub record IsFilled (m : Message) (slot : RxSlot) : Type 0 where
  pub state : slot.state ≡ ready
  pub finished : slot.rx.is_complete ≡ true
  pub total_len : slot.rx.total_len ≡ length m.bytes
  pub message : take (length m.bytes) slot.data_bytes ≡ m.bytes

-- A slot that waits for a message, with room for this one.
pub record IsOpen (mp : ℕ) (m : Message) (track : Bool) (slot : RxSlot) : Type 0 where
  pub idle : slot.state ≡ rx_empty
  pub room : length m.bytes ≤ slot.max_data_length
  pub storage : slot.max_data_length ≤ length slot.data_bytes
  pub tracked : track ≡ true → bitmap_size_bytes (packets mp m) ≤ length slot.bitmap

module _ (mp : ℕ) (m : Message) (mp_pos : 0 < mp) (d : IsData m) where
  abbrev len_at : ℕ → ℕ
  len_at i = payload_len_for_index mp (total mp m) i (packets mp m)

  packet_len-packet_of : (i : ℕ) → packet_len mp (packet_of mp m i) ≡ header_size + len_at i
  unfolding packet_len packet_of
  packet_len-packet_of i = refl

  zeros_after : (i j : ℕ) → len_at i ≤ j → j < mp → get_or (packet_of mp m i).payload j 0 ≡ 0
  unfolding packet_of
  zeros_after i j l h =
      get_or-copy_into_out (replicate mp 0) 0 _ j 0
        (inr (omega (arith, length-take (len_at i) (drop (i * mp) m.bytes))))
      ∙ get_or-replicate mp j 0 0 h

  -- The packets of a message are zero after their bytes.
  pub packet_of-IsPadded : (i : ℕ) → i < packets mp m → IsPadded mp (packet_of mp m i)
  packet_of-IsPadded i h = record {
    array = length-payload mp m mp_pos d i;
    room = omega (arith, packet_len-packet_of i, bound);
    zeros = λ j l hj. zeros_after i j (omega (arith, packet_len-packet_of i)) hj;
  }
    where
      bound : len_at i ≤ mp
      bound = (payload_len_bounds mp i (message-Splits mp m mp_pos d) h).0

  -- The slot of the message, with the receiver `rx` in it.
  slot_push_told :
      (slot : RxSlot) (p : Packet)
      → is_error (push mp slot.rx p).0 ≡ false
      → slot_push mp slot p ≡ (
          if is_complete_result (push mp slot.rx p).0
          then (true, record (with_rx slot (push mp slot.rx p).1) { state = ready })
          else (false, with_rx slot (push mp slot.rx p).1))
  unfolding slot_push
  slot_push_told slot p e = rw e refl

  -- A slot with the packets before `i` taken.
  record Taking (i : ℕ) (slot : RxSlot) : Type 0 where
    state : slot.state ≡ receiving
    belongs : Belongs mp m slot.rx
    seen : (j : ℕ) → j < packets mp m → has_seen slot.rx j ≡ ltb j i

  not_complete :
      (i : ℕ) (rx : RxState)
      → i < packets mp m
      → Belongs mp m rx
      → ((j : ℕ) → j < packets mp m → has_seen rx j ≡ ltb j i)
      → rx.is_complete ≡ false
  not_complete i rx h b seen = elim (Bool-cases rx.is_complete) [
    | inl e ↦ ground (arith, seen_of_complete mp m mp_pos d rx b e i h, seen i h)
    | inr e ↦ e
  ]

  -- Packet `i` pushed while packets are to come,
  push_middle :
      (i : ℕ) (slot : RxSlot) (before : RxState)
      → suc i < packets mp m
      → slot.state ≡ receiving
      → Advances mp m mp_pos d before i (push mp slot.rx (packet_of mp m i))
      → ((j : ℕ) → j < packets mp m → has_seen before j ≡ ltb j i)
      → (slot_push mp slot (packet_of mp m i)).0 ≡ false
        × Taking (suc i) (slot_push mp slot (packet_of mp m i)).1
  unfolding is_complete_result with_rx
  push_middle i slot before h state a seen =
      let seen' = next_seen mp m mp_pos d _ before i a seen in
      let open' = not_complete (suc i) _ h a.belongs seen' in
      let told : (push mp slot.rx (packet_of mp m i)).0 ≡ accepted =
        a.told (seen i (omega arith) ∙ ground arith) ∙ rw open' refl in
      rw (slot_push_told slot (packet_of mp m i) a.fine, told)
        (refl, record { state = state; belongs = a.belongs; seen = seen' })

  -- and as the last.
  push_last :
      (i : ℕ) (slot : RxSlot) (before : RxState)
      → suc i ≡ packets mp m
      → Advances mp m mp_pos d before i (push mp slot.rx (packet_of mp m i))
      → ((j : ℕ) → j < packets mp m → has_seen before j ≡ ltb j i)
      → (slot_push mp slot (packet_of mp m i)).0 ≡ true
        × IsFilled m (slot_push mp slot (packet_of mp m i)).1
  unfolding is_complete_result with_rx
  push_last i slot before h a seen =
      let seen' = next_seen mp m mp_pos d _ before i a seen in
      let closed = complete_of_seen mp m mp_pos d _ a.belongs (λ j hj. seen' j hj ∙ ground arith) in
      let told : (push mp slot.rx (packet_of mp m i)).0 ≡ complete =
        a.told (seen i (omega arith) ∙ ground arith) ∙ rw closed refl in
      rw (slot_push_told slot (packet_of mp m i) a.fine, told)
        (
          refl,
          record {
            state = refl;
            finished = closed;
            total_len = a.belongs.same_len;
            message = buffer_of_complete mp m mp_pos d _ a.belongs closed;
          },
        )

  slot_init-IsReady :
      (track : Bool) (slot : RxSlot)
      → IsOpen mp m track slot
      → IsReady mp m (slot_init track slot).rx
  unfolding slot_init with_rx rx_init clear_bitmap bitmap_clear_all lacks_bitmap
  slot_init-IsReady false slot o = record {
    idle = refl;
    storage = o.storage;
    room = o.room;
    bitmap = λ e. absurd (ground arith);
  }
  slot_init-IsReady true slot o = record {
    idle = refl;
    storage = o.storage;
    room = o.room;
    bitmap = λ e. ground (arith, o.tracked refl, length-replicate {A = ℕ} (length slot.bitmap) 0);
  }

  -- What the frames of the message leave: one work submitted, its slot filled, the others as they were.
  pub record IsReceived (node : Receiver) (done : List ℕ × Receiver) : Type 0 where
    pub works : done.0 ≡ m.transfer_id ∷ []
    pub filled : IsFilled m (done.1.slot_of m.transfer_id)
    pub others : (other : ℕ) → m.transfer_id ≢ other → done.1.slot_of other ≡ node.slot_of other

  module _ (track : Bool) where
    abbrev result_at : Receiver → ℕ → Bool × RxSlot
    result_at node i = slot_receive mp track (node.slot_of m.transfer_id) (packet_of mp m i)

    abbrev node_after : Receiver → RxSlot → Receiver
    node_after node slot = record node { slot_of = put_slot node.slot_of m.transfer_id slot }

    on_receive-packet_of :
        (node : Receiver) (i : ℕ)
        → i < packets mp m
        → receives node.role m.transfer_id ≡ true
        → on_receive mp track node (wire_bytes mp (packet_of mp m i)) ≡ (
          if (result_at node i).0 then some m.transfer_id else none,
          node_after node (result_at node i).1,
        )
    unfolding packet_of
    on_receive-packet_of node i h r =
        on_receive-wire_bytes mp track node (packet_of mp m i) (packet_of-IsPadded i h) r

    -- The last packet,
    feed_last :
        (node : Receiver) (i : ℕ)
        → i < packets mp m
        → receives node.role m.transfer_id ≡ true
        → ((result_at node i).0 ≡ true) × IsFilled m (result_at node i).1
        → IsReceived node (feed mp track node (map (wire_bytes mp) (packets_from mp m i 1)))
    unfolding feed packets_from
    feed_last node i h r (told, filled) =
        simp (on_receive-packet_of node i h r, told)
          (record {
            works = refl;
            filled =
                subst (IsFilled m)
                  (sym (put_slot_same node.slot_of m.transfer_id (result_at node i).1)) filled;
            others =
                λ other ne. put_slot_other node.slot_of m.transfer_id (result_at node i).1 other ne;
          })

    -- and one before it.
    feed_more :
        (node : Receiver) (i k : ℕ)
        → i < packets mp m
        → receives node.role m.transfer_id ≡ true
        → (result_at node i).0 ≡ false
        → IsReceived (node_after node (result_at node i).1) (
            feed mp track
              (node_after node (result_at node i).1)
              (map (wire_bytes mp) (packets_from mp m (suc i) k)))
        → IsReceived node (feed mp track node (map (wire_bytes mp) (packets_from mp m i (suc k))))
    unfolding feed packets_from
    feed_more node i k h r told later =
        simp (on_receive-packet_of node i h r, told)
          (record {
            works = later.works;
            filled = later.filled;
            others = λ other ne.
                later.others other ne
                ∙ put_slot_other node.slot_of m.transfer_id (result_at node i).1 other ne;
          })

    Taking-Advances :
        (i : ℕ) (slot : RxSlot)
        → i < packets mp m
        → Taking i slot
        → Advances mp m mp_pos d slot.rx i (push mp slot.rx (packet_of mp m i))
    Taking-Advances i slot h t =
        push-Belongs mp m mp_pos d slot.rx i h t.belongs
          (expected mp m mp_pos d slot.rx i h t.belongs t.seen)

    feed_rest :
        (k i : ℕ) (node : Receiver)
        → i + suc k ≡ packets mp m
        → receives node.role m.transfer_id ≡ true
        → Taking i (node.slot_of m.transfer_id)
        → IsReceived node (feed mp track node (map (wire_bytes mp) (packets_from mp m i (suc k))))
    feed_rest zero i node e r t =
        let slot = node.slot_of m.transfer_id in
        let a = Taking-Advances i slot (omega arith) t in
        feed_last node i (omega arith) r (
          rw (receive_on mp track slot (packet_of mp m i) t.state)
            (push_last i slot slot.rx (omega arith) a t.seen))
    feed_rest (suc k) i node e r t =
        let slot = node.slot_of m.transfer_id in
        let a = Taking-Advances i slot (omega arith) t in
        let (told, next) = push_middle i slot slot.rx (omega arith) t.state a t.seen in
        let on = receive_on mp track slot (packet_of mp m i) t.state in
        feed_more node i (suc k) (omega arith) r (rw on told) (
          feed_rest k (suc i) (node_after node (result_at node i).1) (omega arith) r (
            subst (Taking (suc i))
              (sym (put_slot_same node.slot_of m.transfer_id (result_at node i).1)) (rw on next)))

    -- The slot that the first packet is pushed to, and its receiver once the transfer is open.
    abbrev fresh : RxSlot → RxSlot
    fresh slot = record (slot_init track slot) { state = receiving }

    abbrev start : RxSlot → RxState
    start slot = opened (fresh slot).rx (packet_of mp m 0)

    first-Advances :
        (slot : RxSlot)
        → 0 < packets mp m
        → IsOpen mp m track slot
        → Advances mp m mp_pos d (start slot) 0 (push mp (fresh slot).rx (packet_of mp m 0))
    first-Advances slot h o =
        push_ready mp m mp_pos d (fresh slot).rx 0 h (slot_init-IsReady track slot o) (λ x. refl)

    start_seen : (slot : RxSlot) (j : ℕ) → j < packets mp m → has_seen (start slot) j ≡ ltb j 0
    start_seen slot j h =
        has_seen-opened mp mp_pos (fresh slot).rx (packet_of mp m 0) j ∙ ground arith

    feed_first :
        (n : ℕ) (node : Receiver)
        → suc n ≡ packets mp m
        → receives node.role m.transfer_id ≡ true
        → IsOpen mp m track (node.slot_of m.transfer_id)
        → IsReceived node (feed mp track node (map (wire_bytes mp) (packets_from mp m 0 (suc n))))
    feed_first zero node e r o =
        let slot = node.slot_of m.transfer_id in
        let on = receive_first mp track slot (packet_of mp m 0) o.idle in
        feed_last node 0 (omega arith) r (
          rw on (
            push_last 0 (fresh slot) (start slot) e (first-Advances slot (omega arith) o)
              (start_seen slot)))
    feed_first (suc k) node e r o =
        let slot = node.slot_of m.transfer_id in
        let on = receive_first mp track slot (packet_of mp m 0) o.idle in
        let (told, next) =
          push_middle 0 (fresh slot) (start slot) (omega arith) refl
            (first-Advances slot (omega arith) o) (start_seen slot) in
        feed_more node 0 (suc k) (omega arith) r (rw on told) (
          feed_rest k 1 (node_after node (result_at node 0).1) (omega arith) r (
            subst (Taking 1) (sym (put_slot_same node.slot_of m.transfer_id (result_at node 0).1))
              (rw on next)))

    -- All the frames of the message, in order, fill its slot.
    pub feed-packets_from :
        (node : Receiver)
        → receives node.role m.transfer_id ≡ true
        → IsOpen mp m track (node.slot_of m.transfer_id)
        → IsReceived node
            (feed mp track node (map (wire_bytes mp) (packets_from mp m 0 (packets mp m))))
    feed-packets_from node r o =
        let s = message-Splits mp m mp_pos d in
        let e : suc (packets mp m - 1) ≡ packets mp m = omega (arith, s.some_packet) in
        subst
          (λ n. IsReceived node (feed mp track node (map (wire_bytes mp) (packets_from mp m 0 n))))
          e (feed_first (packets mp m - 1) node e r o)
