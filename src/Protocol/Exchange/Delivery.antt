-- ===== src/Protocol/Exchange/Delivery.antt =====
-- Whole messages: what a receiver ends with, in order and in any order.
use native.Mathlib.Nat.{div-add-mod', mod-lt, div-lt_iff_lt-mul}
use ykb_firmware.Base.{
  ℕ, zero, suc, ◌+◌, ◌-◌, ◌*◌, ◌/◌, ◌%◌, ◌≤◌, ◌<◌, ◌≡◌, refl, sym, subst, ◌∙◌, Bool, true, false,
  ◌||◌, some, List, [], ◌∷◌, ltb, ◌==◌, if◌then◌else◌, take, length, get_or, arith, ◌↔◌, ◌≢◌, map,
  get_or-take, length-take, eq_of_get_or, dec_lt,
}
use ykb_firmware.Protocol.Packet.{Packet, payload_len_for_index, payload_len-eq-min}
use ykb_firmware.Protocol.Tx.{tx_init, tx_packets}
use ykb_firmware.Protocol.Tx.Packets.{
  Message, IsData, packet_of, packets_from, message-Splits, total, packets, tx_packets-tx_init,
}
use ykb_firmware.Protocol.Rx.{RxState, RxResult, accepted, complete, is_error, push, opened}
use ykb_firmware.Protocol.Rx.Sums.{count_of, count_of_full, count_of_all}
use ykb_firmware.Protocol.Rx.Transfer.{has_seen}
use ykb_firmware.Protocol.Rx.Valid.{has_seen-opened}
use ykb_firmware.Protocol.Exchange.{IsReady, Belongs}
use ykb_firmware.Protocol.Exchange.Step.{Advances, push-Belongs, push_ready}

abbrev pub contains : ℕ → List ℕ → Bool
contains j [] = false
contains j (i ∷ is) = i == j || contains j is

abbrev pub AllBelow : ℕ → List ℕ → Type 0
AllBelow n [] = Unit
AllBelow n (i ∷ is) = (i < n) × AllBelow n is

opened_mode : (rx : RxState) (p : Packet) → (opened rx p).allow_out_of_order ≡ rx.allow_out_of_order
unfolding opened
opened_mode rx p = refl

true≢false : true ≢ false
true≢false e = cc

-- Packets handed to the receiver one after the other, with the result of the last.
unfoldable pub receive : ℕ → RxResult × RxState → List Packet → RxResult × RxState
receive mp out [] = out
receive mp out (p ∷ ps) = receive mp (push mp out.1 p) ps

module _ (mp : ℕ) (m : Message) (mp_pos : 0 < mp) (d : IsData m) where
  -- A transfer is complete exactly when each packet was seen.
  pub complete_of_seen :
      (rx : RxState)
      → Belongs mp m rx
      → ((j : ℕ) → j < packets mp m → has_seen rx j ≡ true)
      → rx.is_complete ≡ true
  complete_of_seen rx b all =
      let full = count_of_all (has_seen rx) (packets mp m) all in
      let counted : rx.received_count ≡ count_of (has_seen rx) (packets mp m) =
        subst (λ n. rx.received_count ≡ count_of (has_seen rx) n) b.same_count b.transfer.counted in
      b.transfer.done ∙ ground (arith, counted, full, b.same_count)

  pub seen_of_complete :
      (rx : RxState)
      → Belongs mp m rx
      → rx.is_complete ≡ true
      → (j : ℕ) → j < packets mp m
      → has_seen rx j ≡ true
  seen_of_complete rx b e =
      let counted : rx.received_count ≡ count_of (has_seen rx) (packets mp m) =
        subst (λ n. rx.received_count ≡ count_of (has_seen rx) n) b.same_count b.transfer.counted in
      count_of_full (has_seen rx) (packets mp m)
        (ground (arith, counted, b.same_count, b.transfer.done))

  -- A complete receiver holds the message.
  pub buffer_of_complete :
      (rx : RxState)
      → Belongs mp m rx
      → rx.is_complete ≡ true
      → take (length m.bytes) rx.buffer ≡ m.bytes
  buffer_of_complete rx b e =
      eq_of_get_or (take (length m.bytes) rx.buffer) m.bytes 0 same_length at
    where
      same_length : length (take (length m.bytes) rx.buffer) ≡ length m.bytes
      same_length = omega (
        arith,
        length-take (length m.bytes) rx.buffer,
        b.transfer.storage,
        b.transfer.room,
        b.same_len,
      )

      at :
          (p : ℕ)
          → p < length (take (length m.bytes) rx.buffer)
          → get_or (take (length m.bytes) rx.buffer) p 0 ≡ get_or m.bytes p 0
      at p h =
          let hp : p < length m.bytes = omega (arith, same_length, h) in
          let i = p / mp in
          let j = p % mp in
          let here : i * mp + j ≡ p = div-add-mod' p mp in
          let s = message-Splits mp m mp_pos d in
          let hi : i < packets mp m = (div-lt_iff_lt-mul mp_pos).1 (omega (arith, s.enough)) in
          let hj : j < payload_len_for_index mp (total mp m) i (packets mp m) =
            omega (arith, payload_len-eq-min mp i s hi, mod-lt p mp_pos) in
          get_or-take (length m.bytes) p rx.buffer 0 hp
          ∙ subst (λ q. get_or rx.buffer q 0 ≡ get_or m.bytes q 0) here
              (b.holds i j hi (seen_of_complete rx b e i hi) hj)

  pub next_seen :
      (out : RxResult × RxState) (rx : RxState) (i : ℕ)
      → Advances mp m mp_pos d rx i out
      → ((j : ℕ) → j < packets mp m → has_seen rx j ≡ ltb j i)
      → (j : ℕ) → j < packets mp m
      → has_seen out.1 j ≡ ltb j (suc i)
  next_seen out rx i a seen j h = ground (arith, a.seen j h, seen j h)

  -- In order, the next packet is the first that was not seen.
  pub expected :
      (rx : RxState) (i : ℕ)
      → i < packets mp m
      → Belongs mp m rx
      → ((j : ℕ) → j < packets mp m → has_seen rx j ≡ ltb j i)
      → rx.allow_out_of_order ≡ false
      → i ≡ rx.next_expected_packet_idx
  unfolding has_seen
  expected rx i h b seen strict = elim (dec_lt i rx.next_expected_packet_idx) [
    | yes l ↦ ground (arith, seen i h)
    | no l ↦ elim (dec_lt rx.next_expected_packet_idx i) [
      | yes g ↦ ground (arith, seen rx.next_expected_packet_idx (omega arith))
      | no g ↦ omega arith
    ]
  ]

  -- What a receiver has at the end of the message.
  pub record IsDelivered (out : RxResult × RxState) : Type 0 where
    pub result : out.0 ≡ complete
    pub finished : out.1.is_complete ≡ true
    pub message : take (length m.bytes) out.1.buffer ≡ m.bytes

  deliver_rest :
      (k i : ℕ) (out : RxResult × RxState)
      → i + k ≡ packets mp m
      → Belongs mp m out.1
      → ((j : ℕ) → j < packets mp m → has_seen out.1 j ≡ ltb j i)
      → out.0 ≡ (if out.1.is_complete then complete else accepted)
      → IsDelivered (receive mp out (packets_from mp m i k))
  unfolding receive packets_from
  deliver_rest zero i out e b seen told =
      let finished = complete_of_seen out.1 b (λ j h. seen j h ∙ ground arith) in
      record {
        result = told ∙ ground arith;
        finished = finished;
        message = buffer_of_complete out.1 b finished;
      }
  deliver_rest (suc k) i out e b seen told =
      let a =
        push-Belongs mp m mp_pos d out.1 i (omega arith) b
          (expected out.1 i (omega arith) b seen) in
      deliver_rest k (suc i) (push mp out.1 (packet_of mp m i)) (omega arith) a.belongs
        (next_seen _ out.1 i a seen) (a.told (seen i (omega arith) ∙ ground arith))

  deliver_all :
      (rx : RxState) (n : ℕ)
      → IsReady mp m rx
      → packets mp m ≡ suc n
      → IsDelivered (receive mp (accepted, rx) (packets_from mp m 0 (suc n)))
  unfolding receive packets_from
  deliver_all rx n r e =
      let a = push_ready mp m mp_pos d rx 0 (omega arith) r (λ x. refl) in
      let none_seen = has_seen-opened mp mp_pos rx (packet_of mp m 0) in
      deliver_rest n 1 (push mp rx (packet_of mp m 0)) (omega arith) a.belongs
        (next_seen _ (opened rx (packet_of mp m 0)) 0 a (λ j h. none_seen j ∙ ground arith))
        (a.told (none_seen 0))

  -- For a data message below 2 ^ 16 bytes and fuel for its packets, the sender's loop ends, and the
  -- packets that it makes, handed over in order, leave the message in the buffer of a ready receiver.
  pub transfer_in_order :
      (rx : RxState) (fuel : ℕ)
      → IsReady mp m rx
      → packets mp m ≤ fuel
      → (ps : List Packet) × (tx_packets mp fuel
            (tx_init mp (some m.bytes) (length m.bytes) m.transfer_id m.type_flags)
          ≡ some ps)
        × IsDelivered (receive mp (accepted, rx) ps)
  transfer_in_order rx fuel r h =
      let s = message-Splits mp m mp_pos d in
      let e : packets mp m ≡ suc (packets mp m - 1) = omega (arith, s.some_packet) in
      (
        packets_from mp m 0 (packets mp m),
        tx_packets-tx_init mp m mp_pos d fuel h,
        subst (λ n. IsDelivered (receive mp (accepted, rx) (packets_from mp m 0 n))) (sym e)
            (deliver_all rx (packets mp m - 1) r e),
      )

  -- The receiver has seen the packets that `f` accepts, and reported no error.
  record HasSeen (f : ℕ → Bool) (out : RxResult × RxState) : Type 0 where
    belongs : Belongs mp m out.1
    any_order : out.1.allow_out_of_order ≡ true
    fine : is_error out.0 ≡ false
    seen : (j : ℕ) → j < packets mp m → has_seen out.1 j ≡ f j

  step_any :
      (f : ℕ → Bool) (rx : RxState) (i : ℕ) (out : RxResult × RxState)
      → rx.allow_out_of_order ≡ true
      → ((j : ℕ) → j < packets mp m → has_seen rx j ≡ f j)
      → Advances mp m mp_pos d rx i out
      → HasSeen (λ j. i == j || f j) out
  step_any f rx i out any seen a = record {
    belongs = a.belongs;
    any_order = a.mode ∙ any;
    fine = a.fine;
    seen = λ j h. ground (arith, a.seen j h, seen j h);
  }

  deliver_any :
      (is : List ℕ) (f : ℕ → Bool) (out : RxResult × RxState)
      → AllBelow (packets mp m) is
      → HasSeen f out
      → HasSeen (λ j. f j || contains j is) (receive mp out (map (packet_of mp m) is))
  unfolding receive
  deliver_any [] f out b h = record {
    belongs = h.belongs;
    any_order = h.any_order;
    fine = h.fine;
    seen = λ j l. ground (arith, h.seen j l);
  }
  deliver_any (i ∷ is) f out b h =
      let a =
        push-Belongs mp m mp_pos d out.1 i b.0 h.belongs
          (λ strict. absurd (true≢false (sym h.any_order ∙ strict))) in
      let later =
        deliver_any is (λ j. i == j || f j) (push mp out.1 (packet_of mp m i)) b.1
          (step_any f out.1 i _ h.any_order h.seen a) in
      record {
        belongs = later.belongs;
        any_order = later.any_order;
        fine = later.fine;
        seen = λ j l. ground (arith, later.seen j l);
      }

  any_order_parts :
      (rx : RxState) (i : ℕ) (is : List ℕ)
      → IsReady mp m rx
      → rx.allow_out_of_order ≡ true
      → AllBelow (packets mp m) (i ∷ is)
      → let out = receive mp (accepted, rx) (map (packet_of mp m) (i ∷ is)) in
        (is_error out.0 ≡ false)
        × ((out.1.is_complete ≡ true) ↔ ((j : ℕ) → j < packets mp m → contains j (i ∷ is) ≡ true))
        × (out.1.is_complete ≡ true → take (length m.bytes) out.1.buffer ≡ m.bytes)
  unfolding receive
  any_order_parts rx i is r any b =
      let a =
        push_ready mp m mp_pos d rx i b.0 r (λ strict. absurd (true≢false (sym any ∙ strict))) in
      let first =
        step_any (λ j. false) (opened rx (packet_of mp m i)) i _ (opened_mode rx _ ∙ any)
          (λ j l. has_seen-opened mp mp_pos rx (packet_of mp m i) j) a in
      let end = deliver_any is (λ j. i == j || false) (push mp rx (packet_of mp m i)) b.1 first in
      (
        end.fine,
        (
          λ e j l. ground (arith, end.seen j l, seen_of_complete _ end.belongs e j l),
          λ all. complete_of_seen _ end.belongs (λ j l. ground (arith, end.seen j l, all j l)),
        ),
        buffer_of_complete _ end.belongs,
      )

  -- Packets of the message, some of them perhaps missing or sent again, are handed in any order to a ready receiver that tracks them by its bitmap. The last one is not refused, and the transfer is then complete exactly when every packet of the message is among them.
  pub transfer_any_order :
      (rx : RxState) (i : ℕ) (is : List ℕ)
      → IsReady mp m rx
      → rx.allow_out_of_order ≡ true
      → AllBelow (packets mp m) (i ∷ is)
      → let out = receive mp (accepted, rx) (map (packet_of mp m) (i ∷ is)) in
        (is_error out.0 ≡ false)
        × ((out.1.is_complete ≡ true) ↔ ((j : ℕ) → j < packets mp m → contains j (i ∷ is) ≡ true))
  transfer_any_order rx i is r any b =
      let parts = any_order_parts rx i is r any b in (parts.0, parts.1)

  -- When every packet of the message has come, in any order and perhaps more than once, the buffer holds the message.
  pub transfer_any_order_bytes :
      (rx : RxState) (i : ℕ) (is : List ℕ)
      → IsReady mp m rx
      → rx.allow_out_of_order ≡ true
      → AllBelow (packets mp m) (i ∷ is)
      → ((j : ℕ) → j < packets mp m → contains j (i ∷ is) ≡ true)
      → take (length m.bytes) (receive mp (accepted, rx) (map (packet_of mp m) (i ∷ is))).1.buffer
        ≡ m.bytes
  transfer_any_order_bytes rx i is r any b all =
      let parts = any_order_parts rx i is r any b in parts.2 (parts.1.1 all)
