-- ===== src/Protocol/Exchange/Step.antt =====
-- One packet of a message at a receiver.
use ykb_firmware.Base.{
  ℕ, ◌+◌, ◌*◌, ◌%◌, ◌^◌, ◌≤◌, ◌<◌, ◌≡◌, refl, sym, subst, ◌∙◌, true, false, ◌||◌, List, ◌≢◌, dec_lt,
  ◌==◌, ==_refl, if◌then◌else◌, take, copy_into, length, arith, inl, inr, ◌⊎◌, get_or-copy_into_in,
  get_or-copy_into_out, get_or-take, length-take, ℕ_discrete,
}
use ykb_firmware.Protocol.Packet.{payload_len_for_index, payload_len_bounds}
use ykb_firmware.Protocol.Tx.Packets.{Message, IsData, packet_of, message-Splits, total, packets}
use ykb_firmware.Protocol.Rx.{
  RxState, RxResult, accepted, complete, is_error, opened, rx_begin_transfer, push, admit, store,
  stored,
}
use ykb_firmware.Protocol.Rx.Transfer.{has_seen, has_seen-stored}
use ykb_firmware.Protocol.Rx.Store.{
  IsFresh, is_new, is_duplicate, is_early, store-Stores, stored-Transfer, store_fresh,
  finish-stored, offset_bounds,
}
use ykb_firmware.Protocol.Exchange.{
  IsReady, Belongs, Holds, slice, length-payload, packet_of-IsIntact, Belongs-matches, ready_begins,
  opened-Belongs,
}
use ykb_firmware.Protocol.Rx.Valid.{begin_accepted}

blocks : (mp i k : ℕ) → i < k → i * mp + mp ≤ k * mp
blocks mp i k h = grind arith

module _ (mp : ℕ) (m : Message) (mp_pos : 0 < mp) (d : IsData m) where
  abbrev len : ℕ → ℕ
  len i = payload_len_for_index mp (total mp m) i (packets mp m)

  -- Packets lie in different places of the buffer.
  apart :
      (i k j : ℕ)
      → i < packets mp m
      → k < packets mp m
      → i ≢ k
      → j < len k
      → (k * mp + j < i * mp) ⊎ (i * mp + len i ≤ k * mp + j)
  apart i k j hi hk ne hj =
      let s = message-Splits mp m mp_pos d in
      let bi = payload_len_bounds mp i s hi in
      let bk = payload_len_bounds mp k s hk in
      elim (dec_lt i k) [
        | yes l ↦ inr (omega (arith, blocks mp i k l, bi.0))
        | no l ↦ inl (omega (arith, blocks mp k i (omega arith), bk.0))
      ]

  module _ (rx : RxState) (i : ℕ) (h : i < packets mp m) (b : Belongs mp m rx)
      (fresh : IsFresh rx (packet_of mp m i)) where
    abbrev part : List ℕ
    part = take (len i) (packet_of mp m i).payload

    length-part : length part ≡ len i
    length-part = omega (
      arith,
      length-take (len i) (packet_of mp m i).payload,
      length-payload mp m mp_pos d i,
      payload_len_bounds mp i (message-Splits mp m mp_pos d) h,
    )

    same_len_at : payload_len_for_index mp rx.total_len i rx.packet_count ≡ len i
    same_len_at = rw (b.same_len, b.same_count)

    placed :
        (i * mp % 2 ^ 16 ≡ i * mp)
        × (i * mp + payload_len_for_index mp rx.total_len i rx.packet_count ≤ rx.capacity)
    unfolding packet_of
    placed = offset_bounds mp rx (packet_of mp m i) b.transfer fresh

    in_bounds : i * mp + length part ≤ length rx.buffer
    in_bounds = omega (arith, placed.1, same_len_at, length-part, b.transfer.storage)

    stored_buffer : (stored mp rx (packet_of mp m i)).buffer ≡ copy_into rx.buffer (i * mp) part
    unfolding stored packet_of
    stored_buffer = rw (placed.0, same_len_at)

    seen_after : (k : ℕ) → has_seen (stored mp rx (packet_of mp m i)) k ≡ (i == k || has_seen rx k)
    unfolding packet_of
    seen_after k = has_seen-stored mp rx (packet_of mp m i) k b.transfer fresh.in_range fresh.next

    stored-Holds : Holds mp m (stored mp rx (packet_of mp m i))
    stored-Holds k j hk seen hj = elim (ℕ_discrete i k) [
      | yes e ↦
          let hi : j < len i = subst (λ n. j < len n) (sym e) hj in
          let inside : j < length part = omega (arith, hi, length-part) in
          rw
            (
              ← e,
              stored_buffer,
              get_or-copy_into_in rx.buffer (i * mp) part j 0 in_bounds inside,
              get_or-take (len i) j (packet_of mp m i).payload 0 hi,
            )
            (slice mp m mp_pos d i j h hi)
      | no ne ↦
          let away = apart i k j h hk ne hj in
          rw
            (
              stored_buffer,
              get_or-copy_into_out rx.buffer (i * mp) part (k * mp + j) 0
                  (omega (arith, away, length-part)),
            )
            (b.holds k j hk (ground (arith, seen, seen_after k)) hj)
    ]

  -- What a packet of the message does to a receiver `rx` in its middle.
  pub record Advances (rx : RxState) (i : ℕ) (out : RxResult × RxState) : Type 0 where
    pub belongs : Belongs mp m out.1
    pub mode : out.1.allow_out_of_order ≡ rx.allow_out_of_order
    pub seen : (k : ℕ) → k < packets mp m → has_seen out.1 k ≡ (i == k || has_seen rx k)
    pub fine : is_error out.0 ≡ false
    pub told : has_seen rx i ≡ false → out.0 ≡ (if out.1.is_complete then complete else accepted)

  stored-Belongs :
      (rx : RxState) (i : ℕ)
      → i < packets mp m
      → (b : Belongs mp m rx) → IsFresh rx (packet_of mp m i)
      → Belongs mp m (record (stored mp rx (packet_of mp m i)) {
        is_complete = rx.received_count + 1 == rx.packet_count;
      })
  unfolding has_seen stored
  stored-Belongs rx i h b fresh = record {
    on = b.on;
    same_id = b.same_id;
    same_len = b.same_len;
    same_count = b.same_count;
    same_flags = b.same_flags;
    transfer = stored-Transfer mp rx (packet_of mp m i) b.transfer fresh;
    holds = stored-Holds rx i h b fresh;
  }

  stored_mode :
      (rx : RxState) (i : ℕ)
      → (stored mp rx (packet_of mp m i)).allow_out_of_order ≡ rx.allow_out_of_order
  unfolding stored
  stored_mode rx i = refl

  fresh-Advances :
      (rx : RxState) (i : ℕ)
      → i < packets mp m
      → Belongs mp m rx
      → IsFresh rx (packet_of mp m i)
      → Advances rx i (store mp rx (packet_of mp m i))
  unfolding has_seen is_error
  fresh-Advances rx i h b fresh =
      rw
        (
          store_fresh mp rx (packet_of mp m i) b.transfer fresh,
          finish-stored mp rx (packet_of mp m i) b.transfer fresh,
        )
        (record {
          belongs = stored-Belongs rx i h b fresh;
          mode = stored_mode rx i;
          seen = λ k hk. seen_after rx i h b fresh k;
          fine = ground arith;
          told = λ e. refl;
        })

  packet_of_index : (i : ℕ) → (packet_of mp m i).header.packet_idx ≡ i
  unfolding packet_of
  packet_of_index i = refl

  push-admit :
      (rx : RxState) (i : ℕ)
      → i < packets mp m
      → push mp rx (packet_of mp m i) ≡ admit mp rx (packet_of mp m i)
  unfolding push
  push-admit rx i h =
      let (valid, kind, sum) = packet_of-IsIntact mp m mp_pos d i h in
      simp (valid, kind, sum, ==_refl)

  admit-Belongs :
      (rx : RxState) (i : ℕ)
      → Belongs mp m rx
      → admit mp rx (packet_of mp m i) ≡ store mp rx (packet_of mp m i)
  unfolding admit
  admit-Belongs rx i b = simp (b.on, Belongs-matches mp m mp_pos d rx i b)

  admit_ready :
      (rx : RxState) (i : ℕ)
      → IsReady mp m rx
      → admit mp rx (packet_of mp m i) ≡ store mp (opened rx (packet_of mp m i)) (packet_of mp m i)
  unfolding admit is_error
  admit_ready rx i r = simp (r.idle, begins)
    where
      begins : rx_begin_transfer rx (packet_of mp m i) ≡ (accepted, opened rx (packet_of mp m i))
      begins = begin_accepted mp mp_pos rx (packet_of mp m i) (ready_begins mp m mp_pos d rx i r)

  -- Any packet of the message that is not early.
  pub store-Advances :
      (rx : RxState) (i : ℕ)
      → i < packets mp m
      → Belongs mp m rx
      → (rx.allow_out_of_order ≡ false → i ≡ rx.next_expected_packet_idx)
      → Advances rx i (store mp rx (packet_of mp m i))
  unfolding is_error
  store-Advances rx i h b o = elim (store-Stores mp rx (packet_of mp m i) in_range) [
    | is_new fresh ↦ fresh-Advances rx i h b fresh
    | is_duplicate old any e ↦ rw e (record {
      belongs = b;
      mode = refl;
      seen = λ k hk. again k (at_index old);
      fine = refl;
      told = λ x. cc (at_index old);
    })
    | is_early strict other e ↦ absurd (other (index ∙ o strict))
  ]
    where
      index : (packet_of mp m i).header.packet_idx ≡ i
      index = packet_of_index i

      in_range : (packet_of mp m i).header.packet_idx < rx.packet_count
      in_range = rw (index, b.same_count) h

      at_index : has_seen rx (packet_of mp m i).header.packet_idx ≡ true → has_seen rx i ≡ true
      at_index e = rw index at e

      again : (k : ℕ) → has_seen rx i ≡ true → has_seen rx k ≡ (i == k || has_seen rx k)
      again k e = ground arith

  -- In the middle of the message the receiver takes every packet of it that is not early.
  pub push-Belongs :
      (rx : RxState) (i : ℕ)
      → i < packets mp m
      → Belongs mp m rx
      → (rx.allow_out_of_order ≡ false → i ≡ rx.next_expected_packet_idx)
      → Advances rx i (push mp rx (packet_of mp m i))
  push-Belongs rx i h b o = rw (push-admit rx i h, admit-Belongs rx i b) (store-Advances rx i h b o)

  -- A ready receiver takes its first packet, which in order is packet 0.
  pub push_ready :
      (rx : RxState) (i : ℕ)
      → i < packets mp m
      → IsReady mp m rx
      → (rx.allow_out_of_order ≡ false → i ≡ 0)
      → Advances (opened rx (packet_of mp m i)) i (push mp rx (packet_of mp m i))
  unfolding opened
  push_ready rx i h r o =
      rw (push-admit rx i h, admit_ready rx i r)
        (store-Advances (opened rx (packet_of mp m i)) i h (opened-Belongs mp m mp_pos d rx i h r)
          o)
