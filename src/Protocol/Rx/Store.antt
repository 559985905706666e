-- ===== src/Protocol/Rx/Store.antt =====
-- What storing one more packet does to a transfer under way.
use ykb_firmware.Base.{
  ℕ, ◌+◌, ◌*◌, ◌%◌, ◌^◌, ◌≤◌, ◌<◌, ◌≡◌, ◌≢◌, refl, sym, ◌∙◌, Bool, true, false, ◌||◌, ◌==◌,
  if◌then◌else◌, arith, ℕ_discrete, length-copy_into, take, Bool-cases, inl, inr,
}
use ykb_firmware.Protocol.Packet.{Packet, payload_len_bounds, sent_bytes_all}
use ykb_firmware.Protocol.Rx.{
  RxState, accepted, complete, duplicate, out_of_order, is_error, stored, finish, store,
  test_bitmap,
}
use ykb_firmware.Protocol.Rx.Sums.{
  weigh, count_of, count_of-le, count_of_full, weigh-insert, weigh-sent, weigh-le_all,
}
use ykb_firmware.Protocol.Rx.Transfer.{
  Transfer, BitmapFits, has_seen, has_seen-stored, len_at, set_bitmap-BitmapFits,
}

-- The packet is one that the transfer waits for.
pub record IsFresh (rx : RxState) (p : Packet) : Type 0 where
  pub in_range : p.header.packet_idx < rx.packet_count
  pub unseen : has_seen rx p.header.packet_idx ≡ false
  pub next : rx.allow_out_of_order ≡ false → p.header.packet_idx ≡ rx.next_expected_packet_idx

module _ (mp : ℕ) (rx : RxState) (p : Packet) (t : Transfer mp rx) (fresh : IsFresh rx p) where
  seen_after : (j : ℕ) → has_seen (stored mp rx p) j ≡ (p.header.packet_idx == j || has_seen rx j)
  seen_after j = has_seen-stored mp rx p j t fresh.in_range fresh.next

  count_after : count_of (has_seen (stored mp rx p)) rx.packet_count ≡ rx.received_count + 1
  count_after = omega (
    arith,
    t.counted,
    weigh-insert (λ i. 1) (has_seen rx) (has_seen (stored mp rx p)) p.header.packet_idx
        rx.packet_count (λ j hj. seen_after j) fresh.unseen fresh.in_range,
  )

  sum_after :
      weigh (len_at mp rx) (has_seen (stored mp rx p)) rx.packet_count
      ≡ rx.received_bytes + len_at mp rx p.header.packet_idx
  sum_after = omega (
    arith,
    t.summed,
    weigh-insert (len_at mp rx) (has_seen rx) (has_seen (stored mp rx p)) p.header.packet_idx
        rx.packet_count (λ j hj. seen_after j) fresh.unseen fresh.in_range,
  )

  sum_bound : (f : ℕ → Bool) → weigh (len_at mp rx) f rx.packet_count ≤ rx.total_len
  sum_bound f = omega (
    arith,
    weigh-le_all (len_at mp rx) f rx.packet_count,
    weigh-sent mp rx.total_len rx.packet_count (λ i. true) rx.packet_count (λ i hi. refl),
    sent_bytes_all mp t.splits,
  )

  counters_after :
      ((stored mp rx p).received_count ≡ rx.received_count + 1)
      × ((stored mp rx p).received_bytes ≡ rx.received_bytes + len_at mp rx p.header.packet_idx)
  unfolding stored
  counters_after = (
    omega (
      arith,
      count_after,
      count_of-le (has_seen (stored mp rx p)) rx.packet_count,
      t.splits.small,
    ),
    omega (arith, sum_after, sum_bound (has_seen (stored mp rx p)), t.splits.word),
  )

  complete_sum :
      rx.received_count + 1 ≡ rx.packet_count
      → rx.received_bytes + len_at mp rx p.header.packet_idx ≡ rx.total_len
  complete_sum e =
      sym sum_after
      ∙ weigh-sent mp rx.total_len rx.packet_count (has_seen (stored mp rx p)) rx.packet_count
          (count_of_full (has_seen (stored mp rx p)) rx.packet_count (count_after ∙ e))
      ∙ sent_bytes_all mp t.splits

  not_done : rx.is_complete ≡ false
  not_done = ground (
    arith,
    t.done,
    t.counted,
    count_after,
    count_of-le (has_seen (stored mp rx p)) rx.packet_count,
  )

  -- The packet is stored, and the transfer is complete when it was the last one missing.
  pub finish-stored : finish (stored mp rx p) ≡ (
    if rx.received_count + 1 == rx.packet_count then complete else accepted,
    record (stored mp rx p) { is_complete = rx.received_count + 1 == rx.packet_count },
  )
  unfolding finish stored
  finish-stored = elim (Bool-cases (rx.received_count + 1 == rx.packet_count)) [
    | inl e ↦ ground (arith, counters_after, complete_sum)
    | inr e ↦ ground (arith, counters_after, not_done)
  ]

  in_order_after :
      rx.allow_out_of_order ≡ false → (stored mp rx p).next_expected_packet_idx ≤ rx.packet_count
  unfolding stored
  in_order_after e = ground (arith, fresh.next e, fresh.in_range, t.splits.small)

  bitmap_after :
      rx.allow_out_of_order ≡ true → BitmapFits (stored mp rx p).received_bitmap rx.packet_count
  unfolding stored
  bitmap_after e = rw e (
      set_bitmap-BitmapFits rx.received_bitmap p.header.packet_idx rx.packet_count fresh.in_range
        (t.bitmap e))

  pub stored-Transfer :
      Transfer mp
        (record (stored mp rx p) { is_complete = rx.received_count + 1 == rx.packet_count })
  unfolding stored has_seen
  stored-Transfer = record {
    splits = t.splits;
    room = t.room;
    storage = omega (
      arith,
      t.storage,
      length-copy_into rx.buffer (p.header.packet_idx * mp % 2 ^ 16)
          (take (len_at mp rx p.header.packet_idx) p.payload),
    );
    in_order = in_order_after;
    bitmap = bitmap_after;
    counted = counters_after.0 ∙ sym count_after;
    summed = counters_after.1 ∙ sym sum_after;
    done = rw (counters_after.0) refl;
  }

  pub finish-stored-Transfer : Transfer mp (finish (stored mp rx p)).1
  finish-stored-Transfer = rw finish-stored stored-Transfer

  -- Where the packet's bytes go: they fit the buffer, and the arithmetic does not wrap.
  pub offset_bounds :
      (p.header.packet_idx * mp % 2 ^ 16 ≡ p.header.packet_idx * mp)
      × (p.header.packet_idx * mp + len_at mp rx p.header.packet_idx ≤ rx.capacity)
  offset_bounds =
      let bounds = payload_len_bounds mp p.header.packet_idx t.splits fresh.in_range in
      (omega (arith, bounds.1, t.splits.word), omega (arith, bounds.1, t.room))

  pub store_fresh : store mp rx p ≡ finish (stored mp rx p)
  unfolding store has_seen
  store_fresh = elim (Bool-cases rx.allow_out_of_order) [
    | inl e ↦ ground (arith, offset_bounds, fresh.unseen)
    | inr e ↦ ground (arith, offset_bounds, fresh.next e)
  ]

  pub finish-stored_no_error : is_error (finish (stored mp rx p)).0 ≡ false
  unfolding is_error
  finish-stored_no_error = rw finish-stored (ground arith)

-- A packet of the transfer is new, a duplicate, or out of order.
pub data Stores (mp : ℕ) (rx : RxState) (p : Packet) : Type 0 where
  is_new : IsFresh rx p → Stores mp rx p
  is_duplicate :
      has_seen rx p.header.packet_idx ≡ true
      → rx.allow_out_of_order ≡ true
      → store mp rx p ≡ (duplicate, rx)
      → Stores mp rx p
  is_early :
      rx.allow_out_of_order ≡ false
      → p.header.packet_idx ≢ rx.next_expected_packet_idx
      → store mp rx p ≡ (out_of_order, rx)
      → Stores mp rx p

pub store-Stores :
    (mp : ℕ) (rx : RxState) (p : Packet) → p.header.packet_idx < rx.packet_count → Stores mp rx p
unfolding store has_seen
store-Stores mp rx p h = elim (Bool-cases rx.allow_out_of_order) [
  | inl e ↦ elim (Bool-cases (test_bitmap rx.received_bitmap p.header.packet_idx)) [
    | inl old ↦ is_duplicate (ground arith) e (ground arith)
    | inr new ↦ is_new (record { in_range = h; unseen = ground arith; next = λ o. cc })
  ]
  | inr e ↦ elim (ℕ_discrete p.header.packet_idx rx.next_expected_packet_idx) [
    | yes same ↦ is_new (record { in_range = h; unseen = ground arith; next = λ o. same })
    | no other ↦ is_early e other (ground arith)
  ]
]
