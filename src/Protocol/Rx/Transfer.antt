-- ===== src/Protocol/Rx/Transfer.antt =====
-- A transfer under way: what the receiver's counters say of the packets that it has seen.
use ykb_firmware.Base.{
  ℕ, ◌*◌, ◌≤◌, ◌<◌, ◌≡◌, refl, Bool, true, false, ◌||◌, ◌==◌, Option, none, some, List,
  if◌then◌else◌, ltb, arith, length, length-replicate, Bool-cases, inl, inr,
}
use ykb_firmware.Protocol.Packet.{Packet, Splits, payload_len_for_index}
use ykb_firmware.Protocol.Bitmap.{
  IsBitmap, bitmap_clear_all, bitmap_set-IsBitmap, length-bitmap_set, bitmap_test-bitmap_set,
  bitmap_clear_all-IsBitmap, bitmap_test-bitmap_clear_all, bitmap_size_bytes,
}
use ykb_firmware.Protocol.Rx.{RxState, test_bitmap, set_bitmap, clear_bitmap, lacks_bitmap, stored}
use ykb_firmware.Protocol.Rx.Sums.{weigh, count_of}

-- The bitmap has a bit for each of `n` packets.
abbrev pub BitmapFits : Option (List ℕ) → ℕ → Type 0
BitmapFits none n = ⊥
BitmapFits (some bitmap) n = IsBitmap bitmap × (n ≤ 8 * length bitmap)

pub set_bitmap-BitmapFits :
    (o : Option (List ℕ)) (i n : ℕ) → i < n → BitmapFits o n → BitmapFits (set_bitmap o i) n
unfolding set_bitmap
set_bitmap-BitmapFits none i n h f = f
set_bitmap-BitmapFits (some bitmap) i n h f =
    (bitmap_set-IsBitmap bitmap i (omega arith) f.0, omega (arith, length-bitmap_set bitmap i))

pub test_bitmap-set_bitmap :
    (o : Option (List ℕ)) (i j n : ℕ)
    → i < n
    → BitmapFits o n
    → test_bitmap (set_bitmap o i) j ≡ (i == j || test_bitmap o j)
unfolding set_bitmap test_bitmap
test_bitmap-set_bitmap none i j n h f = absurd f
test_bitmap-set_bitmap (some bitmap) i j n h f = bitmap_test-bitmap_set bitmap i j f.0 (omega arith)

pub test_bitmap-clear_bitmap :
    (o : Option (List ℕ)) (i : ℕ) → test_bitmap (clear_bitmap o) i ≡ false
unfolding clear_bitmap test_bitmap
test_bitmap-clear_bitmap none i = refl
test_bitmap-clear_bitmap (some bitmap) i = bitmap_test-bitmap_clear_all bitmap i

pub clear_bitmap-BitmapFits :
    (o : Option (List ℕ)) (n : ℕ)
    → lacks_bitmap o (bitmap_size_bytes n) ≡ false
    → BitmapFits (clear_bitmap o) n
unfolding clear_bitmap lacks_bitmap bitmap_size_bytes bitmap_clear_all
clear_bitmap-BitmapFits none n h = cc
clear_bitmap-BitmapFits (some bitmap) n h =
    (bitmap_clear_all-IsBitmap bitmap, ground (arith, length-replicate {A = ℕ} (length bitmap) 0))

-- The receiver counts packet `i` as received.
unfoldable pub has_seen : RxState → ℕ → Bool
has_seen rx i =
    if rx.allow_out_of_order
    then test_bitmap rx.received_bitmap i
    else ltb i rx.next_expected_packet_idx

module _ (mp : ℕ) where
  -- The payload lengths of the transfer.
  abbrev pub len_at : RxState → ℕ → ℕ
  len_at rx i = payload_len_for_index mp rx.total_len i rx.packet_count

  pub record Transfer (rx : RxState) : Type 0 where
    pub splits : Splits mp rx.total_len rx.packet_count
    pub room : rx.total_len ≤ rx.capacity
    pub storage : rx.capacity ≤ length rx.buffer
    pub in_order : rx.allow_out_of_order ≡ false → rx.next_expected_packet_idx ≤ rx.packet_count
    pub bitmap : rx.allow_out_of_order ≡ true → BitmapFits rx.received_bitmap rx.packet_count
    pub counted : rx.received_count ≡ count_of (has_seen rx) rx.packet_count
    pub summed : rx.received_bytes ≡ weigh (len_at rx) (has_seen rx) rx.packet_count
    pub done : rx.is_complete ≡ (rx.received_count == rx.packet_count)

  -- A packet stored marks itself as seen, and no other.
  pub has_seen-stored :
      (rx : RxState) (p : Packet) (j : ℕ)
      → Transfer rx
      → p.header.packet_idx < rx.packet_count
      → (rx.allow_out_of_order ≡ false → p.header.packet_idx ≡ rx.next_expected_packet_idx)
      → has_seen (stored mp rx p) j ≡ (p.header.packet_idx == j || has_seen rx j)
  unfolding has_seen stored
  has_seen-stored rx p j t h o = elim (Bool-cases rx.allow_out_of_order) [
    | inl e ↦ rw e (
        test_bitmap-set_bitmap rx.received_bitmap p.header.packet_idx j rx.packet_count h
          (t.bitmap e))
    | inr e ↦ let at_next = o e in let small = t.splits.small in rw e (ground arith)
  ]
