-- ===== src/Protocol/Rx/Valid.antt =====
-- The invariant of a receiver over every packet, and what its errors leave unchanged.
use ykb_firmware.Base.{
  ℕ, ◌^◌, ◌≤◌, ◌<◌, ◌≡◌, refl, sym, subst, Bool, true, false, ==_ne, ==_refl, ℕ_discrete, Option,
  List, arith, length, ◌⊎◌, Bool-cases, inl, inr,
}
use ykb_firmware.Protocol.Packet.{
  Header, Packet, Splits, is_header_valid, calc_packet_count, get_type, type_data,
  compute_packet_crc, calc_packet_count-Splits,
}
use ykb_firmware.Protocol.Rx.{
  RxState, RxResult, accepted, transfer_mismatch, is_error, opened, store, admit, push, rx_init,
  rx_reset, rx_begin_transfer, mismatches, header_error, lacks_bitmap,
}
use ykb_firmware.Protocol.Bitmap.{bitmap_size_bytes}
use ykb_firmware.Protocol.Rx.Sums.{weigh-none}
use ykb_firmware.Protocol.Rx.Transfer.{
  Transfer, BitmapFits, has_seen, clear_bitmap-BitmapFits, test_bitmap-clear_bitmap,
}
use ykb_firmware.Protocol.Rx.Store.{
  store-Stores, is_new, is_duplicate, is_early, store_fresh, finish-stored-Transfer,
  finish-stored_no_error,
}

-- The sixteen-bit fields of a header.
pub record IsHeader (h : Header) : Type 0 where
  pub total_word : h.total_len < 2 ^ 16
  pub count_word : h.packet_count < 2 ^ 16

module _ (mp : ℕ) (mp_pos : 0 < mp) where
  pub record IsValid (rx : RxState) : Type 0 where
    pub storage : rx.capacity ≤ length rx.buffer
    pub transfer : rx.is_active ≡ true → Transfer mp rx

  header_facts :
      (h : Header)
      → is_header_valid mp h ≡ true
      → (calc_packet_count mp h.total_len ≡ h.packet_count) × (h.packet_idx < h.packet_count)
  unfolding is_header_valid calc_packet_count
  header_facts h v = (ground arith, ground arith)

  -- A header that the code accepts splits its message and names one of its packets.
  pub valid_header :
      (h : Header)
      → IsHeader h
      → is_header_valid mp h ≡ true
      → Splits mp h.total_len h.packet_count × (h.packet_idx < h.packet_count)
  valid_header h w v =
      let (count, index) = header_facts h v in
      (
        subst (Splits mp h.total_len) count
            (calc_packet_count-Splits mp h.total_len mp_pos w.total_word),
        index,
      )

  pub has_seen-opened : (rx : RxState) (p : Packet) (i : ℕ) → has_seen (opened rx p) i ≡ false
  unfolding has_seen opened
  has_seen-opened rx p i = elim (Bool-cases rx.allow_out_of_order) [
    | inl e ↦ rw e (test_bitmap-clear_bitmap rx.received_bitmap i)
    | inr e ↦ rw e (ground arith)
  ]

  begin_bounds :
      (rx : RxState) (p : Packet)
      → (rx_begin_transfer rx p).0 ≡ accepted
      → (p.header.total_len ≤ rx.capacity)
        × (rx.allow_out_of_order ≡ true
            → lacks_bitmap rx.received_bitmap (bitmap_size_bytes p.header.packet_count) ≡ false)
  unfolding rx_begin_transfer
  begin_bounds rx p e = (ground arith, λ o. ground arith)

  opened_bitmap :
      (rx : RxState) (p : Packet)
      → (rx_begin_transfer rx p).0 ≡ accepted
      → rx.allow_out_of_order ≡ true
      → BitmapFits (opened rx p).received_bitmap p.header.packet_count
  unfolding opened
  opened_bitmap rx p e o =
      rw o (
        clear_bitmap-BitmapFits rx.received_bitmap p.header.packet_count
          ((begin_bounds rx p e).1 o))

  pub opened-Transfer :
      (rx : RxState) (p : Packet)
      → rx.capacity ≤ length rx.buffer
      → Splits mp p.header.total_len p.header.packet_count
      → (rx_begin_transfer rx p).0 ≡ accepted
      → Transfer mp (opened rx p)
  unfolding opened
  opened-Transfer rx p s h e = record {
    splits = h;
    room = (begin_bounds rx p e).0;
    storage = s;
    in_order = λ o. omega arith;
    bitmap = opened_bitmap rx p e;
    counted = sym (weigh-none _ _ p.header.packet_count (λ i hi. has_seen-opened rx p i));
    summed = sym (weigh-none _ _ p.header.packet_count (λ i hi. has_seen-opened rx p i));
    done = ground (arith, h.some_packet);
  }

  -- Whatever packet of the transfer comes, the transfer stays well formed; only a new packet
  -- changes it, and that one is taken.
  pub store-Transfer :
      (rx : RxState) (p : Packet)
      → Transfer mp rx
      → p.header.packet_idx < rx.packet_count
      → Transfer mp (store mp rx p).1 × (is_error (store mp rx p).0 ≡ true → (store mp rx p).1 ≡ rx)
  store-Transfer rx p t h = elim (store-Stores mp rx p h) [
    | is_new fresh ↦
        rw (store_fresh mp rx p t fresh)
          (finish-stored-Transfer mp rx p t fresh, λ x. cc (finish-stored_no_error mp rx p t fresh))
    | is_duplicate _ _ e ↦ rw e (t, λ x. refl)
    | is_early _ _ e ↦ rw e (t, λ x. refl)
  ]

  -- The invariant holds of a receiver that has just been set up or reset.
  pub rx_init-IsValid :
      (buffer : List ℕ) (capacity : ℕ) (any_order : Bool) (bitmap : Option (List ℕ))
      → capacity ≤ length buffer
      → IsValid (rx_init buffer capacity any_order bitmap)
  unfolding rx_init
  rx_init-IsValid buffer capacity any_order bitmap h = record { storage = h; transfer = λ e. cc }

  pub rx_reset-IsValid : (rx : RxState) → IsValid rx → IsValid (rx_reset rx)
  unfolding rx_reset
  rx_reset-IsValid rx v = record { storage = v.storage; transfer = λ e. cc }

  -- A transfer is opened, or refused with nothing changed.
  pub begin_cases :
      (rx : RxState) (p : Packet)
      → (rx_begin_transfer rx p ≡ (accepted, opened rx p))
        ⊎ ((rx_begin_transfer rx p).1 ≡ rx) × (is_error (rx_begin_transfer rx p).0 ≡ true)
  unfolding rx_begin_transfer is_error
  begin_cases rx p = ground arith

  pub begin_accepted :
      (rx : RxState) (p : Packet)
      → (rx_begin_transfer rx p).0 ≡ accepted
      → rx_begin_transfer rx p ≡ (accepted, opened rx p)
  unfolding is_error
  begin_accepted rx p e = elim (begin_cases rx p) [ inl same ↦ same | inr (_, bad) ↦ cc ]

  store-IsValid :
      (rx : RxState) (p : Packet)
      → Transfer mp rx
      → p.header.packet_idx < rx.packet_count
      → IsValid (store mp rx p).1
  store-IsValid rx p t h =
      let kept = (store-Transfer rx p t h).0 in
      record { storage = kept.storage; transfer = λ e. kept }

  pub same_index :
      (rx : RxState) (p : Packet)
      → mismatches rx p.header ≡ false
      → p.header.packet_idx < p.header.packet_count
      → p.header.packet_idx < rx.packet_count
  unfolding mismatches
  same_index rx p e h = ground arith

  -- The four ways of a packet with a good checksum.
  pub data Admits (rx : RxState) (p : Packet) : RxResult × RxState → Type 0 where
    mismatched :
        rx.is_active ≡ true → mismatches rx p.header ≡ true → Admits rx p (transfer_mismatch, rx)
    continues : rx.is_active ≡ true → mismatches rx p.header ≡ false → Admits rx p (store mp rx p)
    opens :
        rx.is_active ≡ false
        → (rx_begin_transfer rx p).0 ≡ accepted
        → Admits rx p (store mp (opened rx p) p)
    refuses : rx.is_active ≡ false → (res : RxResult) → is_error res ≡ true → Admits rx p (res, rx)

  pub admit-Admits : (rx : RxState) (p : Packet) → Admits rx p (admit mp rx p)
  unfolding admit is_error
  admit-Admits rx p = elim (Bool-cases rx.is_active) [
    | inl on ↦ elim (Bool-cases (mismatches rx p.header)) [
      | inl other ↦ simp (on, other) (mismatched on other)
      | inr same ↦ simp (on, same) (continues on same)
    ]
    | inr off ↦ elim (begin_cases rx p) [
      | inl e ↦ simp (off, e) (opens off (rw e))
      | inr e ↦ simp (off, e.1, e.0) (refuses off (rx_begin_transfer rx p).0 e.1)
    ]
  ]

  Admits-keeps :
      {rx : RxState} {p : Packet} {out : RxResult × RxState}
      → Admits rx p out
      → IsValid rx
      → Splits mp p.header.total_len p.header.packet_count
      → p.header.packet_idx < p.header.packet_count
      → IsValid out.1 × (rx.is_active ≡ true → is_error out.0 ≡ true → out.1 ≡ rx)
  unfolding opened
  Admits-keeps (mismatched on other) v s h = (v, λ a e. refl)
  Admits-keeps {rx} {p} (continues on same) v s h =
      let idx = same_index rx p same h in
      (store-IsValid rx p (v.transfer on) idx, λ a. (store-Transfer rx p (v.transfer on) idx).1)
  Admits-keeps {rx} {p} (opens off e) v s h =
      (store-IsValid (opened rx p) p (opened-Transfer rx p v.storage s e) h, λ a. cc)
  Admits-keeps (refuses off res e) v s h = (v, λ a x. refl)

  -- What a packet must satisfy to be looked at: version, type, lengths and checksum.
  abbrev pub IsIntact : Packet → Type 0
  IsIntact p =
      (is_header_valid mp p.header ≡ true)
      × (get_type p.header.type_flags ≡ type_data)
      × (compute_packet_crc mp p ≡ p.header.crc)

  pub header_error-is_error : (h : Header) → is_error (header_error h) ≡ true
  unfolding header_error is_error
  header_error-is_error h = ground arith

  -- A packet is refused with nothing changed, or it is intact and admitted.
  pub push_cases :
      (rx : RxState) (p : Packet)
      → ((is_error (push mp rx p).0 ≡ true) × ((push mp rx p).1 ≡ rx))
        ⊎ (IsIntact p × (push mp rx p ≡ admit mp rx p))
  unfolding push is_error
  push_cases rx p = elim (Bool-cases (is_header_valid mp p.header)) [
    | inr bad ↦ inl (simp (bad) (header_error-is_error p.header, refl))
    | inl good ↦ elim (ℕ_discrete (get_type p.header.type_flags) type_data) [
      | no other ↦ inl (simp (good, ==_ne _ _ other) (refl, refl))
      | yes e ↦ elim (ℕ_discrete (compute_packet_crc mp p) p.header.crc) [
        | no other ↦ inl (simp (good, e, ==_ne _ _ other) (refl, refl))
        | yes sum ↦ inr ((good, e, sum), simp (good, e, sum, ==_refl p.header.crc))
      ]
    ]
  ]

  push_keeps :
      (rx : RxState) (p : Packet)
      → IsHeader p.header
      → IsValid rx
      → IsValid (push mp rx p).1
        × (rx.is_active ≡ true → is_error (push mp rx p).0 ≡ true → (push mp rx p).1 ≡ rx)
  push_keeps rx p w v = elim (push_cases rx p) [
    | inl (e, same) ↦ rw same (v, λ a x. refl)
    | inr (intact, e) ↦ rw e (
        let (splits, index) = valid_header p.header w intact.0 in
        Admits-keeps (admit-Admits rx p) v splits index)
  ]

  -- No packet, well-formed or not, breaks the invariant of the receiver.
  pub push-IsValid :
      (rx : RxState) (p : Packet) → IsHeader p.header → IsValid rx → IsValid (push mp rx p).1
  push-IsValid rx p w v = (push_keeps rx p w v).0

  -- A packet that is refused during a transfer leaves the receiver exactly as it was.
  pub push_refused :
      (rx : RxState) (p : Packet)
      → IsHeader p.header
      → IsValid rx
      → rx.is_active ≡ true
      → is_error (push mp rx p).0 ≡ true
      → (push mp rx p).1 ≡ rx
  push_refused rx p w v a e = (push_keeps rx p w v).1 a e
