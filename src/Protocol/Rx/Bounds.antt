-- ===== src/Protocol/Rx/Bounds.antt =====
-- What a packet may write: the receiver's buffer below its capacity, and nothing else of it.
use ykb_firmware.Base.{
  ℕ, ◌≤◌, ◌<◌, ◌≡◌, refl, take, length, length-copy_into, length-take, get_or, get_or-copy_into_out,
  arith, inl, inr, false,
}
use ykb_firmware.Protocol.Packet.{Packet}
use ykb_firmware.Protocol.Rx.{RxState, RxResult, opened, stored, store, push, is_error}
use ykb_firmware.Protocol.Rx.Transfer.{Transfer, len_at}
use ykb_firmware.Protocol.Rx.Store.{
  IsFresh, is_new, is_duplicate, is_early, store-Stores, store_fresh, finish-stored, offset_bounds,
}
use ykb_firmware.Protocol.Rx.Valid.{
  IsHeader, IsValid, IsIntact, Admits, mismatched, continues, opens, refuses, admit-Admits,
  push_cases, valid_header, opened-Transfer, same_index,
}

-- `rx'` differs from `rx` at most in the bytes of the buffer below its capacity, and in counters.
pub record Within (rx rx' : RxState) : Type 0 where
  pub same_length : length rx'.buffer ≡ length rx.buffer
  pub same_capacity : rx'.capacity ≡ rx.capacity
  pub outside : (j : ℕ) → rx.capacity ≤ j → get_or rx'.buffer j 0 ≡ get_or rx.buffer j 0

Within-refl : (rx : RxState) → Within rx rx
Within-refl rx = record { same_length = refl; same_capacity = refl; outside = λ j h. refl }

module _ (mp : ℕ) (mp_pos : 0 < mp) where
  stored-Within :
      (rx : RxState) (p : Packet) → Transfer mp rx → IsFresh rx p → Within rx (stored mp rx p)
  unfolding stored
  stored-Within rx p t fresh =
      let bounds = offset_bounds mp rx p t fresh in
      let part = take (len_at mp rx p.header.packet_idx) p.payload in
      let short = length-take (len_at mp rx p.header.packet_idx) p.payload in
      record {
        same_length = length-copy_into rx.buffer _ part;
        same_capacity = refl;
        outside = λ j h. get_or-copy_into_out rx.buffer _ part j 0 (omega (arith, bounds, short));
      }

  store-Within :
      (rx : RxState) (p : Packet)
      → Transfer mp rx
      → p.header.packet_idx < rx.packet_count
      → Within rx (store mp rx p).1
  store-Within rx p t h = elim (store-Stores mp rx p h) [
    | is_new fresh ↦
        rw (store_fresh mp rx p t fresh, finish-stored mp rx p t fresh)
          (let w = stored-Within rx p t fresh in
            record {
              same_length = w.same_length;
              same_capacity = w.same_capacity;
              outside = w.outside;
            })
    | is_duplicate _ _ e ↦ rw e (Within-refl rx)
    | is_early _ _ e ↦ rw e (Within-refl rx)
  ]

  Admits-Within :
      {rx : RxState} {p : Packet} {out : RxResult × RxState}
      → Admits mp mp_pos rx p out
      → IsHeader p.header
      → IsIntact mp mp_pos p
      → IsValid mp mp_pos rx
      → Within rx out.1
  unfolding opened
  Admits-Within {rx} {p} (mismatched on other) w k v = Within-refl rx
  Admits-Within {rx} {p} (continues on same) w k v =
      store-Within rx p (v.transfer on)
        (same_index mp mp_pos rx p same (valid_header mp mp_pos p.header w k.0).1)
  Admits-Within {rx} {p} (opens off e) w k v =
      let (splits, index) = valid_header mp mp_pos p.header w k.0 in
      let inside =
        store-Within (opened rx p) p (opened-Transfer mp mp_pos rx p v.storage splits e) index in
      record {
        same_length = inside.same_length;
        same_capacity = inside.same_capacity;
        outside = inside.outside;
      }
  Admits-Within {rx} {p} (refuses off res e) w k v = Within-refl rx

  push_confines :
      (rx : RxState) (p : Packet)
      → IsHeader p.header
      → IsValid mp mp_pos rx
      → Within rx (push mp rx p).1 × (is_error (push mp rx p).0 ≡ false → IsIntact mp mp_pos p)
  push_confines rx p w v = elim (push_cases mp mp_pos rx p) [
    | inl (bad, same) ↦ rw same (Within-refl rx, λ e. cc)
    | inr (k, e) ↦ (rw e (Admits-Within (admit-Admits mp mp_pos rx p) w k v), λ x. k)
  ]

  -- Whatever the packet, the receiver keeps its buffer's length and its capacity, and no byte from the capacity on changes.
  pub push-Within :
      (rx : RxState) (p : Packet)
      → IsHeader p.header
      → IsValid mp mp_pos rx
      → Within rx (push mp rx p).1
  push-Within rx p w v = (push_confines rx p w v).0

  -- A packet that is not refused has the version, a valid type, consistent lengths and the checksum.
  pub push-IsIntact :
      (rx : RxState) (p : Packet)
      → IsHeader p.header
      → IsValid mp mp_pos rx
      → is_error (push mp rx p).0 ≡ false
      → IsIntact mp mp_pos p
  push-IsIntact rx p w v e = (push_confines rx p w v).1 e
