-- ===== src/Protocol/Rx/Missing.antt =====
-- ykb_protocol_rx_collect_missing against the packets that the receiver has seen.
use ykb_firmware.Base.{
  ℕ, zero, suc, ◌+◌, ◌≤◌, ◌<◌, ◌≡◌, refl, sym, ap, fun_ext, ℕ_discrete, ◌∙◌, Bool, true, Option,
  some, List, [], ◌∷◌, ==_ne, if◌then◌else◌, take, arith, inl, inr, ◌↔◌, Option-cases,
}
use ykb_firmware.Protocol.Rx.{RxState, missing_from, rx_collect_missing, test_bitmap}
use ykb_firmware.Protocol.Rx.Sums.{count_of_all, count_of_full}
use ykb_firmware.Protocol.Rx.Transfer.{Transfer, has_seen}

-- The indices of the `left` packets from `i` on that were not seen, in ascending order.
unfoldable pub unseen_from : (ℕ → Bool) → ℕ → ℕ → List ℕ
unseen_from seen i zero = []
unseen_from seen i (suc left) =
    let rest = unseen_from seen (i + 1) left in if seen i then rest else i ∷ rest

missing_from-take :
    (bitmap : Option (List ℕ)) (left i room : ℕ)
    → missing_from bitmap i left room ≡ take room (unseen_from (test_bitmap bitmap) i left)
unfolding missing_from unseen_from
missing_from-take bitmap zero i zero = refl
missing_from-take bitmap zero i (suc room) = refl
missing_from-take bitmap (suc left) i zero = refl
missing_from-take bitmap (suc left) i (suc room) = ground (
  arith,
  missing_from-take bitmap left (i + 1) (suc room),
  missing_from-take bitmap left (i + 1) room,
)

has_seen_any :
    (rx : RxState) → rx.allow_out_of_order ≡ true → has_seen rx ≡ test_bitmap rx.received_bitmap
unfolding has_seen
has_seen_any rx any = fun_ext (λ k. simp any)

-- Nothing is unseen exactly when everything was seen.
unseen_none :
    (seen : ℕ → Bool) (i left : ℕ)
    → unseen_from seen i left ≡ []
    → (k : ℕ) → i ≤ k
    → k < i + left
    → seen k ≡ true
unfolding unseen_from
unseen_none seen i zero e k lo hi = absurd (omega arith)
unseen_none seen i (suc left) e k lo hi = elim (ℕ_discrete i k) [
  | yes same ↦ rw (← same) (ground arith)
  | no other ↦ unseen_none seen (i + 1) left (ground arith) k (omega arith) (omega arith)
]

unseen_all :
    (seen : ℕ → Bool) (i left : ℕ)
    → ((k : ℕ) → i ≤ k → k < i + left → seen k ≡ true)
    → unseen_from seen i left ≡ []
unfolding unseen_from
unseen_all seen i zero h = refl
unseen_all seen i (suc left) h =
    rw (h i (omega arith) (omega arith))
      (unseen_all seen (i + 1) left (λ k lo hi. h k (omega arith) (omega arith)))

take_none {ℓ} : {A : Type ℓ} (n : ℕ) (xs : List A) → 0 < n → take n xs ≡ [] → xs ≡ []
take_none zero xs h e = absurd (omega arith)
take_none (suc n) [] h e = refl
take_none (suc n) (x ∷ xs) h e = cc

take-nil : (n : ℕ) → take {A = ℕ} n [] ≡ []
take-nil zero = refl
take-nil (suc n) = refl

collected :
    {mp : ℕ} (rx : RxState) (max_indices : ℕ)
    → Transfer mp rx
    → rx.allow_out_of_order ≡ true
    → rx_collect_missing rx max_indices
      ≡ take max_indices (unseen_from (has_seen rx) 0 rx.packet_count)
unfolding rx_collect_missing
collected rx zero t any = refl
collected rx (suc room) t any = elim (Option-cases rx.received_bitmap) [
  | inl e ↦ absurd (rw e at (t.bitmap any))
  | inr (bitmap, e) ↦ rw (has_seen_any rx any) (
      simp (any, e, ==_ne (suc room) 0 (omega arith))
        (missing_from-take (some bitmap) rx.packet_count 0 (suc room)))
]

module _ (mp : ℕ) where
  missing_parts :
      (rx : RxState) (max_indices : ℕ)
      → Transfer mp rx
      → rx.allow_out_of_order ≡ true
      → (rx_collect_missing rx max_indices
          ≡ take max_indices (unseen_from (has_seen rx) 0 rx.packet_count))
        × (0 < max_indices → (rx_collect_missing rx max_indices ≡ []) ↔ (rx.is_complete ≡ true))
  missing_parts rx max_indices t any =
      let listed = collected rx max_indices t any in
      (
        listed,
        λ room. (
          λ e. finished (
              unseen_none (has_seen rx) 0 rx.packet_count
                (take_none max_indices _ room (sym listed ∙ e))),
          λ e.
              listed
              ∙ ap (take max_indices) (
                  unseen_all (has_seen rx) 0 rx.packet_count
                    (λ k lo hi. all_seen e k (omega arith)))
              ∙ take-nil max_indices,
        ),
      )
    where
      finished :
          ((k : ℕ) → 0 ≤ k → k < 0 + rx.packet_count → has_seen rx k ≡ true) → rx.is_complete ≡ true
      finished all =
          t.done
          ∙ ground (
            arith,
            t.counted,
            count_of_all (has_seen rx) rx.packet_count (λ k h. all k (omega arith) (omega arith)),
          )

      all_seen : rx.is_complete ≡ true → (k : ℕ) → k < rx.packet_count → has_seen rx k ≡ true
      all_seen e = count_of_full (has_seen rx) rx.packet_count (ground (arith, t.counted, t.done))

  -- With a bitmap, the code lists the first `max_indices` of the packets that were not seen, in ascending order.
  rx_collect_missing_lem :
      (rx : RxState) (max_indices : ℕ)
      → Transfer mp rx
      → rx.allow_out_of_order ≡ true
      → rx_collect_missing rx max_indices
        ≡ take max_indices (unseen_from (has_seen rx) 0 rx.packet_count)
  rx_collect_missing_lem rx max_indices t any = (missing_parts rx max_indices t any).0

  -- Given room for one index, it lists none exactly when the transfer is complete.
  rx_collect_missing_none :
      (rx : RxState) (max_indices : ℕ)
      → Transfer mp rx
      → rx.allow_out_of_order ≡ true
      → 0 < max_indices
      → (rx_collect_missing rx max_indices ≡ []) ↔ (rx.is_complete ≡ true)
  rx_collect_missing_none rx max_indices t any room = (missing_parts rx max_indices t any).1 room
