-- ===== src/Splitlink/Scripts/Received.antt =====
-- The slave's slots while the master's come: splitlink_sync_slave.c of subsys/splitlink/src/sync.
use ykb_firmware.Base.{
  ℕ, zero, suc, ◌≤◌, ◌<◌, ◌≡◌, refl, sym, ap, subst, ◌∙◌, ◌≢◌, true, false, some, List, [], ◌∷◌,
  ◌==◌, set, length, arith, inl, inr, Option-cases, length-set, ==_refl, ==_ne, ℕ_discrete,
}
use ykb_firmware.Protocol.Exchange.Delivery.{contains}
use ykb_firmware.Splitlink.Scripts.{Script, script_at, script_slot_received, slots_received}
use ykb_firmware.Splitlink.Scripts.Compare.{or_both}

pub script_at-below {ℓ} :
    {A : Type ℓ} (slots : List A) (i : ℕ)
    → i < length slots
    → (s : A) × (script_at slots i ≡ some s)
unfolding script_at
script_at-below [] i h = ground arith
script_at-below (s ∷ slots) zero h = (s, refl)
script_at-below (s ∷ slots) (suc i) h = script_at-below slots i (omega arith)

script_at-set_same {ℓ} :
    {A : Type ℓ} (slots : List A) (i : ℕ) (s : A)
    → i < length slots
    → script_at (set slots i s) i ≡ some s
unfolding script_at
script_at-set_same [] i s h = ground arith
script_at-set_same (x ∷ slots) zero s h = refl
script_at-set_same (x ∷ slots) (suc i) s h = script_at-set_same slots i s (omega arith)

script_at-set_other {ℓ} :
    {A : Type ℓ} (slots : List A) (i j : ℕ) (s : A)
    → i ≢ j
    → script_at (set slots i s) j ≡ script_at slots j
unfolding script_at
script_at-set_other [] i j s ne = refl
script_at-set_other (x ∷ slots) zero zero s ne = absurd (ne refl)
script_at-set_other (x ∷ slots) zero (suc j) s ne = refl
script_at-set_other (x ∷ slots) (suc i) zero s ne = refl
script_at-set_other (x ∷ slots) (suc i) (suc j) s ne =
    script_at-set_other slots i j s (λ e. ne (ap suc e))

module _ {A : Type 0} (slot_size : ℕ) (master_slots : List (Script A))
    (fits : (i : ℕ) (s : Script A) → script_at master_slots i ≡ some s → s.size ≤ slot_size) where
  received_fits :
      (slots : List (Script A)) (i : ℕ) (s : Script A)
      → script_at master_slots i ≡ some s
      → script_slot_received slot_size slots i s ≡ set slots i s
  unfolding script_slot_received
  received_fits slots i s present = ground (arith, fits i s present)

  -- Once it has the master's script, it keeps it, whatever comes later.
  slots_received-kept :
      (slots : List (Script A)) (is : List ℕ) (k : ℕ)
      → k < length slots
      → script_at slots k ≡ script_at master_slots k
      → script_at (slots_received slot_size master_slots slots is) k ≡ script_at master_slots k
  unfolding slots_received
  slots_received-kept slots [] k h e = e
  slots_received-kept slots (i ∷ is) k h e = elim (Option-cases (script_at master_slots i)) [
    | inl absent ↦ rw (slots_received, absent) (slots_received-kept slots is k h e)
    | inr (s, present) ↦
        rw (slots_received, present, received_fits slots i s present)
          (slots_received-kept (set slots i s) is k (omega (arith, length-set slots i s))
            (elim (ℕ_discrete i k) [
              | yes same ↦
                  subst (λ j. script_at (set slots i s) j ≡ script_at master_slots j) same
                    (script_at-set_same slots i s (omega arith) ∙ sym present)
              | no ne ↦ script_at-set_other slots i k s ne ∙ e
            ]))
  ]

  pub slots_received-master :
      (slots : List (Script A)) (is : List ℕ) (k : ℕ)
      → k < length slots
      → k < length master_slots
      → contains k is ≡ true
      → script_at (slots_received slot_size master_slots slots is) k ≡ script_at master_slots k
  unfolding slots_received
  slots_received-master slots [] k h below sent = ground arith
  slots_received-master slots (i ∷ is) k h below sent = elim (ℕ_discrete k i) [
    | yes same ↦
        let (s, present) = script_at-below master_slots k below in
        let here = subst (λ j. script_at master_slots j ≡ some s) same present in
        rw (slots_received, here, received_fits slots i s here)
          (slots_received-kept (set slots i s) is k (omega (arith, length-set slots i s)) (
            subst (λ j. script_at (set slots j s) k ≡ script_at master_slots k) same
              (script_at-set_same slots k s h ∙ sym present)))
    | no ne ↦
        let later : contains k is ≡ true = ground (arith, sent, ==_ne k i ne) in
        elim (Option-cases (script_at master_slots i)) [
          | inl absent ↦
              rw (slots_received, absent) (slots_received-master slots is k h below later)
          | inr (s, present) ↦
              rw (slots_received, present, received_fits slots i s present)
                (slots_received-master (set slots i s) is k (omega (arith, length-set slots i s))
                  below later)
        ]
  ]

  pub slots_received-other :
      (slots : List (Script A)) (is : List ℕ) (k : ℕ)
      → contains k is ≡ false
      → script_at (slots_received slot_size master_slots slots is) k ≡ script_at slots k
  unfolding slots_received
  slots_received-other slots [] k sent = refl
  slots_received-other slots (i ∷ is) k sent =
      let (ne, later) = or_both (i == k) (contains k is) sent in
      elim (Option-cases (script_at master_slots i)) [
        | inl absent ↦ rw (slots_received, absent) (slots_received-other slots is k later)
        | inr (s, present) ↦
            rw (slots_received, present, received_fits slots i s present)
              (slots_received-other (set slots i s) is k later
                ∙ script_at-set_other slots i k s (λ e. ground (arith, ne, ==_refl k)))
      ]

  pub length-slots_received :
      (slots : List (Script A)) (is : List ℕ)
      → length (slots_received slot_size master_slots slots is) ≡ length slots
  unfolding slots_received
  length-slots_received slots [] = refl
  length-slots_received slots (i ∷ is) = elim (Option-cases (script_at master_slots i)) [
    | inl absent ↦ rw (slots_received, absent) (length-slots_received slots is)
    | inr (s, present) ↦
        rw (slots_received, present, received_fits slots i s present)
          (length-slots_received (set slots i s) is ∙ length-set slots i s)
  ]
