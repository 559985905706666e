-- ===== src/Splitlink/Master/Queue.antt =====
-- The queue of script slots: which slot goes next, and when.
use ykb_firmware.Base.{
  ℕ, zero, suc, ◌≤◌, ◌≡◌, refl, ap, Bool, true, false, Option, none, some, List, [], ◌∷◌, length,
  arith,
}
use ykb_firmware.Splitlink.TxSlot.{tx_empty, is_transceiving, Answer, out, loaded, tx_slot_work}
use ykb_firmware.Splitlink.TxSlot.Sending.{IsFree, begin_free}
use ykb_firmware.Splitlink.Slave.{reaches_out}
use ykb_firmware.Splitlink.Master.{
  Master, take_next, take_next_from, kick, slot_packet_bytes, script_slot_work,
}

-- The numbers of the slots that wait, lowest first, where the first flag is that of `idx`.
unfoldable pub pending_from : ℕ → List Bool → List ℕ
pending_from idx [] = []
pending_from idx (false ∷ rest) = pending_from (suc idx) rest
pending_from idx (true ∷ rest) = idx ∷ pending_from (suc idx) rest

-- What a search that finds slot `i` leaves.
abbrev Takes : ℕ → List Bool → ℕ → List ℕ → Type 0
Takes idx pending i is =
    (rest : List Bool) × (take_next_from idx pending ≡ some (i, rest))
    × (pending_from idx rest ≡ is)
    × (length rest ≡ length pending)

take_next_from-Takes :
    (idx : ℕ) (pending : List Bool) (i : ℕ) (is : List ℕ)
    → pending_from idx pending ≡ i ∷ is
    → Takes idx pending i is
unfolding take_next_from pending_from
take_next_from-Takes idx [] i is e = absurd (empty_cons e)
  where
    empty_cons : {j : ℕ} {js : List ℕ} → ([] ≡ j ∷ js) → ⊥
    empty_cons x = cc
take_next_from-Takes idx (true ∷ rest) i is e = (false ∷ rest, cc, cc, refl)
take_next_from-Takes idx (false ∷ rest) i is e =
    let (left, found, same, size) = take_next_from-Takes (suc idx) rest i is e in
    (false ∷ left, rw found refl, same, ap suc size)

take_next_from-none :
    (idx : ℕ) (pending : List Bool)
    → pending_from idx pending ≡ []
    → take_next_from idx pending ≡ none
unfolding take_next_from pending_from
take_next_from-none idx [] e = refl
take_next_from-none idx (true ∷ rest) e = cc
take_next_from-none idx (false ∷ rest) e = rw (take_next_from-none (suc idx) rest e) refl

-- The searches that follow one another until none finds a slot, as long as the fuel lasts.
unfoldable pub drain : ℕ → List Bool → List ℕ
drain zero pending = []
drain (suc fuel) pending = elim (take_next pending) [
  | none ↦ []
  | some (i, rest) ↦ i ∷ drain fuel rest
]

drain-pending :
    (fuel : ℕ) (pending : List Bool) (is : List ℕ)
    → pending_from 0 pending ≡ is
    → length is ≤ fuel
    → drain fuel pending ≡ is
unfolding drain take_next
drain-pending zero pending [] e h = refl
drain-pending zero pending (i ∷ is) e h = absurd (omega arith)
drain-pending (suc fuel) pending [] e h = rw (drain, take_next_from-none 0 pending e) refl
drain-pending (suc fuel) pending (i ∷ is) e h =
    let (rest, found, same, size) = take_next_from-Takes 0 pending i is e in
    rw (drain, found) (ap (λ js. i ∷ js) (drain-pending fuel rest is same (omega arith)))

length-pending_from :
    (idx : ℕ) (pending : List Bool) → length (pending_from idx pending) ≤ length pending
unfolding pending_from
length-pending_from idx [] = omega arith
length-pending_from idx (true ∷ rest) = omega (arith, length-pending_from (suc idx) rest)
length-pending_from idx (false ∷ rest) = omega (arith, length-pending_from (suc idx) rest)

-- Searched as often as there are slots, the queue gives every slot that waits, once each and lowest first, and then none.
pub drain-pending_from :
    (pending : List Bool) (fuel : ℕ)
    → length pending ≤ fuel
    → drain fuel pending ≡ pending_from 0 pending
drain-pending_from pending fuel h =
    drain-pending fuel pending (pending_from 0 pending) refl
      (omega (arith, length-pending_from 0 pending))

module _ (mp : ℕ) (script_bytes : ℕ → Option (List ℕ)) where
  kick-loaded :
      (s : Master) (i : ℕ) (is : List ℕ) (payload : List ℕ)
      → s.connected ≡ true
      → pending_from 0 s.script_slot_sync_pending ≡ i ∷ is
      → script_bytes i ≡ some payload
      → IsFree s.script_slot_tx (slot_packet_bytes i payload)
      → ((kick mp script_bytes s).script_slot_tx
          ≡ loaded mp s.script_slot_tx (slot_packet_bytes i payload))
        × (pending_from 0 (kick mp script_bytes s).script_slot_sync_pending ≡ is)
  unfolding kick take_next is_transceiving
  kick-loaded s i is payload on e got f =
      let (rest, found, same, size) = take_next_from-Takes 0 s.script_slot_sync_pending i is e in
      simp (on, f.idle, found, got, begin_free mp s.script_slot_tx (slot_packet_bytes i payload) f)
        (refl, same)

  -- When a run of the work ends a transfer of a script on a connected half, whether it succeeds or fails, the lowest slot that waits is sent next if its script can be read and fits, and the others go on waiting.
  pub script_slot_work-loaded :
      (s : Master) (a : Answer) (i : ℕ) (is : List ℕ) (payload : List ℕ)
      → s.connected ≡ true
      → pending_from 0 s.script_slot_sync_pending ≡ i ∷ is
      → script_bytes i ≡ some payload
      → let w = tx_slot_work mp a s.script_slot_tx in
        w.next ≡ out
        → IsFree w.slot (slot_packet_bytes i payload)
        → let s' = (script_slot_work mp script_bytes a s).1 in
          (s'.script_slot_tx ≡ loaded mp w.slot (slot_packet_bytes i payload))
          × (pending_from 0 s'.script_slot_sync_pending ≡ is)
  unfolding script_slot_work reaches_out
  script_slot_work-loaded s a i is payload on e got over f = simp (over) (
      kick-loaded (record s { script_slot_tx = (tx_slot_work mp a s.script_slot_tx).slot }) i is
        payload on e got f)

  -- If the script of the lowest slot that waits cannot be read, its turn is over and nothing is sent: the slot for scripts is left as it was, and the others go on waiting.
  kick_unreadable :
      (s : Master) (i : ℕ) (is : List ℕ)
      → s.connected ≡ true
      → s.script_slot_tx.state ≡ tx_empty
      → pending_from 0 s.script_slot_sync_pending ≡ i ∷ is
      → script_bytes i ≡ none
      → let s' = kick mp script_bytes s in
        (s'.script_slot_tx ≡ s.script_slot_tx) × (pending_from 0 s'.script_slot_sync_pending ≡ is)
  unfolding kick take_next is_transceiving
  kick_unreadable s i is on free e got =
      let (rest, found, same, size) = take_next_from-Takes 0 s.script_slot_sync_pending i is e in
      simp (on, free, found, got) (refl, same)
