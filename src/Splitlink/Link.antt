-- ===== src/Splitlink/Link.antt =====
-- From a sending slot of one half over the link to the upper layer of the other.
use ykb_firmware.Base.{
  ℕ, zero, suc, ◌≤◌, ◌<◌, ◌≡◌, refl, ap, ◌∙◌, Bool, true, Option, some, List, [], ◌∷◌, take, length,
  arith, Bool-cases, ◌==◌, inl, inr,
}
use ykb_firmware.Protocol.Tx.Packets.{packets}
use ykb_firmware.Splitlink.TxSlot.{
  TxSlot, tx_empty, Answer, sent, no_memory, try_again, send_error, tx_slot_begin_transfer,
}
use ykb_firmware.Splitlink.TxSlot.Sending.{
  run, delivered, ended, message_of, message_of-IsData, IsFree, run-tx_slot_begin_transfer,
}
use ykb_firmware.Splitlink.RxSlot.{
  Receiver, RxSlot, Role, rx_empty, receives, rx_slot_work, slot_cleared, values_slot_id,
}
use ykb_firmware.Splitlink.RxSlot.Delivery.{feed, IsOpen, feed-packets_from}

-- How often the link takes a packet.
unfoldable pub sent_count : List Answer → ℕ
sent_count [] = 0
sent_count (sent ∷ rest) = suc (sent_count rest)
sent_count (no_memory ∷ rest) = sent_count rest
sent_count (try_again ∷ rest) = sent_count rest
sent_count (send_error ∷ rest) = sent_count rest

-- No answer but `sent` and the two that ask to try again.
abbrev pub NoError : List Answer → Type 0
NoError [] = Unit
NoError (sent ∷ rest) = NoError rest
NoError (no_memory ∷ rest) = NoError rest
NoError (try_again ∷ rest) = NoError rest
NoError (send_error ∷ rest) = ⊥

-- With enough packets taken and no error, all of them go.
all_delivered :
    (left : ℕ) (answers : List Answer)
    → NoError answers
    → left ≤ sent_count answers
    → (delivered left answers ≡ left) × (ended left answers ≡ true)
unfolding delivered ended sent_count
all_delivered zero answers n h = (refl, refl)
all_delivered (suc left) [] n h = absurd (omega arith)
all_delivered (suc left) (sent ∷ rest) n h =
    let (d, e) = all_delivered left rest n (omega arith) in (ap suc d, e)
all_delivered (suc left) (no_memory ∷ rest) n h = all_delivered (suc left) rest n h
all_delivered (suc left) (try_again ∷ rest) n h = all_delivered (suc left) rest n h
all_delivered (suc left) (send_error ∷ rest) n h = absurd n

take_all {ℓ} : {A : Type ℓ} (xs : List A) → take (length xs) xs ≡ xs
take_all [] = refl
take_all (x ∷ xs) = ap (λ ys. x ∷ ys) (take_all xs)

-- The upper layer is given an array that starts with the message, and the slot is free.
pub record IsHandled (bytes : List ℕ) (done : Option (List ℕ) × RxSlot) : Type 0 where
  pub whole : List ℕ
  pub given : done.0 ≡ some whole
  pub message : take (length bytes) whole ≡ bytes
  pub free : done.1.state ≡ rx_empty

rx_slot_work-IsHandled :
    (role : Role) (id : ℕ) (slot : RxSlot) (bytes : List ℕ)
    → receives role id ≡ true
    → slot.rx.total_len ≡ length bytes
    → take (length bytes) slot.data_bytes ≡ bytes
    → IsHandled bytes (rx_slot_work role id slot)
unfolding rx_slot_work slot_cleared
rx_slot_work-IsHandled role id slot bytes r l e = elim (Bool-cases (id == values_slot_id)) [
  | inl v ↦
      simp (r, v)
        (record {
          whole = take slot.rx.total_len slot.data_bytes;
          given = refl;
          message = ap (take (length bytes)) (rw l e) ∙ take_all bytes;
          free = refl;
        })
  | inr v ↦ simp (r, v) (record { whole = slot.data_bytes; given = refl; message = e; free = refl })
]

-- A half that is free to send bytes starts their transfer on slot `id`; the link answers each call with success or with "try again", and often enough with success; the frames that it takes reach the other half, which receives on that slot and has it free. Then the sending slot ends free, the receiving slot's work is submitted once, and that work hands the upper layer the bytes, at the start of what it gives, and frees the slot.
pub link_delivers :
    (mp : ℕ) (track : Bool) (slot : TxSlot) (bytes : List ℕ) (answers : List Answer)
    (node : Receiver)
    → 0 < mp
    → IsFree slot bytes
    → NoError answers
    → packets mp (message_of slot bytes) ≤ sent_count answers
    → receives node.role slot.id ≡ true
    → IsOpen mp (message_of slot bytes) track (node.slot_of slot.id)
    → let (frames, end) = run mp answers (tx_slot_begin_transfer mp slot bytes).1 in
      let (works, node') = feed mp track node frames in
      (end.state ≡ tx_empty)
      × (works ≡ slot.id ∷ [])
      × IsHandled bytes (rx_slot_work node.role slot.id (node'.slot_of slot.id))
unfolding message_of
link_delivers mp track slot bytes answers node mp_pos f n enough r o =
    let m = message_of slot bytes in
    let d = message_of-IsData slot bytes f.word in
    let (begun, frames, state) = run-tx_slot_begin_transfer mp slot bytes answers mp_pos f in
    let (all, over) = all_delivered (packets mp m) answers n enough in
    let done = feed-packets_from mp m mp_pos d track node r o in
    rw (frames, all)
      (
        state ∙ rw over refl,
        done.works,
        rx_slot_work-IsHandled node.role slot.id _ bytes r done.filled.total_len
            done.filled.message,
      )
