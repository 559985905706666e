-- ===== src/Splitlink/TxSlot/Sending.antt =====
-- What a sending slot does with a message, for the answers that the link gives, one to each run of the work.
use ykb_firmware.Base.{
  ℕ, zero, suc, ◌+◌, ◌*◌, ◌%◌, ◌^◌, ◌≤◌, ◌<◌, ◌≡◌, refl, sym, ap, ap₂, ◌∙◌, Bool, true, false,
  Option, some, List, [], ◌∷◌, ◌++◌, map, ltb, if◌then◌else◌, take, drop, copy_into, length, arith,
  ◌⊎◌, inl, inr, lt→ltb, Bool-cases, Option-cases, ◌-◌, subst, slice-take, take-copy_into,
}
use ykb_firmware.Protocol.Packet.{payload_len_for_index, payload_len_bounds, type_data, get_type}
use ykb_firmware.Protocol.Tx.{
  TxState, tx_init, tx_build_packet, tx_has_more, fill_payload, next_offset,
}
use ykb_firmware.Protocol.Tx.Packets.{
  Message, IsData, tx_at, packet_of, packets_from, packets, total, message-Splits, start_at,
  next_at, tx_init-tx_at,
}
use ykb_firmware.Splitlink.Wire.{wire_bytes}
use ykb_firmware.Splitlink.TxSlot.{
  TxSlot, tx_empty, transceiving, is_transceiving, Answer, sent, no_memory, try_again, send_error,
  Next, reschedule_now, reschedule_later, returned, out, loaded, tx_slot_begin_transfer, prepare,
  after_send, tx_slot_work,
}

-- Whether the work is scheduled again.
unfoldable pub again : Next → Bool
again reschedule_now = true
again reschedule_later = true
again returned = false
again out = false

-- The bytes that the link took.
unfoldable pub taken : Answer → Option (List ℕ) → List (List ℕ)
taken sent (some bytes) = bytes ∷ []
taken _ _ = []

-- The runs of the work until it is not scheduled again or the answers end: the frames that the link
-- took, in order, and the slot.
unfoldable pub run : ℕ → List Answer → TxSlot → List (List ℕ) × TxSlot
unfolding again taken
run mp [] slot = ([], slot)
run mp (a ∷ rest) slot =
    let w = tx_slot_work mp a slot in
    let (frames, end) = run mp rest w.slot in
    if again w.next then (taken a w.call ++ frames, end) else (taken a w.call, w.slot)

-- The sender without its buffers: of `left` packets, how many the link takes,
unfoldable pub delivered : ℕ → List Answer → ℕ
delivered zero rest = 0
delivered (suc left) [] = 0
delivered (suc left) (sent ∷ rest) = suc (delivered left rest)
delivered (suc left) (no_memory ∷ rest) = delivered (suc left) rest
delivered (suc left) (try_again ∷ rest) = delivered (suc left) rest
delivered (suc left) (send_error ∷ rest) = 0

-- and whether it is done with them, since all were taken or an error came first.
unfoldable pub ended : ℕ → List Answer → Bool
ended zero rest = true
ended (suc left) [] = false
ended (suc left) (sent ∷ rest) = ended left rest
ended (suc left) (no_memory ∷ rest) = ended (suc left) rest
ended (suc left) (try_again ∷ rest) = ended (suc left) rest
ended (suc left) (send_error ∷ rest) = true

module _ (mp : ℕ) (m : Message) (mp_pos : 0 < mp) (d : IsData m) where
  -- The sender before packet `i`, reading the array `buffer`.
  abbrev tx_on : List ℕ → ℕ → TxState
  tx_on buffer i = record (tx_at mp m i) { data_ptr = some buffer }

  -- An array that starts with the message gives the packets of the message.
  build_on :
      (buffer : List ℕ) (i : ℕ)
      → take (length m.bytes) buffer ≡ m.bytes
      → i < packets mp m
      → tx_build_packet mp (tx_on buffer i) ≡ some (packet_of mp m i, tx_on buffer (suc i))
  unfolding tx_build_packet tx_at packet_of fill_payload next_offset tx_has_more
  build_on buffer i e h =
      let s = message-Splits mp m mp_pos d in
      let small : (i + 1) % 2 ^ 16 ≡ suc i = omega (arith, s.small) in
      let len = payload_len_for_index mp (total mp m) i (packets mp m) in
      let slice : take len (drop (i * mp) buffer) ≡ take len (drop (i * mp) m.bytes) =
        slice-take (length m.bytes) (i * mp) len buffer (payload_len_bounds mp i s h).1
        ∙ ap (λ xs. take len (drop (i * mp) xs)) e in
      rw
        (
          start_at mp m mp_pos d i h,
          lt→ltb i (packets mp m) h,
          small,
          next_at mp m mp_pos d i h,
          slice,
        )
        refl

  abbrev At : TxSlot → ℕ → Type 0
  At slot i = record slot.tx { data_ptr = some slot.data_bytes } ≡ tx_on slot.data_bytes i

  -- A slot in the middle of the message, with `i` packets taken by the link.
  record Sending (i : ℕ) (slot : TxSlot) : Type 0 where
    busy : slot.state ≡ transceiving
    holds : take (length m.bytes) slot.data_bytes ≡ m.bytes
    progress :
        ((slot.pending_packet_ready ≡ false) × At slot i)
        ⊎ ((slot.pending_packet_ready ≡ true)
            × (slot.pending_packet ≡ packet_of mp m i)
            × At slot (suc i))

  -- The slot with packet `i` built.
  record Built (i : ℕ) (slot : TxSlot) : Type 0 where
    busy : slot.state ≡ transceiving
    holds : take (length m.bytes) slot.data_bytes ≡ m.bytes
    ready : slot.pending_packet_ready ≡ true
    packet : slot.pending_packet ≡ packet_of mp m i
    at : At slot (suc i)

  has_more-At : (slot : TxSlot) (i : ℕ) → At slot i → tx_has_more slot.tx ≡ ltb i (packets mp m)
  unfolding tx_has_more tx_at
  has_more-At slot i e = ap tx_has_more e

  prepare-Built :
      (i : ℕ) (slot : TxSlot)
      → i < packets mp m
      → Sending i slot
      → (ready : TxSlot) × (prepare mp slot ≡ some ready) × Built i ready
  unfolding prepare
  prepare-Built i slot h s = elim s.progress [
    | inl (off, at) ↦ (
      record slot {
        pending_packet = packet_of mp m i;
        tx = tx_on slot.data_bytes (suc i);
        pending_packet_ready = true;
      },
      rw
          (
            off,
            has_more-At slot i at,
            lt→ltb i (packets mp m) h,
            at,
            build_on slot.data_bytes i s.holds h,
          )
          refl,
      record { busy = s.busy; holds = s.holds; ready = refl; packet = refl; at = refl },
    )
    | inr (on, p, at) ↦ (
      slot,
      rw on refl,
      record { busy = s.busy; holds = s.holds; ready = on; packet = p; at = at },
    )
  ]

  work_on :
      (a : Answer) (slot ready : TxSlot)
      → slot.state ≡ transceiving
      → prepare mp slot ≡ some ready
      → tx_slot_work mp a slot ≡ record {
        next = (after_send a ready).0;
        call = some (wire_bytes mp ready.pending_packet);
        slot = (after_send a ready).1;
      }
  unfolding tx_slot_work is_transceiving
  work_on a slot ready busy e = simp (busy, e)

  abbrev frames_from : ℕ → ℕ → List (List ℕ)
  frames_from i k = map (wire_bytes mp) (packets_from mp m i k)

  -- What the slot has made of the rest of the message.
  abbrev Refines : ℕ → ℕ → List Answer → List (List ℕ) × TxSlot → Type 0
  Refines i left rest done =
      (done.0 ≡ frames_from i (delivered left rest))
      × (done.1.state ≡ (if ended left rest then tx_empty else transceiving))

  retry_Sending : (i : ℕ) (ready : TxSlot) → Built i ready → Sending i ready
  retry_Sending i ready b = record {
    busy = b.busy;
    holds = b.holds;
    progress = inr (b.ready, b.packet, b.at);
  }

  next_Sending :
      (i : ℕ) (ready : TxSlot)
      → Built i ready
      → Sending (suc i) (record ready { pending_packet_ready = false })
  next_Sending i ready b = record { busy = b.busy; holds = b.holds; progress = inl (refl, b.at) }

  -- From packet `i` on, the slot does what the sender without buffers does.
  run-Sending :
      (rest : List Answer) (i left : ℕ) (slot : TxSlot)
      → i + suc left ≡ packets mp m
      → Sending i slot
      → Refines i (suc left) rest (run mp rest slot)
  unfolding run delivered ended packets_from after_send again taken
  run-Sending [] i left slot e s = (refl, s.busy)
  run-Sending (sent ∷ rest) i zero slot e s =
      let (ready, eq, b) = prepare-Built i slot (omega arith) s in
      let no_more : tx_has_more ready.tx ≡ false = has_more-At ready (suc i) b.at ∙ ground arith in
      rw (work_on sent slot ready s.busy eq, no_more)
        (ap (λ p. wire_bytes mp p ∷ []) b.packet, refl)
  run-Sending (sent ∷ rest) i (suc left) slot e s =
      let (ready, eq, b) = prepare-Built i slot (omega arith) s in
      let more : tx_has_more ready.tx ≡ true = has_more-At ready (suc i) b.at ∙ ground arith in
      let (frames, state) =
        run-Sending rest (suc i) left (record ready { pending_packet_ready = false }) (omega arith)
          (next_Sending i ready b) in
      rw (work_on sent slot ready s.busy eq, more)
        (ap₂ (λ p fs. wire_bytes mp p ∷ fs) b.packet frames, state)
  run-Sending (no_memory ∷ rest) i left slot e s =
      let (ready, eq, b) = prepare-Built i slot (omega arith) s in
      rw (work_on no_memory slot ready s.busy eq)
        (run-Sending rest i left ready e (retry_Sending i ready b))
  run-Sending (try_again ∷ rest) i left slot e s =
      let (ready, eq, b) = prepare-Built i slot (omega arith) s in
      rw (work_on try_again slot ready s.busy eq)
        (run-Sending rest i left ready e (retry_Sending i ready b))
  run-Sending (send_error ∷ rest) i left slot e s =
      let (ready, eq, b) = prepare-Built i slot (omega arith) s in
      rw (work_on send_error slot ready s.busy eq) (refl, refl)

prepare_state :
    (mp : ℕ) (slot ready : TxSlot) → prepare mp slot ≡ some ready → ready.state ≡ slot.state
unfolding prepare
prepare_state mp slot ready e = ground arith

abbrev pub Outcome : Next → TxSlot → Type 0
Outcome next slot =
    ((again next ≡ true) × (slot.state ≡ transceiving)) ⊎ ((next ≡ out) × (slot.state ≡ tx_empty))

after_send-Outcome :
    (a : Answer) (slot : TxSlot)
    → slot.state ≡ transceiving
    → Outcome (after_send a slot).0 (after_send a slot).1
unfolding after_send again
after_send-Outcome sent slot busy = elim (Bool-cases (tx_has_more slot.tx)) [
  | inl e ↦ simp (e) (inl (refl, busy))
  | inr e ↦ simp (e) (inr (refl, refl))
]
after_send-Outcome no_memory slot busy = inl (refl, busy)
after_send-Outcome try_again slot busy = inl (refl, busy)
after_send-Outcome send_error slot busy = inr (refl, refl)

-- A run of a busy slot keeps it busy and is scheduled again, or frees it and reaches `out`.
pub tx_slot_work-Outcome :
    (mp : ℕ) (a : Answer) (slot : TxSlot)
    → slot.state ≡ transceiving
    → Outcome (tx_slot_work mp a slot).next (tx_slot_work mp a slot).slot
unfolding tx_slot_work is_transceiving
tx_slot_work-Outcome mp a slot busy = elim (Option-cases (prepare mp slot)) [
  | inl e ↦ simp (busy, e) (inr (refl, refl))
  | inr (ready, e) ↦
      simp (busy, e) (after_send-Outcome a ready (prepare_state mp slot ready e ∙ busy))
]

-- The message that a slot makes of bytes.
unfoldable pub message_of : TxSlot → List ℕ → Message
message_of slot bytes = record { bytes = bytes; transfer_id = slot.id; type_flags = type_data }

kind_of_data : get_type type_data ≡ type_data
unfolding get_type
kind_of_data = refl

pub message_of-IsData :
    (slot : TxSlot) (bytes : List ℕ) → length bytes < 2 ^ 16 → IsData (message_of slot bytes)
unfolding message_of
message_of-IsData slot bytes h = record { word = h; byte = omega arith; kind = kind_of_data }

-- A slot that sends nothing, with room for the bytes.
pub record IsFree (slot : TxSlot) (bytes : List ℕ) : Type 0 where
  pub idle : slot.state ≡ tx_empty
  pub room : length bytes ≤ slot.max_data_length
  pub storage : slot.max_data_length ≤ length slot.data_bytes
  pub word : length bytes < 2 ^ 16

pub begin_free :
    (mp : ℕ) (slot : TxSlot) (bytes : List ℕ)
    → IsFree slot bytes
    → tx_slot_begin_transfer mp slot bytes ≡ (true, loaded mp slot bytes)
unfolding tx_slot_begin_transfer is_transceiving
begin_free mp slot bytes f = rw f.idle (ground (arith, f.room))

loaded-Sending :
    (mp : ℕ) (slot : TxSlot) (bytes : List ℕ) (mp_pos : 0 < mp) (f : IsFree slot bytes)
    → Sending mp
        (message_of slot bytes)
        mp_pos
        (message_of-IsData slot bytes f.word)
        0
        (loaded mp slot bytes)
unfolding loaded message_of tx_init
loaded-Sending mp slot bytes mp_pos f = record {
  busy = refl;
  holds = take-copy_into slot.data_bytes bytes (omega (arith, f.room, f.storage));
  progress = inl (
    refl,
    ap {A = TxState} (λ tx. record tx { data_ptr = some (copy_into slot.data_bytes 0 bytes) })
        (tx_init-tx_at mp (message_of slot bytes) mp_pos (message_of-IsData slot bytes f.word)),
  );
}

-- A free slot takes a transfer of bytes that it has room for. Whatever the link then answers to each packet, what it took is the first packets of the message, once each and in order, as many as it said it took before an error; and the slot is free again exactly when all were taken or an error came.
pub run-tx_slot_begin_transfer :
    (mp : ℕ) (slot : TxSlot) (bytes : List ℕ) (answers : List Answer)
    → 0 < mp
    → IsFree slot bytes
    → let (begun, loaded_slot) = tx_slot_begin_transfer mp slot bytes in
      let (frames, end) = run mp answers loaded_slot in
      let m = message_of slot bytes in
      (begun ≡ true)
      × (frames ≡ map (wire_bytes mp) (packets_from mp m 0 (delivered (packets mp m) answers)))
      × (end.state ≡ (if ended (packets mp m) answers then tx_empty else transceiving))
run-tx_slot_begin_transfer mp slot bytes answers mp_pos f =
    let m = message_of slot bytes in
    let d = message_of-IsData slot bytes f.word in
    let s = message-Splits mp m mp_pos d in
    let left : packets mp m ≡ suc (packets mp m - 1) = omega (arith, s.some_packet) in
    let done =
      run-Sending mp m mp_pos d answers 0 (packets mp m - 1) (loaded mp slot bytes)
        (omega (arith, s.some_packet)) (loaded-Sending mp slot bytes mp_pos f) in
    let at_left =
      subst (λ n. Refines mp m mp_pos d 0 n answers (run mp answers (loaded mp slot bytes)))
        (sym left) done in
    rw (begin_free mp slot bytes f) (refl, at_left.0, at_left.1)
