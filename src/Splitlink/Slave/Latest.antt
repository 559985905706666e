-- ===== src/Splitlink/Slave/Latest.antt =====
-- Values that are sent while their slot is busy.
use ykb_firmware.Base.{
  ℕ, ◌≤◌, ◌<◌, ◌≡◌, refl, sym, ap, subst, ◌∙◌, true, false, some, List, [], ◌∷◌, ltb, ◌==◌,
  if◌then◌else◌, take, length, arith, inl, inr, take-copy_into, ◌≢◌,
}
use ykb_firmware.Splitlink.TxSlot.{
  TxSlot, tx_empty, transceiving, is_transceiving, Answer, Next, reschedule_now, reschedule_later,
  returned, out, loaded, tx_slot_work,
}
use ykb_firmware.Splitlink.TxSlot.Sending.{run, again, tx_slot_work-Outcome}
use ykb_firmware.Splitlink.Slave.{
  Slave, value_bytes, send_values, values_out, reaches_out, values_work,
}

-- The runs of the values' work until one of them reaches `out` or the answers end.
unfoldable pub values_until_out : ℕ → List Answer → Slave → Slave
unfolding reaches_out
values_until_out mp [] s = s
values_until_out mp (a ∷ rest) s =
    let next = (tx_slot_work mp a s.values_tx).next in
    let s' = (values_work mp a s).1 in
    let end = values_until_out mp rest s' in if reaches_out next then s' else end

-- Bytes wait for the slot.
record Waiting (bytes : List ℕ) (s : Slave) : Type 0 where
  ready : s.pending_values_tx_ready ≡ true
  held : take s.pending_values_tx_len s.pending_values_tx_data ≡ bytes

send_values-Waiting :
    (mp : ℕ) (s : Slave) (values : List ℕ)
    → s.connected ≡ true
    → s.values_tx.state ≡ transceiving
    → 0 < length values
    → length (value_bytes values) ≤ length s.pending_values_tx_data
    → Waiting (value_bytes values) (send_values mp s (some values))
      × ((send_values mp s (some values)).values_tx ≡ s.values_tx)
unfolding send_values is_transceiving
send_values-Waiting mp s values on busy some_values fits =
    simp (on, busy, nonempty, small)
      (
        record {
          ready = refl;
          held = take-copy_into s.pending_values_tx_data (value_bytes values) fits;
        },
        refl,
      )
  where
    nonempty : (length values == 0) ≡ false
    nonempty = ground arith

    small : ltb (length s.pending_values_tx_data) (length (value_bytes values)) ≡ false
    small = ground arith

-- What the slot is given when it is free: the bytes that waited.
values_out-Waiting :
    (mp : ℕ) (bytes : List ℕ) (s : Slave)
    → Waiting bytes s
    → s.values_tx.state ≡ tx_empty
    → ((values_out mp s).values_tx ≡ loaded mp s.values_tx bytes)
      × ((values_out mp s).pending_values_tx_ready ≡ false)
unfolding values_out is_transceiving
values_out-Waiting mp bytes s w free =
    simp (w.ready, free) (ap (loaded mp s.values_tx) w.held, refl)

again_no_out : (next : Next) → again next ≡ true → reaches_out next ≡ false
unfolding again reaches_out
again_no_out reschedule_now e = refl
again_no_out reschedule_later e = refl
again_no_out returned e = cc
again_no_out out e = cc

out_no_again : (next : Next) → next ≡ out → (again next ≡ false) × (reaches_out next ≡ true)
unfolding again reaches_out
out_no_again next e = rw e (refl, refl)

busy_not_empty : transceiving ≢ tx_empty
busy_not_empty e = cc

run_more :
    (mp : ℕ) (a : Answer) (rest : List Answer) (slot : TxSlot)
    → again (tx_slot_work mp a slot).next ≡ true
    → (run mp (a ∷ rest) slot).1 ≡ (run mp rest (tx_slot_work mp a slot).slot).1
unfolding run
run_more mp a rest slot e = rw e refl

-- The transfer under way comes to its end, and the bytes that wait follow it.
until_out-Waiting :
    (mp : ℕ) (bytes : List ℕ) (answers : List Answer) (s : Slave)
    → Waiting bytes s
    → s.values_tx.state ≡ transceiving
    → (run mp answers s.values_tx).1.state ≡ tx_empty
    → ((values_until_out mp answers s).values_tx ≡ loaded mp (run mp answers s.values_tx).1 bytes)
      × ((values_until_out mp answers s).pending_values_tx_ready ≡ false)
unfolding values_until_out run values_work
until_out-Waiting mp bytes [] s w busy done = absurd (busy_not_empty (sym busy ∙ done))
until_out-Waiting mp bytes (a ∷ rest) s w busy done =
    elim (tx_slot_work-Outcome mp a s.values_tx busy) [
      | inl (more, busy') ↦
          let on = again_no_out _ more in
          simp (on, more)
            (until_out-Waiting mp bytes rest
              (record s { values_tx = (tx_slot_work mp a s.values_tx).slot })
              (record { ready = w.ready; held = w.held }) busy'
              (sym (ap (λ slot. slot.state) (run_more mp a rest s.values_tx more)) ∙ done))
      | inr (over, free) ↦
          let (off, reached) = out_no_again _ over in
          simp (off, reached)
            (values_out-Waiting mp bytes
              (record s { values_tx = (tx_slot_work mp a s.values_tx).slot })
              (record { ready = w.ready; held = w.held }) free)
    ]

-- While a transfer of values is under way on a connected half, values are sent that fit the array that keeps them. When that transfer comes to its end, whether it succeeds or fails and whatever waited before, the slot starts at once on the new values, and nothing waits any more.
pub values_until_out-send_values :
    (mp : ℕ) (s : Slave) (values : List ℕ) (answers : List Answer)
    → s.connected ≡ true
    → s.values_tx.state ≡ transceiving
    → 0 < length values
    → length (value_bytes values) ≤ length s.pending_values_tx_data
    → (run mp answers s.values_tx).1.state ≡ tx_empty
    → let end = values_until_out mp answers (send_values mp s (some values)) in
      (end.values_tx ≡ loaded mp (run mp answers s.values_tx).1 (value_bytes values))
      × (end.pending_values_tx_ready ≡ false)
values_until_out-send_values mp s values answers on busy some_values fits done =
    let (w, same) = send_values-Waiting mp s values on busy some_values fits in
    let r =
      until_out-Waiting mp (value_bytes values) answers (send_values mp s (some values)) w
        (ap (λ slot. slot.state) same ∙ busy)
        (subst (λ slot. (run mp answers slot).1.state ≡ tx_empty) (sym same) done) in
    (r.0 ∙ ap (λ slot. loaded mp (run mp answers slot).1 (value_bytes values)) same, r.1)
