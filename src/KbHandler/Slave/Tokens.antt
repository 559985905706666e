-- ===== src/KbHandler/Slave/Tokens.antt =====
-- The one message of values that kb_handler_splitlink_master_adapter.c has on its way, and who holds it.
use ykb_firmware.Base.{
  ℕ, suc, ◌+◌, ◌≡◌, refl, Bool, true, false, not, ◌||◌, ◌&&◌, List, [], ◌∷◌, ◌++◌, ltb, length,
  take, arith, ◌⊎◌, inl, inr, Bool-cases,
}
use ykb_firmware.Settings.Arithmetic.{Floats}
use ykb_firmware.KbHandler.Slave.{
  ThreadMsg, slave_values, slave_keys_reset, Halves, Slave, put, enqueue_slave_values_msg,
  receive_reset,
}
use ykb_firmware.KbHandler.Slave.Steps.{
  Producer, waiting, claimed_msg, stored, dirtied, Consumer, idle, got, cleared, handled, released,
  redirtied, reclaimed, copied, Retrier, resting, checked, World, world,
}

abbrev pub bit : Bool → ℕ
bit true = 1
bit false = 0

-- The messages of values in the queue.
abbrev pub queued : List ThreadMsg → ℕ
queued [] = 0
queued (slave_values ∷ msgs) = suc (queued msgs)
queued (slave_keys_reset ∷ msgs) = queued msgs

queued-append :
    (xs : List ThreadMsg) (m : ThreadMsg) → queued (xs ++ (m ∷ [])) ≡ queued (m ∷ []) + queued xs
queued-append [] slave_values = refl
queued-append [] slave_keys_reset = refl
queued-append (slave_values ∷ xs) slave_values = omega (arith, queued-append xs slave_values)
queued-append (slave_values ∷ xs) slave_keys_reset =
    omega (arith, queued-append xs slave_keys_reset)
queued-append (slave_keys_reset ∷ xs) m = queued-append xs m

-- A context that has claimed the message and not yet handed it on.
abbrev pub producer_holds : Producer → ℕ
producer_holds waiting = 0
producer_holds claimed_msg = 1
producer_holds (stored vs) = 0
producer_holds (dirtied vs) = 0

abbrev pub consumer_holds : Consumer → ℕ
consumer_holds idle = 0
consumer_holds got = 1
consumer_holds cleared = 1
consumer_holds handled = 1
consumer_holds released = 0
consumer_holds redirtied = 0
consumer_holds reclaimed = 1
consumer_holds (copied vs) = 1

abbrev pub retrier_holds : Retrier → ℕ
retrier_holds resting = 0
retrier_holds checked = 1

-- Values that are stored and not yet announced.
abbrev pub unannounced : Producer → Bool
unannounced waiting = false
unannounced claimed_msg = false
unannounced (stored vs) = true
unannounced (dirtied vs) = false

abbrev pub is_dirtied : Producer → Bool
is_dirtied waiting = false
is_dirtied claimed_msg = false
is_dirtied (stored vs) = false
is_dirtied (dirtied vs) = true

abbrev pub about_to_copy : Consumer → Bool
about_to_copy got = true
about_to_copy cleared = true
about_to_copy _ = false

-- The thread will look at slave_values_dirty, or has seen it set.
abbrev pub about_to_look : Consumer → Bool
about_to_look released = true
about_to_look redirtied = true
about_to_look _ = false

-- The newest values that the thread has.
abbrev pub view : Consumer → List ℕ → List ℕ
view (copied vs) seen = vs
view _ seen = seen

abbrev pub is_redirtied : Consumer → Bool
is_redirtied redirtied = true
is_redirtied _ = false

pub quiet {ℓ} :
    {A : Type ℓ} (q t : ℕ) (pending dirty : Bool)
    → q ≡ 0
    → t ≡ 0
    → q + t + 0 + 0 + 0 ≡ bit pending
    → (dirty && not (pending || false)) ≡ false
    → A ⊎ ((dirty || false) ≡ true)
    → A
quiet q t true d e o m a f = absurd (omega (arith, e, o, m))
quiet q t false true e o m a f = cc
quiet q t false false e o m a (inl x) = x
quiet q t false false e o m a (inr x) = cc

module _ (fl : Floats) (hv : Halves) where
  pub record Inv (s : Slave fl) (p : Producer) (c : Consumer) (r : Retrier) (seen : List ℕ)
      : Type 0 where
    pub one_message :
        queued s.msgq
          + bit s.retry_scheduled
          + producer_holds p
          + consumer_holds c
          + retrier_holds r
        ≡ bit s.msg_pending
    pub announced : (s.dirty && not (s.msg_pending || (is_dirtied p || about_to_look c))) ≡ false
    pub fresh :
        (view c seen ≡ take hv.key_count_slave s.latest_slave_values)
        ⊎ ((unannounced p || (s.dirty || about_to_copy c)) ≡ true)
    pub saw_dirty : (is_redirtied c && not s.dirty) ≡ false

  abbrev pub Holds : World fl → Type 0
  Holds (world s p c r seen) = Inv s p c r seen

  -- A message that is held goes to the queue or to the retry work, and nothing else changes.
  pub record Enqueued (s s' : Slave fl) : Type 0 where
    pub moved : queued s'.msgq + bit s'.retry_scheduled ≡ suc (queued s.msgq)
    pub same_pending : s'.msg_pending ≡ s.msg_pending
    pub same_dirty : s'.dirty ≡ s.dirty
    pub same_latest : s'.latest_slave_values ≡ s.latest_slave_values

  pub enqueue-Enqueued :
      (s : Slave fl) → bit s.retry_scheduled ≡ 0 → Enqueued s (enqueue_slave_values_msg fl hv s)
  unfolding enqueue_slave_values_msg put
  enqueue-Enqueued s e = elim (Bool-cases (ltb (length s.msgq) hv.msgq_size)) [
    | inl room ↦ simp room (record {
      moved = omega (arith, queued-append s.msgq slave_values, e);
      same_pending = refl;
      same_dirty = refl;
      same_latest = refl;
    })
    | inr full ↦
        simp full (record {
          moved = omega arith;
          same_pending = refl;
          same_dirty = refl;
          same_latest = refl;
        })
  ]

  pub reset-Inv :
      (s : Slave fl) (p : Producer) (c : Consumer) (r : Retrier) (seen : List ℕ)
      → Inv s p c r seen
      → Inv (receive_reset fl hv s) p c r seen
  unfolding receive_reset put
  reset-Inv s p c r seen i = elim (Bool-cases (ltb (length s.msgq) hv.msgq_size)) [
    | inl room ↦
        simp (receive_reset, put, room)
          (record {
            one_message = omega (arith, i.one_message, queued-append s.msgq slave_keys_reset);
            announced = i.announced;
            fresh = i.fresh;
            saw_dirty = i.saw_dirty;
          })
    | inr full ↦
        simp (receive_reset, put, full)
          (record {
            one_message = i.one_message;
            announced = i.announced;
            fresh = i.fresh;
            saw_dirty = i.saw_dirty;
          })
  ]
