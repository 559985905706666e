-- ===== src/KbHandler/Slave/Fresh.antt =====
-- No values of the other half are lost between the link and the thread of the handler.
use ykb_firmware.Base.{
  ℕ, suc, ◌+◌, ◌≡◌, ◌≤◌, refl, ap, Bool, true, false, List, [], take, replicate, arith, inl, inr,
  Bool-cases,
}
use ykb_firmware.Settings.Arithmetic.{Floats}
use ykb_firmware.KbHandler.Actions.{ScriptSlot}
use ykb_firmware.KbHandler.Handler.{Build}
use ykb_firmware.KbHandler.Slave.{
  Halves, Slave, put, claim, store_latest, mark_dirty, receive_reset, clear_dirty, release,
  handle_copied, reset_keys_of, slave_init,
}
use ykb_firmware.KbHandler.Slave.Steps.{
  Producer, waiting, claimed_msg, Consumer, idle, reclaimed, Retrier, resting, checked, World,
  world, Step, store, dirty, claim_values, enqueue, reset, get_values, get_reset, clear, copy,
  handle, let_go, look, reclaim, reenqueue, retry, requeue, Reach, here, next,
}
use ykb_firmware.KbHandler.Slave.Tokens.{
  bit, queued, producer_holds, consumer_holds, retrier_holds, unannounced, is_dirtied,
  about_to_copy, about_to_look, view, is_redirtied, quiet, Inv, Holds, Enqueued, enqueue-Enqueued,
  reset-Inv,
}

module _ (fl : Floats) (hv : Halves) where
  module _ (b : Build) (slots : List ScriptSlot) where
    enqueue-Inv :
        (s s' : Slave fl) (p p' : Producer) (c c' : Consumer) (r r' : Retrier) (seen : List ℕ)
        → Enqueued fl hv s s'
        → producer_holds p + consumer_holds c + retrier_holds r
          ≡ suc (producer_holds p' + consumer_holds c' + retrier_holds r')
        → unannounced p ≡ unannounced p'
        → is_dirtied p ≡ is_dirtied p'
        → view c seen ≡ view c' seen
        → about_to_copy c ≡ about_to_copy c'
        → about_to_look c ≡ about_to_look c'
        → is_redirtied c ≡ is_redirtied c'
        → Inv fl hv s p c r seen
        → Inv fl hv s' p' c' r' seen
    enqueue-Inv s s' p p' c c' r r' seen q h u d v a l k i = record {
      one_message = ground (arith, q.moved, q.same_pending, i.one_message, h);
      announced = rw (q.same_dirty, q.same_pending, ← d, ← l) i.announced;
      fresh = rw (q.same_dirty, q.same_latest, ← u, ← v, ← a) i.fresh;
      saw_dirty = rw (q.same_dirty, ← k) i.saw_dirty;
    }

    no_retry :
        (q t x y z : ℕ) (pending : Bool) → q + t + x + y + z ≡ bit pending → 1 ≤ x + y + z → t ≡ 0
    no_retry q t x y z true e h = omega arith
    no_retry q t x y z false e h = omega arith

    freed : (q t x z : ℕ) (pending : Bool) → q + t + x + 1 + z ≡ bit pending → q + t + x + 0 + z ≡ 0
    freed q t x z true e = omega arith
    freed q t x z false e = omega arith

    Step-Holds : {u v : World fl} → Step fl hv b slots u v → Holds fl hv u → Holds fl hv v
    unfolding claim store_latest mark_dirty receive_reset put clear_dirty release handle_copied
        reset_keys_of
    Step-Holds (store s c r seen vs e) i = record {
      one_message = i.one_message;
      announced = i.announced;
      fresh = inr refl;
      saw_dirty = i.saw_dirty;
    }
    Step-Holds (dirty s c r seen vs) i = record {
      one_message = i.one_message;
      announced = ground arith;
      fresh = inr refl;
      saw_dirty = ground arith;
    }
    Step-Holds (claim_values s c r seen vs) i = elim (Bool-cases s.msg_pending) [
      | inl e ↦ simp e (record {
        one_message = i.one_message;
        announced = ground (arith, e, i.announced);
        fresh = i.fresh;
        saw_dirty = i.saw_dirty;
      })
      | inr e ↦ simp e (record {
        one_message = ground (arith, e, i.one_message);
        announced = ground arith;
        fresh = i.fresh;
        saw_dirty = i.saw_dirty;
      })
    ]
    Step-Holds (enqueue s c r seen) i =
        enqueue-Inv s _ claimed_msg waiting c c r r seen
          (enqueue-Enqueued fl hv s (no_retry _ _ _ _ _ s.msg_pending i.one_message (omega arith)))
          (omega arith) refl refl refl refl refl refl i
    Step-Holds (reset s c r seen) i = reset-Inv fl hv s waiting c r seen i
    Step-Holds (get_values s p r seen msgs e) i = record {
      one_message = omega (arith, i.one_message, ap queued e);
      announced = i.announced;
      fresh = inr (ground arith);
      saw_dirty = refl;
    }
    Step-Holds (get_reset s p r seen msgs now_ms e) i = record {
      one_message = omega (arith, i.one_message, ap queued e);
      announced = i.announced;
      fresh = i.fresh;
      saw_dirty = refl;
    }
    Step-Holds (clear s p r seen) i = record {
      one_message = i.one_message;
      announced = refl;
      fresh = inr (ground arith);
      saw_dirty = refl;
    }
    Step-Holds (copy s p r seen) i = record {
      one_message = i.one_message;
      announced = i.announced;
      fresh = inl refl;
      saw_dirty = refl;
    }
    Step-Holds (handle s p r seen vs now_ms) i = record {
      one_message = i.one_message;
      announced = i.announced;
      fresh = i.fresh;
      saw_dirty = refl;
    }
    Step-Holds (let_go s p r seen) i = record {
      one_message = freed _ _ _ _ s.msg_pending i.one_message;
      announced = ground arith;
      fresh = i.fresh;
      saw_dirty = refl;
    }
    Step-Holds (look s p r seen) i = elim (Bool-cases s.dirty) [
      | inl e ↦ simp e (record {
        one_message = i.one_message;
        announced = i.announced;
        fresh = i.fresh;
        saw_dirty = ground (arith, e);
      })
      | inr e ↦ simp e (record {
        one_message = i.one_message;
        announced = ground (arith, e);
        fresh = i.fresh;
        saw_dirty = refl;
      })
    ]
    Step-Holds (reclaim s p r seen) i = elim (Bool-cases s.msg_pending) [
      | inl e ↦ simp e (record {
        one_message = i.one_message;
        announced = ground (arith, e, i.announced);
        fresh = i.fresh;
        saw_dirty = refl;
      })
      | inr e ↦ simp e (record {
        one_message = ground (arith, e, i.one_message);
        announced = ground arith;
        fresh = i.fresh;
        saw_dirty = refl;
      })
    ]
    Step-Holds (reenqueue s p r seen) i =
        enqueue-Inv s _ p p reclaimed idle r r seen
          (enqueue-Enqueued fl hv s (no_retry _ _ _ _ _ s.msg_pending i.one_message (omega arith)))
          (omega arith) refl refl refl refl refl refl i
    Step-Holds (retry s p c seen e) i = elim (Bool-cases s.msg_pending) [
      | inl on ↦ simp on (record {
        one_message = ground (arith, e, i.one_message);
        announced = ground (arith, on, i.announced);
        fresh = i.fresh;
        saw_dirty = i.saw_dirty;
      })
      | inr off ↦ simp off (record {
        one_message = ground (arith, e, off, i.one_message);
        announced = ground (arith, off, i.announced);
        fresh = i.fresh;
        saw_dirty = i.saw_dirty;
      })
    ]
    Step-Holds (requeue s p c seen) i =
        enqueue-Inv s _ p p c c checked resting seen
          (enqueue-Enqueued fl hv s (no_retry _ _ _ _ _ s.msg_pending i.one_message (omega arith)))
          (omega arith) refl refl refl refl refl refl i

    Reach-Holds : {u v : World fl} → Reach fl hv b slots u v → Holds fl hv u → Holds fl hv v
    Reach-Holds here h = h
    Reach-Holds (next r st) h = Step-Holds st (Reach-Holds r h)

    start-Holds :
        (s : Slave fl) (capacity : ℕ)
        → s.msgq ≡ []
        → s.retry_scheduled ≡ false
        → Holds fl hv (
            world
              (slave_init fl capacity s)
              waiting
              idle
              resting
              (take hv.key_count_slave (replicate capacity 0)))
    unfolding slave_init
    start-Holds s capacity e o = record {
      one_message = ground (arith, e, o);
      announced = refl;
      fresh = inl refl;
      saw_dirty = refl;
    }

    -- However the link, the thread and the retry work interleave after the initialisation, once all three are idle, the queue is empty and no retry is scheduled, the values that the thread handled last are the ones received last.
    pub Reach-seen :
        (s s' : Slave fl) (capacity : ℕ) (seen : List ℕ)
        → s.msgq ≡ []
        → s.retry_scheduled ≡ false
        → Reach fl hv b slots
            (world
              (slave_init fl capacity s)
              waiting
              idle
              resting
              (take hv.key_count_slave (replicate capacity 0)))
            (world s' waiting idle resting seen)
        → s'.msgq ≡ []
        → s'.retry_scheduled ≡ false
        → seen ≡ take hv.key_count_slave s'.latest_slave_values
    Reach-seen s s' capacity seen e o r empty off =
        let i = Reach-Holds r (start-Holds s capacity e o) in
        quiet _ _ s'.msg_pending s'.dirty (ap queued empty) (ap bit off) i.one_message i.announced
          i.fresh

    -- However the three interleave, at most one message of values is in the queue.
    pub Reach-queued :
        (s s' : Slave fl) (capacity : ℕ) (p : Producer) (c : Consumer) (r : Retrier) (seen : List ℕ)
        → s.msgq ≡ []
        → s.retry_scheduled ≡ false
        → Reach fl hv b slots
            (world
              (slave_init fl capacity s)
              waiting
              idle
              resting
              (take hv.key_count_slave (replicate capacity 0)))
            (world s' p c r seen)
        → queued s'.msgq ≤ 1
    Reach-queued s s' capacity p c r seen e o st =
        at_most _ _ _ _ _ s'.msg_pending (Reach-Holds st (start-Holds s capacity e o)).one_message
      where
        at_most : (q t x y z : ℕ) (pending : Bool) → q + t + x + y + z ≡ bit pending → q ≤ 1
        at_most q t x y z true h = omega arith
        at_most q t x y z false h = omega arith
