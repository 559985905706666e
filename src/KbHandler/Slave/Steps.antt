-- ===== src/KbHandler/Slave/Steps.antt =====
-- kb_handler_splitlink_master_adapter.c with its three contexts interleaved: the link that receives values,
-- the thread of the handler, and the retry work of the system's queue. A step is one access to what they
-- share, and the accesses of all three are taken to be in one order.
use ykb_firmware.Base.{ℕ, ◌≡◌, true, false, List, ◌∷◌, if◌then◌else◌, length, take}
use ykb_firmware.Settings.Arithmetic.{Floats}
use ykb_firmware.KbHandler.Actions.{ScriptSlot}
use ykb_firmware.KbHandler.Handler.{Build}
use ykb_firmware.KbHandler.Slave.{
  ThreadMsg, slave_values, slave_keys_reset, Halves, Slave, enqueue_slave_values_msg, claim,
  store_latest, mark_dirty, receive_reset, clear_dirty, release, handle_copied, reset_keys_of,
}

-- Where kb_handler_core_handle_slave_values stands: outside, after the values are stored, after
-- slave_values_dirty is set, and after slave_values_msg_pending was claimed.
pub data Producer : Type 0 where
  waiting claimed_msg : Producer
  stored dirtied : List ℕ → Producer

-- Where the thread stands in handle_thread_msg.
pub data Consumer : Type 0 where
  idle got cleared handled released redirtied reclaimed : Consumer
  copied : List ℕ → Consumer

-- Where slave_values_retry_work_handler stands: outside, or after it saw slave_values_msg_pending set.
pub data Retrier : Type 0 where
  resting checked : Retrier

module _ (fl : Floats) where
  -- The shared state, the three contexts, and the values that the thread handled last.
  pub data World : Type 0 where
    world : Slave fl → Producer → Consumer → Retrier → List ℕ → World

  module _ (hv : Halves) (b : Build) (slots : List ScriptSlot) where
    abbrev pub claim_by {ℓ} : {P : Type ℓ} → Slave fl → P → P → P
    claim_by s won lost = if (claim fl s).0 then won else lost

    pub data Step : World → World → Type 0 where
      store :
          (s : Slave fl) (c : Consumer) (r : Retrier) (seen vs : List ℕ)
          → length vs ≡ hv.key_count_slave
          → Step (world s waiting c r seen) (world (store_latest fl vs s) (stored vs) c r seen)
      dirty :
          (s : Slave fl) (c : Consumer) (r : Retrier) (seen vs : List ℕ)
          → Step
              (world s (stored vs) c r seen)
              (world (mark_dirty fl hv vs s) (dirtied vs) c r seen)
      claim_values :
          (s : Slave fl) (c : Consumer) (r : Retrier) (seen vs : List ℕ)
          → Step
              (world s (dirtied vs) c r seen)
              (world (claim fl s).1 (claim_by s claimed_msg waiting) c r seen)
      enqueue :
          (s : Slave fl) (c : Consumer) (r : Retrier) (seen : List ℕ)
          → Step
              (world s claimed_msg c r seen)
              (world (enqueue_slave_values_msg fl hv s) waiting c r seen)
      reset :
          (s : Slave fl) (c : Consumer) (r : Retrier) (seen : List ℕ)
          → Step (world s waiting c r seen) (world (receive_reset fl hv s) waiting c r seen)
      get_values :
          (s : Slave fl) (p : Producer) (r : Retrier) (seen : List ℕ) (msgs : List ThreadMsg)
          → s.msgq ≡ slave_values ∷ msgs
          → Step (world s p idle r seen) (world (record s { msgq = msgs }) p got r seen)
      get_reset :
          (s : Slave fl) (p : Producer) (r : Retrier) (seen : List ℕ) (msgs : List ThreadMsg)
          (now_ms : ℕ)
          → s.msgq ≡ slave_keys_reset ∷ msgs
          → Step
              (world s p idle r seen)
              (world (reset_keys_of fl hv b now_ms (record s { msgq = msgs })) p idle r seen)
      clear :
          (s : Slave fl) (p : Producer) (r : Retrier) (seen : List ℕ)
          → Step (world s p got r seen) (world (clear_dirty fl s) p cleared r seen)
      copy :
          (s : Slave fl) (p : Producer) (r : Retrier) (seen : List ℕ)
          → Step
              (world s p cleared r seen)
              (world s p (copied (take hv.key_count_slave s.latest_slave_values)) r seen)
      handle :
          (s : Slave fl) (p : Producer) (r : Retrier) (seen vs : List ℕ) (now_ms : ℕ)
          → Step
              (world s p (copied vs) r seen)
              (world (handle_copied fl hv b slots now_ms vs s) p handled r vs)
      let_go :
          (s : Slave fl) (p : Producer) (r : Retrier) (seen : List ℕ)
          → Step (world s p handled r seen) (world (release fl s) p released r seen)
      look :
          (s : Slave fl) (p : Producer) (r : Retrier) (seen : List ℕ)
          → Step
              (world s p released r seen)
              (world s p (if s.dirty then redirtied else idle) r seen)
      reclaim :
          (s : Slave fl) (p : Producer) (r : Retrier) (seen : List ℕ)
          → Step
              (world s p redirtied r seen)
              (world (claim fl s).1 p (claim_by s reclaimed idle) r seen)
      reenqueue :
          (s : Slave fl) (p : Producer) (r : Retrier) (seen : List ℕ)
          → Step
              (world s p reclaimed r seen)
              (world (enqueue_slave_values_msg fl hv s) p idle r seen)
      retry :
          (s : Slave fl) (p : Producer) (c : Consumer) (seen : List ℕ)
          → s.retry_scheduled ≡ true
          → Step (world s p c resting seen) (
              world
                (record s { retry_scheduled = false })
                p
                c
                (if s.msg_pending then checked else resting)
                seen)
      requeue :
          (s : Slave fl) (p : Producer) (c : Consumer) (seen : List ℕ)
          → Step
              (world s p c checked seen)
              (world (enqueue_slave_values_msg fl hv s) p c resting seen)

    pub data Reach (w : World) : World → Type 0 where
      here : Reach w w
      next : {u v : World} → Reach w u → Step u v → Reach w v
