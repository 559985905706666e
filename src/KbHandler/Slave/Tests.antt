-- ===== src/KbHandler/Slave/Tests.antt =====
-- A keyboard of two keys on each half, whose queue holds two messages, while one frame of values comes.
use ykb_firmware.Base.{ℕ, ◌≡◌, ◌≤◌, refl, false, List, [], ◌∷◌, take}
use ykb_firmware.KbHandler.Tests.{floats, handler, build}
use ykb_firmware.KbHandler.Slave.{
  Halves, Slave, put, enqueue_slave_values_msg, claim, store_latest, mark_dirty, clear_dirty,
  release, handle_copied, slave_init,
}
use ykb_firmware.KbHandler.Slave.Steps.{
  waiting, idle, resting, world, store, dirty, claim_values, enqueue, get_values, clear, copy,
  handle, let_go, look, Reach, here, next,
}
use ykb_firmware.KbHandler.Slave.Tokens.{queued}
use ykb_firmware.KbHandler.Slave.Fresh.{Reach-seen, Reach-queued}

abbrev halves : Halves
halves = record { key_count = 2; key_count_slave = 2; msgq_size = 2 }

abbrev slave : Slave floats
slave = record {
  latest_slave_values = [];
  msg_pending = false;
  dirty = false;
  msgq = [];
  retry_scheduled = false;
  puts = [];
  handler = handler;
}

abbrev frame : List ℕ
frame = 5 ∷ 6 ∷ []

abbrev announced : Slave floats
announced =
    (claim floats
      (mark_dirty floats halves frame (store_latest floats frame (slave_init floats 2 slave)))).1

abbrev queued_slave : Slave floats
queued_slave = enqueue_slave_values_msg floats halves announced

abbrev handled_slave : Slave floats
handled_slave = release floats (
    handle_copied floats halves build [] 0 frame
      (clear_dirty floats (record queued_slave { msgq = [] })))

frame_queued :
    Reach floats halves build []
      (world (slave_init floats 2 slave) waiting idle resting (0 ∷ 0 ∷ []))
      (world queued_slave waiting idle resting (0 ∷ 0 ∷ []))
unfolding claim mark_dirty store_latest slave_init
frame_queued =
    next
      (next (next (next here (store _ _ _ _ frame refl)) (dirty _ _ _ _ _))
        (claim_values _ _ _ _ _))
      (enqueue _ _ _ _)

frame_handled :
    Reach floats halves build []
      (world (slave_init floats 2 slave) waiting idle resting (0 ∷ 0 ∷ []))
      (world handled_slave waiting idle resting frame)
unfolding claim mark_dirty store_latest slave_init enqueue_slave_values_msg put clear_dirty
    handle_copied release
frame_handled =
    next
      (next
        (next
          (next
            (next (next frame_queued (get_values queued_slave waiting resting (0 ∷ 0 ∷ []) [] refl))
              (clear _ _ _ _))
            (copy _ _ _ _))
          (handle _ _ _ _ frame 0))
        (let_go _ _ _ _))
      (look _ _ _ _)

handled_msgq : handled_slave.msgq ≡ []
unfolding handle_copied clear_dirty release
handled_msgq = refl

handled_retry : handled_slave.retry_scheduled ≡ false
unfolding claim mark_dirty store_latest slave_init enqueue_slave_values_msg put handle_copied
    clear_dirty release
handled_retry = refl

Reach-seen_example : frame ≡ take 2 handled_slave.latest_slave_values
Reach-seen_example =
    Reach-seen floats halves build [] slave handled_slave 2 frame refl refl frame_handled
      handled_msgq handled_retry

Reach-queued_example : queued queued_slave.msgq ≤ 1
Reach-queued_example =
    Reach-queued floats halves build [] slave queued_slave 2 waiting idle resting (0 ∷ 0 ∷ []) refl
      refl frame_queued
