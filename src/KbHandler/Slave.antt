-- ===== src/KbHandler/Slave.antt =====
-- The values of the other half: kb_handler_splitlink_master_adapter.c of subsys/kb_handler. The link gives
-- frames of values to kb_handler_core_handle_slave_values, which leaves at most one message for the thread
-- of the handler; each atomic access is a function of its own, which Slave/Steps interleaves.
pub mod Steps
pub mod Tokens
pub mod Fresh
mod Tests
use ykb_firmware.Base.{
  ℕ, zero, suc, ◌+◌, ◌-◌, Bool, true, false, not, ◌||◌, Option, none, some, List, [], ◌∷◌, ◌++◌,
  ltb, ◌==◌, if◌then◌else◌, length, replicate, take, drop, copy_into,
}
use ykb_firmware.Settings.{normal, race, mousesim, Mode}
use ykb_firmware.Settings.Arithmetic.{Floats}
use ykb_firmware.KbHandler.Actions.{ScriptSlot}
use ykb_firmware.KbHandler.Report.{is_mousesim}
use ykb_firmware.KbHandler.Handler.{
  Build, State, process_values, send_kb_report_if_changed, is_race,
}
use ykb_firmware.KbHandler.Mouse.{send_mouse_report_if_changed}
use ykb_firmware.KbHandler.Race.{send_race_report_if_changed}
use ykb_firmware.KbHandler.Frame.{Handler, note_mouse, finish_value_frame}

-- `enum kbh_thread_msg_type`
pub data ThreadMsg : Type 0 where
  slave_values slave_keys_reset : ThreadMsg

-- A call of YKB_METRICS_KB_MSGQ_PUT: the message, whether the queue refused it, and the messages in it.
pub record Put : Type 0 where
  pub put_msg : ThreadMsg
  pub refused : Bool
  pub used : ℕ

-- KEY_COUNT, KEY_COUNT_SLAVE and CONFIG_KB_HANDLER_MSGQ_SIZE.
pub record Halves : Type 0 where
  pub key_count : ℕ
  pub key_count_slave : ℕ
  pub msgq_size : ℕ

module _ (fl : Floats) where
  -- The static variables of the file, whether slave_values_retry_work is scheduled, and the handler.
  pub record Slave : Type 0 where
    pub latest_slave_values : List ℕ
    pub msg_pending : Bool
    pub dirty : Bool
    pub msgq : List ThreadMsg
    pub retry_scheduled : Bool
    pub puts : List Put
    pub handler : Handler fl

  -- k_msgq_put without waiting: whether it was refused.
  unfoldable pub put : Halves → ThreadMsg → Slave → Bool × Slave
  put hv msg s =
      if ltb (length s.msgq) hv.msgq_size
      then (
        false,
        record s {
          msgq = s.msgq ++ (msg ∷ []);
          puts = record { put_msg = msg; refused = false; used = length s.msgq + 1 } ∷ s.puts;
        },
      )
      else (
        true,
        record s { puts = record { put_msg = msg; refused = true; used = length s.msgq } ∷ s.puts },
      )

  unfoldable pub enqueue_slave_values_msg : Halves → Slave → Slave
  enqueue_slave_values_msg hv s =
      let (err, s') = put hv slave_values s in
      if err then record s' { retry_scheduled = true } else s'

  unfoldable pub slave_values_retry_work_handler : Halves → Slave → Slave
  slave_values_retry_work_handler hv s =
      if not s.msg_pending then s else enqueue_slave_values_msg hv s

  -- atomic_compare_exchange_strong of slave_values_msg_pending, from false to true.
  unfoldable pub claim : Slave → Bool × Slave
  claim s = if s.msg_pending then (false, s) else (true, record s { msg_pending = true })

  unfoldable pub store_latest : List ℕ → Slave → Slave
  store_latest slave_vals s = record s { latest_slave_values = slave_vals }

  -- The copy into the array that kb_handler_core_get_values reads.
  unfoldable pub store_values : Halves → List ℕ → Handler fl → Handler fl
  store_values hv slave_vals h = record h {
    keys = record h.keys { values = copy_into h.keys.values hv.key_count slave_vals };
  }

  unfoldable pub mark_dirty : Halves → List ℕ → Slave → Slave
  mark_dirty hv slave_vals s = record s {
    dirty = true;
    handler = store_values hv slave_vals s.handler;
  }

  -- kb_handler_core_handle_slave_values, where nothing comes between its accesses; `none` is NULL.
  unfoldable pub receive_values : Halves → Option (List ℕ) → Slave → Slave
  receive_values hv none s = s
  receive_values hv (some slave_vals) s =
      if hv.key_count_slave == 0
      then s
      else if not (length slave_vals == hv.key_count_slave)
      then s
      else (let (claimed, s') = claim (mark_dirty hv slave_vals (store_latest slave_vals s)) in
          if claimed then enqueue_slave_values_msg hv s' else s')

  -- kb_handler_core_handle_slave_reset: a refused message is dropped.
  unfoldable pub receive_reset : Halves → Slave → Slave
  receive_reset hv s = (put hv slave_keys_reset s).1

  unfoldable pub handle_slave_values :
      Halves → Build → List ScriptSlot → ℕ → List ℕ → Handler fl → Handler fl
  handle_slave_values hv b slots now_ms slave_vals h =
      if hv.key_count_slave == 0
      then h
      else finish_value_frame fl b now_ms
          (record h { keys = process_values fl b slots hv.key_count slave_vals h.keys })

  -- `memset` of the other half's part of an array.
  unfoldable pub clear_from {ℓ} : {A : Type ℓ} → ℕ → ℕ → A → List A → List A
  clear_from start count a xs = copy_into xs start (replicate count a)

  unfoldable pub clear_slave_keys : Halves → State fl → State fl
  clear_slave_keys hv st = record st {
    pressed_keys = clear_from hv.key_count hv.key_count_slave false st.pressed_keys;
    current_values = clear_from hv.key_count hv.key_count_slave 0 st.current_values;
    notified_press_percent = clear_from hv.key_count hv.key_count_slave 0 st.notified_press_percent;
    values = clear_from hv.key_count hv.key_count_slave 0 st.values;
  }

  unfoldable pub send_reports : Build → ℕ → Handler fl → Handler fl
  send_reports b now_ms h =
      if is_mousesim h.keys.active_mode
      then (let h' =
            note_mouse fl
              (send_mouse_report_if_changed fl h.keys.settings h.keys.current_values
                h.keys.pressed_keys now_ms h.mouse)
              h in
          record h' { keys = send_kb_report_if_changed fl b h'.keys })
      else if is_race h.keys.active_mode
      then record h { keys = send_race_report_if_changed fl b h.keys }
      else record h { keys = send_kb_report_if_changed fl b h.keys }

  -- The branch of handle_thread_msg for a reset.
  unfoldable pub handle_reset : Halves → Build → ℕ → Handler fl → Handler fl
  handle_reset hv b now_ms h =
      if hv.key_count_slave == 0
      then h
      else send_reports b now_ms (record h { keys = clear_slave_keys hv h.keys })

  unfoldable pub clear_dirty : Slave → Slave
  clear_dirty s = record s { dirty = false }

  unfoldable pub release : Slave → Slave
  release s = record s { msg_pending = false }

  unfoldable pub handle_copied : Halves → Build → List ScriptSlot → ℕ → List ℕ → Slave → Slave
  handle_copied hv b slots now_ms slave_vals s = record s {
    handler = handle_slave_values hv b slots now_ms slave_vals s.handler;
  }

  unfoldable pub reset_keys_of : Halves → Build → ℕ → Slave → Slave
  reset_keys_of hv b now_ms s = record s { handler = handle_reset hv b now_ms s.handler }

  -- handle_thread_msg, where nothing comes between its accesses.
  unfoldable pub handle_thread_msg :
      Halves → Build → List ScriptSlot → ℕ → ThreadMsg → Slave → Slave
  handle_thread_msg hv b slots now_ms slave_keys_reset s = reset_keys_of hv b now_ms s
  handle_thread_msg hv b slots now_ms slave_values s =
      if hv.key_count_slave == 0
      then s
      else (let cleared = clear_dirty s in
          let handled =
            handle_copied hv b slots now_ms (take hv.key_count_slave cleared.latest_slave_values)
              cleared in
          let released = release handled in
          if released.dirty
          then (let (claimed, s') = claim released in
              if claimed then enqueue_slave_values_msg hv s' else s')
          else released)

  -- drain_thread_msgs, for at most `fuel` messages.
  unfoldable pub drain_thread_msgs : Halves → Build → List ScriptSlot → ℕ → ℕ → Slave → Slave
  drain_thread_msgs hv b slots now_ms zero s = s
  drain_thread_msgs hv b slots now_ms (suc fuel) s = elim s.msgq [
    | [] ↦ s
    | msg ∷ msgs ↦
        drain_thread_msgs hv b slots now_ms fuel
          (handle_thread_msg hv b slots now_ms msg (record s { msgq = msgs }))
  ]

  -- kb_handler_splitlink_master_init, less the call that attaches the link.
  unfoldable pub slave_init : ℕ → Slave → Slave
  slave_init capacity s = record s {
    latest_slave_values = replicate capacity 0;
    msg_pending = false;
    dirty = false;
  }
