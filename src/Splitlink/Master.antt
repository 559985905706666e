-- ===== src/Splitlink/Master.antt =====
-- The sending side of the master half: settings, the manifest of the scripts, and the queue of script
-- slots to send. `script_bytes` gives the bytes of the structure that ykb_backlight_get_script_slot fills
-- in, or `none` where that fails. Structures are the bytes that they have in memory.
pub mod Queue
use ykb_firmware.Base.{
  ℕ, zero, suc, ◌/◌, ◌%◌, Bool, true, false, not, ◌||◌, Option, none, some, List, [], ◌∷◌, ◌++◌,
  leb, if◌then◌else◌, replicate, set, length,
}
use ykb_firmware.Splitlink.TxSlot.{
  TxSlot, is_transceiving, Answer, Next, out, Work, tx_slot_begin_transfer,
  tx_slot_begin_transfer_or_log_busy, tx_slot_work,
}
use ykb_firmware.Splitlink.Slave.{reaches_out}

-- script_slot_sync_mark_pending_locked.
unfoldable pub mark_pending : List Bool → ℕ → List Bool
mark_pending pending slot = if leb (length pending) slot then pending else set pending slot true

-- script_slot_sync_take_next_locked, from index `idx` on: the slot, and the flags.
unfoldable pub take_next_from : ℕ → List Bool → Option (ℕ × List Bool)
take_next_from idx [] = none
take_next_from idx (false ∷ rest) = elim (take_next_from (suc idx) rest) [
  | none ↦ none
  | some (slot, rest') ↦ some (slot, false ∷ rest')
]
take_next_from idx (true ∷ rest) = some (idx, false ∷ rest)

unfoldable pub take_next : List Bool → Option (ℕ × List Bool)
take_next pending = take_next_from 0 pending

pub record Master : Type 0 where
  pub connected : Bool
  pub settings_tx : TxSlot
  pub scripts_manifest_tx : TxSlot
  pub script_slot_tx : TxSlot
  pub script_slot_sync_pending : List Bool

-- splitlink_script_slot_packet_t: the number of the slot and its script.
unfoldable pub slot_packet_bytes : ℕ → List ℕ → List ℕ
slot_packet_bytes slot payload = (slot % 256) ∷ (slot / 256) ∷ payload

module _ (mp : ℕ) (script_bytes : ℕ → Option (List ℕ)) where
  -- script_slot_sync_kick_locked.
  unfoldable pub kick : Master → Master
  kick s =
      if not s.connected || is_transceiving s.script_slot_tx.state
      then s
      else elim (take_next s.script_slot_sync_pending) [
        | none ↦ s
        | some (slot, pending) ↦ elim (script_bytes slot) [
          | none ↦ record s { script_slot_sync_pending = pending }
          | some payload ↦ record s {
            script_slot_sync_pending = pending;
            script_slot_tx =
                (tx_slot_begin_transfer mp s.script_slot_tx (slot_packet_bytes slot payload)).1;
          }
        ]
      ]

  unfoldable pub queue_script_slot_sync : Master → ℕ → Master
  queue_script_slot_sync s slot =
      if leb (length s.script_slot_sync_pending) slot
      then s
      else kick
          (record s { script_slot_sync_pending = mark_pending s.script_slot_sync_pending slot })

  -- tx_slot_work_handler of the slot that sends scripts: the bytes sent, and the half.
  unfoldable pub script_slot_work : Answer → Master → Option (List ℕ) × Master
  script_slot_work answer s =
      let w = tx_slot_work mp answer s.script_slot_tx in
      let s' = record s { script_slot_tx = w.slot } in
      (w.call, if reaches_out w.next then kick s' else s')

module _ (mp : ℕ) where
  unfoldable pub send_settings : Master → Option (List ℕ) → Master
  send_settings s none = s
  send_settings s (some bytes) =
      if not s.connected
      then s
      else record s { settings_tx = (tx_slot_begin_transfer_or_log_busy mp s.settings_tx bytes).1 }

  unfoldable pub send_scripts_manifest : Master → Option (List ℕ) → Master
  send_scripts_manifest s none = s
  send_scripts_manifest s (some bytes) = if not s.connected then s else record s {
    scripts_manifest_tx = (tx_slot_begin_transfer_or_log_busy mp s.scripts_manifest_tx bytes).1;
  }

  unfoldable pub send_script_slot : Master → Option (List ℕ) → Master
  send_script_slot s none = s
  send_script_slot s (some bytes) = if not s.connected then s else record s {
    script_slot_tx = (tx_slot_begin_transfer_or_log_busy mp s.script_slot_tx bytes).1;
  }

  -- tx_slot_work_handler of the other two slots.
  unfoldable pub settings_work : Answer → Master → Option (List ℕ) × Master
  settings_work answer s =
      let w = tx_slot_work mp answer s.settings_tx in (w.call, record s { settings_tx = w.slot })

  unfoldable pub manifest_work : Answer → Master → Option (List ℕ) × Master
  manifest_work answer s =
      let w = tx_slot_work mp answer s.scripts_manifest_tx in
      (w.call, record s { scripts_manifest_tx = w.slot })

-- splitlink_sync_init, on_connect and on_disconnect.
unfoldable pub clear_pending : Master → Master
clear_pending s = record s {
  connected = false;
  script_slot_sync_pending = replicate (length s.script_slot_sync_pending) false;
}

unfoldable pub master_on_connect : Master → Master
master_on_connect s = record s { connected = true }
