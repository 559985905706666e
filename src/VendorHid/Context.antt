-- ===== src/VendorHid/Context.antt =====
-- The context of one transport, the parsing of packets and the work that answers a request.
-- `name_size` and `code_size` are the sizes of a slot's arrays.
use ykb_firmware.Base.{
  ℕ, zero, suc, ◌+◌, ◌/◌, ◌%◌, ◌==◌, Bool, true, false, not, Option, none, some, List, [], ◌∷◌,
  ◌++◌, ltb, if◌then◌else◌, take, drop, get_or, length, replicate,
}
use ykb_firmware.Protocol.Packet.{Packet, header_bytes, payload_len_for_index, type_data}
use ykb_firmware.Protocol.Tx.{TxState, tx_init, tx_build_packet}
use ykb_firmware.Protocol.Rx.{RxState, RxResult, is_error, push, rx_init, rx_reset}
use ykb_firmware.Splitlink.Wire.{header_of_bytes, le_field, header_size}
use ykb_firmware.Splitlink.RxSlot.{is_complete_result}
use ykb_firmware.VendorHid.Scripts.{FullSlot, size_bytes, to_wire, from_wire, end_name}
use ykb_firmware.VendorHid.Device.{Device}

-- `response_type`; requests have the same numbers but for the last.
pub data Response : Type 0 where
  features_response values_response settings_response set_settings_ok : Response
  slot_response set_slot_ok slot_info_response clear_slot_ok rename_slot_ok : Response
  battery_response secondary_battery_response error_response : Response

unfoldable pub response_code : Response → ℕ
response_code features_response = 0
response_code values_response = 1
response_code settings_response = 2
response_code set_settings_ok = 3
response_code slot_response = 4
response_code set_slot_ok = 5
response_code slot_info_response = 6
response_code clear_slot_ok = 7
response_code rename_slot_ok = 8
response_code battery_response = 9
response_code secondary_battery_response = 10
response_code error_response = 255

-- The switch on the type of a request.
unfoldable pub response_to : ℕ → Response
response_to type =
    if type == 0
    then features_response
    else if type == 1
    then values_response
    else if type == 2
    then settings_response
    else if type == 3
    then set_settings_ok
    else if type == 4
    then slot_response
    else if type == 5
    then set_slot_ok
    else if type == 6
    then slot_info_response
    else if type == 7
    then clear_slot_ok
    else if type == 8
    then rename_slot_ok
    else if type == 9
    then battery_response
    else if type == 10
    then secondary_battery_response
    else error_response

-- `rx_buffer` is the buffer of `rx`.
pub record Ctx : Type 0 where
  pub rx : RxState
  pub current_response : Response
  pub busy : Bool

-- What vendor_hid_protocol_parse returns: 0, -EINVAL, -EBUSY, -EMSGSIZE, or an error of the receiver.
pub data Code : Type 0 where
  success invalid busy_code short_packet : Code
  rx_error : RxResult → Code

-- The memory at `data`, read as a packet.
unfoldable pub packet_at : List ℕ → Packet
packet_at memory = record { header = header_of_bytes memory; payload = drop header_size memory }

module _ (mp : ℕ) where
  unfoldable pub ctx_init : ℕ → Ctx
  ctx_init buffer_size = record {
    rx = rx_init (replicate buffer_size 0) buffer_size false none;
    current_response = features_response;
    busy = false;
  }

  -- vendor_hid_protocol_parse on the memory from `data` on; the work is submitted exactly when `busy`
  -- is set.
  unfoldable pub parse : Ctx → Option (List ℕ) → ℕ → Code × Ctx
  parse ctx none len = (invalid, ctx)
  parse ctx (some memory) len =
      let (res, rx) = push mp ctx.rx (packet_at memory) in
      if ctx.busy
      then (busy_code, ctx)
      else if ltb len header_size
      then (short_packet, ctx)
      else if is_error res
      then (rx_error res, record ctx { rx = rx })
      else if not (is_complete_result res)
      then (success, record ctx { rx = rx })
      else (
        success,
        record ctx { rx = rx; busy = true; current_response = response_to (get_or rx.buffer 0 0) },
      )

  -- The loop that sends the response, with the answers of `send_packet`, of which `false` is an error
  -- and ends it; the frames that were taken. More than `fuel` packets are not sent.
  unfoldable pub send_loop : ℕ → List Bool → TxState → List (List ℕ)
  send_loop zero answers tx = []
  send_loop (suc fuel) [] tx = []
  send_loop (suc fuel) (answer ∷ answers) tx = elim (tx_build_packet mp tx) [
    | none ↦ []
    | some (p, tx') ↦
        let rest = send_loop fuel answers tx' in
        let len =
          header_size
          + payload_len_for_index mp tx'.total_len p.header.packet_idx tx'.packet_count in
        if answer then take len (header_bytes p.header ++ p.payload) ∷ rest else []
  ]

  module _ {D : Type 0} (dev : Device D) (name_size code_size : ℕ) where
    -- `response_code` alone.
    unfoldable pub code_only : Response → List ℕ
    code_only response = response_code response ∷ []

    unfoldable pub ok_or_error : Response → Bool × D → List ℕ × D
    ok_or_error response (done, d) = (code_only (if done then response else error_response), d)

    unfoldable pub rename_script_slot : ℕ → List ℕ → D → Bool × D
    rename_script_slot i name d = elim (dev.get_slot d i) [
      | none ↦ (false, d)
      | some slot ↦
          dev.set_slot d i (record slot { name = end_name name_size (take name_size name) })
    ]

    unfoldable pub slot_info : ℕ → FullSlot → List ℕ
    slot_info i slot =
        (i % 256)
        ∷ (i / 256)
        ∷ (if slot.occupied then 1 else 0)
        ∷ (size_bytes slot.size ++ slot.name)

    unfoldable pub blank_slot : FullSlot
    blank_slot = record {
      occupied = false;
      size = 0;
      name = replicate name_size 0;
      bytecode = replicate code_size 0;
    }

    -- The switch of response_work_handler: the bytes to send, for the request's data.
    unfoldable pub respond : Response → List ℕ → D → List ℕ × D
    respond features_response request d = (dev.features, d)
    respond values_response request d = (dev.get_values d, d)
    respond settings_response request d = elim (dev.get_settings d) [
      | none ↦ (code_only error_response, d)
      | some bytes ↦ (bytes, d)
    ]
    respond set_settings_ok request d = ok_or_error set_settings_ok (dev.apply_settings d request)
    respond slot_response request d = elim (dev.get_slot d (le_field request 0)) [
      | none ↦ (code_only error_response, d)
      | some slot ↦ ((le_field request 0 % 256) ∷ (le_field request 0 / 256) ∷ to_wire slot, d)
    ]
    respond set_slot_ok request d =
        ok_or_error set_slot_ok
          (dev.set_slot d (le_field request 0) (from_wire name_size code_size (drop 2 request)))
    respond slot_info_response request d = elim (dev.get_slot d (le_field request 0)) [
      | none ↦ (code_only error_response, d)
      | some slot ↦ (slot_info (le_field request 0) slot, d)
    ]
    respond clear_slot_ok request d =
        ok_or_error clear_slot_ok (dev.set_slot d (le_field request 0) blank_slot)
    respond rename_slot_ok request d =
        ok_or_error rename_slot_ok (rename_script_slot (le_field request 0) (drop 2 request) d)
    respond battery_response request d = elim (dev.get_battery d) [
      | none ↦ (code_only error_response, d)
      | some bytes ↦ (bytes, d)
    ]
    respond secondary_battery_response request d = (dev.secondary_battery d, d)
    respond error_response request d = (code_only error_response, d)

    -- response_work_handler: the frames that are sent, the context and the device.
    unfoldable pub response_work : ℕ → List Bool → Ctx → D → List (List ℕ) × Ctx × D
    response_work fuel answers ctx d =
        let (bytes, d') = respond ctx.current_response (drop 1 ctx.rx.buffer) d in
        (
          send_loop fuel answers (tx_init mp (some bytes) (length bytes) 0 type_data),
          record ctx { rx = rx_reset ctx.rx; busy = false },
          d',
        )
