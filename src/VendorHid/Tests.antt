-- ===== src/VendorHid/Tests.antt =====
-- A device with one script slot, and the theorems at work on it.
use ykb_firmware.Base.{
  ℕ, ◌^◌, ◌≤◌, ◌<◌, ◌≡◌, refl, true, false, none, some, List, [], ◌∷◌, map, length, replicate,
  arith, drop,
}
use ykb_firmware.Protocol.Packet.{Packet, calc_packet_count}
use ykb_firmware.Protocol.Tx.Packets.{packets}
use ykb_firmware.Protocol.Rx.{RxState, RxResult, accepted, is_error, rx_init, rx_reset}
use ykb_firmware.Protocol.Exchange.{IsReady}
use ykb_firmware.Protocol.Exchange.Delivery.{receive, IsDelivered}
use ykb_firmware.Splitlink.Wire.{wire_bytes, header_of_bytes, le_field}
use ykb_firmware.VendorHid.Scripts.{FullSlot, end_name}
use ykb_firmware.VendorHid.Device.{Device, IsStore}
use ykb_firmware.VendorHid.Context.{
  Ctx, features_response, rx_error, parse, packet_at, ctx_init, respond, response_work,
}
use ykb_firmware.VendorHid.Exchange.{
  all_true, response_message, response_message-IsData, response_work_lem,
}
use ykb_firmware.VendorHid.Refused.{IsMidway, parse_restart}
use ykb_firmware.VendorHid.Slots.{IsSized}

abbrev script : FullSlot
script = record { occupied = true; size = 2; name = 65 ∷ 66 ∷ 0 ∷ []; bytecode = 7 ∷ 8 ∷ [] }

abbrev one_slot : Device FullSlot
one_slot = record {
  features = 1 ∷ 2 ∷ 3 ∷ 4 ∷ 5 ∷ [];
  get_values = λ d. 0 ∷ 0 ∷ [];
  get_settings = λ d. none;
  apply_settings = λ d bytes. (false, d);
  get_slot = λ d i. some d;
  set_slot = λ d i slot. (true, slot);
  get_battery = λ d. some (80 ∷ []);
  secondary_battery = λ d. 0 ∷ [];
}

one_slot-IsStore : IsStore one_slot
one_slot-IsStore = record { get-set = λ d i slot h. refl }

script-IsSized : IsSized 3 2 script
unfolding end_name
script-IsSized = record {
  word = omega arith;
  name_length = refl;
  code_length = refl;
  name_ends = refl;
}

-- A context whose receiver awaits the second packet of a request.
abbrev halfway : Ctx
halfway = record (ctx_init 3 8) {
  rx = record (rx_init (replicate 8 0) 8 false none) {
    is_active = true;
    transfer_id = 0;
    total_len = 5;
    packet_count = 2;
    received_bytes = 3;
    received_count = 1;
    next_expected_packet_idx = 1;
  };
}

halfway-IsMidway : IsMidway halfway.rx
unfolding rx_init
halfway-IsMidway = record { active = refl; strict = refl; later = omega arith }

halfway_free : halfway.busy ≡ false
unfolding ctx_init
halfway_free = refl

abbrev anew : List ℕ
anew = 0 ∷ 0 ∷ 1 ∷ 4 ∷ 0 ∷ 0 ∷ 0 ∷ 2 ∷ 0 ∷ 5 ∷ 0 ∷ 1 ∷ 2 ∷ 3 ∷ []

anew_first : (packet_at anew).header.packet_idx ≡ 0
unfolding packet_at header_of_bytes le_field
anew_first = refl

parse_restart_example :
    (res : RxResult) × (parse 3 halfway (some anew) 14 ≡ (rx_error res, halfway))
    × (is_error res ≡ true)
parse_restart_example =
    parse_restart 3 halfway anew 14 (omega arith) halfway-IsMidway halfway_free (omega arith)
      anew_first

abbrev asked : Ctx
asked = record (ctx_init 3 8) { busy = true; current_response = features_response }

abbrev host : RxState
host = rx_init (replicate 8 0) 8 false none

abbrev feature_bytes : List ℕ
feature_bytes = (respond 3 one_slot 3 2 asked.current_response (drop 1 asked.rx.buffer) script).0

features_small : length feature_bytes < 2 ^ 16
unfolding respond ctx_init
features_small = omega arith

two_packets : packets 3 (response_message feature_bytes) ≤ 2
unfolding respond ctx_init calc_packet_count response_message
two_packets = omega arith

host-IsReady : IsReady 3 (response_message feature_bytes) host
unfolding rx_init respond ctx_init response_message
host-IsReady = record { idle = refl; storage = omega arith; room = omega arith; bitmap = λ e. cc }

response_work_lem_example :
    let (frames, ctx', d') = response_work 3 one_slot 3 2 2 (all_true 2) asked script in
    (ps : List Packet) × (frames ≡ map (wire_bytes 3) ps)
    × IsDelivered 3
        (response_message feature_bytes)
        (omega arith)
        (response_message-IsData feature_bytes features_small)
        (receive 3 (accepted, host) ps)
    × (ctx'.busy ≡ false)
    × (ctx'.rx ≡ rx_reset asked.rx)
response_work_lem_example =
    response_work_lem 3 one_slot 3 2 2 2 asked script host (omega arith) features_small two_packets
      two_packets host-IsReady
