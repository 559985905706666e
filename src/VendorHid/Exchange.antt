-- ===== src/VendorHid/Exchange.antt =====
-- A response on its way to the host, packets that are refused, and the script slots on the wire.
use ykb_firmware.Base.{
  ℕ, zero, suc, ◌+◌, ◌^◌, ◌≤◌, ◌<◌, ◌≡◌, refl, sym, ap, ◌∙◌, Bool, true, false, some, List, ◌∷◌,
  ◌++◌, map, take, drop, length, replicate, arith,
}
use ykb_firmware.Protocol.Packet.{Packet, payload_len_for_index, header_bytes, type_data, get_type}
use ykb_firmware.Protocol.Tx.Packets.{
  Message, IsData, tx_at, packet_of, packets_from, packets, build_at, build_end, tx_init-tx_at,
  tx_packets-tx_init,
}
use ykb_firmware.Protocol.Rx.{RxState, accepted, rx_reset}
use ykb_firmware.Protocol.Exchange.{IsReady}
use ykb_firmware.Protocol.Exchange.Delivery.{receive, IsDelivered, transfer_in_order}
use ykb_firmware.Splitlink.Wire.{wire_bytes, packet_len, header_size}
use ykb_firmware.VendorHid.Device.{Device}
use ykb_firmware.VendorHid.Context.{Ctx, send_loop, respond, response_work}

kind_of_data : get_type type_data ≡ type_data
unfolding get_type
kind_of_data = refl

abbrev pub all_true : ℕ → List Bool
all_true n = replicate n true

module _ (mp : ℕ) (m : Message) (mp_pos : 0 < mp) (d : IsData m) where
  same_frame :
      (i : ℕ)
      → take
          (header_size
            + payload_len_for_index mp
                (tx_at mp m (suc i)).total_len
                (packet_of mp m i).header.packet_idx
                (tx_at mp m (suc i)).packet_count)
          (header_bytes (packet_of mp m i).header ++ (packet_of mp m i).payload)
        ≡ wire_bytes mp (packet_of mp m i)
  unfolding tx_at wire_bytes packet_len packet_of
  same_frame i = refl

  send_loop-tx_at :
      (fuel n i k : ℕ)
      → k ≤ fuel
      → k ≤ n
      → i + k ≡ packets mp m
      → send_loop mp fuel (all_true n) (tx_at mp m i) ≡ map (wire_bytes mp) (packets_from mp m i k)
  unfolding send_loop packets_from
  send_loop-tx_at zero n i zero hf hn e = refl
  send_loop-tx_at zero n i (suc k) hf hn e = absurd (omega arith)
  send_loop-tx_at (suc fuel) zero i zero hf hn e = refl
  send_loop-tx_at (suc fuel) zero i (suc k) hf hn e = absurd (omega arith)
  send_loop-tx_at (suc fuel) (suc n) i zero hf hn e =
      rw (at_end, send_loop, build_end mp m mp_pos d) refl
    where
      at_end : i ≡ packets mp m
      at_end = omega arith
  send_loop-tx_at (suc fuel) (suc n) i (suc k) hf hn e =
      rw (send_loop, build_at mp m mp_pos d i (omega arith), same_frame i)
        (ap (λ fs. wire_bytes mp (packet_of mp m i) ∷ fs)
          (send_loop-tx_at fuel n (suc i) k (omega arith) (omega arith) (omega arith)))

-- The message of a response.
unfoldable pub response_message : List ℕ → Message
response_message bytes = record { bytes = bytes; transfer_id = 0; type_flags = type_data }

pub response_message-IsData :
    (bytes : List ℕ) → length bytes < 2 ^ 16 → IsData (response_message bytes)
unfolding response_message
response_message-IsData bytes h = record { word = h; byte = omega arith; kind = kind_of_data }

-- When every packet of a response is taken, the packets that the work of a request sends leave the bytes of the response, as `respond` gives them, in the buffer of a host that waits for them; and the context is free with its receiver reset.
pub response_work_lem :
    {D : Type 0} (mp : ℕ) (dev : Device D) (name_size code_size fuel n : ℕ) (ctx : Ctx) (d : D)
    (host : RxState) (mp_pos : 0 < mp)
    → let bytes =
        (respond mp dev name_size code_size ctx.current_response (drop 1 ctx.rx.buffer) d).0 in
      (small : length bytes < 2 ^ 16)
      → packets mp (response_message bytes) ≤ fuel
      → packets mp (response_message bytes) ≤ n
      → IsReady mp (response_message bytes) host
      → let (frames, ctx', d') = response_work mp dev name_size code_size fuel (all_true n) ctx d in
        (ps : List Packet) × (frames ≡ map (wire_bytes mp) ps)
        × IsDelivered mp
            (response_message bytes)
            mp_pos
            (response_message-IsData bytes small)
            (receive mp (accepted, host) ps)
        × (ctx'.busy ≡ false)
        × (ctx'.rx ≡ rx_reset ctx.rx)
unfolding response_work response_message
response_work_lem mp dev name_size code_size fuel n ctx d host mp_pos small enough taken r =
    let bytes =
      (respond mp dev name_size code_size ctx.current_response (drop 1 ctx.rx.buffer) d).0 in
    let m = response_message bytes in
    let msg = response_message-IsData bytes small in
    let (ps, sent, done) = transfer_in_order mp m mp_pos msg host fuel r enough in
    let same : some ps ≡ some (packets_from mp m 0 (packets mp m)) =
      sym sent ∙ tx_packets-tx_init mp m mp_pos msg fuel enough in
    let ps_are : packets_from mp m 0 (packets mp m) ≡ ps = cc in
    (
      ps,
      ap (send_loop mp fuel (all_true n)) (tx_init-tx_at mp m mp_pos msg)
          ∙ send_loop-tx_at mp m mp_pos msg fuel n 0 (packets mp m) enough taken (omega arith)
          ∙ ap (map (wire_bytes mp)) ps_are,
      done,
      refl,
      refl,
    )
