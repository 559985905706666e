-- ===== src/Protocol/Packet.antt =====
-- Headers and packets of include/lib/ykb_protocol.h, and the arithmetic of packet lengths.
-- `max_payload` is YKB_PROTOCOL_MAX_PAYLOAD_SIZE, the packet size of the transport less the eleven
-- bytes of the header; BUILD_ASSERT makes it positive. Fields are the numbers below 2 ^ 8 and
-- 2 ^ 16 of their C types. A NULL header or packet has no counterpart here.
mod Lengths
use ykb_firmware.Base.{
  ℕ, ◌+◌, ◌-◌, ◌*◌, ◌/◌, ◌%◌, ◌^◌, ◌≤◌, ◌<◌, Bool, true, false, not, ◌&&◌, ◌||◌, List, [], ◌∷◌, ltb,
  leb, ◌==◌, if◌then◌else◌, bit_and, take,
}
use ykb_firmware.Protocol.Crc.{crc16_update}
unfoldable pub use Lengths.*

abbrev pub protocol_version : ℕ
protocol_version = 1

abbrev pub flag_start : ℕ
flag_start = 0x04

abbrev pub flag_end : ℕ
flag_end = 0x08

abbrev pub type_data : ℕ
type_data = 0

abbrev pub type_abort : ℕ
type_abort = 2

pub record Header : Type 0 where
  pub crc : ℕ
  pub version : ℕ
  pub type_flags : ℕ
  pub transfer_id : ℕ
  pub packet_idx : ℕ
  pub packet_count : ℕ
  pub total_len : ℕ

-- The payload is the array of `max_payload` bytes.
pub record Packet : Type 0 where
  pub header : Header
  pub payload : List ℕ

unfoldable pub get_type : ℕ → ℕ
get_type type_flags = bit_and type_flags 0x03

-- `type_flags & (uint8_t)~(START | END)`, as the sender and the receiver write it.
unfoldable pub flags_base : ℕ → ℕ
flags_base type_flags = bit_and type_flags 0xF3

-- The two bytes of a field, low byte first: the header is sent as it lies in memory.
abbrev le_bytes : ℕ → List ℕ → List ℕ
le_bytes n rest = (n % 256) ∷ (n / 256) ∷ rest

unfoldable pub header_bytes : Header → List ℕ
header_bytes h = le_bytes h.crc (
    h.version
    ∷ h.type_flags
    ∷ h.transfer_id
    ∷ le_bytes h.packet_idx (le_bytes h.packet_count (le_bytes h.total_len [])))

unfoldable pub has_flag : ℕ → ℕ → Bool
has_flag type_flags flag = not (bit_and type_flags flag == 0)

module _ (max_payload : ℕ) where
  unfoldable pub is_header_valid : Header → Bool
  is_header_valid h =
      if not (h.version == protocol_version)
      then false
      else if ltb type_abort (get_type h.type_flags)
      then false
      else if h.packet_count == 0
      then false
      else if leb h.packet_count h.packet_idx
      then false
      else if h.total_len == 0
      then h.packet_count == 1 && h.packet_idx == 0
      else calc_packet_count max_payload h.total_len == h.packet_count

  unfoldable pub compute_packet_crc : Packet → ℕ
  compute_packet_crc p =
      let hdr = record p.header { crc = 0 } in
      crc16_update (crc16_update 0xFFFF (header_bytes hdr)) (
        take (payload_len_for_index max_payload hdr.total_len hdr.packet_idx hdr.packet_count)
          p.payload)
