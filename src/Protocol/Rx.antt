-- ===== src/Protocol/Rx.antt =====
-- The receiver of include/lib/ykb_protocol.h. `buffer` is the array of at least `capacity` bytes
-- that the state points to, `received_bitmap` NULL or the array of `received_bitmap_size` bytes.
pub mod Sums
pub mod Transfer
pub mod Store
pub mod Valid
pub mod Missing
pub mod Bounds
use ykb_firmware.Base.{
  ℕ, zero, suc, ◌+◌, ◌-◌, ◌*◌, ◌%◌, ◌^◌, Bool, true, false, not, ◌&&◌, ◌||◌, Option, none, some,
  List, [], ◌∷◌, ltb, leb, ◌==◌, if◌then◌else◌, take, copy_into, length,
}
use ykb_firmware.Protocol.Packet.{
  Header, Packet, protocol_version, type_data, type_abort, get_type, flags_base, is_header_valid,
  payload_len_for_index, compute_packet_crc,
}
use ykb_firmware.Protocol.Bitmap.{bitmap_size_bytes, bitmap_test, bitmap_set, bitmap_clear_all}

-- `ykb_protocol_rx_result_t`: the three results and the eleven errors.
pub data RxResult : Type 0 where
  accepted complete duplicate : RxResult
  null_argument bad_version bad_type bad_packet_count bad_packet_index bad_total_len : RxResult
  packet_crc transfer_mismatch buffer_too_small out_of_order missing_bitmap_required : RxResult

-- `res < 0`.
unfoldable pub is_error : RxResult → Bool
is_error accepted = false
is_error complete = false
is_error duplicate = false
is_error _ = true

pub record RxState : Type 0 where
  pub buffer : List ℕ
  pub capacity : ℕ
  pub allow_out_of_order : Bool
  pub is_active : Bool
  pub is_complete : Bool
  pub transfer_id : ℕ
  pub total_len : ℕ
  pub received_bytes : ℕ
  pub packet_count : ℕ
  pub received_count : ℕ
  pub next_expected_packet_idx : ℕ
  pub type_flags_base : ℕ
  pub received_bitmap : Option (List ℕ)

unfoldable pub clear_bitmap : Option (List ℕ) → Option (List ℕ)
unfolding bitmap_clear_all
clear_bitmap none = none
clear_bitmap (some bitmap) = some (bitmap_clear_all bitmap)

-- What the code tests at NULL is never reached, and reads as false here.
unfoldable pub test_bitmap : Option (List ℕ) → ℕ → Bool
unfolding bitmap_test
test_bitmap none idx = false
test_bitmap (some bitmap) idx = bitmap_test bitmap idx

unfoldable pub set_bitmap : Option (List ℕ) → ℕ → Option (List ℕ)
unfolding bitmap_set
set_bitmap none idx = none
set_bitmap (some bitmap) idx = some (bitmap_set bitmap idx)

-- `received_bitmap == NULL || received_bitmap_size < needed`.
unfoldable pub lacks_bitmap : Option (List ℕ) → ℕ → Bool
lacks_bitmap none needed = true
lacks_bitmap (some bitmap) needed = ltb (length bitmap) needed

unfoldable pub rx_reset : RxState → RxState
unfolding clear_bitmap
rx_reset rx = record rx {
  is_active = false;
  is_complete = false;
  transfer_id = 0;
  total_len = 0;
  received_bytes = 0;
  packet_count = 0;
  received_count = 0;
  next_expected_packet_idx = 0;
  type_flags_base = 0;
  received_bitmap = clear_bitmap rx.received_bitmap;
}

unfoldable pub rx_init : List ℕ → ℕ → Bool → Option (List ℕ) → RxState
unfolding clear_bitmap
rx_init buffer capacity any_order bitmap = record {
  buffer = buffer;
  capacity = capacity;
  allow_out_of_order = any_order;
  is_active = false;
  is_complete = false;
  transfer_id = 0;
  total_len = 0;
  received_bytes = 0;
  packet_count = 0;
  received_count = 0;
  next_expected_packet_idx = 0;
  type_flags_base = 0;
  received_bitmap = clear_bitmap bitmap;
}

-- The state of a transfer that the packet opens.
unfoldable pub opened : RxState → Packet → RxState
unfolding clear_bitmap flags_base
opened rx packet = record rx {
  is_active = true;
  is_complete = false;
  transfer_id = packet.header.transfer_id;
  total_len = packet.header.total_len;
  received_bytes = 0;
  packet_count = packet.header.packet_count;
  received_count = 0;
  next_expected_packet_idx = 0;
  type_flags_base = flags_base packet.header.type_flags;
  received_bitmap =
      if rx.allow_out_of_order then clear_bitmap rx.received_bitmap else rx.received_bitmap;
}

unfoldable pub rx_begin_transfer : RxState → Packet → RxResult × RxState
unfolding opened lacks_bitmap bitmap_size_bytes
rx_begin_transfer rx packet =
    if ltb rx.capacity packet.header.total_len
    then (buffer_too_small, rx)
    else if rx.allow_out_of_order
        && lacks_bitmap rx.received_bitmap (bitmap_size_bytes packet.header.packet_count)
    then (missing_bitmap_required, rx)
    else (accepted, opened rx packet)

-- Why a header that is not valid is refused.
unfoldable pub header_error : Header → RxResult
unfolding get_type
header_error h =
    if not (h.version == protocol_version)
    then bad_version
    else if ltb type_abort (get_type h.type_flags)
    then bad_type
    else if h.packet_count == 0
    then bad_packet_count
    else if leb h.packet_count h.packet_idx
    then bad_packet_index
    else bad_total_len

-- The packet does not belong to the transfer under way.
unfoldable pub mismatches : RxState → Header → Bool
unfolding flags_base
mismatches rx h =
    not (rx.transfer_id == h.transfer_id)
    || not (rx.total_len == h.total_len)
    || not (rx.packet_count == h.packet_count)
    || not (rx.type_flags_base == flags_base h.type_flags)

unfoldable pub rx_is_complete : RxState → Bool
rx_is_complete rx = rx.is_complete

-- Lines 524 to 533.
unfoldable pub finish : RxState → RxResult × RxState
finish rx =
    if rx.received_count == rx.packet_count
    then (if rx.received_bytes == rx.total_len
        then (complete, record rx { is_complete = true })
        else (bad_total_len, rx))
    else (accepted, rx)

module _ (max_payload : ℕ) where
  -- The bytes of the packet stored and counted: lines 511 to 522.
  unfoldable pub stored : RxState → Packet → RxState
  stored rx packet =
      let idx = packet.header.packet_idx in
      let len = payload_len_for_index max_payload rx.total_len idx rx.packet_count in
      let offset = (idx * max_payload) % 2 ^ 16 in
      record rx {
        buffer = copy_into rx.buffer offset (take len packet.payload);
        received_bytes = (rx.received_bytes + len) % 2 ^ 16;
        received_count = (rx.received_count + 1) % 2 ^ 16;
        received_bitmap =
            if rx.allow_out_of_order then set_bitmap rx.received_bitmap idx else rx.received_bitmap;
        next_expected_packet_idx =
            if rx.allow_out_of_order
            then rx.next_expected_packet_idx
            else (rx.next_expected_packet_idx + 1) % 2 ^ 16;
      }

  -- A packet of the transfer under way: lines 487 to 533.
  unfoldable pub store : RxState → Packet → RxResult × RxState
  store rx packet =
      let idx = packet.header.packet_idx in
      let len = payload_len_for_index max_payload rx.total_len idx rx.packet_count in
      let offset = (idx * max_payload) % 2 ^ 16 in
      if not rx.allow_out_of_order && not (idx == rx.next_expected_packet_idx)
      then (out_of_order, rx)
      else if rx.allow_out_of_order && test_bitmap rx.received_bitmap idx
      then (duplicate, rx)
      else if ltb rx.capacity (offset + len)
      then (buffer_too_small, rx)
      else finish (stored rx packet)

  -- A packet with a good checksum: lines 468 to 533.
  unfoldable pub admit : RxState → Packet → RxResult × RxState
  admit rx packet =
      if rx.is_active
      then (if mismatches rx packet.header then (transfer_mismatch, rx) else store rx packet)
      else (let (begun, rx') = rx_begin_transfer rx packet in
          if is_error begun then (begun, rx') else store rx' packet)

  unfoldable pub push : RxState → Packet → RxResult × RxState
  push rx packet =
      if not (is_header_valid max_payload packet.header)
      then (header_error packet.header, rx)
      else if not (get_type packet.header.type_flags == type_data)
      then (bad_type, rx)
      else if not (compute_packet_crc max_payload packet == packet.header.crc)
      then (packet_crc, rx)
      else admit rx packet

  -- `ykb_protocol_rx_push_packet`, whose pointers may be NULL.
  unfoldable pub rx_push_packet : Option RxState → Option Packet → RxResult × Option RxState
  rx_push_packet none packet = (null_argument, none)
  rx_push_packet (some rx) none = (null_argument, some rx)
  rx_push_packet (some rx) (some packet) = let (res, rx') = push rx packet in (res, some rx')

-- The indices from `i` on that the bitmap lacks, as many as there is room for.
unfoldable pub missing_from : Option (List ℕ) → ℕ → ℕ → ℕ → List ℕ
unfolding test_bitmap
missing_from bitmap i zero room = []
missing_from bitmap i (suc left) zero = []
missing_from bitmap i (suc left) (suc room) = elim (test_bitmap bitmap i) [
  | true ↦ missing_from bitmap (i + 1) left (suc room)
  | false ↦ i ∷ missing_from bitmap (i + 1) left room
]

-- The list stands for `out_indices` and the count that is returned, its length.
unfoldable pub rx_collect_missing : RxState → ℕ → List ℕ
unfolding missing_from
rx_collect_missing rx max_indices =
    if max_indices == 0
    then []
    else if not rx.allow_out_of_order
    then []
    else elim rx.received_bitmap [
      | none ↦ []
      | some bitmap ↦ missing_from (some bitmap) 0 rx.packet_count max_indices
    ]
