-- ===== src/Splitlink/Wire.antt =====
-- A packet as the bytes that lie in memory, as splitlink_send takes them and on_receive copies them.
use ykb_firmware.Base.{
  ℕ, ◌+◌, ◌-◌, ◌*◌, ◌/◌, ◌%◌, ◌≤◌, ◌<◌, ◌≡◌, refl, sym, ◌∙◌, false, ◌||◌, Option, none, some, List,
  ◌++◌, ltb, if◌then◌else◌, take, drop, copy_into, replicate, length, get_or, arith,
  length-copy_into, length-replicate, eq_of_get_or, get_or-copy_into_start, get_or-copy_into_out,
  get_or-replicate, get_or-take, length-take, length-append, get_or-append_right, drop-append,
  dec_lt, inr, subst,
}
use ykb_firmware.Protocol.Packet.{Header, Packet, header_bytes, payload_len_for_index}

-- YKB_PROTOCOL_HEADER_SIZE.
abbrev pub header_size : ℕ
header_size = 11

-- A field of two bytes, low byte first.
unfoldable pub le_field : List ℕ → ℕ → ℕ
le_field bytes i = get_or bytes i 0 + 256 * get_or bytes (i + 1) 0

unfoldable pub header_of_bytes : List ℕ → Header
unfolding le_field
header_of_bytes bytes = record {
  crc = le_field bytes 0;
  version = get_or bytes 2 0;
  type_flags = get_or bytes 3 0;
  transfer_id = get_or bytes 4 0;
  packet_idx = le_field bytes 5;
  packet_count = le_field bytes 7;
  total_len = le_field bytes 9;
}

module _ (mp : ℕ) where
  -- `packet_len` of tx_slot_work_handler.
  unfoldable pub packet_len : Packet → ℕ
  packet_len p =
      header_size
      + payload_len_for_index mp p.header.total_len p.header.packet_idx p.header.packet_count

  -- The bytes of the packet that are sent.
  unfoldable pub wire_bytes : Packet → List ℕ
  wire_bytes p = take (packet_len p) (header_bytes p.header ++ p.payload)

  -- The received bytes copied into a packet of zeros, unless their number is wrong.
  unfoldable pub read_packet : List ℕ → Option Packet
  read_packet bytes =
      let filled = copy_into (replicate (header_size + mp) 0) 0 bytes in
      if ltb (length bytes) header_size || ltb (header_size + mp) (length bytes)
      then none
      else some (record { header = header_of_bytes filled; payload = drop header_size filled })

length-header_bytes : (h : Header) → length (header_bytes h) ≡ header_size
unfolding header_bytes
length-header_bytes h = refl

header_of_bytes-header_bytes :
    (h : Header) (rest : List ℕ) → header_of_bytes (header_bytes h ++ rest) ≡ h
unfolding header_of_bytes header_bytes le_field
header_of_bytes-header_bytes h rest =
    rw (join h.crc, join h.packet_idx, join h.packet_count, join h.total_len) refl
  where
    join : (n : ℕ) → n % 256 + 256 * (n / 256) ≡ n
    join n = omega arith

-- Packets whose payload is an array of `mp` bytes with zeros after the packet's own bytes.
pub record IsPadded (mp : ℕ) (p : Packet) : Type 0 where
  pub array : length p.payload ≡ mp
  pub room : packet_len mp p ≤ header_size + mp
  pub zeros : (j : ℕ) → packet_len mp p ≤ header_size + j → j < mp → get_or p.payload j 0 ≡ 0

-- Zeros overwritten by the front of a list that is zero behind it.
copy_into-take :
    (n k : ℕ) (xs : List ℕ)
    → length xs ≡ n
    → ((j : ℕ) → k ≤ j → j < n → get_or xs j 0 ≡ 0)
    → copy_into (replicate n 0) 0 (take k xs) ≡ xs
copy_into-take n k xs e z =
    let size = length-copy_into (replicate n 0) 0 (take k xs) ∙ length-replicate n 0 in
    eq_of_get_or (copy_into (replicate n 0) 0 (take k xs)) xs 0 (size ∙ sym e) at
  where
    at :
        (j : ℕ)
        → j < length (copy_into (replicate n 0) 0 (take k xs))
        → get_or (copy_into (replicate n 0) 0 (take k xs)) j 0 ≡ get_or xs j 0
    at j h =
        let size = length-copy_into (replicate n 0) 0 (take k xs) ∙ length-replicate n 0 in
        elim (dec_lt j k) [
          | yes l ↦
              get_or-copy_into_start (replicate n 0) (take k xs) j 0
                (omega (arith, length-take k xs, length-replicate {A = ℕ} n 0))
                (omega (arith, length-take k xs))
              ∙ get_or-take k j xs 0 l
          | no g ↦
              get_or-copy_into_out (replicate n 0) 0 (take k xs) j 0
                (inr (omega (arith, length-take k xs)))
              ∙ get_or-replicate n j 0 0 (omega arith)
              ∙ sym (z j (omega arith) (omega arith))
        ]

packet_len_ge : (mp : ℕ) (p : Packet) → header_size ≤ packet_len mp p
unfolding packet_len
packet_len_ge mp p = omega arith

drop_header : (h : Header) (rest : List ℕ) → drop header_size (header_bytes h ++ rest) ≡ rest
unfolding header_bytes
drop_header h rest = drop-append (header_bytes h) rest

-- What on_receive reads from the bytes of a packet is the packet.
pub read_packet-wire_bytes :
    (mp : ℕ) (p : Packet) → IsPadded mp p → read_packet mp (wire_bytes mp p) ≡ some p
unfolding read_packet wire_bytes
read_packet-wire_bytes mp p w =
    rw
      (
        short,
        long,
        back,
        header_of_bytes-header_bytes p.header p.payload,
        drop_header p.header p.payload,
      )
      refl
  where
    whole : length (header_bytes p.header ++ p.payload) ≡ header_size + mp
    whole = omega (
      arith,
      length-append (header_bytes p.header) p.payload,
      length-header_bytes p.header,
      w.array,
    )

    taken : length (take (packet_len mp p) (header_bytes p.header ++ p.payload)) ≡ packet_len mp p
    taken =
        omega
          (arith, length-take (packet_len mp p) (header_bytes p.header ++ p.payload), whole, w.room)

    short :
        ltb (length (take (packet_len mp p) (header_bytes p.header ++ p.payload))) header_size
        ≡ false
    short = rw taken (ground (arith, packet_len_ge mp p))

    long :
        ltb
          (header_size + mp)
          (length (take (packet_len mp p) (header_bytes p.header ++ p.payload)))
        ≡ false
    long = rw taken (ground (arith, w.room))

    zero_at :
        (j : ℕ)
        → packet_len mp p ≤ j
        → j < header_size + mp
        → get_or (header_bytes p.header ++ p.payload) j 0 ≡ 0
    zero_at j l h =
        let k = j - header_size in
        let here : length (header_bytes p.header) + k ≡ j =
          omega (arith, length-header_bytes p.header, packet_len_ge mp p) in
        subst (λ q. get_or (header_bytes p.header ++ p.payload) q 0 ≡ 0) here
          (get_or-append_right (header_bytes p.header) p.payload k 0
            ∙ w.zeros k (omega (arith, here, packet_len_ge mp p, length-header_bytes p.header))
                (omega (arith, here, length-header_bytes p.header)))

    back :
        copy_into
          (replicate (header_size + mp) 0)
          0
          (take (packet_len mp p) (header_bytes p.header ++ p.payload))
        ≡ header_bytes p.header ++ p.payload
    back =
        copy_into-take (header_size + mp) (packet_len mp p) (header_bytes p.header ++ p.payload)
          whole zero_at
