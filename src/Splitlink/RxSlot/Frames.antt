-- ===== src/Splitlink/RxSlot/Frames.antt =====
-- What a frame of bytes holds once read, and the states a frame can leave a receiver in.
use ykb_firmware.Base.{
  ℕ, zero, suc, ◌+◌, ◌^◌, ◌≤◌, ◌<◌, ◌≡◌, refl, sym, subst, ◌≢◌, true, false, some, List, replicate,
  copy_into, length, get_or, arith, inr, length-replicate, get_or-copy_into_start,
  get_or-copy_into_out, dec_lt,
}
use ykb_firmware.Protocol.Packet.{Packet}
use ykb_firmware.Protocol.Rx.{RxState, RxResult, complete, is_error, store, finish, stored}
use ykb_firmware.Protocol.Rx.Valid.{IsHeader}
use ykb_firmware.Splitlink.Wire.{read_packet, header_of_bytes, le_field, header_size}
use ykb_firmware.Splitlink.RxSlot.{rx_empty, receiving, ready, is_complete_result}

-- A frame of bytes.
abbrev pub IsBytes : List ℕ → Type 0
IsBytes bytes = (i : ℕ) → get_or bytes i 0 < 256

le_field_bound : (bytes : List ℕ) (i : ℕ) → IsBytes bytes → le_field bytes i < 2 ^ 16
unfolding le_field
le_field_bound bytes i b = omega (arith, b i, b (i + 1))

get_or-IsBytes_in :
    (n : ℕ) (bytes : List ℕ)
    → length bytes ≤ n
    → IsBytes bytes
    → IsBytes (copy_into (replicate n 0) 0 bytes)
get_or-IsBytes_in n bytes h b i = elim (dec_lt i (length bytes)) [
  | yes l ↦
      rw
        (get_or-copy_into_start (replicate n 0) bytes i 0
          (omega (arith, length-replicate {A = ℕ} n 0)) l)
        (b i)
  | no g ↦ rw (get_or-copy_into_out (replicate n 0) 0 bytes i 0 (inr (omega arith))) (zeros n i)
]
  where
    zeros : (k j : ℕ) → get_or (replicate k 0) j 0 < 256
    zeros zero j = omega arith
    zeros (suc k) zero = omega arith
    zeros (suc k) (suc j) = zeros k j

read_packet_parts :
    (mp : ℕ) (bytes : List ℕ) (p : Packet)
    → read_packet mp bytes ≡ some p
    → (length bytes ≤ header_size + mp)
      × (p.header ≡ header_of_bytes (copy_into (replicate (header_size + mp) 0) 0 bytes))
unfolding read_packet
read_packet_parts mp bytes p e = (ground arith, ground arith)

header_of_bytes-IsHeader : (bytes : List ℕ) → IsBytes bytes → IsHeader (header_of_bytes bytes)
unfolding header_of_bytes
header_of_bytes-IsHeader bytes b = record {
  total_word = le_field_bound bytes 9 b;
  count_word = le_field_bound bytes 7 b;
}

-- The header of what is read has sixteen-bit fields.
pub read_packet-IsHeader :
    (mp : ℕ) (bytes : List ℕ) (p : Packet)
    → IsBytes bytes
    → read_packet mp bytes ≡ some p
    → IsHeader p.header
read_packet-IsHeader mp bytes p b e =
    let (short, same) = read_packet_parts mp bytes p e in
    subst IsHeader (sym same)
      (header_of_bytes-IsHeader _ (get_or-IsBytes_in (header_size + mp) bytes short b))

-- A receiver that did not refuse a packet is in a transfer, and complete where it says so.
pub record IsLive (out : RxResult × RxState) : Type 0 where
  pub on : is_error out.0 ≡ false → out.1.is_active ≡ true
  pub done : out.0 ≡ complete → out.1.is_complete ≡ true

pub store-IsLive :
    (mp : ℕ) (rx : RxState) (p : Packet) → rx.is_active ≡ true → IsLive (store mp rx p)
unfolding store finish stored
store-IsLive mp rx p a = record { on = λ e. ground arith; done = λ e. ground arith }

pub error-IsLive : (res : RxResult) (rx : RxState) → is_error res ≡ true → IsLive (res, rx)
unfolding is_error
error-IsLive res rx e = record { on = λ x. cc; done = λ x. cc }

pub result_complete : (res : RxResult) → is_complete_result res ≡ true → res ≡ complete
unfolding is_complete_result
result_complete complete e = refl
result_complete res e = ground arith

pub receiving_not_ready : receiving ≢ ready
receiving_not_ready e = cc

pub receiving_not_empty : receiving ≢ rx_empty
receiving_not_empty e = cc

pub ready_not_empty : ready ≢ rx_empty
ready_not_empty e = cc
