-- ===== src/Protocol/Packet/Lengths.antt =====
-- How many packets a message takes, and how many of its bytes each one carries.
use native.Mathlib.Nat.{div-add-mod, mod-lt, div-le_of_le-mul}
use ykb_firmware.Base.{
  ℕ, zero, suc, ◌+◌, ◌-◌, ◌*◌, ◌/◌, ◌%◌, ◌^◌, ◌≤◌, ◌<◌, min, ◌≡◌, refl, ap, ◌||◌, ltb, leb, ◌==◌,
  if◌then◌else◌, arith, ==_ne,
}

module _ (max_payload : ℕ) where
  unfoldable pub calc_packet_count : ℕ → ℕ
  calc_packet_count total_len =
      if total_len == 0 then 1 else ((total_len + max_payload - 1) / max_payload) % 2 ^ 16

  -- The sum in `used` is taken in `unsigned`, and cut to 16 bits; so is the difference.
  unfoldable pub payload_len_for_index : ℕ → ℕ → ℕ → ℕ
  payload_len_for_index total_len packet_idx packet_count =
      if packet_count == 0 || leb packet_count packet_idx
      then 0
      else if total_len == 0
      then 0
      else if packet_count == 1
      then total_len
      else if ltb packet_idx (packet_count - 1)
      then max_payload
      else (let used = ((packet_count - 1) * max_payload) % 2 ^ 16 in
          (total_len + 2 ^ 16 - used) % 2 ^ 16)

  -- A message of `total` bytes in `count` packets, all full but the last.
  pub record Splits (total count : ℕ) : Type 0 where
    pub some_packet : 0 < count
    pub word : total < 2 ^ 16
    pub small : count < 2 ^ 16
    pub enough : total ≤ count * max_payload
    pub tight : (count - 1) * max_payload ≤ total

  pub pred-mul : (n : ℕ) → 0 < n → (n - 1) * max_payload + max_payload ≡ n * max_payload
  pred-mul zero h = absurd (omega arith)
  pred-mul (suc n) h = omega (arith, ap (λ (k : ℕ). k * max_payload) (pred-suc n))
    where
      pred-suc : (k : ℕ) → suc k - 1 ≡ k
      pred-suc k = omega arith

  quotient_bounds :
      (total q r : ℕ)
      → 0 < max_payload
      → 0 < total
      → max_payload * q + r ≡ total + max_payload - 1
      → r < max_payload
      → (total ≤ q * max_payload) × (q * max_payload < total + max_payload) × (0 < q)
  quotient_bounds total zero r h t e l = absurd (omega arith)
  quotient_bounds total (suc q) r h t e l = (omega arith, omega arith, omega arith)

  fits_product :
      (total : ℕ) → 0 < max_payload → suc total + max_payload - 1 ≤ max_payload * suc total
  fits_product total h = grind arith

  -- The sender's packet count splits the message.
  pub calc_packet_count-Splits :
      (total : ℕ) → 0 < max_payload → total < 2 ^ 16 → Splits total (calc_packet_count total)
  unfolding calc_packet_count
  calc_packet_count-Splits zero h t = omega arith
  calc_packet_count-Splits (suc total) h t =
      let q = (suc total + max_payload - 1) / max_payload in
      let small : q ≤ suc total = div-le_of_le-mul max_payload (fits_product total h) in
      let whole : q % 2 ^ 16 ≡ q = omega arith in
      let (enough, tight, pos) =
        quotient_bounds (suc total) q ((suc total + max_payload - 1) % max_payload) h (omega arith)
          (div-add-mod _ _) (mod-lt _ h) in
      rw (==_ne (suc total) 0 (omega arith), whole)
        (record {
          some_packet = pos;
          word = t;
          small = omega arith;
          enough = enough;
          tight = omega (arith, pred-mul q pos);
        })

  pub calc_packet_count-zero : calc_packet_count 0 ≡ 1
  unfolding calc_packet_count
  calc_packet_count-zero = refl

  block-le : (i n : ℕ) → i < n → (i + 1) * max_payload ≤ n * max_payload
  block-le i n h = grind arith

  -- Of a message split into packets, packet `i` carries what is left of it after `i` full packets, up to a full one.
  pub payload_len-eq-min :
      {total count : ℕ} (i : ℕ)
      → Splits total count
      → i < count
      → payload_len_for_index total i count ≡ min max_payload (total - i * max_payload)
  unfolding payload_len_for_index
  payload_len-eq-min {total} {count} i s h =
      ground (arith, pred-mul count s.some_packet, block-le i count, block-le i (count - 1))

  -- No packet carries more than its payload array holds, or reaches past the message.
  pub payload_len_bounds :
      {total count : ℕ} (i : ℕ)
      → Splits total count
      → i < count
      → (payload_len_for_index total i count ≤ max_payload)
        × (i * max_payload + payload_len_for_index total i count ≤ total)
  payload_len_bounds {total} {count} i s h =
      omega (
        arith,
        payload_len-eq-min i s h,
        pred-mul count s.some_packet,
        block-le i count h,
        i-le-pred,
      )
    where
      i-le-pred : i * max_payload ≤ (count - 1) * max_payload
      i-le-pred = grind arith

  -- The bytes of the first `k` packets.
  unfoldable pub sent_bytes : ℕ → ℕ → ℕ → ℕ
  sent_bytes total count zero = 0
  sent_bytes total count (suc k) = sent_bytes total count k + payload_len_for_index total k count

  pub sent_bytes-eq-min :
      {total count : ℕ} (k : ℕ)
      → Splits total count
      → k ≤ count
      → sent_bytes total count k ≡ min (k * max_payload) total
  unfolding sent_bytes
  sent_bytes-eq-min zero s h = omega arith
  sent_bytes-eq-min (suc k) s h =
      omega (arith, sent_bytes-eq-min k s (omega arith), payload_len-eq-min k s h)

  -- The packets of a message carry all of it.
  pub sent_bytes_all : {total count : ℕ} → Splits total count → sent_bytes total count count ≡ total
  sent_bytes_all {total} {count} s = omega (arith, sent_bytes-eq-min count s (omega arith))
