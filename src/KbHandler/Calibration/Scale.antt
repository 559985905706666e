-- ===== src/KbHandler/Calibration/Scale.antt =====
-- Key values are the nearest whole number to the share of the range that is pressed.
use native.Mathlib.Nat.{
  div-zero, div-lt_iff_lt-mul, div-mul-le_self, div-eq_of_lt-le, div-eq_of_lt, le-div_iff_mul-le,
  mul-le-mul, mul-le-mul_right,
}
use ykb_firmware.Base.{
  ℕ, zero, suc, ◌+◌, ◌-◌, ◌*◌, ◌/◌, ◌%◌, ◌^◌, ◌≤◌, ◌<◌, min, ◌≡◌, ap, arith, ltb, if◌then◌else◌,
  ◌∙◌,
}
use ykb_firmware.KbHandler.Calibration.{key_value_from_minimum_range_scaled, sub_u32}

-- `uint16_t`
abbrev pub IsWord : ℕ → Type 0
IsWord n = n < 2 ^ 16

-- Where the range begins.
abbrev pub base_of : ℕ → ℕ → ℕ → ℕ
base_of minimum maximum deadzone = min (minimum + deadzone) maximum

-- `part / whole` of `scale`, to the nearest number, halves upwards; 0 of nothing.
unfoldable pub nearest : ℕ → ℕ → ℕ → ℕ
nearest part whole scale = (part * scale + whole / 2) / whole

product_small : (a s : ℕ) → a < 2 ^ 16 → s < 2 ^ 16 → a * s ≤ 65535 * 65535
product_small a s h k = mul-le-mul {n₂ = 65535} {m₂ = 65535} (omega arith) (omega arith)

pub nearest_le : (part whole scale : ℕ) → part ≤ whole → nearest part whole scale ≤ scale
unfolding nearest
nearest_le part zero scale h = omega (arith, div-zero (part * scale + zero / 2))
nearest_le part (suc w) scale h =
    let small : part * scale ≤ suc w * scale = mul-le-mul_right scale h in
    let bound : part * scale + suc w / 2 < (scale + 1) * suc w = omega arith in
    let r : (part * scale + suc w / 2) / suc w < scale + 1 =
      (div-lt_iff_lt-mul (omega arith)).1 bound in
    omega arith

pub nearest_full : (whole scale : ℕ) → 0 < whole → nearest whole whole scale ≡ scale
unfolding nearest
nearest_full whole scale h = div-eq_of_lt-le whole (omega arith) (omega arith)

pub nearest_mono : (p q whole scale : ℕ) → p ≤ q → nearest p whole scale ≤ nearest q whole scale
unfolding nearest
nearest_mono p q zero scale h = omega (arith, div-zero (p * scale + zero / 2))
nearest_mono p q (suc w) scale h =
    (le-div_iff_mul-le (omega arith)).1
      (omega (arith, div-mul-le_self (p * scale + suc w / 2) (suc w), mul-le-mul_right scale h))

nearest_none : (part whole scale : ℕ) → part ≡ 0 → nearest part whole scale ≡ 0
unfolding nearest
nearest_none part zero scale h = div-zero (part * scale + zero / 2)
nearest_none part (suc w) scale h = div-eq_of_lt (omega (arith, ap (λ (k : ℕ). k * scale) h))

nearest_nothing : (part whole scale : ℕ) → whole ≡ 0 → nearest part whole scale ≡ 0
unfolding nearest
nearest_nothing part whole scale h = ap (λ (k : ℕ). (part * scale + whole / 2) / k) h ∙ div-zero _

sub_u32_small : (a b : ℕ) → b ≤ a → a < 2 ^ 32 → sub_u32 a b ≡ a - b
unfolding sub_u32
sub_u32_small a b h k = omega arith

nearest_of : (a whole s : ℕ) {n : ℕ} → n ≡ a * s + whole / 2 → n / whole ≡ nearest a whole s
unfolding nearest
nearest_of a whole s e = ap (λ (n : ℕ). n / whole) e

word_nearest :
    (a whole s : ℕ)
    → a ≤ whole
    → whole < 2 ^ 16
    → s < 2 ^ 16
    → (((a * s) % 2 ^ 32 + whole / 2) % 2 ^ 32 / whole) % 2 ^ 16 ≡ nearest a whole s
word_nearest a whole s h k l =
    let exact : ((a * s) % 2 ^ 32 + whole / 2) % 2 ^ 32 ≡ a * s + whole / 2 =
      omega (arith, product_small a s (omega arith) l) in
    let same : (((a * s) % 2 ^ 32 + whole / 2) % 2 ^ 32 / whole) ≡ nearest a whole s =
      nearest_of a whole s exact in
    ap (λ (n : ℕ). n % 2 ^ 16) same ∙ omega (arith, nearest_le a whole s h)

base_lem :
    (minimum maximum deadzone : ℕ)
    → IsWord minimum
    → IsWord deadzone
    → (if ltb maximum ((minimum + deadzone) % 2 ^ 32)
        then maximum
        else (minimum + deadzone) % 2 ^ 32)
      ≡ base_of minimum maximum deadzone
base_lem minimum maximum deadzone n z = ground arith

-- What the code computes, wherever its numbers are 16-bit words: no product or sum wraps.
pub scaled-eq-nearest :
    (current minimum maximum deadzone scale : ℕ)
    → IsWord current
    → IsWord minimum
    → IsWord maximum
    → IsWord deadzone
    → IsWord scale
    → key_value_from_minimum_range_scaled current minimum maximum deadzone scale
      ≡ nearest
          (min current maximum - base_of minimum maximum deadzone)
          (maximum - base_of minimum maximum deadzone)
          scale
unfolding key_value_from_minimum_range_scaled
scaled-eq-nearest current minimum maximum deadzone scale c n x z s = ground (
  arith,
  base_lem minimum maximum deadzone n z,
  sub_u32_small maximum (base_of minimum maximum deadzone),
  sub_u32_small (min current maximum) (base_of minimum maximum deadzone),
  word_nearest (min current maximum - base_of minimum maximum deadzone)
      (maximum - base_of minimum maximum deadzone) scale,
  nearest_none (min current maximum - base_of minimum maximum deadzone)
      (maximum - base_of minimum maximum deadzone) scale,
  nearest_nothing (min current maximum - base_of minimum maximum deadzone)
      (maximum - base_of minimum maximum deadzone) scale,
)

-- A key that is pressed further never gives a smaller value, and no value is above the scale.
pub scaled_mono :
    (current next minimum maximum deadzone scale : ℕ)
    → IsWord next
    → IsWord minimum
    → IsWord maximum
    → IsWord deadzone
    → IsWord scale
    → current ≤ next
    → (key_value_from_minimum_range_scaled current minimum maximum deadzone scale
        ≤ key_value_from_minimum_range_scaled next minimum maximum deadzone scale)
      × (key_value_from_minimum_range_scaled next minimum maximum deadzone scale ≤ scale)
scaled_mono current next minimum maximum deadzone scale c n x z s h =
    let whole = maximum - base_of minimum maximum deadzone in
    let p = min current maximum - base_of minimum maximum deadzone in
    let q = min next maximum - base_of minimum maximum deadzone in
    rw (scaled-eq-nearest current minimum maximum deadzone scale (omega arith) n x z s) (
      rw (scaled-eq-nearest next minimum maximum deadzone scale c n x z s)
        (nearest_mono p q whole scale (omega arith), nearest_le q whole scale (omega arith)))
