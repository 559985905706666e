-- ===== src/Power/Light.antt =====
-- The brightness of the breathing light: ykb_power_handle_power_indicator_breathe_mode of
-- subsys/ykb_power/src/ykb_power.c.
use native.Mathlib.Nat.{div-lt_iff_lt-mul, mul-le-mul_right}
use ykb_firmware.Base.{
  ℕ, suc, ◌-◌, ◌*◌, ◌/◌, ◌%◌, ◌^◌, ◌≤◌, ◌<◌, ltb, min, max, arith, inl, inr, Bool-cases,
}
use ykb_firmware.Power.{breathe_level, breathe}

share_le : (part whole peak : ℕ) → part ≤ whole → 0 < whole → (part * peak) % 2 ^ 32 / whole ≤ peak
share_le part whole peak h pos =
    let scaled : part * peak ≤ whole * peak = mul-le-mul_right peak h in
    let rest : (part * peak) % 2 ^ 32 ≤ part * peak = omega arith in
    let bound : (part * peak) % 2 ^ 32 < suc peak * whole = ground (arith, scaled, rest, pos) in
    let below : (part * peak) % 2 ^ 32 / whole < suc peak = (div-lt_iff_lt-mul pos).1 bound in
    omega (arith, below)

breathe_level_le : (speed peak now_ms : ℕ) → breathe_level speed peak now_ms ≤ peak
unfolding breathe_level
breathe_level_le speed peak now_ms =
    elim (Bool-cases (ltb (now_ms % 2 ^ 32 % max speed 2) (max speed 2 / 2))) [
      | inl rising ↦ simp (rising) (
          share_le (now_ms % 2 ^ 32 % max speed 2) (max speed 2 / 2) peak (ground (arith, rising))
            (omega arith))
      | inr falling ↦ simp (falling) (
          share_le
            (max speed 2 - max speed 2 / 2 - (now_ms % 2 ^ 32 % max speed 2 - max speed 2 / 2))
            (max speed 2 - max speed 2 / 2) peak (omega arith) (omega arith))
    ]

-- At any speed and uptime, the light is set no brighter than the settings say, nor than it can be.
breathe_le :
    (brightness_max speed brightness now_ms : ℕ)
    → breathe brightness_max speed brightness now_ms ≤ min brightness brightness_max
unfolding breathe
breathe_le brightness_max speed brightness now_ms =
    omega (arith, breathe_level_le speed (min brightness brightness_max) now_ms)
