-- ===== src/Power/Hold.antt =====
-- How long the power key is held: ykb_power_handle_power_button_shutdown of subsys/ykb_power/src/ykb_power.c.
use ykb_firmware.Base.{
  ℕ, zero, suc, ◌+◌, ◌-◌, ◌%◌, ◌^◌, ◌≡◌, ◌≢◌, refl, sym, ap, subst, ◌∙◌, Bool, true, false, ◌||◌,
  List, [], ◌∷◌, if◌then◌else◌, leb, inl, inr, Bool-cases, ==_ne,
}
use ykb_firmware.Power.{Reading, read_error, level, Button, hold, handle_button, handle_rounds}
use ykb_firmware.Power.Indicator.{
  PowerState, PowerEvent, round, power_run, KeepTime, key_rounds, power_run-handle_rounds,
}

-- No round reads a released key.
abbrev pub IsHeld : List (Reading × ℕ) → Type 0
IsHeld [] = Unit
IsHeld ((read_error, now_ms) ∷ rounds) = IsHeld rounds
IsHeld ((level zero, now_ms) ∷ rounds) = ⊥
IsHeld ((level (suc value), now_ms) ∷ rounds) = IsHeld rounds

-- A round reads the key, `shutdown_time` or more after `since_ms`.
abbrev pub is_long : ℕ → ℕ → List (Reading × ℕ) → Bool
is_long shutdown_time since_ms [] = false
is_long shutdown_time since_ms ((read_error, now_ms) ∷ rounds) =
    is_long shutdown_time since_ms rounds
is_long shutdown_time since_ms ((level value, now_ms) ∷ rounds) =
    leb shutdown_time ((now_ms - since_ms) % 2 ^ 32) || is_long shutdown_time since_ms rounds

-- Once asked for, a shutdown is not asked for again while the key is held.
handle_rounds_requested :
    (t since n : ℕ) (rounds : List (Reading × ℕ))
    → since ≢ 0
    → IsHeld rounds
    → (handle_rounds t rounds
        (record { pressed_since_ms = since; shutdown_requested = true; shutdowns = n })).shutdowns
      ≡ n
unfolding handle_rounds handle_button hold
handle_rounds_requested t since n [] ne held = refl
handle_rounds_requested t since n ((read_error, now_ms) ∷ rounds) ne held =
    handle_rounds_requested t since n rounds ne held
handle_rounds_requested t since n ((level zero, now_ms) ∷ rounds) ne held = absurd held
handle_rounds_requested t since n ((level (suc value), now_ms) ∷ rounds) ne held =
    simp (==_ne since 0 ne) (handle_rounds_requested t since n rounds ne held)

handle_rounds_held :
    (t since n : ℕ) (rounds : List (Reading × ℕ))
    → since ≢ 0
    → IsHeld rounds
    → (handle_rounds t rounds
        (record { pressed_since_ms = since; shutdown_requested = false; shutdowns = n })).shutdowns
      ≡ (if is_long t since rounds then n + 1 else n)
unfolding handle_rounds handle_button hold
handle_rounds_held t since n [] ne held = refl
handle_rounds_held t since n ((read_error, now_ms) ∷ rounds) ne held =
    handle_rounds_held t since n rounds ne held
handle_rounds_held t since n ((level zero, now_ms) ∷ rounds) ne held = absurd held
handle_rounds_held t since n ((level (suc value), now_ms) ∷ rounds) ne held =
    elim (Bool-cases (leb t ((now_ms - since) % 2 ^ 32))) [
      | inl long ↦
          simp (==_ne since 0 ne, long) (handle_rounds_requested t since (n + 1) rounds ne held)
      | inr short ↦ simp (==_ne since 0 ne, short) (handle_rounds_held t since n rounds ne held)
    ]

-- From a released key that is pressed at an uptime other than 0 and held through the rounds that follow,
-- failed readings among them, the thread asks for a shutdown once if a round reads it shutdown_time or more
-- later, and otherwise not at all.
pub handle_rounds_lem :
    (shutdown_time now_ms value n : ℕ) (rounds : List (Reading × ℕ))
    → now_ms ≢ 0
    → IsHeld rounds
    → (handle_rounds shutdown_time
        ((level (suc value), now_ms) ∷ rounds)
        (record { pressed_since_ms = 0; shutdown_requested = false; shutdowns = n })).shutdowns
      ≡ (if is_long shutdown_time now_ms rounds then n + 1 else n)
unfolding handle_rounds handle_button hold
handle_rounds_lem shutdown_time now_ms value n rounds ne held =
    handle_rounds_held shutdown_time now_ms n rounds ne held

-- In a run of the thread that starts with a released key, pressed in its first round at an uptime other than
-- 0 and held from there, whatever the mode of the light and with settings updates that keep shutdown_time,
-- a shutdown is asked for once if a round reads the key shutdown_time or more later, and else not at all.
pub power_run-shutdowns :
    (brightness_max value light_ms key_ms : ℕ) (events : List PowerEvent) (p : PowerState)
    → key_ms ≢ 0
    → p.button.pressed_since_ms ≡ 0
    → p.button.shutdown_requested ≡ false
    → KeepTime p.settings.shutdown_time events
    → IsHeld (key_rounds events)
    → (power_run brightness_max
        (round (level (suc value)) light_ms key_ms ∷ events)
        p).button.shutdowns
      ≡ (if is_long p.settings.shutdown_time key_ms (key_rounds events)
          then p.button.shutdowns + 1
          else p.button.shutdowns)
unfolding key_rounds
power_run-shutdowns brightness_max value light_ms key_ms events p ne fresh idle keep held =
    let event = round (level (suc value)) light_ms key_ms in
    ap (λ b. b.shutdowns) (power_run-handle_rounds brightness_max (event ∷ events) p keep)
    ∙ subst
        (λ b.
          (handle_rounds p.settings.shutdown_time ((level (suc value), key_ms) ∷ key_rounds events)
            b).shutdowns
          ≡ (if is_long p.settings.shutdown_time key_ms (key_rounds events)
              then b.shutdowns + 1
              else b.shutdowns))
        (released p.button fresh idle)
        (handle_rounds_lem p.settings.shutdown_time key_ms value p.button.shutdowns
          (key_rounds events) ne held)
  where
    released :
        (b : Button)
        → b.pressed_since_ms ≡ 0
        → b.shutdown_requested ≡ false
        → ◌≡◌ {A = Button}
            (record { pressed_since_ms = 0; shutdown_requested = false; shutdowns = b.shutdowns })
            b
    released b since asked = λ i. record {
      pressed_since_ms = sym since i;
      shutdown_requested = sym asked i;
      shutdowns = b.shutdowns;
    }
