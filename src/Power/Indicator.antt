-- ===== src/Power/Indicator.antt =====
-- The thread, the settings and the initialisation of ykb_power.c around the power key and the light. A mode
-- of the light is calls of the led driver, and an error of such a call, which is only logged, is left out.
use ykb_firmware.Base.{
  ℕ, ◌≤◌, ◌≡◌, refl, sym, ap, subst, ◌∙◌, Bool, false, ◌&&◌, Option, some, none, List, [], ◌∷◌,
  if◌then◌else◌, min, arith,
}
use ykb_firmware.Power.{Reading, Button, handle_button, handle_rounds, breathe}

pub data IndicatorMode : Type 0 where
  mode_off mode_static mode_blinking mode_breathe : IndicatorMode

pub record PowerSettings : Type 0 where
  pub pwr_indicator_mode : IndicatorMode
  pub speed : ℕ
  pub brightness : ℕ
  pub shutdown_time : ℕ

pub data LedCall : Type 0 where
  led_off led_on : LedCall
  led_blink : ℕ → ℕ → LedCall
  led_set_brightness : ℕ → LedCall

-- `settings_snap`, the power key, and the calls of the led driver, the last one first.
pub record PowerState : Type 0 where
  pub settings : PowerSettings
  pub button : Button
  pub calls : List LedCall

unfoldable pub default_settings : ℕ → PowerSettings
default_settings brightness_max = record {
  pwr_indicator_mode = mode_breathe;
  speed = 4000;
  brightness = brightness_max;
  shutdown_time = 1000;
}

-- ykb_power_handle_power_indicator by the mode; its last test is for any mode but breathing.
unfoldable pub indicator_calls : IndicatorMode → ℕ → ℕ → List LedCall → List LedCall
indicator_calls mode_off speed brightness calls = led_set_brightness brightness ∷ (led_off ∷ calls)
indicator_calls mode_static speed brightness calls =
    led_set_brightness brightness ∷ (led_on ∷ calls)
indicator_calls mode_blinking speed brightness calls =
    led_set_brightness brightness ∷ (led_blink speed speed ∷ calls)
indicator_calls mode_breathe speed brightness calls = calls

unfoldable pub handle_power_indicator : ℕ → PowerSettings → List LedCall → List LedCall
unfolding indicator_calls
handle_power_indicator brightness_max s calls =
    indicator_calls s.pwr_indicator_mode s.speed (min s.brightness brightness_max) calls

unfoldable pub breathe_calls : IndicatorMode → ℕ → List LedCall → List LedCall
breathe_calls mode_breathe brightness calls = led_set_brightness brightness ∷ calls
breathe_calls other brightness calls = calls

-- ykb_power_handle_power_indicator_breathe_mode, at the uptime `now_ms`.
unfoldable pub handle_breathe_mode : ℕ → PowerSettings → ℕ → List LedCall → List LedCall
unfolding breathe_calls
handle_breathe_mode brightness_max s now_ms calls =
    breathe_calls s.pwr_indicator_mode (breathe brightness_max s.speed s.brightness now_ms) calls

-- What happens to the state: a settings update, or a round of the thread with the level of the key and the
-- uptimes at which the light and the key ask for it.
pub data PowerEvent : Type 0 where
  updated : PowerSettings → PowerEvent
  round : Reading → ℕ → ℕ → PowerEvent

-- Settings updates that keep this time.
abbrev pub KeepTime : ℕ → List PowerEvent → Type 0
KeepTime time [] = Unit
KeepTime time (updated s ∷ events) = (s.shutdown_time ≡ time) × KeepTime time events
KeepTime time (round reading light_ms key_ms ∷ events) = KeepTime time events

-- What the rounds read of the key.
unfoldable pub key_rounds : List PowerEvent → List (Reading × ℕ)
key_rounds [] = []
key_rounds (updated s ∷ events) = key_rounds events
key_rounds (round reading light_ms key_ms ∷ events) = (reading, key_ms) ∷ key_rounds events

module _ (brightness_max : ℕ) where
  unfoldable pub power_event : PowerEvent → PowerState → PowerState
  unfolding handle_power_indicator handle_breathe_mode
  power_event (updated s) p = record p {
    settings = s;
    calls = handle_power_indicator brightness_max s p.calls;
  }
  power_event (round reading light_ms key_ms) p = record p {
    button = handle_button p.settings.shutdown_time reading key_ms p.button;
    calls = handle_breathe_mode brightness_max p.settings light_ms p.calls;
  }

  unfoldable pub power_run : List PowerEvent → PowerState → PowerState
  power_run [] p = p
  power_run (e ∷ events) p = power_run events (power_event e p)

  -- ykb_power_init, for whether the light, the key and the shutdown pin are ready and the two pins can be
  -- configured: the thread's first state, or -1.
  unfoldable pub power_init : Bool → Bool → Bool → Bool → Bool → Option PowerState
  unfolding default_settings
  power_init led_ready key_ready key_configures shdn_ready shdn_configures =
      if led_ready && (key_ready && (key_configures && (shdn_ready && shdn_configures)))
      then some (record {
        settings = default_settings brightness_max;
        button = record { pressed_since_ms = 0; shutdown_requested = false; shutdowns = 0 };
        calls = [];
      })
      else none

  -- No call sets the light above its greatest brightness.
  abbrev pub AllWithin : List LedCall → Type 0
  AllWithin [] = Unit
  AllWithin (led_set_brightness n ∷ calls) = (n ≤ brightness_max) × AllWithin calls
  AllWithin (led_off ∷ calls) = AllWithin calls
  AllWithin (led_on ∷ calls) = AllWithin calls
  AllWithin (led_blink on_ms off_ms ∷ calls) = AllWithin calls

  indicator_calls-AllWithin :
      (mode : IndicatorMode) (speed brightness : ℕ) (calls : List LedCall)
      → brightness ≤ brightness_max
      → AllWithin calls
      → AllWithin (indicator_calls mode speed brightness calls)
  unfolding indicator_calls
  indicator_calls-AllWithin mode_off speed brightness calls b h = (b, h)
  indicator_calls-AllWithin mode_static speed brightness calls b h = (b, h)
  indicator_calls-AllWithin mode_blinking speed brightness calls b h = (b, h)
  indicator_calls-AllWithin mode_breathe speed brightness calls b h = h

  breathe_calls-AllWithin :
      (mode : IndicatorMode) (brightness : ℕ) (calls : List LedCall)
      → brightness ≤ brightness_max
      → AllWithin calls
      → AllWithin (breathe_calls mode brightness calls)
  unfolding breathe_calls
  breathe_calls-AllWithin mode_off brightness calls b h = h
  breathe_calls-AllWithin mode_static brightness calls b h = h
  breathe_calls-AllWithin mode_blinking brightness calls b h = h
  breathe_calls-AllWithin mode_breathe brightness calls b h = (b, h)

  breathe_bound :
      (speed brightness now_ms : ℕ)
      → breathe brightness_max speed brightness now_ms ≤ brightness_max
  unfolding breathe
  breathe_bound speed brightness now_ms = omega arith

  -- Whatever updates and rounds come, no call sets the light above its greatest brightness.
  pub power_run-AllWithin :
      (events : List PowerEvent) (p : PowerState)
      → AllWithin p.calls
      → AllWithin (power_run events p).calls
  unfolding power_run power_event handle_power_indicator handle_breathe_mode
  power_run-AllWithin [] p h = h
  power_run-AllWithin (updated s ∷ events) p h =
      power_run-AllWithin events (power_event (updated s) p) (
        indicator_calls-AllWithin s.pwr_indicator_mode s.speed (min s.brightness brightness_max)
          p.calls (omega arith) h)
  power_run-AllWithin (round reading light_ms key_ms ∷ events) p h =
      power_run-AllWithin events (power_event (round reading light_ms key_ms) p) (
        breathe_calls-AllWithin p.settings.pwr_indicator_mode _ p.calls
          (breathe_bound p.settings.speed p.settings.brightness light_ms) h)

  -- The light and updates that keep shutdown_time change nothing about the key: its state is that of its
  -- rounds alone.
  pub power_run-handle_rounds :
      (events : List PowerEvent) (p : PowerState)
      → KeepTime p.settings.shutdown_time events
      → (power_run events p).button
        ≡ handle_rounds p.settings.shutdown_time (key_rounds events) p.button
  unfolding power_run power_event key_rounds handle_rounds
  power_run-handle_rounds [] p k = refl
  power_run-handle_rounds (updated s ∷ events) p (same, k) =
      power_run-handle_rounds events (power_event (updated s) p)
        (subst (λ t. KeepTime t events) (sym same) k)
      ∙ ap (λ t. handle_rounds t (key_rounds events) p.button) same
  power_run-handle_rounds (round reading light_ms key_ms ∷ events) p k =
      power_run-handle_rounds events (power_event (round reading light_ms key_ms) p) k
