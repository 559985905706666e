-- ===== src/KbHandler/Actions.antt =====
-- What the shortcuts on FN do to the settings, in kb_handler_core.c, and the script slots of
-- subsys/ykb_backlight that two of them go through.
pub mod Search
use ykb_firmware.Base.{
  ℕ, zero, suc, ◌+◌, ◌-◌, ◌%◌, ◌^◌, Bool, true, false, not, ◌&&◌, ◌||◌, List, [], ◌∷◌, length, ltb,
  leb, ◌==◌, if◌then◌else◌, get_or, Option, none, some,
}
use ykb_firmware.Base.Int.{ℤ, pos, negsuc}
use ykb_firmware.Settings.{
  Settings, Backlight, Mode, normal, race, mousesim, TransportPrio, prio_usb, prio_bt, FnShortcut,
  FnAction, no_action, mode_normal, mode_race, mode_mousesim, transport_usb, transport_bt,
  bl_toggle, bl_next_script, bl_prev_script, bl_brightness_up, bl_brightness_down, bl_speed_up,
  bl_speed_down, bl_set_script, bl_set_brightness, bl_set_speed,
}
use ykb_firmware.Settings.Arithmetic.{Floats}

-- `ykb_backlight_script_slot_t`, less its name and its program.
pub record ScriptSlot : Type 0 where
  pub occupied : Bool
  pub size : ℕ

pub data Step : Type 0 where
  next previous : Step

-- A slot out of range is an error.
unfoldable pub get_script_slot : List ScriptSlot → ℕ → Option ScriptSlot
get_script_slot [] i = none
get_script_slot (s ∷ slots) zero = some s
get_script_slot (s ∷ slots) (suc i) = get_script_slot slots i

unfoldable pub is_playable : Option ScriptSlot → Bool
is_playable none = false
is_playable (some slot) = slot.occupied && ltb 0 slot.size

-- The slot that one attempt looks at. The difference is never below 0, since attempt < count.
unfoldable pub slot_at : Step → ℕ → ℕ → ℕ → ℕ
slot_at next count current attempt = (current + count + (attempt + 1)) % count
slot_at previous count current attempt = (current + count - (attempt + 1)) % count

-- The last `left` attempts, of which the first has number `attempt`.
unfoldable pub find_slot : List ScriptSlot → Step → ℕ → ℕ → ℕ → Option ℕ
find_slot slots step current attempt zero = none
find_slot slots step current attempt (suc left) =
    let rest = find_slot slots step current (attempt + 1) left in
    let idx = slot_at step (length slots) current attempt in
    if is_playable (get_script_slot slots (idx % 2 ^ 16)) then some (idx % 2 ^ 16) else rest

unfoldable pub find_next_occupied_script_slot : List ScriptSlot → ℕ → Step → Option ℕ
find_next_occupied_script_slot slots current step = find_slot slots step current 0 (length slots)

module _ (fl : Floats) where
  -- MIN and MAX of sys/util.h.
  unfoldable min_single : fl.Single → fl.Single → fl.Single
  min_single a b = if fl.single_lt a b then a else b

  unfoldable max_single : fl.Single → fl.Single → fl.Single
  max_single a b = if fl.single_lt b a then a else b

  unfoldable pub set_script : Option ℕ → Backlight fl → Backlight fl
  set_script none bl = bl
  set_script (some slot) bl = record bl { active_script_index = slot }

  unfoldable pub mutate_bl_set_script : ℕ → ℤ → Backlight fl → Backlight fl
  mutate_bl_set_script count (negsuc n) bl = bl
  mutate_bl_set_script count (pos slot) bl =
      if count == 0 || leb count slot then bl else record bl { active_script_index = slot % 2 ^ 16 }

  -- The parameter between two bounds, as the setters of the brightness and of the speed take it.
  unfoldable pub clamp_param : ℕ → ℕ → ℤ → ℕ
  clamp_param low high (negsuc n) = low
  clamp_param low high (pos n) = if ltb n low then low else if ltb high n then high else n

  unfoldable pub with_backlight : (Backlight fl → Backlight fl) → Settings fl → Settings fl
  with_backlight f settings = record settings { backlight = f settings.backlight }

  -- The settings after the action, and whether there was one.
  unfoldable pub execute_fn_action : List ScriptSlot → FnShortcut → Settings fl → Bool × Settings fl
  unfolding min_single max_single
  execute_fn_action slots shortcut settings = run shortcut.action
    where
      bl : (Backlight fl → Backlight fl) → Bool × Settings fl
      bl f = (true, with_backlight f settings)

      run : FnAction → Bool × Settings fl
      run no_action = (false, settings)
      run mode_normal = (true, record settings { mode = normal })
      run mode_race = (true, record settings { mode = race })
      run mode_mousesim = (true, record settings { mode = mousesim })
      run transport_usb = (true, record settings { kbh_prio = prio_usb })
      run transport_bt = (true, record settings { kbh_prio = prio_bt })
      run bl_toggle = bl (λ (b : Backlight fl). record b { on = not b.on })
      run bl_next_script = bl (λ (b : Backlight fl).
          set_script (find_next_occupied_script_slot slots b.active_script_index next) b)
      run bl_prev_script = bl (λ (b : Backlight fl).
          set_script (find_next_occupied_script_slot slots b.active_script_index previous) b)
      run bl_brightness_up = bl (λ (b : Backlight fl). record b {
        brightness = min_single (fl.single_add b.brightness (fl.single 1 10)) (fl.single 1 1);
      })
      run bl_brightness_down = bl (λ (b : Backlight fl). record b {
        brightness = max_single (fl.single_sub b.brightness (fl.single 1 10)) (fl.single 0 1);
      })
      run bl_speed_up = bl (λ (b : Backlight fl). record b {
        speed = min_single (fl.single_add b.speed (fl.single 1 10)) (fl.single 4 1);
      })
      run bl_speed_down = bl (λ (b : Backlight fl). record b {
        speed = max_single (fl.single_sub b.speed (fl.single 1 10)) (fl.single 1 10);
      })
      run bl_set_script = bl (mutate_bl_set_script (length slots) shortcut.param)
      run bl_set_brightness = bl (λ (b : Backlight fl). record b {
        brightness = fl.single (clamp_param 0 100 shortcut.param) 100;
      })
      run bl_set_speed = bl (λ (b : Backlight fl). record b {
        speed = fl.single (clamp_param 10 400 shortcut.param) 100;
      })
