-- ===== src/Backlight.antt =====
-- The backlight of a keyboard: subsys/ykb_backlight/src/ykb_backlight.c, and the machine of its scripts as
-- lumiscript_vm.c beside it drives it. The script language is a library: what it answers is an argument.
pub mod Names
pub mod Slots
pub mod Running
mod Tests
use ykb_firmware.Base.{
  ℕ, zero, suc, ◌+◌, ◌-◌, ◌*◌, ◌/◌, ◌%◌, ◌^◌, Bool, true, false, not, ◌&&◌, ◌||◌, Option, none,
  some, List, [], ◌∷◌, ltb, leb, ◌==◌, if◌then◌else◌, length, get_or, set, replicate,
}
use ykb_firmware.Splitlink.Scripts.{Script, script_at}

-- `lumiscript_load` in lumiscript_vm.c: what lumi_vm_measure_bytecode and lumi_vm_can_load,
-- lumi_vm_load_program, and lumi_vm_init_state answer.
pub record LoadAnswers : Type 0 where
  pub accepted : Bool
  pub program_ok : Bool
  pub state_ok : Bool

pub record Rgb : Type 0 where
  pub r : ℕ
  pub g : ℕ
  pub b : ℕ

-- `ykb_backlight_layout_t`
pub record Layout : Type 0 where
  pub key_count : ℕ
  pub led_map : List ℕ
  pub x_coordinates : List ℕ
  pub y_coordinates : List ℕ

-- The static variables of lumiscript_vm.c: script_loaded, and the program that the storage holds, `none` if
-- it was never written or the last load stopped while it wrote.
pub record Machine (A : Type 0) : Type 0 where
  pub machine_loaded : Bool
  pub program : Option (Script A)

-- `ykb_backlight_settings_t`; `F` is the type of a float.
pub record LightSettings (F : Type 0) : Type 0 where
  pub light_on : Bool
  pub active_script_index : ℕ
  pub speed : F
  pub brightness : F
  pub thread_sleep_ms : ℕ

unfoldable pub lumiscript_load :
    {A : Type 0} → LoadAnswers → Script A → Machine A → Bool × Machine A
lumiscript_load a script m =
    if not a.accepted
    then (false, m)
    else if not a.program_ok
    then (false, record m { program = none })
    else (let stored = record m { program = some script } in
        if not a.state_ok then (false, stored) else (true, record stored { machine_loaded = true }))

-- lumiscript_run_init, _run_update and _run_render: each fails without a script, or where the machine does.
unfoldable pub lumiscript_run : {A : Type 0} → Bool → Machine A → Bool
lumiscript_run machine_ok m = if not m.machine_loaded then false else machine_ok

abbrev pub dark : Rgb
dark = record { r = 0; g = 0; b = 0 }

-- The slot that is to be run, if it is in range, occupied and not empty.
unfoldable pub runnable : {A : Type 0} → Option (Script A) → Option (Script A)
runnable none = none
runnable (some s) = if not s.occupied || s.size == 0 then none else some s

-- The index of a key of this half: on the slave, its keys follow those of the master.
unfoldable pub local_index : Bool → ℕ → Layout → ℕ → Option ℕ
local_index slave keys_of_half layout index =
    if slave && ltb index keys_of_half
    then none
    else (let i = if slave then index - keys_of_half else index in
        if leb layout.key_count i then none else some i)

-- The three bytes of a color, each through apply_brightness, whose arithmetic on doubles is `scale`.
unfoldable pub color_of : {F : Type 0} → (F → ℕ → ℕ) → F → ℕ → Rgb
color_of scale brightness color = record {
  r = scale brightness (color / 2 ^ 16 % 256) % 256;
  g = scale brightness (color / 2 ^ 8 % 256) % 256;
  b = scale brightness (color % 256) % 256;
}

-- The loop of ykb_backlight_init over the keys from `i` on.
unfoldable pub layout_ok : ℕ → Layout → ℕ → ℕ → Bool
layout_ok led_count layout i zero = true
layout_ok led_count layout i (suc left) =
    let rest = layout_ok led_count layout (i + 1) left in
    if ltb 1000 (get_or layout.x_coordinates i 0)
    then false
    else if ltb 1000 (get_or layout.y_coordinates i 0)
    then false
    else if leb led_count (get_or layout.led_map i 0)
    then false
    else rest

-- The checks of ykb_backlight_init before it reads the flash, with a layout whose arrays are there.
unfoldable pub init_checks : ℕ → ℕ → Bool → Layout → Bool
init_checks led_count key_capacity strip_ready layout =
    if not strip_ready
    then false
    else if not (layout.key_count == key_capacity)
    then false
    else layout_ok led_count layout 0 layout.key_count

module _ (F A : Type 0) where
  -- The static variables of ykb_backlight.c, and `shown`, the buffers given to the strip, the last one first.
  pub record Light : Type 0 where
    pub script_slots : List (Script A)
    pub script_loaded : Bool
    pub machine : Machine A
    pub on : Bool
    pub init_success : Bool
    pub cur_speed : F
    pub cur_brightness : F
    pub thread_sleep_time : ℕ
    pub prev_update : ℕ
    pub press : List ℕ
    pub pressed : List Bool
    pub buf_front : List Rgb
    pub buf_back : List Rgb
    pub shown : List (List Rgb)

  unfoldable pub swap_and_show : Light → Light
  swap_and_show l = record l {
    buf_front = l.buf_back;
    buf_back = l.buf_front;
    shown = l.buf_back ∷ l.shown;
  }

  -- clear_state. lumiscript_reset_state changes the variables of a script, which belong to the library.
  unfoldable pub clear_state : ℕ → Light → Light
  clear_state led_count l = swap_and_show (record l { buf_back = replicate led_count dark })

  unfoldable pub take_settings : LightSettings F → Light → Light
  take_settings s l = record l {
    script_loaded = false;
    cur_speed = s.speed;
    thread_sleep_time = s.thread_sleep_ms;
    cur_brightness = s.brightness;
    on = s.light_on;
  }

  unfoldable pub load_script : LoadAnswers → Bool → Option (Script A) → Light → Light
  load_script a init_ok none l = l
  load_script a init_ok (some script) l =
      let (ok, machine) = lumiscript_load a script l.machine in
      let loaded = record l { machine = machine } in
      if not ok
      then loaded
      else if not (lumiscript_run init_ok machine)
      then loaded
      else record loaded { script_loaded = true }

  -- on_settings_update.
  unfoldable pub on_settings_update : ℕ → LoadAnswers → Bool → LightSettings F → Light → Light
  on_settings_update led_count a init_ok s l =
      if not l.init_success
      then l
      else (let taken = take_settings s (clear_state led_count l) in
          load_script a init_ok (runnable (script_at taken.script_slots s.active_script_index))
            taken)

  -- ykb_backlight_set_script_slot, less the saving (Slots) and the callback: whether it succeeds. `current`
  -- is what kb_settings_get gives.
  unfoldable pub set_script_slot :
      ℕ → ℕ → LoadAnswers → Bool → Option (LightSettings F) → ℕ → Script A → Light → Bool × Light
  set_script_slot slot_size led_count a init_ok current slot script l =
      if leb (length l.script_slots) slot
      then (false, l)
      else if ltb slot_size script.size
      then (false, l)
      else (let stored = record l { script_slots = set l.script_slots slot script } in
          (
            true,
            elim current [
              | none ↦ stored
              | some s ↦
                  (if s.active_script_index == slot
                    then on_settings_update led_count a init_ok s stored
                    else stored)
            ],
          ))

  -- kb_handler_on_event and kb_handler_on_value_changed, with a layout.
  unfoldable pub kb_handler_on_event : Bool → ℕ → Layout → ℕ → Bool → Light → Light
  kb_handler_on_event slave keys_of_half layout index value l =
      elim (local_index slave keys_of_half layout index) [
        | none ↦ l
        | some i ↦ record l { pressed = set l.pressed i value }
      ]

  unfoldable pub kb_handler_on_value_changed : Bool → ℕ → Layout → ℕ → ℕ → Light → Light
  kb_handler_on_value_changed slave keys_of_half layout index value l =
      elim (local_index slave keys_of_half layout index) [
        | none ↦ l
        | some i ↦ record l { press = set l.press i value }
      ]

  -- The loop over the keys from key `i` on; `colors` is what the machine renders, `none` for an error.
  -- Whether all were rendered.
  unfoldable pub render_keys : (F → ℕ → ℕ) → Layout → ℕ → List (Option ℕ) → Light → Bool × Light
  render_keys scale layout i [] l = (true, l)
  render_keys scale layout i (none ∷ colors) l = (false, l)
  render_keys scale layout i (some color ∷ colors) l =
      render_keys scale layout (i + 1) colors (record l {
        buf_back =
            set l.buf_back (get_or layout.led_map i 0) (color_of scale l.cur_brightness color);
      })

  -- One round of ykb_backlight_thread_handler; `colors` has an answer for each key.
  unfoldable pub thread_round : (F → ℕ → ℕ) → Layout → ℕ → Bool → List (Option ℕ) → Light → Light
  thread_round scale layout uptime update_ok colors l =
      if not l.script_loaded
      then l
      else if not l.on
      then l
      else (let timed = record l { prev_update = uptime } in
          if not (lumiscript_run update_ok timed.machine)
          then timed
          else (let (all, rendered) = render_keys scale layout 0 colors timed in
              if all then swap_and_show rendered else rendered))
