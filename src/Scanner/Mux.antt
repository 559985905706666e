-- ===== src/Scanner/Mux.antt =====
-- A multiplexer behind select lines: drivers/mux/src/mux_gpio.c. Whether gpio_pin_set_dt succeeds is an
-- input, for each select line and for the enable line; `lines` are the levels that the select lines have.
pub mod Lines
use ykb_firmware.Base.{
  ℕ, zero, suc, ◌+◌, ◌-◌, ◌*◌, ◌/◌, ◌%◌, ◌^◌, Bool, true, false, not, Option, none, some, List, [],
  ◌∷◌, leb, if◌then◌else◌, get_or, set, length,
}

pub record MuxConfig : Type 0 where
  pub sel_cnt : ℕ
  pub has_en : Bool
  pub idle_chan : Option ℕ
  pub channels : ℕ
  pub channel_map : Option (List ℕ)

pub record Mux : Type 0 where
  pub current : ℕ
  pub enabled : Bool
  pub lines : List ℕ
  pub en_line : ℕ

-- The pins, as far as they answer.
pub record Pins : Type 0 where
  pub sel_ok : ℕ → Bool
  pub en_ok : Bool

-- 0, -EINVAL, -ENODEV, an error of the pins.
pub data MuxResult : Type 0 where
  mux_ok mux_invalid no_device pin_error : MuxResult

unfoldable pub is_mux_ok : MuxResult → Bool
is_mux_ok mux_ok = true
is_mux_ok _ = false

-- drive_bits from line `i` on, `left` lines in all.
unfoldable pub drive_bits : Pins → ℕ → ℕ → ℕ → List ℕ → Bool × List ℕ
drive_bits pins pattern i zero lines = (true, lines)
drive_bits pins pattern i (suc left) lines =
    let rest = drive_bits pins pattern (suc i) left (set lines i (pattern / 2 ^ i % 2)) in
    if pins.sel_ok i then rest else (false, lines)

unfoldable pub pattern_of : MuxConfig → ℕ → ℕ
pattern_of cfg channel = elim cfg.channel_map [ none ↦ channel | some map ↦ get_or map channel 0 ]

unfoldable pub select : MuxConfig → Pins → Mux → ℕ → MuxResult × Mux
select cfg pins mux channel =
    let (driven, lines) = drive_bits pins (pattern_of cfg channel) 0 cfg.sel_cnt mux.lines in
    if leb cfg.channels channel
    then (mux_invalid, mux)
    else if driven
    then (mux_ok, record mux { lines = lines; current = channel % 2 ^ 16 })
    else (pin_error, record mux { lines = lines })

unfoldable pub select_next : MuxConfig → Pins → Mux → MuxResult × Mux
select_next cfg pins mux = select cfg pins mux ((mux.current + 1) % cfg.channels % 2 ^ 16)

unfoldable pub enable : MuxConfig → Pins → Mux → MuxResult × Mux
enable cfg pins mux =
    if mux.enabled
    then (mux_ok, mux)
    else if not cfg.has_en
    then (mux_ok, record mux { enabled = true })
    else if pins.en_ok
    then (mux_ok, record mux { enabled = true; en_line = 1 })
    else (pin_error, mux)

-- disable once the idle channel is selected.
unfoldable pub switch_off : MuxConfig → Pins → Mux → MuxResult × Mux
switch_off cfg pins mux =
    if not cfg.has_en
    then (mux_ok, record mux { enabled = false })
    else if pins.en_ok
    then (mux_ok, record mux { enabled = false; en_line = 0 })
    else (pin_error, mux)

unfoldable pub disable : MuxConfig → Pins → Mux → MuxResult × Mux
disable cfg pins mux = if not mux.enabled then (mux_ok, mux) else elim cfg.idle_chan [
  | none ↦ switch_off cfg pins mux
  | some idle ↦
      let (res, mux') = select cfg pins mux idle in
      if is_mux_ok res then switch_off cfg pins mux' else (res, mux')
]

-- What the pins answer at start: whether their ports are ready, and whether they can be configured.
pub record Setup : Type 0 where
  pub sel_ready : ℕ → Bool
  pub sel_configures : ℕ → Bool
  pub en_ready : Bool
  pub en_configures : Bool

-- The select lines from line `i` on, made outputs at level 0.
unfoldable pub configure_lines : Setup → ℕ → ℕ → List ℕ → MuxResult × List ℕ
configure_lines setup i zero lines = (mux_ok, lines)
configure_lines setup i (suc left) lines =
    let rest = configure_lines setup (suc i) left (set lines i 0) in
    if not (setup.sel_ready i)
    then (no_device, lines)
    else if not (setup.sel_configures i)
    then (pin_error, lines)
    else rest

unfoldable pub select_first : MuxConfig → Pins → Mux → MuxResult × Mux
select_first cfg pins mux = select cfg pins mux (elim cfg.idle_chan [ none ↦ 0 | some idle ↦ idle ])

-- mux_gpio_init.
unfoldable pub mux_init : MuxConfig → Setup → Pins → Mux → MuxResult × Mux
mux_init cfg setup pins mux =
    let (res, lines) = configure_lines setup 0 cfg.sel_cnt mux.lines in
    if not (is_mux_ok res)
    then (res, record mux { lines = lines })
    else if not cfg.has_en
    then select_first cfg pins (record mux { lines = lines; enabled = true })
    else if not setup.en_ready
    then (no_device, record mux { lines = lines })
    else if not setup.en_configures
    then (pin_error, record mux { lines = lines })
    else select_first cfg pins (record mux { lines = lines; enabled = false; en_line = 0 })
