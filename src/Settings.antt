-- ===== src/Settings.antt =====
-- The types of include/subsys/kb_settings.h, of a build with the backlight. Arrays of
-- TOTAL_KEY_COUNT entries are lists of that length; an enum holds one of its named values.
pub mod Arithmetic
pub mod Store
mod Tests
use ykb_firmware.Base.{ℕ, Bool, List}
use ykb_firmware.Base.Int.{ℤ}
use Arithmetic.{Floats}

-- `kb_mode_t`
pub data Mode : Type 0 where
  normal race mousesim : Mode

pub data Direction : Type 0 where
  four_way eight_way : Direction

-- `enum kb_handler_transport_priority`
pub data TransportPrio : Type 0 where
  prio_usb prio_bt : TransportPrio

-- `kb_fn_action_t`
pub data FnAction : Type 0 where
  no_action mode_normal mode_race mode_mousesim transport_usb transport_bt : FnAction
  bl_toggle bl_next_script bl_prev_script : FnAction
  bl_brightness_up bl_brightness_down bl_speed_up bl_speed_down : FnAction
  bl_set_script bl_set_brightness bl_set_speed : FnAction

pub record FnShortcut : Type 0 where
  pub key : ℕ
  pub action : FnAction
  pub param : ℤ

-- The structures that hold floating-point numbers take their types from `fl`.
module _ (fl : Floats) where
  pub record Mouseemu : Type 0 where
    pub enabled : Bool
    pub direction_mode : Direction
    pub move_keys_count : ℕ
    pub move_keys : List ℕ
    pub scroll_keys_count : ℕ
    pub scroll_keys : List ℕ
    pub button_keys_count : ℕ
    pub button_keys : List ℕ
    pub move_x_k : fl.Double
    pub move_y_k : fl.Double
    pub scroll_k : fl.Double

  pub record Backlight : Type 0 where
    pub on : Bool
    pub active_script_index : ℕ
    pub speed : fl.Single
    pub brightness : fl.Single
    pub thread_sleep_ms : ℕ

  pub record Settings : Type 0 where
    pub mode : Mode
    pub thresholds : List ℕ
    pub minimums : List ℕ
    pub maximums : List ℕ
    pub deadzones : List ℕ
    pub mappings_layer1 : List ℕ
    pub mappings_layer2 : List ℕ
    pub mappings_layer3 : List ℕ
    pub mouseemu : Mouseemu
    pub kbh_prio : TransportPrio
    pub fn_shortcuts_count : ℕ
    pub fn_shortcuts : List FnShortcut
    pub backlight : Backlight
