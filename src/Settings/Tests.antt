-- ===== src/Settings/Tests.antt =====
-- A settings library whose flash is one image, and the theorems at work on it.
use ykb_firmware.Base.{
  ℕ, ◌+◌, ◌-◌, ◌*◌, ◌/◌, ◌≡◌, refl, true, false, Option, none, some, [], ◌∷◌, ltb, arith,
  if◌then◌else◌, ◌⊎◌,
}
use ykb_firmware.Base.Int.{ℤ, pos, pos_part, ◌-ℤ◌, ltb_ℤ}
use ykb_firmware.Settings.{Settings, normal, four_way, prio_usb, mode_race, race}
use ykb_firmware.Settings.Arithmetic.{Floats}
use ykb_firmware.Settings.Store.{
  Image, Nvs, Defaults, Store, Result, ok, apply, get, init, init_load, load_subtree, handler_set,
  image_of, same_size, returns, notify,
}
use ykb_firmware.Settings.Store.Load.{IsTold, IsRefused, init-IsTold}
use ykb_firmware.KbHandler.Mouse.{mouseemu_check, is_eight_way}
use ykb_firmware.Settings.Store.Flash.{IsKeeping, init-apply}

abbrev floats : Floats
floats = record {
  Single = ℕ;
  single = λ n d. (n * 100) / d;
  single_add = λ a b. a + b;
  single_sub = λ a b. a - b;
  single_lt = ltb;
  Double = ℤ;
  double = λ n. n;
  add = λ a b. pos (pos_part a + pos_part b);
  sub = λ a b. a -ℤ b;
  mul = λ a b. pos (pos_part a * pos_part b);
  quotient = λ a b. pos (pos_part a / pos_part b);
  double_lt = ltb_ℤ;
  lround = λ d. d;
  truncate = λ d. d;
}

abbrev settings : Settings floats
settings = record {
  mode = normal;
  thresholds = 500 ∷ 500 ∷ 500 ∷ 500 ∷ [];
  minimums = 100 ∷ 100 ∷ 100 ∷ 100 ∷ [];
  maximums = 900 ∷ 900 ∷ 900 ∷ 900 ∷ [];
  deadzones = 50 ∷ 50 ∷ 50 ∷ 50 ∷ [];
  mappings_layer1 = 4 ∷ 5 ∷ 6 ∷ 7 ∷ [];
  mappings_layer2 = 5 ∷ 0xE9 ∷ 0xE8 ∷ 0xE0 ∷ [];
  mappings_layer3 = 4 ∷ 5 ∷ 6 ∷ 8 ∷ [];
  mouseemu = record {
    enabled = false;
    direction_mode = four_way;
    move_keys_count = 0;
    move_keys = [];
    scroll_keys_count = 0;
    scroll_keys = [];
    button_keys_count = 0;
    button_keys = [];
    move_x_k = pos 0;
    move_y_k = pos 0;
    scroll_k = pos 0;
  };
  kbh_prio = prio_usb;
  fn_shortcuts_count = 1;
  fn_shortcuts = record { key = 4; action = mode_race; param = pos 0 } ∷ [];
  backlight = record {
    on = true;
    active_script_index = 0;
    speed = 100;
    brightness = 100;
    thread_sleep_ms = 20;
  };
}

abbrev flash_of_one : Nvs floats (Option (Image floats))
flash_of_one = record {
  subsys_error = λ flash. 0;
  register_error = λ flash. 0;
  load_error = λ flash. 0;
  load = λ flash. elim flash [
    | none ↦ none
    | some image ↦ some (record { key_matches = true; len = 9; rlen = some 9; image = image })
  ];
  save_one = λ flash image. (true, some image);
}

flash_of_one-IsKeeping : IsKeeping floats flash_of_one 9
flash_of_one-IsKeeping = record {
  starts = λ flash. (refl, refl, refl);
  load-save = λ flash image saved. refl;
}

abbrev defaults : Defaults floats
defaults = record {
  keymap_layer1 = settings.mappings_layer1;
  keymap_layer2 = settings.mappings_layer2;
  keymap_layer3 = settings.mappings_layer3;
  mouseemu = settings.mouseemu;
  fn_shortcuts = settings.fn_shortcuts;
  thresholds = settings.thresholds;
  minimums = settings.minimums;
  maximums = settings.maximums;
  deadzones = settings.deadzones;
  backlight = settings.backlight;
}

abbrev fresh_store : Store floats
fresh_store = record { settings = settings; registered = false; loaded = false; notified = [] }

abbrev running_store : Store floats
running_store = record fresh_store { registered = true; loaded = true }

abbrev raced : Settings floats
raced = record settings { mode = race }

init-apply_example :
    let flash' = (apply floats flash_of_one 4 none running_store (some raced)).0 in
    (st' : Store floats) × (init floats flash_of_one 4 9 4 defaults flash' fresh_store
      ≡ (flash', if mouseemu_check floats 4 raced.mouseemu then some (ok, st') else none))
    × (get floats st' ≡ raced)
    × (st'.notified ≡ raced ∷ [])
init-apply_example =
    init-apply floats flash_of_one 4 9 4 defaults none running_store fresh_store raced
      flash_of_one-IsKeeping refl refl refl

default_check : mouseemu_check floats 4 defaults.mouseemu ≡ true
unfolding mouseemu_check
default_check = refl

init-IsTold_example :
    ((r : Result floats) × (st' : Store floats) × ((init floats flash_of_one 4 9 4 defaults none
          fresh_store).1
        ≡ some (r, st'))
      × IsTold floats st')
    ⊎ ((init floats flash_of_one 4 9 4 defaults none fresh_store ≡ (none, none))
        × IsRefused floats flash_of_one 4 9 4 defaults none)
init-IsTold_example =
    init-IsTold floats flash_of_one 4 9 4 defaults none fresh_store (omega arith) default_check

-- A mouse with no keys to move it.
abbrev unusable : Settings floats
unusable = record settings { mouseemu = record settings.mouseemu { enabled = true } }

-- Over these settings in the flash the kernel panics at each start.
unusable_stops :
    init floats flash_of_one 4 9 4 defaults (some (image_of floats unusable)) fresh_store
    ≡ (some (image_of floats unusable), none)
unfolding init init_load load_subtree handler_set image_of same_size returns notify mouseemu_check
    is_eight_way
unusable_stops = refl
