-- ===== src/KbHandler/Layers/Active.antt =====
-- A layer stays on while another of its keys is held.
use ykb_firmware.Base.{
  ℕ, zero, suc, ◌+◌, ◌≤◌, Bool, true, false, ◌&&◌, ◌||◌, not, List, [], ◌∷◌, ◌==◌, if◌then◌else◌,
  get_or, take, length, arith, ◌≡◌, refl, ap, ◌∙◌,
}
use ykb_firmware.Settings.{Settings}
use ykb_firmware.Settings.Arithmetic.{Floats}
use ykb_firmware.KbHandler.Report.{key_layer1}
use ykb_firmware.KbHandler.Layers.{handle_layer_key, other_pressed, build_layer_keys}
use ykb_firmware.KbHandler.Layers.Cache.{keys_with, build_layer_keys_lem}

-- Another key than `key`, of position `i` or above, is mapped to `code` and is down.
unfoldable pub is_held_by_another : ℕ → ℕ → List Bool → ℕ → List ℕ → Bool
is_held_by_another code key pressed i [] = false
is_held_by_another code key pressed i (hid ∷ mappings) =
    (hid == code && (not (i == key) && get_or pressed i false))
    || is_held_by_another code key pressed (i + 1) mappings

unfoldable any_other : ℕ → List Bool → List ℕ → Bool
any_other key pressed [] = false
any_other key pressed (k ∷ keys) =
    (not (k == key) && get_or pressed k false) || any_other key pressed keys

other_pressed-take :
    (key : ℕ) (pressed : List Bool) (keys : List ℕ) (n : ℕ)
    → other_pressed key pressed keys n ≡ any_other key pressed (take n keys)
unfolding other_pressed any_other
other_pressed-take key pressed keys zero = refl
other_pressed-take key pressed [] (suc n) = refl
other_pressed-take key pressed (k ∷ keys) (suc n) =
    ground (arith, other_pressed-take key pressed keys n)

any_other-keys_with :
    (code key : ℕ) (pressed : List Bool) (i : ℕ) (mappings : List ℕ)
    → any_other key pressed (keys_with code i mappings)
      ≡ is_held_by_another code key pressed i mappings
unfolding any_other keys_with is_held_by_another
any_other-keys_with code key pressed i [] = refl
any_other-keys_with code key pressed i (hid ∷ mappings) =
    ground (arith, any_other-keys_with code key pressed (i + 1) mappings)

module _ (fl : Floats) where
  -- With the caches of at most 255 keys, pressing a KEY_LAYER1 key always turns the second layer on, and releasing one turns it off unless another KEY_LAYER1 key is down, when nothing changes.
  handle_layer_key-build_layer_keys :
      (settings : Settings fl) (key : ℕ) (pressed : List Bool) (is_active : Bool)
      → length settings.mappings_layer1 ≤ 255
      → (handle_layer_key key true pressed is_active
            (build_layer_keys fl settings (length settings.mappings_layer1)).layer1
          ≡ (true, true))
        × (handle_layer_key key false pressed is_active
              (build_layer_keys fl settings (length settings.mappings_layer1)).layer1
            ≡ (if is_held_by_another key_layer1 key pressed 0 settings.mappings_layer1
                then (false, is_active)
                else (true, false)))
  unfolding handle_layer_key
  handle_layer_key-build_layer_keys settings key pressed is_active h =
      let cache = (build_layer_keys fl settings (length settings.mappings_layer1)).layer1 in
      let same : other_pressed key pressed cache.keys cache.count
          ≡ is_held_by_another key_layer1 key pressed 0 settings.mappings_layer1 =
        other_pressed-take key pressed cache.keys cache.count
        ∙ (ap (any_other key pressed) ((build_layer_keys_lem fl settings h).0)
            ∙ any_other-keys_with key_layer1 key pressed 0 settings.mappings_layer1) in
      (refl, rw same refl)
