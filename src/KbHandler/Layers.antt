-- ===== src/KbHandler/Layers.antt =====
-- The keys that switch layers, in kb_handler_core.c.
pub mod Cache
pub mod Active
use ykb_firmware.Base.{
  ℕ, zero, suc, ◌+◌, ◌%◌, ◌^◌, Bool, true, false, not, List, [], ◌∷◌, ltb, ◌==◌, if◌then◌else◌,
  get_or, set, replicate, take,
}
use ykb_firmware.Settings.{Settings}
use ykb_firmware.Settings.Arithmetic.{Floats}
use ykb_firmware.KbHandler.Report.{key_fn, key_layer1, key_layer2}

-- An array of key indices with the `uint8_t` count of its entries in use.
pub record KeyCache : Type 0 where
  pub keys : List ℕ
  pub count : ℕ

unfoldable pub clear_cache : ℕ → KeyCache
clear_cache total_key_count = record { keys = replicate total_key_count 0; count = 0 }

-- `keys[count++] = i`
unfoldable pub cache_key : ℕ → KeyCache → KeyCache
cache_key i c = record { keys = set c.keys c.count i; count = (c.count + 1) % 2 ^ 8 }

pub record LayerKeys : Type 0 where
  pub layer1 : KeyCache
  pub layer2 : KeyCache
  pub fn : KeyCache

unfoldable pub cache_if : Bool → ℕ → KeyCache → KeyCache
cache_if wanted i c = if wanted then cache_key i c else c

-- The loop from key `i` on, over the codes of the first layer from there on.
unfoldable pub cache_layer_keys : ℕ → List ℕ → LayerKeys → LayerKeys
cache_layer_keys i [] l = l
cache_layer_keys i (hid ∷ mappings) l = cache_layer_keys (i + 1) mappings (record {
  layer1 = cache_if (hid == key_layer1) i l.layer1;
  layer2 = cache_if (hid == key_layer2) i l.layer2;
  fn = cache_if (hid == key_fn) i l.fn;
})

-- `pressed_keys[layer_key]` for an entry of the cache other than `key`.
unfoldable pub other_pressed : ℕ → List Bool → List ℕ → ℕ → Bool
other_pressed key pressed_keys layer_keys zero = false
other_pressed key pressed_keys [] (suc n) = false
other_pressed key pressed_keys (layer_key ∷ layer_keys) (suc n) =
    let rest = other_pressed key pressed_keys layer_keys n in
    if layer_key == key then rest else if get_or pressed_keys layer_key false then true else rest

-- Whether the layer changed, and its new state.
unfoldable pub handle_layer_key : ℕ → Bool → List Bool → Bool → KeyCache → Bool × Bool
handle_layer_key key status pressed_keys layer_active cache =
    if not status
    then (if other_pressed key pressed_keys cache.keys cache.count
        then (false, layer_active)
        else (true, status))
    else (true, status)

module _ (fl : Floats) where
  unfoldable pub build_layer_keys : Settings fl → ℕ → LayerKeys
  build_layer_keys settings total_key_count =
      cache_layer_keys 0 (take total_key_count settings.mappings_layer1) (record {
        layer1 = clear_cache total_key_count;
        layer2 = clear_cache total_key_count;
        fn = clear_cache total_key_count;
      })
