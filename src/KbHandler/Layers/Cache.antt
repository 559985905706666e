-- ===== src/KbHandler/Layers/Cache.antt =====
-- The caches hold exactly the keys that the first layer maps to each code.
use ykb_firmware.Base.{
  ℕ, zero, suc, ◌+◌, ◌%◌, ◌^◌, ◌≤◌, ◌<◌, List, [], ◌∷◌, ◌++◌, ◌==◌, if◌then◌else◌, set, replicate,
  take, length, length-set, length-replicate, arith, ◌≡◌, refl, ap, sym, ◌∙◌, Bool-cases, inl, inr,
}
use ykb_firmware.Settings.{Settings}
use ykb_firmware.Settings.Arithmetic.{Floats}
use ykb_firmware.KbHandler.Report.{key_fn, key_layer1, key_layer2}
use ykb_firmware.KbHandler.Layers.{
  KeyCache, LayerKeys, clear_cache, cache_key, cache_if, cache_layer_keys, build_layer_keys,
}

-- The entries in use.
abbrev pub listed : KeyCache → List ℕ
listed c = take c.count c.keys

-- The positions, counted from `i`, of `code`.
unfoldable pub keys_with : ℕ → ℕ → List ℕ → List ℕ
keys_with code i [] = []
keys_with code i (hid ∷ mappings) =
    let rest = keys_with code (i + 1) mappings in if hid == code then i ∷ rest else rest

unfoldable cache_code : ℕ → ℕ → List ℕ → KeyCache → KeyCache
cache_code code i [] c = c
cache_code code i (hid ∷ mappings) c = cache_code code (i + 1) mappings (cache_if (hid == code) i c)

layers_apart :
    (i : ℕ) (mappings : List ℕ) (l : LayerKeys)
    → cache_layer_keys i mappings l ≡ record {
      layer1 = cache_code key_layer1 i mappings l.layer1;
      layer2 = cache_code key_layer2 i mappings l.layer2;
      fn = cache_code key_fn i mappings l.fn;
    }
unfolding cache_layer_keys cache_code
layers_apart i [] l = refl
layers_apart i (hid ∷ mappings) l = layers_apart (i + 1) mappings _

take-set :
    (xs : List ℕ) (n v : ℕ) → n < length xs → take (suc n) (set xs n v) ≡ take n xs ++ (v ∷ [])
take-set [] n v h = absurd (omega arith)
take-set (x ∷ xs) zero v h = refl
take-set (x ∷ xs) (suc n) v h = ap (λ (l : List ℕ). x ∷ l) (take-set xs n v (omega arith))

append_assoc : (xs ys zs : List ℕ) → (xs ++ ys) ++ zs ≡ xs ++ (ys ++ zs)
append_assoc [] ys zs = refl
append_assoc (x ∷ xs) ys zs = ap (λ (l : List ℕ). x ∷ l) (append_assoc xs ys zs)

append_nil : (xs : List ℕ) → xs ++ [] ≡ xs
append_nil [] = refl
append_nil (x ∷ xs) = ap (λ (l : List ℕ). x ∷ l) (append_nil xs)

cache_key-listed :
    (i : ℕ) (c : KeyCache)
    → c.count < length c.keys
    → length c.keys ≤ 255
    → listed (cache_key i c) ≡ listed c ++ (i ∷ [])
unfolding cache_key
cache_key-listed i c h k =
    let counted : (c.count + 1) % 2 ^ 8 ≡ suc c.count = omega arith in
    ap (λ (m : ℕ). take m (set c.keys c.count i)) counted ∙ take-set c.keys c.count i h

cache_key-room :
    (i : ℕ) (c : KeyCache)
    → c.count < length c.keys
    → length c.keys ≤ 255
    → ((cache_key i c).count ≡ c.count + 1) × (length (cache_key i c).keys ≡ length c.keys)
unfolding cache_key
cache_key-room i c h k = (omega arith, length-set c.keys c.count i)

cache_code-listed :
    (code i : ℕ) (mappings : List ℕ) (c : KeyCache)
    → c.count + length mappings ≤ length c.keys
    → length c.keys ≤ 255
    → listed (cache_code code i mappings c) ≡ listed c ++ keys_with code i mappings
unfolding cache_code cache_if keys_with
cache_code-listed code i [] c h k = sym (append_nil _)
cache_code-listed code i (hid ∷ mappings) c h k = elim (Bool-cases (hid == code)) [
  | inl e ↦
      let (counted, kept) = cache_key-room i c (omega arith) k in
      simp e (
        cache_code-listed code (i + 1) mappings (cache_key i c) (omega arith) (omega arith)
        ∙ (ap (λ (l : List ℕ). l ++ keys_with code (i + 1) mappings)
              (cache_key-listed i c (omega arith) k)
            ∙ append_assoc (listed c) (i ∷ []) (keys_with code (i + 1) mappings)))
  | inr e ↦ simp e (cache_code-listed code (i + 1) mappings c (omega arith) k)
]

take_all : (xs : List ℕ) → take (length xs) xs ≡ xs
take_all [] = refl
take_all (x ∷ xs) = ap (λ (l : List ℕ). x ∷ l) (take_all xs)

cleared-listed :
    (code : ℕ) (mappings : List ℕ)
    → length mappings ≤ 255
    → listed (cache_code code 0 (take (length mappings) mappings) (clear_cache (length mappings)))
      ≡ keys_with code 0 mappings
unfolding clear_cache
cleared-listed code mappings h =
    let room : length (replicate (length mappings) zero) ≡ length mappings =
      length-replicate (length mappings) zero in
    rw (take_all mappings) (
      cache_code-listed code 0 mappings (record { keys = replicate (length mappings) 0; count = 0 })
        (omega arith) (omega arith))

module _ (fl : Floats) where
  -- With at most 255 keys, the caches list exactly the keys that the first layer maps to KEY_LAYER1, KEY_LAYER2 and KEY_FN, in order.
  pub build_layer_keys_lem :
      (settings : Settings fl)
      → length settings.mappings_layer1 ≤ 255
      → (listed (build_layer_keys fl settings (length settings.mappings_layer1)).layer1
          ≡ keys_with key_layer1 0 settings.mappings_layer1)
        × (listed (build_layer_keys fl settings (length settings.mappings_layer1)).layer2
            ≡ keys_with key_layer2 0 settings.mappings_layer1)
        × (listed (build_layer_keys fl settings (length settings.mappings_layer1)).fn
            ≡ keys_with key_fn 0 settings.mappings_layer1)
  unfolding build_layer_keys
  build_layer_keys_lem settings h = rw (layers_apart 0 _ _) (
    cleared-listed key_layer1 settings.mappings_layer1 h,
    cleared-listed key_layer2 settings.mappings_layer1 h,
    cleared-listed key_fn settings.mappings_layer1 h,
  )
