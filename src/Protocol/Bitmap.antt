-- ===== src/Protocol/Bitmap.antt =====
-- The bitmap of received packets in include/lib/ykb_protocol.h, an array of bytes.
use Prim.Native.Nat.{bit_and-bitwise}
use ykb_firmware.Base.{
  ℕ, zero, suc, ◌+◌, ◌*◌, ◌/◌, ◌%◌, ◌^◌, ◌<◌, ◌≡◌, refl, Bool, true, false, not, ◌&&◌, ◌||◌, List,
  ◌==◌, bit_and, bit_or, get_or, set, length, length-set, replicate, get_or-set_self, get_or-set_ne,
  passes_table, law_of_table, arith, ℕ_discrete, ltb,
}

unfoldable pub bitmap_size_bytes : ℕ → ℕ
bitmap_size_bytes packet_count = (packet_count + 7) / 8

-- A read past the bitmap gives 0 here: the receiver checks the size of its bitmap first.
unfoldable pub bitmap_test : List ℕ → ℕ → Bool
bitmap_test bitmap idx = not (bit_and (get_or bitmap (idx / 8) 0) (2 ^ (idx % 8)) == 0)

unfoldable pub bitmap_set : List ℕ → ℕ → List ℕ
bitmap_set bitmap idx = set bitmap (idx / 8) (bit_or (get_or bitmap (idx / 8) 0) (2 ^ (idx % 8)))

-- `memset(bitmap, 0, bitmap_size)`, over an array of that size.
unfoldable pub bitmap_clear_all : List ℕ → List ℕ
bitmap_clear_all bitmap = replicate (length bitmap) 0

-- Every entry is a byte.
pub record IsBitmap (bitmap : List ℕ) : Type 0 where
  pub byte : (i : ℕ) → get_or bitmap i 0 < 256

abbrev same : Bool → Bool → Bool
same true b = b
same false b = not b

same_sound : (a b : Bool) → same a b ≡ true → a ≡ b
same_sound true b h = ground arith
same_sound false b h = ground arith

-- What a byte shows at bit `j` once bit `k` is set.
bit_law : ℕ → Bool
bit_law x =
    let k = x % 8 in
    let j = x / 8 % 8 in
    let b = x / 64 in
    ltb (bit_or b (2 ^ k)) 256
    && same (bit_and (bit_or b (2 ^ k)) (2 ^ j) == 0) (not (k == j) && (bit_and b (2 ^ j) == 0))

bit_table : passes_table bit_law 16384 ≡ true
unfolding passes_table bit_law
bit_table = refl

pub bit_law_parts :
    (b k j : ℕ)
    → b < 256
    → k < 8
    → j < 8
    → (bit_or b (2 ^ k) < 256)
      × ((bit_and (bit_or b (2 ^ k)) (2 ^ j) == 0) ≡ (not (k == j) && (bit_and b (2 ^ j) == 0)))
unfolding bit_law
bit_law_parts b k j hb hk hj = split at_x
  where
    x : ℕ
    x = b * 64 + j * 8 + k

    xk : x % 8 ≡ k
    xk = omega arith

    xj : x / 8 % 8 ≡ j
    xj = omega arith

    xb : x / 64 ≡ b
    xb = omega arith

    holds : bit_law x ≡ true
    holds = law_of_table bit_law x (omega arith) bit_table

    at_x :
        (ltb (bit_or b (2 ^ k)) 256
          && same
              (bit_and (bit_or b (2 ^ k)) (2 ^ j) == 0)
              (not (k == j) && (bit_and b (2 ^ j) == 0)))
        ≡ true
    at_x = rw (xk, xj, xb) at holds

    split :
        (ltb (bit_or b (2 ^ k)) 256
            && same
                (bit_and (bit_or b (2 ^ k)) (2 ^ j) == 0)
                (not (k == j) && (bit_and b (2 ^ j) == 0)))
          ≡ true
        → (bit_or b (2 ^ k) < 256)
          × ((bit_and (bit_or b (2 ^ k)) (2 ^ j) == 0) ≡ (not (k == j) && (bit_and b (2 ^ j) == 0)))
    split h = (ground arith, same_sound _ _ (ground arith))

get_or-zeros : (n i : ℕ) → get_or {A = ℕ} (replicate n 0) i 0 ≡ 0
get_or-zeros zero i = refl
get_or-zeros (suc n) zero = refl
get_or-zeros (suc n) (suc i) = get_or-zeros n i

pub bitmap_clear_all-IsBitmap : (bitmap : List ℕ) → IsBitmap (bitmap_clear_all bitmap)
unfolding bitmap_clear_all
bitmap_clear_all-IsBitmap bitmap = record {
  byte = λ i. omega (arith, get_or-zeros (length bitmap) i);
}

pub bitmap_test-bitmap_clear_all :
    (bitmap : List ℕ) (i : ℕ) → bitmap_test (bitmap_clear_all bitmap) i ≡ false
unfolding bitmap_test bitmap_clear_all
bitmap_test-bitmap_clear_all bitmap i =
    rw (get_or-zeros (length bitmap) (i / 8), bit_and-bitwise 0 (2 ^ (i % 8)))

pub length-bitmap_set : (bitmap : List ℕ) (i : ℕ) → length (bitmap_set bitmap i) ≡ length bitmap
unfolding bitmap_set
length-bitmap_set bitmap i = length-set bitmap (i / 8) _

pub bitmap_set-IsBitmap :
    (bitmap : List ℕ) (i : ℕ)
    → i / 8 < length bitmap
    → IsBitmap bitmap
    → IsBitmap (bitmap_set bitmap i)
unfolding bitmap_set
bitmap_set-IsBitmap bitmap i h v = record {
  byte = λ j. elim (ℕ_discrete (i / 8) j) [
    | yes e ↦
        rw (← e, get_or-set_self bitmap (i / 8) _ 0 h)
          (bit_law_parts _ (i % 8) 0 (v.byte (i / 8)) (omega arith) (omega arith)).0
    | no ne ↦ rw (get_or-set_ne bitmap (i / 8) j _ 0 ne) (v.byte j)
  ];
}

-- Setting one bit changes the test of that bit alone.
pub bitmap_test-bitmap_set :
    (bitmap : List ℕ) (i j : ℕ)
    → IsBitmap bitmap
    → i / 8 < length bitmap
    → bitmap_test (bitmap_set bitmap i) j ≡ (i == j || bitmap_test bitmap j)
unfolding bitmap_test bitmap_set
bitmap_test-bitmap_set bitmap i j v h = elim (ℕ_discrete (i / 8) (j / 8)) [
  | yes e ↦
      rw (← e, get_or-set_self bitmap (i / 8) _ 0 h)
        (ground (
          arith,
          (bit_law_parts (get_or bitmap (i / 8) 0) (i % 8) (j % 8) (v.byte (i / 8)) (omega arith)
              (omega arith)).1,
        ))
  | no ne ↦ rw (get_or-set_ne bitmap (i / 8) (j / 8) _ 0 ne) (ground arith)
]
