-- ===== src/Base/Lists.antt =====
-- Arrays as lists with native indices; `copy_into` is `memcpy` into an array.
use Prim.Native.Nat.{ℕ, zero, suc, ◌+◌, ◌-◌, ◌≤◌, ◌<◌, min}
use mathlib.Core.Path.{◌≡◌, refl, ap, ap₂, subst, ◌∙◌}
use mathlib.Core.Logic.{◌≢◌, ◌⊎◌}
use mathlib.Core.List.{List, [], ◌∷◌, ◌++◌}
use native.Mathlib.Omega.{arith}

module _ {ℓ} {A : Type ℓ} where
  abbrev pub length : List A → ℕ
  length [] = 0
  length (x ∷ xs) = suc (length xs)

  abbrev pub get_or : List A → ℕ → A → A
  get_or [] i d = d
  get_or (x ∷ xs) zero d = x
  get_or (x ∷ xs) (suc i) d = get_or xs i d

  -- A write out of bounds changes nothing.
  abbrev pub set : List A → ℕ → A → List A
  set [] i v = []
  set (x ∷ xs) zero v = v ∷ xs
  set (x ∷ xs) (suc i) v = x ∷ set xs i v

  abbrev pub take : ℕ → List A → List A
  take zero xs = []
  take (suc n) [] = []
  take (suc n) (x ∷ xs) = x ∷ take n xs

  abbrev pub drop : ℕ → List A → List A
  drop zero xs = xs
  drop (suc n) [] = []
  drop (suc n) (x ∷ xs) = drop n xs

  abbrev pub replicate : ℕ → A → List A
  replicate zero a = []
  replicate (suc n) a = a ∷ replicate n a

  -- `memcpy(&dst[off], src, n)` for the list `src` of `n` elements.
  unfoldable pub copy_into : List A → ℕ → List A → List A
  copy_into dst off [] = dst
  copy_into dst off (x ∷ xs) = copy_into (set dst off x) (suc off) xs

  pub length-append : (xs ys : List A) → length (xs ++ ys) ≡ length xs + length ys
  length-append [] ys = omega arith
  length-append (x ∷ xs) ys = omega (arith, length-append xs ys)

  pub length-set : (xs : List A) (i : ℕ) (v : A) → length (set xs i v) ≡ length xs
  length-set [] i v = refl
  length-set (x ∷ xs) zero v = refl
  length-set (x ∷ xs) (suc i) v = ap suc (length-set xs i v)

  pub length-replicate : (n : ℕ) (a : A) → length (replicate n a) ≡ n
  length-replicate zero a = refl
  length-replicate (suc n) a = ap suc (length-replicate n a)

  pub length-take : (n : ℕ) (xs : List A) → length (take n xs) ≡ min n (length xs)
  length-take zero xs = omega arith
  length-take (suc n) [] = omega arith
  length-take (suc n) (x ∷ xs) = omega (arith, length-take n xs)

  pub length-drop : (n : ℕ) (xs : List A) → length (drop n xs) ≡ length xs - n
  length-drop zero xs = omega arith
  length-drop (suc n) [] = omega arith
  length-drop (suc n) (x ∷ xs) = omega (arith, length-drop n xs)

  pub get_or-set_self :
      (xs : List A) (i : ℕ) (v d : A) → i < length xs → get_or (set xs i v) i d ≡ v
  get_or-set_self [] i v d h = absurd (omega arith)
  get_or-set_self (x ∷ xs) zero v d h = refl
  get_or-set_self (x ∷ xs) (suc i) v d h = get_or-set_self xs i v d (omega arith)

  pub get_or-set_ne :
      (xs : List A) (i j : ℕ) (v d : A) → i ≢ j → get_or (set xs i v) j d ≡ get_or xs j d
  get_or-set_ne [] i j v d h = refl
  get_or-set_ne (x ∷ xs) zero zero v d h = absurd (h refl)
  get_or-set_ne (x ∷ xs) zero (suc j) v d h = refl
  get_or-set_ne (x ∷ xs) (suc i) zero v d h = refl
  get_or-set_ne (x ∷ xs) (suc i) (suc j) v d h = get_or-set_ne xs i j v d (λ e. h (ap suc e))

  pub get_or-replicate : (n i : ℕ) (a d : A) → i < n → get_or (replicate n a) i d ≡ a
  get_or-replicate zero i a d h = absurd (omega arith)
  get_or-replicate (suc n) zero a d h = refl
  get_or-replicate (suc n) (suc i) a d h = get_or-replicate n i a d (omega arith)

  pub get_or-take : (n i : ℕ) (xs : List A) (d : A) → i < n → get_or (take n xs) i d ≡ get_or xs i d
  get_or-take zero i xs d h = absurd (omega arith)
  get_or-take (suc n) i [] d h = refl
  get_or-take (suc n) zero (x ∷ xs) d h = refl
  get_or-take (suc n) (suc i) (x ∷ xs) d h = get_or-take n i xs d (omega arith)

  pub get_or-drop : (n i : ℕ) (xs : List A) (d : A) → get_or (drop n xs) i d ≡ get_or xs (n + i) d
  get_or-drop zero i xs d = ap (λ k. get_or xs k d) (omega arith)
  get_or-drop (suc n) i [] d = refl
  get_or-drop (suc n) i (x ∷ xs) d = rw (shift) (get_or-drop n i xs d)
    where
      shift : suc n + i ≡ suc (n + i)
      shift = omega arith

  pub get_or-append_left :
      (xs ys : List A) (i : ℕ) (d : A) → i < length xs → get_or (xs ++ ys) i d ≡ get_or xs i d
  get_or-append_left [] ys i d h = absurd (omega arith)
  get_or-append_left (x ∷ xs) ys zero d h = refl
  get_or-append_left (x ∷ xs) ys (suc i) d h = get_or-append_left xs ys i d (omega arith)

  pub get_or-append_right :
      (xs ys : List A) (i : ℕ) (d : A) → get_or (xs ++ ys) (length xs + i) d ≡ get_or ys i d
  get_or-append_right [] ys i d = ap (λ k. get_or ys k d) (omega arith)
  get_or-append_right (x ∷ xs) ys i d = rw shift (get_or-append_right xs ys i d)
    where
      shift : suc (length xs) + i ≡ suc (length xs + i)
      shift = omega arith

  pub drop-append : (xs ys : List A) → drop (length xs) (xs ++ ys) ≡ ys
  drop-append [] ys = refl
  drop-append (x ∷ xs) ys = drop-append xs ys

  -- Lists of one length with the same elements are equal.
  pub eq_of_get_or :
      (xs ys : List A) (d : A)
      → length xs ≡ length ys
      → ((i : ℕ) → i < length xs → get_or xs i d ≡ get_or ys i d)
      → xs ≡ ys
  eq_of_get_or [] [] d e h = refl
  eq_of_get_or [] (y ∷ ys) d e h = absurd (omega arith)
  eq_of_get_or (x ∷ xs) [] d e h = absurd (omega arith)
  eq_of_get_or (x ∷ xs) (y ∷ ys) d e h =
      ap₂ ◌∷◌ (h 0 (omega arith))
        (eq_of_get_or xs ys d (omega arith) (λ i hi. h (suc i) (omega arith)))

  pub length-copy_into :
      (dst : List A) (off : ℕ) (src : List A) → length (copy_into dst off src) ≡ length dst
  unfolding copy_into
  length-copy_into dst off [] = refl
  length-copy_into dst off (x ∷ xs) =
      rw (length-copy_into (set dst off x) (suc off) xs) (length-set dst off x)

  -- What `memcpy` leaves outside the range that it writes.
  pub get_or-copy_into_out :
      (dst : List A) (off : ℕ) (src : List A) (j : ℕ) (d : A)
      → (j < off) ⊎ (off + length src ≤ j)
      → get_or (copy_into dst off src) j d ≡ get_or dst j d
  unfolding copy_into
  get_or-copy_into_out dst off [] j d h = refl
  get_or-copy_into_out dst off (x ∷ xs) j d h =
      rw (get_or-copy_into_out (set dst off x) (suc off) xs j d (omega arith))
        (get_or-set_ne dst off j x d (omega arith))

  -- What it writes.
  pub get_or-copy_into_in :
      (dst : List A) (off : ℕ) (src : List A) (j : ℕ) (d : A)
      → off + length src ≤ length dst
      → j < length src
      → get_or (copy_into dst off src) (off + j) d ≡ get_or src j d
  unfolding copy_into
  get_or-copy_into_in dst off [] j d h hj = absurd (omega arith)
  get_or-copy_into_in dst off (x ∷ xs) zero d h hj =
      rw (at_off, get_or-copy_into_out (set dst off x) (suc off) xs off d (omega arith))
        (get_or-set_self dst off x d (omega arith))
    where
      at_off : off + 0 ≡ off
      at_off = omega arith
  get_or-copy_into_in dst off (x ∷ xs) (suc j) d h hj = rw next (
      get_or-copy_into_in (set dst off x) (suc off) xs j d (omega (arith, length-set dst off x))
        (omega arith))
    where
      next : off + suc j ≡ suc off + j
      next = omega arith

  -- At the start of the array.
  pub get_or-copy_into_start :
      (dst src : List A) (j : ℕ) (d : A)
      → length src ≤ length dst
      → j < length src
      → get_or (copy_into dst 0 src) j d ≡ get_or src j d
  get_or-copy_into_start dst src j d h hj =
      subst (λ k. get_or (copy_into dst 0 src) k d ≡ get_or src j d) shift
        (get_or-copy_into_in dst 0 src j d (omega arith) hj)
    where
      shift : 0 + j ≡ j
      shift = omega arith

  -- The bytes copied to the start of an array are its first ones.
  pub take-copy_into :
      (dst src : List A) → length src ≤ length dst → take (length src) (copy_into dst 0 src) ≡ src
  take-copy_into dst [] h = refl
  take-copy_into dst (x ∷ xs) h =
      eq_of_get_or (take (suc (length xs)) (copy_into dst 0 (x ∷ xs))) (x ∷ xs) x
        (omega (
          arith,
          length-take (suc (length xs)) (copy_into dst 0 (x ∷ xs)),
          length-copy_into dst 0 (x ∷ xs),
        ))
        (λ i hi.
          let small : i < suc (length xs) =
            omega (arith, length-take (suc (length xs)) (copy_into dst 0 (x ∷ xs))) in
          get_or-take (suc (length xs)) i (copy_into dst 0 (x ∷ xs)) x small
          ∙ get_or-copy_into_start dst (x ∷ xs) i x h small)

  -- A slice within the first `n` elements is a slice of them.
  pub slice-take :
      (n off len : ℕ) (xs : List A)
      → off + len ≤ n
      → take len (drop off xs) ≡ take len (drop off (take n xs))
  slice-take n off zero xs h = refl
  slice-take zero off (suc len) xs h = absurd (omega arith)
  slice-take (suc n) zero (suc len) [] h = refl
  slice-take (suc n) zero (suc len) (x ∷ xs) h =
      ap (λ ys. x ∷ ys) (slice-take n 0 len xs (omega arith))
  slice-take (suc n) (suc off) (suc len) [] h = refl
  slice-take (suc n) (suc off) (suc len) (x ∷ xs) h = slice-take n off (suc len) xs (omega arith)
