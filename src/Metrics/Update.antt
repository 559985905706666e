-- ===== src/Metrics/Update.antt =====
-- Lists with one element changed, and the comparisons of small numbers.
use ykb_firmware.Base.{
  ℕ, zero, suc, ◌^◌, ◌≤◌, ◌<◌, ◌≡◌, ◌≢◌, refl, ap, min, max, List, [], ◌∷◌, ltb, length, get_or,
  arith,
}
use ykb_firmware.Metrics.{less, update, atomic_max, atomic_min}

module _ {ℓ} {A : Type ℓ} where
  pub length-update : (xs : List A) (i : ℕ) (f : A → A) → length (update xs i f) ≡ length xs
  unfolding update
  length-update [] i f = refl
  length-update (x ∷ xs) zero f = refl
  length-update (x ∷ xs) (suc i) f = ap suc (length-update xs i f)

  pub get_or-update_self :
      (xs : List A) (i : ℕ) (f : A → A) (d : A)
      → i < length xs
      → get_or (update xs i f) i d ≡ f (get_or xs i d)
  unfolding update
  get_or-update_self [] i f d h = absurd (omega (arith, h))
  get_or-update_self (x ∷ xs) zero f d h = refl
  get_or-update_self (x ∷ xs) (suc i) f d h = get_or-update_self xs i f d (omega arith)

  pub get_or-update_ne :
      (xs : List A) (i j : ℕ) (f : A → A) (d : A)
      → i ≢ j
      → get_or (update xs i f) j d ≡ get_or xs j d
  unfolding update
  get_or-update_ne [] i j f d ne = refl
  get_or-update_ne (x ∷ xs) zero zero f d ne = absurd (ne refl)
  get_or-update_ne (x ∷ xs) zero (suc j) f d ne = refl
  get_or-update_ne (x ∷ xs) (suc i) zero f d ne = refl
  get_or-update_ne (x ∷ xs) (suc i) (suc j) f d ne =
      get_or-update_ne xs i j f d (λ e. ne (ap suc e))

pub less-ltb : (a b : ℕ) → a < 2 ^ 31 → b < 2 ^ 31 → less a b ≡ ltb a b
unfolding less
less-ltb a b ha hb = ground arith

pub atomic_max-max : (a b : ℕ) → a < 2 ^ 31 → b < 2 ^ 31 → atomic_max a b [] ≡ max a b
unfolding atomic_max
atomic_max-max a b ha hb = rw (less-ltb a b ha hb) (ground arith)

pub atomic_min-min : (a b : ℕ) → a < 2 ^ 31 → b < 2 ^ 31 → atomic_min a b [] ≡ min a b
unfolding atomic_min
atomic_min-min a b ha hb = rw (less-ltb b a hb ha) (ground arith)

-- Whatever other contexts write, if they only raise the target, it ends no lower than the value that was
-- given and no lower than it was read.
IsRaised : ℕ → List (ℕ × ℕ) → Type 0
IsRaised old [] = Unit
IsRaised old ((held, reread) ∷ others) =
    (old ≤ held) × (held ≤ reread) × (reread < 2 ^ 31) × IsRaised reread others

atomic_max_le :
    (old value : ℕ) (others : List (ℕ × ℕ))
    → old < 2 ^ 31
    → value < 2 ^ 31
    → IsRaised old others
    → max old value ≤ atomic_max old value others
unfolding atomic_max IsRaised
atomic_max_le old value [] ho hv r = rw (less-ltb old value ho hv) (ground arith)
atomic_max_le old value ((held, reread) ∷ others) ho hv r =
    let again = atomic_max_le reread value others r.2 hv r.3 in
    rw (less-ltb old value ho hv) (ground (arith, again))
