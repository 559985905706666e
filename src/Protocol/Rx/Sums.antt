-- ===== src/Protocol/Rx/Sums.antt =====
-- Sums over the packets that a receiver has seen.
use ykb_firmware.Base.{
  ℕ, zero, suc, ◌+◌, ◌≤◌, ◌<◌, ◌≡◌, refl, Bool, true, false, ◌||◌, ◌==◌, if◌then◌else◌, arith,
  ℕ_discrete,
}
use ykb_firmware.Protocol.Packet.{payload_len_for_index, sent_bytes}

-- The sum of `w i` over the `i` below `n` that `f` accepts.
unfoldable pub weigh : (ℕ → ℕ) → (ℕ → Bool) → ℕ → ℕ
weigh w f zero = 0
weigh w f (suc n) = weigh w f n + (if f n then w n else 0)

abbrev pub count_of : (ℕ → Bool) → ℕ → ℕ
count_of = weigh (λ i. 1)

pub weigh-cong :
    (w : ℕ → ℕ) (f g : ℕ → Bool) (n : ℕ) → ((i : ℕ) → i < n → f i ≡ g i) → weigh w f n ≡ weigh w g n
unfolding weigh
weigh-cong w f g zero h = refl
weigh-cong w f g (suc n) h = rw (weigh-cong w f g n (λ i hi. h i (omega arith)), h n (omega arith))

pub weigh-none :
    (w : ℕ → ℕ) (f : ℕ → Bool) (n : ℕ) → ((i : ℕ) → i < n → f i ≡ false) → weigh w f n ≡ 0
unfolding weigh
weigh-none w f zero h = refl
weigh-none w f (suc n) h =
    rw (weigh-none w f n (λ i hi. h i (omega arith)), h n (omega arith)) (omega arith)

pub count_of-le : (f : ℕ → Bool) (n : ℕ) → count_of f n ≤ n
unfolding weigh
count_of-le f zero = omega arith
count_of-le f (suc n) = ground (arith, count_of-le f n)

-- A count that is full has counted everything.
pub count_of_full : (f : ℕ → Bool) (n : ℕ) → count_of f n ≡ n → (i : ℕ) → i < n → f i ≡ true
unfolding weigh
count_of_full f zero e i h = absurd (omega arith)
count_of_full f (suc n) e i h = elim (ℕ_discrete i n) [
  | yes p ↦ rw p (ground (arith, count_of-le f n))
  | no p ↦ count_of_full f n (ground (arith, count_of-le f n)) i (omega arith)
]

pub count_of_all : (f : ℕ → Bool) (n : ℕ) → ((i : ℕ) → i < n → f i ≡ true) → count_of f n ≡ n
unfolding weigh
count_of_all f zero h = refl
count_of_all f (suc n) h =
    rw (count_of_all f n (λ i hi. h i (omega arith)), h n (omega arith)) (omega arith)

-- One more packet seen adds its weight.
pub weigh-insert :
    (w : ℕ → ℕ) (f g : ℕ → Bool) (i n : ℕ)
    → ((j : ℕ) → j < n → g j ≡ (i == j || f j))
    → f i ≡ false
    → i < n
    → weigh w g n ≡ weigh w f n + w i
unfolding weigh
weigh-insert w f g i zero h e l = absurd (omega arith)
weigh-insert w f g i (suc n) h e l = elim (ℕ_discrete i n) [
  | yes p ↦ ground (arith, h n (omega arith), weigh-cong w g f n (λ j hj. below p j hj))
  | no p ↦
      ground (
        arith,
        h n (omega arith),
        weigh-insert w f g i n (λ j hj. h j (omega arith)) e (omega arith),
      )
]
  where
    below : i ≡ n → (j : ℕ) → j < n → g j ≡ f j
    below p j hj = ground (arith, h j (omega arith))

-- Everything seen weighs what the sender sent.
pub weigh-sent :
    (mp total count : ℕ) (f : ℕ → Bool) (n : ℕ)
    → ((i : ℕ) → i < n → f i ≡ true)
    → weigh (λ i. payload_len_for_index mp total i count) f n ≡ sent_bytes mp total count n
unfolding weigh sent_bytes
weigh-sent mp total count f zero h = refl
weigh-sent mp total count f (suc n) h =
    rw (weigh-sent mp total count f n (λ i hi. h i (omega arith)), h n (omega arith))

-- Part of it weighs no more.
pub weigh-le_all : (w : ℕ → ℕ) (f : ℕ → Bool) (n : ℕ) → weigh w f n ≤ weigh w (λ i. true) n
unfolding weigh
weigh-le_all w f zero = omega arith
weigh-le_all w f (suc n) = ground (arith, weigh-le_all w f n)
