-- ===== src/Scanner/Mux/Lines.antt =====
-- What the select lines spell, and the channel that is kept.
use ykb_firmware.Base.{
  ℕ, zero, suc, ◌+◌, ◌/◌, ◌%◌, ◌^◌, ◌≤◌, ◌<◌, ◌≡◌, refl, sym, ap, subst, ◌∙◌, ◌≢◌, true, false,
  List, leb, get_or, set, length, arith, get_or-set_self, get_or-set_ne, length-set, Bool-cases,
  inl, inr, ◌⊎◌, ℕ_discrete,
}
use ykb_firmware.Scanner.Mux.{MuxConfig, Mux, Pins, mux_ok, drive_bits, pattern_of, select}

abbrev bit_of : ℕ → ℕ → ℕ
bit_of pattern k = pattern / 2 ^ k % 2

-- The lines driven before `i` keep their levels.
drive_bits_before :
    (pins : Pins) (pattern i left : ℕ) (lines : List ℕ) (k : ℕ)
    → k < i
    → get_or (drive_bits pins pattern i left lines).1 k 0 ≡ get_or lines k 0
unfolding drive_bits
drive_bits_before pins pattern i zero lines k h = refl
drive_bits_before pins pattern i (suc left) lines k h = elim (Bool-cases (pins.sel_ok i)) [
  | inr e ↦ simp (e) refl
  | inl e ↦ simp (e) (
      drive_bits_before pins pattern (suc i) left (set lines i (bit_of pattern i)) k (omega arith)
      ∙ get_or-set_ne lines i k (bit_of pattern i) 0 (λ (x : i ≡ k). absurd (omega arith)))
]

drive_bits_step :
    (pins : Pins) (pattern i left : ℕ) (lines : List ℕ)
    → (drive_bits pins pattern i (suc left) lines).0 ≡ true
    → drive_bits pins pattern i (suc left) lines
      ≡ drive_bits pins pattern (suc i) left (set lines i (bit_of pattern i))
unfolding drive_bits
drive_bits_step pins pattern i left lines done = elim (Bool-cases (pins.sel_ok i)) [
  | inl e ↦ simp (e)
  | inr e ↦ ground (arith, e)
]

-- When every line could be driven, line `k` has bit `k` of the pattern.
drive_bits_level :
    (pins : Pins) (pattern i left : ℕ) (lines : List ℕ) (k : ℕ)
    → (drive_bits pins pattern i left lines).0 ≡ true
    → i + left ≤ length lines
    → i ≤ k
    → k < i + left
    → get_or (drive_bits pins pattern i left lines).1 k 0 ≡ bit_of pattern k
drive_bits_level pins pattern i zero lines k done room low high = absurd (omega arith)
drive_bits_level pins pattern i (suc left) lines k done room low high =
    let next = set lines i (bit_of pattern i) in
    let step = drive_bits_step pins pattern i left lines done in
    ap (λ r. get_or r.1 k 0) step ∙ elim (ℕ_discrete i k) [
      | yes same ↦
          subst (λ j. get_or (drive_bits pins pattern (suc i) left next).1 j 0 ≡ bit_of pattern j)
            same
            (drive_bits_before pins pattern (suc i) left next i (omega arith)
              ∙ get_or-set_self lines i (bit_of pattern i) 0 (omega arith))
      | no other ↦
          drive_bits_level pins pattern (suc i) left next k (sym (ap (λ r. r.0) step) ∙ done)
            (omega (arith, length-set lines i (bit_of pattern i))) (grind (arith, other))
            (omega arith)
    ]

length-drive_bits :
    (pins : Pins) (pattern i left : ℕ) (lines : List ℕ)
    → length (drive_bits pins pattern i left lines).1 ≡ length lines
unfolding drive_bits
length-drive_bits pins pattern i zero lines = refl
length-drive_bits pins pattern i (suc left) lines = elim (Bool-cases (pins.sel_ok i)) [
  | inr e ↦ simp (e) refl
  | inl e ↦ simp (e) (
      length-drive_bits pins pattern (suc i) left (set lines i (bit_of pattern i))
      ∙ length-set lines i (bit_of pattern i))
]

-- A selection that succeeds leaves the select lines at the bits of the channel's pattern, low bit first, and keeps the channel; any other keeps the channel that was.
select_lem :
    (cfg : MuxConfig) (pins : Pins) (mux : Mux) (channel : ℕ)
    → cfg.sel_cnt ≤ length mux.lines
    → cfg.channels < 2 ^ 16
    → let (res, mux') = select cfg pins mux channel in
      ((res ≡ mux_ok)
        × (channel < cfg.channels)
        × (mux'.current ≡ channel)
        × ((k : ℕ) → k < cfg.sel_cnt → get_or mux'.lines k 0 ≡ pattern_of cfg channel / 2 ^ k % 2))
      ⊎ ((res ≢ mux_ok) × (mux'.current ≡ mux.current))
unfolding select
select_lem cfg pins mux channel room small = elim (Bool-cases (leb cfg.channels channel)) [
  | inl out ↦ simp (out) (inr ((λ x. cc), refl))
  | inr inside ↦
      elim (Bool-cases (drive_bits pins (pattern_of cfg channel) 0 cfg.sel_cnt mux.lines).0) [
        | inr e ↦ simp (inside, e) (inr ((λ x. cc), refl))
        | inl e ↦
            simp (inside, e)
              (inl (
                refl,
                inside_lt inside,
                omega (arith, inside_lt inside),
                λ k h.
                    drive_bits_level pins (pattern_of cfg channel) 0 cfg.sel_cnt mux.lines k e
                      (omega arith) (omega arith) (omega arith),
              ))
      ]
]
  where
    inside_lt : leb cfg.channels channel ≡ false → channel < cfg.channels
    inside_lt e = ground arith
