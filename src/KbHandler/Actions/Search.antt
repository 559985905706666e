-- ===== src/KbHandler/Actions/Search.antt =====
-- The search for a script finds one whenever there is one.
use native.Mathlib.Nat.{mod-lt, div-add-mod, add-mul-mod_self_left, mod-eq_of_lt}
use ykb_firmware.Base.{
  ℕ, zero, suc, ◌+◌, ◌-◌, ◌*◌, ◌/◌, ◌%◌, ◌^◌, ◌≤◌, ◌<◌, Bool, true, false, List, [], ◌∷◌, length,
  ltb, if◌then◌else◌, Option, none, some, ◌≡◌, arith, Bool-cases, inl, inr, dec_lt, subst, lt→ltb,
}
use ykb_firmware.KbHandler.Actions.{
  ScriptSlot, Step, next, previous, get_script_slot, is_playable, slot_at, find_slot,
  find_next_occupied_script_slot,
}

abbrev pub has_script : List ScriptSlot → ℕ → Bool
has_script slots i = is_playable (get_script_slot slots i)

-- A found slot is among `tried` and has a script; with none found, no slot tried has one.
pub data Found (slots : List ScriptSlot) (step : Step) (current attempt left : ℕ)
    : Option ℕ → Type 0 where
  hit :
      (k : ℕ)
      → k < attempt + left
      → has_script slots (slot_at step (length slots) current k) ≡ true
      → Found slots step current attempt left (some (slot_at step (length slots) current k))
  miss :
      ((k : ℕ)
        → attempt ≤ k
        → k < attempt + left
        → has_script slots (slot_at step (length slots) current k) ≡ false)
      → Found slots step current attempt left none

slot_at-lt : (step : Step) (n current k : ℕ) → 0 < n → slot_at step n current k < n
unfolding slot_at
slot_at-lt next n current k h = mod-lt _ h
slot_at-lt previous n current k h = mod-lt _ h

find_slot-Found :
    (slots : List ScriptSlot) (step : Step) (current attempt left : ℕ)
    → 0 < length slots
    → length slots ≤ 2 ^ 16
    → Found slots step current attempt left (find_slot slots step current attempt left)
unfolding find_slot
find_slot-Found slots step current attempt zero h w = miss (λ k from to. absurd (omega arith))
find_slot-Found slots step current attempt (suc left) h w =
    let below = slot_at-lt step (length slots) current attempt h in
    let same : slot_at step (length slots) current attempt % 2 ^ 16
        ≡ slot_at step (length slots) current attempt =
      omega arith in
    rw same (elim (Bool-cases (has_script slots (slot_at step (length slots) current attempt))) [
      | inl e ↦ simp e (hit attempt (omega arith) e)
      | inr e ↦ simp e (later e (find_slot-Found slots step current (attempt + 1) left h w))
    ])
  where
    later :
        {r : Option ℕ}
        → has_script slots (slot_at step (length slots) current attempt) ≡ false
        → Found slots step current (attempt + 1) left r
        → Found slots step current attempt (suc left) r
    later e (hit k to p) = hit k (omega arith) p
    later e (miss f) = miss (λ k from to. elim (dec_lt attempt k) [
      | yes p ↦ f k (omega arith) (omega arith)
      | no p ↦ first k from p e
    ])
      where
        first :
            (k : ℕ)
            → attempt ≤ k
            → ¬ (attempt < k)
            → has_script slots (slot_at step (length slots) current attempt) ≡ false
            → has_script slots (slot_at step (length slots) current k) ≡ false
        first k h p e = let q : k ≡ attempt = omega arith in rw q e

-- Every slot is the slot of some attempt.
attempt_of : Step → ℕ → ℕ → ℕ → ℕ
attempt_of next n r j = if ltb r j then j - r - 1 else j + n - r - 1
attempt_of previous n r j = if ltb j r then r - j - 1 else r + n - j - 1

ltb_no : (a b : ℕ) → ¬ (a < b) → ltb a b ≡ false
ltb_no a b h = ground arith

wraps : (q n j s : ℕ) → j < n → s ≡ j + n * q → s % n ≡ j
wraps q n j s h e = rw (e, add-mul-mod_self_left j n q) (mod-eq_of_lt h)

slot_at-attempt_of :
    (step : Step) (n current j : ℕ)
    → j < n
    → (attempt_of step n (current % n) j < n)
      × (slot_at step n current (attempt_of step n (current % n) j) ≡ j)
unfolding slot_at attempt_of
slot_at-attempt_of next n current j h =
    let split = div-add-mod current n in
    let below = mod-lt current {m = n} (omega arith) in
    elim (dec_lt (current % n) j) [
      | yes p ↦ simp (lt→ltb _ _ p) (omega arith, wraps (current / n + 1) n j _ h (omega arith))
      | no p ↦ simp (ltb_no _ _ p) (omega arith, wraps (current / n + 2) n j _ h (omega arith))
    ]
slot_at-attempt_of previous n current j h =
    let split = div-add-mod current n in
    let below = mod-lt current {m = n} (omega arith) in
    elim (dec_lt j (current % n)) [
      | yes p ↦ simp (lt→ltb _ _ p) (omega arith, wraps (current / n + 1) n j _ h (omega arith))
      | no p ↦ simp (ltb_no _ _ p) (omega arith, wraps (current / n) n j _ h (omega arith))
    ]

-- What the search may give: a slot with a script, or none when no slot has one.
pub data Outcome (slots : List ScriptSlot) : Option ℕ → Type 0 where
  script : (i : ℕ) → i < length slots → has_script slots i ≡ true → Outcome slots (some i)
  no_script : ((i : ℕ) → i < length slots → has_script slots i ≡ false) → Outcome slots none

-- With at most 65536 slots, the search from any slot, forwards or backwards, gives a slot that has a script, or none when no slot has one.
find_next_occupied_script_slot_lem :
    (slots : List ScriptSlot) (current : ℕ) (step : Step)
    → length slots ≤ 2 ^ 16
    → Outcome slots (find_next_occupied_script_slot slots current step)
unfolding find_next_occupied_script_slot find_slot
find_next_occupied_script_slot_lem [] current step w = no_script (λ i h. absurd (omega arith))
find_next_occupied_script_slot_lem (s ∷ slots) current step w =
    outcome (find_slot-Found (s ∷ slots) step current 0 (length (s ∷ slots)) (omega arith) w)
  where
    outcome :
        {r : Option ℕ}
        → Found (s ∷ slots) step current 0 (length (s ∷ slots)) r
        → Outcome (s ∷ slots) r
    outcome (hit k to e) = script _ (slot_at-lt step _ current k (omega arith)) e
    outcome (miss f) = no_script (λ i h.
        let (small, same) = slot_at-attempt_of step (length (s ∷ slots)) current i h in
        subst (λ (j : ℕ). has_script (s ∷ slots) j ≡ false) same (f _ (omega arith) (omega arith)))
