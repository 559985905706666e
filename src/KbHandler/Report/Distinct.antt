-- ===== src/KbHandler/Report/Distinct.antt =====
-- The slots of a report against the distinct key codes that were added.
use ykb_firmware.Base.{
  ℕ, zero, suc, ◌≤◌, ◌<◌, true, false, ◌||◌, not, List, [], ◌∷◌, ◌++◌, ltb, if◌then◌else◌, take,
  length, ◌≡◌, refl, ap, arith, ◌≢◌, Bool-cases, inl, inr, length-append,
}
use ykb_firmware.KbHandler.Report.Slots.{has_key, fill_slot, add_key}

-- The codes of `ds`, and `hid` behind them if it is new.
unfoldable pub insert_new : List ℕ → ℕ → List ℕ
insert_new ds hid = if has_key ds hid then ds else ds ++ (hid ∷ [])

-- `n` slots that show `ds`, with 0 in those that are left.
unfoldable pub shown : ℕ → List ℕ → List ℕ
shown zero ds = []
shown (suc n) [] = 0 ∷ shown n []
shown (suc n) (d ∷ ds) = d ∷ shown n ds

abbrev pub NoZero : List ℕ → Type 0
NoZero [] = Unit
NoZero (d ∷ ds) = (d ≢ 0) × NoZero ds

NoZero-append : (ds : List ℕ) (hid : ℕ) → NoZero ds → hid ≢ 0 → NoZero (ds ++ (hid ∷ []))
NoZero-append [] hid h ne = (ne, tt)
NoZero-append (d ∷ ds) hid h ne = (h.0, NoZero-append ds hid h.1 ne)

pub insert_new-NoZero : (ds : List ℕ) (hid : ℕ) → NoZero ds → hid ≢ 0 → NoZero (insert_new ds hid)
unfolding insert_new
insert_new-NoZero ds hid h ne = elim (Bool-cases (has_key ds hid)) [
  | inl e ↦ rw e h
  | inr e ↦ rw e (NoZero-append ds hid h ne)
]

has_key-shown :
    (n : ℕ) (ds : List ℕ) (hid : ℕ) → hid ≢ 0 → has_key (shown n ds) hid ≡ has_key (take n ds) hid
unfolding has_key shown
has_key-shown zero ds hid ne = refl
has_key-shown (suc n) [] hid ne = ground (arith, has_key-shown n [] hid ne, take_nil n)
  where
    take_nil : (k : ℕ) → take {A = ℕ} k [] ≡ []
    take_nil zero = refl
    take_nil (suc k) = refl
has_key-shown (suc n) (d ∷ ds) hid ne = ground (arith, has_key-shown n ds hid ne)

fill_slot-shown :
    (n : ℕ) (ds : List ℕ) (hid : ℕ)
    → NoZero ds
    → fill_slot (shown n ds) hid ≡ (shown n (ds ++ (hid ∷ [])), ltb (length ds) n)
unfolding fill_slot shown
fill_slot-shown zero [] hid h = refl
fill_slot-shown zero (d ∷ ds) hid h = ground arith
fill_slot-shown (suc n) [] hid h = ground arith
fill_slot-shown (suc n) (d ∷ ds) hid h = ground (arith, fill_slot-shown n ds hid h.1, h.0)

beyond :
    (n : ℕ) (ds : List ℕ) (hid : ℕ)
    → has_key ds hid ≡ true
    → has_key (take n ds) hid ≡ false
    → n < length ds
unfolding has_key
beyond n [] hid a b = cc
beyond zero (d ∷ ds) hid a b = omega arith
beyond (suc n) (d ∷ ds) hid a b = ground (arith, beyond n ds hid)

has_key-take :
    (n : ℕ) (ds : List ℕ) (hid : ℕ) → has_key (take n ds) hid ≡ true → has_key ds hid ≡ true
unfolding has_key
has_key-take zero ds hid e = cc
has_key-take (suc n) [] hid e = cc
has_key-take (suc n) (d ∷ ds) hid e = ground (arith, has_key-take n ds hid)

shown-append :
    (n : ℕ) (ds : List ℕ) (hid : ℕ) → n ≤ length ds → shown n (ds ++ (hid ∷ [])) ≡ shown n ds
unfolding shown
shown-append zero ds hid h = refl
shown-append (suc n) [] hid h = absurd (omega arith)
shown-append (suc n) (d ∷ ds) hid h = ap (◌∷◌ d) (shown-append n ds hid (omega arith))

-- What `add_key` does to slots that show `ds`, and whether it fails.
pub add_key-shown :
    (n : ℕ) (ds : List ℕ) (hid : ℕ)
    → NoZero ds
    → hid ≢ 0
    → ((add_key (shown n ds) hid).0 ≡ shown n (insert_new ds hid))
      × ((ltb n (length ds) || not (add_key (shown n ds) hid).1)
          ≡ ltb n (length (insert_new ds hid)))
unfolding add_key insert_new
add_key-shown n ds hid h ne =
    let visible = has_key-shown n ds hid ne in
    let filled = fill_slot-shown n ds hid h in
    elim (Bool-cases (has_key (take n ds) hid)) [
      | inl e ↦ simp (visible, e, has_key-take n ds hid e) (refl, ground arith)
      | inr e ↦ elim (Bool-cases (has_key ds hid)) [
        | inl old ↦
            let more = beyond n ds hid old e in
            simp (visible, e, filled, old) (shown-append n ds hid (omega arith), ground arith)
        | inr new ↦
            simp (visible, e, filled, new) (refl, ground (arith, length-append ds (hid ∷ [])))
      ]
    ]
