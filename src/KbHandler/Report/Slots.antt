-- ===== src/KbHandler/Report/Slots.antt =====
-- The six slots of a report.
use ykb_firmware.Base.{ℕ, Bool, true, false, ◌||◌, List, [], ◌∷◌, ◌==◌, if◌then◌else◌, replicate}

abbrev pub key_nokey : ℕ
key_nokey = 0x00

abbrev pub no_keys : List ℕ
no_keys = replicate 6 0

-- The first loop of `add_key`: the code is there already.
unfoldable pub has_key : List ℕ → ℕ → Bool
has_key [] hid = false
has_key (k ∷ keys) hid = k == hid || has_key keys hid

-- The second loop: the first slot that is 0 takes the code.
unfoldable pub fill_slot : List ℕ → ℕ → List ℕ × Bool
fill_slot [] hid = ([], false)
fill_slot (k ∷ keys) hid =
    let (rest, added) = fill_slot keys hid in
    if k == 0 then (hid ∷ keys, true) else (k ∷ rest, added)

unfoldable pub add_key : List ℕ → ℕ → List ℕ × Bool
unfolding has_key fill_slot
add_key keys hid = if has_key keys hid then (keys, true) else fill_slot keys hid
