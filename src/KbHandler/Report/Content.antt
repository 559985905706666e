-- ===== src/KbHandler/Report/Content.antt =====
-- What a keyboard report says: the codes of the pressed keys, each once, in the order of the keys.
use ykb_firmware.Base.{
  ℕ, ◌+◌, ◌-◌, ◌%◌, ◌^◌, ◌≤◌, ◌<◌, Bool, true, false, ◌||◌, ◌&&◌, not, List, [], ◌∷◌, ◌==◌, ltb,
  if◌then◌else◌, take, length, ◌≡◌, refl, arith, ◌≢◌, Bool-cases, inl, inr, replicate, bit_and,
  bit_or, ap, passes_table, law_of_table, ==_iff,
}
use ykb_firmware.Settings.{Settings}
use ykb_firmware.Settings.Arithmetic.{Floats}
use ykb_firmware.Protocol.Bitmap.{bit_law_parts}
use ykb_firmware.KbHandler.Report.{
  Draft, is_special, is_modifier, mod_bit, add_hid, add_pressed, build_kb_report, finish_report,
  resolve_hid, is_mousesim, is_mouseemu_physical_key, key_leftcontrol,
}
use ykb_firmware.KbHandler.Report.Slots.{has_key, no_keys}
use ykb_firmware.KbHandler.Report.Distinct.{
  insert_new, insert_new-NoZero, shown, NoZero, add_key-shown,
}

-- A code that goes into a slot.
unfoldable pub is_plain : ℕ → Bool
is_plain hid = not (is_special hid) && not (is_modifier hid)

-- The plain codes of a list, behind those of `ds`, each once.
unfoldable pub collect : List ℕ → List ℕ → List ℕ
collect ds [] = ds
collect ds (hid ∷ hids) = collect (if is_plain hid then insert_new ds hid else ds) hids

-- The codes of the pressed keys from key `i` on, but for those that move the mouse.
module _ (fl : Floats) where
  unfoldable pub active_codes : Settings fl → Bool → Bool → ℕ → List Bool → List ℕ
  active_codes settings second third i [] = []
  active_codes settings second third i (is_down ∷ rest) =
      let others = active_codes settings second third (i + 1) rest in
      if is_down
        && not (is_mousesim settings.mode && is_mouseemu_physical_key fl settings.mouseemu i)
      then resolve_hid fl settings i second third ∷ others
      else others

add_all : List ℕ → Draft → Draft
add_all [] draft = draft
add_all (hid ∷ hids) draft = add_all hids (add_hid hid draft)

add_pressed-active :
    (fl : Floats) (settings : Settings fl) (second third : Bool) (i : ℕ) (keys : List Bool)
    (draft : Draft)
    → add_pressed fl settings second third i keys draft
      ≡ add_all (active_codes fl settings second third i keys) draft
unfolding add_pressed active_codes add_all
add_pressed-active fl settings second third i [] draft = refl
add_pressed-active fl settings second third i (true ∷ rest) draft =
    elim (Bool-cases
      (is_mousesim settings.mode && is_mouseemu_physical_key fl settings.mouseemu i)) [
        | inl e ↦ simp e (add_pressed-active fl settings second third (i + 1) rest draft)
        | inr e ↦ simp e (add_pressed-active fl settings second third (i + 1) rest _)
      ]
add_pressed-active fl settings second third i (false ∷ rest) draft =
    add_pressed-active fl settings second third (i + 1) rest draft

-- A draft that shows `ds` and whose modifiers are those of `seen`.
record Shows (ds : List ℕ) (draft : Draft) : Type 0 where
  nonzero : NoZero ds
  slots : draft.keys ≡ shown 6 ds
  full : draft.overflow ≡ ltb 6 (length ds)

ne_zero_of_plain : (hid : ℕ) → is_special hid ≡ false → hid ≢ 0
unfolding is_special
ne_zero_of_plain hid h e = ground arith

add_hid-Shows :
    (hid : ℕ) (ds : List ℕ) (draft : Draft)
    → Shows ds draft
    → Shows (if is_plain hid then insert_new ds hid else ds) (add_hid hid draft)
unfolding add_hid is_plain
add_hid-Shows hid ds draft s = elim (Bool-cases (is_special hid)) [
  | inl e ↦ simp e s
  | inr e ↦ elim (Bool-cases (is_modifier hid)) [
    | inl m ↦ simp (e, m) (record { nonzero = s.nonzero; slots = s.slots; full = s.full })
    | inr m ↦
        let ne = ne_zero_of_plain hid e in
        let added = add_key-shown 6 ds hid s.nonzero ne in
        simp (e, m, s.slots, s.full)
          (record {
            nonzero = insert_new-NoZero ds hid s.nonzero ne;
            slots = added.0;
            full = added.1;
          })
  ]
]

add_all-Shows :
    (hids ds : List ℕ) (draft : Draft)
    → Shows ds draft
    → Shows (collect ds hids) (add_all hids draft)
unfolding add_all collect
add_all-Shows [] ds draft s = s
add_all-Shows (hid ∷ hids) ds draft s =
    add_all-Shows hids _ (add_hid hid draft) (add_hid-Shows hid ds draft s)

-- The modifier with number `k` is held.
abbrev pub has_mod : ℕ → ℕ → Bool
has_mod mods k = not (bit_and mods (2 ^ k) == 0)

record Holds (draft : Draft) (f : ℕ → Bool) : Type 0 where
  byte : draft.mods < 256
  bits : (k : ℕ) → k < 8 → has_mod draft.mods k ≡ f k

pow_byte_table : passes_table (λ e. 2 ^ e % 256 == 2 ^ e) 8 ≡ true
unfolding passes_table
pow_byte_table = refl

pow_byte : (e : ℕ) → e < 8 → 2 ^ e % 256 ≡ 2 ^ e
pow_byte e h = (==_iff _ _).0 (law_of_table (λ e. 2 ^ e % 256 == 2 ^ e) e h pow_byte_table)

modifier_range :
    (hid : ℕ) → is_modifier hid ≡ true → (key_leftcontrol ≤ hid) × (hid < key_leftcontrol + 8)
unfolding is_modifier
modifier_range hid m = (ground arith, ground arith)

add_mod :
    (mods hid k : ℕ)
    → mods < 256
    → is_modifier hid ≡ true
    → k < 8
    → (bit_or mods (mod_bit hid) < 256)
      × (has_mod (bit_or mods (mod_bit hid)) k ≡ (hid == key_leftcontrol + k || has_mod mods k))
unfolding mod_bit
add_mod mods hid k b m h =
    let (lo, hi) = modifier_range hid m in
    let law = bit_law_parts mods (hid - key_leftcontrol) k b (omega arith) h in
    rw (pow_byte (hid - key_leftcontrol) (omega arith)) (law.0, ground (arith, law.1))

special_no_mod : (hid k : ℕ) → is_special hid ≡ true → k < 8 → (hid == key_leftcontrol + k) ≡ false
unfolding is_special
special_no_mod hid k e h = ground arith

plain_no_mod : (hid k : ℕ) → is_modifier hid ≡ false → k < 8 → (hid == key_leftcontrol + k) ≡ false
unfolding is_modifier
plain_no_mod hid k e h = ground arith

add_hid-Holds :
    (hid : ℕ) (f : ℕ → Bool) (draft : Draft)
    → Holds draft f
    → Holds (add_hid hid draft) (λ k. hid == key_leftcontrol + k || f k)
unfolding add_hid
add_hid-Holds hid f draft b = elim (Bool-cases (is_special hid)) [
  | inl e ↦ simp e (record { byte = b.byte; bits = λ k h. other k h (special_no_mod hid k e h) })
  | inr e ↦ elim (Bool-cases (is_modifier hid)) [
    | inl m ↦
        simp (e, m)
          (record {
            byte = (add_mod draft.mods hid 0 b.byte m (omega arith)).0;
            bits = λ k h. ground (arith, (add_mod draft.mods hid k b.byte m h).1, b.bits k h);
          })
    | inr m ↦
        simp (e, m) (record { byte = b.byte; bits = λ k h. other k h (plain_no_mod hid k m h) })
  ]
]
  where
    other :
        (k : ℕ)
        → k < 8
        → (hid == key_leftcontrol + k) ≡ false
        → has_mod draft.mods k ≡ (hid == key_leftcontrol + k || f k)
    other k h e = ground (arith, b.bits k h)

add_all-Holds :
    (hids : List ℕ) (f : ℕ → Bool) (draft : Draft)
    → Holds draft f
    → Holds (add_all hids draft) (λ k. has_key hids (key_leftcontrol + k) || f k)
unfolding add_all has_key
add_all-Holds [] f draft b = b
add_all-Holds (hid ∷ hids) f draft b =
    let later = add_all-Holds hids _ (add_hid hid draft) (add_hid-Holds hid f draft b) in
    record { byte = later.byte; bits = λ k h. ground (arith, later.bits k h) }

abbrev empty_draft : Draft
empty_draft = record { mods = 0; keys = no_keys; overflow = false }

empty_Shows : Shows [] empty_draft
unfolding shown
empty_Shows = record { nonzero = tt; slots = refl; full = refl }

zero_mods_table : passes_table (λ k. bit_and 0 (2 ^ k) == 0) 8 ≡ true
unfolding passes_table
zero_mods_table = refl

empty_Holds : Holds empty_draft (λ k. false)
empty_Holds = record {
  byte = omega arith;
  bits = λ k h. ap not (law_of_table (λ k. bit_and 0 (2 ^ k) == 0) k h zero_mods_table);
}

-- The report of the pressed keys. Its slots show the plain codes of the active keys, each once and
-- in the order of the keys, the first six of them; with more than six and rollover switched on all
-- slots read 0x01. Modifier `k` is held exactly when an active key has its code.
pub build_kb_report_lem :
    (fl : Floats) (rollover : Bool) (settings : Settings fl) (pressed_keys : List Bool)
    (total_key_count : ℕ) (second third : Bool)
    → let report = build_kb_report fl rollover settings pressed_keys total_key_count second third in
      let codes = active_codes fl settings second third 0 (take total_key_count pressed_keys) in
      let plain = collect [] codes in
      (report.keys ≡ (if ltb 6 (length plain) && rollover then replicate 6 0x01 else shown 6 plain))
      × ((k : ℕ) → k < 8 → has_mod report.mods k ≡ has_key codes (key_leftcontrol + k))
      × (report.reserved ≡ 0)
unfolding build_kb_report finish_report
build_kb_report_lem fl rollover settings pressed_keys total_key_count second third =
    let codes = active_codes fl settings second third 0 (take total_key_count pressed_keys) in
    let same =
      add_pressed-active fl settings second third 0 (take total_key_count pressed_keys)
        empty_draft in
    let shows = add_all-Shows codes [] empty_draft empty_Shows in
    let holds = add_all-Holds codes (λ k. false) empty_draft empty_Holds in
    rw same (simp (shows.full, shows.slots), λ k h. ground (arith, holds.bits k h), refl)
