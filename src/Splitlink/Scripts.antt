-- ===== src/Splitlink/Scripts.antt =====
-- How the slave's scripts come to be the master's: splitlink_sync_master.c and splitlink_sync_slave.c of
-- subsys/splitlink/src/sync. Each half has a list of CONFIG_YKB_BL_SCRIPT_SLOT_COUNT script slots, and
-- `crc` is the checksum that ykb_backlight_get_script_slot_crc32 makes of a slot; it and
-- ykb_backlight_get_script_slot fail for a slot out of range alone. `A` is the type of what a slot holds besides its two first fields.
pub mod Compare
pub mod Received
pub mod Converge
pub mod Tests
use ykb_firmware.Base.{
  ℕ, zero, suc, ◌+◌, Bool, true, false, not, ◌||◌, Option, none, some, List, [], ◌∷◌, ◌==◌,
  if◌then◌else◌, replicate, set, length, take, ltb,
}
use ykb_firmware.Protocol.Bitmap.{bitmap_size_bytes, bitmap_test, bitmap_set}

-- `ykb_backlight_script_slot_t`
pub record Script (A : Type 0) : Type 0 where
  pub occupied : Bool
  pub size : ℕ
  pub contents : A

-- `splitlink_script_manifest_entry_t`
pub record Entry : Type 0 where
  pub entry_occupied : Bool
  pub entry_size : ℕ
  pub entry_crc32 : ℕ

unfoldable pub script_at {ℓ} : {A : Type ℓ} → List A → ℕ → Option A
script_at [] i = none
script_at (s ∷ slots) zero = some s
script_at (s ∷ slots) (suc i) = script_at slots i

unfoldable pub differ : Bool → Bool → Bool
differ true b = not b
differ false b = b

module _ {A : Type 0} (crc : Script A → ℕ) where
  -- A slot that cannot be read keeps the zeros of the manifest.
  unfoldable pub entry_of : Option (Script A) → Entry
  entry_of none = record { entry_occupied = false; entry_size = 0; entry_crc32 = 0 }
  entry_of (some s) = record {
    entry_occupied = s.occupied;
    entry_size = s.size;
    entry_crc32 = crc s;
  }

  -- splitlink_build_script_manifest from slot `i` on, for `left` slots.
  unfoldable pub build_manifest : List (Script A) → ℕ → ℕ → List Entry
  build_manifest slots i zero = []
  build_manifest slots i (suc left) =
      entry_of (script_at slots i) ∷ build_manifest slots (suc i) left

  -- The slave lacks the slot, or holds another script in it.
  unfoldable pub mismatch : Entry → Option (Script A) → Bool
  mismatch e none = true
  mismatch e (some s) =
      differ e.entry_occupied s.occupied
      || not (e.entry_size == s.size)
      || not (e.entry_crc32 == crc s)

  unfoldable pub note_mismatch : Bool → ℕ → Bool × List ℕ → Bool × List ℕ
  note_mismatch false i acc = acc
  note_mismatch true i acc = (true, bitmap_set acc.1 i)

  -- The loop of splitlink_sync_scripts_manifest_received from slot `i` on.
  unfoldable pub compare_slots : List (Script A) → ℕ → List Entry → Bool × List ℕ → Bool × List ℕ
  compare_slots slots i [] acc = acc
  compare_slots slots i (e ∷ es) acc =
      compare_slots slots (suc i) es (note_mismatch (mismatch e (script_at slots i)) i acc)

  -- splitlink_sync_scripts_manifest_received, for the first `slot_count` entries of the manifest: the bitmap
  -- of the request, if there is one.
  unfoldable pub manifest_received : List (Script A) → List Entry → Option (List ℕ)
  manifest_received slots entries =
      let (any_mismatch, bitmap) =
        compare_slots slots 0 (take (length slots) entries)
          (false, replicate (bitmap_size_bytes (length slots)) 0) in
      if any_mismatch then some bitmap else none

-- The slots that splitlink_sync_scripts_request_received queues, from slot `i` on.
unfoldable pub requested : List ℕ → ℕ → ℕ → List ℕ
requested bitmap i zero = []
requested bitmap i (suc left) =
    let rest = requested bitmap (suc i) left in if bitmap_test bitmap i then i ∷ rest else rest

-- splitlink_sync_script_slot_received, by way of ykb_backlight_set_script_slot: a slot out of range is
-- refused, as is a script longer than `slot_size`, CONFIG_YKB_BL_SCRIPT_SLOT_SIZE.
unfoldable pub script_slot_received :
    {A : Type 0} → ℕ → List (Script A) → ℕ → Script A → List (Script A)
script_slot_received slot_size slots i s = if ltb slot_size s.size then slots else set slots i s

-- The slave once the master's slots of these numbers have come, in order.
unfoldable pub slots_received :
    {A : Type 0} → ℕ → List (Script A) → List (Script A) → List ℕ → List (Script A)
slots_received slot_size master_slots slots [] = slots
slots_received slot_size master_slots slots (i ∷ is) = elim (script_at master_slots i) [
  | none ↦ slots_received slot_size master_slots slots is
  | some s ↦ slots_received slot_size master_slots (script_slot_received slot_size slots i s) is
]
