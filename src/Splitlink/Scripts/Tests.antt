-- ===== src/Splitlink/Scripts/Tests.antt =====
-- Two script slots of each half, and the theorem at work on them.
use ykb_firmware.Base.{
  ℕ, zero, suc, ◌≤◌, ◌≡◌, ap, refl, true, false, Option, none, some, List, [], ◌∷◌, length, arith,
}
use ykb_firmware.Protocol.Bitmap.{bitmap_test, bitmap_set, bitmap_size_bytes}
use ykb_firmware.Splitlink.Scripts.{
  Script, script_at, differ, entry_of, build_manifest, mismatch, note_mismatch, compare_slots,
  manifest_received, requested, slots_received,
}
use ykb_firmware.Splitlink.Scripts.Converge.{manifest_received-slots_received}
use ykb_firmware.Protocol.Exchange.Delivery.{contains}

-- Two scripts of the master, of which the slave has the second.
abbrev master_scripts : List (Script (List ℕ))
master_scripts =
    record { occupied = true; size = 2; contents = 7 ∷ 8 ∷ [] }
    ∷ record { occupied = false; size = 0; contents = [] }
    ∷ []

abbrev slave_scripts : List (Script (List ℕ))
slave_scripts =
    record { occupied = true; size = 2; contents = 9 ∷ [] }
    ∷ record { occupied = false; size = 0; contents = [] }
    ∷ []

abbrev slot_crc : Script (List ℕ) → ℕ
slot_crc s = length s.contents

abbrev size_of : Option (Script (List ℕ)) → ℕ
size_of none = 0
size_of (some s) = s.size

master_scripts_fit :
    (i : ℕ) (s : Script (List ℕ)) → script_at master_scripts i ≡ some s → s.size ≤ 4
unfolding script_at
master_scripts_fit zero s e = omega (arith, ap size_of e)
master_scripts_fit (suc zero) s e = omega (arith, ap size_of e)
master_scripts_fit (suc (suc i)) s e = omega (arith, ap size_of e)

slave_asks :
    manifest_received slot_crc slave_scripts (build_manifest slot_crc master_scripts 0 2)
    ≡ some (1 ∷ [])
unfolding manifest_received build_manifest compare_slots note_mismatch mismatch entry_of differ
    script_at bitmap_set bitmap_size_bytes
slave_asks = refl

asked_once : (k : ℕ) → contains k (requested (1 ∷ []) 0 2) ≡ true → contains k (1 ∷ 0 ∷ []) ≡ true
unfolding requested bitmap_test
asked_once k e = ground arith

manifest_received-slots_received_example :
    manifest_received slot_crc
      (slots_received 4 master_scripts slave_scripts (1 ∷ 0 ∷ []))
      (build_manifest slot_crc master_scripts 0 2)
    ≡ none
manifest_received-slots_received_example =
    manifest_received-slots_received slot_crc 4 master_scripts master_scripts_fit slave_scripts
      (1 ∷ []) (1 ∷ 0 ∷ []) refl slave_asks asked_once
