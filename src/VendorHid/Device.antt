-- ===== src/VendorHid/Device.antt =====
-- What the requests act on: the operations of kb_settings, kb_handler_core, ykb_backlight and
-- ykb_battsense that vendor_hid_protocol.c calls, as an interface. Structures are their bytes.
use ykb_firmware.Base.{ℕ, ◌≡◌, Bool, true, Option, some, List}
use ykb_firmware.VendorHid.Scripts.{FullSlot}

-- An operation that fails gives `none` or `false`.
pub record Device (D : Type 0) : Type 0 where
  pub features : List ℕ
  pub get_values : D → List ℕ
  pub get_settings : D → Option (List ℕ)
  pub apply_settings : D → List ℕ → Bool × D
  pub get_slot : D → ℕ → Option FullSlot
  pub set_slot : D → ℕ → FullSlot → Bool × D
  pub get_battery : D → Option (List ℕ)
  pub secondary_battery : D → List ℕ

-- A slot that is set can be read, and the others are as they were.
pub record IsStore {D : Type 0} (dev : Device D) : Type 0 where
  pub get-set :
      (d : D) (i : ℕ) (slot : FullSlot)
      → (dev.set_slot d i slot).0 ≡ true
      → dev.get_slot (dev.set_slot d i slot).1 i ≡ some slot
