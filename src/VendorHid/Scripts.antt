-- ===== src/VendorHid/Scripts.antt =====
-- Script slots as ykb_backlight keeps them and as the requests carry them. `name_size` and `code_size`
-- are the sizes of the two arrays.
use ykb_firmware.Base.{
  ℕ, ◌+◌, ◌-◌, ◌*◌, ◌/◌, ◌%◌, Bool, not, List, [], ◌∷◌, ◌++◌, ◌==◌, if◌then◌else◌, take, drop, set,
  get_or,
}

pub record FullSlot : Type 0 where
  pub occupied : Bool
  pub size : ℕ
  pub name : List ℕ
  pub bytecode : List ℕ

-- The four bytes of `size`, low byte first.
unfoldable pub size_bytes : ℕ → List ℕ
size_bytes n = (n % 256) ∷ (n / 256 % 256) ∷ (n / 65536 % 256) ∷ (n / 16777216 % 256) ∷ []

unfoldable pub size_of_bytes : List ℕ → ℕ
size_of_bytes bytes =
    get_or bytes 0 0
    + 256 * get_or bytes 1 0
    + 65536 * get_or bytes 2 0
    + 16777216 * get_or bytes 3 0

-- vendor_hid_protocol_script_slot_to_wire, as the bytes of its packed structure.
unfoldable pub to_wire : FullSlot → List ℕ
to_wire slot =
    (if slot.occupied then 1 else 0) ∷ (size_bytes slot.size ++ (slot.name ++ slot.bytecode))

-- The last byte of a name is set to 0.
unfoldable pub end_name : ℕ → List ℕ → List ℕ
end_name name_size name = set name (name_size - 1) 0

-- vendor_hid_protocol_script_slot_from_wire.
unfoldable pub from_wire : ℕ → ℕ → List ℕ → FullSlot
from_wire name_size code_size bytes = record {
  occupied = not (get_or bytes 0 0 == 0);
  size = size_of_bytes (drop 1 bytes);
  name = end_name name_size (take name_size (drop 5 bytes));
  bytecode = take code_size (drop name_size (drop 5 bytes));
}
