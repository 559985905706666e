-- ===== src/VendorHid/Slots.antt =====
-- Script slots on the wire and in the device.
use ykb_firmware.Base.{
  ℕ, ◌^◌, ◌<◌, ◌≡◌, refl, sym, ap, Bool, true, false, not, some, List, [], ◌∷◌, ◌++◌, ◌==◌,
  if◌then◌else◌, take, drop, length, arith, drop-append,
}
use ykb_firmware.VendorHid.Scripts.{
  FullSlot, to_wire, from_wire, end_name, size_bytes, size_of_bytes,
}
use ykb_firmware.VendorHid.Device.{Device, IsStore}
use ykb_firmware.VendorHid.Context.{rename_script_slot}

take-append {ℓ} : {A : Type ℓ} (xs ys : List A) → take (length xs) (xs ++ ys) ≡ xs
take-append [] ys = refl
take-append (x ∷ xs) ys = ap (λ zs. x ∷ zs) (take-append xs ys)

take_all {ℓ} : {A : Type ℓ} (xs : List A) → take (length xs) xs ≡ xs
take_all [] = refl
take_all (x ∷ xs) = ap (λ zs. x ∷ zs) (take_all xs)

-- A slot whose arrays have their sizes, with a name that ends in 0.
pub record IsSized (name_size code_size : ℕ) (slot : FullSlot) : Type 0 where
  pub word : slot.size < 2 ^ 32
  pub name_length : length slot.name ≡ name_size
  pub code_length : length slot.bytecode ≡ code_size
  pub name_ends : end_name name_size slot.name ≡ slot.name

size_of_bytes-size_bytes :
    (n : ℕ) (rest : List ℕ) → n < 2 ^ 32 → size_of_bytes (size_bytes n ++ rest) ≡ n
unfolding size_of_bytes size_bytes
size_of_bytes-size_bytes n rest h = omega arith

flag_back : (b : Bool) → not ((if b then 1 else 0) == 0) ≡ b
flag_back true = refl
flag_back false = refl

name_back :
    (name_size n : ℕ) (name code : List ℕ)
    → length name ≡ name_size
    → take name_size (drop 4 (size_bytes n ++ (name ++ code))) ≡ name
unfolding size_bytes
name_back name_size n name code e = rw (sym e) (take-append name code)

code_back :
    (name_size code_size n : ℕ) (name code : List ℕ)
    → length name ≡ name_size
    → length code ≡ code_size
    → take code_size (drop name_size (drop 4 (size_bytes n ++ (name ++ code)))) ≡ code
unfolding size_bytes
code_back name_size code_size n name code e c =
    rw (sym e, sym c) (rw (drop-append name code) (take_all code))

-- A slot that is sent in the form of the requests is read back as it was.
from_wire-to_wire :
    (name_size code_size : ℕ) (slot : FullSlot)
    → IsSized name_size code_size slot
    → from_wire name_size code_size (to_wire slot) ≡ slot
unfolding from_wire to_wire
from_wire-to_wire name_size code_size slot w =
    rw
      (
        flag_back slot.occupied,
        size_of_bytes-size_bytes slot.size (slot.name ++ slot.bytecode) w.word,
        name_back name_size slot.size slot.name slot.bytecode w.name_length,
        code_back name_size code_size slot.size slot.name slot.bytecode w.name_length w.code_length,
        w.name_ends,
      )
      refl

-- In a device whose slots can be read as they were set, a slot that is renamed with success has the new name, cut to its array and ended by 0, and is otherwise as it was.
pub rename_script_slot_lem :
    {D : Type 0} (mp : ℕ) (dev : Device D) (name_size code_size : ℕ) (i : ℕ) (name : List ℕ) (d : D)
    (slot : FullSlot)
    → IsStore dev
    → dev.get_slot d i ≡ some slot
    → (rename_script_slot mp dev name_size code_size i name d).0 ≡ true
    → dev.get_slot (rename_script_slot mp dev name_size code_size i name d).1 i
      ≡ some (record slot { name = end_name name_size (take name_size name) })
unfolding rename_script_slot
rename_script_slot_lem mp dev name_size code_size i name d slot law e =
    rw (rename_script_slot, e)
      (λ done.
        law.get-set d i (record slot { name = end_name name_size (take name_size name) }) done)
