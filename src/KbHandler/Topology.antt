-- ===== src/KbHandler/Topology.antt =====
-- kb_handler_config.c: the scanners of the keyboard and the key indices that they cover.
pub mod Cover
use ykb_firmware.Base.{
  ℕ, zero, suc, ◌+◌, Bool, true, false, not, ◌&&◌, List, [], ◌∷◌, ltb, ◌==◌, if◌then◌else◌, ◌≡◌,
  refl, sym, ap, ◌∙◌, arith, Bool-cases, inl, inr, ◌↔◌, subst,
}
use ykb_firmware.Base.Int.{ℤ, pos, negsuc}

-- What the driver of one scanner answers: `kscan_get_idx_offset` and `kscan_get_key_amount`.
pub record Kscan : Type 0 where
  pub offset : ℤ
  pub amount : ℤ

-- The value returned: 0, -EINVAL, or the error of a driver.
pub data Verdict : Type 0 where
  valid : Verdict
  invalid : Verdict
  driver_error : ℤ → Verdict

-- One scanner's answers, of which a negative one is an error.
pub data Reading : Type 0 where
  covers : ℕ → ℕ → Reading
  fails : ℤ → Reading

unfoldable pub read : ℤ → ℤ → Reading
read (negsuc e) amount = fails (negsuc e)
read (pos offset) (negsuc e) = fails (negsuc e)
read (pos offset) (pos amount) = covers offset amount

-- The loop, from the second scanner on if `has_prior`; a sum stays far below 2 ^ 31 keys.
unfoldable pub check_kscans : ℕ → Bool → ℕ → ℕ → List Kscan → Verdict
unfolding read
check_kscans expected_key_count has_prior expected_offset total [] =
    if total == expected_key_count then valid else invalid
check_kscans expected_key_count has_prior expected_offset total (k ∷ kscans) =
    elim (read k.offset k.amount) [
      | fails e ↦ driver_error e
      | covers offset amount ↦
          let rest =
            check_kscans expected_key_count true (offset + amount) (total + amount) kscans in
          if has_prior && ltb expected_offset offset
          then invalid
          else if has_prior && ltb offset expected_offset
          then invalid
          else rest
    ]

unfoldable pub validate_kscan_topology : ℕ → List Kscan → Verdict
validate_kscan_topology expected_key_count kscans = check_kscans expected_key_count false 0 0 kscans

-- The scanners cover `n` keys from `start` on, each beginning where the one before it ends.
pub data Tiles : ℕ → ℕ → List Kscan → Type 0 where
  tiled : {start n : ℕ} → n ≡ 0 → Tiles start n []
  tile :
      {start n m amount : ℕ} {kscans : List Kscan} {k : Kscan}
      → k.offset ≡ pos start
      → k.amount ≡ pos amount
      → n ≡ amount + m
      → Tiles (start + amount) m kscans
      → Tiles start n (k ∷ kscans)
