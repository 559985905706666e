-- ===== src/Base/Finite.antt =====
-- Laws of small numbers that hold by inspection: a test run over a table of them.
use Prim.Native.Nat.{ℕ, zero, suc, ◌<◌}
use mathlib.Core.Path.{◌≡◌}
use mathlib.Core.Bool.{Bool, true, ◌&&◌}
use native.Mathlib.Omega.{arith}

unfoldable pub passes_table : (ℕ → Bool) → ℕ → Bool
passes_table law zero = true
passes_table law (suc size) = passes_table law size && law size

-- A law that passes the table holds of each number in it.
pub law_of_table :
    (law : ℕ → Bool) {size : ℕ} (k : ℕ) → k < size → passes_table law size ≡ true → law k ≡ true
unfolding passes_table
law_of_table law {size = zero} k h e = absurd (omega arith)
law_of_table law {size = suc size} k h e = ground (arith, law_of_table law {size = size} k)
