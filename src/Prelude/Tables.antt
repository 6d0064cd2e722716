-- ===== src/Prelude/Tables.antt =====
-- A test that holds of every number below a bound, found by evaluation.
use Prim.Native.Nat.{ℕ, zero, suc, ◌<◌}
use mathlib.Core.Path.{◌≡◌}
use mathlib.Core.Bool.{Bool, true, ◌&&◌}
use native.Mathlib.Omega.{arith}

module _ (test : ℕ → Bool) where
  unfoldable pub passes_below : ℕ → Bool
  passes_below zero = true
  passes_below (suc bound) = passes_below bound && test bound

  pub table_entry :
      (bound entry : ℕ) → entry < bound → passes_below bound ≡ true → test entry ≡ true
  unfolding passes_below
  table_entry zero entry inside table = elim inside [ ]
  table_entry (suc bound) entry inside table = ground (arith, table_entry bound entry)
