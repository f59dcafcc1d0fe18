-- ===== src/Prelude/Scan.antt =====
-- The loop `for (i = start; i < start + n; ++i) if (test(i)) break;`: the first index that passes,
-- or the end.
use Prim.Native.Nat.{ℕ, zero, suc, ◌+◌, ◌≤◌, ◌<◌}
use mathlib.Core.Path.{◌≡◌}
use mathlib.Core.Logic.{inl, inr}
use mathlib.Core.Bool.{Bool, true, false}
use native.Mathlib.Omega.{arith}
use native.Mathlib.Decide.{ℕ_discrete}
use gunw_os.Prelude.Tests.{if◌then◌else◌, Bool-cases}

unfoldable pub first : (ℕ → Bool) → ℕ → ℕ → ℕ
first test start zero = start
first test start (suc n) = let rest = first test (start + 1) n in if test start then start else rest

module _ (test : ℕ → Bool) where
  pub first-le : (start n : ℕ) → first test start n ≤ start + n
  unfolding first
  first-le start zero = omega arith
  first-le start (suc n) = ground (arith, first-le (start + 1) n)

  pub le-first : (start n : ℕ) → start ≤ first test start n
  unfolding first
  le-first start zero = omega arith
  le-first start (suc n) = ground (arith, le-first (start + 1) n)

  -- Where the scan stops before the end the test passes.
  pub first_hit : (start n : ℕ) → first test start n < start + n → test (first test start n) ≡ true
  unfolding first
  first_hit start zero h = absurd (omega arith)
  first_hit start (suc n) h = ground (arith, first_hit (start + 1) n)

  -- Below the index where it stops the test fails.
  pub first_miss : (start n j : ℕ) → start ≤ j → j < first test start n → test j ≡ false
  unfolding first
  first_miss start zero j h k = absurd (omega arith)
  first_miss start (suc n) j h k = elim (ℕ_discrete start j) [
    | yes here ↦ elim (Bool-cases (test start)) [
      | inl e ↦ absurd (ground arith)
      | inr e ↦ rw (← here) e
    ]
    | no later ↦ ground (arith, first_miss (start + 1) n j)
  ]
