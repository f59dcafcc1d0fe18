-- ===== src/Prelude/Store.antt =====
-- A fixed-size C array as a function of the index. The code that is modelled tests each index
-- against the size of its array, so no value outside that range is read.
use Prim.Native.Nat.{ℕ}
use mathlib.Core.Path.{◌≡◌, sym, subst}
use mathlib.Core.Logic.{◌≢◌}
use native.Mathlib.Omega.{arith}
use native.Mathlib.Decide.{ℕ_discrete}
use gunw_os.Prelude.Tests.{◌==◌, if◌then◌else◌}

abbrev pub Array {ℓ} : Type ℓ → Type ℓ
Array A = ℕ → A

module _ {ℓ} {A : Type ℓ} where
  abbrev pub update : Array A → ℕ → A → Array A
  update f i v = λ j. if i == j then v else f j

  pub update_self : (f : Array A) (i : ℕ) (v : A) → update f i v i ≡ v
  update_self f i v = ground arith

  pub update_ne : (f : Array A) (i j : ℕ) (v : A) → i ≢ j → update f i v j ≡ f j
  update_ne f i j v h = ground arith

  -- What holds of every entry, and of the value written, holds of every entry afterwards.
  pub update-all {κ} :
      (P : ℕ → A → Type κ) (f : Array A) (i : ℕ) (v : A)
      → P i v
      → ((j : ℕ) → P j (f j))
      → (j : ℕ) → P j (update f i v j)
  update-all P f i v new old j = elim (ℕ_discrete i j) [
    | yes e ↦ subst (λ n. P n (update f i v n)) e (subst (P i) (sym (update_self f i v)) new)
    | no ne ↦ subst (P j) (sym (update_ne f i j v ne)) (old j)
  ]
