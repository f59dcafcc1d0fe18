-- ===== src/Prelude/Outcome.antt =====
-- What a kernel routine comes to: a value, or one of the ways in which it does not return.
-- `oops` is the halt of `OOPS` (error/panic.h), which stops the CPU in `k_oops` and never comes back
-- to its caller; `hang` is a loop that ran out of its fuel; `fault` is an access outside an array or
-- a call through a null pointer, which C leaves undefined.
use mathlib.Core.Path.{◌≡◌, refl, subst}
use mathlib.Core.Logic.{◌≢◌, ◌⊎◌, inl, inr}
use mathlib.Core.Bool.{Bool, true, false}
use gunw_os.Prelude.Tests.{if◌then◌else◌}

pub data Outcome {ℓ} (A : Type ℓ) : Type ℓ where
  ok : A → Outcome A
  oops : Outcome A
  hang : Outcome A
  fault : Outcome A

infixl 5 ◌>>=◌
abbrev pub ◌>>=◌ {ℓ κ} : {A : Type ℓ} {B : Type κ} → Outcome A → (A → Outcome B) → Outcome B
ok a >>= f = f a
oops >>= f = oops
hang >>= f = hang
fault >>= f = fault

-- What a routine with an error code answers: a result, or the code, with its state as it was.
pub data Answer {ℓ κ} (E : Type ℓ) (A : Type κ) : Type (ℓ ⊔ κ) where
  done : A → Answer E A
  fails : E → Answer E A

-- The routine comes back, with a result of which `P` holds.
abbrev pub Returns {ℓ κ} : {A : Type ℓ} → (A → Type κ) → Outcome A → Type (ℓ ⊔ κ)
Returns {A = A} P o = (a : A) × (o ≡ ok a) × P a

pub returns_result {ℓ κ} :
    {A : Type ℓ} {P : A → Type κ} {o : Outcome A} {a : A} → Returns P o → o ≡ ok a → P a
returns_result {P = P} (b, e, p) q = subst P (cc (e, q)) p

-- The routine does not come back.
abbrev pub Stuck {ℓ} : {A : Type ℓ} → Outcome A → Type ℓ
Stuck {A = A} o = (a : A) → o ≢ ok a

-- The routine comes back, with a result of which `P` holds, unless it does not come back for the
-- reason `R`.
abbrev pub ReturnsUnless {ℓ κ ι} :
    {A : Type ℓ} → Type ι → (A → Type κ) → Outcome A → Type (ℓ ⊔ κ ⊔ ι)
ReturnsUnless R P o = Returns P o ⊎ (R × Stuck o)

pub Outcome-cases {ℓ} : {A : Type ℓ} (o : Outcome A) → ((a : A) × (o ≡ ok a)) ⊎ Stuck o
Outcome-cases (ok a) = inl (a, refl)
Outcome-cases oops = inr (λ a e. cc)
Outcome-cases hang = inr (λ a e. cc)
Outcome-cases fault = inr (λ a e. cc)

pub Stuck-bind {ℓ κ} :
    {A : Type ℓ} {B : Type κ} (o : Outcome A) (f : A → Outcome B) → Stuck o → Stuck (o >>= f)
Stuck-bind (ok a) f s = absurd (s a refl)
Stuck-bind oops f s = λ b e. cc
Stuck-bind hang f s = λ b e. cc
Stuck-bind fault f s = λ b e. cc

-- A call that does not come back is a reason.
pub Unless-bind {ℓ κ ι μ} :
    {A : Type ℓ} {B : Type κ} {R : Type ι} {P : B → Type μ} (o : Outcome A) {f : A → Outcome B}
    → (Stuck o → R)
    → ((a : A) → o ≡ ok a → ReturnsUnless R P (f a))
    → ReturnsUnless R P (o >>= f)
Unless-bind (ok a) r h = h a refl
Unless-bind oops r h = inr (r (λ a e. cc), λ b e. cc)
Unless-bind hang r h = inr (r (λ a e. cc), λ b e. cc)
Unless-bind fault r h = inr (r (λ a e. cc), λ b e. cc)

pub unless_result {ℓ κ ι} :
    {A : Type ℓ} {R : Type ι} {P : A → Type κ} {o : Outcome A} {a : A}
    → ReturnsUnless R P o
    → o ≡ ok a
    → P a
unless_result (inl r) e = returns_result r e
unless_result (inr (r, s)) e = absurd (s _ e)

-- If the routine comes back, then with a result of which `P` holds.
pub data Ensures {ℓ κ} {A : Type ℓ} (P : A → Type κ) : Outcome A → Type (ℓ ⊔ κ) where
  ensures_ok : {a : A} → P a → Ensures P (ok a)
  ensures_oops : Ensures P oops
  ensures_hang : Ensures P hang
  ensures_fault : Ensures P fault

module _ {ℓ κ} {A : Type ℓ} {P : A → Type κ} where
  pub stuck-Ensures : (o : Outcome A) → Stuck o → Ensures P o
  stuck-Ensures (ok a) s = absurd (s a refl)
  stuck-Ensures oops s = ensures_oops
  stuck-Ensures hang s = ensures_hang
  stuck-Ensures fault s = ensures_fault

  pub Ensures-if :
      (b : Bool) {x y : Outcome A}
      → (b ≡ true → Ensures P x)
      → (b ≡ false → Ensures P y)
      → Ensures P (if b then x else y)
  Ensures-if true f g = f refl
  Ensures-if false f g = g refl

  pub Ensures-bind {ι μ} :
      {B : Type ι} {Q : B → Type μ} {m : Outcome B} {f : B → Outcome A}
      → Ensures Q m
      → ((b : B) → Q b → Ensures P (f b))
      → Ensures P (m >>= f)
  Ensures-bind (ensures_ok q) h = h _ q
  Ensures-bind ensures_oops h = ensures_oops
  Ensures-bind ensures_hang h = ensures_hang
  Ensures-bind ensures_fault h = ensures_fault

  pub Ensures-then :
      {B : Type 0} (m : Outcome B) {f : B → Outcome A}
      → ((b : B) → Ensures P (f b))
      → Ensures P (m >>= f)
  Ensures-then (ok b) h = h b
  Ensures-then oops h = ensures_oops
  Ensures-then hang h = ensures_hang
  Ensures-then fault h = ensures_fault

  pub ensures_result : {o : Outcome A} {a : A} → Ensures P o → o ≡ ok a → P a
  ensures_result (ensures_ok p) e = subst P (ok_injective e) p
    where
      ok_injective : {x y : A} → ok x ≡ ok y → x ≡ y
      ok_injective e = cc
  ensures_result ensures_oops e = absurd (cc)
  ensures_result ensures_hang e = absurd (cc)
  ensures_result ensures_fault e = absurd (cc)

  pub Ensures-weaken {μ} :
      {Q : A → Type μ} {o : Outcome A} → ((a : A) → Q a → P a) → Ensures Q o → Ensures P o
  Ensures-weaken f (ensures_ok q) = ensures_ok (f _ q)
  Ensures-weaken f ensures_oops = ensures_oops
  Ensures-weaken f ensures_hang = ensures_hang
  Ensures-weaken f ensures_fault = ensures_fault

  pub Ensures-both {μ} :
      {Q : A → Type μ} {o : Outcome A} → Ensures P o → Ensures Q o → Ensures (λ a. P a × Q a) o
  Ensures-both (ensures_ok p) (ensures_ok q) = ensures_ok (p, q)
  Ensures-both ensures_oops q = ensures_oops
  Ensures-both ensures_hang q = ensures_hang
  Ensures-both ensures_fault q = ensures_fault
