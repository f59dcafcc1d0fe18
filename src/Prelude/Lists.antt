-- ===== src/Prelude/Lists.antt =====
-- Lists of indices: length, membership as a test, removal, and the two pigeonhole counts.
use Prim.Native.Nat.{ℕ, zero, suc, ◌+◌, ◌≤◌, ◌<◌}
use mathlib.Core.Path.{◌≡◌, refl}
use mathlib.Core.Logic.{◌≢◌}
use mathlib.Core.Bool.{Bool, true, false, ◌||◌}
use mathlib.Core.List.{List, [], ◌∷◌, ◌++◌}
use native.Mathlib.Omega.{arith}
use native.Mathlib.Decide.{ℕ_discrete}
use gunw_os.Prelude.Tests.{◌==◌, if◌then◌else◌}

module _ {ℓ} {A : Type ℓ} where
  abbrev pub length : List A → ℕ
  length [] = 0
  length (x ∷ xs) = suc (length xs)

  -- The last element of a list that is not empty.
  abbrev pub last : A → List A → A
  last x [] = x
  last x (y ∷ ys) = last y ys

  pub length-append : (xs ys : List A) → length (xs ++ ys) ≡ length xs + length ys
  length-append [] ys = omega arith
  length-append (x ∷ xs) ys = omega (arith, length-append xs ys)

abbrev pub contains : ℕ → List ℕ → Bool
contains k [] = false
contains k (x ∷ xs) = k == x || contains k xs

abbrev pub Distinct : List ℕ → Type 0
Distinct [] = Unit {0}
Distinct (x ∷ xs) = (contains x xs ≡ false) × Distinct xs

abbrev remove : ℕ → List ℕ → List ℕ
remove k [] = []
remove k (x ∷ xs) = if k == x then xs else x ∷ remove k xs

pub contains-append :
    (k i : ℕ) (xs : List ℕ) → contains k (xs ++ i ∷ []) ≡ (contains k xs || k == i)
contains-append k i [] = ground arith
contains-append k i (x ∷ xs) = ground (arith, contains-append k i xs)

pub Distinct-append :
    (i : ℕ) (xs : List ℕ) → contains i xs ≡ false → Distinct xs → Distinct (xs ++ i ∷ [])
Distinct-append i [] h d = (refl, tt)
Distinct-append i (x ∷ xs) h d =
    (ground (arith, contains-append x i xs), Distinct-append i xs (ground arith) d.1)

pub contains-last : (x : ℕ) (xs : List ℕ) → contains (last x xs) (x ∷ xs) ≡ true
contains-last x [] = ground arith
contains-last x (y ∷ ys) = ground (arith, contains-last y ys)

length-remove : (k : ℕ) (xs : List ℕ) → length xs ≤ length (remove k xs) + 1
length-remove k [] = omega arith
length-remove k (x ∷ xs) = ground (arith, length-remove k xs)

length-remove_mem :
    (k : ℕ) (xs : List ℕ) → contains k xs ≡ true → length xs ≡ suc (length (remove k xs))
length-remove_mem k [] h = cc
length-remove_mem k (x ∷ xs) h = ground (arith, length-remove_mem k xs)

contains-remove_ne : (j k : ℕ) (xs : List ℕ) → j ≢ k → contains j (remove k xs) ≡ contains j xs
contains-remove_ne j k [] h = refl
contains-remove_ne j k (x ∷ xs) h = ground (arith, contains-remove_ne j k xs h)

not-contains-remove :
    (j k : ℕ) (xs : List ℕ) → contains j xs ≡ false → contains j (remove k xs) ≡ false
not-contains-remove j k [] h = refl
not-contains-remove j k (x ∷ xs) h = ground (arith, not-contains-remove j k xs)

not-contains-remove_self : (k : ℕ) (xs : List ℕ) → Distinct xs → contains k (remove k xs) ≡ false
not-contains-remove_self k [] d = refl
not-contains-remove_self k (x ∷ xs) d = ground (arith, not-contains-remove_self k xs d.1)

Distinct-remove : (k : ℕ) (xs : List ℕ) → Distinct xs → Distinct (remove k xs)
Distinct-remove k [] d = tt
Distinct-remove k (x ∷ xs) d =
    ground (arith, Distinct-remove k xs d.1, not-contains-remove x k xs d.0)

-- A list that holds every number below n has at least n elements.
pub le-length : (n : ℕ) (xs : List ℕ) → ((j : ℕ) → j < n → contains j xs ≡ true) → n ≤ length xs
le-length zero xs h = omega arith
le-length (suc n) xs h =
    omega (arith, length-remove_mem n xs (h n (omega arith)), le-length n (remove n xs) rest)
  where
    rest : (j : ℕ) → j < n → contains j (remove n xs) ≡ true
    rest j lt = rw (contains-remove_ne j n xs (omega arith)) (h j (omega arith))

-- A list of distinct numbers below n has at most n elements.
pub length-le :
    (n : ℕ) (xs : List ℕ) → Distinct xs → ((j : ℕ) → contains j xs ≡ true → j < n) → length xs ≤ n
length-le zero [] d h = omega arith
length-le zero (x ∷ xs) d h = absurd (omega (arith, h x (ground arith)))
length-le (suc n) xs d h =
    omega (arith, length-remove n xs, length-le n (remove n xs) (Distinct-remove n xs d) rest)
  where
    rest : (j : ℕ) → contains j (remove n xs) ≡ true → j < n
    rest j e = elim (ℕ_discrete j n) [
      | yes same ↦ absurd (ground (arith, not-contains-remove_self n xs d))
      | no other ↦ omega (arith, h j (rw (← contains-remove_ne j n xs other) e))
    ]
