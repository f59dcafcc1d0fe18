-- ===== src/Text.antt =====
-- src/lib/stdgunw/string.c: length and comparison of strings. A `char` is a byte, read as signed.
pub mod Find
pub mod Numbers
use gunw_os.Prelude.Outcome.{Outcome, ok, fault, ◌>>=◌}
use gunw_os.Prelude.Int.{ℤ, pos, negsuc}
use gunw_os.Prelude.{
  ℕ, ◌+◌, ◌%◌, ◌≡◌, refl, ap, fun_ext, ◌<◌, ◌↔◌, not, ◌||◌, Array, List, [], ◌∷◌, first, first_hit,
  first_miss, ltb, ◌==◌, if◌then◌else◌, arith, dec_lt, Bool, zero, suc, ◌≢◌,
}

-- A string literal: its characters, and zeros behind them.
abbrev pub literal : List ℕ → Array ℕ
literal [] i = 0
literal (c ∷ cs) zero = c
literal (c ∷ cs) (suc i) = literal cs i

-- `strlen` of a string in an array of `size` bytes: a walk past its end is undefined.
unfoldable pub strlen : ℕ → Array ℕ → Outcome ℕ
strlen size c = let s = first (λ s. c s == 0) 0 size in if ltb s size then ok s else fault

-- The order of signed characters.
abbrev gtb_char : ℕ → ℕ → Bool
gtb_char a b = ltb ((b + 128) % 256) ((a + 128) % 256)

-- The index at which the loop of `strcmpl` stops.
abbrev stop : Array ℕ → Array ℕ → ℕ → ℕ → Bool
stop l r len s = not (l s == r s) || (l s == 0) || (r s == 0) || not (ltb (s + 1) len)

unfoldable pub strcmpl : Array ℕ → Array ℕ → ℕ → ℤ
strcmpl l r len =
    let s = first (stop l r len) 0 len in
    if len == 0
    then pos 0
    else if l s == r s
    then pos 0
    else if gtb_char (l s) (r s)
    then negsuc 0
    else pos 1

unfoldable pub strcmp : ℕ → Array ℕ → ℕ → Array ℕ → Outcome ℤ
unfolding strlen strcmpl
strcmp l_size l r_size r = strlen l_size l >>= λ ll. strlen r_size r >>= λ rl.
    ok (if ltb ll rl then pos 1 else if ltb rl ll then negsuc 0 else strcmpl l r ll)

module _ (l r : Array ℕ) where
  stop-lt : (n : ℕ) → first (stop l r (suc n)) 0 (suc n) < suc n
  stop-lt n = elim (dec_lt (first (stop l r (suc n)) 0 (suc n)) (suc n)) [
    | yes lt ↦ lt
    | no ge ↦
        absurd
          (ground (arith, first_miss (stop l r (suc n)) 0 (suc n) n (omega arith) (omega arith)))
  ]

  -- Below the place where the loop stops the strings agree.
  agree : (n j : ℕ) → j < first (stop l r (suc n)) 0 (suc n) → l j ≡ r j
  agree n j h = ground (arith, first_miss (stop l r (suc n)) 0 (suc n) j (omega arith) h)

  strcmpl-succ :
      (n : ℕ)
      → (strcmpl l r (suc n) ≡ pos 0)
        ↔ (l (first (stop l r (suc n)) 0 (suc n)) ≡ r (first (stop l r (suc n)) 0 (suc n)))
  unfolding strcmpl
  strcmpl-succ n = ground arith

  -- `strcmpl` on a string without zero bytes answers 0 exactly if the other one begins with it.
  pub strcmpl_lem :
      (len : ℕ)
      → ((j : ℕ) → j < len → l j ≢ 0)
      → (strcmpl l r len ≡ pos 0) ↔ ((j : ℕ) → j < len → l j ≡ r j)
  unfolding strcmpl
  strcmpl_lem zero nz = (λ _ j h. absurd (omega arith), λ _. refl)
  strcmpl_lem (suc n) nz = (
    λ e. forward ((strcmpl-succ n).0 e),
    λ all. (strcmpl-succ n).1 (all (first (stop l r (suc n)) 0 (suc n)) (stop-lt n)),
  )
    where
      s : ℕ
      s = first (stop l r (suc n)) 0 (suc n)

      forward : l s ≡ r s → (j : ℕ) → j < suc n → l j ≡ r j
      forward e j h = elim (dec_lt j s) [
        | yes lt ↦ agree n j lt
        | no ge ↦
            let last : s ≡ n = ground (
              arith,
              nz s (stop-lt n),
              stop-lt n,
              first_hit (stop l r (suc n)) 0 (suc n) (omega (arith, stop-lt n)),
            ) in
            let here : j ≡ s = omega arith in rw here e
      ]

  -- Whether two strings are equal does not depend on their order.
  pub strcmpl-swap : (len : ℕ) → strcmpl l r len ≡ pos 0 → strcmpl r l len ≡ pos 0
  unfolding strcmpl
  strcmpl-swap len h =
      let turned : stop r l len ≡ stop l r len = fun_ext λ s. ground arith in
      let same : first (stop r l len) 0 len ≡ first (stop l r len) 0 len =
        ap (λ test. first test 0 len) turned in
      ground (arith, same)
