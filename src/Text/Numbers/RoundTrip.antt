-- ===== src/Text/Numbers/RoundTrip.antt =====
-- src/lib/stdgunw/string.c: `str2intl` reads what `uint2str` writes in base ten.
use native.Mathlib.Nat.{
  pow-le-pow_right, one-le-pow, mod-lt, div-add-mod', mul-add-mod_self_left, mod-eq_of_lt,
}
use mathlib.Core.Path.{◌≡⟨◌⟩◌, ◌∎}
use native.Mathlib.Omega.{pow_step}
use gunw_os.Prelude.Outcome.{ok}
use gunw_os.Prelude.{
  ℕ, zero, suc, ◌+◌, ◌-◌, ◌*◌, ◌/◌, ◌%◌, ◌^◌, ◌≤◌, ◌<◌, ◌≡◌, ◌⊎◌, inl, inr, refl, ap, ◌∙◌,
  Bool-cases, Bool, true, false, ◌&&◌, ℕ_discrete, dec_lt, Array, List, first, length, leb, ◌==◌,
  some, word, arith,
}
use gunw_os.Text.{literal, strlen, strcmp, strcmpl}
use gunw_os.Text.Numbers.{
  char_is_num, char_to_num, pow, number_start, digits_value, str2intl, highest, digit_char,
  digit_chars, uint2str,
}

-- The powers of ten that are words.
powers_agree : ℕ → Bool
unfolding pow
powers_agree zero = true
powers_agree (suc n) = (pow 10 n == 10 ^ n) && powers_agree n

powers_agree_lem : (k n : ℕ) → powers_agree k ≡ true → n < k → pow 10 n ≡ 10 ^ n
unfolding powers_agree
powers_agree_lem zero n h lt = absurd (omega arith)
powers_agree_lem (suc k) n h lt = elim (ℕ_discrete n k) [
  | yes e ↦ rw e (ground arith)
  | no ne ↦ powers_agree_lem k n (ground arith) (omega arith)
]

pow_lem : (n : ℕ) → n < 10 → pow 10 n ≡ 10 ^ n
unfolding powers_agree
pow_lem n lt = powers_agree_lem 10 n refl lt

highest_lem :
    (f b exp : ℕ)
    → b < 10 ^ f
    → (e : ℕ) × (highest (suc f) 10 b exp ≡ ok (exp + e))
      × (b < 10 ^ suc e)
      × ((e ≡ 0) ⊎ (10 ^ e ≤ b))
unfolding highest
highest_lem zero b exp h = (0, ground arith, omega arith, inl refl)
highest_lem (suc f) b exp h = elim (Bool-cases (b / 10 == 0)) [
  | inl last ↦ (0, rw last (ground arith), ground arith, inl refl)
  | inr more ↦
      let (e, found, above, below) =
        highest_lem f (b / 10) (exp + 1) (omega (arith, pow_step 10 f)) in
      (
        suc e,
        rw more (found ∙ ap ok (omega arith)),
        omega (arith, pow_step 10 (suc e)),
        inr (elim below [ inl e0 ↦ rw e0 (ground arith) | inr le ↦ omega (arith, pow_step 10 e) ]),
      )
]

-- The last n + 1 digits are the digit before the last n and these.
next_digit : (i n : ℕ) → i % 10 ^ suc n ≡ i / 10 ^ n % 10 * 10 ^ n + i % 10 ^ n
next_digit i n =
    let p = 10 ^ n in
    let q = i / p in
    let c = q % 10 * p + i % p in
    let rest_lt : i % p < p = mod-lt i (omega (arith, one-le-pow n 10)) in
    let digit_le : q % 10 * p ≤ 9 * p = grind arith in
    let tens : (q / 10 * 10 + q % 10) * p ≡ 10 * p * (q / 10) + q % 10 * p = grind arith in
    let all : i ≡ 10 * p * (q / 10) + c =
      omega (arith, div-add-mod' i p, ap (λ (t : ℕ). t * p) (div-add-mod' q 10), tens) in
    i % 10 ^ suc n
    ≡⟨ ap (λ t. i % t) (pow_step 10 n) ⟩ i % (10 * p)
    ≡⟨ ap (λ t. t % (10 * p)) all ⟩ (10 * p * (q / 10) + c) % (10 * p)
    ≡⟨ mul-add-mod_self_left (10 * p) (q / 10) c ⟩ c % (10 * p)
    ≡⟨ mod-eq_of_lt (omega arith) ⟩ c ∎

char_of_digit :
    (d : ℕ)
    → d < 10
    → (digit_char d ≡ d + 48)
      × (char_is_num (digit_char d) 10 ≡ true)
      × (char_to_num (digit_char d) ≡ d)
unfolding char_is_num char_to_num
char_of_digit d h = ground arith

-- The loop reads the last n digits of i where they stand.
digits_value_lem :
    (s : Array ℕ) (i k n r : ℕ)
    → n < 11
    → r < 4294967296
    → ((j : ℕ) → j < n → s (k + j) ≡ digit_char (i / 10 ^ (n - suc j) % 10))
    → digits_value s 10 k n r ≡ some (word (r + i % 10 ^ n))
unfolding digits_value
digits_value_lem s i k zero r h lt reads = ap some (omega arith)
digits_value_lem s i k (suc n) r h lt reads =
    let d = i / 10 ^ n % 10 in
    let (_, is_num, value) = char_of_digit d (omega arith) in
    let here : s k ≡ digit_char d =
      ap s (omega arith)
      ∙ (reads 0 (omega arith) ∙ ap (λ e. digit_char (i / 10 ^ e % 10)) (omega arith)) in
    let rest =
      digits_value_lem s i (k + 1) n (word (r + d * 10 ^ n)) (omega arith) (omega arith) (λ j below.
        ap s (omega arith)
        ∙ (reads (suc j) (omega arith) ∙ ap (λ e. digit_char (i / 10 ^ e % 10)) (omega arith))) in
    rw here (
      rw is_num
        (rw value (rw (pow_lem n (omega arith)) (rest ∙ ap some (omega (arith, next_digit i n))))))

length-digit_chars : (i n : ℕ) → length (digit_chars i 10 n) ≡ n
unfolding digit_chars
length-digit_chars i zero = refl
length-digit_chars i (suc n) = ap suc (length-digit_chars i n)

literal-digit_chars :
    (i n j : ℕ)
    → n < 11
    → j < n
    → literal (digit_chars i 10 n) j ≡ digit_char (i / 10 ^ (n - suc j) % 10)
unfolding digit_chars
literal-digit_chars i zero j h lt = absurd (omega arith)
literal-digit_chars i (suc n) zero h lt =
    ap (λ p. digit_char (i / p % 10)) (pow_lem n (omega arith))
    ∙ ap (λ e. digit_char (i / 10 ^ e % 10)) (omega arith)
literal-digit_chars i (suc n) (suc j) h lt =
    literal-digit_chars i n j (omega arith) (omega arith)
    ∙ ap (λ e. digit_char (i / 10 ^ e % 10)) (omega arith)

-- A number that starts with a digit, and goes on with one if it goes on, is decimal.
number_start_lem :
    (s : Array ℕ) (n : ℕ)
    → (48 ≤ s 0) × (s 0 < 58)
    → (1 < n → (48 ≤ s 1) × (s 1 < 58))
    → number_start s n ≡ ok (10, 0, false)
unfolding number_start strcmp strlen strcmpl first
number_start_lem s n a b = elim (Bool-cases (leb 2 n)) [
  | inl long ↦ rw long (let c = b (ground arith) in ground arith)
  | inr short ↦ rw short (ground arith)
]

-- Digits that stand for a word are read as that word.
read_digits :
    (i e : ℕ)
    → e < 10
    → i < 4294967296
    → i < 10 ^ suc e
    → str2intl (literal (digit_chars i 10 (suc e))) (suc e) ≡ ok (some i)
unfolding str2intl
read_digits i e small h above =
    let s = literal (digit_chars i 10 (suc e)) in
    let at : (j : ℕ) → j < suc e → s j ≡ digit_char (i / 10 ^ (e - j) % 10) = λ j lt.
      literal-digit_chars i (suc e) j (omega arith) lt
      ∙ ap (λ k. digit_char (i / 10 ^ k % 10)) (omega arith) in
    let range : (j : ℕ) → j < suc e → (48 ≤ s j) × (s j < 58) =
      λ j lt. ground (arith, at j lt, (char_of_digit (i / 10 ^ (e - j) % 10) (omega arith)).0) in
    let start = number_start_lem s (suc e) (range 0 (omega arith)) (λ lt. range 1 lt) in
    let value : digits_value (λ j. s (0 + j)) 10 0 (suc e) 0 ≡ some (word (0 + i % 10 ^ suc e)) =
      digits_value_lem (λ j. s (0 + j)) i 0 (suc e) 0 (omega arith) (omega arith)
        (λ j lt. ap s (omega arith) ∙ literal-digit_chars i (suc e) j (omega arith) lt) in
    let all : suc e - 0 ≡ suc e = omega arith in
    let some_left : (suc e == 0) ≡ false = ground arith in
    let whole : word (0 + i % 10 ^ suc e) ≡ i = omega (arith, mod-eq_of_lt {n = i} above) in
    rw some_left (rw start (rw all (rw some_left (ap ok (value ∙ ap some whole)))))

few_digits : (i e : ℕ) → i < 4294967296 → (e ≡ 0) ⊎ (10 ^ e ≤ i) → e < 10
few_digits i e h (inl e0) = omega arith
few_digits i e h (inr below) = elim (dec_lt e 10) [
  | yes lt ↦ lt
  | no ge ↦
      absurd (omega (arith, pow-le-pow_right {n = 10} (omega arith) {i = 10} {j = e} (omega arith)))
]

write_digits :
    (i e : ℕ) → highest 33 10 i 0 ≡ ok (0 + e) → uint2str i 10 ≡ ok (digit_chars i 10 (suc e))
unfolding uint2str
write_digits i e found =
    let same : 0 + e + 1 ≡ suc e = omega arith in rw found (ap (λ n. ok (digit_chars i 10 n)) same)

-- A word is written in base ten without an error, and read back as itself.
pub str2intl-uint2str :
    (i : ℕ)
    → i < 4294967296
    → (cs : List ℕ) × (uint2str i 10 ≡ ok cs) × (str2intl (literal cs) (length cs) ≡ ok (some i))
str2intl-uint2str i h =
    let (e, found, above, below) = highest_lem 32 i 0 (omega arith) in
    (
      digit_chars i 10 (suc e),
      write_digits i e found,
      rw (length-digit_chars i (suc e)) (read_digits i e (few_digits i e h below) h above),
    )
