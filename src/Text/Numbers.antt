-- ===== src/Text/Numbers.antt =====
-- src/lib/stdgunw: digits (char.c), powers (math.c), and the numbers of string.c. An `int_32` is the
-- word of its bits; the products and sums of the code wrap around.
pub mod RoundTrip
use gunw_os.Prelude.Outcome.{Outcome, ok, hang, fault, Answer, done, fails, ◌>>=◌}
use gunw_os.Prelude.Int.{ℤ, pos, eq_ℤ}
use gunw_os.Prelude.{
  ℕ, zero, suc, ◌+◌, ◌-◌, ◌*◌, ◌/◌, ◌%◌, Bool, true, false, not, ◌&&◌, ◌||◌, Array, List, [], ◌∷◌,
  first, length, ltb, leb, ◌==◌, if◌then◌else◌, word, in_range,
}
use mathlib.Core.Option
use mathlib.Core.Option.{Option, none, some}
use gunw_os.Text.{literal, strlen, strcmp}

-- For a base below 11 the ranges of letters are empty: their upper ends, 96 and 64 for base 10, are
-- below their lower ones.
unfoldable pub char_is_num : ℕ → ℕ → Bool
char_is_num c base =
    if base == 0 || ltb 16 base
    then false
    else if ltb 96 c && ltb c (87 + base) || ltb 64 c && ltb c (55 + base)
    then true
    else in_range 48 c (47 + base) && leb c 57

unfoldable pub char_to_num : ℕ → ℕ
char_to_num c =
    if in_range 48 c 57
    then c - 48
    else if in_range 97 c 122
    then c - 87
    else if in_range 65 c 90
    then c - 55
    else 0

-- The loop of `pow`.
unfoldable pub times_base : ℕ → ℕ → ℕ → ℕ
times_base base zero result = result
times_base base (suc n) result = times_base base n (word (result * base))

unfoldable pub pow : ℕ → ℕ → ℕ
unfolding times_base
pow base exp = if exp == 0 then 1 else if exp == 1 then base else times_base base (exp - 1) base

-- `strprefix`, to a buffer that it clears: the prefix ends at a zero.
abbrev pub prefix : Array ℕ → ℕ → Array ℕ
prefix s l i = if ltb i (first (λ j. s j == 0) 0 l) then s i else 0

-- The base and the place of the first digit, and whether a minus stands before it.
unfoldable pub number_start : Array ℕ → ℕ → Outcome (ℕ × ℕ × Bool)
unfolding strcmp
number_start s s_len =
    let buffer = if leb 2 s_len then prefix s 2 else (λ i. 0) in
    strcmp 3 buffer 3 (literal (b'0' ∷ b'x' ∷ [])) >>= λ hex.
    strcmp 3 buffer 3 (literal (b'0' ∷ b'b' ∷ [])) >>= λ bin. ok (
      if eq_ℤ hex (pos 0)
      then (16, 2, false)
      else if eq_ℤ bin (pos 0)
      then (2, 2, false)
      else if s 0 == b'-'
      then (10, 1, true)
      else (10, 0, false))

-- The loop over the digits, from digit `i` on with `n` to come.
unfoldable pub digits_value : Array ℕ → ℕ → ℕ → ℕ → ℕ → Option ℕ
unfolding char_is_num char_to_num pow
digits_value s base i zero result = some result
digits_value s base i (suc n) result =
    let rest = digits_value s base (i + 1) n (word (result + char_to_num (s i) * pow base n)) in
    if not (char_is_num (s i) base) then none else rest

-- `none` is an error, which is stored where `err` points to.
unfoldable pub str2intl : Array ℕ → ℕ → Outcome (Option ℕ)
str2intl s s_len =
    if s_len == 0
    then ok none
    else (number_start s s_len >>= λ (base, offset, negative).
        let value = digits_value (λ i. s (offset + i)) base 0 (s_len - offset) 0 in
        if s_len - offset == 0
        then ok none
        else ok (if negative then Option.map (λ v. word (4294967296 - v)) value else value))

-- The number of times that the base divides `b` before it is 0, less one, from `exp` on.
unfoldable pub highest : ℕ → ℕ → ℕ → ℕ → Outcome ℕ
highest zero base b exp = hang
highest (suc f) base b exp =
    let rest = highest f base (b / base) (exp + 1) in if b / base == 0 then ok exp else rest

-- A digit as a character.
abbrev pub digit_char : ℕ → ℕ
digit_char d = if ltb d 10 then d + 48 else d - 10 + 97

-- The loop over the exponents, from the one below `n` down: the characters that are written.
unfoldable pub digit_chars : ℕ → ℕ → ℕ → List ℕ
unfolding pow
digit_chars i base zero = []
digit_chars i base (suc n) = digit_char (i / pow base n % base) ∷ digit_chars i base n

-- The characters that `uint2str` writes; their number is its result. A word has at most 32 digits.
unfoldable pub uint2str : ℕ → ℕ → Outcome (List ℕ)
uint2str i base =
    if base == 0 then fault else (highest 33 base i 0 >>= λ exp. ok (digit_chars i base (exp + 1)))

-- The bits of a negative number are those of its distance to 2 ^ 32.
unfoldable pub int2str : ℕ → Outcome (List ℕ)
int2str i =
    if leb 2147483648 i
    then (uint2str (word (4294967296 - i)) 10 >>= λ cs. ok (b'-' ∷ cs))
    else uint2str i 10

unfoldable pub uint2dec : ℕ → Outcome (List ℕ)
uint2dec i = uint2str i 10

unfoldable pub uint2hex : ℕ → Outcome (List ℕ)
uint2hex i = uint2str i 16

unfoldable pub uint2bin : ℕ → Outcome (List ℕ)
uint2bin i = uint2str i 2

-- A string in an array of `size` bytes.
unfoldable pub str2int : ℕ → Array ℕ → Outcome (Option ℕ)
unfolding strlen
str2int size s = strlen size s >>= λ n. str2intl s n
