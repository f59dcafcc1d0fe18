-- ===== src/Text/Find.antt =====
-- src/lib/stdgunw/string.c: `strfindl`. Its `int_32` lengths and result are signed.
use gunw_os.Prelude.Outcome.{Outcome, ok, hang}
use gunw_os.Prelude.Int.{ℤ, pos, negsuc}
use gunw_os.Prelude.{
  ℕ, zero, suc, ◌+◌, ◌-◌, ◌*◌, ◌≤◌, ◌<◌, ◌≡◌, ◌≢◌, ◌⊎◌, refl, ap, ◌∙◌, first-le, first_hit,
  first_miss, ltb→lt, Bool, false, not, ◌&&◌, ◌||◌, Array, Bool-cases, inl, inr, first, ltb, leb,
  ◌==◌, if◌then◌else◌, arith,
}

-- `STR_NOT_FOUND`
abbrev pub str_not_found : ℤ
str_not_found = negsuc 0

-- What the loop has found when it ends at `current` with so many characters in a row.
abbrev pub found_at : ℕ → ℕ → ℕ → ℤ
found_at what_len lookup current =
    if lookup == what_len then pos (current - what_len) else str_not_found

-- The loop. A character that breaks off a row is looked at once more.
unfoldable pub find_loop : ℕ → Array ℕ → ℕ → Array ℕ → ℕ → ℕ → ℕ → Outcome ℤ
find_loop zero where_ where_len what what_len lookup current = hang
find_loop (suc f) where_ where_len what what_len lookup current =
    let matched = find_loop f where_ where_len what what_len (lookup + 1) (current + 1) in
    let again = find_loop f where_ where_len what what_len 0 current in
    let onward = find_loop f where_ where_len what what_len 0 (current + 1) in
    if not (ltb current where_len && not (lookup == what_len))
    then ok (found_at what_len lookup current)
    else if where_ current == what lookup
    then matched
    else if lookup == 0
    then (if leb (where_len - what_len) current
        then ok (found_at what_len lookup current)
        else onward)
    else if leb (where_len - what_len) (current - 1)
    then ok (found_at what_len lookup (current - 1))
    else again

-- A round either moves on or is the second one for a character.
unfoldable pub strfindl : Array ℕ → ℤ → Array ℕ → ℤ → Outcome ℤ
unfolding find_loop
strfindl where_ (pos n) what (pos m) =
    if n == 0 || m == 0 || ltb n m
    then ok str_not_found
    else find_loop (2 * n + 2) where_ n what m 0 0
strfindl where_ (pos n) what (negsuc m) = ok str_not_found
strfindl where_ (negsuc n) what (pos m) = ok str_not_found
strfindl where_ (negsuc n) what (negsuc m) = ok str_not_found

module _ (where_ : Array ℕ) (n : ℕ) (what : Array ℕ) where
  -- The first place of the character, if it is in the string.
  abbrev char_place : ℕ → ℕ → ℤ
  char_place current r =
      let i = first (λ i. where_ i == what 0) current r in if ltb i n then pos i else str_not_found

  char_loop :
      (r f current : ℕ)
      → r ≤ f
      → n ≡ current + suc r
      → find_loop (suc (suc f)) where_ n what 1 0 current ≡ ok (char_place current (suc r))
  unfolding find_loop first
  char_loop zero f current le e = elim (Bool-cases (where_ current == what 0)) [
    | inl hit ↦ rw hit (ground arith)
    | inr miss ↦ rw miss (ground arith)
  ]
  char_loop (suc r) zero current le e = absurd (omega arith)
  char_loop (suc r) (suc f) current le e =
      let ih = char_loop r f (current + 1) (omega arith) (omega arith) in
      elim (Bool-cases (where_ current == what 0)) [
        | inl hit ↦ rw hit (ground arith)
        | inr miss ↦ rw miss (ground (arith, ih))
      ]

-- The rounds that are left.
abbrev rounds_left : ℕ → ℕ → ℕ → ℕ
rounds_left n lookup current = 2 * (n - current) + (if lookup == 0 then 0 else 1)

find_loop_ends :
    (f : ℕ) (where_ : Array ℕ) (n : ℕ) (what : Array ℕ) (m lookup current : ℕ)
    → rounds_left n lookup current < f
    → (r : ℤ) × (find_loop f where_ n what m lookup current ≡ ok r)
unfolding find_loop
find_loop_ends zero where_ n what m lookup current h = absurd (omega arith)
find_loop_ends (suc f) where_ n what m lookup current h =
    elim (Bool-cases (ltb current n && not (lookup == m))) [
      | inr over ↦ (found_at m lookup current, rw over refl)
      | inl runs ↦ rw runs (elim (Bool-cases (where_ current == what lookup)) [
        | inl hit ↦
            rw hit (find_loop_ends f where_ n what m (lookup + 1) (current + 1) (ground arith))
        | inr miss ↦ rw miss (elim (Bool-cases (lookup == 0)) [
          | inl first_one ↦ rw first_one (elim (Bool-cases (leb (n - m) current)) [
            | inl late ↦ (found_at m lookup current, rw late refl)
            | inr early ↦ rw early (find_loop_ends f where_ n what m 0 (current + 1) (ground arith))
          ])
          | inr broken ↦ rw broken (elim (Bool-cases (leb (n - m) (current - 1))) [
            | inl late ↦ (found_at m lookup (current - 1), rw late refl)
            | inr early ↦ rw early (find_loop_ends f where_ n what m 0 current (ground arith))
          ])
        ])
      ])
    ]

-- The search ends, whatever the strings hold and whatever their lengths are.
pub strfindl-ends :
    (where_ : Array ℕ) (n : ℤ) (what : Array ℕ) (m : ℤ)
    → (r : ℤ) × (strfindl where_ n what m ≡ ok r)
unfolding strfindl
strfindl-ends where_ (pos n) what (pos m) = elim (Bool-cases (n == 0 || m == 0 || ltb n m)) [
  | inl none_there ↦ (str_not_found, rw none_there refl)
  | inr some_there ↦ rw some_there (find_loop_ends (2 * n + 2) where_ n what m 0 0 (omega arith))
]
strfindl-ends where_ (pos n) what (negsuc m) = (str_not_found, refl)
strfindl-ends where_ (negsuc n) what (pos m) = (str_not_found, refl)
strfindl-ends where_ (negsuc n) what (negsuc m) = (str_not_found, refl)

-- The search for one character in a string answers the first place at which it stands, or -1 if it
-- does not stand in the string.
pub strfindl-char :
    (where_ : Array ℕ) (n : ℕ) (what : Array ℕ)
    → (strfindl where_ (pos n) what (pos 1) ≡ ok str_not_found)
        × ((i : ℕ) → i < n → where_ i ≢ what 0)
      ⊎ ((i : ℕ) × (strfindl where_ (pos n) what (pos 1) ≡ ok (pos i))
          × (i < n)
          × (where_ i ≡ what 0)
          × ((j : ℕ) → j < i → where_ j ≢ what 0))
unfolding strfindl
strfindl-char where_ zero what = inl (refl, λ i h. absurd (omega arith))
strfindl-char where_ (suc r) what =
    let test : ℕ → Bool = λ i. where_ i == what 0 in
    let i = first test 0 (suc r) in
    let e : strfindl where_ (pos (suc r)) what (pos 1)
        ≡ ok (char_place where_ (suc r) what 0 (suc r)) =
      let bounds : (suc r == 0 || false || ltb (suc r) 1) ≡ false = ground arith in
      let fuel : 2 * suc r + 2 ≡ suc (suc (2 * r + 2)) = omega arith in
      rw bounds
        (rw fuel (char_loop where_ (suc r) what r (2 * r + 2) 0 (omega arith) (omega arith))) in
    elim (Bool-cases (ltb i (suc r))) [
      | inl found ↦
          let h = ltb→lt i (suc r) found in
          inr (
            i,
            e ∙ ap (λ b. ok (if b then pos i else str_not_found)) found,
            h,
            ground (arith, first_hit test 0 (suc r) (omega arith)),
            λ j lt. ground (arith, first_miss test 0 (suc r) j (omega arith) lt),
          )
      | inr missing ↦ inl (
        e ∙ ap (λ b. ok (if b then pos i else str_not_found)) missing,
        λ j lt. ground (
          arith,
          first_miss test 0 (suc r) j (omega arith) (ground (arith, first-le test 0 (suc r))),
        ),
      )
    ]
