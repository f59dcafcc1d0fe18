-- ===== src/Sessions/Stack.antt =====
-- The stacks of sessions of src/system/user/gnwdispm/session.c and gnwkbdm/session.c.
use gunw_os.Prelude.{
  ℕ, zero, suc, ◌≤◌, ◌<◌, ◌≡◌, ◌≢◌, ◌∙◌, sym, refl, Array, update, update_self, update_ne, first,
  first_miss, true, false, ◌==◌, ◌&&◌, if◌then◌else◌, Bool-cases, Option, none, some, is_some,
  arith, min, ℕ_discrete, dec_lt, inl, inr, ◌⊎◌,
}
use gunw_os.Sessions.{is, shift_up, push, find_last, shift_down, pull}

pub is_iff : (s : ℕ) (o : Option ℕ) → is s o ≡ true → o ≡ some s
is_iff s none h = cc
is_iff s (some t) h = ground arith

is_not : (s : ℕ) (o : Option ℕ) → is s o ≡ false → o ≢ some s
is_not s none h e = cc
is_not s (some t) h e = ground arith

module _ (s : ℕ) where
  -- Where the session is not below slot n, the loop moves the slots below n up by one.
  shift_up_lem :
      (n : ℕ) (stack : Array (Option ℕ))
      → ((j : ℕ) → j < n → is s (stack j) ≡ false)
      → ((j : ℕ) → j < n → shift_up s n stack (suc j) ≡ stack j)
        × ((j : ℕ) → n < j → shift_up s n stack j ≡ stack j)
  unfolding shift_up
  shift_up_lem zero stack h = (λ j lt. absurd (omega arith), λ j lt. refl)
  shift_up_lem (suc n) stack h =
      let below : (j : ℕ) → j < n → is s (update stack (suc n) (stack n) j) ≡ false =
        λ j lt. rw (update_ne stack (suc n) j (stack n) (omega arith)) (h j (omega arith)) in
      let (moved, kept) = shift_up_lem n (update stack (suc n) (stack n)) below in
      rw (h n (omega arith)) (
        λ j lt. elim (ℕ_discrete j n) [
          | yes e ↦ rw e (kept (suc n) (omega arith) ∙ update_self stack (suc n) (stack n))
          | no ne ↦ moved j (omega arith) ∙ update_ne stack (suc n) j (stack n) (omega arith)
        ],
        λ j lt. kept j (omega arith) ∙ update_ne stack (suc n) j (stack n) (omega arith),
      )

  -- The slot that the session leaves, or the last one.
  abbrev pub place : Array (Option ℕ) → ℕ
  place stack = min (first (λ j. is s (stack j)) 0 8) 7

  -- The session on top, those above its place one slot further down.
  abbrev pub Raised : Array (Option ℕ) → Array (Option ℕ) → Type 0
  Raised stack stack' =
      (stack' 0 ≡ some s)
      × ((j : ℕ) → j < place stack → stack' (suc j) ≡ stack j)
      × ((j : ℕ) → place stack < j → stack' j ≡ stack j)

  absent_below : (stack : Array (Option ℕ)) (j : ℕ) → j < place stack → is s (stack j) ≡ false
  absent_below stack j lt = first_miss (λ i. is s (stack i)) 0 8 j (omega arith) (ground arith)

  raised :
      (stack : Array (Option ℕ)) → Raised stack (update (shift_up s (place stack) stack) 0 (some s))
  raised stack =
      let (moved, kept) = shift_up_lem (place stack) stack (absent_below stack) in
      let shifted = shift_up s (place stack) stack in
      (
        update_self shifted 0 (some s),
        λ j lt. update_ne shifted 0 (suc j) (some s) (omega arith) ∙ moved j lt,
        λ j lt. update_ne shifted 0 j (some s) (omega arith) ∙ kept j lt,
      )

  -- A session is pushed unless the stack is full and it is not on it.
  pub push_lem :
      (stack : Array (Option ℕ))
      → ((push s stack ≡ none) × (is_some (stack 7) ≡ true) × ((j : ℕ) → j < 8 → stack j ≢ some s))
        ⊎ ((stack' : Array (Option ℕ)) × (push s stack ≡ some stack') × Raised stack stack')
  unfolding push
  push_lem stack =
      let i = first (λ j. is s (stack j)) 0 8 in
      elim (Bool-cases (i == 8 && is_some (stack 7))) [
        | inl full ↦ inl (
          rw full,
          ground arith,
          λ j lt.
              is_not s (stack j)
                (first_miss (λ i. is s (stack i)) 0 8 j (omega arith) (ground arith)),
        )
        | inr room ↦ inr (update (shift_up s (place stack) stack) 0 (some s), rw room, raised stack)
      ]

  -- What a raised stack holds was there before, but for the session.
  pub Raised-from :
      (stack stack' : Array (Option ℕ))
      → Raised stack stack'
      → (j t : ℕ) → j < 8
      → stack' j ≡ some t
      → (t ≡ s) ⊎ ((i : ℕ) × (i < 8) × (stack i ≡ some t))
  Raised-from stack stack' r zero t lt e = inl (cc (r.0))
  Raised-from stack stack' r (suc j) t lt e = elim (dec_lt j (place stack)) [
    | yes below ↦ inr (j, omega arith, sym (r.1 j below) ∙ e)
    | no above ↦ inr (suc j, lt, sym (r.2 (suc j) (omega arith)) ∙ e)
  ]

  find_last_hit :
      (n : ℕ) (stack : Array (Option ℕ)) (i : ℕ)
      → find_last s n stack ≡ suc i
      → (i < n) × (stack i ≡ some s) × ((j : ℕ) → i < j → j < n → stack j ≢ some s)
  unfolding find_last
  find_last_hit zero stack i e = cc
  find_last_hit (suc n) stack i e = elim (Bool-cases (is s (stack n))) [
    | inl here ↦
        let same : i ≡ n = ground arith in
        rw same (omega arith, is_iff s (stack n) here, λ j lt le. absurd (omega arith))
    | inr other ↦
        let rest = find_last_hit n stack i (rw other at e) in
        (
          omega (arith, rest.0),
          rest.1,
          λ j lt le. elim (ℕ_discrete j n) [
            | yes q ↦ rw q (is_not s (stack n) other)
            | no ne ↦ rest.2 j lt (omega arith)
          ],
        )
  ]

  find_last_miss :
      (n : ℕ) (stack : Array (Option ℕ))
      → find_last s n stack ≡ 0
      → (j : ℕ) → j < n
      → stack j ≢ some s
  unfolding find_last
  find_last_miss zero stack e j lt = absurd (omega arith)
  find_last_miss (suc n) stack e j lt = elim (Bool-cases (is s (stack n))) [
    | inl here ↦ absurd (ground arith)
    | inr other ↦ elim (ℕ_discrete j n) [
      | yes q ↦ rw q (is_not s (stack n) other)
      | no ne ↦ find_last_miss n stack (rw other at e) j (omega arith)
    ]
  ]

-- What a slot takes over from the one below it.
abbrev pub below : ℕ → Array (Option ℕ) → Option ℕ
below i stack = if i == 7 then none else stack (suc i)

-- The loop fills every slot down to the first with what was below the slot it begins at.
shift_down_lem :
    (i : ℕ) (stack : Array (Option ℕ))
    → i < 8
    → ((j : ℕ) → j ≤ i → shift_down (suc i) stack j ≡ below i stack)
      × ((j : ℕ) → i < j → shift_down (suc i) stack j ≡ stack j)
unfolding shift_down
shift_down_lem zero stack lt = (λ j le. ground arith, λ j gt. ground arith)
shift_down_lem (suc i) stack lt =
    let next = update stack (suc i) (below (suc i) stack) in
    let (filled, kept) = shift_down_lem i next (omega arith) in
    let same : below i next ≡ below (suc i) stack = ground arith in
    (
      λ j le. elim (ℕ_discrete j (suc i)) [
        | yes q ↦ rw q (kept (suc i) (omega arith) ∙ update_self stack (suc i) _)
        | no ne ↦ filled j (omega arith) ∙ same
      ],
      λ j gt. kept j (omega arith) ∙ update_ne stack (suc i) j _ (omega arith),
    )

-- The slots down to the last one of the session hold what was below that slot, the others what they
-- had; without the session nothing changes.
abbrev pub Pulled : ℕ → Array (Option ℕ) → Array (Option ℕ) → Type 0
Pulled s stack stack' =
    (((j : ℕ) → j < 8 → stack j ≢ some s) × (stack' ≡ stack))
    ⊎ ((i : ℕ) × (i < 8)
        × (stack i ≡ some s)
        × ((j : ℕ) → i < j → j < 8 → stack j ≢ some s)
        × ((j : ℕ) → j ≤ i → stack' j ≡ below i stack)
        × ((j : ℕ) → i < j → stack' j ≡ stack j))

module _ (s : ℕ) (stack : Array (Option ℕ)) where
  -- The end of a session on a stack fills every slot from its last one down to the first with
  -- what was behind that slot, and leaves the slots behind it; a stack without the session stays.
  pub pull_lem : Pulled s stack (pull s stack)
  unfolding pull
  pull_lem = split (find_last s 8 stack) refl
    where
      split : (n : ℕ) → find_last s 8 stack ≡ n → Pulled s stack (shift_down n stack)
      split zero e = inl (find_last_miss s 8 stack e, unfold shift_down in refl)
      split (suc i) e =
          let hit = find_last_hit s 8 stack i e in
          let shift = shift_down_lem i stack hit.0 in inr (i, hit.0, hit.1, hit.2, shift.0, shift.1)

  below-ne : (i : ℕ) → i < 8 → ((j : ℕ) → i < j → j < 8 → stack j ≢ some s) → below i stack ≢ some s
  below-ne i lt ne = elim (ℕ_discrete i 7) [
    | yes e ↦ rw e (λ q. cc)
    | no other ↦ λ q. ne (suc i) (omega arith) (omega arith) (ground arith)
  ]

  -- The session is on the stack no more.
  pub pull-absent : (j : ℕ) → j < 8 → pull s stack j ≢ some s
  pull-absent j lt e = elim pull_lem [
    | inl (absent, same) ↦ absent j lt (rw same at e)
    | inr (i, below_8, here, later, filled, kept) ↦ elim (dec_lt i j) [
      | yes above ↦ later j above lt (sym (kept j above) ∙ e)
      | no le ↦ below-ne i below_8 later (sym (filled j (omega arith)) ∙ e)
    ]
  ]

  -- What the stack holds then was there before.
  pub pull-from :
      (j t : ℕ) → j < 8 → pull s stack j ≡ some t → (i : ℕ) × (i < 8) × (stack i ≡ some t)
  pull-from j t lt e = elim pull_lem [
    | inl (absent, same) ↦ (j, lt, rw same at e)
    | inr (i, below_8, here, later, filled, kept) ↦ elim (dec_lt i j) [
      | yes above ↦ (j, lt, sym (kept j above) ∙ e)
      | no le ↦ from_below i below_8 (sym (filled j (omega arith)) ∙ e)
    ]
  ]
    where
      from_below : (i : ℕ) → i < 8 → below i stack ≡ some t → (i : ℕ) × (i < 8) × (stack i ≡ some t)
      from_below i below_8 q = elim (ℕ_discrete i 7) [
        | yes r ↦ absurd (ground arith)
        | no other ↦ (suc i, omega arith, ground arith)
      ]
