-- ===== src/Schedule/Fairness.antt =====
-- src/system/kernel/schedule/schedule.c: `procSelect` over time, on tables that may change.
use gunw_os.Prelude.Int.{ℤ, pos, negsuc}
use gunw_os.Prelude.{ℕ, zero, suc, ◌<◌, ◌≡◌, sym, ap, ◌∙◌, ◌⊎◌, inl, inr, true, Array, arith}
use gunw_os.Runloop.{max_proc}
use gunw_os.Kernel.{ProcessUser}
use gunw_os.Schedule.{proc_select, candidate, is_ready}
use gunw_os.Schedule.RoundRobin.{IsLast, round_of, candidate-round_of, proc_select_lem}

-- The process that is last after so many selections, each from the table at its time.
pub selected : (ℕ → Array ProcessUser) → ℤ → ℕ → ℤ
selected tabs last zero = last
selected tabs last (suc k) = selected (λ i. tabs (suc i)) (proc_select (tabs 0) last) k

-- A choice that passes a ready process by brings its turn nearer.
nearer :
    (last : ℤ) (n after m : ℕ)
    → IsLast last
    → n < max_proc
    → after < round_of last n
    → candidate last after ≡ m
    → round_of (pos m) n < round_of last n
nearer (pos l) n after m h lt a e = omega arith
nearer (negsuc l) n after m h lt a e = omega arith

-- A ready process is chosen, or its turn comes nearer.
closer :
    (tab : Array ProcessUser) (last : ℤ) (n : ℕ)
    → IsLast last
    → n < max_proc
    → is_ready (tab n).state ≡ true
    → (m : ℕ) × (proc_select tab last ≡ pos m)
      × (m < max_proc)
      × ((m ≡ n) ⊎ (round_of (pos m) n < round_of last n))
closer tab last n l h ready = elim (proc_select_lem tab last l) [
  | inr (e, none_ready) ↦ absurd (cc (ready, none_ready n h))
  | inl (m, e, c) ↦
      let (lt, turn) = candidate-round_of last n l h in
      (
        m,
        e,
        c.in_table,
        elim (ℕ-compare c.after (round_of last n)) [
          | inl before ↦ inr (nearer last n c.after m l h before c.distance)
          | inr (inl same) ↦ inl (sym c.distance ∙ (ap (candidate last) same ∙ turn))
          | inr (inr late) ↦
              absurd (
                cc (c.skipped (round_of last n) late, ap (λ j. is_ready (tab j).state) turn, ready))
        ],
      )
]
  where
    ℕ-compare : (a b : ℕ) → (a < b) ⊎ ((a ≡ b) ⊎ (b < a))
    ℕ-compare a b = ground arith

-- The turn comes after at most as many selections as there are rounds before it.
turn_comes :
    (rounds : ℕ) (tabs : ℕ → Array ProcessUser) (last : ℤ) (n : ℕ)
    → IsLast last
    → n < max_proc
    → ((k : ℕ) → is_ready (tabs k n).state ≡ true)
    → round_of last n < rounds
    → (k : ℕ) × (k < rounds) × (selected tabs last (suc k) ≡ pos n)
unfolding selected
turn_comes zero tabs last n l h ready lt = absurd (omega arith)
turn_comes (suc rounds) tabs last n l h ready lt =
    let (m, e, in_table, where_next) = closer (tabs 0) last n l h (ready 0) in
    elim where_next [
      | inl same ↦ (0, omega arith, e ∙ ap pos same)
      | inr near ↦
          let (k, small, sel) =
            turn_comes rounds (λ i. tabs (suc i)) (pos m) n in_table h (λ i. ready (suc i))
              (omega arith) in
          (suc k, omega arith, ap (λ p. selected (λ i. tabs (suc i)) p (suc k)) e ∙ sel)
    ]

-- If each selection starts from the one before, the first from a process of the table or none, a
-- process that stays ready is selected within five selections, however the rest of the table
-- changes in between.
pub proc_select-fair :
    (tabs : ℕ → Array ProcessUser) (last : ℤ) (n : ℕ)
    → IsLast last
    → n < max_proc
    → ((k : ℕ) → is_ready (tabs k n).state ≡ true)
    → (k : ℕ) × (k < max_proc) × (selected tabs last (suc k) ≡ pos n)
proc_select-fair tabs last n l h ready =
    turn_comes max_proc tabs last n l h ready (candidate-round_of last n l h).0
