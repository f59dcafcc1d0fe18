-- ===== src/Schedule/RoundRobin.antt =====
-- src/system/kernel/schedule/schedule.c: `procSelect` goes round the process table.
use gunw_os.Prelude.Int.{ℤ, pos, negsuc}
use gunw_os.Prelude.{
  ℕ, ◌+◌, ◌-◌, ◌%◌, ◌<◌, ◌≡◌, refl, ap, subst, ◌⊎◌, inl, inr, Bool, true, false, Array, first,
  first-le, first_hit, first_miss, ltb, ltb→lt, if◌then◌else◌, Bool-cases, arith,
}
use gunw_os.Runloop.{max_proc}
use gunw_os.Kernel.{ProcessUser, kernel_proc_id}
use gunw_os.Schedule.{proc_select, candidate, is_ready}

-- A user process of the table, or none (-1).
abbrev pub IsLast : ℤ → Type 0
IsLast (pos n) = n < max_proc
IsLast (negsuc n) = n ≡ 0

-- The round in which the loop comes to process n.
abbrev pub round_of : ℤ → ℕ → ℕ
round_of (pos m) n = (n + 4 - m) % 5
round_of (negsuc m) n = n

pub candidate-round_of :
    (last : ℤ) (n : ℕ)
    → IsLast last
    → n < max_proc
    → (round_of last n < max_proc) × (candidate last (round_of last n) ≡ n)
candidate-round_of (pos m) n l h = (omega arith, omega arith)
candidate-round_of (negsuc m) n l h = (omega arith, omega arith)

-- The process that the scan chose, i rounds after the last one, all in between not being ready.
pub record Chosen (tab : Array ProcessUser) (last : ℤ) (n : ℕ) : Type 0 where
  pub in_table : n < max_proc
  pub ready : is_ready (tab n).state ≡ true
  pub after : ℕ
  pub after_bound : after < max_proc
  pub distance : candidate last after ≡ n
  pub skipped : (i : ℕ) → i < after → is_ready (tab (candidate last i)).state ≡ false

-- procSelect picks the first ready process in cyclic order after the last one, which is of the
-- table or none, or answers that there is none, and then no process of the table is ready.
pub proc_select_lem :
    (tab : Array ProcessUser) (last : ℤ)
    → IsLast last
    → ((n : ℕ) × (proc_select tab last ≡ pos n) × Chosen tab last n)
      ⊎ ((proc_select tab last ≡ kernel_proc_id)
          × ((n : ℕ) → n < max_proc → is_ready (tab n).state ≡ false))
unfolding proc_select
proc_select_lem tab last l =
    let test : ℕ → Bool = λ i. is_ready (tab (candidate last i)).state in
    let i = first test 0 max_proc in
    elim (Bool-cases (ltb i max_proc)) [
      | inl found ↦
          let h = ltb→lt i max_proc found in
          inl (
            candidate last i,
            ap (λ b. if b then pos (candidate last i) else kernel_proc_id) found,
            record {
              in_table = omega arith;
              ready = first_hit test 0 max_proc h;
              after = i;
              after_bound = h;
              distance = refl;
              skipped = λ j lt. first_miss test 0 max_proc j (omega arith) lt;
            },
          )
      | inr none_found ↦ inr (
        ap (λ b. if b then pos (candidate last i) else kernel_proc_id) none_found,
        λ n h.
            let (lt, e) = candidate-round_of last n l h in
            subst (λ m. is_ready (tab m).state ≡ false) e
              (first_miss test 0 max_proc (round_of last n) (omega arith)
                (ground (arith, first-le test 0 max_proc))),
      )
    ]
