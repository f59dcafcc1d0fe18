-- ===== src/Sessions/Slots.antt =====
-- The search for a session by its process, and for a free one.
use gunw_os.Prelude.Int.{ℤ, eq_ℤ, eq_ℤ_iff}
use gunw_os.Prelude.{
  ℕ, ◌<◌, ◌≡◌, ◌≢◌, Array, first, first_hit, first_miss, ltb, none, some, arith, ◌⊎◌, inl, inr,
  Bool-cases,
}
use gunw_os.Sessions.{session_for_proc}

-- The search answers a session of the process, or that there is none.
pub session_for_proc_lem :
    (p : ℤ) (procs : Array ℤ)
    → ((session_for_proc p procs ≡ none) × ((j : ℕ) → j < 8 → procs j ≢ p))
      ⊎ ((i : ℕ) × (session_for_proc p procs ≡ some i) × (i < 8) × (procs i ≡ p))
unfolding session_for_proc
session_for_proc_lem p procs =
    let test = λ (j : ℕ). eq_ℤ (procs j) p in
    elim (Bool-cases (ltb (first test 0 8) 8)) [
      | inl found ↦ inr (
        first test 0 8,
        rw found,
        ground arith,
        (eq_ℤ_iff (procs (first test 0 8)) p).0 (first_hit test 0 8 (ground arith)),
      )
      | inr missing ↦ inl (
        rw missing,
        λ j lt e. absurd (
            ground (
              arith,
              (eq_ℤ_iff (procs j) p).1 e,
              first_miss test 0 8 j (omega arith) (ground arith),
            )),
      )
    ]
