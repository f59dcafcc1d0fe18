-- ===== src/Timer/Drift.antt =====
-- src/system/kernel/timer/timer.c: the milliseconds that are left out make up for the drift.
use gunw_os.Prelude.{
  ℕ, zero, suc, ◌+◌, ◌*◌, ◌%◌, ◌^◌, ◌<◌, ◌≤◌, ◌≡◌, subst, inl, inr, arith, leb, leb→le, Bool-cases,
}
use gunw_os.Timer.{Timer, pit_freq, count_tick, count_ticks}

-- Every tick is a millisecond or one of the skipped ones, whose periods add up to the drift.
pub record Accounts {S : Type 0} (t : Timer S) (n : ℕ) : Type 0 where
  pub ticks_eq : t.ticks ≡ n
  pub ms_le : t.ms ≤ n
  pub drift_eq : t.pit_drift ≡ 182
  pub drift_lt : t.drift_current < pit_freq
  pub balance : t.ms * pit_freq ≡ n * 1193000 + t.drift_current

module _ {S : Type 0} where
  count_tick-Accounts :
      (t : Timer S) (n : ℕ) → n + 1 < 2 ^ 32 → Accounts t n → Accounts (count_tick t).1 (n + 1)
  unfolding count_tick
  count_tick-Accounts t n b a =
      elim (Bool-cases (leb pit_freq ((t.drift_current + t.pit_drift) % 2 ^ 32))) [
        | inl e ↦ simp e (record {
          ticks_eq = omega (arith, a.ticks_eq);
          ms_le = omega (arith, a.ms_le);
          drift_eq = a.drift_eq;
          drift_lt = omega (arith, a.drift_lt, a.drift_eq);
          balance = omega (arith, a.balance, a.drift_eq, a.drift_lt, leb→le pit_freq _ e);
        })
        | inr e ↦ simp e (record {
          ticks_eq = omega (arith, a.ticks_eq);
          ms_le = omega (arith, a.ms_le);
          drift_eq = a.drift_eq;
          drift_lt = ground (arith, a.drift_eq);
          balance = omega (arith, a.balance, a.drift_eq, a.drift_lt, a.ms_le);
        })
      ]

  -- From a timer that accounts for m ticks, n further ones, m + n being below 2 ^ 32, lead to one
  -- that accounts for m + n: it has counted every tick, and its milliseconds times 1193182, the
  -- frequency of the interval timer, are 1193000 times the ticks (the periods passed, in
  -- thousandths) plus a drift below 1193182.
  pub count_ticks-Accounts :
      (n m : ℕ) (t : Timer S) → m + n < 2 ^ 32 → Accounts t m → Accounts (count_ticks n t) (m + n)
  unfolding count_ticks
  count_ticks-Accounts zero m t b a = let e : m ≡ m + 0 = omega arith in subst (Accounts t) e a
  count_ticks-Accounts (suc n) m t b a =
      let e : m + 1 + n ≡ m + suc n = omega arith in
      subst (Accounts (count_ticks n (count_tick t).1)) e (
        count_ticks-Accounts n (m + 1) (count_tick t).1 (omega arith)
          (count_tick-Accounts t m (omega arith) a))
