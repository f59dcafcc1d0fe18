-- ===== src/Tests/Clock.antt =====
-- src/system/kernel/timer/timer.c from its initial state.
use gunw_os.Prelude.Outcome.{ok}
use gunw_os.Prelude.{ℕ, ◌+◌, refl, arith}
use gunw_os.Timer.{Timer, k_tmr_init, count_ticks}
use gunw_os.Timer.Drift.{Accounts, count_ticks-Accounts}

abbrev stopped : Timer ℕ
stopped = record {
  ticks = 0;
  ms = 0;
  pit_drift = 0;
  drift_current = 0;
  ms_handler_count = 0;
  aux_ms_handlers = λ _ s. ok s;
}

started-Accounts : Accounts (k_tmr_init stopped) 0
unfolding k_tmr_init
started-Accounts = record {
  ticks_eq = refl;
  ms_le = omega arith;
  drift_eq = refl;
  drift_lt = omega arith;
  balance = refl;
}

count_ticks-Accounts_example : Accounts (count_ticks 100000 (k_tmr_init stopped)) (0 + 100000)
count_ticks-Accounts_example =
    count_ticks-Accounts 100000 0 (k_tmr_init stopped) (omega arith) started-Accounts
