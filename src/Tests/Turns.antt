-- ===== src/Tests/Turns.antt =====
-- Process 3 stays ready while the others are blocked every other time.
use gunw_os.Prelude.Int.{pos, negsuc}
use gunw_os.Prelude.{ℕ, suc, ◌%◌, ◌<◌, ◌≡◌, refl, Array, ◌==◌, ◌||◌, if◌then◌else◌, arith}
use gunw_os.Runloop.{max_proc}
use gunw_os.Kernel.{ProcessUser, ps_ready, ps_blocked, zero_cpu, no_lock}
use gunw_os.Schedule.Fairness.{selected, proc_select-fair}

abbrev tables : ℕ → Array ProcessUser
tables k i = record {
  state = if i == 3 || k % 2 == 0 then ps_ready else ps_blocked;
  dpl = 3;
  cpu_state = zero_cpu;
  lock_mask = no_lock;
}

proc_select-fair_example : (k : ℕ) × (k < max_proc) × (selected tables (negsuc 0) (suc k) ≡ pos 3)
proc_select-fair_example =
    proc_select-fair tables (negsuc 0) 3 (omega arith) (omega arith) (λ k. refl)
