-- ===== src/Schedule.antt =====
-- src/system/kernel/schedule/schedule.c, but for the two functions that switch processes (Proc/Switch.antt).
pub mod RoundRobin
pub mod Fairness
use gunw_os.Prelude.Outcome.{Outcome, ok, oops}
use gunw_os.Prelude.Int.{ℤ, pos, negsuc, leb_ℤ, index}
use gunw_os.Prelude.{
  ℕ, ◌+◌, ◌-◌, ◌%◌, ◌^◌, Bool, true, false, not, ◌||◌, Array, first, leb, ltb, if◌then◌else◌,
}
use gunw_os.Runloop.{max_proc}
use gunw_os.Queue.{k_que_dispatch}
use gunw_os.Kernel.{
  Kernel, kernel_proc_id, ProcState, ps_none, ps_new, ps_ready, ps_running, ps_blocked, ps_finished,
  ProcessUser, sched_evaluate, on_queue,
}

abbrev pub granularity_ms : ℕ
granularity_ms = 30000

abbrev pub is_ready : ProcState → Bool
is_ready s = elim s [ ps_ready ↦ true | _ ↦ false ]

-- A signed 32-bit value in unsigned arithmetic.
abbrev pub unsigned : ℤ → ℕ
unsigned (pos n) = n
unsigned (negsuc n) = 2 ^ 32 - 1 - n

-- The process that round `i` of the loop in `procSelect` looks at.
abbrev pub candidate : ℤ → ℕ → ℕ
candidate last i = (unsigned last + i + 1) % 2 ^ 32 % max_proc

-- Only identifiers below `MAX_PROC` are passed to `k_proc_getInfo` here.
unfoldable pub proc_select : Array ProcessUser → ℤ → ℤ
proc_select tab last =
    let i = first (λ i. is_ready (tab (candidate last i)).state) 0 max_proc in
    if ltb i max_proc then pos (candidate last i) else kernel_proc_id

unfoldable pub sched_evaluate_run : Kernel → Kernel
unfolding proc_select
sched_evaluate_run k = record k { next_proc_id = proc_select k.p_tab k.last_proc_id }

unfoldable pub k_proc_schedule_did_hatch : ℤ → Kernel → Outcome Kernel
unfolding sched_evaluate_run
k_proc_schedule_did_hatch p k =
    if not (leb_ℤ (pos 0) p) || leb_ℤ (pos max_proc) p
    then oops
    else if not (is_ready (k.p_tab (index p)).state)
    then oops
    else ok (if not (leb_ℤ (pos 0) k.next_proc_id) then sched_evaluate_run k else k)

unfoldable pub k_proc_schedule_process_state_did_change : Kernel → Outcome Kernel
k_proc_schedule_process_state_did_change k =
    on_queue (k_que_dispatch sched_evaluate) (record k { execution_time_counter = granularity_ms })

unfoldable pub k_proc_schedule_on_tick : Kernel → Outcome Kernel
k_proc_schedule_on_tick k =
    if leb granularity_ms k.execution_time_counter
    then ok k
    else (let k' = record k { execution_time_counter = k.execution_time_counter + 1 } in
        if ltb k'.execution_time_counter granularity_ms
        then ok k'
        else on_queue (k_que_dispatch sched_evaluate) k')
