-- ===== src/Proc/Reach.antt =====
-- src/system/kernel/hal/proc/proc.c and schedule/schedule.c: the kernel's steps, and what holds
-- after any number of them. An interrupt or a system call enters the kernel before anything else of
-- it runs, so the queued choice of a process and the hatching are steps of the running kernel.
use gunw_os.Prelude.Outcome.{Outcome, ok, done, Ensures, ensures_ok, Ensures-if, ensures_result}
use gunw_os.Prelude.Int.{ℤ, pos, leb_ℤ}
use gunw_os.Prelude.{
  ℕ, ◌≡◌, refl, ◌⊎◌, inl, inr, Bool, not, Array, Option, sym, ap, subst, ltb, leb, ◌+◌, [],
}
use gunw_os.Runloop.{RunLoops}
use gunw_os.Queue.{Queue, k_que_dispatch}
use gunw_os.Kernel.{
  Kernel, Task, sched_evaluate, kernel_proc_id, ProcState, ps_running, LockType, CpuState,
  ProcError, zero_cpu, ProcessUser, zero_process,
}
use gunw_os.Schedule.{k_proc_schedule_on_tick, sched_evaluate_run, proc_select, granularity_ms}
use gunw_os.Schedule.RoundRobin.{IsLast, proc_select_lem}
use gunw_os.Proc.{
  is_running, k_proc_spawn, k_proc_hatch, k_proc_lock, k_proc_unlock, k_proc_cleanup,
  k_proc_callback_invoke_ptr, k_proc_stop,
}
use gunw_os.Proc.Switch.{
  k_proc_schedule_int_needs_kernel_handling, k_proc_schedule_on_kernel_handling_finished,
  on_kernel_return,
}
use gunw_os.Proc.Invariant.{
  IsValid, on_queue-IsValid, k_proc_lock-IsValid, k_proc_unlock-IsValid, k_proc_cleanup-IsValid,
  k_proc_stop-IsValid,
}
use gunw_os.Proc.Scheduled.{
  schedule_of, SameSchedule, k_proc_lock-Same, k_proc_unlock-Same, k_proc_cleanup-Same,
  k_proc_stop-Same, k_proc_spawn-Same, on_tick-Same, switch_to_kernel-Enters,
  handling_finished-Leaves, k_proc_hatch-Hatches,
}
use gunw_os.Proc.Callback.{callback_invoke_ptr-Delivered}
use gunw_os.Proc.Context.{
  Resumed, k_proc_spawn-IsValid, k_proc_hatch-IsValid, k_proc_switch-IsValid,
  switch_to_kernel-IsValid,
}

pub data Step (k : Kernel) : Kernel → Type 1 where
  step_interrupt :
      (ref_esp : ℕ) (frame frame' : CpuState) (k' : Kernel)
      → k_proc_schedule_int_needs_kernel_handling ref_esp frame k ≡ ok (frame', k')
      → Step k k'
  step_evaluate : k.kernel_state ≡ ps_running → Step k (sched_evaluate_run k)
  step_finished :
      (saved cpu : CpuState) (k' : Kernel)
      → k_proc_schedule_on_kernel_handling_finished saved k ≡ ok (cpu, k')
      → Step k k'
  step_return : k.kernel_state ≡ ps_running → Step k (on_kernel_return k)
  step_tick : (k' : Kernel) → k_proc_schedule_on_tick k ≡ ok k' → Step k k'
  step_spawn : (b : Bool) (p : ℤ) (k' : Kernel) → k_proc_spawn b k ≡ ok (done (p, k')) → Step k k'
  step_hatch :
      (entry heap : ℕ) (p : ℤ) (k' : Kernel)
      → k.kernel_state ≡ ps_running
      → k_proc_hatch entry heap p k ≡ ok k'
      → Step k k'
  step_lock : (p : ℤ) (t : LockType) (k' : Kernel) → k_proc_lock p t k ≡ ok k' → Step k k'
  step_unlock : (p : ℤ) (t : LockType) (k' : Kernel) → k_proc_unlock p t k ≡ ok k' → Step k k'
  step_stop : (p : ℤ) (k' : Kernel) → k_proc_stop p k ≡ ok k' → Step k k'
  step_cleanup : (p : ℤ) (k' : Kernel) → k_proc_cleanup p k ≡ ok k' → Step k k'
  step_callback :
      (D : Type 0) (p : ℤ) (routine : ℕ) (data_ptr : Option D) (size_bytes encoded_size_bytes : ℕ)
      (encoder : Option (Option D → Array ℕ → Array ℕ)) (decoder : Option ℕ) (e : ProcError)
      (k' : Kernel)
      → k_proc_callback_invoke_ptr p routine data_ptr size_bytes encoded_size_bytes encoder decoder
          k
        ≡ ok (e, k')
      → Step k k'

pub data Reach (k : Kernel) : Kernel → Type 1 where
  reach_start : Reach k k
  reach_step : (k' k'' : Kernel) → Reach k k' → Step k' k'' → Reach k k''

-- `k_proc_init`: an empty table, the kernel running, no process chosen.
abbrev pub initial_kernel : Queue Task → RunLoops → Kernel
initial_kernel q rs = record {
  kernel_state = ps_running;
  kernel_cpu = zero_cpu;
  p_tab = λ _. zero_process;
  proc_current = kernel_proc_id;
  execution_time_counter = granularity_ms;
  last_proc_id = kernel_proc_id;
  next_proc_id = kernel_proc_id;
  queue = q;
  run_loops = rs;
  effects = [];
}

-- While a process runs it is the one that was chosen; the choices are of the table.
abbrev pub ScheduleOk : ProcState × ℤ × ℤ × ℤ → Type 0
ScheduleOk (s, current, next, last) =
    ((s ≡ ps_running) ⊎ (current ≡ next)) × IsLast next × IsLast last

pub record IsSound (k : Kernel) : Type 0 where
  pub table : IsValid k
  pub schedule : ScheduleOk (schedule_of k)

proc_select-IsLast :
    (tab : Array ProcessUser) (last : ℤ) → IsLast last → IsLast (proc_select tab last)
proc_select-IsLast tab last l = elim (proc_select_lem tab last l) [
  | inl (n, e, c) ↦ subst IsLast (sym e) c.in_table
  | inr (e, _) ↦ subst IsLast (sym e) refl
]

same_schedule : (k k' : Kernel) → IsSound k → IsValid k' → SameSchedule k k' → IsSound k'
same_schedule k k' v t e = record { table = t; schedule = subst ScheduleOk (sym e) v.schedule }

-- An operation that keeps the table consistent and the schedule as it is.
by_same :
    (k k' : Kernel) (o : Outcome Kernel)
    → IsSound k
    → Ensures IsValid o
    → Ensures (SameSchedule k) o
    → o ≡ ok k'
    → IsSound k'
by_same k k' o v t s e = same_schedule k k' v (ensures_result t e) (ensures_result s e)

on_tick-IsValid : (k : Kernel) → IsValid k → Ensures IsValid (k_proc_schedule_on_tick k)
unfolding k_proc_schedule_on_tick
on_tick-IsValid k v =
    let k' = record k { execution_time_counter = k.execution_time_counter + 1 } in
    Ensures-if (leb granularity_ms k.execution_time_counter) (λ _. ensures_ok v)
      λ _.
        Ensures-if (ltb (k.execution_time_counter + 1) granularity_ms) (λ _. ensures_ok v)
          λ _. on_queue-IsValid (k_que_dispatch sched_evaluate) k' v

handling_finished-IsValid :
    (saved : CpuState) (k : Kernel)
    → IsValid k
    → Ensures Resumed (k_proc_schedule_on_kernel_handling_finished saved k)
unfolding k_proc_schedule_on_kernel_handling_finished
handling_finished-IsValid saved k v =
    Ensures-if (not (leb_ℤ (pos 0) k.next_proc_id)) (λ _. ensures_ok v)
      λ _. k_proc_switch-IsValid k.next_proc_id saved (record k { execution_time_counter = 0 }) v

interrupt-IsValid :
    (ref_esp : ℕ) (frame : CpuState) (k : Kernel)
    → IsValid k
    → (k.kernel_state ≡ ps_running) ⊎ (k.proc_current ≡ k.next_proc_id)
    → Ensures Resumed (k_proc_schedule_int_needs_kernel_handling ref_esp frame k)
unfolding k_proc_schedule_int_needs_kernel_handling
interrupt-IsValid ref_esp frame k v (inl r) =
    switch_to_kernel-IsValid ref_esp k.next_proc_id frame k v (inl (ap is_running r))
interrupt-IsValid ref_esp frame k v (inr c) =
    switch_to_kernel-IsValid ref_esp k.next_proc_id frame k v (inr c)

-- One step keeps what holds of the kernel.
Step-IsSound : (k k' : Kernel) → IsSound k → Step k k' → IsSound k'
unfolding sched_evaluate_run on_kernel_return
Step-IsSound k k' v (step_interrupt ref_esp frame frame' _ e) = record {
  table = ensures_result (interrupt-IsValid ref_esp frame k v.table v.schedule.0) e;
  schedule =
      subst ScheduleOk (sym (ensures_result (switch_to_kernel-Enters ref_esp frame k) e))
        (inl refl, v.schedule.1, v.schedule.2);
}
Step-IsSound k k' v (step_evaluate r) = record {
  table = v.table;
  schedule = (inl r, proc_select-IsLast k.p_tab k.last_proc_id v.schedule.2, v.schedule.2);
}
Step-IsSound k k' v (step_finished saved cpu _ e) = record {
  table = ensures_result (handling_finished-IsValid saved k v.table) e;
  schedule = elim (ensures_result (handling_finished-Leaves saved k) e) [
    | inl s ↦ subst ScheduleOk (sym s) v.schedule
    | inr s ↦ subst ScheduleOk (sym s) (inr refl, v.schedule.1, v.schedule.2)
  ];
}
Step-IsSound k k' v (step_return r) = record {
  table = v.table;
  schedule = (inl r, v.schedule.1, v.schedule.1);
}
Step-IsSound k k' v (step_tick _ e) =
    by_same k k' _ v (on_tick-IsValid k v.table) (on_tick-Same k) e
Step-IsSound k k' v (step_spawn b p _ e) =
    same_schedule k k' v (ensures_result (k_proc_spawn-IsValid b k v.table) e)
      (ensures_result (k_proc_spawn-Same k b) e)
Step-IsSound k k' v (step_hatch entry heap p _ r e) = record {
  table = ensures_result (k_proc_hatch-IsValid entry heap p k v.table) e;
  schedule = elim (ensures_result (k_proc_hatch-Hatches entry heap p k) e) [
    | inl s ↦ subst ScheduleOk (sym s) v.schedule
    | inr s ↦
        subst ScheduleOk (sym s)
          (inl r, proc_select-IsLast k'.p_tab k.last_proc_id v.schedule.2, v.schedule.2)
  ];
}
Step-IsSound k k' v (step_lock p t _ e) =
    by_same k k' _ v (k_proc_lock-IsValid p t k v.table) (k_proc_lock-Same k p t) e
Step-IsSound k k' v (step_unlock p t _ e) =
    by_same k k' _ v (k_proc_unlock-IsValid p t k v.table) (k_proc_unlock-Same k p t) e
Step-IsSound k k' v (step_stop p _ e) =
    by_same k k' _ v (k_proc_stop-IsValid p k v.table) (k_proc_stop-Same k p) e
Step-IsSound k k' v (step_cleanup p _ e) =
    by_same k k' _ v (k_proc_cleanup-IsValid p k v.table) (k_proc_cleanup-Same k p) e
Step-IsSound k k' v (step_callback D p routine data_ptr size encoded_size encoder decoder e _ eq) =
    let (t, s) =
      ensures_result
        (callback_invoke_ptr-Delivered p routine data_ptr size encoded_size encoder decoder k
          v.table)
        eq in
    same_schedule k k' v t s

pub initial-IsSound : (q : Queue Task) (rs : RunLoops) → IsSound (initial_kernel q rs)
initial-IsSound q rs = record {
  table = record { locks = λ _. refl; runs = λ _. tt };
  schedule = (inl refl, refl, refl);
}

-- In every state that the steps of the process table and the scheduler reach from the initial
-- one, a blocked process holds a lock, a new, ready or running one holds none, a running process
-- is the current and chosen one while the kernel waits, and the scheduler's choices are of the
-- table or none.
pub reachable-IsSound :
    (q : Queue Task) (rs : RunLoops) (k : Kernel) → Reach (initial_kernel q rs) k → IsSound k
reachable-IsSound q rs k reach_start = initial-IsSound q rs
reachable-IsSound q rs k (reach_step k' _ r s) = Step-IsSound k' k (reachable-IsSound q rs k' r) s
