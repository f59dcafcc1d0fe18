-- ===== src/Proc/Scheduled.antt =====
-- src/system/kernel/hal/proc/proc.c and schedule/schedule.c: which operations leave alone who runs,
-- who ran last and who is next.
use gunw_os.Prelude.Outcome.{
  Outcome, Answer, done, fails, Ensures, ensures_ok, ensures_oops, Ensures-if, Ensures-bind,
  Ensures-then,
}
use gunw_os.Prelude.Int.{ℤ, pos, leb_ℤ, index}
use gunw_os.Prelude.{
  ℕ, ◌+◌, ◌≡◌, refl, Bool, true, false, not, ◌&&◌, ◌||◌, leb, ap, ◌⊎◌, inl, inr, ◌==◌,
  if◌then◌else◌, ltb, first,
}
use gunw_os.Runloop.{max_proc}
use gunw_os.Queue.{Queue, k_que_dispatch, k_que_dispatch_arch}
use gunw_os.Kernel.{
  Kernel, Task, sched_evaluate, proc_cleanup, ProcState, ps_none, ps_new, ps_ready, ps_running,
  ps_blocked, ps_finished, CpuState, set_cpu, LockType, without_lock, is_locked, ProcError,
  out_of_range, on_queue, set_process,
}
use gunw_os.Schedule.{
  k_proc_schedule_process_state_did_change, k_proc_schedule_on_tick, is_ready, unsigned,
  proc_select, sched_evaluate_run, k_proc_schedule_did_hatch, granularity_ms,
}
use gunw_os.Proc.{
  is_running, is_blocked, is_process_alive, is_none, k_proc_spawn, k_proc_lock, k_proc_unlock,
  k_proc_cleanup, k_proc_stop, is_new, is_finished, k_proc_hatch, hatched, unsafe_set_proc_params,
  unsafe_add_proc_param, with_entry,
}
use gunw_os.Proc.Switch.{
  switched, entered, k_proc_switch, k_proc_switch_to_kernel_if_needed,
  k_proc_schedule_int_needs_kernel_handling, k_proc_schedule_on_kernel_handling_finished,
}

-- Who runs, who is next and who ran last.
abbrev pub schedule_of : Kernel → ProcState × ℤ × ℤ × ℤ
schedule_of k = (k.kernel_state, k.proc_current, k.next_proc_id, k.last_proc_id)

abbrev pub SameSchedule : Kernel → Kernel → Type 0
SameSchedule k k' = schedule_of k' ≡ schedule_of k

abbrev pub SameAnswer : Kernel → Answer ProcError (ℤ × Kernel) → Type 0
SameAnswer k (done (p, k')) = SameSchedule k k'
SameAnswer k (fails e) = Unit {0}

module _ (k : Kernel) where
  on_queue-Same :
      (f : Queue Task → Outcome (Queue Task)) (k' : Kernel)
      → SameSchedule k k'
      → Ensures (SameSchedule k) (on_queue f k')
  unfolding on_queue
  on_queue-Same f k' s = Ensures-then (f k'.queue) λ q. ensures_ok s

  pub did_change-Same :
      (k' : Kernel)
      → SameSchedule k k'
      → Ensures (SameSchedule k) (k_proc_schedule_process_state_did_change k')
  unfolding k_proc_schedule_process_state_did_change
  did_change-Same k' s = on_queue-Same (k_que_dispatch sched_evaluate) _ s

  pub k_proc_lock-Same : (p : ℤ) (t : LockType) → Ensures (SameSchedule k) (k_proc_lock p t k)
  unfolding k_proc_lock
  k_proc_lock-Same p t =
      let u = k.p_tab (index p) in
      Ensures-if (out_of_range p) (λ _. ensures_oops)
        λ _.
          Ensures-if (is_blocked u.state) (λ _. ensures_ok refl)
            λ _.
              Ensures-if (not (is_ready u.state) && not (is_running u.state)) (λ _. ensures_oops)
                λ _. did_change-Same _ refl

  pub k_proc_unlock-Same : (p : ℤ) (t : LockType) → Ensures (SameSchedule k) (k_proc_unlock p t k)
  unfolding k_proc_unlock
  k_proc_unlock-Same p t =
      let u = k.p_tab (index p) in
      Ensures-if (out_of_range p) (λ _. ensures_oops)
        λ _.
          Ensures-if (not (is_blocked u.state) || is_locked (without_lock u.lock_mask t))
            (λ _. ensures_ok refl) λ _. did_change-Same _ refl

  pub k_proc_cleanup-Same : (p : ℤ) → Ensures (SameSchedule k) (k_proc_cleanup p k)
  unfolding k_proc_cleanup
  k_proc_cleanup-Same p =
      Ensures-if (out_of_range p) (λ _. ensures_oops)
        λ _.
          Ensures-if (is_process_alive (k.p_tab (index p)).state) (λ _. ensures_oops)
            λ _. ensures_ok refl

  pub k_proc_stop-Same : (p : ℤ) → Ensures (SameSchedule k) (k_proc_stop p k)
  unfolding k_proc_stop
  k_proc_stop-Same p =
      Ensures-if (out_of_range p) (λ _. ensures_oops)
        λ _.
          Ensures-if (not (is_process_alive (k.p_tab (index p)).state)) (λ _. ensures_oops)
            λ _.
              Ensures-bind {Q = SameSchedule k}
                (on_queue-Same (k_que_dispatch_arch proc_cleanup (unsigned p))
                  (set_process k (index p) (record (k.p_tab (index p)) { state = ps_finished }))
                  refl)
                did_change-Same

  pub k_proc_spawn-Same : (b : Bool) → Ensures (SameAnswer k) (k_proc_spawn b k)
  unfolding k_proc_spawn
  k_proc_spawn-Same b =
      let i = first (λ i. is_none (k.p_tab i).state) 0 max_proc in
      Ensures-if (not b) (λ _. ensures_oops)
        λ _. Ensures-if (ltb i max_proc) (λ _. ensures_ok refl) λ _. ensures_ok tt

  pub on_tick-Same : Ensures (SameSchedule k) (k_proc_schedule_on_tick k)
  unfolding k_proc_schedule_on_tick
  on_tick-Same =
      let k' = record k { execution_time_counter = k.execution_time_counter + 1 } in
      Ensures-if (leb granularity_ms k.execution_time_counter) (λ _. ensures_ok refl)
        λ _.
          Ensures-if (ltb (k.execution_time_counter + 1) granularity_ms) (λ _. ensures_ok refl)
            λ _. on_queue-Same (k_que_dispatch sched_evaluate) k' refl

-- The kernel is running, and the choices are the same.
abbrev pub EntersKernel : Kernel → CpuState × Kernel → Type 0
EntersKernel k (cpu, k') =
    schedule_of k' ≡ (ps_running, k'.proc_current, k.next_proc_id, k.last_proc_id)

-- The process that runs is the next one, or nothing changed.
abbrev pub LeavesKernel : Kernel → CpuState × Kernel → Type 0
LeavesKernel k (cpu, k') =
    SameSchedule k k'
    ⊎ (schedule_of k' ≡ (ps_ready, k.next_proc_id, k.next_proc_id, k.last_proc_id))

-- The kernel goes on, with a choice that is of the table.
abbrev pub Hatches : Kernel → Kernel → Type 0
Hatches k k' =
    SameSchedule k k'
    ⊎ (schedule_of k'
        ≡ (k.kernel_state, k.proc_current, proc_select k'.p_tab k.last_proc_id, k.last_proc_id))

running : (s : ProcState) → is_running s ≡ true → s ≡ ps_running
running ps_none r = cc
running ps_new r = cc
running ps_ready r = cc
running ps_running r = refl
running ps_blocked r = cc
running ps_finished r = cc

pub switch_to_kernel-Enters :
    (ref_esp : ℕ) (frame : CpuState) (k : Kernel)
    → Ensures (EntersKernel k) (k_proc_schedule_int_needs_kernel_handling ref_esp frame k)
unfolding k_proc_schedule_int_needs_kernel_handling k_proc_switch_to_kernel_if_needed entered
switch_to_kernel-Enters ref_esp frame k =
    let p = k.next_proc_id in
    let u = k.p_tab (index p) in
    Ensures-if (is_running k.kernel_state)
      (λ r.
        ensures_ok (
          ap (λ s. (s, k.proc_current, k.next_proc_id, k.last_proc_id)) (running k.kernel_state r)))
      λ _.
        Ensures-if (not (leb_ℤ (pos 0) p)) (λ _. ensures_oops)
          λ _.
            Ensures-if (leb_ℤ (pos max_proc) p) (λ _. ensures_oops)
              λ _.
                Ensures-if
                  (not (is_running u.state)
                    && not (is_blocked u.state)
                    && not (is_finished u.state))
                  (λ _. ensures_oops)
                  λ _.
                    Ensures-if (not (is_ready k.kernel_state)) (λ _. ensures_oops)
                      λ _. Ensures-if (ref_esp == 0) (λ _. ensures_oops) λ _. ensures_ok refl

pub handling_finished-Leaves :
    (saved : CpuState) (k : Kernel)
    → Ensures (LeavesKernel k) (k_proc_schedule_on_kernel_handling_finished saved k)
unfolding k_proc_schedule_on_kernel_handling_finished k_proc_switch switched
handling_finished-Leaves saved k =
    let p = k.next_proc_id in
    let u = k.p_tab (index p) in
    Ensures-if (not (leb_ℤ (pos 0) p)) (λ _. ensures_ok (inl refl))
      λ _.
        Ensures-if (not (leb_ℤ (pos 0) p)) (λ _. ensures_oops)
          λ _.
            Ensures-if (leb_ℤ (pos max_proc) p) (λ _. ensures_oops)
              λ _.
                Ensures-if (not (is_running k.kernel_state)) (λ _. ensures_oops)
                  λ _.
                    Ensures-if (not (is_ready u.state)) (λ _. ensures_oops)
                      λ _.
                        Ensures-if (is_locked u.lock_mask) (λ _. ensures_oops)
                          λ _. ensures_ok (inr refl)

hatched-Same : (p : ℤ) (entry heap : ℕ) (k : Kernel) → SameSchedule k (hatched p entry heap k)
unfolding hatched unsafe_set_proc_params unsafe_add_proc_param with_entry set_cpu
hatched-Same p entry heap k = refl

if-Hatches :
    (k k' : Kernel) (b : Bool)
    → SameSchedule k k'
    → Hatches k (if b then sched_evaluate_run k' else k')
unfolding sched_evaluate_run
if-Hatches k k' true s =
    inr (ap (λ (x : ProcState × ℤ × ℤ × ℤ). (x.0, x.1, proc_select k'.p_tab x.3, x.3)) s)
if-Hatches k k' false s = inl s

pub k_proc_hatch-Hatches :
    (entry heap : ℕ) (p : ℤ) (k : Kernel) → Ensures (Hatches k) (k_proc_hatch entry heap p k)
unfolding k_proc_hatch k_proc_schedule_did_hatch
k_proc_hatch-Hatches entry heap p k =
    let k' = hatched p entry heap k in
    Ensures-if (out_of_range p) (λ _. ensures_oops)
      λ _.
        Ensures-if (not (is_new (k.p_tab (index p)).state)) (λ _. ensures_oops)
          λ _.
            Ensures-if (entry == 0) (λ _. ensures_oops)
              λ _.
                Ensures-if (heap == 0) (λ _. ensures_oops)
                  λ _.
                    Ensures-if (not (leb_ℤ (pos 0) p) || leb_ℤ (pos max_proc) p) (λ _. ensures_oops)
                      λ _.
                        Ensures-if (not (is_ready (k'.p_tab (index p)).state)) (λ _. ensures_oops)
                          λ _. ensures_ok (
                            if-Hatches k k' (not (leb_ℤ (pos 0) k'.next_proc_id))
                              (hatched-Same p entry heap k))
