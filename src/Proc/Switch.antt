-- ===== src/Proc/Switch.antt =====
-- src/system/kernel/hal/proc/proc.c and src/system/kernel/schedule/schedule.c: from the kernel to a process and back.
-- The stack frame that an interrupt or system call leaves is the record of the registers in it.
use gunw_os.Prelude.Outcome.{Outcome, ok, oops}
use gunw_os.Prelude.Int.{ℤ, pos, leb_ℤ, index}
use gunw_os.Prelude.{ℕ, not, ◌&&◌, ◌∷◌, ◌==◌, if◌then◌else◌}
use gunw_os.Runloop.{max_proc}
use gunw_os.Kernel.{
  Kernel, kernel_proc_id, ps_ready, ps_running, is_locked, CpuState, ProcessUser, paging_switch,
  set_process,
}
use gunw_os.Schedule.{is_ready}
use gunw_os.Proc.{is_running, is_blocked, is_finished}

-- What `k_proc_switch` writes.
unfoldable pub switched : ℤ → CpuState → Kernel → Kernel
switched p saved k =
    record (set_process k (index p) (record (k.p_tab (index p)) { state = ps_running })) {
      kernel_state = ps_ready;
      kernel_cpu = saved;
      proc_current = p;
      effects = paging_switch p ∷ k.effects;
    }

-- `k_proc_switch`. `saved` are the registers that the kernel saves for its own return; the result is
-- the state that `iret` and the pops before it load.
unfoldable pub k_proc_switch : ℤ → CpuState → Kernel → Outcome (CpuState × Kernel)
unfolding switched
k_proc_switch p saved k =
    if not (leb_ℤ (pos 0) p)
    then oops
    else if leb_ℤ (pos max_proc) p
    then oops
    else if not (is_running k.kernel_state)
    then oops
    else if not (is_ready (k.p_tab (index p)).state)
    then oops
    else if is_locked (k.p_tab (index p)).lock_mask
    then oops
    else ok ((k.p_tab (index p)).cpu_state, switched p saved k)

-- The process that has been left: its registers are those of the frame. A finished one is let be.
unfoldable pub left_process : CpuState → ProcessUser → ProcessUser
left_process frame u =
    if is_finished u.state
    then u
    else record u { state = if is_running u.state then ps_ready else u.state; cpu_state = frame }

-- What `k_proc_switchToKernelIfNeeded` writes.
unfoldable pub entered : ℤ → CpuState → Kernel → Kernel
unfolding left_process
entered p frame k = record (set_process k (index p) (left_process frame (k.p_tab (index p)))) {
  kernel_state = ps_running;
  proc_current = kernel_proc_id;
}

-- `k_proc_switchToKernelIfNeeded`, `ref_esp` being the address of the frame; the result is the frame
-- afterwards, from which the interrupt returns.
unfoldable pub k_proc_switch_to_kernel_if_needed :
    ℕ → ℤ → CpuState → Kernel → Outcome (CpuState × Kernel)
unfolding entered
k_proc_switch_to_kernel_if_needed ref_esp p frame k =
    let u = k.p_tab (index p) in
    if is_running k.kernel_state
    then ok (frame, k)
    else if not (leb_ℤ (pos 0) p)
    then oops
    else if leb_ℤ (pos max_proc) p
    then oops
    else if not (is_running u.state) && not (is_blocked u.state) && not (is_finished u.state)
    then oops
    else if not (is_ready k.kernel_state)
    then oops
    else if ref_esp == 0
    then oops
    else ok (k.kernel_cpu, entered p frame k)

-- `k_proc_schedule_intNeedsKernelHandling`
unfoldable pub k_proc_schedule_int_needs_kernel_handling :
    ℕ → CpuState → Kernel → Outcome (CpuState × Kernel)
unfolding k_proc_switch_to_kernel_if_needed
k_proc_schedule_int_needs_kernel_handling ref_esp frame k =
    k_proc_switch_to_kernel_if_needed ref_esp k.next_proc_id frame k

-- `k_proc_schedule_onKernelHandlingFinished` up to the switch: the state to go on from is that of
-- the chosen process, or the kernel's own where there is none to run.
unfoldable pub k_proc_schedule_on_kernel_handling_finished :
    CpuState → Kernel → Outcome (CpuState × Kernel)
unfolding k_proc_switch
k_proc_schedule_on_kernel_handling_finished saved k =
    if not (leb_ℤ (pos 0) k.next_proc_id)
    then ok (saved, k)
    else k_proc_switch k.next_proc_id saved (record k { execution_time_counter = 0 })

-- The assignment behind the switch, which takes place when the kernel is entered again: the saved
-- instruction pointer of the kernel is the end of `k_proc_switch`.
unfoldable pub on_kernel_return : Kernel → Kernel
on_kernel_return k = record k { last_proc_id = k.next_proc_id }
