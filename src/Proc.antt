-- ===== src/Proc.antt =====
-- src/system/kernel/hal/proc/proc.c: the process table.
pub mod Switch
pub mod Invariant
pub mod Context
pub mod Resume
pub mod Scheduled
pub mod Callback
pub mod Reach
use Prim.Native.Nat.{bit_or}
use gunw_os.Prelude.Outcome.{Outcome, ok, oops, hang, fault, ◌>>=◌, Answer, done, fails}
use gunw_os.Prelude.Int.{ℤ, pos, negsuc, leb_ℤ, eq_ℤ, index}
use gunw_os.Prelude.{
  ℕ, ◌+◌, ◌-◌, ◌*◌, ◌%◌, ◌^◌, Bool, true, false, not, ◌&&◌, ◌||◌, Option, none, some, List, ◌∷◌,
  Array, update, first, ltb, ◌==◌, if◌then◌else◌,
}
use gunw_os.Queue.{k_que_dispatch_arch}
use gunw_os.Runloop.{
  max_proc, EventFormat, gef_none, gef_void, gef_ptr, RunLoopDispatchItem, RunLoopError, grle_full,
  grle_empty, k_runloop_reserve, k_runloop_dispatch,
}
use gunw_os.Kernel.{
  Kernel, kernel_proc_id, ProcState, ps_none, ps_new, ps_ready, ps_running, ps_blocked, ps_finished,
  LockType, plt_event, plt_ipc, with_lock, without_lock, is_locked, ProcError, pe_none,
  pe_limit_reached, pe_operation_failed, pe_invalid_state, pe_ignored, pe_unknown, CpuState,
  zero_cpu, ProcessUser, zero_process, proc_cleanup, Effect, write_user, mem_proc_cleanup,
  out_of_range, on_queue, set_process, set_cpu,
}
use gunw_os.Schedule.{
  k_proc_schedule_did_hatch, k_proc_schedule_process_state_did_change, is_ready, unsigned,
}

-- `MEM_VIRTUAL_RESERVED_KERNEL_MEM`, of hal/mem/mem.h
abbrev pub reserved_kernel_mem : ℕ
reserved_kernel_mem = 4 * 1024 * 1024

-- `GDT_OFFSET` of the two user segments, from the layout of `struct k_gdt_gdt`, and `DPL_3`.
abbrev pub r3code : ℕ
r3code = 24

abbrev pub r3data : ℕ
r3data = 32

abbrev pub dpl_3 : ℕ
dpl_3 = 3

-- `FLAGS_INTERRUPT`
abbrev pub flags_interrupt : ℕ
flags_interrupt = 0x200

abbrev pub is_none : ProcState → Bool
is_none s = elim s [ ps_none ↦ true | _ ↦ false ]

abbrev pub is_new : ProcState → Bool
is_new s = elim s [ ps_new ↦ true | _ ↦ false ]

abbrev pub is_running : ProcState → Bool
is_running s = elim s [ ps_running ↦ true | _ ↦ false ]

abbrev pub is_blocked : ProcState → Bool
is_blocked s = elim s [ ps_blocked ↦ true | _ ↦ false ]

abbrev pub is_finished : ProcState → Bool
is_finished s = elim s [ ps_finished ↦ true | _ ↦ false ]

-- `isProcessAlive`
abbrev pub is_process_alive : ProcState → Bool
is_process_alive s = is_ready s || is_running s || is_blocked s

-- `k_proc_getInfo(procId).state`
unfoldable pub k_proc_get_state : ℤ → Kernel → Outcome ProcState
k_proc_get_state p k =
    if not (leb_ℤ kernel_proc_id p) || leb_ℤ (pos max_proc) p
    then oops
    else if eq_ℤ p kernel_proc_id
    then ok k.kernel_state
    else ok (k.p_tab (index p)).state

-- The CPU state of a new process.
abbrev pub spawned_cpu : CpuState
spawned_cpu = record zero_cpu {
  eflags = flags_interrupt;
  cs = bit_or r3code dpl_3;
  ds = bit_or r3data dpl_3;
  es = bit_or r3data dpl_3;
  fs = bit_or r3data dpl_3;
  gs = bit_or r3data dpl_3;
  ss = bit_or r3data dpl_3;
}

unfoldable pub k_proc_spawn : Bool → Kernel → Outcome (Answer ProcError (ℤ × Kernel))
k_proc_spawn proc_id_ptr k =
    if not proc_id_ptr
    then oops
    else (let i = first (λ i. is_none (k.p_tab i).state) 0 max_proc in
        if ltb i max_proc
        then ok (
            done (
              pos i,
              set_process k i
                  (record (k.p_tab i) { state = ps_new; dpl = dpl_3; cpu_state = spawned_cpu }),
            ))
        else ok (fails pe_limit_reached))

-- `unsafe_addProcParam`: one word on the user stack, written under the page tables of the process.
unfoldable pub unsafe_add_proc_param : ℤ → ℕ → Kernel → Kernel
unfolding set_cpu
unsafe_add_proc_param p param k =
    let cpu = (k.p_tab (index p)).cpu_state in
    let esp = (cpu.esp + 2 ^ 32 - 4) % 2 ^ 32 in
    record (set_cpu k (index p) (record cpu { esp = esp })) {
      effects = write_user p esp param ∷ k.effects;
    }

-- The heap address, and an empty word in place of a return address.
unfoldable pub unsafe_set_proc_params : ℤ → ℕ → Kernel → Kernel
unfolding unsafe_add_proc_param set_cpu
unsafe_set_proc_params p heap k =
    let k' = unsafe_add_proc_param p heap k in
    let cpu = (k'.p_tab (index p)).cpu_state in
    set_cpu k' (index p) (record cpu { esp = (cpu.esp + 2 ^ 32 - 4) % 2 ^ 32 })

-- The writes of `k_proc_hatch`, up to the new state.
unfoldable pub with_entry : ℤ → ℕ → Kernel → Kernel
unfolding set_cpu
with_entry p entry k =
    set_cpu k (index p)
      (record (k.p_tab (index p)).cpu_state { esp = 2 ^ 32 - reserved_kernel_mem; eip = entry })

unfoldable pub hatched : ℤ → ℕ → ℕ → Kernel → Kernel
unfolding unsafe_set_proc_params with_entry
hatched p entry heap k =
    let k' = unsafe_set_proc_params p heap (with_entry p entry k) in
    set_process k' (index p) (record (k'.p_tab (index p)) { state = ps_ready })

-- The descriptor is the entry and the heap address.
unfoldable pub k_proc_hatch : ℕ → ℕ → ℤ → Kernel → Outcome Kernel
unfolding hatched
k_proc_hatch entry heap p k =
    if out_of_range p
    then oops
    else if not (is_new (k.p_tab (index p)).state)
    then oops
    else if entry == 0
    then oops
    else if heap == 0
    then oops
    else k_proc_schedule_did_hatch p (hatched p entry heap k)

unfoldable pub k_proc_lock : ℤ → LockType → Kernel → Outcome Kernel
k_proc_lock p type k =
    if out_of_range p
    then oops
    else (let u = k.p_tab (index p) in
        let v = record u { lock_mask = with_lock u.lock_mask type } in
        if is_blocked u.state
        then ok (set_process k (index p) v)
        else if not (is_ready u.state) && not (is_running u.state)
        then oops
        else k_proc_schedule_process_state_did_change
            (set_process k (index p) (record v { state = ps_blocked })))

unfoldable pub k_proc_unlock : ℤ → LockType → Kernel → Outcome Kernel
k_proc_unlock p type k =
    if out_of_range p
    then oops
    else (let u = k.p_tab (index p) in
        let v = record u { lock_mask = without_lock u.lock_mask type } in
        if not (is_blocked u.state) || is_locked v.lock_mask
        then ok (set_process k (index p) v)
        else k_proc_schedule_process_state_did_change
            (set_process k (index p) (record v { state = ps_ready })))

unfoldable pub k_proc_cleanup : ℤ → Kernel → Outcome Kernel
k_proc_cleanup p k =
    if out_of_range p
    then oops
    else if is_process_alive (k.p_tab (index p)).state
    then oops
    else ok
        (record (set_process k (index p) zero_process) { effects = mem_proc_cleanup p ∷ k.effects })

unfoldable pub k_proc_stop : ℤ → Kernel → Outcome Kernel
k_proc_stop p k =
    if out_of_range p
    then oops
    else (let u = k.p_tab (index p) in
        if not (is_process_alive u.state)
        then oops
        else (on_queue (k_que_dispatch_arch proc_cleanup (unsigned p))
              (set_process k (index p) (record u { state = ps_finished }))
            >>= k_proc_schedule_process_state_did_change))

-- `callbackInvoke`. The routine, the sizes and the decoder make up the item; `D` are the objects
-- that the encoder reads.
module _ {D : Type 0} where
  unfoldable pub deliver_event :
      ℤ
      → RunLoopDispatchItem
      → Option D
      → Option (Option D → Array ℕ → Array ℕ)
      → Kernel
      → Outcome (ProcError × Kernel)
  deliver_event p item data_ptr encoder k = k_runloop_reserve p true k.run_loops >>= elim [
    | fails grle_full ↦ ok (pe_limit_reached, k)
    | fails _ ↦ ok (pe_operation_failed, k)
    | done (token, rs) ↦ k_runloop_dispatch p token item data_ptr encoder rs >>= λ rs'.
        k_proc_unlock p plt_event (record k { run_loops = rs' })
        >>= k_proc_schedule_process_state_did_change
        >>= λ k'. ok (pe_none, k')
  ]

  unfoldable pub callback_invoke :
      ℤ
      → EventFormat
      → ℕ
      → Option D
      → ℕ
      → ℕ
      → Option (Option D → Array ℕ → Array ℕ)
      → Option ℕ
      → Kernel
      → Outcome (ProcError × Kernel)
  unfolding deliver_event
  callback_invoke p format routine data_ptr size_bytes encoded_size_bytes encoder decoder k =
      let state = (k.p_tab (index p)).state in
      let item : RunLoopDispatchItem = record {
        format = format;
        routine = routine;
        data_size_bytes = encoded_size_bytes;
        decoded_data_size_bytes = size_bytes;
        decode = decoder;
      } in
      let delivered = deliver_event p item data_ptr encoder k in
      if out_of_range p
      then oops
      else if is_finished state
      then ok (pe_ignored, k)
      else if not (is_process_alive state)
      then oops
      else elim format [ gef_none ↦ oops | _ ↦ delivered ]

  unfoldable pub k_proc_callback_invoke_ptr :
      ℤ
      → ℕ
      → Option D
      → ℕ
      → ℕ
      → Option (Option D → Array ℕ → Array ℕ)
      → Option ℕ
      → Kernel
      → Outcome (ProcError × Kernel)
  unfolding callback_invoke
  k_proc_callback_invoke_ptr p routine data_ptr size_bytes encoded_size_bytes encoder decoder k =
      callback_invoke p gef_ptr routine data_ptr size_bytes encoded_size_bytes encoder decoder k
