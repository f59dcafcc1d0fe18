-- ===== src/Kernel.antt =====
-- The state that hal/proc/proc.c, schedule/schedule.c, queue/queue.c and runloop/runloop.c of the
-- kernel share, and the types of hal/proc/proc.h and hal/cpu/cpu.h.
-- Interrupt handlers and the queue's loop run one at a time: a critical section has no effect here.
use gunw_os.Prelude.Outcome.{Outcome, ok, ◌>>=◌}
use gunw_os.Prelude.Int.{ℤ, pos, negsuc, leb_ℤ}
use gunw_os.Prelude.{ℕ, ◌-◌, Bool, true, false, ◌&&◌, ◌||◌, List, Array, update}
use gunw_os.Queue.{Queue}
use gunw_os.Runloop.{RunLoops, max_proc}

-- `KERNEL_PROC_ID` and `NONE_PROC_ID`
abbrev pub kernel_proc_id : ℤ
kernel_proc_id = negsuc 0

abbrev pub none_proc_id : ℤ
none_proc_id = negsuc 1

-- `enum k_proc_state`
pub data ProcState : Type 0 where
  ps_none ps_new ps_ready ps_running ps_blocked ps_finished : ProcState

-- `enum k_proc_lockType`: the two bits of a lock mask.
pub data LockType : Type 0 where
  plt_event plt_ipc : LockType

pub record LockMask : Type 0 where
  pub event : Bool
  pub ipc : Bool

abbrev pub no_lock : LockMask
no_lock = record { event = false; ipc = false }

-- `mask |= type`, `mask &= ~type`, and the test of a mask for not being 0.
abbrev pub with_lock : LockMask → LockType → LockMask
with_lock m plt_event = record m { event = true }
with_lock m plt_ipc = record m { ipc = true }

abbrev pub without_lock : LockMask → LockType → LockMask
without_lock m plt_event = record m { event = false }
without_lock m plt_ipc = record m { ipc = false }

abbrev pub is_locked : LockMask → Bool
is_locked m = m.event || m.ipc

-- `enum k_proc_error`
pub data ProcError : Type 0 where
  pe_none pe_limit_reached pe_access_violation pe_operation_failed pe_invalid_parameter
        pe_invalid_state pe_ignored pe_unknown :
      ProcError

-- `struct k_cpu_state`
pub record CpuState : Type 0 where
  pub eax : ℕ
  pub ecx : ℕ
  pub edx : ℕ
  pub ebx : ℕ
  pub esp : ℕ
  pub ebp : ℕ
  pub esi : ℕ
  pub edi : ℕ
  pub eip : ℕ
  pub cs : ℕ
  pub ds : ℕ
  pub es : ℕ
  pub fs : ℕ
  pub gs : ℕ
  pub ss : ℕ
  pub eflags : ℕ

abbrev pub zero_cpu : CpuState
zero_cpu = record {
  eax = 0;
  ecx = 0;
  edx = 0;
  ebx = 0;
  esp = 0;
  ebp = 0;
  esi = 0;
  edi = 0;
  eip = 0;
  cs = 0;
  ds = 0;
  es = 0;
  fs = 0;
  gs = 0;
  ss = 0;
  eflags = 0;
}

-- `struct process_user`, its `struct k_proc_process` unfolded into the first two fields.
pub record ProcessUser : Type 0 where
  pub state : ProcState
  pub dpl : ℕ
  pub cpu_state : CpuState
  pub lock_mask : LockMask

abbrev pub zero_process : ProcessUser
zero_process = record { state = ps_none; dpl = 0; cpu_state = zero_cpu; lock_mask = no_lock }

-- The kernel functions that are queued by address.
pub data Task : Type 0 where
  sched_evaluate proc_cleanup dev_proc_cleanup ipc_proc_cleanup runloop_proc_cleanup
        ipc_unlock_if_able :
      Task

-- What is done to user memory and to the page tables, in order, newest first.
pub data Effect : Type 0 where
  write_user : ℤ → ℕ → ℕ → Effect
  mem_proc_cleanup : ℤ → Effect
  paging_switch : ℤ → Effect
  -- a write in the page tables that are loaded, and a copy from one process to another
  write_current : ℕ → ℕ → Effect
  mem_copy : ℤ → ℕ → ℤ → ℕ → ℕ → Effect

pub record Kernel : Type 0 where
  -- `kernelProc`
  pub kernel_state : ProcState
  pub kernel_cpu : CpuState
  -- `pTab` and `procCurrent`
  pub p_tab : Array ProcessUser
  pub proc_current : ℤ
  -- schedule.c
  pub execution_time_counter : ℕ
  pub last_proc_id : ℤ
  pub next_proc_id : ℤ
  -- queue.c and runloop.c
  pub queue : Queue Task
  pub run_loops : RunLoops
  pub effects : List Effect

-- `procId <= KERNEL_PROC_ID || procId >= MAX_PROC`, which the routines on user processes refuse.
abbrev pub out_of_range : ℤ → Bool
out_of_range p = leb_ℤ p kernel_proc_id || leb_ℤ (pos max_proc) p

-- `k_proc_idIsUser`
unfoldable pub k_proc_id_is_user : ℤ → Bool
k_proc_id_is_user p = leb_ℤ (pos 0) p && leb_ℤ p (pos (max_proc - 1))

unfoldable pub on_queue : (Queue Task → Outcome (Queue Task)) → Kernel → Outcome Kernel
on_queue f k = f k.queue >>= λ q. ok (record k { queue = q })

abbrev pub set_process : Kernel → ℕ → ProcessUser → Kernel
set_process k n u = record k { p_tab = update k.p_tab n u }

-- The registers saved for one process, exchanged.
unfoldable pub set_cpu : Kernel → ℕ → CpuState → Kernel
set_cpu k n c = set_process k n (record (k.p_tab n) { cpu_state = c })
