-- ===== src/Proc/Invariant.antt =====
-- The process table of src/system/kernel/hal/proc/proc.c: which states go with which locks, and who runs.
use gunw_os.Prelude.Outcome.{
  Outcome, Ensures, ensures_ok, ensures_oops, Ensures-if, Ensures-bind, Ensures-then,
  Ensures-weaken,
}
use gunw_os.Prelude.Int.{ℤ, pos, index}
use gunw_os.Prelude.{ℕ, ◌≡◌, refl, true, false, not, ◌&&◌, ◌||◌, Array, update, arith, update-all}
use gunw_os.Queue.{Queue, k_que_dispatch, k_que_dispatch_arch}
use gunw_os.Kernel.{
  Kernel, Task, sched_evaluate, proc_cleanup, ProcState, ps_none, ps_new, ps_ready, ps_running,
  ps_blocked, ps_finished, LockType, plt_event, plt_ipc, LockMask, with_lock, without_lock,
  is_locked, ProcessUser, zero_process, out_of_range, on_queue,
}
use gunw_os.Schedule.{k_proc_schedule_process_state_did_change, is_ready, unsigned}
use gunw_os.Proc.{
  is_running, is_blocked, is_process_alive, k_proc_lock, k_proc_unlock, k_proc_cleanup, k_proc_stop,
}

-- A blocked process holds a lock; one that is about to start, ready or running holds none.
abbrev pub LockOk : ProcState → LockMask → Type 0
LockOk ps_none m = is_locked m ≡ false
LockOk ps_new m = is_locked m ≡ false
LockOk ps_ready m = is_locked m ≡ false
LockOk ps_running m = is_locked m ≡ false
LockOk ps_blocked m = is_locked m ≡ true
LockOk ps_finished m = Unit {0}

-- A running process is the current one, and the kernel waits meanwhile.
abbrev pub RunOk : ProcState → ℕ → ℤ → ProcState → Type 0
RunOk ps_running n current kernel_state = (current ≡ pos n) × (kernel_state ≡ ps_ready)
RunOk s n current kernel_state = Unit {0}

pub record IsConsistent (tab : Array ProcessUser) (current : ℤ) (kernel_state : ProcState)
    : Type 0 where
  pub locks : (n : ℕ) → LockOk (tab n).state (tab n).lock_mask
  pub runs : (n : ℕ) → RunOk (tab n).state n current kernel_state

abbrev pub IsValid : Kernel → Type 0
IsValid k = IsConsistent k.p_tab k.proc_current k.kernel_state

module _ (tab : Array ProcessUser) (current : ℤ) (kernel_state : ProcState) where
  -- One entry exchanged.
  pub update-IsConsistent :
      (n : ℕ) (u : ProcessUser)
      → LockOk u.state u.lock_mask
      → RunOk u.state n current kernel_state
      → IsConsistent tab current kernel_state
      → IsConsistent (update tab n u) current kernel_state
  update-IsConsistent n u l r v = record {
    locks = update-all (λ _ w. LockOk w.state w.lock_mask) tab n u l v.locks;
    runs = update-all (λ m w. RunOk w.state m current kernel_state) tab n u r v.runs;
  }

-- What queuing a call leaves alone.
pub record SameTable (k k' : Kernel) : Type 0 where
  pub same_tab : k'.p_tab ≡ k.p_tab
  pub same_current : k'.proc_current ≡ k.proc_current
  pub same_kernel_state : k'.kernel_state ≡ k.kernel_state

pub SameTable-IsValid : (k k' : Kernel) → SameTable k k' → IsValid k → IsValid k'
SameTable-IsValid k k' s v = rw (s.same_tab, s.same_current, s.same_kernel_state) v

-- Queuing a call keeps the table.
on_queue-SameTable :
    (f : Queue Task → Outcome (Queue Task)) (k : Kernel) → Ensures (SameTable k) (on_queue f k)
unfolding on_queue
on_queue-SameTable f k =
    Ensures-then (f k.queue)
      λ q. ensures_ok (record { same_tab = refl; same_current = refl; same_kernel_state = refl })

pub on_queue-IsValid :
    (f : Queue Task → Outcome (Queue Task)) (k : Kernel)
    → IsValid k
    → Ensures IsValid (on_queue f k)
on_queue-IsValid f k v =
    Ensures-weaken (λ k' s. SameTable-IsValid k k' s v) (on_queue-SameTable f k)

pub did_change-IsValid :
    (k : Kernel) → IsValid k → Ensures IsValid (k_proc_schedule_process_state_did_change k)
unfolding k_proc_schedule_process_state_did_change
did_change-IsValid k v = on_queue-IsValid (k_que_dispatch sched_evaluate) _ v

lock_blocked :
    (s : ProcState) (m : LockMask) (t : LockType) → is_blocked s ≡ true → LockOk s (with_lock m t)
lock_blocked ps_blocked m plt_event b = ground arith
lock_blocked ps_blocked m plt_ipc b = ground arith
lock_blocked ps_none m t b = cc
lock_blocked ps_new m t b = cc
lock_blocked ps_ready m t b = cc
lock_blocked ps_running m t b = cc
lock_blocked ps_finished m t b = tt

with_lock-is_locked : (m : LockMask) (t : LockType) → is_locked (with_lock m t) ≡ true
with_lock-is_locked m plt_event = ground arith
with_lock-is_locked m plt_ipc = ground arith

-- Locking a process keeps the table consistent.
pub k_proc_lock-IsValid :
    (p : ℤ) (t : LockType) (k : Kernel) → IsValid k → Ensures IsValid (k_proc_lock p t k)
unfolding k_proc_lock
k_proc_lock-IsValid p t k v =
    let n = index p in
    let u = k.p_tab n in
    Ensures-if (out_of_range p) (λ _. ensures_oops)
      λ _.
        Ensures-if (is_blocked u.state)
          (λ b. ensures_ok (
            update-IsConsistent k.p_tab k.proc_current k.kernel_state n _
              (lock_blocked u.state u.lock_mask t b) (v.runs n) v))
          (λ _.
            Ensures-if (not (is_ready u.state) && not (is_running u.state)) (λ _. ensures_oops)
              λ _. did_change-IsValid _ (
                update-IsConsistent k.p_tab k.proc_current k.kernel_state n _
                  (with_lock-is_locked u.lock_mask t) tt v))

lock_ready :
    (s : ProcState) (m : LockMask) (t : LockType)
    → LockOk s m
    → (not (is_blocked s) || is_locked (without_lock m t)) ≡ true
    → LockOk s (without_lock m t)
lock_ready ps_blocked m t l b = b
lock_ready ps_none m plt_event l b = ground arith
lock_ready ps_none m plt_ipc l b = ground arith
lock_ready ps_new m plt_event l b = ground arith
lock_ready ps_new m plt_ipc l b = ground arith
lock_ready ps_ready m plt_event l b = ground arith
lock_ready ps_ready m plt_ipc l b = ground arith
lock_ready ps_running m plt_event l b = ground arith
lock_ready ps_running m plt_ipc l b = ground arith
lock_ready ps_finished m t l b = tt

-- Unlocking a process keeps the table consistent.
pub k_proc_unlock-IsValid :
    (p : ℤ) (t : LockType) (k : Kernel) → IsValid k → Ensures IsValid (k_proc_unlock p t k)
unfolding k_proc_unlock
k_proc_unlock-IsValid p t k v =
    let n = index p in
    let u = k.p_tab n in
    Ensures-if (out_of_range p) (λ _. ensures_oops)
      λ _.
        Ensures-if (not (is_blocked u.state) || is_locked (without_lock u.lock_mask t))
          (λ b. ensures_ok (
            update-IsConsistent k.p_tab k.proc_current k.kernel_state n _
              (lock_ready u.state u.lock_mask t (v.locks n) b) (v.runs n) v))
          (λ b.
            did_change-IsValid _
              (update-IsConsistent k.p_tab k.proc_current k.kernel_state n _ (ground arith) tt v))

pub k_proc_cleanup-IsValid : (p : ℤ) (k : Kernel) → IsValid k → Ensures IsValid (k_proc_cleanup p k)
unfolding k_proc_cleanup
k_proc_cleanup-IsValid p k v =
    Ensures-if (out_of_range p) (λ _. ensures_oops)
      λ _.
        Ensures-if (is_process_alive (k.p_tab (index p)).state) (λ _. ensures_oops)
          λ _. ensures_ok (
            update-IsConsistent k.p_tab k.proc_current k.kernel_state (index p) zero_process refl tt
              v)

pub k_proc_stop-IsValid : (p : ℤ) (k : Kernel) → IsValid k → Ensures IsValid (k_proc_stop p k)
unfolding k_proc_stop
k_proc_stop-IsValid p k v =
    Ensures-if (out_of_range p) (λ _. ensures_oops)
      λ _.
        Ensures-if (not (is_process_alive (k.p_tab (index p)).state)) (λ _. ensures_oops)
          λ _.
            Ensures-bind {Q = IsValid}
              (on_queue-IsValid (k_que_dispatch_arch proc_cleanup (unsigned p)) _ (
                update-IsConsistent k.p_tab k.proc_current k.kernel_state (index p)
                  (record (k.p_tab (index p)) { state = ps_finished }) tt tt v))
              did_change-IsValid
