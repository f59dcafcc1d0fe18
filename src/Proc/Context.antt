-- ===== src/Proc/Context.antt =====
-- src/system/kernel/hal/proc/proc.c: processes enter the table, start, run and are left again.
use gunw_os.Prelude.Outcome.{Answer, done, fails, Ensures, ensures_ok, ensures_oops, Ensures-if}
use gunw_os.Prelude.Int.{ℤ, pos, negsuc, leb_ℤ, index}
use gunw_os.Prelude.{
  ℕ, ◌+◌, ◌-◌, ◌%◌, ◌^◌, ◌≡◌, refl, ◌⊎◌, inl, inr, Bool, true, false, not, ◌&&◌, ◌||◌, Array,
  update, arith, update-all, update_self, update_ne, ◌∙◌, sym, ap, subst, ltb→lt, if◌then◌else◌,
  ltb, first, first_hit, ◌==◌, ℕ_discrete, ◌≢◌,
}
use gunw_os.Runloop.{max_proc}
use gunw_os.Kernel.{
  Kernel, kernel_proc_id, ProcState, ps_none, ps_new, ps_ready, ps_running, ps_blocked, ps_finished,
  LockMask, is_locked, ProcError, CpuState, ProcessUser, set_cpu, out_of_range,
}
use gunw_os.Schedule.{k_proc_schedule_did_hatch, sched_evaluate_run, is_ready}
use gunw_os.Proc.{
  is_none, is_new, is_running, is_blocked, is_finished, k_proc_spawn, k_proc_hatch, hatched,
  unsafe_set_proc_params, unsafe_add_proc_param, with_entry,
}
use gunw_os.Proc.Switch.{
  k_proc_switch, switched, entered, k_proc_switch_to_kernel_if_needed, left_process,
}
use gunw_os.Proc.Invariant.{LockOk, RunOk, IsConsistent, IsValid, update-IsConsistent}

lock_new : (s : ProcState) (m : LockMask) → LockOk s m → is_none s ≡ true → is_locked m ≡ false
lock_new ps_none m l b = l
lock_new ps_new m l b = cc
lock_new ps_ready m l b = cc
lock_new ps_running m l b = cc
lock_new ps_blocked m l b = cc
lock_new ps_finished m l b = cc

lock_hatched : (s : ProcState) (m : LockMask) → LockOk s m → is_new s ≡ true → is_locked m ≡ false
lock_hatched ps_none m l b = cc
lock_hatched ps_new m l b = l
lock_hatched ps_ready m l b = cc
lock_hatched ps_running m l b = cc
lock_hatched ps_blocked m l b = cc
lock_hatched ps_finished m l b = cc

-- What an answer leaves behind.
abbrev pub Answered : Answer ProcError (ℤ × Kernel) → Type 0
Answered (done (p, k)) = IsValid k
Answered (fails e) = Unit {0}

pub k_proc_spawn-IsValid : (b : Bool) (k : Kernel) → IsValid k → Ensures Answered (k_proc_spawn b k)
unfolding k_proc_spawn
k_proc_spawn-IsValid b k v =
    let i = first (λ i. is_none (k.p_tab i).state) 0 max_proc in
    Ensures-if (not b) (λ _. ensures_oops)
      λ _.
        Ensures-if (ltb i max_proc)
          (λ h. ensures_ok (
            update-IsConsistent k.p_tab k.proc_current k.kernel_state i _
              (lock_new (k.p_tab i).state (k.p_tab i).lock_mask (v.locks i)
                (first_hit (λ i. is_none (k.p_tab i).state) 0 max_proc (ltb→lt i max_proc h)))
              tt v))
          (λ _. ensures_ok tt)

-- Writing the registers of a process keeps the table consistent, and its locks.
abbrev Keeps : ℕ → Kernel → Kernel → Type 0
Keeps n k k' = ((k'.p_tab n).lock_mask ≡ (k.p_tab n).lock_mask) × (IsValid k → IsValid k')

Keeps-trans : (n : ℕ) (k k' k'' : Kernel) → Keeps n k k' → Keeps n k' k'' → Keeps n k k''
Keeps-trans n k k' k'' (e, f) (e', f') = (e' ∙ e, λ v. f' (f v))

set_cpu-Keeps : (k : Kernel) (n : ℕ) (c : CpuState) → Keeps n k (set_cpu k n c)
unfolding set_cpu
set_cpu-Keeps k n c = (
  ap (λ u. u.lock_mask) (update_self k.p_tab n _),
  λ v. update-IsConsistent k.p_tab k.proc_current k.kernel_state n _ (v.locks n) (v.runs n) v,
)

add_param-Keeps :
    (p : ℤ) (param : ℕ) (k : Kernel) → Keeps (index p) k (unsafe_add_proc_param p param k)
unfolding unsafe_add_proc_param
add_param-Keeps p param k =
    let (e, f) = set_cpu-Keeps k (index p) _ in
    (e, λ v. record { locks = (f v).locks; runs = (f v).runs })

set_params-Keeps :
    (p : ℤ) (heap : ℕ) (k : Kernel) → Keeps (index p) k (unsafe_set_proc_params p heap k)
unfolding unsafe_set_proc_params
set_params-Keeps p heap k =
    let k' = unsafe_add_proc_param p heap k in
    let cpu = (k'.p_tab (index p)).cpu_state in
    let c = record cpu { esp = (cpu.esp + 2 ^ 32 - 4) % 2 ^ 32 } in
    Keeps-trans (index p) k k' (set_cpu k' (index p) c) (add_param-Keeps p heap k)
      (set_cpu-Keeps k' (index p) c)

with_entry-Keeps : (p : ℤ) (entry : ℕ) (k : Kernel) → Keeps (index p) k (with_entry p entry k)
unfolding with_entry
with_entry-Keeps p entry k = set_cpu-Keeps k (index p) _

hatched-IsValid :
    (p : ℤ) (entry heap : ℕ) (k : Kernel)
    → is_new (k.p_tab (index p)).state ≡ true
    → IsValid k
    → IsValid (hatched p entry heap k)
unfolding hatched
hatched-IsValid p entry heap k new v =
    let k' = unsafe_set_proc_params p heap (with_entry p entry k) in
    let (e, f) =
      Keeps-trans _ k (with_entry p entry k) k' (with_entry-Keeps p entry k)
        (set_params-Keeps p heap (with_entry p entry k)) in
    let unlocked = lock_hatched _ _ (v.locks (index p)) new in
    update-IsConsistent k'.p_tab k'.proc_current k'.kernel_state (index p)
      (record (k'.p_tab (index p)) { state = ps_ready }) (ap (λ m. is_locked m) e ∙ unlocked) tt
      (f v)

did_hatch-IsValid :
    (p : ℤ) (k : Kernel) → IsValid k → Ensures IsValid (k_proc_schedule_did_hatch p k)
unfolding k_proc_schedule_did_hatch sched_evaluate_run
did_hatch-IsValid p k v =
    Ensures-if (not (leb_ℤ (pos 0) p) || leb_ℤ (pos max_proc) p) (λ _. ensures_oops)
      λ _.
        Ensures-if (not (is_ready (k.p_tab (index p)).state)) (λ _. ensures_oops)
          λ _. ensures_ok (same (not (leb_ℤ (pos 0) k.next_proc_id)))
  where
    same : (b : Bool) → IsValid (if b then sched_evaluate_run k else k)
    same true = v
    same false = v

pub k_proc_hatch-IsValid :
    (entry heap : ℕ) (p : ℤ) (k : Kernel)
    → IsValid k
    → Ensures IsValid (k_proc_hatch entry heap p k)
unfolding k_proc_hatch
k_proc_hatch-IsValid entry heap p k v =
    Ensures-if (out_of_range p) (λ _. ensures_oops)
      λ _.
        Ensures-if (not (is_new (k.p_tab (index p)).state)) (λ _. ensures_oops)
          λ new.
            Ensures-if (entry == 0) (λ _. ensures_oops)
              λ _.
                Ensures-if (heap == 0) (λ _. ensures_oops)
                  λ _. did_hatch-IsValid p _ (hatched-IsValid p entry heap k (ground arith) v)

pos-index : (p : ℤ) → not (leb_ℤ (pos 0) p) ≡ false → p ≡ pos (index p)
pos-index (pos n) h = refl
pos-index (negsuc n) h = absurd (cc)

not_running :
    (s : ProcState) (n : ℕ) (c : ℤ) (ks : ProcState) (c' : ℤ) (ks' : ProcState)
    → is_running ks ≡ true
    → RunOk s n c ks
    → RunOk s n c' ks'
not_running ps_running n c ks c' ks' r (e, f) = absurd (cc)
not_running ps_none n c ks c' ks' r h = tt
not_running ps_new n c ks c' ks' r h = tt
not_running ps_ready n c ks c' ks' r h = tt
not_running ps_blocked n c ks c' ks' r h = tt
not_running ps_finished n c ks c' ks' r h = tt

-- The process that the kernel leaves is consistent with the kernel running.
abbrev LeftOk : ProcessUser → ℕ → Type 0
LeftOk w n = LockOk w.state w.lock_mask × RunOk w.state n kernel_proc_id ps_running

left_state-Ok :
    (s : ProcState) (m : LockMask) (d : ℕ) (c frame : CpuState) (n : ℕ)
    → LockOk s m
    → LeftOk (left_process frame (record { state = s; dpl = d; cpu_state = c; lock_mask = m })) n
unfolding left_process
left_state-Ok ps_none m d c frame n l = (l, tt)
left_state-Ok ps_new m d c frame n l = (l, tt)
left_state-Ok ps_ready m d c frame n l = (l, tt)
left_state-Ok ps_running m d c frame n l = (l, tt)
left_state-Ok ps_blocked m d c frame n l = (l, tt)
left_state-Ok ps_finished m d c frame n l = (tt, tt)

-- The registers at hand, and the kernel.
abbrev pub Resumed : CpuState × Kernel → Type 0
Resumed (cpu, k) = IsValid k

-- All other processes wait while the kernel runs.
none_running :
    (tab : Array ProcessUser) (c c' : ℤ) (ks ks' : ProcState)
    → is_running ks ≡ true
    → IsConsistent tab c ks
    → IsConsistent tab c' ks'
none_running tab c c' ks ks' r v = record {
  locks = v.locks;
  runs = λ n. not_running (tab n).state n c ks c' ks' r (v.runs n);
}

pub k_proc_switch-IsValid :
    (p : ℤ) (saved : CpuState) (k : Kernel) → IsValid k → Ensures Resumed (k_proc_switch p saved k)
unfolding k_proc_switch switched
k_proc_switch-IsValid p saved k v =
    let u = k.p_tab (index p) in
    Ensures-if (not (leb_ℤ (pos 0) p)) (λ _. ensures_oops)
      λ user.
        Ensures-if (leb_ℤ (pos max_proc) p) (λ _. ensures_oops)
          λ _.
            Ensures-if (not (is_running k.kernel_state)) (λ _. ensures_oops)
              λ runs.
                Ensures-if (not (is_ready u.state)) (λ _. ensures_oops)
                  λ _.
                    Ensures-if (is_locked u.lock_mask) (λ _. ensures_oops)
                      λ unlocked. ensures_ok (
                        update-IsConsistent k.p_tab p ps_ready (index p)
                          (record u { state = ps_running }) unlocked (pos-index p user, refl)
                          (none_running k.p_tab k.proc_current p k.kernel_state ps_ready
                            (ground arith) v))

-- Only the current process runs: any other one is at rest.
rests :
    (s : ProcState) (n j : ℕ) (ks : ProcState)
    → n ≢ j
    → RunOk s j (pos n) ks
    → RunOk s j kernel_proc_id ps_running
rests ps_running n j ks ne (e, f) = ground arith
rests ps_none n j ks ne r = tt
rests ps_new n j ks ne r = tt
rests ps_ready n j ks ne r = tt
rests ps_blocked n j ks ne r = tt
rests ps_finished n j ks ne r = tt

leave-IsConsistent :
    (tab : Array ProcessUser) (n : ℕ) (frame : CpuState) (ks : ProcState)
    → IsConsistent tab (pos n) ks
    → IsConsistent (update tab n (left_process frame (tab n))) kernel_proc_id ps_running
leave-IsConsistent tab n frame ks v =
    let w = left_process frame (tab n) in
    let (l, r) =
      left_state-Ok (tab n).state (tab n).lock_mask (tab n).dpl (tab n).cpu_state frame n
        (v.locks n) in
    record {
      locks = update-all (λ _ w. LockOk w.state w.lock_mask) tab n w l v.locks;
      runs = λ j. elim (ℕ_discrete n j) [
        | yes e ↦
            subst (λ m. RunOk (update tab n w m).state m kernel_proc_id ps_running) e
              (subst (λ x. RunOk x.state n kernel_proc_id ps_running) (sym (update_self tab n w)) r)
        | no ne ↦
            subst (λ x. RunOk x.state j kernel_proc_id ps_running) (sym (update_ne tab n j w ne))
              (rests (tab j).state n j ks ne (v.runs j))
      ];
    }

-- The kernel runs already, or it is entered with the identifier of the current process.
pub switch_to_kernel-IsValid :
    (ref_esp : ℕ) (p : ℤ) (frame : CpuState) (k : Kernel)
    → IsValid k
    → (is_running k.kernel_state ≡ true) ⊎ (k.proc_current ≡ p)
    → Ensures Resumed (k_proc_switch_to_kernel_if_needed ref_esp p frame k)
unfolding k_proc_switch_to_kernel_if_needed entered
switch_to_kernel-IsValid ref_esp p frame k v h =
    let u = k.p_tab (index p) in
    Ensures-if (is_running k.kernel_state) (λ _. ensures_ok v)
      λ waits.
        Ensures-if (not (leb_ℤ (pos 0) p)) (λ _. ensures_oops)
          λ user.
            Ensures-if (leb_ℤ (pos max_proc) p) (λ _. ensures_oops)
              λ _.
                Ensures-if
                  (not (is_running u.state)
                    && not (is_blocked u.state)
                    && not (is_finished u.state))
                  (λ _. ensures_oops)
                  λ _.
                    Ensures-if (not (is_ready k.kernel_state)) (λ _. ensures_oops)
                      λ _.
                        Ensures-if (ref_esp == 0) (λ _. ensures_oops)
                          λ _. ensures_ok (
                            leave-IsConsistent k.p_tab (index p) frame k.kernel_state (
                              subst (λ c. IsConsistent k.p_tab c k.kernel_state)
                                (current h waits ∙ pos-index p user) v))
  where
    current : {b : Bool} {c : ℤ} → (b ≡ true) ⊎ (c ≡ p) → b ≡ false → c ≡ p
    current (inl r) w = absurd (cc)
    current (inr e) w = e
