-- ===== src/Proc/Resume.antt =====
-- src/system/kernel/hal/proc/proc.c and schedule/schedule.c: the choice of a process, the switch to
-- it and the way back lose nothing.
use gunw_os.Prelude.Outcome.{ok}
use gunw_os.Prelude.Int.{pos, leb_ℤ}
use gunw_os.Prelude.{
  ℕ, ◌<◌, ◌≡◌, ◌≢◌, refl, ◌⊎◌, inl, inr, true, false, not, arith, update_self, update_ne, ◌∙◌, ap,
  if◌then◌else◌,
}
use gunw_os.Runloop.{max_proc}
use gunw_os.Kernel.{
  Kernel, kernel_proc_id, ProcState, ps_none, ps_new, ps_ready, ps_running, ps_blocked, ps_finished,
  LockMask, is_locked, CpuState,
}
use gunw_os.Schedule.{sched_evaluate_run, is_ready}
use gunw_os.Schedule.RoundRobin.{IsLast, Chosen, proc_select_lem}
use gunw_os.Proc.{is_running}
use gunw_os.Proc.Switch.{
  k_proc_switch, switched, entered, left_process, k_proc_switch_to_kernel_if_needed,
  k_proc_schedule_on_kernel_handling_finished,
}
use gunw_os.Proc.Invariant.{LockOk, IsValid}

lock_ready : (s : ProcState) (m : LockMask) → LockOk s m → is_ready s ≡ true → is_locked m ≡ false
lock_ready ps_none m l b = cc
lock_ready ps_new m l b = cc
lock_ready ps_ready m l b = l
lock_ready ps_running m l b = cc
lock_ready ps_blocked m l b = cc
lock_ready ps_finished m l b = cc

-- The switch from the running kernel to a ready process without locks takes place.
switch_ready :
    (n : ℕ) (saved : CpuState) (k : Kernel)
    → n < max_proc
    → is_running k.kernel_state ≡ true
    → is_ready (k.p_tab n).state ≡ true
    → is_locked (k.p_tab n).lock_mask ≡ false
    → k_proc_switch (pos n) saved k ≡ ok ((k.p_tab n).cpu_state, switched (pos n) saved k)
unfolding k_proc_switch
switch_ready n saved k h r s l = ground arith

-- The way into the kernel from a running process takes place.
enter_running :
    (n ref_esp : ℕ) (frame : CpuState) (k : Kernel)
    → n < max_proc
    → k.kernel_state ≡ ps_ready
    → (k.p_tab n).state ≡ ps_running
    → ref_esp ≢ 0
    → k_proc_switch_to_kernel_if_needed ref_esp (pos n) frame k
      ≡ ok (k.kernel_cpu, entered (pos n) frame k)
unfolding k_proc_switch_to_kernel_if_needed
enter_running n ref_esp frame k h r s e = ground arith

finish_none :
    (saved : CpuState) (k : Kernel)
    → k.next_proc_id ≡ kernel_proc_id
    → k_proc_schedule_on_kernel_handling_finished saved k ≡ ok (saved, k)
unfolding k_proc_schedule_on_kernel_handling_finished
finish_none saved k e =
    let k0 = record k { execution_time_counter = 0 } in
    ap (λ p. if not (leb_ℤ (pos 0) p) then ok (saved, k) else k_proc_switch p saved k0) e

pos-user : (n : ℕ) → leb_ℤ (pos 0) (pos n) ≡ true
pos-user n = ground arith

finish_switch :
    (n : ℕ) (saved : CpuState) (k : Kernel)
    → IsValid k
    → k.kernel_state ≡ ps_running
    → n < max_proc
    → is_ready (k.p_tab n).state ≡ true
    → k.next_proc_id ≡ pos n
    → k_proc_schedule_on_kernel_handling_finished saved k
      ≡ ok ((k.p_tab n).cpu_state, switched (pos n) saved (record k { execution_time_counter = 0 }))
unfolding k_proc_schedule_on_kernel_handling_finished
finish_switch n saved k v r h s e =
    let k0 = record k { execution_time_counter = 0 } in
    ap (λ p. if not (leb_ℤ (pos 0) p) then ok (saved, k) else k_proc_switch p saved k0) e
    ∙ ap (λ b. if not b then ok (saved, k) else k_proc_switch (pos n) saved k0) (pos-user n)
    ∙ switch_ready n saved k0 h (ap is_running r) s
        (lock_ready (k.p_tab n).state (k.p_tab n).lock_mask (v.locks n) s)

-- With the kernel running, a consistent table and the last process of the table or none, the end
-- of the kernel's handling after a choice of the scheduler either goes on in the kernel, no
-- process being ready, or switches to the ready process that the round robin prescribes with the
-- registers saved for it; it does not halt.
pub handling_finished_lem :
    (saved : CpuState) (k : Kernel)
    → IsValid k
    → IsLast k.last_proc_id
    → k.kernel_state ≡ ps_running
    → ((k_proc_schedule_on_kernel_handling_finished saved (sched_evaluate_run k)
          ≡ ok (saved, sched_evaluate_run k))
        × ((n : ℕ) → n < max_proc → is_ready (k.p_tab n).state ≡ false))
      ⊎ ((n : ℕ) × Chosen k.p_tab k.last_proc_id n
          × (k' : Kernel) × (k_proc_schedule_on_kernel_handling_finished saved
                (sched_evaluate_run k)
              ≡ ok ((k.p_tab n).cpu_state, k'))
          × (k'.proc_current ≡ pos n)
          × ((k'.p_tab n).state ≡ ps_running))
unfolding sched_evaluate_run switched
handling_finished_lem saved k v l r = elim (proc_select_lem k.p_tab k.last_proc_id l) [
  | inr (e, none_ready) ↦ inl (finish_none saved (sched_evaluate_run k) e, none_ready)
  | inl (n, e, c) ↦
      let k' = sched_evaluate_run k in
      inr (
        n,
        c,
        switched (pos n) saved (record k' { execution_time_counter = 0 }),
        finish_switch n saved k' (record { locks = v.locks; runs = v.runs }) r c.in_table c.ready e,
        refl,
        ap (λ u. u.state) (update_self k.p_tab n (record (k.p_tab n) { state = ps_running })),
      )
]

abbrev pub ReadyAt : ℕ → Kernel → Type 0
ReadyAt n k = (n < max_proc) × (k.kernel_state ≡ ps_running) × ((k.p_tab n).state ≡ ps_ready)

-- A ready process of a consistent table that the running kernel switches to and an interrupt
-- leaves is resumed with exactly the registers of the interrupt frame; the kernel goes on in
-- between with the registers it had saved, and no other process is touched.
pub switch_round_trip :
    (n ref_esp : ℕ) (saved frame saved' : CpuState) (k : Kernel)
    → IsValid k
    → ReadyAt n k
    → ref_esp ≢ 0
    → (k1 : Kernel) × (k2 : Kernel) × (k3 : Kernel) × (k_proc_switch (pos n) saved k
        ≡ ok ((k.p_tab n).cpu_state, k1))
      × (k_proc_switch_to_kernel_if_needed ref_esp (pos n) frame k1 ≡ ok (saved, k2))
      × (k_proc_switch (pos n) saved' k2 ≡ ok (frame, k3))
      × ((j : ℕ) → n ≢ j → k3.p_tab j ≡ k.p_tab j)
unfolding switched entered left_process
switch_round_trip n ref_esp saved frame saved' k v (h, r, s) e =
    let u = k.p_tab n in
    let u1 = record u { state = ps_running } in
    let u2 = record u { state = ps_ready; cpu_state = frame } in
    let k1 = switched (pos n) saved k in
    let k2 = entered (pos n) frame k1 in
    let unlocked = lock_ready u.state u.lock_mask (v.locks n) (ap is_ready s) in
    let e1 : k1.p_tab n ≡ u1 = update_self k.p_tab n u1 in
    let e2 : k2.p_tab n ≡ u2 =
      update_self k1.p_tab n (left_process frame (k1.p_tab n)) ∙ ap (left_process frame) e1 in
    let k3 = switched (pos n) saved' k2 in
    (
      k1,
      k2,
      k3,
      switch_ready n saved k h (ap is_running r) (ap is_ready s) unlocked,
      enter_running n ref_esp frame k1 h refl (ap (λ w. w.state) e1) e,
      switch_ready n saved' k2 h refl (ap (λ w. is_ready w.state) e2)
            (ap (λ w. is_locked w.lock_mask) e2 ∙ unlocked)
          ∙ ap (λ w. ok (w.cpu_state, k3)) e2,
      λ j ne.
          update_ne k2.p_tab n j _ ne ∙ update_ne k1.p_tab n j _ ne ∙ update_ne k.p_tab n j _ ne,
    )
