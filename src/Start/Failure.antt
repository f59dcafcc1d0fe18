-- ===== src/Start/Failure.antt =====
-- src/system/kernel/syscall/usr/start.c: what a start leaves in the process table.
use gunw_os.Prelude.Outcome.{
  ok, done, fails, Ensures, ensures_ok, ensures_oops, Ensures-if, Ensures-bind, Ensures-then,
}
use gunw_os.Prelude.Int.{ℤ, pos, index, leb_ℤ}
use gunw_os.Prelude.{
  ℕ, ◌-◌, ◌<◌, ◌≡◌, ◌≢◌, ◌∙◌, ap, sym, refl, Bool, Bool-cases, true, false, not, ltb, ◌==◌, ◌||◌,
  if◌then◌else◌, some, inl, inr, ◌⊎◌, arith, first, first_hit, Array, update, update_self,
  update_ne, ℕ_discrete,
}
use gunw_os.Runloop.{max_proc}
use gunw_os.Kernel.{
  Kernel, ProcState, ps_none, ps_new, ps_ready, ProcessUser, zero_process, ProcError, pe_none,
  pe_limit_reached, out_of_range, set_cpu, set_process,
}
use gunw_os.Schedule.{k_proc_schedule_did_hatch, sched_evaluate_run, is_ready}
use gunw_os.Proc.{
  reserved_kernel_mem, is_none, is_new, is_process_alive, spawned_cpu, k_proc_spawn, k_proc_hatch,
  hatched, with_entry, unsafe_set_proc_params, unsafe_add_proc_param, k_proc_cleanup,
}
use gunw_os.Mem.{k_mem_gimme}
use gunw_os.Mem.Zone.{k_mem_buffer_zone_valid_for_proc}
use gunw_os.Paging.Release.{k_paging_proc_cleanup}
use gunw_os.Elf.{elf_validate}
use gunw_os.Start.{
  CtrlError, gce_none, StartDescriptor, ProcDescriptor, Calls, World, file_ptr, expected_program,
  is_done, is_fine, bytes_at, load_file, load_elf, give_up, hatch_loaded, start_valid, start_loaded,
  k_scr_usr_start, stack_size,
}

-- The entries of the other processes are as they were.
abbrev Others : ℕ → Array ProcessUser → Array ProcessUser → Type 0
Others i t t' = (j : ℕ) → i ≢ j → t' j ≡ t j

-- A free entry has become a new process.
abbrev Born : ProcState → ℕ → Kernel → Kernel → Type 0
Born s i k k' = ((k.p_tab i).state ≡ ps_none) × ((k'.p_tab i).state ≡ s) × Others i k.p_tab k'.p_tab

none_iff : (s : ProcState) → is_none s ≡ true → s ≡ ps_none
none_iff ps_none h = refl
none_iff s h = cc

-- The new process of a spawn, or none.
spawn-Born :
    (k : Kernel)
    → (k_proc_spawn true k ≡ ok (fails pe_limit_reached))
      ⊎ ((i : ℕ) × (k' : Kernel) × (k_proc_spawn true k ≡ ok (done (pos i, k')))
          × (i < max_proc)
          × Born ps_new i k k')
unfolding k_proc_spawn
spawn-Born k =
    let i = first (λ i. is_none (k.p_tab i).state) 0 max_proc in
    elim (Bool-cases (ltb i max_proc)) [
      | inr full ↦ inl (rw full refl)
      | inl room ↦
          let lt : i < max_proc = ground arith in
          inr (
            i,
            set_process k i
                (record (k.p_tab i) { state = ps_new; dpl = 3; cpu_state = spawned_cpu }),
            rw room refl,
            lt,
            (
              none_iff (k.p_tab i).state
                  (first_hit (λ i. is_none (k.p_tab i).state) 0 max_proc (omega arith)),
              ap (λ (u : ProcessUser). u.state) (update_self k.p_tab i _),
              λ j ne. update_ne k.p_tab i j _ ne,
            ),
          )
    ]

hatched-Others :
    (p : ℤ) (entry heap : ℕ) (k : Kernel) → Others (index p) k.p_tab (hatched p entry heap k).p_tab
unfolding hatched with_entry unsafe_set_proc_params unsafe_add_proc_param set_cpu
hatched-Others p entry heap k j ne = ground arith

hatched-ready :
    (p : ℤ) (entry heap : ℕ) (k : Kernel)
    → ((hatched p entry heap k).p_tab (index p)).state ≡ ps_ready
unfolding hatched
hatched-ready p entry heap k =
    let k' = unsafe_set_proc_params p heap (with_entry p entry k) in
    ap (λ (u : ProcessUser). u.state) (update_self k'.p_tab (index p) _)

-- A hatched process is ready.
abbrev Ready : ℤ → Kernel → Kernel → Type 0
Ready p k k' = ((k'.p_tab (index p)).state ≡ ps_ready) × Others (index p) k.p_tab k'.p_tab

hatch-Ready :
    (entry heap : ℕ) (p : ℤ) (k : Kernel) → Ensures (Ready p k) (k_proc_hatch entry heap p k)
unfolding k_proc_hatch k_proc_schedule_did_hatch sched_evaluate_run
hatch-Ready entry heap p k =
    let k' = hatched p entry heap k in
    Ensures-if (out_of_range p) (λ _. ensures_oops)
      λ _.
        Ensures-if (not (is_new (k.p_tab (index p)).state)) (λ _. ensures_oops)
          λ _.
            Ensures-if (entry == 0) (λ _. ensures_oops)
              λ _.
                Ensures-if (heap == 0) (λ _. ensures_oops)
                  λ _.
                    Ensures-if (not (leb_ℤ (pos 0) p) || leb_ℤ (pos max_proc) p) (λ _. ensures_oops)
                      λ _.
                        Ensures-if (not (is_ready (k'.p_tab (index p)).state)) (λ _. ensures_oops)
                          λ _. ensures_ok (same (not (leb_ℤ (pos 0) k'.next_proc_id)))
  where
    same :
        (b : Bool)
        → Ready p k
            (if b then sched_evaluate_run (hatched p entry heap k) else hatched p entry heap k)
    same true = (hatched-ready p entry heap k, hatched-Others p entry heap k)
    same false = (hatched-ready p entry heap k, hatched-Others p entry heap k)

-- No process has come to be: the entries are as they were, or free and now cleared.
abbrev Unborn : Kernel → Kernel → Type 0
Unborn k k' =
    (j : ℕ)
    → (k'.p_tab j ≡ k.p_tab j) ⊎ (((k.p_tab j).state ≡ ps_none) × (k'.p_tab j ≡ zero_process))

module _ {W : Type 0} (calls : Calls W) where
  -- One more process is ready, or there is none left behind.
  abbrev pub Settled : Kernel → CtrlError × World W → Type 0
  Settled k (e, m) =
      ((e ≡ gce_none) × ((i : ℕ) × (i < max_proc) × Born ps_ready i k m.kernel))
      ⊎ ((e ≢ gce_none) × Unborn k m.kernel)

  give_up-Settled :
      (i : ℕ) (k : Kernel) (m : World W)
      → (k.p_tab i).state ≡ ps_none
      → Others i k.p_tab m.kernel.p_tab
      → Ensures (Settled k) (give_up calls (pos i) m)
  unfolding give_up k_proc_cleanup
  give_up-Settled i k m free others =
      Ensures-bind {Q = λ (k' : Kernel). Unborn k k'}
        (Ensures-if (out_of_range (pos i)) (λ _. ensures_oops)
          λ _.
            Ensures-if (is_process_alive (m.kernel.p_tab i).state) (λ _. ensures_oops)
              λ _. ensures_ok (λ j. elim (ℕ_discrete i j) [
                | yes same ↦ inr (
                  ap (λ n. (k.p_tab n).state) (sym same) ∙ free,
                  ap (λ n. update m.kernel.p_tab i zero_process n) (sym same)
                      ∙ update_self m.kernel.p_tab i zero_process,
                )
                | no ne ↦ inl (update_ne m.kernel.p_tab i j zero_process ne ∙ others j ne)
              ]))
        λ k' unborn.
          Ensures-then (k_paging_proc_cleanup (pos i) m.paging)
            λ g. ensures_ok (inr (λ q. cc, unborn))

  hatch_loaded-Settled :
      (i : ℕ) (d : ProcDescriptor) (k : Kernel) (m : World W)
      → i < max_proc
      → Born ps_new i k m.kernel
      → Ensures (Settled k) (hatch_loaded calls (pos i) d m)
  unfolding hatch_loaded
  hatch_loaded-Settled i d k m lt (free, new, others) =
      Ensures-then
        (k_mem_gimme (pos i) (4294967296 - reserved_kernel_mem - stack_size) stack_size m.paging)
        λ (e, g).
          Ensures-if (not (is_done e))
            (λ _. give_up-Settled i k (record m { paging = g }) free others)
            λ _.
              Ensures-bind
                {Q = λ (r : ProcError × Kernel). (r.0 ≡ pe_none) × Ready (pos i) m.kernel r.1}
                (Ensures-bind (hatch-Ready d.entry_linear_addr d.heap_linear_addr (pos i) m.kernel)
                  (λ k' ready. ensures_ok (refl, ready)))
                λ (e', k') (fine, (ready, rest)).
                  let all = λ (j : ℕ) (ne : i ≢ j). rest j ne ∙ others j ne in
                  Ensures-if (not (is_fine e'))
                    (λ _. give_up-Settled i k (record m { kernel = k'; paging = g }) free all)
                    λ _. ensures_ok (inl (refl, (i, lt, (free, ready, all))))

  start_valid-Settled :
      (size : ℕ) (m : World W) → Ensures (Settled m.kernel) (start_valid calls size m)
  unfolding start_valid
  start_valid-Settled size m = elim (spawn-Born m.kernel) [
    | inl full ↦ rw full (ensures_ok (inr (λ q. cc, λ j. inl refl)))
    | inr (i, k', e, lt, born) ↦ rw e (
        Ensures-then (load_elf calls file_ptr size (pos i) (m.paging, m.rest)) λ (d, g, w).
          hatch_loaded-Settled i d m.kernel (record { kernel = k'; paging = g; rest = w }) lt born)
  ]

  start_loaded-Settled :
      (m : World W) (r : CtrlError × ℕ × W) → Ensures (Settled m.kernel) (start_loaded calls m r)
  start_loaded-Settled m (gce_none, size, w) =
      Ensures-if
        (not (elf_validate (some (bytes_at calls file_ptr w)) size (some expected_program)))
        (λ _. ensures_ok (inr (λ q. cc, λ j. inl refl)))
        λ _. start_valid-Settled size (record m { rest = w })
  start_loaded-Settled m (e, size, w) = ensures_ok (inr (λ q. cc, λ j. inl refl))

  -- If the start of a program returns, then either without an error and with one more process,
  -- ready in an entry of the process table that was free, or with an error and no process left
  -- behind: each entry is as it was, or was free and has been cleared. The entries of the other
  -- processes are as they were.
  pub k_scr_usr_start-Settled :
      (p : ℤ) (ptr : ℕ) (d : StartDescriptor) (m : World W)
      → Ensures (Settled m.kernel) (k_scr_usr_start calls p ptr d m)
  unfolding k_scr_usr_start
  k_scr_usr_start-Settled p ptr d m =
      Ensures-if (ptr == 0) (λ _. ensures_oops)
        λ _. Ensures-then (k_mem_buffer_zone_valid_for_proc p ptr 12) λ valid.
          Ensures-if (not valid) (λ _. ensures_oops)
            λ _.
              Ensures-if (d.error_ptr == 0) (λ _. ensures_oops)
                λ _. Ensures-then (k_mem_buffer_zone_valid_for_proc p d.error_ptr 4) λ valid'.
                  Ensures-if (not valid') (λ _. ensures_oops)
                    λ _.
                      Ensures-if (d.path_ptr == 0) (λ _. ensures_oops)
                        λ _.
                          Ensures-if (d.path_len == 0) (λ _. ensures_oops)
                            λ _.
                              Ensures-then
                                (k_mem_buffer_zone_valid_for_proc p d.path_ptr d.path_len)
                                λ valid''.
                                  Ensures-if (not valid'') (λ _. ensures_oops)
                                    λ _.
                                      Ensures-then
                                        (load_file calls d.path_ptr d.path_len file_ptr m.rest)
                                        λ r. start_loaded-Settled m r
