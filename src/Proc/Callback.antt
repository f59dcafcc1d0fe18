-- ===== src/Proc/Callback.antt =====
-- src/system/kernel/hal/proc/proc.c: the delivery of an event keeps the table consistent and leaves the
-- schedule alone.
use gunw_os.Prelude.Outcome.{
  ok, ◌>>=◌, Answer, done, fails, Ensures, ensures_ok, ensures_oops, Ensures-if, Ensures-bind,
  Ensures-then, Ensures-both,
}
use gunw_os.Prelude.Int.{ℤ, index}
use gunw_os.Prelude.{ℕ, refl, true, not, Option, Array}
use gunw_os.Runloop.{
  RunLoopDispatchItem, RunLoopError, grle_full, grle_empty, grle_invalid_state,
  grle_invalid_parameter, grle_unknown, RunLoops, k_runloop_reserve, k_runloop_dispatch,
}
use gunw_os.Kernel.{
  Kernel, ProcError, pe_none, pe_limit_reached, pe_operation_failed, plt_event, out_of_range,
}
use gunw_os.Proc.{
  is_finished, is_process_alive, deliver_event, callback_invoke, k_proc_callback_invoke_ptr,
}
use gunw_os.Schedule.{k_proc_schedule_process_state_did_change}
use gunw_os.Proc.{k_proc_unlock}
use gunw_os.Proc.Invariant.{IsValid, k_proc_unlock-IsValid, did_change-IsValid}
use gunw_os.Proc.Scheduled.{SameSchedule, k_proc_unlock-Same, did_change-Same}

abbrev pub Delivered : Kernel → ProcError × Kernel → Type 0
Delivered k (e, k') = IsValid k' × SameSchedule k k'

abbrev Kept : Kernel → Kernel → Type 0
Kept k k' = IsValid k' × SameSchedule k k'

after_dispatch :
    (p : ℤ) (rs : RunLoops) (k : Kernel)
    → IsValid k
    → Ensures (Delivered k) (
        k_proc_unlock p plt_event (record k { run_loops = rs })
        >>= k_proc_schedule_process_state_did_change
        >>= λ k'. ok (pe_none, k'))
after_dispatch p rs k v =
    let k0 = record k { run_loops = rs } in
    Ensures-bind {Q = Kept k}
      (Ensures-bind {Q = Kept k}
        (Ensures-both (k_proc_unlock-IsValid p plt_event k0 v) (k_proc_unlock-Same k0 p plt_event))
        (λ k' (w, s). Ensures-both (did_change-IsValid k' w) (did_change-Same k k' s)))
      (λ k' kept. ensures_ok kept)

module _ {D : Type 0} where
  deliver_event-Delivered :
      (p : ℤ) (item : RunLoopDispatchItem) (data_ptr : Option D)
      (encoder : Option (Option D → Array ℕ → Array ℕ)) (k : Kernel)
      → IsValid k
      → Ensures (Delivered k) (deliver_event p item data_ptr encoder k)
  unfolding deliver_event
  deliver_event-Delivered p item data_ptr encoder k v =
      Ensures-then (k_runloop_reserve p true k.run_loops) λ a. at a
    where
      at :
          (a : Answer RunLoopError (ℕ × RunLoops))
          → Ensures (Delivered k) (elim a [
            | fails grle_full ↦ ok (pe_limit_reached, k)
            | fails _ ↦ ok (pe_operation_failed, k)
            | done (token, rs) ↦ k_runloop_dispatch p token item data_ptr encoder rs >>= λ rs'.
                k_proc_unlock p plt_event (record k { run_loops = rs' })
                >>= k_proc_schedule_process_state_did_change
                >>= λ k'. ok (pe_none, k')
          ])
      at (fails grle_full) = ensures_ok (v, refl)
      at (fails grle_empty) = ensures_ok (v, refl)
      at (fails grle_invalid_state) = ensures_ok (v, refl)
      at (fails grle_invalid_parameter) = ensures_ok (v, refl)
      at (fails grle_unknown) = ensures_ok (v, refl)
      at (done (token, rs)) =
          Ensures-then (k_runloop_dispatch p token item data_ptr encoder rs)
            λ rs'. after_dispatch p rs' k v

  -- Delivering an event keeps the table consistent and the schedule as it is.
  pub callback_invoke_ptr-Delivered :
      (p : ℤ) (routine : ℕ) (data_ptr : Option D) (size_bytes encoded_size_bytes : ℕ)
      (encoder : Option (Option D → Array ℕ → Array ℕ)) (decoder : Option ℕ) (k : Kernel)
      → IsValid k
      → Ensures (Delivered k) (
          k_proc_callback_invoke_ptr p routine data_ptr size_bytes encoded_size_bytes encoder
            decoder k)
  unfolding k_proc_callback_invoke_ptr callback_invoke
  callback_invoke_ptr-Delivered p routine data_ptr size_bytes encoded_size_bytes encoder decoder k
        v =
      let state = (k.p_tab (index p)).state in
      Ensures-if (out_of_range p) (λ _. ensures_oops)
        λ _.
          Ensures-if (is_finished state) (λ _. ensures_ok (v, refl))
            λ _.
              Ensures-if (not (is_process_alive state)) (λ _. ensures_oops)
                λ _. deliver_event-Delivered p _ data_ptr encoder k v
