-- ===== src/Syscall/Pending.antt =====
-- src/system/kernel/syscall/usr/runloopgetdata.c: the buffer of the caller holds the pending data.
use gunw_os.Prelude.Outcome.{
  ok, oops, Answer, done, fails, ◌>>=◌, Ensures, ensures_ok, ensures_oops, ensures_fault,
  Ensures-if, Ensures-weaken, Ensures-bind,
}
use gunw_os.Prelude.Int.{ℤ, pos, leb_ℤ, index}
use gunw_os.Prelude.{
  ℕ, zero, suc, ◌+◌, ◌<◌, ◌≡◌, ◌∙◌, sym, ap, subst, refl, Bool, true, false, not, ◌&&◌, ◌==◌, ltb,
  if◌then◌else◌, Array, List, length, word, arith,
}
use gunw_os.Kernel.{k_proc_id_is_user}
use gunw_os.Mem.Zone.{k_mem_buffer_zone_valid_for_proc}
use gunw_os.Runloop.{
  max_proc, RunLoop, RunLoopError, RunLoops, next_dispatch_item, is_item_empty,
  pending_item_data_size_bytes, pending_item_data, copied,
  k_runloop_get_pending_item_data_size_bytes, k_runloop_get_pending_item_data, at_loop, on_loop,
}
use gunw_os.Syscall.{Caller}
use gunw_os.Syscall.Messages.{k_scr_usr_run_loop_get_data, k_scr_run_loop_get_data}
use gunw_os.Syscall.Buffer.{InReach, valid-InReach, stack_value-InReach, Ensures-answered}

done_unless {ℓ κ} :
    {E : Type ℓ} {A : Type κ} {a : A} (e : E) (b : Bool) (x : Answer E A)
    → (if b then fails e else x) ≡ done a
    → x ≡ done a
done_unless e true x h = absurd (cc)
done_unless e false x h = h

length-copied : (bytes : Array ℕ) (i n : ℕ) → length (copied bytes i n) ≡ n
unfolding copied
length-copied bytes i zero = refl
length-copied bytes i (suc n) = ap suc (length-copied bytes (i + 1) n)

done-injective {ℓ κ} :
    {E : Type ℓ} {A : Type κ} {a b : A} → ◌≡◌ {A = Answer E A} (done a) (done b) → a ≡ b
done-injective e = cc

data_size_lem :
    (l : RunLoop) (size : ℕ)
    → pending_item_data_size_bytes l ≡ done size
    → (next_dispatch_item l).item.data_size_bytes ≡ size
unfolding pending_item_data_size_bytes
data_size_lem l size e =
    let d = next_dispatch_item l in
    done-injective (
      done_unless _ d.data_handled _
        (done_unless _ (not d.handled) _ (done_unless _ (is_item_empty d) _ e)))

data_length_lem :
    (l l' : RunLoop) (bytes : List ℕ)
    → pending_item_data l ≡ done (bytes, l')
    → length bytes ≡ (next_dispatch_item l).item.data_size_bytes
unfolding pending_item_data
data_length_lem l l' bytes e =
    let d = next_dispatch_item l in
    ap (λ r. length r.0)
      (sym (
        done-injective (
          done_unless _ d.data_handled _
            (done_unless _ (not d.handled) _ (done_unless _ (is_item_empty d) _ e)))))
    ∙ length-copied _ 0 _

on_loop_lem :
    (p : ℤ) (rs rs' : RunLoops) (bytes : List ℕ) (x : Answer RunLoopError (List ℕ × RunLoop))
    → on_loop p rs x ≡ done (bytes, rs')
    → (l : RunLoop) × (x ≡ done (bytes, l))
on_loop_lem p rs rs' bytes (done (b, l)) e =
    (l, ap (λ c. done (c, l)) (ap (λ r. r.0) (done-injective e)))
on_loop_lem p rs rs' bytes (fails c) e = absurd (cc)

module _ (p : ℤ) (rs : RunLoops) where
  size_asked :
      Ensures
        (λ a. a ≡ pending_item_data_size_bytes (rs (index p)))
        (k_runloop_get_pending_item_data_size_bytes p rs)
  unfolding k_runloop_get_pending_item_data_size_bytes at_loop
  size_asked =
      Ensures-if (not (leb_ℤ (pos 0) p && leb_ℤ p (pos max_proc))) (λ _. ensures_oops)
        λ _. Ensures-if (ltb (index p) max_proc) (λ _. ensures_ok refl) λ _. ensures_fault

  data_asked :
      Ensures
        (λ a. a ≡ on_loop p rs (pending_item_data (rs (index p))))
        (k_runloop_get_pending_item_data p true rs)
  unfolding k_runloop_get_pending_item_data at_loop
  data_asked =
      Ensures-if (not (leb_ℤ (pos 0) p && leb_ℤ p (pos max_proc))) (λ _. ensures_oops)
        λ _. Ensures-if (ltb (index p) max_proc) (λ _. ensures_ok refl) λ _. ensures_fault

-- If data is answered, then as many bytes at the address as it has are in reach of user code.
abbrev pub HasRoom : ℕ → Answer RunLoopError (List ℕ × RunLoops) → Type 0
HasRoom buffer r =
    (bytes : List ℕ) (rs' : RunLoops) → r ≡ done (bytes, rs') → InReach buffer (length bytes)

fetched-HasRoom :
    (p : ℤ) (buffer : ℕ) (rs : RunLoops)
    → k_proc_id_is_user p ≡ true
    → buffer < 4294967296
    → ((i j : ℕ) → ((rs i).queue j).item.data_size_bytes < 4294967296)
    → Ensures (HasRoom buffer) (k_scr_usr_run_loop_get_data p buffer rs)
unfolding k_scr_usr_run_loop_get_data
fetched-HasRoom p buffer rs user b sizes =
    Ensures-if (buffer == 0) (λ _. ensures_oops) λ _. Ensures-bind (size_asked p rs) asked
  where
    asked :
        (a : Answer RunLoopError ℕ)
        → a ≡ pending_item_data_size_bytes (rs (index p))
        → Ensures (HasRoom buffer) (elim a [
          | fails e ↦ ok (fails e)
          | done size ↦ k_mem_buffer_zone_valid_for_proc p buffer size >>= λ valid.
              if not valid then oops else k_runloop_get_pending_item_data p true rs
        ])
    asked (fails e) h = ensures_ok (λ bytes rs' e. absurd (cc))
    asked (done size) h =
        let same = data_size_lem (rs (index p)) size (sym h) in
        Ensures-bind
          (valid-InReach p buffer size user b (subst (λ n. n < 4294967296) same (sizes _ _)))
          λ valid reach.
            Ensures-if (not valid) (λ _. ensures_oops)
              λ v.
                Ensures-weaken
                  (λ r d bytes rs' e.
                    let (l, f) = on_loop_lem p rs rs' bytes _ (sym d ∙ e) in
                    subst (InReach buffer) (sym (data_length_lem _ l bytes f ∙ same))
                      (reach (ground arith)))
                  (data_asked p rs)

-- If the words in the memory of a user process and the sizes in the run loops have 32 bits and
-- its request for the pending data returns with the data, then the buffer, whose address is in
-- the first parameter, lies with as many bytes as the data has in the memory that user code can
-- reach.
pub k_scr_run_loop_get_data-HasRoom :
    (u : Caller) (rs : RunLoops)
    → k_proc_id_is_user u.proc_id ≡ true
    → ((i : ℕ) → u.words i < 4294967296)
    → ((i j : ℕ) → ((rs i).queue j).item.data_size_bytes < 4294967296)
    → Ensures (HasRoom (u.words (word (u.esp + 4)))) (k_scr_run_loop_get_data u rs)
unfolding k_scr_run_loop_get_data
k_scr_run_loop_get_data-HasRoom u rs user words sizes =
    Ensures-bind (stack_value-InReach u 4 4 user (omega arith)) λ buffer b.
      Ensures-answered u user λ _.
        subst (λ x. Ensures (HasRoom x) (k_scr_usr_run_loop_get_data u.proc_id buffer rs)) b.0
          (fetched-HasRoom u.proc_id buffer rs user
            (subst (λ x. x < 4294967296) (sym b.0) (words _)) sizes)
