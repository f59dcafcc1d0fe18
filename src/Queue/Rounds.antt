-- ===== src/Queue/Rounds.antt =====
-- The operations of src/system/kernel/queue/queue.c against a first-in first-out list of calls: `dispatch`
-- appends, a round of `k_que_start` runs and removes the first.
use gunw_os.Prelude.Outcome.{ok, oops}
use gunw_os.Prelude.{
  ℕ, suc, ◌≤◌, ◌<◌, ◌≡◌, refl, true, Option, some, List, [], ◌∷◌, ◌++◌, map, ◌∙◌, sym, ap, arith,
  dec_lt, contains, length, length-le,
}
use mathlib.Core.List.{map-append, tail}
use gunw_os.Queue.{
  Queue, DispatchFuncType, dfe_none, dfe_void, dfe_arch, dfe_arch_arch, DispatchFunc, Call,
  free_index, dispatch, link, set_func, call_of, call_of_func, max_queue_length,
}
use gunw_os.Queue.Chain.{calls}
use gunw_os.Queue.Fifo.{IsValid, Appended, free_index_fresh, free_index-lt, link-Appended, written}

module _ {F : Type 0} where
  -- A running queue whose entries are the calls `xs`, oldest first.
  pub record Holds (q : Queue F) (xs : List (Call F)) : Type 0 where
    pub slots : List ℕ
    pub valid : IsValid q slots
    pub content : calls q.entries slots ≡ map some xs
    pub is_running : q.running ≡ true

  length-slots :
      (q : Queue F) (is : List ℕ) (xs : List (Call F))
      → calls q.entries is ≡ map some xs
      → length is ≡ length xs
  length-slots q [] [] e = refl
  length-slots q [] (x ∷ xs) e = cc
  length-slots q (i ∷ is) [] e = cc
  length-slots q (i ∷ is) (x ∷ xs) e = ap suc (length-slots q is xs (ap tail e))

  -- A call that `dispatch` is given by its type, function and arguments.
  set_func_lem :
      (type : DispatchFuncType) (p : F) (p0 p1 : ℕ) (old : DispatchFunc F) (c : Call F)
      → call_of type p p0 p1 ≡ some c
      → (f : DispatchFunc F) × (set_func type (some p) p0 p1 old ≡ ok f) × (call_of_func f ≡ some c)
  unfolding set_func call_of call_of_func
  set_func_lem dfe_none p p0 p1 old c e = cc
  set_func_lem dfe_void p p0 p1 old c e = (_, refl, e)
  set_func_lem dfe_arch p p0 p1 old c e = (_, refl, e)
  set_func_lem dfe_arch_arch p p0 p1 old c e = (_, refl, e)

  dispatch-link :
      (q : Queue F) (p : F) (type : DispatchFuncType) (p0 p1 : ℕ) (f : DispatchFunc F)
      → q.running ≡ true
      → free_index q < max_queue_length
      → set_func type (some p) p0 p1 (q.entries (free_index q)).func ≡ ok f
      → dispatch (some p) type p0 p1 q ≡ link (free_index q) (written q (free_index q) f)
  unfolding dispatch
  dispatch-link q p type p0 p1 f on lt e = ground arith

  Appended-Holds :
      (q r : Queue F) (xs : List (Call F)) (i : ℕ) (f : DispatchFunc F) (c : Call F)
      (h : Holds q xs)
      → Appended q h.slots i f r
      → call_of_func f ≡ some c
      → Holds r (xs ++ c ∷ [])
  Appended-Holds q r xs i f c h a e = record {
    slots = h.slots ++ i ∷ [];
    valid = a.valid;
    content = a.queued ∙ rw (h.content, e) (sym (map-append some xs (c ∷ [])));
    is_running = a.still_running ∙ h.is_running;
  }

  -- On a running queue with fewer than 64 calls, dispatch succeeds and queues the call behind all
  -- the others.
  pub dispatch-Holds :
      (q : Queue F) (xs : List (Call F)) (type : DispatchFuncType) (p : F) (p0 p1 : ℕ) (c : Call F)
      → Holds q xs
      → length xs < max_queue_length
      → call_of type p p0 p1 ≡ some c
      → (r : Queue F) × (dispatch (some p) type p0 p1 q ≡ ok r) × Holds r (xs ++ c ∷ [])
  dispatch-Holds q xs type p p0 p1 c h short e =
      let i = free_index q in
      let lt =
        free_index-lt q h.slots h.valid (omega (arith, length-slots q h.slots xs h.content)) in
      let (f, set, calls_c) = set_func_lem type p p0 p1 (q.entries i).func c e in
      let (r, linked, a) =
        link-Appended q h.slots i f h.valid lt (free_index_fresh q h.slots h.valid lt) in
      (
        r,
        dispatch-link q p type p0 p1 f h.is_running lt set ∙ linked,
        Appended-Holds q r xs i f c h a calls_c,
      )

  -- On a running queue in which 64 calls wait, dispatch halts the kernel, whatever it is given.
  pub dispatch_full :
      (q : Queue F) (xs : List (Call F)) (type : DispatchFuncType) (ptr : Option F) (p0 p1 : ℕ)
      → Holds q xs
      → length xs ≡ max_queue_length
      → dispatch ptr type p0 p1 q ≡ oops
  unfolding dispatch
  dispatch_full q xs type ptr p0 p1 h full = elim (dec_lt (free_index q) max_queue_length) [
    | no ge ↦ ground arith
    | yes lt ↦ absurd (omega (arith, more lt, length-slots q h.slots xs h.content))
  ]
    where
      within :
          free_index q < max_queue_length
          → (j : ℕ) → contains j (free_index q ∷ h.slots) ≡ true
          → j < max_queue_length
      within lt j e = ground (arith, h.valid.bounded j)

      more : free_index q < max_queue_length → suc (length h.slots) ≤ max_queue_length
      more lt =
          length-le max_queue_length (free_index q ∷ h.slots)
            (free_index_fresh q h.slots h.valid lt, h.valid.distinct) (within lt)
