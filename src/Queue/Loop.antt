-- ===== src/Queue/Loop.antt =====
-- The loop of `k_que_start` (src/system/kernel/queue/queue.c) with functions that queue further calls.
use mathlib.Core.List.{append-nil, append_assoc}
use gunw_os.Prelude.Outcome.{Outcome, ok, ◌>>=◌}
use gunw_os.Prelude.{
  ℕ, zero, suc, ◌≤◌, ◌<◌, ◌≡◌, refl, true, Option, none, some, List, [], ◌∷◌, ◌++◌, map, ◌∙◌, arith,
  length, length-append,
}
use gunw_os.Queue.{
  Queue, DispatchFuncType, Call, call_void, call_arch, call_arch_arch, dispatch, link, call_of,
  call_of_func, fetch, finish, max_queue_length, round, rounds, k_que_dispatch, k_que_dispatch_arch,
  k_que_dispatch_arch_arch, dfe_void, dfe_arch, dfe_arch_arch,
}
use gunw_os.Queue.Chain.{calls, Linked-frame, calls-frame}
use gunw_os.Queue.Fifo.{IsValid}
use gunw_os.Queue.Rounds.{Holds, dispatch-Holds}

module _ {F : Type 0} where
  fetch-none : (q : Queue F) → q.current ≡ none → fetch q ≡ ok none
  unfolding fetch
  fetch-none q e = rw (e, fetch)

  -- An idle queue hands the round to the scheduler.
  pub fetch-empty : (q : Queue F) → Holds q [] → fetch q ≡ ok none
  fetch-empty q h = at h.slots h.valid h.content
    where
      at : (is : List ℕ) → IsValid q is → calls q.entries is ≡ [] → fetch q ≡ ok none
      at [] v e = fetch-none q v.linked
      at (i ∷ is) v e = cc

  fetch-some :
      (q : Queue F) (i : ℕ) (c : Call F)
      → q.current ≡ some i
      → (q.entries i).reserved ≡ true
      → call_of_func (q.entries i).func ≡ some c
      → fetch q ≡ ok (some (i, c))
  unfolding fetch
  fetch-some q i c e r f = ground arith

  finish-IsValid :
      (q : Queue F) (i : ℕ) (is : List ℕ) → IsValid q (i ∷ is) → IsValid (finish i q) is
  unfolding finish
  finish-IsValid q i is v = record {
    linked =
        Linked-frame q.entries (finish i q).entries (q.entries i).next is (λ j e. ground arith)
          v.linked.1;
    distinct = v.distinct.1;
    bounded = λ j e. v.bounded j (ground arith);
    reserved = λ j lt. ground (arith, v.reserved j lt);
  }

  -- The call at the front is the one that a round fetches; freeing its slot leaves the rest.
  pub front :
      (q : Queue F) (c : Call F) (xs : List (Call F))
      → Holds q (c ∷ xs)
      → (i : ℕ) × (q.current ≡ some i) × (fetch q ≡ ok (some (i, c))) × Holds (finish i q) xs
  unfolding finish
  front q c xs h = at h.slots h.valid h.content
    where
      at :
          (is : List ℕ)
          → IsValid q is
          → calls q.entries is ≡ map some (c ∷ xs)
          → (i : ℕ) × (q.current ≡ some i) × (fetch q ≡ ok (some (i, c))) × Holds (finish i q) xs
      at [] v e = cc
      at (i ∷ is) v e = (
        i,
        v.linked.0,
        fetch-some q i c v.linked.0 (ground (arith, v.reserved i (v.bounded i (ground arith))))
            (ground arith),
        record {
          slots = is;
          valid = finish-IsValid q i is v;
          content =
              calls-frame q.entries (finish i q).entries is (λ j m. ground arith) ∙ (ground arith);
          is_running = h.is_running;
        },
      )

  -- A dispatch by a running function leaves the front where it is.
  dispatch-current :
      (q r : Queue F) (ptr : Option F) (type : DispatchFuncType) (p0 p1 i : ℕ)
      → dispatch ptr type p0 p1 q ≡ ok r
      → q.current ≡ some i
      → r.current ≡ some i
  unfolding dispatch link
  dispatch-current q r ptr type p0 p1 i e h = ground arith

  -- The public function that queues a call.
  pub dispatch_call : Call F → Queue F → Outcome (Queue F)
  unfolding k_que_dispatch k_que_dispatch_arch k_que_dispatch_arch_arch
  dispatch_call (call_void p) q = k_que_dispatch p q
  dispatch_call (call_arch p p0) q = k_que_dispatch_arch p p0 q
  dispatch_call (call_arch_arch p p0 p1) q = k_que_dispatch_arch_arch p p0 p1 q

  pub dispatch_all : List (Call F) → Queue F → Outcome (Queue F)
  dispatch_all [] q = ok q
  dispatch_all (c ∷ cs) q = dispatch_call c q >>= dispatch_all cs

  abbrev pub Queued : Queue F → List (Call F) → Outcome (Queue F) → Type 0
  Queued q xs o =
      (r : Queue F) × (o ≡ ok r) × Holds r xs × ((i : ℕ) → q.current ≡ some i → r.current ≡ some i)

  pub dispatch_call-Queued :
      (q : Queue F) (xs : List (Call F)) (c : Call F)
      → Holds q xs
      → length xs < max_queue_length
      → Queued q (xs ++ c ∷ []) (dispatch_call c q)
  unfolding dispatch_call call_of
  dispatch_call-Queued q xs (call_void p) h lt =
      let (r, e, k) = dispatch-Holds q xs dfe_void p 0 0 (call_void p) h lt refl in
      (r, e, k, λ i. dispatch-current q r (some p) dfe_void 0 0 i e)
  dispatch_call-Queued q xs (call_arch p p0) h lt =
      let (r, e, k) = dispatch-Holds q xs dfe_arch p p0 0 (call_arch p p0) h lt refl in
      (r, e, k, λ i. dispatch-current q r (some p) dfe_arch p0 0 i e)
  dispatch_call-Queued q xs (call_arch_arch p p0 p1) h lt =
      let (r, e, k) =
        dispatch-Holds q xs dfe_arch_arch p p0 p1 (call_arch_arch p p0 p1) h lt refl in
      (r, e, k, λ i. dispatch-current q r (some p) dfe_arch_arch p0 p1 i e)

  pub dispatch_all-Queued :
      (q : Queue F) (xs cs : List (Call F))
      → Holds q xs
      → length (xs ++ cs) ≤ max_queue_length
      → Queued q (xs ++ cs) (dispatch_all cs q)
  unfolding dispatch_all
  dispatch_all-Queued q xs [] h fits = (q, refl, rw append-nil h, λ i e. e)
  dispatch_all-Queued q xs (c ∷ cs) h fits =
      let (r, e, k, front_r) =
        dispatch_call-Queued q xs c h (omega (arith, length-append {0} xs (c ∷ cs))) in
      let (t, e', k', front_t) = dispatch_all-Queued r (xs ++ c ∷ []) cs k (rw append_assoc fits) in
      (t, rw e e', rw append_assoc at k', λ i at_i. front_t i (front_r i at_i))

  -- A system in which the called function `c` queues the calls `spawn c`; it keeps the calls made.
  module _ (spawn : Call F → List (Call F)) where
    abbrev pub System : Type 0
    System = Queue F × List (Call F)

    invoke : Call F → System → Outcome System
    invoke c s = dispatch_all (spawn c) s.0 >>= λ r. ok (r, s.1 ++ c ∷ [])

    -- `rounds` of that system. With nothing queued the scheduler is called; here it returns.
    pub run : ℕ → System → Outcome System
    unfolding rounds invoke
    run = rounds (λ s. s.0) (λ q s. (q, s.1)) invoke ok

    -- The same loop on a list: what waits, and what has been called.
    pub fifo : ℕ → List (Call F) → List (Call F) → List (Call F) × List (Call F)
    fifo zero xs made = (xs, made)
    fifo (suc n) [] made = ([], made)
    fifo (suc n) (x ∷ xs) made = fifo n (xs ++ spawn x) (made ++ x ∷ [])

    -- At no time more than 64 calls wait, the running one included.
    abbrev pub Fits : ℕ → List (Call F) → Type 0
    Fits zero xs = Unit {0}
    Fits (suc n) [] = Unit {0}
    Fits (suc n) (x ∷ xs) = (length (x ∷ xs ++ spawn x) ≤ max_queue_length) × Fits n (xs ++ spawn x)

    step : System → Outcome System
    unfolding invoke
    step = round (λ s. s.0) (λ q s. (q, s.1)) invoke ok

    run-suc : (n : ℕ) (s : System) → run (suc n) s ≡ (step s >>= run n)
    unfolding run step
    run-suc n s = refl

    step_idle : (s : System) → Holds s.0 [] → step s ≡ ok s
    unfolding step round
    step_idle s h = rw (fetch-empty s.0 h)

    step_call :
        (s : System) (i : ℕ) (c : Call F) (r : Queue F)
        → fetch s.0 ≡ ok (some (i, c))
        → dispatch_all (spawn c) s.0 ≡ ok r
        → step s ≡ ok (finish i r, s.1 ++ c ∷ [])
    unfolding step round
    step_call s i c r e e' = rw e (rw e')

    step_busy :
        (s : System) (c : Call F) (xs : List (Call F))
        → Holds s.0 (c ∷ xs)
        → length (c ∷ xs ++ spawn c) ≤ max_queue_length
        → (q : Queue F) × (step s ≡ ok (q, s.1 ++ c ∷ [])) × Holds q (xs ++ spawn c)
    step_busy s c xs h fits =
        let (i, at_i, fetched, _) = front s.0 c xs h in
        let (r, queued, k, kept) = dispatch_all-Queued s.0 (c ∷ xs) (spawn c) h fits in
        let (j, at_j, _, rest) = front r c (xs ++ spawn c) k in
        let kept_i : r.current ≡ some i = kept i at_i in
        let same : i ≡ j = cc in (finish i r, step_call s i c r fetched queued, rw same rest)

    idle_run : (n : ℕ) (s : System) → Holds s.0 [] → run n s ≡ ok s
    unfolding run
    idle_run zero s h = refl
    idle_run (suc n) s h = rw (run-suc n s, step_idle s h) (idle_run n s h)

    -- From a queue that holds a list of calls, the loop of k_que_start makes the calls in the
    -- order of their dispatch, those that the called functions queue included, as a list does,
    -- and never halts, while no more than 64 calls wait at a time, the running one counted.
    pub run-fifo :
        (n : ℕ) (xs : List (Call F)) (s : System)
        → Holds s.0 xs
        → Fits n xs
        → (t : System) × (run n s ≡ ok t) × Holds t.0 (fifo n xs s.1).0 × (t.1 ≡ (fifo n xs s.1).1)
    unfolding fifo run
    run-fifo zero xs s h fits = (s, refl, h, refl)
    run-fifo (suc n) [] s h fits = (s, idle_run (suc n) s h, h, refl)
    run-fifo (suc n) (x ∷ xs) s h fits =
        let (q, stepped, k) = step_busy s x xs h fits.0 in
        let (t, e, held, made) = run-fifo n (xs ++ spawn x) (q, s.1 ++ x ∷ []) k fits.1 in
        (t, rw (run-suc n s, stepped) e, held, made)
