-- ===== src/Queue/Fifo.antt =====
-- The dispatch queue of src/system/kernel/queue/queue.c as a bounded first-in first-out list of calls.
use gunw_os.Prelude.Outcome.{ok}
use gunw_os.Prelude.{
  ℕ, ◌≤◌, ◌<◌, ◌≡◌, refl, ◌≢◌, true, false, not, none, some, List, [], ◌∷◌, ◌++◌, ◌∙◌, arith, Array,
  update, contains, Distinct, last, length, first_hit, dec_lt, ap₂, ◌||◌, ◌==◌, first_miss,
  le-length, length-le, contains-append, Distinct-append, contains-last,
}
use mathlib.Core.List.{map-append}
use gunw_os.Queue.{
  Queue, DispatchEntry, DispatchFunc, free_index, link, call_of_func, max_queue_length, last_entry,
}
use gunw_os.Queue.Chain.{
  Linked, calls, last_entry-eq-last, Linked-frame, Linked-append, calls-frame,
}

module _ {F : Type 0} where
  -- The queued entries are the slots `is`, each once, and just these are reserved.
  pub record IsValid (q : Queue F) (is : List ℕ) : Type 0 where
    pub linked : Linked q.entries q.current is
    pub distinct : Distinct is
    pub bounded : (j : ℕ) → contains j is ≡ true → j < max_queue_length
    pub reserved : (j : ℕ) → j < max_queue_length → (q.entries j).reserved ≡ contains j is

  pub length-le-max : (q : Queue F) (is : List ℕ) → IsValid q is → length is ≤ max_queue_length
  length-le-max q is v = length-le max_queue_length is v.distinct v.bounded

  -- The slot that the scan finds is in use by no queued entry.
  pub free_index_fresh :
      (q : Queue F) (is : List ℕ)
      → IsValid q is
      → free_index q < max_queue_length
      → contains (free_index q) is ≡ false
  unfolding free_index
  free_index_fresh q is v lt = ground (
    arith,
    first_hit (λ i. not (q.entries i).reserved) 0 max_queue_length (omega arith),
    v.reserved (free_index q) lt,
  )

  -- There is a free slot as long as fewer than 64 entries are queued.
  pub free_index-lt :
      (q : Queue F) (is : List ℕ)
      → IsValid q is
      → length is < max_queue_length
      → free_index q < max_queue_length
  unfolding free_index
  free_index-lt q is v short = elim (dec_lt (free_index q) max_queue_length) [
    | yes h ↦ h
    | no h ↦ absurd (omega (arith, le-length max_queue_length is (all h)))
  ]
    where
      all :
          ¬ (free_index q < max_queue_length)
          → (j : ℕ) → j < max_queue_length
          → contains j is ≡ true
      all h j lt = ground (
        arith,
        first_miss (λ i. not (q.entries i).reserved) 0 max_queue_length j (omega arith)
            (omega arith),
        v.reserved j lt,
      )

  -- What `dispatch` establishes with slot `i`: one more entry, behind the others.
  pub record Appended (q : Queue F) (is : List ℕ) (i : ℕ) (f : DispatchFunc F) (r : Queue F)
      : Type 0 where
    pub valid : IsValid r (is ++ i ∷ [])
    pub queued : calls r.entries (is ++ i ∷ []) ≡ calls q.entries is ++ call_of_func f ∷ []
    pub still_running : r.running ≡ q.running

  abbrev pub written : Queue F → ℕ → DispatchFunc F → Queue F
  written q i f = record q {
    entries = update q.entries i (record { reserved = true; func = f; next = none });
  }

  abbrev chained : Queue F → ℕ → ℕ → Queue F
  chained q l i = record q { entries = update q.entries l (record (q.entries l) { next = some i }) }

  IsValid-append :
      (q r : Queue F) (is : List ℕ) (i : ℕ)
      → IsValid q is
      → i < max_queue_length
      → contains i is ≡ false
      → Linked r.entries r.current (is ++ i ∷ [])
      → ((j : ℕ) → (r.entries j).reserved ≡ ((q.entries j).reserved || j == i))
      → IsValid r (is ++ i ∷ [])
  IsValid-append q r is i v lt fresh linked same = record {
    linked = linked;
    distinct = Distinct-append i is fresh v.distinct;
    bounded = λ j e. ground (arith, contains-append j i is, v.bounded j);
    reserved = λ j h. ground (arith, contains-append j i is, v.reserved j h, same j);
  }

  calls-append :
      (es fs : Array (DispatchEntry F)) (is : List ℕ) (i : ℕ) (f : DispatchFunc F)
      → ((j : ℕ) → contains j is ≡ true → (fs j).func ≡ (es j).func)
      → (fs i).func ≡ f
      → calls fs (is ++ i ∷ []) ≡ calls es is ++ call_of_func f ∷ []
  calls-append es fs is i f same e =
      map-append _ is (i ∷ []) ∙ ap₂ ◌++◌ (calls-frame es fs is same) (rw e)

  link_first :
      (q : Queue F) (i : ℕ) (f : DispatchFunc F)
      → IsValid q []
      → i < max_queue_length
      → let r = record (written q i f) { current = some i } in
        (link i (written q i f) ≡ ok r) × Appended q [] i f r
  unfolding link
  link_first q i f v lt = (
    rw (v.linked, link),
    record {
      valid =
          IsValid-append q (record (written q i f) { current = some i }) [] i v lt refl
            (ground arith) (λ j. ground arith);
      queued = ground arith;
      still_running = refl;
    },
  )

  link-some :
      (q : Queue F) (c l i : ℕ)
      → q.current ≡ some c
      → last_entry max_queue_length q.entries c ≡ ok l
      → link i q ≡ ok (chained q l i)
  unfolding link
  link-some q c l i e h = ground arith

  link_next :
      (q : Queue F) (x : ℕ) (xs : List ℕ) (i : ℕ) (f : DispatchFunc F)
      → IsValid q (x ∷ xs)
      → i < max_queue_length
      → contains i (x ∷ xs) ≡ false
      → let r = chained (written q i f) (last x xs) i in
        (link i (written q i f) ≡ ok r) × Appended q (x ∷ xs) i f r
  unfolding link
  link_next q x xs i f v lt fresh = (
    link-some (written q i f) x (last x xs) i v.linked.0 walk,
    record {
      valid =
          IsValid-append q r (x ∷ xs) i v lt fresh
            (Linked-append q.entries r.entries q.current x i xs kept (ground arith) at_end
              v.distinct v.linked)
            (λ j. ground arith);
      queued = calls-append q.entries r.entries (x ∷ xs) i f (λ j e. ground arith) (ground arith);
      still_running = refl;
    },
  )
    where
      r : Queue F
      r = chained (written q i f) (last x xs) i

      es : Array (DispatchEntry F)
      es = (written q i f).entries

      before : Linked es (some x) (x ∷ xs)
      before = Linked-frame q.entries es (some x) (x ∷ xs) (λ j e. ground arith) (refl, v.linked.1)

      walk : last_entry max_queue_length es x ≡ ok (last x xs)
      walk =
          last_entry-eq-last max_queue_length es x xs before.1
            (omega (arith, length-le-max q (x ∷ xs) v))

      apart : last x xs ≢ i
      apart e = ground (arith, contains-last x xs)

      kept :
          (j : ℕ)
          → contains j (x ∷ xs) ≡ true
          → j ≢ last x xs
          → (r.entries j).next ≡ (q.entries j).next
      kept j e ne = ground arith

      at_end : (r.entries i).next ≡ none
      at_end = ground (arith, apart)

  -- Linking a free slot that has just been written puts its entry behind the others.
  pub link-Appended :
      (q : Queue F) (is : List ℕ) (i : ℕ) (f : DispatchFunc F)
      → IsValid q is
      → i < max_queue_length
      → contains i is ≡ false
      → (r : Queue F) × (link i (written q i f) ≡ ok r) × Appended q is i f r
  link-Appended q [] i f v lt fresh =
      let (e, a) = link_first q i f v lt in (record (written q i f) { current = some i }, e, a)
  link-Appended q (x ∷ xs) i f v lt fresh =
      let (e, a) = link_next q x xs i f v lt fresh in (chained (written q i f) (last x xs) i, e, a)
