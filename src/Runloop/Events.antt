-- ===== src/Runloop/Events.antt =====
-- Delivery and fetching of events (src/system/kernel/runloop/runloop.c) against the list of events of
-- Runloop/Ring.antt.
use gunw_os.Prelude.Outcome.{Answer, done, fails}
use gunw_os.Prelude.{
  ℕ, ◌+◌, ◌%◌, ◌<◌, ◌≡◌, refl, true, not, List, [], ◌∷◌, ◌∙◌, ap, arith, update, if◌then◌else◌,
  ◌==◌, ℕ_discrete, Bool-cases, inl, inr,
}
use gunw_os.Runloop.{
  RunLoop, RunLoopError, grle_empty, grle_invalid_state, RunLoopDispatchItem, DispatchItem,
  zero_item, pending_item, pending_item_data, finish_if_needed, next_index, next_dispatch_item,
  is_item_empty, copied,
}
use gunw_os.Runloop.Ring.{Holds, slot, slot-update, Held-frame, Held-shift}

-- What a client sees of a fetch: the code answers as the list does, and then holds that list.
abbrev pub Refines :
    {A : Type 0}
    → Answer RunLoopError (A × RunLoop)
    → Answer RunLoopError (A × List DispatchItem)
    → Type 0
Refines o (fails e) = o ≡ fails e
Refines o (done (a, ds)) = (r : RunLoop) × (o ≡ done (a, r)) × Holds r ds

-- The oldest event, which keeps its place until its data are fetched too.
unfoldable pub front_item :
    List DispatchItem → Answer RunLoopError (RunLoopDispatchItem × List DispatchItem)
front_item [] = fails grle_empty
front_item (d ∷ ds) =
    if is_item_empty d
    then fails grle_empty
    else if d.handled
    then fails grle_invalid_state
    else done (d.item, if d.data_handled then ds else record d { handled = true } ∷ ds)

-- The data of the oldest event, whose item has been fetched; the event is gone then.
unfoldable pub front_data : List DispatchItem → Answer RunLoopError (List ℕ × List DispatchItem)
front_data [] = fails grle_empty
front_data (d ∷ ds) =
    if is_item_empty d
    then fails grle_empty
    else if not d.handled
    then fails grle_invalid_state
    else if d.data_handled
    then fails grle_invalid_state
    else done (copied d.bytes 0 d.item.data_size_bytes, ds)

next_slot : (l : RunLoop) → next_dispatch_item l ≡ slot l 0
next_slot l = ap l.queue (omega arith)

front_slot :
    (l : RunLoop) (d : DispatchItem) (ds : List DispatchItem)
    → Holds l (d ∷ ds)
    → next_dispatch_item l ≡ d
front_slot l d ds h = next_slot l ∙ h.held.0

idle_slot : (l : RunLoop) → Holds l [] → next_dispatch_item l ≡ zero_item
idle_slot l h = next_slot l ∙ h.free 0 (omega arith) (omega arith)

abbrev marked : RunLoop → DispatchItem → RunLoop
marked l d = record l { queue = update l.queue (next_index l) d }

abbrev popped : RunLoop → RunLoop
popped l = record l {
  queue = update l.queue (next_index l) zero_item;
  finished_index = next_index l;
}

front-update :
    (l : RunLoop) (k : ℕ) (v : DispatchItem)
    → k < 8
    → update l.queue (next_index l) v ((l.finished_index + 1 + k) % 8)
      ≡ (if 0 == k then v else slot l k)
front-update l k v hk =
    let e : (l.finished_index + 1) % 8 ≡ (l.finished_index + 1 + 0) % 8 = omega arith in
    rw e (slot-update l.queue l.finished_index 0 k v (omega arith) hk)

-- Another content for the front slot.
marked-Holds :
    (l : RunLoop) (d d' : DispatchItem) (ds : List DispatchItem)
    → d'.reserved ≡ true
    → Holds l (d ∷ ds)
    → Holds (marked l d') (d' ∷ ds)
marked-Holds l d d' ds r h = record {
  finished_lt = h.finished_lt;
  end_eq = h.end_eq;
  count = h.count;
  held = (
    front-update l 0 d' (omega arith),
    r,
    Held-frame (slot l) (slot (marked l d')) 1 ds
        (λ j a b. ground (arith, front-update l j d' (omega (arith, h.count)))) h.held.2,
  );
  free = λ k a b. ground (arith, front-update l k d' b, h.free k a b);
}

slot-popped : (l : RunLoop) (k : ℕ) → k < 7 → slot (popped l) k ≡ slot l (k + 1)
slot-popped l k hk =
    let e : (next_index l + 1 + k) % 8 ≡ (l.finished_index + 1 + (k + 1)) % 8 = omega arith in
    rw e (ground (arith, front-update l (k + 1) zero_item (omega arith)))

popped_last : (l : RunLoop) → slot (popped l) 7 ≡ zero_item
popped_last l =
    let e : (next_index l + 1 + 7) % 8 ≡ (l.finished_index + 1 + 0) % 8 = omega arith in
    rw e (front-update l 0 zero_item (omega arith))

-- The front slot freed.
popped-Holds :
    (l : RunLoop) (d : DispatchItem) (ds : List DispatchItem)
    → Holds l (d ∷ ds)
    → Holds (popped l) ds
popped-Holds l d ds h = record {
  finished_lt = omega arith;
  end_eq = omega (arith, h.end_eq);
  count = omega (arith, h.count);
  held =
      Held-shift (slot l) (slot (popped l)) 0 ds (λ j a b. slot-popped l j (omega (arith, h.count)))
        h.held.2;
  free = λ k a b. elim (ℕ_discrete k 7) [
    | yes at_end ↦ rw at_end (popped_last l)
    | no inside ↦
        slot-popped l k (omega arith) ∙ h.free (k + 1) (omega (arith, h.count)) (omega arith)
  ];
}

finish_if_needed_lem :
    (l : RunLoop) (d : DispatchItem) (ds : List DispatchItem)
    → Holds l (d ∷ ds)
    → d.handled ≡ true
    → Holds (finish_if_needed (next_index l) l) (if d.data_handled then ds else d ∷ ds)
unfolding finish_if_needed
finish_if_needed_lem l d ds h e = elim (Bool-cases d.data_handled) [
  | inl t ↦ simp (front_slot l d ds h, e, t) (popped-Holds l d ds h)
  | inr f ↦ simp (front_slot l d ds h, e, f) h
]

pending_item_front :
    (l : RunLoop) (d : DispatchItem)
    → next_dispatch_item l ≡ d
    → pending_item l ≡ (
        if is_item_empty d
        then fails grle_empty
        else if d.handled
        then fails grle_invalid_state
        else done
            (d.item, finish_if_needed (next_index l) (marked l (record d { handled = true }))))
unfolding pending_item
pending_item_front l d e = simp (pending_item, e)

-- On a ring that holds a list of events, the fetch of an item answers as the list does on every
-- branch, and the ring then holds the list that is left.
pub pending_item-Refines :
    (l : RunLoop) (ds : List DispatchItem) → Holds l ds → Refines (pending_item l) (front_item ds)
unfolding pending_item front_item
pending_item-Refines l [] h = simp (idle_slot l h)
pending_item-Refines l (d ∷ ds) h = elim (Bool-cases (is_item_empty d)) [
  | inl empty ↦ simp empty (pending_item_front l d (front_slot l d ds h) ∙ simp empty)
  | inr full ↦ elim (Bool-cases d.handled) [
    | inl t ↦ simp (full, t) (pending_item_front l d (front_slot l d ds h) ∙ simp (full, t))
    | inr f ↦
        simp (full, f)
          (
            finish_if_needed (next_index l) (marked l (record d { handled = true })),
            pending_item_front l d (front_slot l d ds h) ∙ simp (full, f),
            finish_if_needed_lem (marked l (record d { handled = true }))
                (record d { handled = true }) ds
                (marked-Holds l d (record d { handled = true }) ds h.held.1 h) refl,
          )
  ]
]

pending_item_data_front :
    (l : RunLoop) (d : DispatchItem)
    → next_dispatch_item l ≡ d
    → pending_item_data l ≡ (
        if is_item_empty d
        then fails grle_empty
        else if not d.handled
        then fails grle_invalid_state
        else if d.data_handled
        then fails grle_invalid_state
        else done (
          copied d.bytes 0 d.item.data_size_bytes,
          finish_if_needed (next_index l) (marked l (record d { data_handled = true })),
        ))
unfolding pending_item_data
pending_item_data_front l d e = simp (pending_item_data, e)

-- On a ring that holds a list of events, the fetch of an item's data answers as the list does on
-- every branch, and the ring then holds the list that is left.
pub pending_item_data-Refines :
    (l : RunLoop) (ds : List DispatchItem)
    → Holds l ds
    → Refines (pending_item_data l) (front_data ds)
unfolding pending_item_data front_data
pending_item_data-Refines l [] h = simp (idle_slot l h)
pending_item_data-Refines l (d ∷ ds) h = elim (Bool-cases (is_item_empty d)) [
  | inl empty ↦ simp empty (answer ∙ simp empty)
  | inr full ↦ elim (Bool-cases d.handled) [
    | inr f ↦ simp (full, f) (answer ∙ simp (full, f))
    | inl t ↦ elim (Bool-cases d.data_handled) [
      | inl u ↦ simp (full, t, u) (answer ∙ simp (full, t, u))
      | inr g ↦
          simp (full, t, g)
            (
              finish_if_needed (next_index l) (marked l fetched),
              answer ∙ simp (full, t, g),
              finish_if_needed_lem (marked l fetched) fetched ds
                  (marked-Holds l d fetched ds h.held.1 h) t,
            )
    ]
  ]
]
  where
    fetched : DispatchItem
    fetched = record d { data_handled = true }

    answer : pending_item_data l ≡ (
        if is_item_empty d
        then fails grle_empty
        else if not d.handled
        then fails grle_invalid_state
        else if d.data_handled
        then fails grle_invalid_state
        else done (
          copied d.bytes 0 d.item.data_size_bytes,
          finish_if_needed (next_index l) (marked l fetched),
        ))
    answer = pending_item_data_front l d (front_slot l d ds h)
