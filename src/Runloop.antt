-- ===== src/Runloop.antt =====
-- src/system/kernel/runloop/runloop.c: a ring of eight event slots for each process.
-- `D` stands for the objects that callers hand over by `data` pointers; code addresses are numbers.
-- Where an out parameter may be null, the argument tells whether it points anywhere.
pub mod Ring
pub mod Events
pub mod Delivery
use gunw_os.Prelude.Outcome.{Outcome, ok, oops, fault, ◌>>=◌, Answer, done, fails}
use gunw_os.Prelude.Int.{ℤ, pos, leb_ℤ, index}
use gunw_os.Prelude.{
  ℕ, zero, suc, ◌+◌, ◌*◌, ◌%◌, Bool, true, false, not, ◌&&◌, ◌||◌, Option, none, some, List, [],
  ◌∷◌, Array, update, ltb, ◌==◌, if◌then◌else◌, is_some,
}

abbrev pub dispatch_queue_size : ℕ
dispatch_queue_size = 8

abbrev pub dispatch_max_data_size_bytes : ℕ
dispatch_max_data_size_bytes = 7 * 1024

abbrev pub max_proc : ℕ
max_proc = 5

-- `enum gnwEventFormat`
pub data EventFormat : Type 0 where
  gef_none gef_void gef_ptr : EventFormat

-- `enum gnwRunLoopError`, without the success code.
pub data RunLoopError : Type 0 where
  grle_empty grle_full grle_invalid_state grle_invalid_parameter grle_unknown : RunLoopError

-- `struct gnwRunLoopDispatchItem`
pub record RunLoopDispatchItem : Type 0 where
  pub format : EventFormat
  pub routine : ℕ
  pub data_size_bytes : ℕ
  pub decoded_data_size_bytes : ℕ
  pub decode : Option ℕ

-- `struct dispatchItem`
pub record DispatchItem : Type 0 where
  pub reserved : Bool
  pub handled : Bool
  pub data_handled : Bool
  pub item : RunLoopDispatchItem
  pub bytes : Array ℕ

-- `struct runLoop`
pub record RunLoop : Type 0 where
  pub queue : Array DispatchItem
  pub finished_index : ℕ
  pub end_index : ℕ

-- What `memzero` makes of an item and of a run loop.
abbrev pub zero_item : DispatchItem
zero_item = record {
  reserved = false;
  handled = false;
  data_handled = false;
  item = record {
    format = gef_none;
    routine = 0;
    data_size_bytes = 0;
    decoded_data_size_bytes = 0;
    decode = none;
  };
  bytes = λ _. 0;
}

abbrev pub zero_loop : RunLoop
zero_loop = record { queue = λ _. zero_item; finished_index = 0; end_index = 0 }

abbrev pub RunLoops : Type 0
RunLoops = Array RunLoop

abbrev pub next_index : RunLoop → ℕ
next_index l = (l.finished_index + 1) % dispatch_queue_size

-- `nextDispatchItem`
abbrev pub next_dispatch_item : RunLoop → DispatchItem
next_dispatch_item l = l.queue (next_index l)

abbrev pub is_item_empty : DispatchItem → Bool
is_item_empty d = elim d.item.format [ gef_none ↦ true | _ ↦ false ]

-- `GNWEVENT_ACCEPTS_DATA`
abbrev pub accepts_data : EventFormat → Bool
accepts_data f = elim f [ gef_ptr ↦ true | _ ↦ false ]

-- Access to `rlp_main[procId]` behind the test `IN_RANGE(0, procId, MAX_PROC)`, which lets the
-- identifier `MAX_PROC` through to an index outside the array.
unfoldable pub at_loop {ℓ} : {A : Type ℓ} → ℤ → RunLoops → (RunLoop → Outcome A) → Outcome A
at_loop p rs f =
    if not (leb_ℤ (pos 0) p && leb_ℤ p (pos max_proc))
    then oops
    else if ltb (index p) max_proc
    then f (rs (index p))
    else fault

-- `finishIfNeeded`, for the index that `nextDispatchItem` has returned.
pub finish_if_needed : ℕ → RunLoop → RunLoop
finish_if_needed i l =
    if not (next_dispatch_item l).handled || not (next_dispatch_item l).data_handled
    then l
    else record l { queue = update l.queue (next_index l) zero_item; finished_index = i }

-- `k_runloop_reserve` on the loop of a valid process: the token and the loop.
pub reserve : RunLoop → Answer RunLoopError (ℕ × RunLoop)
reserve l =
    let i = (l.end_index + 1) % dispatch_queue_size in
    if (l.queue i).reserved
    then fails grle_full
    else done (
      i,
      record l { queue = update l.queue i (record (l.queue i) { reserved = true }); end_index = i },
    )

abbrev pub on_loop {ℓ} :
    {A : Type ℓ}
    → ℤ
    → RunLoops
    → Answer RunLoopError (A × RunLoop)
    → Answer RunLoopError (A × RunLoops)
on_loop p rs (done (a, l)) = done (a, update rs (index p) l)
on_loop p rs (fails e) = fails e

pub k_runloop_reserve : ℤ → Bool → RunLoops → Outcome (Answer RunLoopError (ℕ × RunLoops))
unfolding at_loop reserve
k_runloop_reserve p token_ptr rs =
    at_loop p rs λ l. if not token_ptr then oops else ok (on_loop p rs (reserve l))

-- The tests of `k_runloop_dispatch` on the item and its data; each that fails halts the kernel. The
-- result is the value that `dataHandled` is left with.
unfoldable pub accept : {D : Type 0} → RunLoopDispatchItem → Option D → Bool → Bool → Outcome Bool
accept item data_ptr encoder was =
    if not (item.data_size_bytes == 0)
    then (if ltb dispatch_max_data_size_bytes item.data_size_bytes
        then oops
        else if not (accepts_data item.format)
        then oops
        else if not (is_some data_ptr)
        then oops
        else if not encoder || not (is_some item.decode)
        then oops
        else ok was)
    else if is_some data_ptr
    then oops
    else ok true

module _ {D : Type 0} where
  -- The rest of `k_runloop_dispatch`: the encoder writes into the slot's buffer.
  pub fill :
      ℕ
      → RunLoopDispatchItem
      → Option D
      → Option (Option D → Array ℕ → Array ℕ)
      → RunLoop
      → Outcome RunLoop
  unfolding accept
  fill token item data_ptr encoder l =
      accept item data_ptr (is_some encoder) (l.queue token).data_handled >>= λ data_handled.
      elim encoder [
        | none ↦ fault
        | some encode ↦ ok (record l {
          queue = update l.queue token (record (l.queue token) {
            data_handled = data_handled;
            item = item;
            bytes = encode data_ptr (l.queue token).bytes;
          });
        })
      ]

  pub k_runloop_dispatch :
      ℤ
      → ℕ
      → RunLoopDispatchItem
      → Option D
      → Option (Option D → Array ℕ → Array ℕ)
      → RunLoops
      → Outcome RunLoops
  unfolding at_loop fill
  k_runloop_dispatch p token item data_ptr encoder rs = at_loop p rs λ l.
      if not (ltb token dispatch_queue_size)
      then oops
      else if not (is_item_empty (l.queue token) && (l.queue token).reserved)
      then oops
      else (fill token item data_ptr encoder l >>= λ l'. ok (update rs (index p) l'))

-- The item at the front, for `getPendingDispatchItem`'s callers.
pub pending_item : RunLoop → Answer RunLoopError (RunLoopDispatchItem × RunLoop)
unfolding finish_if_needed
pending_item l =
    let d = next_dispatch_item l in
    if is_item_empty d
    then fails grle_empty
    else if d.handled
    then fails grle_invalid_state
    else done (
      d.item,
      finish_if_needed (next_index l)
          (record l { queue = update l.queue (next_index l) (record d { handled = true }) }),
    )

unfoldable pub k_runloop_get_pending_item :
    ℤ → Bool → RunLoops → Outcome (Answer RunLoopError (RunLoopDispatchItem × RunLoops))
unfolding at_loop pending_item
k_runloop_get_pending_item p item_ptr rs =
    if not item_ptr then oops else at_loop p rs λ l. ok (on_loop p rs (pending_item l))

unfoldable pub pending_item_data_size_bytes : RunLoop → Answer RunLoopError ℕ
pending_item_data_size_bytes l =
    let d = next_dispatch_item l in
    if is_item_empty d
    then fails grle_empty
    else if not d.handled
    then fails grle_invalid_state
    else if d.data_handled
    then fails grle_invalid_state
    else done d.item.data_size_bytes

unfoldable pub k_runloop_get_pending_item_data_size_bytes :
    ℤ → RunLoops → Outcome (Answer RunLoopError ℕ)
unfolding at_loop pending_item_data_size_bytes
k_runloop_get_pending_item_data_size_bytes p rs =
    at_loop p rs λ l. ok (pending_item_data_size_bytes l)

-- `memcopy` of the first bytes of a buffer.
unfoldable pub copied : Array ℕ → ℕ → ℕ → List ℕ
copied bytes i zero = []
copied bytes i (suc n) = bytes i ∷ copied bytes (i + 1) n

unfoldable pub pending_item_data : RunLoop → Answer RunLoopError (List ℕ × RunLoop)
unfolding finish_if_needed
pending_item_data l =
    let d = next_dispatch_item l in
    if is_item_empty d
    then fails grle_empty
    else if not d.handled
    then fails grle_invalid_state
    else if d.data_handled
    then fails grle_invalid_state
    else done (
      copied d.bytes 0 d.item.data_size_bytes,
      finish_if_needed (next_index l)
          (record l { queue = update l.queue (next_index l) (record d { data_handled = true }) }),
    )

unfoldable pub k_runloop_get_pending_item_data :
    ℤ → Bool → RunLoops → Outcome (Answer RunLoopError (List ℕ × RunLoops))
unfolding at_loop pending_item_data
k_runloop_get_pending_item_data p buffer_ptr rs =
    if not buffer_ptr then oops else at_loop p rs λ l. ok (on_loop p rs (pending_item_data l))

pub k_runloop_is_empty : ℤ → RunLoops → Outcome Bool
unfolding at_loop
k_runloop_is_empty p rs = at_loop p rs λ l. ok (is_item_empty (next_dispatch_item l))

pub k_runloop_proc_cleanup : ℤ → RunLoops → Outcome RunLoops
unfolding at_loop
k_runloop_proc_cleanup p rs = at_loop p rs λ l. ok (update rs (index p) zero_loop)
