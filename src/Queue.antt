-- ===== src/Queue.antt =====
-- src/system/kernel/queue/queue.c: the kernel's dispatch queue, 64 static slots linked into a chain.
-- `F` stands for the addresses of the functions that can be queued; a null pointer is `none`.
-- The `*next` pointers are slot numbers.
pub mod Chain
pub mod Fifo
pub mod Rounds
pub mod Loop
use gunw_os.Prelude.Outcome.{Outcome, ok, oops, hang, ◌>>=◌}
use gunw_os.Prelude.{
  ℕ, zero, suc, ◌≡◌, Bool, true, false, not, Option, none, some, Array, update, first, leb,
  if◌then◌else◌,
}

abbrev pub max_queue_length : ℕ
max_queue_length = 64

-- `enum dispatchFuncType`
pub data DispatchFuncType : Type 0 where
  dfe_none dfe_void dfe_arch dfe_arch_arch : DispatchFuncType

-- `struct dispatchFunc`
pub record DispatchFunc (F : Type 0) : Type 0 where
  pub type : DispatchFuncType
  pub ptr : Option F
  pub param0 : ℕ
  pub param1 : ℕ

-- `struct dispatchEntry`
pub record DispatchEntry (F : Type 0) : Type 0 where
  pub reserved : Bool
  pub func : DispatchFunc F
  pub next : Option ℕ

-- The file's static variables.
pub record Queue (F : Type 0) : Type 0 where
  pub entries : Array (DispatchEntry F)
  pub current : Option ℕ
  pub running : Bool

-- A queued function with the arguments that it is called with.
pub data Call (F : Type 0) : Type 0 where
  call_void : F → Call F
  call_arch : F → ℕ → Call F
  call_arch_arch : F → ℕ → ℕ → Call F

module _ {F : Type 0} where
  -- The switch of `dispatch` on the type; what a case does not write keeps its old value.
  pub set_func : DispatchFuncType → Option F → ℕ → ℕ → DispatchFunc F → Outcome (DispatchFunc F)
  set_func dfe_none ptr p0 p1 f = oops
  set_func dfe_void ptr p0 p1 f = ok (record f { type = dfe_void; ptr = ptr })
  set_func dfe_arch ptr p0 p1 f = ok (record f { type = dfe_arch; ptr = ptr; param0 = p0 })
  set_func dfe_arch_arch ptr p0 p1 f =
      ok (record { type = dfe_arch_arch; ptr = ptr; param0 = p0; param1 = p1 })

  -- `while (last->next) last = last->next;`
  pub last_entry : ℕ → Array (DispatchEntry F) → ℕ → Outcome ℕ
  last_entry zero es i = hang
  last_entry (suc fuel) es i = elim (es i).next [ none ↦ ok i | some j ↦ last_entry fuel es j ]

  -- The first slot that is not reserved, or the number of slots.
  pub free_index : Queue F → ℕ
  free_index q = first (λ i. not (q.entries i).reserved) 0 max_queue_length

  -- The end of `dispatch`: slot `i`, already written, goes behind the last entry.
  pub link : ℕ → Queue F → Outcome (Queue F)
  link i q = elim q.current [
    | none ↦ ok (record q { current = some i })
    | some c ↦ last_entry max_queue_length q.entries c >>= λ l.
        ok (record q { entries = update q.entries l (record (q.entries l) { next = some i }) })
  ]

  pub dispatch : Option F → DispatchFuncType → ℕ → ℕ → Queue F → Outcome (Queue F)
  dispatch ptr type p0 p1 q =
      if not q.running
      then oops
      else if leb max_queue_length (free_index q)
      then oops
      else (set_func type ptr p0 p1 (q.entries (free_index q)).func >>= λ f.
          link (free_index q) (record q {
            entries =
                update q.entries (free_index q) (record { reserved = true; func = f; next = none });
          }))

  pub k_que_dispatch : F → Queue F → Outcome (Queue F)
  k_que_dispatch f q = dispatch (some f) dfe_void 0 0 q

  pub k_que_dispatch_arch : F → ℕ → Queue F → Outcome (Queue F)
  k_que_dispatch_arch f p0 q = dispatch (some f) dfe_arch p0 0 q

  pub k_que_dispatch_arch_arch : F → ℕ → ℕ → Queue F → Outcome (Queue F)
  k_que_dispatch_arch_arch f p0 p1 q = dispatch (some f) dfe_arch_arch p0 p1 q

  -- The switch of `k_que_start` on the type of an entry with a function.
  unfoldable pub call_of : DispatchFuncType → F → ℕ → ℕ → Option (Call F)
  call_of dfe_none f p0 p1 = none
  call_of dfe_void f p0 p1 = some (call_void f)
  call_of dfe_arch f p0 p1 = some (call_arch f p0)
  call_of dfe_arch_arch f p0 p1 = some (call_arch_arch f p0 p1)

  -- What `k_que_start` calls for an entry, if it does not halt.
  pub call_of_func : DispatchFunc F → Option (Call F)
  unfolding call_of
  call_of_func f = elim f.ptr [ none ↦ none | some p ↦ call_of f.type p f.param0 f.param1 ]

  -- The first half of a round of `k_que_start`: the entry at the front and its call.
  pub fetch : Queue F → Outcome (Option (ℕ × Call F))
  unfolding call_of_func
  fetch q = elim q.current [
    | none ↦ ok none
    | some i ↦
        if not (q.entries i).reserved
        then oops
        else elim (call_of_func (q.entries i).func) [ none ↦ oops | some c ↦ ok (some (i, c)) ]
  ]

  -- The second half: the entry `enqueued`, which has run, is unlinked and freed.
  pub finish : ℕ → Queue F → Queue F
  finish i q = record q {
    current = (q.entries i).next;
    entries = update q.entries i (record {
      reserved = false;
      func = record (q.entries i).func { type = dfe_none };
      next = none;
    });
  }

  -- One round of the loop of `k_que_start`, in a system state that holds the queue. The called
  -- function may itself dispatch.
  module _ {S : Type 0} (get : S → Queue F) (put : Queue F → S → S)
      (invoke : Call F → S → Outcome S) (on_kernel_handling_finished : S → Outcome S) where
    pub round : S → Outcome S
    unfolding fetch finish
    round s = fetch (get s) >>= elim [
      | none ↦ on_kernel_handling_finished s
      | some (i, c) ↦ invoke c s >>= λ t. ok (put (finish i (get t)) t)
    ]

    -- The loop `while (1)` for a given number of rounds.
    pub rounds : ℕ → S → Outcome S
    rounds zero s = ok s
    rounds (suc n) s = round s >>= rounds n

    pub k_que_start : ℕ → S → Outcome S
    k_que_start n s = rounds n (put (record (get s) { running = true }) s)
