-- ===== src/Tests/Events.antt =====
-- src/system/kernel/runloop/runloop.c on small run loops.
use gunw_os.Prelude.Outcome.{ok, done}
use gunw_os.Prelude.{
  ℕ, ◌+◌, ◌%◌, ◌≡◌, refl, true, false, Option, none, some, List, [], ◌∷◌, Array, arith,
}
use gunw_os.Runloop.{
  RunLoop, RunLoopDispatchItem, DispatchItem, zero_loop, reserve, fill, accept, pending_item,
  pending_item_data, copied, gef_ptr,
}
use gunw_os.Runloop.Ring.{Holds, promised, reserved_in, reserve_lem}
use gunw_os.Runloop.Delivery.{delivered, fill_lem, event_round_trip}

zero-Holds : Holds zero_loop []
zero-Holds = record {
  finished_lt = omega arith;
  end_eq = refl;
  count = omega arith;
  held = tt;
  free = λ k a b. refl;
}

abbrev promises : List DispatchItem
promises =
    promised ∷ promised ∷ promised ∷ promised ∷ promised ∷ promised ∷ promised ∷ promised ∷ []

-- All slots are reserved.
abbrev full : RunLoop
full = record { queue = λ _. promised; finished_index = 2; end_index = 2 }

full-Holds : Holds full promises
full-Holds = record {
  finished_lt = omega arith;
  end_eq = refl;
  count = omega arith;
  held = (
    refl,
    refl,
    (
      refl,
      refl,
      (refl, refl, (refl, refl, (refl, refl, (refl, refl, (refl, refl, (refl, refl, tt)))))),
    ),
  );
  free = λ k a b. absurd (omega arith);
}

abbrev event : RunLoopDispatchItem
event = record {
  format = gef_ptr;
  routine = 0x4000;
  data_size_bytes = 3;
  decoded_data_size_bytes = 3;
  decode = some 0x5000;
}

-- Bytes that count up from the object.
abbrev counting : Option ℕ → Array ℕ → Array ℕ
counting none bytes = bytes
counting (some n) bytes = λ i. (n + i) % 256

event-accept : accept {D = ℕ} event (some 254) true false ≡ ok false
unfolding accept
event-accept = refl

abbrev one_promise : RunLoop
one_promise = reserved_in zero_loop 1

one_promise-Holds : Holds one_promise (promised ∷ [])
one_promise-Holds = (reserve_lem zero_loop [] zero-Holds (omega arith)).2

abbrev stored : DispatchItem
stored = delivered event false (counting (some 254) (λ _. 0))

-- One event has been delivered.
abbrev loaded : RunLoop
loaded =
    (fill_lem event (some 254) counting one_promise (promised ∷ []) 0 false one_promise-Holds
      (omega arith) refl event-accept).0

loaded-Holds : Holds loaded (stored ∷ [])
loaded-Holds =
    (fill_lem event (some 254) counting one_promise (promised ∷ []) 0 false one_promise-Holds
      (omega arith) refl event-accept).2

event_round_trip_example :
    (token : ℕ) × (l1 : RunLoop) × (l2 : RunLoop) × (l3 : RunLoop) × (l4 : RunLoop) × (reserve
        zero_loop
      ≡ done (token, l1))
    × (fill token event (some 254) (some counting) l1 ≡ ok l2)
    × (pending_item l2 ≡ done (event, l3))
    × (pending_item_data l3 ≡ done (254 ∷ 255 ∷ 0 ∷ [], l4))
    × Holds l4 []
unfolding copied
event_round_trip_example =
    event_round_trip event (some 254) counting zero_loop zero-Holds event-accept (λ e. cc)
