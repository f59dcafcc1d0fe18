-- ===== src/Tests/Queues.antt =====
-- src/system/kernel/queue/queue.c on small queues.
use gunw_os.Prelude.Outcome.{ok}
use gunw_os.Prelude.{ℕ, zero, suc, ◌≡◌, refl, true, false, none, List, [], ◌∷◌, arith}
use gunw_os.Queue.{Queue, dfe_none, Call, call_void, call_arch, call_arch_arch}
use gunw_os.Queue.Rounds.{Holds}
use gunw_os.Queue.Loop.{dispatch_all-Queued, run, fifo, run-fifo}

abbrev idle : Queue ℕ
idle = record {
  entries = λ _. record {
    reserved = false;
    func = record { type = dfe_none; ptr = none; param0 = 0; param1 = 0 };
    next = none;
  };
  current = none;
  running = true;
}

idle-Holds : Holds idle []
idle-Holds = record {
  slots = [];
  valid = record { linked = refl; distinct = tt; bounded = λ j e. cc; reserved = λ j lt. refl };
  content = refl;
  is_running = refl;
}

abbrev two_calls : List (Call ℕ)
two_calls = call_void 7 ∷ call_arch 8 5 ∷ []

-- A queue in which two calls wait.
abbrev busy : Queue ℕ
busy = (dispatch_all-Queued idle [] two_calls idle-Holds (omega arith)).0

busy-Holds : Holds busy two_calls
busy-Holds = (dispatch_all-Queued idle [] two_calls idle-Holds (omega arith)).2

abbrev repeated : ℕ → List (Call ℕ)
repeated zero = []
repeated (suc n) = call_void 1 ∷ repeated n

abbrev full : Queue ℕ
full = (dispatch_all-Queued idle [] (repeated 64) idle-Holds (omega arith)).0

full-Holds : Holds full (repeated 64)
full-Holds = (dispatch_all-Queued idle [] (repeated 64) idle-Holds (omega arith)).2

-- The first function queues one more call.
abbrev spawning : Call ℕ → List (Call ℕ)
spawning (call_void f) = call_arch_arch 4 f 1 ∷ []
spawning (call_arch f p0) = []
spawning (call_arch_arch f p0 p1) = []

run-fifo_example :
    (t : Queue ℕ × List (Call ℕ)) × (run spawning 4 (busy, []) ≡ ok t)
    × Holds t.0 (fifo spawning 4 two_calls []).0
    × (t.1 ≡ (fifo spawning 4 two_calls []).1)
run-fifo_example =
    run-fifo spawning 4 two_calls (busy, []) busy-Holds
      (omega arith, (omega arith, (omega arith, tt)))
