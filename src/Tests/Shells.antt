-- ===== src/Tests/Shells.antt =====
-- A shell with one command, "h".
use gunw_os.Prelude.{
  ℕ, ◌+◌, ◌≡◌, refl, Array, List, [], ◌∷◌, Option, none, some, ◌==◌, if◌then◌else◌, arith,
}
use gunw_os.Prelude.Outcome.{Returns}
use gunw_os.Text.{literal}
use gunw_os.Shell.{Console, Shell, prompt_text, append}
use gunw_os.Shell.Line.{Holds}
use gunw_os.Shell.Keys.{Shows, typed_all, on_events, on_events-Shows}
use gunw_os.Shell.Command.{append-command}

-- The console counts what is shown; the command adds 1000.
abbrev counted : Option (Array ℕ) → ℕ → ℕ
counted params w = w + 1000

abbrev console : Console ℕ
console = record {
  putc = λ c w. w + 1;
  puts = λ s w. w + 1;
  putin = λ n w. w + 1;
  selector = λ name. if name 0 == 104 then some counted else none;
}

abbrev fresh : Shell ℕ
fresh = record { cmd_buf = λ j. 0; cmd_buf_index = 0; kmod = 0; world = 0 }

fresh-Holds : Holds console fresh []
fresh-Holds = record { index = refl; short = omega arith; chars = λ j. refl }

-- Left shift, "h", and both released.
abbrev keys : List (ℕ × ℕ)
keys = (0, 42) ∷ (0, 35) ∷ (1, 35) ∷ (1, 42) ∷ []

on_events-Shows_example :
    Returns (Shows console (typed_all ([], 0) keys)) (on_events console keys fresh)
on_events-Shows_example =
    on_events-Shows console keys fresh []
      (
        omega arith,
        omega arith,
        (omega arith, omega arith, (omega arith, omega arith, (omega arith, omega arith, tt))),
      )
      fresh-Holds

abbrev ready : Shell ℕ
ready = record { cmd_buf = literal (104 ∷ 32 ∷ 120 ∷ []); cmd_buf_index = 3; kmod = 0; world = 7 }

ready-Holds : Holds console ready (104 ∷ 32 ∷ 120 ∷ [])
ready-Holds = record { index = refl; short = omega arith; chars = λ j. refl }

append-command_example :
    (append console 10 ready).world
    ≡ console.puts prompt_text
        (console.putc 10 (counted (some (literal (120 ∷ []))) (console.putc 10 7)))
append-command_example =
    append-command console ready (104 ∷ []) (120 ∷ []) counted
      (λ q. omega arith, λ q. omega arith, tt) ready-Holds refl
