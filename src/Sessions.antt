-- ===== src/Sessions.antt =====
-- src/system/user/gnwdispm/session.c and src/system/user/gnwkbdm/session.c: what the two managers
-- share, their sessions and the stack of sessions. A session is the number of its slot, a pointer to
-- one an `Option`, with `none` for the null pointer. A `fug` ends the process: it is an `oops`.
pub mod Stack
pub mod Slots
pub mod Display
pub mod Keyboard
use gunw_os.Prelude.Int.{ℤ, eq_ℤ}
use gunw_os.Prelude.{
  ℕ, zero, suc, Array, update, first, Bool, false, ◌&&◌, ltb, ◌==◌, if◌then◌else◌, Option, none,
  some, is_some, min,
}
use gunw_os.Kernel.{none_proc_id}

-- `MAX_SESSION`
abbrev pub max_session : ℕ
max_session = 8

-- `stack[i] == sessionPtr`, for a session.
abbrev pub is : ℕ → Option ℕ → Bool
is s none = false
is s (some t) = s == t

-- The slots `procId` of the sessions.
unfoldable pub session_for_proc : ℤ → Array ℤ → Option ℕ
session_for_proc p procs =
    let i = first (λ j. eq_ℤ (procs j) p) 0 8 in if ltb i 8 then some i else none

unfoldable pub free_session : Array ℤ → Option ℕ
unfolding session_for_proc
free_session procs = session_for_proc none_proc_id procs

-- `for (; i > 0; --i) if (stack[i-1] != sessionPtr) stack[i] = stack[i-1];`
unfoldable pub shift_up : ℕ → ℕ → Array (Option ℕ) → Array (Option ℕ)
shift_up s zero stack = stack
shift_up s (suc i) stack =
    shift_up s i (if is s (stack i) then stack else update stack (suc i) (stack i))

-- The stack with the session on top, or `none` for a full stack.
unfoldable pub push : ℕ → Array (Option ℕ) → Option (Array (Option ℕ))
push s stack =
    let i = first (λ j. is s (stack j)) 0 8 in
    if i == 8 && is_some (stack 7)
    then none
    else some (update (shift_up s (min i 7) stack) 0 (some s))

-- `for (i = n - 1; i >= 0; --i) if (stack[i] == sessionPtr) break;`: the number of slots up to i.
unfoldable pub find_last : ℕ → ℕ → Array (Option ℕ) → ℕ
find_last s zero stack = zero
find_last s (suc i) stack = let rest = find_last s i stack in if is s (stack i) then suc i else rest

-- The shift of `sessionDestroy`, from slot i - 1 to slot 0.
unfoldable pub shift_down : ℕ → Array (Option ℕ) → Array (Option ℕ)
shift_down zero stack = stack
shift_down (suc i) stack = shift_down i (update stack i (if i == 7 then none else stack (suc i)))

unfoldable pub pull : ℕ → Array (Option ℕ) → Array (Option ℕ)
unfolding find_last shift_down
pull s stack = shift_down (find_last s 8 stack) stack
