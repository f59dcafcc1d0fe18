-- ===== src/Sessions/Keyboard.antt =====
-- src/system/user/gnwkbdm: the keyboard manager. keyboard.c and session.c, and the notification of
-- manager.c. A message to a process is a call of the kernel; a `fug` is an `oops`.
pub mod Kept
pub mod Events
use gunw_os.Prelude.Outcome.{Outcome, ok, oops, ◌>>=◌}
use gunw_os.Prelude.Int.{ℤ}
use gunw_os.Prelude.{
  ℕ, zero, suc, Array, update, Bool, not, ◌&&◌, leb, ◌==◌, if◌then◌else◌, Option, none, some,
  is_some,
}
use gunw_os.Kernel.{none_proc_id}
use gunw_os.Ipc.{IpcError, gipce_forbidden, gipce_not_found}
use gunw_os.Dev.Errors.{DeviceError, gde_none, gde_operation_failed, gde_already_held}
use gunw_os.Sessions.{session_for_proc, free_session, push, pull}

-- A device event as the handler reads it: its type, the byte at its data if there is a pointer to
-- it, and its size.
pub record KeyEvent : Type 0 where
  pub type : ℕ
  pub key : Option ℕ
  pub size : ℕ

-- `sessions` and `keyboardStack`, with the state of the kernel.
pub record Manager (W : Type 0) : Type 0 where
  pub procs : Array ℤ
  pub stack : Array (Option ℕ)
  pub kernel : W

abbrev pub initial : {W : Type 0} → W → Manager W
initial w = record { procs = λ s. none_proc_id; stack = λ i. none; kernel = w }

module _ {W : Type 0} where
  unfoldable pub session_on_top : Manager W → Option ℕ
  session_on_top m = m.stack 0

  unfoldable pub session_create : ℤ → Manager W → DeviceError × Option ℕ × Manager W
  unfolding free_session
  session_create p m = elim (free_session m.procs) [
    | none ↦ (gde_operation_failed, none, m)
    | some s ↦ (gde_none, some s, record m { procs = update m.procs s p })
  ]

  abbrev pub raise : Option (Array (Option ℕ)) → Manager W → DeviceError × Manager W
  raise none m = (gde_operation_failed, m)
  raise (some stack) m = (gde_none, record m { stack = stack })

  unfoldable pub session_enable : ℕ → Manager W → DeviceError × Manager W
  session_enable s m = raise (push s m.stack) m

  unfoldable pub session_destroy : ℕ → Manager W → Manager W
  session_destroy s m = record m { stack = pull s m.stack; procs = update m.procs s none_proc_id }

  unfoldable pub on_session_destroy : ℤ → Manager W → Manager W
  unfolding session_for_proc session_destroy
  on_session_destroy p m = elim (session_for_proc p m.procs) [
    | none ↦ m
    | some s ↦ session_destroy s m
  ]

  abbrev pub enabled : ℕ → DeviceError × Manager W → DeviceError × Manager W
  enabled s (gde_none, m) = (gde_none, m)
  enabled s (e, m) = (e, session_destroy s m)

  abbrev pub enable_created : DeviceError × Option ℕ × Manager W → Outcome (DeviceError × Manager W)
  enable_created (gde_none, none, m) = oops
  enable_created (gde_none, some s, m) = ok (enabled s (session_enable s m))
  enable_created (e, s, m) = ok (e, m)

  unfoldable pub keyboard_attach : ℤ → Manager W → Outcome (DeviceError × Manager W)
  unfolding session_for_proc session_create session_enable session_destroy
  keyboard_attach p m =
      if is_some (session_for_proc p m.procs)
      then ok (gde_already_held, m)
      else enable_created (session_create p m)

  -- What follows the message: a session whose process does not take it ends.
  abbrev pub sent : ℕ → Option IpcError × W → Manager W → Outcome (Manager W)
  sent s (none, w) m = ok (record m { kernel = w })
  sent s (some gipce_forbidden, w) m = ok (session_destroy s (record m { kernel = w }))
  sent s (some gipce_not_found, w) m = ok (session_destroy s (record m { kernel = w }))
  sent s (some e, w) m = oops

  module _ (send : ℤ → ℕ → ℕ → W → Option IpcError × W) where
    abbrev pub send_to : Option ℕ → ℕ → ℕ → Manager W → Outcome (Manager W)
    send_to none type key m = ok m
    send_to (some s) type key m = sent s (send (m.procs s) type key m.kernel) m

    unfoldable pub on_device_event : Option KeyEvent → Manager W → Outcome (Manager W)
    unfolding session_on_top session_destroy
    on_device_event none m = oops
    on_device_event (some e) m = elim e.key [
      | none ↦ oops
      | some key ↦
          if not (e.size == 1)
          then oops
          else if not (leb e.type 1)
          then oops
          else send_to (session_on_top m) e.type key m
    ]
