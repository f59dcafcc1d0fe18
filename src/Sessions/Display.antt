-- ===== src/Sessions/Display.antt =====
-- src/system/user/gnwdispm: the display manager. public.c, privileged.c and session.c, and the
-- notification of manager.c; the sessions are three arrays with one slot for each. The calls of
-- the kernel's devices come back with an error code or halt the kernel; a `fug` is an `oops`.
pub mod Kept
pub mod Attach
pub mod Reach
pub mod Choice
pub mod Kernel
use gunw_os.Prelude.Outcome.{Outcome, ok, oops, fault, ◌>>=◌}
use gunw_os.Prelude.Int.{ℤ, pos, negsuc, eq_ℤ}
use gunw_os.Prelude.{
  ℕ, zero, suc, ◌/◌, ◌%◌, ◌<◌, ◌≡◌, Array, update, Bool, true, false, not, ◌&&◌, ltb, ◌==◌,
  if◌then◌else◌, Option, none, some, is_some,
}
use gunw_os.Kernel.{none_proc_id}
use gunw_os.Dev.Errors.{
  DeviceError, gde_none, gde_not_found, gde_unknown, gde_operation_failed, gde_id_invalid,
  gde_already_held, gde_handle_invalid, gde_busy,
}
use gunw_os.Dev.Descriptor.{AddrRange}
use gunw_os.Dev.Access.{ParamDescriptor}
use gunw_os.Sessions.{is, session_for_proc, free_session, push, pull}

-- `enum gnwDisplayType`
pub data DisplayType : Type 0 where
  text graphics : DisplayType

abbrev is_text_type : DisplayType → Bool
is_text_type text = true
is_text_type graphics = false

-- `struct gnwDisplayDescriptor`
pub record DisplayDescriptor : Type 0 where
  pub identifier : ℕ
  pub width : ℤ
  pub height : ℤ
  pub format : ℕ

-- What `memzero` leaves of a descriptor.
abbrev pub zero_descriptor : DisplayDescriptor
zero_descriptor = record { identifier = 0; width = pos 0; height = pos 0; format = 0 }

-- `GDD_FMT_ISTEXT`: bit 7 is clear.
abbrev pub is_text : ℕ → Bool
is_text format = format / 128 % 2 == 0

-- `a == b` of two truth values.
abbrev pub same : Bool → Bool → Bool
same true b = b
same false b = not b

abbrev pub succeeded : DeviceError → Bool
succeeded gde_none = true
succeeded e = false

-- The calls of the kernel, with what the kernel knows as a state. A display by type is an identifier
-- and the number of its formats; the descriptor of `setDisplayFormat` has one field set, the format.
-- The kernel finds a device by its identifier only if that is below 8. Kernel.antt fills the record
-- with the routines of the kernel.
pub record Calls (W : Type 0) : Type 0 where
  pub get_display : W → Outcome (DeviceError × ℕ × ℕ)
  pub get_by_id : ℕ → W → Outcome DeviceError
  pub get_param : ℕ → ParamDescriptor → W → Outcome ((DeviceError × ℕ) × W)
  pub set_format : ℕ → ℕ → W → Outcome (DeviceError × W)
  pub mem_write : ℕ → ℕ → AddrRange → W → Outcome (DeviceError × W)
  pub known_lt : (id : ℕ) (w : W) → get_by_id id w ≡ ok gde_none → id < 8

-- `sessions` and `displayStack`, with the state of the kernel.
pub record Manager (W : Type 0) : Type 0 where
  pub procs : Array ℤ
  pub descriptors : Array DisplayDescriptor
  pub stacks : Array (Array (Option ℕ))
  pub device : W

-- The state that `display_init` sets up.
abbrev pub initial : {W : Type 0} → W → Manager W
initial w = record {
  procs = λ s. none_proc_id;
  descriptors = λ s. zero_descriptor;
  stacks = λ d i. none;
  device = w;
}

-- `displayStack` has eight rows.
abbrev pub in_rows {ℓ} : {A : Type ℓ} → ℕ → Outcome A → Outcome A
in_rows id rest = if ltb id 8 then rest else fault

module _ {W : Type 0} where
  abbrev pub cleared : ℕ → Manager W → Manager W
  cleared s m =
      let id = (m.descriptors s).identifier in
      record m {
        stacks = update m.stacks id (pull s (m.stacks id));
        procs = update m.procs s none_proc_id;
        descriptors = update m.descriptors s zero_descriptor;
      }

  unfoldable pub session_destroy : ℕ → Manager W → Outcome (Manager W)
  session_destroy s m = in_rows (m.descriptors s).identifier (ok (cleared s m))

  unfoldable pub session_create :
      ℤ → DisplayDescriptor → Manager W → DeviceError × Option ℕ × Manager W
  unfolding free_session
  session_create p d m = elim (free_session m.procs) [
    | none ↦ (gde_operation_failed, none, m)
    | some s ↦ (
      gde_none,
      some s,
      record m { procs = update m.procs s p; descriptors = update m.descriptors s d },
    )
  ]

  unfoldable pub session_is_on_top : ℕ → Manager W → Bool
  session_is_on_top s m = is s (m.stacks (m.descriptors s).identifier 0)

  -- `onSessionDestroy`, for the process that the notification names.
  unfoldable pub on_session_destroy : ℤ → Manager W → Outcome (Manager W)
  unfolding session_for_proc session_destroy
  on_session_destroy p m = elim (session_for_proc p m.procs) [
    | none ↦ ok m
    | some s ↦ session_destroy s m
  ]

  module _ (calls : Calls W) where
    abbrev pub raise : ℕ → Option (Array (Option ℕ)) → Manager W → Outcome (DeviceError × Manager W)
    raise s none m = ok (gde_operation_failed, m)
    raise s (some stack) m =
        let d = m.descriptors s in
        calls.set_format d.identifier d.format m.device >>= λ (e, w).
        ok (e, record m { stacks = update m.stacks d.identifier stack; device = w })

    unfoldable pub session_enable : ℕ → Manager W → Outcome (DeviceError × Manager W)
    session_enable s m =
        let id = (m.descriptors s).identifier in in_rows id (raise s (push s (m.stacks id)) m)

    abbrev pub enabled : ℕ → DeviceError × Manager W → Outcome (DeviceError × Manager W)
    enabled s (e, m) =
        if succeeded e then ok (gde_none, m) else session_destroy s m >>= λ m'. ok (e, m')

    abbrev pub enable_created :
        DeviceError × Option ℕ × Manager W → Outcome (DeviceError × Manager W)
    enable_created (gde_none, none, m) = oops
    enable_created (gde_none, some s, m) = session_enable s m >>= enabled s
    enable_created (e, s, m) = ok (e, m)

    unfoldable pub display_attach_to_display :
        ℤ → DisplayType → Option DisplayDescriptor → Manager W → Outcome (DeviceError × Manager W)
    unfolding session_enable session_create session_destroy session_for_proc
    display_attach_to_display p type none m = oops
    display_attach_to_display p type (some d) m =
        calls.get_by_id d.identifier m.device >>= λ answer.
        if not (succeeded answer)
        then ok (answer, m)
        else if not (same (is_text d.format) (is_text_type type))
        then ok (gde_id_invalid, m)
        else if is_some (session_for_proc p m.procs)
        then ok (gde_already_held, m)
        else enable_created (session_create p d m)

    -- The write of a frame, and the end of a session whose write fails.
    abbrev pub write_frame : ℕ → ℕ → ℕ → AddrRange → Manager W → Outcome (DeviceError × Manager W)
    write_frame s id buffer range m = calls.mem_write id buffer range m.device >>= λ (e, w).
        let m' = record m { device = w } in
        if succeeded e then ok (e, m') else (session_destroy s m' >>= λ n. ok (e, n))

    abbrev pub push_from :
        Option ℕ → ℕ → ℕ → AddrRange → Manager W → Outcome (DeviceError × Manager W)
    push_from none id buffer range m = ok (gde_handle_invalid, m)
    push_from (some s) id buffer range m =
        if not ((m.descriptors s).identifier == id)
        then (session_destroy s m >>= λ n. ok (gde_handle_invalid, n))
        else in_rows id (
            if not (session_is_on_top s m)
            then ok (gde_busy, m)
            else write_frame s id buffer range m)

    unfoldable pub display_push_frame :
        ℤ → ℕ → ℕ → AddrRange → Manager W → Outcome (DeviceError × Manager W)
    unfolding session_is_on_top session_destroy session_for_proc
    display_push_frame p id buffer range m =
        if buffer == 0 then oops else push_from (session_for_proc p m.procs) id buffer range m
