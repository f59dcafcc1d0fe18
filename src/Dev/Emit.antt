-- ===== src/Dev/Emit.antt =====
-- src/system/kernel/dev/dev.c: an event of the device whose interrupt is serviced.
use gunw_os.Prelude.Outcome.{Outcome, ok, oops, fault, ◌>>=◌}
use gunw_os.Prelude.Int.{ℤ, eq_ℤ}
use gunw_os.Prelude.{ℕ, ◌+◌, not, ◌==◌, if◌then◌else◌, Option, none, some, is_some}
use gunw_os.Kernel.{none_proc_id, ProcError, pe_none, pe_ignored, pe_access_violation}
use gunw_os.Proc.{k_proc_callback_invoke_ptr}
use gunw_os.Mem.Zone.{k_mem_buffer_zone_valid_for_proc}
use gunw_os.Dev.Errors.{
  DeviceError, gde_none, gde_not_found, gde_invalid_device_state, gde_handle_invalid,
  gde_listener_invalid, gde_unknown,
}
use gunw_os.Dev.{Machine, Device, validate_installed_id, on_success}
use gunw_os.Dev.Event.{DeviceEvent, gnw_device_event_encode}

-- `sizeof(struct gnwDeviceEvent)` and `GNW_DEVICEEVENT_ENCODEDSIZE`
abbrev pub device_event_size : ℕ
device_event_size = 12

abbrev pub device_event_encoded_size : ℕ
device_event_encoded_size = 8

abbrev pub emit_error : ProcError → DeviceError
emit_error pe_none = gde_none
emit_error pe_ignored = gde_handle_invalid
emit_error pe_access_violation = gde_listener_invalid
emit_error _ = gde_unknown

module _ {S : Type 0} where
  -- The device of the entry that `k_hal_servicedDevIdPtr` points to.
  abbrev pub serviced_dev_id : ℕ → Machine S → ℕ
  serviced_dev_id irq m = (m.hal.isr_reg irq).dev_id

  unfoldable pub validate_emitter : Option ℕ → Machine S → Outcome DeviceError
  validate_emitter none m = oops
  validate_emitter (some irq) m =
      if not (validate_installed_id (serviced_dev_id irq m) m)
      then oops
      else if not (m.devices (serviced_dev_id irq m)).started
      then ok gde_invalid_device_state
      else ok gde_none

  unfoldable pub validate_listener_invocation : ℕ → Machine S → Outcome DeviceError
  validate_listener_invocation id m =
      if not (is_some (m.devices id).listener)
      then ok gde_not_found
      else if not (is_some (m.devices id).decoder)
      then oops
      else if eq_ℤ (m.devices id).holder none_proc_id
      then oops
      else ok gde_none

  -- The callback of the holder; `routine` is the address of the listener.
  unfoldable pub call_listener :
      DeviceEvent → Device S → ℕ → Machine S → Outcome (DeviceError × Machine S)
  call_listener e dev routine m =
      k_proc_callback_invoke_ptr dev.holder routine (some e) device_event_size
        (device_event_encoded_size + e.data_size_bytes) (some gnw_device_event_encode) dev.decoder
        m.kernel
      >>= λ (error, k). ok (emit_error error, record m { kernel = k })

  -- The call through the listener; `validateListenerInvocation` has excluded a null pointer.
  abbrev pub call_listener_ptr :
      DeviceEvent → Device S → Option ℕ → Machine S → Outcome (DeviceError × Machine S)
  call_listener_ptr e dev none m = fault
  call_listener_ptr e dev (some routine) m = call_listener e dev routine m

  unfoldable pub emit_from : DeviceEvent → ℕ → Machine S → Outcome (DeviceError × Machine S)
  unfolding validate_listener_invocation call_listener
  emit_from e id m =
      on_success (validate_listener_invocation id m) m
        (call_listener_ptr e (m.devices id) (m.devices id).listener m)

  -- `k_dev_emit` for the device of an interrupt.
  unfoldable pub emit_for : DeviceEvent → Option ℕ → Machine S → Outcome (DeviceError × Machine S)
  unfolding validate_emitter
  emit_for e none m = validate_emitter none m >>= λ _. oops
  emit_for e (some irq) m =
      on_success (validate_emitter (some irq) m) m (emit_from e (serviced_dev_id irq m) m)

  -- `k_dev_emit`: the event is at an address.
  unfoldable pub k_dev_emit : ℤ → ℕ → DeviceEvent → Machine S → Outcome (DeviceError × Machine S)
  unfolding emit_for emit_from
  k_dev_emit p event_ptr e m =
      if event_ptr == 0
      then oops
      else (k_mem_buffer_zone_valid_for_proc p event_ptr device_event_size >>= λ valid.
          if not valid
          then oops
          else if e.data_ptr == 0
          then oops
          else if e.data_size_bytes == 0
          then oops
          else (k_mem_buffer_zone_valid_for_proc p e.data_ptr e.data_size_bytes >>= λ valid'.
              if not valid' then oops else emit_for e m.hal.serviced m))
