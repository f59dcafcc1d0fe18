-- ===== src/Dev/Access.antt =====
-- src/system/kernel/dev/dev.c: what a process does with a device.
use gunw_os.Prelude.Outcome.{Outcome, ok, oops}
use gunw_os.Prelude.Int.{ℤ}
use gunw_os.Prelude.{ℕ, ◌-◌, Bool, not, ltb, leb, ◌==◌, if◌then◌else◌, Option, none, some, is_some}
use gunw_os.Dev.Errors.{
  DeviceError, gde_none, gde_invalid_operation, gde_invalid_parameter, gde_invalid_device_state,
  gde_operation_failed, gde_listener_invalid, gde_decoder_invalid, gde_already_set, gde_id_invalid,
}
use gunw_os.Dev.Descriptor.{AddrRange}
use gunw_os.Dev.{Machine, set_device, validate_installed_id, validate_started_device, on_success}

-- `struct gnwDeviceParamDescriptor`
pub record ParamDescriptor : Type 0 where
  pub param : ℕ
  pub sub_param : ℕ
  pub param_index : ℕ

module _ {S : Type 0} where
  abbrev pub if_started :
      ℤ → ℕ → Machine S → Outcome (DeviceError × Machine S) → Outcome (DeviceError × Machine S)
  if_started p id m rest = on_success (validate_started_device p id m) m rest

  abbrev pub call_write :
      Option (ℕ → AddrRange → S → S) → ℕ → AddrRange → Machine S → DeviceError × Machine S
  call_write none buffer range m = (gde_invalid_operation, m)
  call_write (some write) buffer range m =
      (gde_none, record m { drivers = write buffer range m.drivers })

  unfoldable pub k_dev_write_mem :
      ℤ → ℕ → ℕ → AddrRange → Machine S → Outcome (DeviceError × Machine S)
  k_dev_write_mem p id buffer range m =
      let api = (m.devices id).desc.api in
      let size = api.mem_desc.max_input_size_bytes in
      if buffer == 0
      then oops
      else if_started p id m (
          if size == 0
          then ok (gde_invalid_operation, m)
          else if range.size_bytes == 0
          then ok (gde_invalid_parameter, m)
          else if leb size range.offset
          then ok (gde_invalid_parameter, m)
          else if ltb (size - range.offset) range.size_bytes
          then ok (gde_invalid_parameter, m)
          else ok (call_write api.mem_write buffer range m))

  -- The two routines of a character device, one after the other.
  abbrev pub call_char :
      Option (S → Bool × S) → Option (ℕ → S → Bool × S) → ℕ → Machine S → DeviceError × Machine S
  call_char none w c m = (gde_invalid_operation, m)
  call_char (some ready) w c m =
      let (yes_ready, s) = ready m.drivers in
      let m' = record m { drivers = s } in
      if not yes_ready then (gde_invalid_device_state, m') else elim w [
        | none ↦ (gde_invalid_operation, m')
        | some write ↦
            let (written, s') = write c s in
            (if written then gde_none else gde_operation_failed, record m { drivers = s' })
      ]

  unfoldable pub k_dev_write_char : ℤ → ℕ → ℕ → Machine S → Outcome (DeviceError × Machine S)
  k_dev_write_char p id character m =
      let api = (m.devices id).desc.api in
      if_started p id m (ok (call_char api.is_ready_to_write api.char_out_write character m))

  unfoldable pub k_dev_listen :
      ℤ → ℕ → Option ℕ → Option ℕ → Machine S → Outcome (DeviceError × Machine S)
  k_dev_listen p id listener decoder m =
      if not (is_some listener)
      then ok (gde_listener_invalid, m)
      else if not (is_some decoder)
      then ok (gde_decoder_invalid, m)
      else if_started p id m (
          if is_some (m.devices id).listener
          then ok (gde_already_set, m)
          else ok (
            gde_none,
            set_device m id (record (m.devices id) { listener = listener; decoder = decoder }),
          ))

  abbrev pub call_get :
      Option (ℕ → ℕ → ℕ → S → (Bool × ℕ) × S)
      → ParamDescriptor
      → Machine S
      → (DeviceError × ℕ) × Machine S
  call_get none d m = ((gde_invalid_operation, 0), m)
  call_get (some get) d m =
      let (found, s) = get d.param d.sub_param d.param_index m.drivers in
      ((if found.0 then gde_none else gde_operation_failed, found.1), record m { drivers = s })

  -- The answer has the value that the driver writes; the flag tells whether the pointer to it is
  -- not null.
  unfoldable pub k_dev_get_param :
      ℕ → ParamDescriptor → Bool → Machine S → Outcome ((DeviceError × ℕ) × Machine S)
  k_dev_get_param id d result m =
      if not result
      then oops
      else if not (validate_installed_id id m)
      then ok ((gde_id_invalid, 0), m)
      else ok (call_get (m.devices id).desc.api.get_param d m)

  abbrev pub call_set :
      Option (ℕ → ℕ → ℕ → ℕ → S → Bool × S)
      → ParamDescriptor
      → ℕ
      → Machine S
      → DeviceError × Machine S
  call_set none d v m = (gde_invalid_operation, m)
  call_set (some set) d v m =
      let (done, s) = set d.param d.sub_param d.param_index v m.drivers in
      (if done then gde_none else gde_operation_failed, record m { drivers = s })

  unfoldable pub k_dev_set_param :
      ℤ → ℕ → ParamDescriptor → ℕ → Machine S → Outcome (DeviceError × Machine S)
  k_dev_set_param p id d v m =
      if_started p id m (ok (call_set (m.devices id).desc.api.set_param d v m))
