-- ===== src/Dev/Preserve.antt =====
-- src/system/kernel/dev/dev.c: the routines for holders keep the table of devices consistent.
pub mod Install
pub mod Emit
use gunw_os.Prelude.Outcome.{
  Ensures, ensures_ok, ensures_oops, ensures_fault, Ensures-if, Ensures-bind, Ensures-then,
}
use gunw_os.Prelude.Int.{ℤ, eq_ℤ, eq_ℤ_iff}
use gunw_os.Prelude.{
  ℕ, zero, suc, ◌+◌, ◌-◌, ◌<◌, ◌≡◌, ◌≢◌, inl, inr, refl, Bool-cases, Bool, true, false, not,
  if_holds, ◌&&◌, Array, update, ltb, leb, ◌==◌, Option, none, some, is_some, arith,
}
use gunw_os.Kernel.{none_proc_id, k_proc_id_is_user}
use gunw_os.Proc.{k_proc_callback_invoke_ptr}
use gunw_os.Mem.Zone.{k_mem_buffer_zone_valid_for_proc}
use gunw_os.Hal.{Hal, k_hal_is_irq_registered, k_hal_install}
use gunw_os.Dev.Errors.{DriverError, gdre_none, DeviceError}
use gunw_os.Dev.Descriptor.{DeviceDescriptor, DriverConfig, AddrRange, validate_device_descriptor}
use gunw_os.Dev.{
  Machine, Device, append_device, new_device, appended, install, k_dev_install, k_dev_start,
  k_dev_acquire_hold, k_dev_release_hold, cleanup_from, validate_installed_id, validate_id,
  require_running, attempt,
}
use gunw_os.Dev.Access.{
  k_dev_write_mem, k_dev_write_char, k_dev_listen, k_dev_set_param, k_dev_get_param,
  ParamDescriptor, call_write, call_char, call_set, call_get,
}
use gunw_os.Dev.Emit.{
  k_dev_emit, emit_for, emit_from, call_listener, call_listener_ptr, serviced_dev_id,
  validate_emitter, validate_listener_invocation, device_event_size, device_event_encoded_size,
}
use gunw_os.Dev.Started.{Ensures-if_started, Ensures-on_success, Ensures-any}
use gunw_os.Dev.Event.{DeviceEvent, gnw_device_event_encode}
use gunw_os.Dev.Invariant.{
  Consistent, IsConsistent, update-Consistent, started-IsEntry, held-IsEntry, freed-IsEntry,
  listening-IsEntry, append-Consistent, register-Consistent,
}

pub none_is_user : k_proc_id_is_user none_proc_id ≡ false
unfolding k_proc_id_is_user
none_is_user = refl

module _ {S : Type 0} where
  pub k_dev_start-Consistent :
      (id : ℕ) (m : Machine S) → IsConsistent m → Ensures (λ r. IsConsistent r.1) (k_dev_start id m)
  unfolding k_dev_start
  k_dev_start-Consistent id m v =
      let started =
        update-Consistent v id _
          (started-IsEntry v id (attempt (m.devices id).desc.driver.start m.drivers).0) in
      Ensures-if (not (validate_id id)) (λ _. ensures_ok v)
        λ _.
          Ensures-if (not (m.devices id).initialized) (λ _. ensures_oops)
            λ _.
              Ensures-if (not (attempt (m.devices id).desc.driver.start m.drivers).0)
                (λ _. ensures_ok started) λ _. ensures_ok started

  pub k_dev_acquire_hold-Consistent :
      (p : ℤ) (id : ℕ) (m : Machine S)
      → IsConsistent m
      → Ensures (λ r. IsConsistent r.1) (k_dev_acquire_hold p id m)
  unfolding k_dev_acquire_hold
  k_dev_acquire_hold-Consistent p id m v =
      Ensures-if (not (validate_installed_id id m)) (λ _. ensures_oops)
        λ inst.
          Ensures-if (not (k_proc_id_is_user p)) (λ _. ensures_oops)
            λ user. Ensures-then (require_running p m) λ _.
              Ensures-if (not (eq_ℤ (m.devices id).holder none_proc_id)) (λ _. ensures_ok v)
                λ free. ensures_ok (
                  update-Consistent v id _ (
                    held-IsEntry v id p (ground arith) (ground arith)
                      ((eq_ℤ_iff _ _).0 (ground arith))))

  pub k_dev_release_hold-Consistent :
      (p : ℤ) (id : ℕ) (m : Machine S)
      → IsConsistent m
      → Ensures IsConsistent (k_dev_release_hold p id m)
  unfolding k_dev_release_hold
  k_dev_release_hold-Consistent p id m v =
      Ensures-if (not (validate_installed_id id m)) (λ _. ensures_oops)
        λ _.
          Ensures-if (eq_ℤ (m.devices id).holder p)
            (λ _. ensures_ok (update-Consistent v id _ (freed-IsEntry v id))) λ _. ensures_ok v

  pub cleanup_from-Consistent :
      (p : ℤ) (id n : ℕ) (m : Machine S)
      → IsConsistent m
      → Ensures IsConsistent (cleanup_from p id n m)
  unfolding cleanup_from
  cleanup_from-Consistent p id zero m v = ensures_ok v
  cleanup_from-Consistent p id (suc n) m v =
      Ensures-bind {Q = IsConsistent}
        (Ensures-if (eq_ℤ (m.devices id).holder p) (λ _. k_dev_release_hold-Consistent p id m v)
          λ _. ensures_ok v)
        λ m' w. cleanup_from-Consistent p (id + 1) n m' w

  pub k_dev_write_mem-Consistent :
      (p : ℤ) (id buffer : ℕ) (range : AddrRange) (m : Machine S)
      → IsConsistent m
      → Ensures (λ r. IsConsistent r.1) (k_dev_write_mem p id buffer range m)
  unfolding k_dev_write_mem
  k_dev_write_mem-Consistent p id buffer range m v =
      let api = (m.devices id).desc.api in
      let size = api.mem_desc.max_input_size_bytes in
      Ensures-if (buffer == 0) (λ _. ensures_oops)
        λ _.
          Ensures-if_started p id m (λ _ _. v)
            λ _.
              Ensures-if (size == 0) (λ _. ensures_ok v)
                λ _.
                  Ensures-if (range.size_bytes == 0) (λ _. ensures_ok v)
                    λ _.
                      Ensures-if (leb size range.offset) (λ _. ensures_ok v)
                        λ _.
                          Ensures-if (ltb (size - range.offset) range.size_bytes)
                            (λ _. ensures_ok v) λ _. ensures_ok (call api.mem_write)
    where
      call : (w : Option (ℕ → AddrRange → S → S)) → IsConsistent (call_write w buffer range m).1
      call none = v
      call (some w) = v

  call_char-Consistent :
      (r : Option (S → Bool × S)) (w : Option (ℕ → S → Bool × S)) (c : ℕ) (m : Machine S)
      → IsConsistent m
      → IsConsistent (call_char r w c m).1
  call_char-Consistent none w c m v = v
  call_char-Consistent (some r) none c m v =
      if_holds (λ (x : DeviceError × Machine S). IsConsistent x.1) (not (r m.drivers).0) _ _
        (λ _. v) (λ _. v)
  call_char-Consistent (some r) (some w) c m v =
      if_holds (λ (x : DeviceError × Machine S). IsConsistent x.1) (not (r m.drivers).0) _ _
        (λ _. v) (λ _. v)

  call_set-Consistent :
      (f : Option (ℕ → ℕ → ℕ → ℕ → S → Bool × S)) (d : ParamDescriptor) (x : ℕ) (m : Machine S)
      → IsConsistent m
      → IsConsistent (call_set f d x m).1
  call_set-Consistent none d x m v = v
  call_set-Consistent (some f) d x m v = v

  pub k_dev_write_char-Consistent :
      (p : ℤ) (id c : ℕ) (m : Machine S)
      → IsConsistent m
      → Ensures (λ r. IsConsistent r.1) (k_dev_write_char p id c m)
  unfolding k_dev_write_char
  k_dev_write_char-Consistent p id c m v =
      Ensures-if_started p id m (λ _ _. v)
        λ _. ensures_ok (
          call_char-Consistent (m.devices id).desc.api.is_ready_to_write
            (m.devices id).desc.api.char_out_write c m v)

  pub k_dev_listen-Consistent :
      (p : ℤ) (id : ℕ) (l d : Option ℕ) (m : Machine S)
      → IsConsistent m
      → Ensures (λ r. IsConsistent r.1) (k_dev_listen p id l d m)
  unfolding k_dev_listen
  k_dev_listen-Consistent p id none d m v = ensures_ok v
  k_dev_listen-Consistent p id (some l) none m v = ensures_ok v
  k_dev_listen-Consistent p id (some l) (some d) m v =
      Ensures-if_started p id m (λ _ _. v)
        λ u.
          Ensures-if (is_some (m.devices id).listener) (λ _. ensures_ok v)
            λ _. ensures_ok (
              update-Consistent v id _
                (listening-IsEntry v id l d u.installed (not_none u.holds u.user)))
    where
      not_none : {p q : ℤ} → q ≡ p → k_proc_id_is_user p ≡ true → q ≢ none_proc_id
      not_none e user is_none = cc (none_is_user, user, e, is_none)

  pub k_dev_set_param-Consistent :
      (p : ℤ) (id : ℕ) (d : ParamDescriptor) (x : ℕ) (m : Machine S)
      → IsConsistent m
      → Ensures (λ r. IsConsistent r.1) (k_dev_set_param p id d x m)
  unfolding k_dev_set_param
  k_dev_set_param-Consistent p id d x m v =
      Ensures-if_started p id m (λ _ _. v)
        λ _. ensures_ok (call_set-Consistent (m.devices id).desc.api.set_param d x m v)

  pub k_dev_get_param-Consistent :
      (id : ℕ) (d : ParamDescriptor) (result : Bool) (m : Machine S)
      → IsConsistent m
      → Ensures (λ r. IsConsistent r.1) (k_dev_get_param id d result m)
  unfolding k_dev_get_param
  k_dev_get_param-Consistent id d result m v =
      Ensures-if (not result) (λ _. ensures_oops)
        λ _.
          Ensures-if (not (validate_installed_id id m)) (λ _. ensures_ok v)
            λ _. ensures_ok (call (m.devices id).desc.api.get_param)
    where
      call : (f : Option (ℕ → ℕ → ℕ → S → (Bool × ℕ) × S)) → IsConsistent (call_get f d m).1
      call none = v
      call (some f) = v
