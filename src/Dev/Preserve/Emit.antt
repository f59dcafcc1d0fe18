-- ===== src/Dev/Preserve/Emit.antt =====
-- src/system/kernel/dev/dev.c: the events of devices and the consistent table.
use gunw_os.Prelude.Outcome.{
  Ensures, ensures_ok, ensures_oops, ensures_fault, Ensures-if, Ensures-then,
}
use gunw_os.Prelude.Int.{ℤ}
use gunw_os.Prelude.{ℕ, ◌+◌, not, ◌==◌, Option, none, some}
use gunw_os.Proc.{k_proc_callback_invoke_ptr}
use gunw_os.Mem.Zone.{k_mem_buffer_zone_valid_for_proc}
use gunw_os.Dev.{Machine, Device}
use gunw_os.Dev.Emit.{
  k_dev_emit, emit_for, emit_from, call_listener, call_listener_ptr, serviced_dev_id,
  validate_emitter, validate_listener_invocation, device_event_size, device_event_encoded_size,
}
use gunw_os.Dev.Started.{Ensures-on_success, Ensures-any}
use gunw_os.Dev.Event.{DeviceEvent, gnw_device_event_encode}
use gunw_os.Dev.Invariant.{IsConsistent}

module _ {S : Type 0} where
  call_listener-Consistent :
      (e : DeviceEvent) (d : Device S) (l : Option ℕ) (m : Machine S)
      → IsConsistent m
      → Ensures (λ r. IsConsistent r.1) (call_listener_ptr e d l m)
  unfolding call_listener
  call_listener-Consistent e d none m v = ensures_fault
  call_listener-Consistent e d (some l) m v =
      Ensures-then
        (k_proc_callback_invoke_ptr d.holder l (some e) device_event_size
          (device_event_encoded_size + e.data_size_bytes) (some gnw_device_event_encode) d.decoder
          m.kernel)
        λ _. ensures_ok v

  emit_for-Consistent :
      (e : DeviceEvent) (serviced : Option ℕ) (m : Machine S)
      → IsConsistent m
      → Ensures (λ r. IsConsistent r.1) (emit_for e serviced m)
  unfolding emit_for emit_from
  emit_for-Consistent e none m v = Ensures-then (validate_emitter none m) λ _. ensures_oops
  emit_for-Consistent e (some irq) m v =
      let id = serviced_dev_id irq m in
      Ensures-on_success m (Ensures-any (validate_emitter (some irq) m)) (λ _ _. v)
        λ _.
          Ensures-on_success m (Ensures-any (validate_listener_invocation id m)) (λ _ _. v)
            λ _. call_listener-Consistent e (m.devices id) (m.devices id).listener m v

  pub k_dev_emit-Consistent :
      (p : ℤ) (ptr : ℕ) (e : DeviceEvent) (m : Machine S)
      → IsConsistent m
      → Ensures (λ r. IsConsistent r.1) (k_dev_emit p ptr e m)
  unfolding k_dev_emit
  k_dev_emit-Consistent p ptr e m v =
      Ensures-if (ptr == 0) (λ _. ensures_oops)
        λ _. Ensures-then (k_mem_buffer_zone_valid_for_proc p ptr device_event_size) λ valid.
          Ensures-if (not valid) (λ _. ensures_oops)
            λ _.
              Ensures-if (e.data_ptr == 0) (λ _. ensures_oops)
                λ _.
                  Ensures-if (e.data_size_bytes == 0) (λ _. ensures_oops)
                    λ _.
                      Ensures-then (k_mem_buffer_zone_valid_for_proc p e.data_ptr e.data_size_bytes)
                        λ valid'.
                          Ensures-if (not valid') (λ _. ensures_oops)
                            λ _. emit_for-Consistent e m.hal.serviced m v
