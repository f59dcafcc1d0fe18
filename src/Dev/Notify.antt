-- ===== src/Dev/Notify.antt =====
-- src/system/kernel/dev/dev.c: whom an event of a device reaches.
use gunw_os.Prelude.Outcome.{Outcome, ok, oops, ◌>>=◌}
use gunw_os.Prelude.Int.{ℤ, eq_ℤ, eq_ℤ_iff, index}
use gunw_os.Prelude.{
  ℕ, ◌+◌, ◌<◌, ◌≡◌, ◌≢◌, ◌∙◌, ap, refl, Bool-cases, inl, inr, true, false, not, ◌==◌, if◌then◌else◌,
  Option, none, some, is_some, arith,
}
use gunw_os.Kernel.{none_proc_id, out_of_range}
use gunw_os.Runloop.{RunLoopDispatchItem, gef_ptr}
use gunw_os.Proc.{
  is_finished, is_process_alive, deliver_event, callback_invoke, k_proc_callback_invoke_ptr,
}
use gunw_os.Mem.Zone.{k_mem_buffer_zone_valid_for_proc}
use gunw_os.Dev.Errors.{DeviceError, gde_not_found, gde_invalid_device_state, gde_handle_invalid}
use gunw_os.Dev.{Machine, Device, validate_installed_id}
use gunw_os.Dev.Event.{DeviceEvent, gnw_device_event_encode}
use gunw_os.Dev.Emit.{
  k_dev_emit, emit_for, emit_from, call_listener, call_listener_ptr, validate_emitter,
  validate_listener_invocation, serviced_dev_id, device_event_size, emit_error,
}
use gunw_os.Dev.Invariant.{IsConsistent}

module _ {S : Type 0} where
  -- The event for a process: ignored if that has finished, a halt if there is no such process alive,
  -- and otherwise an item of its run loop.
  abbrev pub handed : ℤ → ℕ → Option ℕ → DeviceEvent → Machine S → Outcome (DeviceError × Machine S)
  handed p listener decoder e m =
      let state = (m.kernel.p_tab (index p)).state in
      let item : RunLoopDispatchItem = record {
        format = gef_ptr;
        routine = listener;
        data_size_bytes = 8 + e.data_size_bytes;
        decoded_data_size_bytes = 12;
        decode = decoder;
      } in
      if out_of_range p
      then oops
      else if is_finished state
      then ok (gde_handle_invalid, m)
      else if not (is_process_alive state)
      then oops
      else (deliver_event p item (some e) (some gnw_device_event_encode) m.kernel >>= λ (error, k).
          ok (emit_error error, record m { kernel = k }))

  -- An event of one device: without a listener, or for the process that holds it.
  abbrev pub heard :
      DeviceEvent → Device S → Option ℕ → Machine S → Outcome (DeviceError × Machine S)
  heard e d none m = ok (gde_not_found, m)
  heard e d (some l) m = handed d.holder l d.decoder e m

  call_listener-handed :
      (e : DeviceEvent) (d : Device S) (l : ℕ) (m : Machine S)
      → call_listener e d l m ≡ handed d.holder l d.decoder e m
  unfolding call_listener k_proc_callback_invoke_ptr callback_invoke
  call_listener-handed e d l m =
      let state = (m.kernel.p_tab (index d.holder)).state in
      elim (Bool-cases (out_of_range d.holder)) [
        | inl out ↦ rw out refl
        | inr within ↦ elim (Bool-cases (is_finished state)) [
          | inl over ↦ rw (within, over) refl
          | inr going ↦ elim (Bool-cases (is_process_alive state)) [
            | inl alive ↦ rw (within, going, alive) refl
            | inr dead ↦ rw (within, going, dead) refl
          ]
        ]
      ]

  emit_from-heard :
      (e : DeviceEvent) (id : ℕ) (m : Machine S) (l : Option ℕ)
      → IsConsistent m
      → (m.devices id).listener ≡ l
      → emit_from e id m ≡ heard e (m.devices id) l m
  unfolding emit_from validate_listener_invocation
  emit_from-heard e id m none v h = rw h
  emit_from-heard e id m (some l) v h =
      let entry = v.entries id in
      let decoded : is_some (m.devices id).decoder ≡ true = entry.decoded (rw h) in
      let listening : is_some (m.devices id).listener ≡ true = rw h in
      let owned : eq_ℤ (m.devices id).holder none_proc_id ≡ false =
        elim (Bool-cases (eq_ℤ (m.devices id).holder none_proc_id)) [
          | inl free ↦ absurd (cc (h, (entry.free ((eq_ℤ_iff _ _).0 free)).0))
          | inr taken ↦ taken
        ] in
      rw (listening, decoded, owned)
        (ap (λ o. call_listener_ptr e (m.devices id) o m) h
          ∙ call_listener-handed e (m.devices id) l m)

  emit_for-heard :
      (e : DeviceEvent) (irq : ℕ) (m : Machine S)
      → IsConsistent m
      → is_some (m.hal.isr_reg irq).routine ≡ true
      → emit_for e (some irq) m ≡ (
          let d = m.devices (serviced_dev_id irq m) in
          if not d.started then ok (gde_invalid_device_state, m) else heard e d d.listener m)
  unfolding emit_for validate_emitter call_listener
  emit_for-heard e irq m v r =
      let lt : serviced_dev_id irq m < m.devices_count = v.owned irq r in
      let inst : validate_installed_id (serviced_dev_id irq m) m ≡ true =
        ground (arith, lt, v.count_le) in
      elim (Bool-cases (m.devices (serviced_dev_id irq m)).started) [
        | inl on ↦
            rw (inst, on)
              (emit_from-heard e (serviced_dev_id irq m) m
                (m.devices (serviced_dev_id irq m)).listener v refl)
        | inr off ↦ rw (inst, off)
      ]

  -- On a consistent table, while a registered interrupt is serviced, an event with data, both at
  -- addresses that are valid for the emitter, is refused if the device has not been started,
  -- answered by GDE_NOT_FOUND if it has no listener, and otherwise for the process that holds it:
  -- ignored with GDE_HANDLE_INVALID if that has finished, and delivered to its run loop if that
  -- is alive, for the listener and with the decoder of the device, as eight bytes and the data.
  pub k_dev_emit-heard :
      (p : ℤ) (ptr irq : ℕ) (e : DeviceEvent) (m : Machine S)
      → IsConsistent m
      → m.hal.serviced ≡ some irq
      → is_some (m.hal.isr_reg irq).routine ≡ true
      → ptr ≢ 0
      → k_mem_buffer_zone_valid_for_proc p ptr device_event_size ≡ ok true
      → e.data_ptr ≢ 0
      → e.data_size_bytes ≢ 0
      → k_mem_buffer_zone_valid_for_proc p e.data_ptr e.data_size_bytes ≡ ok true
      → k_dev_emit p ptr e m ≡ (
          let d = m.devices (serviced_dev_id irq m) in
          if not d.started then ok (gde_invalid_device_state, m) else heard e d d.listener m)
  unfolding k_dev_emit
  k_dev_emit-heard p ptr irq e m v s r a z b c y =
      let a' : (ptr == 0) ≡ false = ground arith in
      let b' : (e.data_ptr == 0) ≡ false = ground arith in
      let c' : (e.data_size_bytes == 0) ≡ false = ground arith in
      rw (a', z, b', c', y) (ap (λ o. emit_for e o m) s ∙ emit_for-heard e irq m v r)
