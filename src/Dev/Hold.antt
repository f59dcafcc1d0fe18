-- ===== src/Dev/Hold.antt =====
-- src/system/kernel/dev/dev.c: what holding a device gives a process, and keeps from the others.
use gunw_os.Prelude.Outcome.{
  Outcome, ok, Ensures, ensures_ok, ensures_oops, Ensures-if, Ensures-then, Ensures-weaken,
  ensures_result,
}
use gunw_os.Prelude.Int.{ℤ, eq_ℤ, eq_ℤ_iff}
use gunw_os.Prelude.{
  ℕ, ◌+◌, ◌-◌, ◌≤◌, ◌<◌, ◌≡◌, ◌≢◌, ◌∙◌, ap, sym, subst, fun_ext, ◌⊎◌, inl, inr, refl, true, not,
  update_self, update_ne, ltb, leb, ◌==◌, Option, none, some, is_some, arith, ℕ_discrete,
}
use gunw_os.Kernel.{none_proc_id, k_proc_id_is_user}
use gunw_os.Dev.Errors.{DeviceError, gde_none}
use gunw_os.Dev.Descriptor.{AddrRange}
use gunw_os.Dev.{
  Machine, Device, freed, set_device, k_dev_acquire_hold, k_dev_release_hold, validate_installed_id,
  require_running,
}
use gunw_os.Dev.Access.{
  k_dev_write_mem, k_dev_write_char, k_dev_listen, k_dev_set_param, ParamDescriptor, call_write,
  if_started,
}
use gunw_os.Dev.Preserve.{none_is_user}
use gunw_os.Dev.Invariant.{IsConsistent}
use gunw_os.Dev.Started.{MayUse, Ensures-if_started}

-- The call was refused, and nothing has changed.
abbrev pub Refused : {S : Type 0} → Machine S → DeviceError × Machine S → Type 0
Refused m (e, m') = (e ≢ gde_none) × (m' ≡ m)

module _ {S : Type 0} (p : ℤ) (id : ℕ) (m : Machine S) where
  -- If a process that does not hold a device writes to it, sets a listener or a parameter and the
  -- call returns, the call has failed and nothing has changed; its release of the device changes
  -- nothing either.
  pub not_holder-Refused :
      (m.devices id).holder ≢ p
      → ((buffer : ℕ) (range : AddrRange)
          → Ensures (Refused m) (k_dev_write_mem p id buffer range m))
        × ((c : ℕ) → Ensures (Refused m) (k_dev_write_char p id c m))
        × ((l d : Option ℕ) → Ensures (Refused m) (k_dev_listen p id l d m))
        × ((d : ParamDescriptor) (x : ℕ) → Ensures (Refused m) (k_dev_set_param p id d x m))
        × Ensures (λ m'. m' ≡ m) (k_dev_release_hold p id m)
  unfolding k_dev_write_mem k_dev_write_char k_dev_listen k_dev_set_param k_dev_release_hold
  not_holder-Refused ne = (
    λ buffer range. Ensures-if (buffer == 0) (λ _. ensures_oops) λ _. refuse _,
    λ c. refuse _,
    λ l d.
        Ensures-if (not (is_some l)) (λ _. ensures_ok (λ e. cc, refl))
          λ _. Ensures-if (not (is_some d)) (λ _. ensures_ok (λ e. cc, refl)) λ _. refuse _,
    λ d x. refuse _,
    Ensures-if (not (validate_installed_id id m)) (λ _. ensures_oops)
        λ _.
          Ensures-if (eq_ℤ (m.devices id).holder p) (λ e. absurd (ne ((eq_ℤ_iff _ _).0 e)))
            λ _. ensures_ok refl,
  )
    where
      refuse :
          (rest : Outcome (DeviceError × Machine S)) → Ensures (Refused m) (if_started p id m rest)
      refuse rest = Ensures-if_started p id m (λ e h. (h, refl)) λ u. absurd (ne u.holds)

  -- The call of the driver's routine, or a refusal.
  abbrev pub Wrote : ℕ → AddrRange → DeviceError × Machine S → Type 0
  Wrote buffer range (e, m') =
      Refused m (e, m')
      ⊎ ((e ≡ gde_none)
          × MayUse p id m
          × (0 < range.size_bytes)
          × (range.offset + range.size_bytes ≤ (m.devices id).desc.api.mem_desc.max_input_size_bytes
              )
          × ((write : ℕ → AddrRange → S → S) × ((m.devices id).desc.api.mem_write ≡ some write)
              × (m' ≡ record m { drivers = write buffer range m.drivers })))

  -- If k_dev_writeMem returns, then either with an error and an unchanged state, or the process
  -- holds the started device, the range is not empty and lies within the largest input that the
  -- driver declares, and the driver's routine has been called once with it.
  pub k_dev_write_mem-Wrote :
      (buffer : ℕ) (range : AddrRange)
      → Ensures (Wrote buffer range) (k_dev_write_mem p id buffer range m)
  unfolding k_dev_write_mem
  k_dev_write_mem-Wrote buffer range =
      let size = (m.devices id).desc.api.mem_desc.max_input_size_bytes in
      Ensures-if (buffer == 0) (λ _. ensures_oops)
        λ _.
          Ensures-if_started p id m (λ e h. inl (h, refl))
            λ u.
              Ensures-if (size == 0) (λ _. ensures_ok (inl (λ e. cc, refl)))
                λ _.
                  Ensures-if (range.size_bytes == 0) (λ _. ensures_ok (inl (λ e. cc, refl)))
                    λ some_bytes.
                      Ensures-if (leb size range.offset) (λ _. ensures_ok (inl (λ e. cc, refl)))
                        λ inside.
                          Ensures-if (ltb (size - range.offset) range.size_bytes)
                            (λ _. ensures_ok (inl (λ e. cc, refl)))
                            λ fits. ensures_ok (
                              call (m.devices id).desc.api.mem_write refl u (ground arith)
                                (ground arith))
    where
      call :
          (w : Option (ℕ → AddrRange → S → S))
          → (m.devices id).desc.api.mem_write ≡ w
          → MayUse p id m
          → 0 < range.size_bytes
          → range.offset + range.size_bytes ≤ (m.devices id).desc.api.mem_desc.max_input_size_bytes
          → Wrote buffer range (call_write w buffer range m)
      call none e u n f = inl (λ e. cc, refl)
      call (some w) e u n f = inr (refl, u, n, f, (w, e, refl))

  acquired :
      Ensures
        (λ r.
          Refused m r
          ⊎ ((r.0 ≡ gde_none)
              × (id < 8)
              × (id < m.devices_count)
              × (k_proc_id_is_user p ≡ true)
              × ((m.devices id).holder ≡ none_proc_id)
              × (r.1 ≡ set_device m id (record (m.devices id) { holder = p }))))
        (k_dev_acquire_hold p id m)
  unfolding k_dev_acquire_hold
  acquired =
      Ensures-if (not (validate_installed_id id m)) (λ _. ensures_oops)
        λ inst.
          Ensures-if (not (k_proc_id_is_user p)) (λ _. ensures_oops)
            λ user. Ensures-then (require_running p m) λ _.
              Ensures-if (not (eq_ℤ (m.devices id).holder none_proc_id))
                (λ _. ensures_ok (inl (λ e. cc, refl)))
                λ free. ensures_ok (
                  inr (
                    refl,
                    ground arith,
                    ground arith,
                    ground arith,
                    (eq_ℤ_iff _ _).0 (ground arith),
                    refl,
                  ))

module _ {S : Type 0} (p : ℤ) (id : ℕ) (m : Machine S) where
  abbrev taken : Device S
  taken = record (m.devices id) { holder = p }

  abbrev held_now : Machine S
  held_now = set_device m id taken

  -- A device that is held cannot be acquired.
  acquire-Refused :
      (q : ℤ) (n : Machine S)
      → (n.devices id).holder ≢ none_proc_id
      → Ensures (Refused n) (k_dev_acquire_hold q id n)
  acquire-Refused q n ne = Ensures-weaken (λ r. elim_refused r) (acquired q id n)
    where
      elim_refused :
          (r : DeviceError × Machine S)
          → (Refused n r
              ⊎ ((r.0 ≡ gde_none)
                  × (id < 8)
                  × (id < n.devices_count)
                  × (k_proc_id_is_user q ≡ true)
                  × ((n.devices id).holder ≡ none_proc_id)
                  × (r.1 ≡ set_device n id (record (n.devices id) { holder = q }))))
          → Refused n r
      elim_refused r (inl x) = x
      elim_refused r (inr x) = absurd (ne x.4)

  pub release_own :
      (n : Machine S)
      → id < 8
      → id < n.devices_count
      → (n.devices id).holder ≡ p
      → k_dev_release_hold p id n ≡ ok (set_device n id (freed (n.devices id)))
  unfolding k_dev_release_hold
  release_own n a b h =
      let same : eq_ℤ (n.devices id).holder p ≡ true = (eq_ℤ_iff _ _).1 h in ground arith

  free_again :
      (d : Device S)
      → d.holder ≡ none_proc_id
      → d.listener ≡ none
      → d.decoder ≡ none
      → freed (record d { holder = p }) ≡ d
  free_again d h l c = ground arith

  restored :
      (m.devices id).holder ≡ none_proc_id
      → IsConsistent m
      → (j : ℕ) → (set_device held_now id (freed (held_now.devices id))).devices j ≡ m.devices j
  restored h v j = elim (ℕ_discrete id j) [
    | yes e ↦
        subst (λ n. (set_device held_now id (freed (held_now.devices id))).devices n ≡ m.devices n)
          e
          (update_self held_now.devices id (freed (held_now.devices id))
            ∙ (ap freed (update_self m.devices id taken)
                ∙ free_again (m.devices id) h ((v.entries id).free h).0 ((v.entries id).free h).1))
    | no ne ↦
        update_ne held_now.devices id j (freed (held_now.devices id)) ne
        ∙ update_ne m.devices id j taken ne
  ]

  -- On a consistent table, after a process has acquired a device it is the holder, every further
  -- acquisition that returns is refused and changes nothing, and its release gives back the state
  -- from before.
  pub release-acquire :
      (m' : Machine S)
      → IsConsistent m
      → k_dev_acquire_hold p id m ≡ ok (gde_none, m')
      → ((m'.devices id).holder ≡ p)
        × ((q : ℤ) → Ensures (Refused m') (k_dev_acquire_hold q id m'))
        × (k_dev_release_hold p id m' ≡ ok m)
  release-acquire m' v e = elim (ensures_result (acquired p id m) e) [
    | inl x ↦ absurd (x.0 refl)
    | inr x ↦
        subst
          (λ n.
            ((n.devices id).holder ≡ p)
            × ((q : ℤ) → Ensures (Refused n) (k_dev_acquire_hold q id n))
            × (k_dev_release_hold p id n ≡ ok m))
          (sym x.5)
          (
            here,
            λ q. acquire-Refused q held_now (λ none_now. not_none x.3 (sym here ∙ none_now)),
            release_own held_now x.1 x.2 here
                ∙ ap (λ f. ok (record m { devices = f })) (fun_ext (restored x.4 v)),
          )
  ]
    where
      here : (held_now.devices id).holder ≡ p
      here = ap (λ d. d.holder) (update_self m.devices id taken)

      not_none : k_proc_id_is_user p ≡ true → p ≢ none_proc_id
      not_none user same = cc (none_is_user, user, same)
