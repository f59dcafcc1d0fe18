-- ===== src/Dev/Preserve/Install.antt =====
-- src/system/kernel/dev/dev.c: the installation of a device and the consistent table.
use gunw_os.Prelude.{
  ℕ, suc, ◌<◌, ◌≡◌, ◌≢◌, inl, inr, refl, Bool-cases, Bool, true, false, not, if_holds, ◌&&◌, Array,
  update, leb, Option, none, some, is_some, arith,
}
use gunw_os.Hal.{Hal, k_hal_is_irq_registered, k_hal_install}
use gunw_os.Dev.Errors.{DriverError, gdre_none}
use gunw_os.Dev.Descriptor.{DeviceDescriptor, DriverConfig, validate_device_descriptor}
use gunw_os.Dev.{
  Machine, Device, append_device, new_device, appended, install, k_dev_install, attempt,
}
use gunw_os.Dev.Invariant.{Consistent, IsConsistent, append-Consistent, register-Consistent}

module _ {S : Type 0} where
  -- An installation that is refused leaves the registry as it was.
  k_hal_install-refused :
      (id : ℕ) (c : DriverConfig S) (h : Hal)
      → (k_hal_install id c h).0 ≢ gdre_none
      → (k_hal_install id c h).1 ≡ h
  unfolding k_hal_install
  k_hal_install-refused id c h ne = ground arith

  k_hal_install-Consistent :
      {devices : Array (Device S)} {count : ℕ} (id : ℕ) (c : DriverConfig S) (h : Hal)
      → id < count
      → Consistent devices count h.isr_reg
      → Consistent devices count (k_hal_install id c h).1.isr_reg
  unfolding k_hal_install
  k_hal_install-Consistent {devices} {count} id c h lt v =
      if_holds P (not (is_some c.isr)) _ _ (λ _. v)
        λ _.
          if_holds P (k_hal_is_irq_registered c.irq h) _ _ (λ _. v)
            λ _. register-Consistent v c.irq id c.isr lt
    where
      P : DriverError × Hal → Type 0
      P x = Consistent devices count x.1.isr_reg

  finish_append :
      (d : DeviceDescriptor S) (m : Machine S) (e : DriverError) (h : Hal)
      → (e ≢ gdre_none → Consistent m.devices m.devices_count h.isr_reg)
      → Consistent (update m.devices m.devices_count (new_device d)) (suc m.devices_count) h.isr_reg
      → IsConsistent (appended d m e h).2
  unfolding appended
  finish_append d m gdre_none h f g = g
  finish_append d m e h f g = f (λ q. cc)

  append_device-Consistent :
      (d : DeviceDescriptor S) (m : Machine S)
      → m.devices_count < 8
      → IsConsistent m
      → IsConsistent (append_device d m).2
  unfolding append_device
  append_device-Consistent d m lt v = elim (Bool-cases (is_some d.driver.isr)) [
    | inl has ↦ rw has (
        finish_append d m _ _ (λ ne. rw (k_hal_install-refused m.devices_count d.driver m.hal ne) v)
          (k_hal_install-Consistent m.devices_count d.driver m.hal (omega arith) new))
    | inr no_isr ↦ rw no_isr new
  ]
    where
      new :
          Consistent
            (update m.devices m.devices_count (new_device d))
            (suc m.devices_count)
            m.hal.isr_reg
      new = append-Consistent v (new_device d) lt refl refl refl refl

  abbrev Kept : DriverError × Option ℕ × Machine S → Type 0
  Kept r = IsConsistent r.2

  pub k_dev_install-Consistent :
      (id : Bool) (d : Option (DeviceDescriptor S)) (m : Machine S)
      → IsConsistent m
      → IsConsistent (k_dev_install id d m).2
  unfolding k_dev_install install
  k_dev_install-Consistent false d m v = v
  k_dev_install-Consistent true none m v =
      if_holds Kept (leb 8 m.devices_count) _ _ (λ _. v) (λ _. v)
  k_dev_install-Consistent true (some d) m v =
      if_holds Kept (leb 8 m.devices_count) _ _ (λ _. v)
        λ room.
          if_holds Kept (not (validate_device_descriptor (some d))) _ _ (λ _. v)
            λ _.
              if_holds Kept (leb 8 d.driver.irq) _ _ (λ _. v)
                λ _.
                  if_holds Kept (is_some d.driver.isr && k_hal_is_irq_registered d.driver.irq m.hal)
                    _ _ (λ _. v)
                    λ _.
                      if_holds Kept (not (attempt d.driver.init m.drivers).0) _ _ (λ _. v)
                        λ _.
                          append_device-Consistent d
                            (record m { drivers = (attempt d.driver.init m.drivers).1 })
                            (ground arith) v
