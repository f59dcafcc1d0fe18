-- ===== src/Hal.antt =====
-- src/system/kernel/hal/hal.c: the registry of interrupt service routines.
use gunw_os.Prelude.Outcome.{Outcome, ok, oops, ◌>>=◌}
use gunw_os.Prelude.{
  ℕ, Bool, false, not, Array, update, ltb, leb, if◌then◌else◌, Option, none, some, is_some, List,
  ◌∷◌,
}
use gunw_os.Dev.Descriptor.{DriverConfig}
use gunw_os.Dev.Errors.{DriverError, gdre_none, gdre_isr_missing, gdre_irq_conflict}

-- hal/int/irq.h
abbrev pub dev_irq_limit : ℕ
dev_irq_limit = 8

-- `struct isrEntry`
pub record IsrEntry : Type 0 where
  pub dev_id : ℕ
  pub routine : Option ℕ

-- What is written to the ports of the interrupt controller.
pub data PicCommand : Type 0 where
  enable_irq : ℕ → PicCommand
  eoi_slave eoi_master : PicCommand

-- `isrReg`, `k_hal_servicedDevIdPtr` as the interrupt whose entry it points into, and the commands,
-- newest first.
pub record Hal : Type 0 where
  pub isr_reg : Array IsrEntry
  pub serviced : Option ℕ
  pub pic : List PicCommand

unfoldable pub k_hal_is_irq_registered : ℕ → Hal → Bool
k_hal_is_irq_registered num h =
    if leb dev_irq_limit num then false else is_some (h.isr_reg num).routine

unfoldable pub k_hal_install : {S : Type 0} → ℕ → DriverConfig S → Hal → DriverError × Hal
unfolding k_hal_is_irq_registered
k_hal_install dev_id driver h =
    if not (is_some driver.isr)
    then (gdre_isr_missing, h)
    else if k_hal_is_irq_registered driver.irq h
    then (gdre_irq_conflict, h)
    else (
      gdre_none,
      record h {
        isr_reg = update h.isr_reg driver.irq (record { dev_id = dev_id; routine = driver.isr });
        pic = enable_irq driver.irq ∷ h.pic;
      },
    )

-- `k_hal_irqHandle` on a state `X` with a registry in it. The service routines are given: `call`
-- runs the one at an address.
module _ {X : Type 0} (hal : X → Hal) (set_hal : Hal → X → X) (call : ℕ → X → Outcome X) where
  unfoldable pub service : ℕ → Option ℕ → X → Outcome X
  service irq none x = oops
  service irq (some routine) x = call routine (set_hal (record (hal x) { serviced = some irq }) x)

  unfoldable pub k_hal_irq_handle : ℕ → X → Outcome X
  unfolding service
  k_hal_irq_handle irq x =
      (if leb dev_irq_limit irq then oops else service irq ((hal x).isr_reg irq).routine x)
      >>= λ x'.
          let pic = if ltb 7 irq then eoi_slave ∷ (hal x').pic else (hal x').pic in
          ok (set_hal (record (hal x') { serviced = none; pic = eoi_master ∷ pic }) x')
