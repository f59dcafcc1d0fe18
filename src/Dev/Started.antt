-- ===== src/Dev/Started.antt =====
-- src/system/kernel/dev/dev.c: what the validation of a started device ensures.
use gunw_os.Prelude.Outcome.{
  Outcome, ok, oops, hang, fault, Ensures, ensures_ok, ensures_oops, ensures_hang, ensures_fault,
  Ensures-if, Ensures-bind, Ensures-then,
}
use gunw_os.Prelude.Int.{ℤ, eq_ℤ, eq_ℤ_iff}
use gunw_os.Prelude.{ℕ, ◌<◌, ◌≡◌, ◌≢◌, refl, true, not, arith}
use gunw_os.Kernel.{k_proc_id_is_user}
use gunw_os.Dev.Errors.{DeviceError, gde_none}
use gunw_os.Dev.{
  Machine, validate_started_device, validate_installed_id, require_running, on_success,
}
use gunw_os.Dev.Access.{if_started}

-- The process may use the device.
pub record MayUse {S : Type 0} (p : ℤ) (id : ℕ) (m : Machine S) : Type 0 where
  pub installed : id < m.devices_count
  pub user : k_proc_id_is_user p ≡ true
  pub holds : (m.devices id).holder ≡ p
  pub started : (m.devices id).started ≡ true

pub Ensures-any : {A : Type 0} (o : Outcome A) → Ensures (λ _. Unit {0}) o
Ensures-any (ok a) = ensures_ok tt
Ensures-any oops = ensures_oops
Ensures-any hang = ensures_hang
Ensures-any fault = ensures_fault

module _ {S : Type 0} (m : Machine S) where
  pub Ensures-on_success {κ} :
      {P : DeviceError × Machine S → Type κ} {Q : DeviceError → Type 0}
      {tested : Outcome DeviceError} {rest : Outcome (DeviceError × Machine S)}
      → Ensures Q tested
      → ((e : DeviceError) → e ≢ gde_none → P (e, m))
      → (Q gde_none → Ensures P rest)
      → Ensures P (on_success tested m rest)
  Ensures-on_success {P} {Q} {rest = rest} q refused f = Ensures-bind q at
    where
      at : (e : DeviceError) → Q e → Ensures P (elim e [ gde_none ↦ rest | e' ↦ ok (e', m) ])
      at gde_none h = f h
      at e h = ensures_ok (refused e (λ q. cc))

module _ {S : Type 0} (p : ℤ) (id : ℕ) (m : Machine S) where
  validated : Ensures (λ e. e ≡ gde_none → MayUse p id m) (validate_started_device p id m)
  unfolding validate_started_device
  validated =
      Ensures-if (not (validate_installed_id id m)) (λ _. ensures_ok (λ e. absurd (cc)))
        λ inst.
          Ensures-if (not (k_proc_id_is_user p)) (λ _. ensures_oops)
            λ user. Ensures-then (require_running p m) λ _.
              Ensures-if (not (eq_ℤ (m.devices id).holder p)) (λ _. ensures_ok (λ e. absurd (cc)))
                λ mine.
                  Ensures-if (not (m.devices id).started) (λ _. ensures_ok (λ e. absurd (cc)))
                    λ on. ensures_ok λ e. record {
                      installed = ground arith;
                      user = ground arith;
                      holds = (eq_ℤ_iff _ _).0 (ground arith);
                      started = ground arith;
                    }

  -- A call that begins with the validation is refused and changes nothing, or goes on.
  pub Ensures-if_started {κ} :
      {P : DeviceError × Machine S → Type κ} {rest : Outcome (DeviceError × Machine S)}
      → ((e : DeviceError) → e ≢ gde_none → P (e, m))
      → (MayUse p id m → Ensures P rest)
      → Ensures P (if_started p id m rest)
  Ensures-if_started refused f = Ensures-on_success m validated refused (λ h. f (h refl))
