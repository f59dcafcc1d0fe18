-- ===== src/Dev/Reach.antt =====
-- src/system/kernel/dev/dev.c: the states that the routines reach.
use gunw_os.Prelude.Outcome.{ok, ensures_result}
use gunw_os.Prelude.Int.{ℤ}
use gunw_os.Prelude.{ℕ, ◌≡◌, inl, refl, Bool, Option, none, arith}
use gunw_os.Kernel.{Kernel}
use gunw_os.Dev.Errors.{DriverError, DeviceError}
use gunw_os.Dev.Descriptor.{DeviceDescriptor, AddrRange}
use gunw_os.Dev.{
  Machine, k_dev_init, k_dev_install, k_dev_start, k_dev_acquire_hold, k_dev_release_hold,
  k_dev_proc_cleanup,
}
use gunw_os.Dev.Access.{
  k_dev_write_mem, k_dev_write_char, k_dev_listen, k_dev_set_param, k_dev_get_param,
  ParamDescriptor,
}
use gunw_os.Dev.Emit.{k_dev_emit}
use gunw_os.Dev.Event.{DeviceEvent}
use gunw_os.Dev.Invariant.{IsConsistent}
use gunw_os.Dev.Preserve.{
  cleanup_from-Consistent, k_dev_acquire_hold-Consistent, k_dev_get_param-Consistent,
  k_dev_listen-Consistent, k_dev_release_hold-Consistent, k_dev_set_param-Consistent,
  k_dev_start-Consistent, k_dev_write_char-Consistent, k_dev_write_mem-Consistent,
}
use gunw_os.Dev.Preserve.Install.{k_dev_install-Consistent}
use gunw_os.Dev.Preserve.Emit.{k_dev_emit-Consistent}

-- One call that returns; `elsewhere` and `interrupt` are what the rest of the kernel does to its own
-- state and to the pointer to the serviced device.
pub data Step {S : Type 0} : Machine S → Machine S → Type 0 where
  installs :
      {m : Machine S} (id : Bool) (d : Option (DeviceDescriptor S))
      → Step m (k_dev_install id d m).2
  starts :
      {m : Machine S} (id : ℕ) {r : DriverError × Machine S} → k_dev_start id m ≡ ok r → Step m r.1
  acquires :
      {m : Machine S} (p : ℤ) (id : ℕ) {r : DeviceError × Machine S}
      → k_dev_acquire_hold p id m ≡ ok r
      → Step m r.1
  releases : {m m' : Machine S} (p : ℤ) (id : ℕ) → k_dev_release_hold p id m ≡ ok m' → Step m m'
  writes :
      {m : Machine S} (p : ℤ) (id buffer : ℕ) (range : AddrRange) {r : DeviceError × Machine S}
      → k_dev_write_mem p id buffer range m ≡ ok r
      → Step m r.1
  writes_char :
      {m : Machine S} (p : ℤ) (id c : ℕ) {r : DeviceError × Machine S}
      → k_dev_write_char p id c m ≡ ok r
      → Step m r.1
  listens :
      {m : Machine S} (p : ℤ) (id : ℕ) (l d : Option ℕ) {r : DeviceError × Machine S}
      → k_dev_listen p id l d m ≡ ok r
      → Step m r.1
  gets :
      {m : Machine S} (id : ℕ) (d : ParamDescriptor) (result : Bool)
      {r : (DeviceError × ℕ) × Machine S}
      → k_dev_get_param id d result m ≡ ok r
      → Step m r.1
  sets :
      {m : Machine S} (p : ℤ) (id : ℕ) (d : ParamDescriptor) (x : ℕ) {r : DeviceError × Machine S}
      → k_dev_set_param p id d x m ≡ ok r
      → Step m r.1
  cleans : {m m' : Machine S} (p : ℤ) → k_dev_proc_cleanup p m ≡ ok m' → Step m m'
  emits :
      {m : Machine S} (p : ℤ) (ptr : ℕ) (e : DeviceEvent) {r : DeviceError × Machine S}
      → k_dev_emit p ptr e m ≡ ok r
      → Step m r.1
  elsewhere : {m : Machine S} (k : Kernel) → Step m (record m { kernel = k })
  interrupt :
      {m : Machine S} (irq : Option ℕ) → Step m (record m { hal = record m.hal { serviced = irq } })

pub data Reachable {S : Type 0} (start : Machine S) : Machine S → Type 0 where
  initial : Reachable start (k_dev_init start)
  next : {m m' : Machine S} → Reachable start m → Step m m' → Reachable start m'

Step-Consistent : {S : Type 0} {m m' : Machine S} → Step m m' → IsConsistent m → IsConsistent m'
unfolding k_dev_proc_cleanup
Step-Consistent (installs id d) v = k_dev_install-Consistent id d _ v
Step-Consistent (starts id e) v = ensures_result (k_dev_start-Consistent id _ v) e
Step-Consistent (acquires p id e) v = ensures_result (k_dev_acquire_hold-Consistent p id _ v) e
Step-Consistent (releases p id e) v = ensures_result (k_dev_release_hold-Consistent p id _ v) e
Step-Consistent (writes p id b r e) v = ensures_result (k_dev_write_mem-Consistent p id b r _ v) e
Step-Consistent (writes_char p id c e) v = ensures_result (k_dev_write_char-Consistent p id c _ v) e
Step-Consistent (listens p id l d e) v = ensures_result (k_dev_listen-Consistent p id l d _ v) e
Step-Consistent (gets id d r e) v = ensures_result (k_dev_get_param-Consistent id d r _ v) e
Step-Consistent (sets p id d x e) v = ensures_result (k_dev_set_param-Consistent p id d x _ v) e
Step-Consistent (cleans p e) v = ensures_result (cleanup_from-Consistent p 0 8 _ v) e
Step-Consistent (emits p ptr ev e) v = ensures_result (k_dev_emit-Consistent p ptr ev _ v) e
Step-Consistent (elsewhere k) v = v
Step-Consistent (interrupt irq) v = v

k_dev_init-Consistent :
    {S : Type 0} (m : Machine S)
    → m.devices_count ≡ 0
    → ((irq : ℕ) → (m.hal.isr_reg irq).routine ≡ none)
    → IsConsistent (k_dev_init m)
unfolding k_dev_init
k_dev_init-Consistent m z n = record {
  count_le = omega arith;
  entries = λ i. record {
    installed = λ lt. absurd (omega arith);
    absent = λ le. refl;
    held = inl refl;
    free = λ e. (refl, refl);
    decoded = λ h. absurd (cc);
  };
  owned = λ irq h. absurd (cc (n irq));
}

-- In every state that the calls on devices reach from an empty table with no interrupt
-- registered, at most eight devices are installed, all of them initialized; only an installed
-- device has a holder, which is a user process; only a held device has a listener, and then a
-- decoder; and every registered interrupt belongs to an installed device.
pub reachable-IsConsistent :
    {S : Type 0} (start : Machine S) {m : Machine S}
    → start.devices_count ≡ 0
    → ((irq : ℕ) → (start.hal.isr_reg irq).routine ≡ none)
    → Reachable start m
    → IsConsistent m
reachable-IsConsistent start z n initial = k_dev_init-Consistent start z n
reachable-IsConsistent start z n (next r s) = Step-Consistent s (reachable-IsConsistent start z n r)
