-- ===== src/Tests/Devices.antt =====
-- src/system/kernel/dev/dev.c and hal/mem/mem.c with one device and one process.
use gunw_os.Prelude.Outcome.{ok, Ensures}
use gunw_os.Prelude.Int.{ℤ, pos}
use gunw_os.Prelude.{
  ℕ, ◌+◌, ◌<◌, ◌≡◌, refl, true, false, not, Option, none, some, [], is_some, arith, if◌then◌else◌,
}
use gunw_os.Kernel.{
  Kernel, ps_running, zero_cpu, no_lock, set_process, none_proc_id, k_proc_id_is_user,
}
use gunw_os.Proc.{k_proc_get_state}
use gunw_os.Mem.Zone.{k_mem_buffer_zone_valid_for_proc}
use gunw_os.Hal.{k_hal_install, k_hal_is_irq_registered}
use gunw_os.Dev.Errors.{gdre_none, gde_none, gde_invalid_device_state}
use gunw_os.Dev.Descriptor.{DeviceDescriptor, AddrRange, validate_device_descriptor}
use gunw_os.Dev.{
  Machine, set_device, zero_descriptor, k_dev_init, k_dev_install, k_dev_start, k_dev_acquire_hold,
  k_dev_release_hold, k_dev_proc_cleanup,
}
use gunw_os.Dev.Access.{
  k_dev_write_mem, k_dev_write_char, k_dev_listen, k_dev_set_param, ParamDescriptor,
}
use gunw_os.Dev.Event.{DeviceEvent}
use gunw_os.Dev.Emit.{k_dev_emit, serviced_dev_id}
use gunw_os.Dev.Invariant.{IsConsistent}
use gunw_os.Dev.Reach.{
  Reachable, initial, next, installs, starts, acquires, interrupt, reachable-IsConsistent,
}
use gunw_os.Dev.Hold.{Refused, not_holder-Refused, release-acquire}
use gunw_os.Dev.Cleanup.{cleaned, k_dev_proc_cleanup-Cleaned}
use gunw_os.Dev.Notify.{heard, k_dev_emit-heard}
use gunw_os.Tests.Processes.{start}

-- Process 2 runs.
abbrev kernel : Kernel
kernel =
    set_process start 2
      (record { state = ps_running; dpl = 3; cpu_state = zero_cpu; lock_mask = no_lock })

-- The driver counts the writes.
abbrev screen : DeviceDescriptor ℕ
screen = record zero_descriptor {
  type = 2;
  api = record (zero_descriptor {S = ℕ}).api {
    mem_desc = record {
      bytes_range = record { offset = 753664; size_bytes = 4000 };
      max_input_size_bytes = 4000;
    };
    mem_write = some (λ buffer range s. s + 1);
  };
  driver = record { init = none; start = none; isr = some 9; irq = 1 };
  name = some 1;
}

abbrev bare : Machine ℕ
bare = record {
  kernel = kernel;
  devices = λ _. record {
    desc = zero_descriptor;
    initialized = false;
    started = false;
    holder = none_proc_id;
    listener = none;
    decoder = none;
  };
  devices_count = 0;
  hal = record { isr_reg = λ _. record { dev_id = 0; routine = none }; serviced = none; pic = [] };
  drivers = 0;
}

abbrev installed : Machine ℕ
installed = (k_dev_install true (some screen) (k_dev_init bare)).2

abbrev started : Machine ℕ
started = set_device installed 0 (record (installed.devices 0) { started = true })

abbrev acquired : Machine ℕ
acquired = set_device started 0 (record (started.devices 0) { holder = pos 2 })

abbrev pub serviced : Machine ℕ
serviced = record acquired { hal = record acquired.hal { serviced = some 1 } }

starts_up : k_dev_start 0 installed ≡ ok (gdre_none, started)
unfolding k_dev_start k_dev_install k_dev_init k_hal_install k_hal_is_irq_registered
    validate_device_descriptor
starts_up = refl

takes : k_dev_acquire_hold (pos 2) 0 started ≡ ok (gde_none, acquired)
unfolding k_dev_acquire_hold k_dev_install k_dev_init k_proc_get_state k_proc_id_is_user
    k_hal_install k_hal_is_irq_registered validate_device_descriptor
takes = refl

reaches_started : Reachable bare started
reaches_started = next (next initial (installs true (some screen))) (starts 0 starts_up)

reaches : Reachable bare serviced
reaches = next (next reaches_started (acquires (pos 2) 0 takes)) (interrupt (some 1))

reachable-IsConsistent_example : IsConsistent serviced
reachable-IsConsistent_example = reachable-IsConsistent bare refl (λ irq. refl) reaches

not_holder-Refused_example :
    ((buffer : ℕ) (range : AddrRange)
      → Ensures (Refused serviced) (k_dev_write_mem (pos 3) 0 buffer range serviced))
    × ((c : ℕ) → Ensures (Refused serviced) (k_dev_write_char (pos 3) 0 c serviced))
    × ((l d : Option ℕ) → Ensures (Refused serviced) (k_dev_listen (pos 3) 0 l d serviced))
    × ((d : ParamDescriptor) (x : ℕ)
        → Ensures (Refused serviced) (k_dev_set_param (pos 3) 0 d x serviced))
    × Ensures (λ m'. m' ≡ serviced) (k_dev_release_hold (pos 3) 0 serviced)
not_holder-Refused_example = not_holder-Refused (pos 3) 0 serviced (λ e. absurd (cc))

release-acquire_example :
    ((acquired.devices 0).holder ≡ pos 2)
    × ((q : ℤ) → Ensures (Refused acquired) (k_dev_acquire_hold q 0 acquired))
    × (k_dev_release_hold (pos 2) 0 acquired ≡ ok started)
release-acquire_example =
    release-acquire (pos 2) 0 started acquired
      (reachable-IsConsistent bare refl (λ irq. refl) reaches_started) takes

k_dev_proc_cleanup-Cleaned_example :
    (m' : Machine ℕ) × (k_dev_proc_cleanup (pos 2) serviced ≡ ok m')
    × ((j : ℕ) → j < 8 → m'.devices j ≡ cleaned (pos 2) (serviced.devices j))
k_dev_proc_cleanup-Cleaned_example =
    k_dev_proc_cleanup-Cleaned (pos 2) (λ e. absurd (cc)) serviced
      (reachable-IsConsistent bare refl (λ irq. refl) reaches)

abbrev key : DeviceEvent
key = record { type = 5; data_ptr = 8192; data_size_bytes = 3; bytes = λ i. i }

event_valid : k_mem_buffer_zone_valid_for_proc (pos 2) 4096 12 ≡ ok true
unfolding k_mem_buffer_zone_valid_for_proc k_proc_id_is_user
event_valid = refl

data_valid : k_mem_buffer_zone_valid_for_proc (pos 2) 8192 3 ≡ ok true
unfolding k_mem_buffer_zone_valid_for_proc k_proc_id_is_user
data_valid = refl

registered : is_some (serviced.hal.isr_reg 1).routine ≡ true
unfolding k_dev_install k_dev_init k_hal_install k_hal_is_irq_registered validate_device_descriptor
registered = refl

k_dev_emit-heard_example : k_dev_emit (pos 2) 4096 key serviced ≡ (
    let d = serviced.devices (serviced_dev_id 1 serviced) in
    if not d.started
    then ok (gde_invalid_device_state, serviced)
    else heard key d d.listener serviced)
k_dev_emit-heard_example =
    k_dev_emit-heard (pos 2) 4096 1 key serviced
      (reachable-IsConsistent bare refl (λ irq. refl) reaches) refl registered (omega arith)
      event_valid (omega arith) (omega arith) data_valid

user_two : k_proc_id_is_user (pos 2) ≡ true
unfolding k_proc_id_is_user
user_two = refl

abbrev event_at : ℕ
event_at = 4096
