-- ===== src/Dev.antt =====
-- src/system/kernel/dev/dev.c: the table of devices; installation, start, queries, holders.
pub mod Errors
pub mod Descriptor
pub mod Access
pub mod Emit
pub mod Invariant
pub mod Started
pub mod Preserve
pub mod Reach
pub mod Hold
pub mod Cleanup
pub mod Notify
pub mod Event
use gunw_os.Prelude.Outcome.{Outcome, ok, oops, ◌>>=◌}
use gunw_os.Prelude.Int.{ℤ, eq_ℤ}
use gunw_os.Prelude.{
  ℕ, zero, suc, ◌+◌, ◌/◌, ◌%◌, ◌^◌, Bool, true, false, not, ◌&&◌, ◌||◌, Array, update, first, ltb,
  leb, ◌==◌, if◌then◌else◌, Option, none, some, is_some,
}
use gunw_os.Kernel.{Kernel, none_proc_id, k_proc_id_is_user}
use gunw_os.Proc.{k_proc_get_state, is_running}
use gunw_os.Hal.{Hal, dev_irq_limit, k_hal_is_irq_registered, k_hal_install}
use gunw_os.Dev.Errors.*
use gunw_os.Dev.Descriptor.{
  Uha, DeviceDescriptor, DriverConfig, MemDesc, AddrRange, StorCtrlDesc, UhaDesc, uha_get_desc,
  has_bit, validate_device_descriptor,
}

abbrev pub max_devices : ℕ
max_devices = 8

-- `struct device`; the listener and the decoder are addresses in the holder's memory.
pub record Device (S : Type 0) : Type 0 where
  pub desc : DeviceDescriptor S
  pub initialized : Bool
  pub started : Bool
  pub holder : ℤ
  pub listener : Option ℕ
  pub decoder : Option ℕ

-- `devices` and `devicesCount`, with the parts of the kernel that the routines use, and the state of
-- the drivers.
pub record Machine (S : Type 0) : Type 0 where
  pub kernel : Kernel
  pub devices : Array (Device S)
  pub devices_count : ℕ
  pub hal : Hal
  pub drivers : S

abbrev pub zero_descriptor : {S : Type 0} → DeviceDescriptor S
zero_descriptor = record {
  type = 0;
  api = record {
    get_param = none;
    set_param = none;
    mem_desc = record {
      bytes_range = record { offset = 0; size_bytes = 0 };
      max_input_size_bytes = 0;
    };
    mem_write = none;
    stor_ctrl_desc = record { drive_count = 0; removable = false; removable_media = false };
    drive_present = none;
    drive_geometry = none;
    stor_ctrl_read = none;
    has_data = false;
    char_in_read = false;
    is_ready_to_write = none;
    char_out_write = none;
    supported_format_count = 0;
  };
  bus_base = 0;
  driver = record { init = none; start = none; isr = none; irq = 0 };
  name = none;
}

abbrev pub validate_id : ℕ → Bool
validate_id id = ltb id max_devices

-- Whether the masks of two types have a bit in common; types have nine bits.
unfoldable pub shares_type : ℕ → ℕ → ℕ → Bool
shares_type zero a b = false
shares_type (suc n) a b = has_bit a n && has_bit b n || shares_type n a b

module _ {S : Type 0} where
  abbrev pub set_device : Machine S → ℕ → Device S → Machine S
  set_device m i d = record m { devices = update m.devices i d }

  unfoldable pub k_dev_init : Machine S → Machine S
  k_dev_init m = record m {
    devices = λ i. record {
      desc = zero_descriptor;
      initialized = false;
      started = false;
      holder = none_proc_id;
      listener = none;
      decoder = none;
    };
  }

  abbrev pub validate_installed_id : ℕ → Machine S → Bool
  validate_installed_id id m = ltb id max_devices && ltb id m.devices_count

  -- The test that `k_proc_getInfo(processId).state` is `PS_RUNNING`.
  abbrev pub require_running : ℤ → Machine S → Outcome (Unit {0})
  require_running p m = k_proc_get_state p m.kernel >>= λ s. if is_running s then ok tt else oops

  unfoldable pub validate_started_device : ℤ → ℕ → Machine S → Outcome DeviceError
  validate_started_device p id m =
      if not (validate_installed_id id m)
      then ok gde_unknown
      else if not (k_proc_id_is_user p)
      then oops
      else (require_running p m >>= λ _.
          if not (eq_ℤ (m.devices id).holder p)
          then ok gde_handle_invalid
          else if not (m.devices id).started
          then ok gde_invalid_device_state
          else ok gde_none)

  -- What follows a test that answers a code: with an error the call ends.
  abbrev pub on_success :
      Outcome DeviceError
      → Machine S
      → Outcome (DeviceError × Machine S)
      → Outcome (DeviceError × Machine S)
  on_success tested m rest = tested >>= elim [ gde_none ↦ rest | e ↦ ok (e, m) ]

  -- A routine without parameters, which counts as successful if there is none.
  abbrev pub attempt : Option (S → Bool × S) → S → Bool × S
  attempt none s = (true, s)
  attempt (some f) s = f s

  -- An initialized device that nothing has started or holds.
  abbrev pub new_device : DeviceDescriptor S → Device S
  new_device d = record {
    desc = d;
    initialized = true;
    started = false;
    holder = none_proc_id;
    listener = none;
    decoder = none;
  }

  -- The new entry behind the last device, unless the registration of its interrupt failed.
  unfoldable pub appended :
      DeviceDescriptor S → Machine S → DriverError → Hal → DriverError × Option ℕ × Machine S
  appended d m gdre_none h = (
    gdre_none,
    some m.devices_count,
    record m {
      devices = update m.devices m.devices_count (new_device d);
      devices_count = suc m.devices_count;
      hal = h;
    },
  )
  appended d m e h = (e, some m.devices_count, record m { hal = h })

  unfoldable pub append_device : DeviceDescriptor S → Machine S → DriverError × Option ℕ × Machine S
  unfolding appended
  append_device d m =
      let (e, h) =
        if is_some d.driver.isr
        then k_hal_install m.devices_count d.driver m.hal
        else (gdre_none, m.hal) in
      appended d m e h

  -- `k_dev_install` behind the tests of the descriptor.
  unfoldable pub install : DeviceDescriptor S → Machine S → DriverError × Option ℕ × Machine S
  unfolding append_device
  install d m =
      if leb dev_irq_limit d.driver.irq
      then (gdre_irq_invalid, none, m)
      else if is_some d.driver.isr && k_hal_is_irq_registered d.driver.irq m.hal
      then (gdre_irq_conflict, none, m)
      else (let (initialized, s) = attempt d.driver.init m.drivers in
          let m' = record m { drivers = s } in
          if not initialized then (gdre_uninitialized, none, m') else append_device d m')

  -- The first argument tells whether the pointer to the identifier is not null, the second one is
  -- the descriptor, if any; the answer has the identifier, if it was written.
  unfoldable pub k_dev_install :
      Bool → Option (DeviceDescriptor S) → Machine S → DriverError × Option ℕ × Machine S
  unfolding install
  k_dev_install false d m = (gdre_unknown, none, m)
  k_dev_install true none m =
      if leb max_devices m.devices_count
      then (gdre_limit_reached, none, m)
      else (gdre_invalid_descriptor, none, m)
  k_dev_install true (some d) m =
      if leb max_devices m.devices_count
      then (gdre_limit_reached, none, m)
      else if not (validate_device_descriptor (some d))
      then (gdre_invalid_descriptor, none, m)
      else install d m

  unfoldable pub k_dev_start : ℕ → Machine S → Outcome (DriverError × Machine S)
  k_dev_start id m =
      let dev = m.devices id in
      let (started, s) = attempt dev.desc.driver.start m.drivers in
      let m' = record (set_device m id (record dev { started = started })) { drivers = s } in
      if not (validate_id id)
      then ok (gdre_unknown, m)
      else if not dev.initialized
      then oops
      else if not started
      then ok (gdre_start_failed, m')
      else ok (gdre_none, m')

  -- The queries; the flag tells whether the pointer to the result is not null.
  unfoldable pub k_dev_get_by_id : ℕ → Bool → Machine S → Outcome UhaDesc
  k_dev_get_by_id id desc m =
      if not (validate_installed_id id m)
      then oops
      else if not desc
      then oops
      else ok (uha_get_desc id (m.devices id).desc.type (m.devices id).desc.api)

  unfoldable pub k_dev_get_by_type : ℕ → Bool → Machine S → Outcome (Option UhaDesc)
  unfolding k_dev_get_by_id shares_type
  k_dev_get_by_type type desc m =
      let i = first (λ i. shares_type 9 (m.devices i).desc.type type) 0 max_devices in
      if not desc
      then oops
      else if ltb i max_devices
      then (k_dev_get_by_id i desc m >>= λ d. ok (some d))
      else ok none

  unfoldable pub k_dev_get_uha_for_id : ℕ → Bool → Machine S → Outcome (Uha S)
  k_dev_get_uha_for_id id uha m =
      if not (validate_installed_id id m)
      then oops
      else if not uha
      then oops
      else ok (m.devices id).desc.api

  unfoldable pub k_dev_acquire_hold : ℤ → ℕ → Machine S → Outcome (DeviceError × Machine S)
  k_dev_acquire_hold p id m =
      if not (validate_installed_id id m)
      then oops
      else if not (k_proc_id_is_user p)
      then oops
      else (require_running p m >>= λ _.
          if not (eq_ℤ (m.devices id).holder none_proc_id)
          then ok (gde_already_held, m)
          else ok (gde_none, set_device m id (record (m.devices id) { holder = p })))

  abbrev pub freed : Device S → Device S
  freed d = record d { holder = none_proc_id; listener = none; decoder = none }

  unfoldable pub k_dev_release_hold : ℤ → ℕ → Machine S → Outcome (Machine S)
  k_dev_release_hold p id m =
      if not (validate_installed_id id m)
      then oops
      else if eq_ℤ (m.devices id).holder p
      then ok (set_device m id (freed (m.devices id)))
      else ok m

  -- The loop of `k_dev_procCleanup` over so many devices from `id` on.
  unfoldable pub cleanup_from : ℤ → ℕ → ℕ → Machine S → Outcome (Machine S)
  unfolding k_dev_release_hold
  cleanup_from p id zero m = ok m
  cleanup_from p id (suc n) m =
      (if eq_ℤ (m.devices id).holder p then k_dev_release_hold p id m else ok m) >>= λ m'.
      cleanup_from p (id + 1) n m'

  unfoldable pub k_dev_proc_cleanup : ℤ → Machine S → Outcome (Machine S)
  unfolding cleanup_from
  k_dev_proc_cleanup p m = cleanup_from p 0 max_devices m
