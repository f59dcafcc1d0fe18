-- ===== src/Tests/Drives.antt =====
-- src/system/kernel/storage/volume.c with one drive.
use gunw_os.Prelude.Outcome.{ok, done}
use gunw_os.Prelude.{ℕ, ◌+◌, ◌*◌, ◌<◌, ◌≡◌, refl, true, none, some, [], Array, arith}
use gunw_os.Kernel.{none_proc_id}
use gunw_os.Fat12.{StorGeometry}
use gunw_os.Dev.Descriptor.{Uha, gsec_none}
use gunw_os.Dev.{zero_descriptor, k_dev_get_uha_for_id}
use gunw_os.Storage.{Storage, read_bytes}
use gunw_os.Storage.Bytes.{read_bytes-disk}
use gunw_os.Tests.Processes.{start}

abbrev pub geometry : StorGeometry
geometry = record { lba = 2880; sect_size_bytes = 512 }

-- Byte n of the disk is n.
abbrev pub disk : Array ℕ
disk n = n

abbrev pub controller : Uha ℕ
controller = record (zero_descriptor {S = ℕ}).api {
  drive_geometry = some (λ drive s. (geometry, s));
  stor_ctrl_read = some (λ drive lba count s.
      (record { bytes_read = count * 512; buffer = λ i. lba * 512 + i; error = gsec_none }, s + 1));
}

abbrev pub with_drive : Storage ℕ
with_drive = record {
  machine = record {
    kernel = start;
    devices = λ _. record {
      desc = record zero_descriptor { type = 128; api = controller };
      initialized = true;
      started = true;
      holder = none_proc_id;
      listener = none;
      decoder = none;
    };
    devices_count = 1;
    hal = record {
      isr_reg = λ _. record { dev_id = 0; routine = none };
      serviced = none;
      pic = [];
    };
    drivers = 0;
  };
  drives = λ _. record { used = true; ctrl_id = 0; drive_id = 0 };
  volumes = λ _. record { used = true; drive_id = 0; file_sys_id = 0 };
}

pub has_controller : k_dev_get_uha_for_id 0 true with_drive.machine ≡ ok controller
unfolding k_dev_get_uha_for_id
has_controller = refl

read_bytes-disk_example :
    (buffer : Array ℕ) × (s : ℕ) × (read_bytes 0 (record { offset = 1000; length = 600 }) with_drive
      ≡ ok (done buffer, record with_drive { machine = record with_drive.machine { drivers = s } }))
    × ((i : ℕ) → i < 600 → buffer i ≡ disk (1000 + i))
read_bytes-disk_example =
    read_bytes-disk 0 (record { offset = 1000; length = 600 }) with_drive controller
      (λ drive s. (geometry, s))
      (λ drive lba count s. (
        record { bytes_read = count * 512; buffer = λ i. lba * 512 + i; error = gsec_none },
        s + 1,
      ))
      geometry disk 0 has_controller refl refl refl
      (λ lba count. record { succeeded = refl; size = refl; content = λ i h. refl }) (omega arith)
      (omega arith)
