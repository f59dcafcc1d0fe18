-- ===== src/Tests/Clusters.antt =====
-- src/system/kernel/driver/fat12/fat12.c under src/system/kernel/storage/file.c, on a drive with
-- sectors of 16 bytes.
use gunw_os.Prelude.Outcome.{ok, done}
use gunw_os.Prelude.{
  ℕ, zero, suc, ◌+◌, ◌*◌, ◌<◌, ◌≤◌, ◌≡◌, ◌∙◌, refl, sym, subst, word, true, false, none, some,
  Array, [], ap, first, ltb, ◌==◌, if◌then◌else◌, ◌%◌, arith,
}
use gunw_os.Text.{literal, strcmpl}
use gunw_os.Fat12.{
  Bpb, DirEntry, FileInfo, Range, StorGeometry, fat_range, fat_verify, is_valid_for_read,
  next_cluster, first_cluster_sector, alignedr, alloc_unit_aligned_bytes, is_eof,
}
use gunw_os.Fat12.Entries.{packed}
use gunw_os.Dev.Descriptor.{Uha, ReadResult, gsec_none, uha_get_desc}
use gunw_os.Dev.{k_dev_get_uha_for_id, k_dev_get_by_id}
use gunw_os.Storage.{k_stor_drive_validate_id, read_bytes, sector_aligned_bytes}
use gunw_os.Storage.Bytes.{read_bytes-disk}
use gunw_os.Storage.FileSystem.{k_stor_file_sys_validate_id}
use gunw_os.Storage.Volumes.{
  Files, k_stor_volume_read_sector, k_stor_volume_read_bytes, k_stor_volume_validate_id,
}
use gunw_os.Storage.File.{load_file}
use gunw_os.Storage.File.Content.{Reads}
use gunw_os.Storage.File.Clusters.{cluster_at, location, IsFile}
use gunw_os.Storage.File.OnFat12.{k_drv_fat12_descriptor, place_on_disk, load_file-clusters}
use gunw_os.Tests.Drives.{with_drive, controller}
use gunw_os.Tests.Disk.{floppy}

-- One reserved sector, two tables of one sector, and a directory of two sectors.
abbrev volume : Bpb
volume = record floppy {
  bytes_per_logical_sector = 16;
  logical_sectors_per_cluster = 1;
  reserved_logical_sectors = 1;
  number_of_fats = 2;
  max_root_directory_entries = 1;
  total_logical_sectors = 20;
  logical_sectors_per_fat = 1;
}

-- The file has the clusters 2, 3 and 5.
abbrev table : Array ℕ
table c = if c == 2 then 3 else if c == 3 then 5 else if c == 5 then 4095 else 0

abbrev disk : Array ℕ
disk n = if ltb n 48 then packed table (n % 16) else n

abbrev fat : Array ℕ
fat i = disk (16 + (0 + i))

abbrev file : FileInfo
file = record { size_bytes = 40; alloc_unit = 2 }

abbrev no_entry : DirEntry
no_entry = record {
  filename = literal [];
  extension = literal [];
  first_logical_cluster = 0;
  file_size_bytes = 0;
}

abbrev geometry : StorGeometry
geometry = record { lba = 20; sect_size_bytes = 16 }

abbrev drive_geometry : ℕ → ℕ → StorGeometry × ℕ
drive_geometry drive s = (geometry, s)

abbrev drive_read : ℕ → ℕ → ℕ → ℕ → ReadResult × ℕ
drive_read drive lba count s = (
  record { bytes_read = count * 16; buffer = λ i. disk (lba * 16 + i); error = gsec_none },
  s + 1,
)

abbrev drive : Uha ℕ
drive = record controller {
  stor_ctrl_desc = record { drive_count = 1; removable = false; removable_media = false };
  drive_geometry = some drive_geometry;
  stor_ctrl_read = some drive_read;
}

-- The drive has been used so many times.
abbrev files : ℕ → Files ℕ
files x = record {
  storage = record with_drive {
    machine = record with_drive.machine {
      devices = λ i. record (with_drive.machine.devices i) {
        desc = record (with_drive.machine.devices i).desc { api = drive };
      };
      drivers = x;
    };
  };
  file_systems =
      λ _. record { used = true; desc = k_drv_fat12_descriptor (λ h. volume) (λ d i. no_entry) };
}

abbrev IsUsed : Files ℕ → Type 0
IsUsed m = (x : ℕ) × (m ≡ files x)

drive_found : (x : ℕ) → k_dev_get_uha_for_id 0 true (files x).storage.machine ≡ ok drive
unfolding k_dev_get_uha_for_id
drive_found x = refl

volume_valid : (x : ℕ) → k_stor_volume_validate_id 0 (files x) ≡ ok true
unfolding k_stor_volume_validate_id k_stor_drive_validate_id k_dev_get_by_id
    k_stor_file_sys_validate_id uha_get_desc k_drv_fat12_descriptor
volume_valid x = refl

drive_reads : Reads 0 16 disk IsUsed
unfolding k_stor_volume_read_sector k_stor_volume_read_bytes
drive_reads lba count room m (x, e) place size fits =
    let range : Range = record { offset = word (lba * 16); length = word (16 * count) } in
    let enough : ltb room (word (16 * count)) ≡ false = ground arith in
    let (buffer, s, got, bytes) =
      read_bytes-disk 0 range (files x).storage drive drive_geometry drive_read geometry disk x
        (drive_found x) refl refl refl
        (λ lba count. record { succeeded = refl; size = refl; content = λ i h. refl }) (omega arith)
        (omega arith) in
    (
      buffer,
      files s,
      subst (λ m. k_stor_volume_read_sector 0 lba count room m ≡ ok (done buffer, files s)) (sym e)
          (rw (drive_found x) (rw (volume_valid x) (rw got (rw enough refl)))),
      (s, refl),
      λ i h.
          bytes i (omega arith)
          ∙ ap disk {x = word (lba * 16) + i} {y = lba * 16 + i} (omega arith),
    )

table_read : k_stor_volume_read_bytes 0 (fat_range (some volume)) (files 0) ≡ ok (done fat, files 1)
unfolding k_stor_volume_read_bytes read_bytes fat_range sector_aligned_bytes alignedr
table_read = rw (volume_valid 0) (rw (drive_found 0) refl)

table_verified : fat_verify volume fat ≡ true
unfolding fat_verify strcmpl first
table_verified = refl

file-IsFile : IsFile volume fat file 3
unfolding cluster_at next_cluster is_valid_for_read alloc_unit_aligned_bytes is_eof
    first_cluster_sector
file-IsFile = record {
  one_sector = refl;
  some_bytes = omega arith;
  some_clusters = omega arith;
  fills = refl;
  bound = omega arith;
  valid = valid;
  places = places;
  marked = refl;
}
  where
    valid : (k : ℕ) → k < 3 → is_valid_for_read volume (location volume (cluster_at fat 2 k)) ≡ true
    valid zero h = refl
    valid (suc zero) h = refl
    valid (suc (suc zero)) h = refl
    valid (suc (suc (suc k))) h = absurd (omega arith)

    places : (k : ℕ) → k < 3 → (first_cluster_sector volume + cluster_at fat 2 k) * 16 < 4294967296
    places zero h = ground arith
    places (suc zero) h = ground arith
    places (suc (suc zero)) h = ground arith
    places (suc (suc (suc k))) h = absurd (omega arith)

load_file-clusters_example :
    (bytes : Array ℕ) × (m : Files ℕ) × (load_file 3 0
        (λ i. 0)
        file
        (k_drv_fat12_descriptor (λ h. volume) (λ d i. no_entry))
        (λ i. 7)
        (files 0)
      ≡ ok (none, bytes, m))
    × ((i : ℕ) → i < 48 → bytes i ≡ disk (place_on_disk volume fat 2 i))
    × ((i : ℕ) → 48 ≤ i → bytes i ≡ 7)
unfolding fat_range
load_file-clusters_example =
    load_file-clusters (λ h. volume) (λ d i. no_entry) 3 0 (λ i. 0) disk fat (λ i. 7) file 3
      (files 0) (files 1) file-IsFile (omega arith) table_read table_verified drive_reads (1, refl)
      (omega arith)
