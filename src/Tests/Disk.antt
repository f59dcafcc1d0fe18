-- ===== src/Tests/Disk.antt =====
-- src/system/kernel/driver/fat12/fat12.c on the header of a floppy disk with clusters of two
-- sectors.
use gunw_os.Prelude.{
  ℕ, zero, suc, ◌+◌, ◌%◌, ◌<◌, ◌≡◌, ◌↔◌, refl, true, false, some, Array, [], ◌∷◌, arith, first,
}
use gunw_os.Text.{literal, strcmpl}
use gunw_os.Fat12.{
  Bpb, DirEntry, FileInfo, StorGeometry, file_system_name, next_cluster, is_valid_for_read,
  file_start_location,
}
use gunw_os.Fat12.Detect.{detect, popcount}
use gunw_os.Fat12.Search.{file_info, validate_dir_entry, found}
use gunw_os.Fat12.Entries.{packed, next_cluster-packed}
use gunw_os.Fat12.Volume.{HasWidths, IsVolume, detect-IsVolume}
use gunw_os.Fat12.Chain.{walk, at, walk-cluster}
use gunw_os.Fat12.Directory.{IsFirst, info_of, file_info-found}

abbrev pub floppy : Bpb
floppy = record {
  bytes_per_logical_sector = 512;
  logical_sectors_per_cluster = 2;
  reserved_logical_sectors = 2;
  number_of_fats = 2;
  max_root_directory_entries = 224;
  total_logical_sectors = 2880;
  media_descriptor = record {
    double_sided = false;
    eight_sector = false;
    removable = false;
    hard_disk = false;
    reserved = 15;
  };
  logical_sectors_per_fat = 9;
  physical_sectors_per_track = 18;
  number_of_heads = 2;
  hidden_sectors = 0;
  large_total_logical_sectors = 0;
  physical_drive_number = 0;
  flags = 0;
  extended_boot_signature = 41;
  volume_serial_number = 0;
  volume_label = literal [];
  file_system_type = file_system_name;
}

abbrev drive : StorGeometry
drive = record { lba = 2880; sect_size_bytes = 512 }

widths : HasWidths floppy
widths = record {
  sector_bytes = omega arith;
  reserved = omega arith;
  entries = omega arith;
  total = omega arith;
  table = omega arith;
  cluster = omega arith;
}

detect-floppy : detect floppy drive ≡ true
unfolding detect popcount strcmpl first
detect-floppy = refl

detect-IsVolume_example : IsVolume floppy
detect-IsVolume_example = detect-IsVolume floppy drive widths detect-floppy

-- Each cluster leads to the one behind it.
abbrev chain : Array ℕ
chain i = (i + 1) % 4096

next_cluster-packed_example : next_cluster (packed chain) 7 ≡ 8
next_cluster-packed_example = next_cluster-packed chain 7 (λ i. omega arith) (omega arith)

abbrev file : FileInfo
file = record { size_bytes = 3000; alloc_unit = 7 }

file_valid : is_valid_for_read floppy (file_start_location floppy file) ≡ true
unfolding is_valid_for_read file_start_location
file_valid = refl

walk-cluster_example :
    ((i : ℕ)
      → i < 2
      → walk i floppy (packed chain) (file_start_location floppy file)
        ≡ at floppy ((file_start_location floppy file).sector + i) 7)
    × (walk 2 floppy (packed chain) (file_start_location floppy file)
        ≡ file_start_location floppy
            (record { size_bytes = 3000; alloc_unit = next_cluster (packed chain) 7 }))
walk-cluster_example =
    walk-cluster floppy (detect-IsVolume floppy drive widths detect-floppy) (omega arith)
      (packed chain) file refl file_valid

-- "A.B" in the second entry.
abbrev listing : Array DirEntry
listing zero = record {
  filename = literal (b'X' ∷ []);
  extension = literal [];
  first_logical_cluster = 5;
  file_size_bytes = 9;
}
listing (suc i) = record {
  filename = literal (b'A' ∷ 32 ∷ 32 ∷ 32 ∷ 32 ∷ 32 ∷ 32 ∷ 32 ∷ []);
  extension = literal (b'B' ∷ 32 ∷ 32 ∷ []);
  first_logical_cluster = 7;
  file_size_bytes = 3000;
}

file_info-found_example :
    (file_info
        (some floppy)
        (some listing)
        (some (literal (b'A' ∷ [])))
        (some (literal (b'B' ∷ [])))
        true
      ≡ found file)
    ↔ ((i : ℕ) × IsFirst 224 listing (literal (b'A' ∷ [])) (literal (b'B' ∷ [])) i
        × (validate_dir_entry floppy (listing i) ≡ true)
        × (file ≡ info_of (listing i)))
file_info-found_example =
    file_info-found floppy listing (literal (b'A' ∷ [])) (literal (b'B' ∷ [])) file

-- The search comes to the second entry.
finds :
    file_info
      (some floppy)
      (some listing)
      (some (literal (b'A' ∷ [])))
      (some (literal (b'B' ∷ [])))
      true
    ≡ found file
unfolding file_info strcmpl first
finds = refl
