-- ===== src/Fat12.antt =====
-- src/system/kernel/driver/fat12/fat12.c: the FAT12 file system driver, with its boot record and
-- directory entry (driver/fat12/model.h) and the rounding of src/lib/stdgunw/utils.c. A `size_t`
-- has 32 bits. The code divides by the sector size and the cluster size of the header without a
-- test of its own, outside `detect`: there the functions are meant for a header it has accepted.
pub mod Detect
pub mod Search
pub mod Entries
pub mod Volume
pub mod Chain
pub mod Directory
pub mod Rounding
use gunw_os.Prelude.{
  ℕ, zero, suc, ◌+◌, ◌-◌, ◌*◌, ◌/◌, ◌%◌, Array, first, Bool, true, false, not, ◌&&◌, ◌||◌, List, [],
  ◌∷◌, ltb, leb, ◌==◌, if◌then◌else◌, Option, none, some, word, sub_word, min, in_range, is_some,
}
use gunw_os.Prelude.Int.{pos, eq_ℤ}
use gunw_os.Text.{literal, strcmpl}

-- A byte range of a volume.
pub record Range : Type 0 where
  pub offset : ℕ
  pub length : ℕ

pub record MediaDescriptor : Type 0 where
  pub double_sided : Bool
  pub eight_sector : Bool
  pub removable : Bool
  pub hard_disk : Bool
  pub reserved : ℕ

-- The extended boot record.
pub record Bpb : Type 0 where
  pub bytes_per_logical_sector : ℕ
  pub logical_sectors_per_cluster : ℕ
  pub reserved_logical_sectors : ℕ
  pub number_of_fats : ℕ
  pub max_root_directory_entries : ℕ
  pub total_logical_sectors : ℕ
  pub media_descriptor : MediaDescriptor
  pub logical_sectors_per_fat : ℕ
  pub physical_sectors_per_track : ℕ
  pub number_of_heads : ℕ
  pub hidden_sectors : ℕ
  pub large_total_logical_sectors : ℕ
  pub physical_drive_number : ℕ
  pub flags : ℕ
  pub extended_boot_signature : ℕ
  pub volume_serial_number : ℕ
  pub volume_label : Array ℕ
  pub file_system_type : Array ℕ

-- A directory entry; the attributes and the times, which nothing reads, are left out.
pub record DirEntry : Type 0 where
  pub filename : Array ℕ
  pub extension : Array ℕ
  pub first_logical_cluster : ℕ
  pub file_size_bytes : ℕ

-- The size of a drive; its division into cylinders, which nothing here reads, is left out.
pub record StorGeometry : Type 0 where
  pub lba : ℕ
  pub sect_size_bytes : ℕ

pub record FileInfo : Type 0 where
  pub size_bytes : ℕ
  pub alloc_unit : ℕ

pub record Location : Type 0 where
  pub sector : ℕ
  pub alloc_unit : ℕ
  pub size_bytes : ℕ

pub data FileError : Type 0 where
  invalid_path : FileError
  invalid_parameter : FileError
  not_found : FileError
  unknown : FileError

abbrev pub file_system_name : Array ℕ
file_system_name = literal (b'F' ∷ b'A' ∷ b'T' ∷ b'1' ∷ b'2' ∷ b' ' ∷ b' ' ∷ b' ' ∷ [])

abbrev pub min_file_cluster : ℕ
min_file_cluster = 2

abbrev pub extended_boot_signature_value : ℕ
extended_boot_signature_value = 41

-- `sizeof(struct fat12_dir_t)`
abbrev pub dir_entry_bytes : ℕ
dir_entry_bytes = 32

abbrev pub bytes_to_fat_entries : ℕ → ℕ
bytes_to_fat_entries bytes = word (bytes * 2) / 3

unfoldable pub fat_range : Option Bpb → Range
fat_range none = record { offset = 0; length = 0 }
fat_range (some b) = record {
  offset = word (b.reserved_logical_sectors * b.bytes_per_logical_sector);
  length = word (b.number_of_fats * b.logical_sectors_per_fat * b.bytes_per_logical_sector);
}

unfoldable pub directory_range : Option Bpb → Range
unfolding fat_range
directory_range none = record { offset = 0; length = 0 }
directory_range (some b) =
    let fat_tables = fat_range (some b) in
    record {
      offset = word (fat_tables.offset + fat_tables.length);
      length = word (b.max_root_directory_entries * dir_entry_bytes);
    }

unfoldable pub sectors_per_alloc_unit : Bpb → ℕ
sectors_per_alloc_unit b = b.logical_sectors_per_cluster

-- The end of the root directory, in sectors.
unfoldable pub first_cluster_sector : Bpb → ℕ
unfolding directory_range
first_cluster_sector b =
    let dir = directory_range (some b) in
    word (dir.offset + dir.length) / b.bytes_per_logical_sector

unfoldable pub cluster_start_sector : Bpb → ℕ → ℕ
unfolding first_cluster_sector
cluster_start_sector b cluster =
    word
      (first_cluster_sector b + sub_word cluster min_file_cluster * b.logical_sectors_per_cluster)

-- The index is a `uint_16`. The shifted and masked bytes have no bit in common, so the sum is the
-- bitwise or.
unfoldable pub next_cluster : Array ℕ → ℕ → ℕ
next_cluster fat cluster =
    let lsb_index = word (3 * cluster) / 2 % 65536 in
    let lsb = fat lsb_index in
    let msb = fat (lsb_index + 1) in
    if cluster % 2 == 0 then msb % 16 * 256 + lsb else msb * 16 + lsb / 16

-- The loop over the copies returns in its first round.
unfoldable pub fat_verify : Bpb → Array ℕ → Bool
fat_verify b fat =
    let bytes = b.logical_sectors_per_fat * b.bytes_per_logical_sector in
    if ltb 1 b.number_of_fats
    then eq_ℤ (strcmpl fat (λ i. fat (bytes + i)) bytes) (pos 0)
    else false

unfoldable pub file_start_location : Bpb → FileInfo → Location
unfolding cluster_start_sector
file_start_location b info = record {
  sector = cluster_start_sector b info.alloc_unit;
  alloc_unit = info.alloc_unit;
  size_bytes = b.bytes_per_logical_sector;
}

unfoldable pub next_location : Bpb → Array ℕ → Location → Location
unfolding cluster_start_sector next_cluster
next_location b fat current =
    if word (current.sector + 1) % b.logical_sectors_per_cluster == 0
    then record {
      sector = cluster_start_sector b (next_cluster fat current.alloc_unit);
      alloc_unit = next_cluster fat current.alloc_unit;
      size_bytes = b.bytes_per_logical_sector;
    }
    else record {
      sector = word (current.sector + 1);
      alloc_unit = current.alloc_unit;
      size_bytes = b.bytes_per_logical_sector;
    }

unfoldable pub last_cluster : Bpb → ℕ
unfolding first_cluster_sector
last_cluster b =
    word (
      sub_word b.total_logical_sectors (first_cluster_sector b) / b.logical_sectors_per_cluster + 1)

unfoldable pub is_valid_for_read : Bpb → Location → Bool
unfolding last_cluster
is_valid_for_read b location =
    in_range min_file_cluster location.alloc_unit (min (last_cluster b) 4079)

unfoldable pub is_contiguous : Bpb → Location → Location → Bool
unfolding is_valid_for_read
is_contiguous b l m =
    m.alloc_unit == word (l.alloc_unit + 1) && is_valid_for_read b l && is_valid_for_read b m

unfoldable pub is_eof : Location → Bool
is_eof location = in_range 4088 location.alloc_unit 4095

unfoldable pub alignedr : ℕ → ℕ → Bool → ℕ
alignedr value alignment round_up =
    if value % alignment == 0
    then value
    else word (value / alignment * alignment + (if round_up then alignment else 0))

unfoldable pub alloc_unit_aligned_bytes : Bpb → ℕ → ℕ
unfolding alignedr
alloc_unit_aligned_bytes b bytes =
    alignedr bytes (b.bytes_per_logical_sector * b.logical_sectors_per_cluster) true
