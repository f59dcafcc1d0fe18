-- ===== src/Storage/FileSystem.antt =====
-- src/system/kernel/storage/filesys.c: the file systems that are installed, and their descriptor
-- (src/system/api/driver/include/gunwfilesys.h). A missing routine is `none`.
use gunw_os.Prelude.Outcome.{Outcome, ok, oops, Answer}
use gunw_os.Prelude.{
  ℕ, Bool, true, false, not, Array, update, first, leb, ◌==◌, if◌then◌else◌, Option, is_some,
}
use gunw_os.Fat12.{Range, StorGeometry, FileInfo, Location, FileError}

abbrev pub max_filesys : ℕ
max_filesys = 2

-- `struct gnwFileSystemDescriptor`; the first argument of a routine is the header.
pub record FileSystemDescriptor : Type 0 where
  pub header_range : Range
  pub max_filename_length : ℕ
  pub max_extension_length : ℕ
  pub sectors_per_alloc_unit : Option (Array ℕ → ℕ)
  pub directory_range : Option (Array ℕ → Range)
  pub fat_range : Option (Array ℕ → Range)
  pub fat_verify : Option (Array ℕ → Array ℕ → Bool)
  pub file_start_location : Option (Array ℕ → FileInfo → Location)
  pub next_location : Option (Array ℕ → Array ℕ → Location → Location)
  pub is_contiguous : Option (Array ℕ → Location → Location → Bool)
  pub is_valid_for_read : Option (Array ℕ → Location → Bool)
  pub is_eof : Option (Location → Bool)
  pub file_info : Option (Array ℕ → Array ℕ → Array ℕ → Array ℕ → Answer FileError FileInfo)
  pub alloc_unit_aligned_bytes : Option (Array ℕ → ℕ → ℕ)
  pub detect : Option (Array ℕ → StorGeometry → Bool)

-- `struct k_stor_fileSystem`
pub record FileSystem : Type 0 where
  pub used : Bool
  pub desc : FileSystemDescriptor

unfoldable pub k_stor_file_sys_install :
    FileSystemDescriptor → Array FileSystem → Outcome (Array FileSystem)
k_stor_file_sys_install desc fs =
    let i = first (λ i. not (fs i).used) 0 max_filesys in
    if leb max_filesys i then oops else ok (update fs i (record { used = true; desc = desc }))

-- The tests of a descriptor.
abbrev pub has_all : FileSystemDescriptor → Bool
has_all d =
    if d.header_range.length == 0
    then false
    else if d.max_filename_length == 0
    then false
    else if d.max_extension_length == 0
    then false
    else if not (is_some d.sectors_per_alloc_unit)
    then false
    else if not (is_some d.directory_range)
    then false
    else if not (is_some d.fat_range)
    then false
    else if not (is_some d.fat_verify)
    then false
    else if not (is_some d.file_start_location)
    then false
    else if not (is_some d.next_location)
    then false
    else if not (is_some d.is_contiguous)
    then false
    else if not (is_some d.is_valid_for_read)
    then false
    else if not (is_some d.is_eof)
    then false
    else if not (is_some d.file_info)
    then false
    else if not (is_some d.alloc_unit_aligned_bytes)
    then false
    else is_some d.detect

unfoldable pub k_stor_file_sys_validate_id : ℕ → Array FileSystem → Bool
k_stor_file_sys_validate_id id fs =
    if leb max_filesys id then false else if not (fs id).used then false else has_all (fs id).desc
