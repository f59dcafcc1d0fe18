-- ===== src/Fat12/Search.antt =====
-- src/system/kernel/driver/fat12/fat12.c: `fileInfo` and `validateDirEntry`, with `strreplacel` of
-- src/lib/stdgunw/string.c.
use gunw_os.Prelude.{
  ℕ, ◌+◌, ◌*◌, ◌/◌, Array, first, Bool, true, false, ◌&&◌, ltb, ◌==◌, if◌then◌else◌, Option, some,
  word, sub_word,
}
use gunw_os.Prelude.Int.{pos, eq_ℤ}
use gunw_os.Text.{strcmpl}
use gunw_os.Fat12.{
  Bpb, DirEntry, FileInfo, FileError, invalid_parameter, not_found, min_file_cluster,
  dir_entry_bytes,
}

unfoldable pub max_fat_entry : Bpb → ℕ
max_fat_entry b =
    let fat_sectors = b.number_of_fats * b.logical_sectors_per_fat in
    let dir_sectors = b.max_root_directory_entries * dir_entry_bytes / b.bytes_per_logical_sector in
    word (
      sub_word (sub_word (sub_word b.total_logical_sectors b.reserved_logical_sectors) fat_sectors)
        dir_sectors
      + 1)

unfoldable pub validate_dir_entry : Bpb → DirEntry → Bool
unfolding max_fat_entry
validate_dir_entry b e =
    if ltb e.first_logical_cluster min_file_cluster
    then false
    else if ltb (max_fat_entry b) e.first_logical_cluster
    then false
    else if e.file_size_bytes == 0
    then false
    else true

-- `strreplacel` on an array of characters.
unfoldable pub strreplacel : Array ℕ → ℕ → ℕ → ℕ → Array ℕ
strreplacel s s_len bef aft = λ i. if ltb i s_len && s i == bef then aft else s i

-- The test of one directory entry against the padded names.
unfoldable pub is_named : Array ℕ → Array ℕ → DirEntry → Bool
is_named fat_name fat_extension e =
    eq_ℤ (strcmpl fat_name e.filename 8) (pos 0)
    && eq_ℤ (strcmpl fat_extension e.extension 3) (pos 0)

pub data FileAnswer : Type 0 where
  found : FileInfo → FileAnswer
  failed : FileError → FileAnswer

-- `fileInfo` behind its tests of null pointers: the first entry with the name decides.
unfoldable pub search_dir : Bpb → Array DirEntry → Array ℕ → Array ℕ → FileAnswer
unfolding is_named validate_dir_entry strreplacel
search_dir b dir name ext =
    let fat_name = strreplacel name 8 0 b' ' in
    let fat_extension = strreplacel ext 3 0 b' ' in
    let i = first (λ i. is_named fat_name fat_extension (dir i)) 0 b.max_root_directory_entries in
    if ltb i b.max_root_directory_entries
    then (if validate_dir_entry b (dir i)
        then found (record {
          size_bytes = (dir i).file_size_bytes;
          alloc_unit = (dir i).first_logical_cluster;
        })
        else failed not_found)
    else failed not_found

unfoldable pub file_info :
    Option Bpb → Option (Array DirEntry) → Option (Array ℕ) → Option (Array ℕ) → Bool → FileAnswer
unfolding search_dir
file_info (some b) (some dir) (some name) (some ext) true = search_dir b dir name ext
file_info _ _ _ _ _ = failed invalid_parameter
