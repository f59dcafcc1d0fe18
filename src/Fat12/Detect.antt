-- ===== src/Fat12/Detect.antt =====
-- src/system/kernel/driver/fat12/fat12.c: `detect`.
use gunw_os.Prelude.{
  ℕ, zero, suc, ◌+◌, ◌-◌, ◌*◌, ◌/◌, ◌%◌, Bool, false, not, ltb, leb, ◌==◌, if◌then◌else◌, word,
  sub_word,
}
use gunw_os.Prelude.Int.{pos, eq_ℤ}
use gunw_os.Text.{strcmpl}
use gunw_os.Fat12.{
  Bpb, StorGeometry, file_system_name, extended_boot_signature_value, dir_entry_bytes,
  bytes_to_fat_entries,
}

-- `__builtin_popcount` of a word of so many bits.
unfoldable pub popcount : ℕ → ℕ → ℕ
popcount zero n = 0
popcount (suc w) n = n % 2 + popcount w (n / 2)

-- The tests of `detect` on single fields.
unfoldable pub detect_fields : Bpb → StorGeometry → Bool
unfolding popcount
detect_fields b geometry =
    if not (popcount 16 b.bytes_per_logical_sector == 1)
    then false
    else if ltb geometry.lba b.total_logical_sectors
    then false
    else if not (geometry.sect_size_bytes == b.bytes_per_logical_sector)
    then false
    else if b.logical_sectors_per_cluster == 0
    then false
    else if b.reserved_logical_sectors == 0
    then false
    else if b.number_of_fats == 0
    then false
    else if b.max_root_directory_entries == 0
    then false
    else if b.total_logical_sectors == 0
    then false
    else if not (b.media_descriptor.reserved == 15)
    then false
    else if b.logical_sectors_per_fat == 0
    then false
    else if b.physical_sectors_per_track == 0
    then false
    else if b.number_of_heads == 0
    then false
    else b.extended_boot_signature == extended_boot_signature_value

abbrev pub utility_sectors : Bpb → ℕ
utility_sectors b =
    b.reserved_logical_sectors
    + b.number_of_fats * b.logical_sectors_per_fat
    + b.max_root_directory_entries * dir_entry_bytes / b.bytes_per_logical_sector

abbrev pub data_sectors : Bpb → ℕ
data_sectors b = b.total_logical_sectors - utility_sectors b - b.hidden_sectors

abbrev pub data_clusters : Bpb → ℕ
data_clusters b = data_sectors b / b.logical_sectors_per_cluster

abbrev pub fat_bytes : Bpb → ℕ
fat_bytes b = b.logical_sectors_per_fat * b.bytes_per_logical_sector

-- The tests of `detect` on the layout. None of the sums wraps, since the fields have 16 bits, and
-- the differences are tested first; the number of table entries may wrap.
unfoldable pub detect_layout : Bpb → Bool
detect_layout b =
    if not (b.total_logical_sectors % b.logical_sectors_per_cluster == 0)
    then false
    else if not (b.max_root_directory_entries * dir_entry_bytes % b.bytes_per_logical_sector == 0)
    then false
    else if leb b.total_logical_sectors b.hidden_sectors
    then false
    else if leb (b.total_logical_sectors - b.hidden_sectors) (utility_sectors b)
    then false
    else if not (data_sectors b % b.logical_sectors_per_cluster == 0)
    then false
    else if ltb (data_clusters b) b.max_root_directory_entries
    then false
    else if not (word (fat_bytes b * 8) % 12 == 0)
    then false
    else if ltb (sub_word (bytes_to_fat_entries (fat_bytes b)) 2) (data_clusters b)
    then false
    else eq_ℤ (strcmpl b.file_system_type file_system_name 8) (pos 0)

unfoldable pub detect : Bpb → StorGeometry → Bool
unfolding detect_fields detect_layout
detect b geometry = if detect_fields b geometry then detect_layout b else false
