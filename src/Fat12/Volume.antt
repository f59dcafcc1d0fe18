-- ===== src/Fat12/Volume.antt =====
-- driver/fat12/fat12.c: what a header that `detect` accepts says about the areas of the volume.
use native.Mathlib.Nat.{mul-le-mul, mul-pos, mul-div_cancel, add-mul, mod-add-div'}
use gunw_os.Prelude.{
  ℕ, zero, suc, ◌+◌, ◌*◌, ◌/◌, ◌%◌, ◌^◌, ◌≤◌, ◌<◌, ◌≡◌, ◌∙◌, ap, sub_word, true, ◌==◌, arith, word,
  Bool-cases, inl, inr,
}
use gunw_os.Fat12.{Bpb, StorGeometry, first_cluster_sector, dir_entry_bytes}
use gunw_os.Fat12.Detect.{
  popcount, detect, detect_fields, detect_layout, utility_sectors, data_sectors, data_clusters,
  fat_bytes,
}

-- The width of the fields that the arithmetic reads.
pub record HasWidths (b : Bpb) : Type 0 where
  pub sector_bytes : b.bytes_per_logical_sector < 65536
  pub reserved : b.reserved_logical_sectors < 65536
  pub entries : b.max_root_directory_entries < 65536
  pub total : b.total_logical_sectors < 65536
  pub table : b.logical_sectors_per_fat < 65536
  pub cluster : b.logical_sectors_per_cluster < 256

-- The geometry of a volume: areas that follow one another, whole clusters up to the end, and a
-- table with an entry for each cluster.
pub record IsVolume (b : Bpb) : Type 0 where
  pub sector_pos : 0 < b.bytes_per_logical_sector
  pub sector_le : b.bytes_per_logical_sector ≤ 32768
  pub cluster_pos : 0 < b.logical_sectors_per_cluster
  pub total_whole : b.total_logical_sectors % b.logical_sectors_per_cluster ≡ 0
  pub dir_whole : b.max_root_directory_entries * dir_entry_bytes % b.bytes_per_logical_sector ≡ 0
  pub fits : b.hidden_sectors + utility_sectors b < b.total_logical_sectors
  pub data_whole : data_sectors b % b.logical_sectors_per_cluster ≡ 0
  pub table_holds : 3 * (data_clusters b + 2) ≤ 2 * fat_bytes b

popcount-zero : (w n : ℕ) → popcount w n ≡ 0 → n < 2 ^ w → n ≡ 0
unfolding popcount
popcount-zero zero n e h = omega arith
popcount-zero (suc w) n e h = omega (arith, popcount-zero w (n / 2) (omega arith) (omega arith))

-- A word with one bit set is at most the highest bit.
popcount-one : (w n : ℕ) → popcount (suc w) n ≡ 1 → n < 2 ^ suc w → n ≤ 2 ^ w
unfolding popcount
popcount-one zero n e h = omega arith
popcount-one (suc w) n e h = elim (Bool-cases (n % 2 == 0)) [
  | inl even ↦ ground (arith, popcount-one w (n / 2) (ground arith) (omega arith))
  | inr odd ↦ ground (arith, popcount-zero (suc w) (n / 2) (ground arith) (omega arith))
]

popcount-pos : (w n : ℕ) → popcount w n ≡ 1 → 0 < n
unfolding popcount
popcount-pos zero n e = absurd (omega arith)
popcount-pos (suc w) n e = elim (Bool-cases (n % 2 == 0)) [
  | inl even ↦ ground (arith, popcount-pos w (n / 2) (ground arith))
  | inr odd ↦ ground arith
]

-- The entries of a table of so many bytes, the first two of which are reserved.
table :
    (f d : ℕ)
    → 0 < f
    → f ≤ 65535 * 32768
    → word (f * 8) % 12 ≡ 0
    → d ≤ sub_word (word (f * 2) / 3) 2
    → 3 * (d + 2) ≤ 2 * f
table f d pos le whole enough = ground arith

-- Three areas of whole sectors, measured in bytes and back: no word wraps.
areas :
    (r q d c e : ℕ)
    → e ≡ d * c
    → 0 < c
    → c ≤ 32768
    → r + q + d < 65536
    → word (word (word (r * c) + word (q * c)) + word e) / c ≡ r + q + d
areas r q d c e same pos le lt =
    let bound : (r + q + d) * c ≤ 65535 * 32768 = mul-le-mul {n₂ = 65535} (omega arith) le in
    let split : (r + q + d) * c ≡ r * c + q * c + d * c =
      add-mul (r + q) d c ∙ ap (λ x. x + d * c) (add-mul r q c) in
    let whole : word (word (word (r * c) + word (q * c)) + word e) ≡ (r + q + d) * c =
      omega arith in
    rw whole (mul-div_cancel (r + q + d) pos)

module _ (b : Bpb) where
  pub first_cluster_sector-eq :
      IsVolume b → b.total_logical_sectors < 65536 → first_cluster_sector b ≡ utility_sectors b
  unfolding first_cluster_sector
  first_cluster_sector-eq v w =
      areas b.reserved_logical_sectors (b.number_of_fats * b.logical_sectors_per_fat)
        (b.max_root_directory_entries * 32 / b.bytes_per_logical_sector) b.bytes_per_logical_sector
        (b.max_root_directory_entries * 32)
        (omega (
          arith,
          mod-add-div' (b.max_root_directory_entries * 32) b.bytes_per_logical_sector,
          v.dir_whole,
        ))
        v.sector_pos v.sector_le (omega (arith, v.fits))

  fields :
      (g : StorGeometry)
      → detect_fields b g ≡ true
      → (popcount 16 b.bytes_per_logical_sector ≡ 1)
        × (0 < b.logical_sectors_per_cluster)
        × (0 < b.logical_sectors_per_fat)
        × (b.total_logical_sectors ≤ g.lba)
        × (g.sect_size_bytes ≡ b.bytes_per_logical_sector)
  unfolding detect_fields
  fields g e = ground arith

  layout :
      detect_layout b ≡ true
      → (b.total_logical_sectors % b.logical_sectors_per_cluster ≡ 0)
        × (b.max_root_directory_entries * 32 % b.bytes_per_logical_sector ≡ 0)
        × (b.hidden_sectors + utility_sectors b < b.total_logical_sectors)
        × (data_sectors b % b.logical_sectors_per_cluster ≡ 0)
        × (word (fat_bytes b * 8) % 12 ≡ 0)
        × (data_clusters b ≤ sub_word (word (fat_bytes b * 2) / 3) 2)
  unfolding detect_layout
  layout e = ground arith

-- A header, its fields of the width that they have, that detect accepts has a sector size between
-- 1 and 32768, clusters of at least one sector, a directory and a data area of whole sectors and
-- clusters, room for all areas within its sectors, and a table with an entry for each data
-- cluster.
pub detect-IsVolume : (b : Bpb) (g : StorGeometry) → HasWidths b → detect b g ≡ true → IsVolume b
unfolding detect
detect-IsVolume b g w e =
    let f = fields b g (ground arith) in
    let l = layout b (ground arith) in
    let le : b.bytes_per_logical_sector ≤ 32768 =
      popcount-one 15 b.bytes_per_logical_sector f.0 (omega (arith, w.sector_bytes)) in
    let bytes : fat_bytes b ≤ 65535 * 32768 = mul-le-mul {n₂ = 65535} (omega (arith, w.table)) le in
    let pos : 0 < b.bytes_per_logical_sector = popcount-pos 16 b.bytes_per_logical_sector f.0 in
    record {
      sector_pos = pos;
      sector_le = le;
      cluster_pos = f.1;
      total_whole = l.0;
      dir_whole = l.1;
      fits = l.2;
      data_whole = l.3;
      table_holds = table (fat_bytes b) (data_clusters b) (mul-pos f.2 pos) bytes l.4 l.5;
    }
