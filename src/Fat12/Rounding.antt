-- ===== src/Fat12/Rounding.antt =====
-- driver/fat12/fat12.c: the size of a file in whole allocation units.
use native.Mathlib.Nat.{mul-pos, mod-add-div', mod-lt, mul-mod_left, add-mul}
use gunw_os.Prelude.{
  ℕ, ◌+◌, ◌*◌, ◌/◌, ◌%◌, ◌≤◌, ◌<◌, ◌≡◌, arith, word, true, ◌==◌, Bool-cases, inl, inr,
}
use gunw_os.Fat12.{Bpb, alignedr, alloc_unit_aligned_bytes}

pub alignedr_up :
    (v a : ℕ)
    → 0 < a
    → v + a < 4294967296
    → (v ≤ alignedr v a true) × (alignedr v a true < v + a) × (alignedr v a true % a ≡ 0)
unfolding alignedr
alignedr_up v a pos lt = elim (Bool-cases (v % a == 0)) [
  | inl whole ↦ rw whole (omega arith, omega arith, ground arith)
  | inr rest ↦ rw rest (
      let q : v % a + v / a * a ≡ v = mod-add-div' v a in
      let small : v % a < a = mod-lt v pos in
      let next : (v / a + 1) * a ≡ v / a * a + a = omega (arith, add-mul (v / a) 1 a) in
      let same : word (v / a * a + a) ≡ (v / a + 1) * a = omega arith in
      rw same (omega arith, ground arith, mul-mod_left (v / a + 1) a))
]

-- With a sector and a cluster size above 0 and no overflow of 32 bits, allocUnitAlignedBytes
-- answers a whole number of allocation units that is at least the given size and exceeds it by
-- less than one unit.
pub alloc_unit_aligned_bytes_lem :
    (b : Bpb) (bytes : ℕ)
    → 0 < b.bytes_per_logical_sector
    → 0 < b.logical_sectors_per_cluster
    → bytes + b.bytes_per_logical_sector * b.logical_sectors_per_cluster < 4294967296
    → (bytes ≤ alloc_unit_aligned_bytes b bytes)
      × (alloc_unit_aligned_bytes b bytes
          < bytes + b.bytes_per_logical_sector * b.logical_sectors_per_cluster)
      × (alloc_unit_aligned_bytes b bytes
            % (b.bytes_per_logical_sector * b.logical_sectors_per_cluster)
          ≡ 0)
unfolding alloc_unit_aligned_bytes
alloc_unit_aligned_bytes_lem b bytes s c lt = alignedr_up bytes _ (mul-pos s c) lt
