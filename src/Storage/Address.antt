-- ===== src/Storage/Address.antt =====
-- src/system/api/app/src/gunwstor.c: the two addresses of a sector.
use native.Mathlib.Nat.{div-add-mod', mod-lt, div-lt_iff_lt-mul, add-mul, mul_assoc, mul-pos}
use gunw_os.Prelude.{ℕ, ◌+◌, ◌-◌, ◌*◌, ◌/◌, ◌%◌, ◌<◌, ◌≡◌, ◌==◌, ◌||◌, word, arith, false}
use gunw_os.Storage.{lba2chs, chs2lba}

-- The address as a number of cylinders, heads and sectors.
split :
    (lba hpc spt : ℕ)
    → 0 < spt
    → (lba / (hpc * spt) * hpc + lba % (hpc * spt) / spt) * spt + lba % (hpc * spt) % spt ≡ lba
split lba hpc spt pos =
    let outer : lba / (hpc * spt) * (hpc * spt) + lba % (hpc * spt) ≡ lba =
      div-add-mod' lba (hpc * spt) in
    let inner : lba % (hpc * spt) / spt * spt + lba % (hpc * spt) % spt ≡ lba % (hpc * spt) =
      div-add-mod' (lba % (hpc * spt)) spt in
    omega (
      arith,
      add-mul (lba / (hpc * spt) * hpc) (lba % (hpc * spt) / spt) spt,
      mul_assoc (lba / (hpc * spt)) hpc spt,
    )

-- For a disk with one to 255 heads and one to 255 sectors per track, chs2lba of lba2chs of a
-- 32-bit address gives back the address, if its cylinder number fits in 16 bits.
pub chs2lba-lba2chs :
    (lba hpc spt : ℕ)
    → 0 < hpc
    → hpc < 256
    → 0 < spt
    → spt < 256
    → lba < 4294967296
    → lba / (hpc * spt) < 65536
    → chs2lba (lba2chs lba hpc spt).c (lba2chs lba hpc spt).h (lba2chs lba hpc spt).s hpc spt ≡ lba
unfolding lba2chs chs2lba
chs2lba-lba2chs lba hpc spt a b c d e f =
    let none : (hpc == 0 || spt == 0) ≡ false = ground arith in
    let head : lba % (hpc * spt) / spt < hpc = (div-lt_iff_lt-mul c).1 (mod-lt lba (mul-pos a c)) in
    let sector : lba % (hpc * spt) % spt < spt = mod-lt (lba % (hpc * spt)) c in
    let c' : lba / (hpc * spt) % 65536 ≡ lba / (hpc * spt) = omega arith in
    let h' : lba % (hpc * spt) / spt % 256 ≡ lba % (hpc * spt) / spt = omega arith in
    let s' : word (lba % (hpc * spt) % spt + 1) % 256 ≡ lba % (hpc * spt) % spt + 1 = omega arith in
    let some : (lba % (hpc * spt) % spt + 1 == 0) ≡ false = ground arith in
    let back : lba % (hpc * spt) % spt + 1 - 1 ≡ lba % (hpc * spt) % spt = omega arith in
    rw (none, c', h', s', some, back, split lba hpc spt c) (omega arith)
