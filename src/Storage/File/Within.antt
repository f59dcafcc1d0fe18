-- ===== src/Storage/File/Within.antt =====
-- src/system/kernel/storage/file.c: `loadFile` stays within the bytes of the file.
use native.Mathlib.Nat.{div-mul-le_self}
use gunw_os.Prelude.Outcome.{
  Outcome, Answer, done, fails, Ensures, ensures_ok, ensures_fault, ensures_hang, Ensures-if,
  Ensures-then, Ensures-weaken,
}
use gunw_os.Prelude.{
  ℕ, zero, suc, ◌+◌, ◌-◌, ◌*◌, ◌/◌, ◌≤◌, ◌<◌, ◌≡◌, ◌∙◌, refl, false, not, ◌&&◌, Array, ltb, ◌==◌,
  some, word, sub_word, arith,
}
use gunw_os.Fat12.{FileInfo, Location, FileError}
use gunw_os.Storage.{StorError}
use gunw_os.Storage.FileSystem.{FileSystemDescriptor}
use gunw_os.Storage.Volumes.{Files, called, k_stor_volume_read_sector, k_stor_volume_read_bytes}
use gunw_os.Storage.File.{
  Walk, Loaded, written, last_contiguous, with_bytes, end_of_load, load_chain, load_file,
}

written-Keeps :
    (src dst : Array ℕ) (offset count size i : ℕ)
    → offset + count ≤ size
    → size ≤ i
    → written src offset count dst i ≡ dst i
written-Keeps src dst offset count size i h le = ground arith

-- A run that the code reads fits in what is left of the file.
run_fits :
    (expected total size units : ℕ)
    → total ≤ expected
    → expected < 4294967296
    → ltb (sub_word expected total / size) units ≡ false
    → total + word (units * size) ≤ expected
run_fits expected total size units le lt enough =
    let same : sub_word expected total ≡ expected - total = ground arith in
    let few : units ≤ (expected - total) / size = ground (arith, same) in
    let bytes : units * size ≤ (expected - total) / size * size = grind arith in
    omega (arith, div-mul-le_self (expected - total) size)

module _ {S : Type 0} where
  -- Behind so many bytes the buffer is as it was.
  abbrev pub Keeps : ℕ → Array ℕ → Loaded S → Type 0
  Keeps size dst r = (i : ℕ) → size ≤ i → r.1 i ≡ dst i

  Ensures-with_bytes {κ} :
      {P : Loaded S → Type κ} (answer : Answer StorError (Array ℕ) × Files S) (dst : Array ℕ)
      {f : Array ℕ → Files S → Outcome (Loaded S)}
      → ((e : FileError) (m : Files S) → P (some e, dst, m))
      → ((bytes : Array ℕ) (m : Files S) → Ensures P (f bytes m))
      → Ensures P (with_bytes answer dst f)
  Ensures-with_bytes (fails e, m) dst bad good = ensures_ok (bad _ m)
  Ensures-with_bytes (done bytes, m) dst bad good = good bytes m

  end_of_load-Keeps :
      (w : Walk) (l : Location) (total : ℕ) (dst : Array ℕ) (m : Files S) (size : ℕ)
      → Keeps size dst (end_of_load w l total dst m)
  end_of_load-Keeps w l total dst m size i h = ground arith

  pub load_chain-Keeps :
      (fuel run_fuel volume : ℕ) (w : Walk) (l : Location) (total : ℕ) (dst : Array ℕ) (m : Files S)
      → total ≤ w.expected_bytes
      → w.expected_bytes < 4294967296
      → Ensures (Keeps w.expected_bytes dst) (load_chain fuel run_fuel volume w l total dst m)
  unfolding load_chain
  load_chain-Keeps zero run_fuel volume w l total dst m le lt = ensures_hang
  load_chain-Keeps (suc f) run_fuel volume w l total dst m le lt =
      Ensures-then (last_contiguous run_fuel w.next w.contiguous l) λ last.
        let units = word (last.alloc_unit - l.alloc_unit + 1) in
        let bytes = word (units * l.size_bytes) in
        Ensures-if (ltb last.alloc_unit l.alloc_unit) (λ _. ensures_ok (λ i h. refl))
          λ _.
            Ensures-if (l.size_bytes == 0) (λ _. ensures_fault)
              λ _.
                Ensures-if (ltb (sub_word w.expected_bytes total / l.size_bytes) units)
                  (λ _. ensures_ok (λ i h. refl))
                  λ enough.
                    let fits : total + bytes ≤ w.expected_bytes =
                      run_fits w.expected_bytes total l.size_bytes units le lt enough in
                    Ensures-then
                      (k_stor_volume_read_sector volume l.sector
                        (word (units * w.sectors_per_alloc_unit)) bytes m)
                      λ answer.
                        Ensures-with_bytes answer dst (λ e m' i h. refl)
                          λ buffer m'.
                            let keeps = λ (i : ℕ) (h : w.expected_bytes ≤ i).
                              written-Keeps buffer dst total bytes w.expected_bytes i fits h in
                            Ensures-if
                              (w.valid (w.next last) && ltb (word (total + bytes)) w.expected_bytes)
                              (λ _.
                                Ensures-weaken (λ r k i h. k i h ∙ keeps i h)
                                  (load_chain-Keeps f run_fuel volume w (w.next last)
                                    (word (total + bytes)) (written buffer total bytes dst) m'
                                    (ground arith) lt))
                              λ _. ensures_ok (λ i h.
                                end_of_load-Keeps w (w.next last) (word (total + bytes))
                                  (written buffer total bytes dst) m' w.expected_bytes i h
                                ∙ keeps i h)

  -- If the size of a file, rounded up to whole allocation units, fits in 32 bits, then a load of
  -- the file that returns, with or without an error, has not changed the buffer behind that size.
  -- A load that reads past its own buffer for a run of units, as with clusters of several
  -- sectors, is a fault and does not return.
  pub load_file-Keeps :
      (fuel volume : ℕ) (header : Array ℕ) (info : FileInfo) (desc : FileSystemDescriptor)
      (aligned : Array ℕ → ℕ → ℕ) (dst : Array ℕ) (m : Files S)
      → desc.alloc_unit_aligned_bytes ≡ some aligned
      → aligned header info.size_bytes < 4294967296
      → Ensures
          (Keeps (aligned header info.size_bytes) dst)
          (load_file fuel volume header info desc dst m)
  unfolding load_file
  load_file-Keeps fuel volume header info desc aligned dst m e lt =
      Ensures-then (called desc.fat_range) λ fat_range.
        Ensures-if ((fat_range header).length == 0) (λ _. ensures_ok (λ i h. refl))
          λ _. Ensures-then (k_stor_volume_read_bytes volume (fat_range header) m) λ answer.
            Ensures-with_bytes answer dst (λ e m' i h. refl)
              λ fat m'. Ensures-then (called desc.fat_verify) λ verify.
                Ensures-if (not (verify header fat)) (λ _. ensures_ok (λ i h. refl))
                  λ _. Ensures-then (called desc.file_start_location) λ start. rw e (
                    Ensures-then (called desc.sectors_per_alloc_unit) λ sectors.
                      Ensures-then (called desc.next_location) λ next.
                        Ensures-then (called desc.is_contiguous) λ contiguous.
                          Ensures-then (called desc.is_valid_for_read) λ valid.
                            Ensures-then (called desc.is_eof) λ is_eof.
                              load_chain-Keeps fuel fuel volume
                                (record {
                                  next = next header fat;
                                  contiguous = contiguous header;
                                  valid = valid header;
                                  is_eof = is_eof;
                                  expected_bytes = aligned header info.size_bytes;
                                  sectors_per_alloc_unit = sectors header;
                                })
                                (start header info) 0 dst m' (omega arith) lt)
