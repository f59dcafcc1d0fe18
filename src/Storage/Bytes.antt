-- ===== src/Storage/Bytes.antt =====
-- src/system/kernel/storage/volume.c: what `readBytes` reads.
use native.Mathlib.Nat.{mod-add-div', mod-lt}
use gunw_os.Prelude.Outcome.{ok, done}
use gunw_os.Prelude.{
  ℕ, ◌+◌, ◌*◌, ◌/◌, ◌%◌, ◌≤◌, ◌<◌, ◌≡◌, ◌∙◌, ap, Array, true, ◌==◌, some, word, arith,
}
use gunw_os.Fat12.{Range, StorGeometry, alignedr}
use gunw_os.Fat12.Rounding.{alignedr_up}
use gunw_os.Dev.Descriptor.{Uha, ReadResult, gsec_none}
use gunw_os.Dev.{k_dev_get_uha_for_id}
use gunw_os.Storage.{Storage, read_bytes, sector_aligned_bytes}

-- A whole number of sectors, not fewer than asked for.
aligned_whole :
    (bytes : ℕ) (g : StorGeometry)
    → 0 < g.sect_size_bytes
    → bytes + g.sect_size_bytes < 4294967296
    → (sector_aligned_bytes bytes g / g.sect_size_bytes * g.sect_size_bytes
        ≡ sector_aligned_bytes bytes g)
      × (bytes ≤ sector_aligned_bytes bytes g)
unfolding sector_aligned_bytes
aligned_whole bytes g pos lt =
    let (lo, _, whole) = alignedr_up bytes g.sect_size_bytes pos lt in
    (
      omega (arith, whole, mod-add-div' (alignedr bytes g.sect_size_bytes true) g.sect_size_bytes),
      lo,
    )

-- What a read of sectors of a disk with these bytes leaves.
pub record IsRead (g : StorGeometry) (disk : Array ℕ) (lba count : ℕ) (r : ReadResult)
    : Type 0 where
  pub succeeded : r.error ≡ gsec_none
  pub size : r.bytes_read ≡ count * g.sect_size_bytes
  pub content :
      (i : ℕ) → i < count * g.sect_size_bytes → r.buffer i ≡ disk (lba * g.sect_size_bytes + i)

module _ {S : Type 0} where
  -- If the controller of a volume's drive is installed, has a geometry with sectors of at least
  -- one byte, and every read of sectors of the drive succeeds with the bytes of the disk there,
  -- readBytes of a range whose length and two sectors fit in 32 bits succeeds with exactly the
  -- bytes of the disk in that range, and changes nothing but the state of the drivers.
  pub read_bytes-disk :
      (volume_id : ℕ) (range : Range) (m : Storage S) (uha : Uha S)
      (geometry : ℕ → S → StorGeometry × S) (read : ℕ → ℕ → ℕ → S → ReadResult × S)
      (g : StorGeometry) (disk : Array ℕ) (s : S)
      → k_dev_get_uha_for_id (m.drives (m.volumes volume_id).drive_id).ctrl_id true m.machine
        ≡ ok uha
      → uha.drive_geometry ≡ some geometry
      → uha.stor_ctrl_read ≡ some read
      → geometry (m.drives (m.volumes volume_id).drive_id).drive_id m.machine.drivers ≡ (g, s)
      → ((lba count : ℕ)
          → IsRead g disk lba count
              (read (m.drives (m.volumes volume_id).drive_id).drive_id lba count s).0)
      → 0 < g.sect_size_bytes
      → range.length + g.sect_size_bytes + g.sect_size_bytes < 4294967296
      → (buffer : Array ℕ) × (s' : S) × (read_bytes volume_id range m
          ≡ ok (done buffer, record m { machine = record m.machine { drivers = s' } }))
        × ((i : ℕ) → i < range.length → buffer i ≡ disk (range.offset + i))
  unfolding read_bytes
  read_bytes-disk volume_id range m uha geometry read g disk s u dg rd gg reads pos lt =
      let id = (m.drives (m.volumes volume_id).drive_id).drive_id in
      let sect = g.sect_size_bytes in
      let offset = range.offset % sect in
      let off_lt : offset < sect = mod-lt range.offset pos in
      let bytes = sector_aligned_bytes (word (offset + range.length)) g in
      let same : word (offset + range.length) ≡ offset + range.length = omega arith in
      let (whole, enough) = aligned_whole (word (offset + range.length)) g pos (omega arith) in
      let r = reads (range.offset / sect) (bytes / sect) in
      let got = (read id (range.offset / sect) (bytes / sect) s).0 in
      let all : (got.bytes_read == bytes) ≡ true = ground (arith, r.size) in
      (
        λ i. got.buffer (offset + i),
        (read id (range.offset / sect) (bytes / sect) s).1,
        rw u (rw (dg, gg, rd) (rw (r.succeeded, all))),
        λ i h.
            r.content (offset + i) (omega arith)
            ∙ ap disk (omega (arith, mod-add-div' range.offset sect)),
      )
