-- ===== src/Storage.antt =====
-- src/system/kernel/storage: drives (drive.c, storage.c) and the bytes of a volume (volume.c), and
-- the addresses of sectors, src/system/api/app/src/gunwstor.c.
pub mod Bytes
pub mod Address
pub mod FileSystem
pub mod Volumes
pub mod File
use gunw_os.Prelude.Outcome.{Outcome, ok, oops, fault, ◌>>=◌, Answer, done, fails}
use gunw_os.Prelude.{
  ℕ, zero, suc, ◌+◌, ◌-◌, ◌*◌, ◌/◌, ◌%◌, Array, update, first, Bool, true, false, not, ◌||◌, ltb,
  ◌==◌, if◌then◌else◌, Option, none, some, word,
}
use gunw_os.Fat12.{Range, StorGeometry, alignedr}
use gunw_os.Dev.Descriptor.{
  Uha, UhaDesc, ReadResult, StorErrorCode, gsec_none, gsec_drive_not_present,
  gsec_media_not_present, has_bit,
}
use gunw_os.Dev.{Machine, k_dev_get_by_id, k_dev_get_uha_for_id}

abbrev pub max_drives : ℕ
max_drives = 8

abbrev pub max_volumes : ℕ
max_volumes = 16

-- `enum k_stor_error` without `SE_NONE`
pub data StorError : Type 0 where
  se_limit_reached se_invalid_device se_unknown : StorError

pub record Drive : Type 0 where
  pub used : Bool
  pub ctrl_id : ℕ
  pub drive_id : ℕ

pub record Volume : Type 0 where
  pub used : Bool
  pub drive_id : ℕ
  pub file_sys_id : ℕ

-- `k_stor_drives` and `k_stor_volumes`, with the table of devices.
pub record Storage (S : Type 0) : Type 0 where
  pub machine : Machine S
  pub drives : Array Drive
  pub volumes : Array Volume

unfoldable pub sector_aligned_bytes : ℕ → StorGeometry → ℕ
sector_aligned_bytes bytes g = alignedr bytes g.sect_size_bytes true

-- The part of a buffer that was asked for, or the error that stands for the drive's.
abbrev pub from_buffer : ℕ → ℕ → ReadResult → Answer StorError (Array ℕ)
from_buffer offset bytes_to_read r = elim r.error [
  | gsec_none ↦
      if r.bytes_read == bytes_to_read then done (λ i. r.buffer (offset + i)) else fails se_unknown
  | gsec_media_not_present ↦ fails se_invalid_device
  | gsec_drive_not_present ↦ fails se_invalid_device
  | _ ↦ fails se_unknown
]

module _ {S : Type 0} where
  unfoldable pub add_drive : ℕ → ℕ → Storage S → Outcome (Storage S)
  add_drive ctrl_id drive_id m =
      let i = first (λ i. not (m.drives i).used) 0 max_drives in
      if ltb i max_drives
      then ok (record m {
        drives = update m.drives i (record { used = true; ctrl_id = ctrl_id; drive_id = drive_id });
      })
      else oops

  unfoldable pub add_volume : ℕ → ℕ → Storage S → Outcome (Storage S)
  add_volume drive_id file_sys_id m =
      let i = first (λ i. not (m.volumes i).used) 0 max_volumes in
      if ltb i max_volumes
      then ok (record m {
        volumes =
            update m.volumes i
              (record { used = true; drive_id = drive_id; file_sys_id = file_sys_id });
      })
      else oops

  -- `detectDrives` over so many drives of a controller, from one on; an index is a `uint_8`.
  unfoldable pub detect_drives : ℕ → (ℕ → S → Bool × S) → ℕ → ℕ → Storage S → Outcome (Storage S)
  unfolding add_drive
  detect_drives ctrl_id drive_present i zero m = ok m
  detect_drives ctrl_id drive_present i (suc n) m =
      let (present, s) = drive_present (i % 256) m.machine.drivers in
      let m' = record m { machine = record m.machine { drivers = s } } in
      (if present then add_drive ctrl_id i m' else ok m') >>= λ m''.
      detect_drives ctrl_id drive_present (i + 1) n m''

  unfoldable pub k_stor_drive_validate_id : ℕ → Storage S → Outcome Bool
  k_stor_drive_validate_id id m =
      let drive = m.drives id in
      if not (ltb id max_drives)
      then ok false
      else if not drive.used
      then ok false
      else (k_dev_get_by_id drive.ctrl_id true m.machine >>= λ desc.
          if not (has_bit desc.type 7)
          then ok false
          else ok (ltb drive.drive_id desc.stor_ctrl_desc.drive_count))

  abbrev pub read_sectors :
      ℕ
      → Range
      → StorGeometry
      → Option (ℕ → ℕ → ℕ → S → ReadResult × S)
      → S
      → Outcome (Answer StorError (Array ℕ) × S)
  read_sectors drive_id range g none s = fault
  read_sectors drive_id range g (some read) s =
      let offset_lba = range.offset / g.sect_size_bytes in
      let offset = range.offset % g.sect_size_bytes in
      let bytes_to_read = sector_aligned_bytes (word (offset + range.length)) g in
      let (r, s') = read drive_id offset_lba (bytes_to_read / g.sect_size_bytes) s in
      ok (from_buffer offset bytes_to_read r, s')

  abbrev pub read_uha : ℕ → Range → Uha S → S → Outcome (Answer StorError (Array ℕ) × S)
  read_uha drive_id range uha s = elim uha.drive_geometry [
    | none ↦ fault
    | some geometry ↦
        let (g, s') = geometry drive_id s in read_sectors drive_id range g uha.stor_ctrl_read s'
  ]

  -- `readBytes` of volume.c, on identifiers that its callers have validated: the bytes that it
  -- writes to the buffer. The sector size is not 0 for a drive that holds a volume.
  unfoldable pub read_bytes :
      ℕ → Range → Storage S → Outcome (Answer StorError (Array ℕ) × Storage S)
  unfolding sector_aligned_bytes
  read_bytes volume_id range m =
      let drive = m.drives (m.volumes volume_id).drive_id in
      k_dev_get_uha_for_id drive.ctrl_id true m.machine >>= λ uha.
      read_uha drive.drive_id range uha m.machine.drivers >>= λ (answer, s).
      ok (answer, record m { machine = record m.machine { drivers = s } })

-- `struct gnwStorCHS`
pub record Chs : Type 0 where
  pub c : ℕ
  pub h : ℕ
  pub s : ℕ

-- `lba2chs` and `chs2lba`; the fields have 16, 8 and 8 bits.
unfoldable pub lba2chs : ℕ → ℕ → ℕ → Chs
lba2chs lba hpc spt =
    let hsm = hpc * spt in
    if hpc == 0 || spt == 0 then record { c = 0; h = 0; s = 0 } else record {
      c = lba / hsm % 65536;
      h = lba % hsm / spt % 256;
      s = word (lba % hsm % spt + 1) % 256;
    }

unfoldable pub chs2lba : ℕ → ℕ → ℕ → ℕ → ℕ → ℕ
chs2lba c h s hpc spt =
    if hpc == 0 || spt == 0 then 0 else if s == 0 then 0 else word ((c * hpc + h) * spt + (s - 1))
