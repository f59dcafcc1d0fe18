-- ===== src/Storage/Volumes.antt =====
-- src/system/kernel/storage: the volumes with their file systems (volume.c), and the detection of
-- drives and volumes when the kernel starts (storage.c).
use gunw_os.Prelude.Outcome.{Outcome, ok, oops, fault, ◌>>=◌, Answer, done, fails}
use gunw_os.Prelude.{
  ℕ, zero, suc, ◌+◌, ◌*◌, ◌/◌, ◌%◌, Bool, true, false, not, Array, leb, ltb, ◌==◌, if◌then◌else◌,
  Option, none, some, word, sub_word,
}
use gunw_os.Fat12.{Range}
use gunw_os.Dev.Descriptor.{
  Uha, ReadResult, gsec_none, gsec_drive_not_present, gsec_media_not_present,
}
use gunw_os.Dev.{k_dev_get_by_type, k_dev_get_uha_for_id}
use gunw_os.Storage.{
  Storage, StorError, max_drives, max_volumes, add_volume, detect_drives, k_stor_drive_validate_id,
  read_bytes, sector_aligned_bytes,
}
use gunw_os.Storage.FileSystem.{FileSystem, max_filesys, k_stor_file_sys_validate_id}

-- The storage with `k_stor_fileSystems`.
pub record Files (S : Type 0) : Type 0 where
  pub storage : Storage S
  pub file_systems : Array FileSystem

-- A call through a pointer that may be null.
abbrev pub called {ℓ} : {A : Type ℓ} → Option A → Outcome A
called none = fault
called (some f) = ok f

-- What a read that fails, or reads another number of bytes, does to the detection: it is over for
-- the drive, or the kernel halts.
pub data HeaderRead : Type 0 where
  is_read gone broken : HeaderRead

unfoldable pub header_read : Bool → Bool → ℕ → ReadResult → HeaderRead
header_read removable removable_media bytes r = elim r.error [
  | gsec_none ↦ if r.bytes_read == bytes then is_read else broken
  | gsec_drive_not_present ↦ if removable then gone else broken
  | gsec_media_not_present ↦ if removable_media then gone else broken
  | _ ↦ broken
]

module _ {S : Type 0} where
  abbrev pub set_drivers : S → Files S → Files S
  set_drivers s m = record m {
    storage = record m.storage { machine = record m.storage.machine { drivers = s } };
  }

  unfoldable pub k_stor_volume_validate_id : ℕ → Files S → Outcome Bool
  k_stor_volume_validate_id id m =
      let volume = m.storage.volumes id in
      if leb max_volumes id
      then ok false
      else if not volume.used
      then ok false
      else (k_stor_drive_validate_id volume.drive_id m.storage >>= λ valid.
          if not valid
          then ok false
          else ok (k_stor_file_sys_validate_id volume.file_sys_id m.file_systems))

  unfoldable pub k_stor_volume_read_bytes :
      ℕ → Range → Files S → Outcome (Answer StorError (Array ℕ) × Files S)
  unfolding k_stor_volume_validate_id
  k_stor_volume_read_bytes id range m = k_stor_volume_validate_id id m >>= λ valid.
      if not valid
      then oops
      else (read_bytes id range m.storage >>= λ (answer, s). ok (answer, record m { storage = s }))

  unfoldable pub k_stor_volume_read_header :
      ℕ → Files S → Outcome (Answer StorError (Array ℕ) × Files S)
  unfolding k_stor_volume_read_bytes
  k_stor_volume_read_header id m = k_stor_volume_validate_id id m >>= λ valid.
      if not valid
      then oops
      else (read_bytes id (m.file_systems (m.storage.volumes id).file_sys_id).desc.header_range
            m.storage
          >>= λ (answer, s). ok (answer, record m { storage = s }))

  -- The copy of so many bytes that have been read to a buffer with so much room.
  abbrev pub into :
      ℕ → ℕ → Answer StorError (Array ℕ) × Files S → Outcome (Answer StorError (Array ℕ) × Files S)
  into room length (fails e, m) = ok (fails e, m)
  into room length (done bytes, m) = if ltb room length then fault else ok (done bytes, m)

  -- The third number is the size of the caller's buffer.
  unfoldable pub k_stor_volume_read_sector :
      ℕ → ℕ → ℕ → ℕ → Files S → Outcome (Answer StorError (Array ℕ) × Files S)
  unfolding k_stor_volume_read_bytes
  k_stor_volume_read_sector id lba count room m =
      let drive = m.storage.drives (m.storage.volumes id).drive_id in
      k_dev_get_uha_for_id drive.ctrl_id true m.storage.machine >>= λ uha.
      called uha.drive_geometry >>= λ geometry.
      let (g, s) = geometry drive.drive_id m.storage.machine.drivers in
      k_stor_volume_read_bytes id
        (record {
          offset = word (lba * g.sect_size_bytes);
          length = word (g.sect_size_bytes * count);
        })
        (set_drivers s m)
      >>= into room (word (g.sect_size_bytes * count))

  -- The header of one file system on a drive: whether the search goes on.
  unfoldable pub try_file_system : Uha S → ℕ → ℕ → Files S → Outcome (Bool × Files S)
  unfolding header_read
  try_file_system uha drive_index i m =
      let fs = m.file_systems i in
      let range = fs.desc.header_range in
      let drive_id = (m.storage.drives drive_index).drive_id in
      if range.length == 0
      then oops
      else (called uha.drive_geometry >>= λ geometry.
          let (g, s) = geometry drive_id m.storage.machine.drivers in
          let lba = range.offset / g.sect_size_bytes in
          let bytes =
            sub_word (sector_aligned_bytes (word (range.offset + range.length)) g)
              (lba * g.sect_size_bytes) in
          if g.sect_size_bytes == 0
          then fault
          else (called uha.stor_ctrl_read >>= λ read.
              let (r, s') = read drive_id lba (bytes / g.sect_size_bytes) s in
              let m' = set_drivers s' m in
              elim (header_read uha.stor_ctrl_desc.removable uha.stor_ctrl_desc.removable_media
                bytes r) [
                  | gone ↦ ok (false, m')
                  | broken ↦ oops
                  | is_read ↦ called fs.desc.detect >>= λ detect.
                      if detect (λ j. r.buffer (range.offset % g.sect_size_bytes + j)) g
                      then (add_volume drive_index i m'.storage >>= λ st.
                          ok (false, record m' { storage = st }))
                      else ok (true, m')
                ]))

  -- The loop over the file systems, from number `i` on with `n` to come.
  unfoldable pub try_file_systems : Uha S → ℕ → ℕ → ℕ → Files S → Outcome (Files S)
  unfolding try_file_system
  try_file_systems uha drive_index i zero m = ok m
  try_file_systems uha drive_index i (suc n) m =
      if not (m.file_systems i).used
      then try_file_systems uha drive_index (i + 1) n m
      else (try_file_system uha drive_index i m >>= λ (on, m').
          if on then try_file_systems uha drive_index (i + 1) n m' else ok m')

  unfoldable pub detect_file_system : Uha S → ℕ → Files S → Outcome (Files S)
  unfolding try_file_systems
  detect_file_system uha drive_index m =
      if leb max_drives drive_index
      then oops
      else if not (m.storage.drives drive_index).used
      then oops
      else try_file_systems uha drive_index 0 max_filesys m

  -- The loop over the drives, from number `i` on with `n` to come.
  unfoldable pub detect_volumes_from : Uha S → ℕ → ℕ → Files S → Outcome (Files S)
  unfolding detect_file_system
  detect_volumes_from uha i zero m = ok m
  detect_volumes_from uha i (suc n) m =
      (if (m.storage.drives i).used then detect_file_system uha i m else ok m) >>= λ m'.
      detect_volumes_from uha (i + 1) n m'

  unfoldable pub detect_volumes : Uha S → Files S → Outcome (Files S)
  unfolding detect_volumes_from
  detect_volumes uha m = detect_volumes_from uha 0 max_drives m

  -- `DEV_TYPE_STORAGE` is 128.
  unfoldable pub k_stor_init : Files S → Outcome (Files S)
  unfolding detect_volumes
  k_stor_init m = k_dev_get_by_type 128 true m.storage.machine >>= elim [
    | none ↦ oops
    | some desc ↦ k_dev_get_uha_for_id desc.identifier true m.storage.machine >>= λ uha.
        called uha.drive_present >>= λ present.
        detect_drives desc.identifier present 0 desc.stor_ctrl_desc.drive_count m.storage >>= λ st.
        detect_volumes uha (record m { storage = st })
  ]
