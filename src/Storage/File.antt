-- ===== src/Storage/File.antt =====
-- src/system/kernel/storage/file.c: a file is looked up by its path and loaded along its chain. The
-- inner and the outer loop of `loadFile` have the same fuel.
pub mod Within
pub mod Chain
pub mod Sizes
pub mod Content
pub mod Names
pub mod Clusters
pub mod OnFat12
use gunw_os.Prelude.Outcome.{Outcome, ok, oops, hang, fault, ◌>>=◌, Answer, done, fails}
use gunw_os.Prelude.Int.{ℤ, pos, negsuc, leb_ℤ, eq_ℤ, index}
use gunw_os.Prelude.{
  ℕ, zero, suc, ◌+◌, ◌-◌, ◌*◌, ◌/◌, Bool, true, false, not, ◌&&◌, ◌||◌, Array, List, [], ◌∷◌, leb,
  ltb, ◌==◌, if◌then◌else◌, Option, none, some, is_some, word, sub_word,
}
use gunw_os.Text.{literal}
use gunw_os.Text.Find.{strfindl, str_not_found}
use gunw_os.Text.Numbers.{str2intl}
use gunw_os.Fat12.{Range, FileInfo, Location, FileError, invalid_path, not_found, unknown}
use gunw_os.Storage.{StorError}
use gunw_os.Storage.FileSystem.{FileSystemDescriptor}
use gunw_os.Storage.Volumes.{
  Files, called, k_stor_volume_validate_id, k_stor_volume_read_bytes, k_stor_volume_read_header,
  k_stor_volume_read_sector,
}

-- A `size_t` as an `int_32`, and back.
abbrev pub int_32 : ℕ → ℤ
int_32 n = if ltb n 2147483648 then pos n else negsuc (4294967295 - n)

abbrev pub size_t : ℤ → ℕ
size_t (pos n) = n
size_t (negsuc n) = 4294967295 - n

-- `memcopy` to a buffer, from an offset on.
abbrev pub written : Array ℕ → ℕ → ℕ → Array ℕ → Array ℕ
written src offset count dst i =
    if leb offset i && ltb i (offset + count) then src (i - offset) else dst i

-- The inner loop: the last location of a contiguous run.
unfoldable pub last_contiguous :
    ℕ → (Location → Location) → (Location → Location → Bool) → Location → Outcome Location
last_contiguous zero next contiguous l = hang
last_contiguous (suc f) next contiguous l = elim (contiguous l (next l)) [
  | true ↦ last_contiguous f next contiguous (next l)
  | false ↦ ok l
]

-- The routines of the file system on the header and the table of a file, and the sizes.
pub record Walk : Type 0 where
  pub next : Location → Location
  pub contiguous : Location → Location → Bool
  pub valid : Location → Bool
  pub is_eof : Location → Bool
  pub expected_bytes : ℕ
  pub sectors_per_alloc_unit : ℕ

-- An answer of a file routine: an error or none, the buffer, and the storage.
abbrev pub Loaded : Type 0 → Type 0
Loaded S = Option FileError × Array ℕ × Files S

module _ {S : Type 0} where
  -- A read within a load: an error ends the load.
  abbrev pub with_bytes :
      Answer StorError (Array ℕ) × Files S
      → Array ℕ
      → (Array ℕ → Files S → Outcome (Loaded S))
      → Outcome (Loaded S)
  with_bytes (fails e, m) dst f = ok (some unknown, dst, m)
  with_bytes (done bytes, m) dst f = f bytes m

  -- The end of `loadFile`.
  abbrev pub end_of_load : Walk → Location → ℕ → Array ℕ → Files S → Loaded S
  end_of_load w l total dst m =
      if not (w.is_eof l)
      then (some unknown, dst, m)
      else if not (w.expected_bytes == total)
      then (some unknown, dst, m)
      else (none, dst, m)

  -- The outer loop, from a location and a number of bytes on.
  unfoldable pub load_chain :
      ℕ → ℕ → ℕ → Walk → Location → ℕ → Array ℕ → Files S → Outcome (Loaded S)
  unfolding last_contiguous
  load_chain zero run_fuel volume w l total dst m = hang
  load_chain (suc f) run_fuel volume w l total dst m =
      last_contiguous run_fuel w.next w.contiguous l >>= λ last.
      let units = word (last.alloc_unit - l.alloc_unit + 1) in
      let bytes = word (units * l.size_bytes) in
      if ltb last.alloc_unit l.alloc_unit
      then ok (some unknown, dst, m)
      else if l.size_bytes == 0
      then fault
      else if ltb (sub_word w.expected_bytes total / l.size_bytes) units
      then ok (some unknown, dst, m)
      else (k_stor_volume_read_sector volume l.sector (word (units * w.sectors_per_alloc_unit))
            bytes m
          >>= λ answer. with_bytes answer dst λ buffer m'.
            let dst' = written buffer total bytes dst in
            let total' = word (total + bytes) in
            let l' = w.next last in
            let rest = load_chain f run_fuel volume w l' total' dst' m' in
            if w.valid l' && ltb total' w.expected_bytes
            then rest
            else ok (end_of_load w l' total' dst' m'))

  unfoldable pub load_file :
      ℕ → ℕ → Array ℕ → FileInfo → FileSystemDescriptor → Array ℕ → Files S → Outcome (Loaded S)
  load_file fuel volume header info desc dst m = called desc.fat_range >>= λ fat_range.
      if (fat_range header).length == 0
      then ok (some unknown, dst, m)
      else (k_stor_volume_read_bytes volume (fat_range header) m >>= λ answer.
          with_bytes answer dst λ fat m'. called desc.fat_verify >>= λ fat_verify.
          if not (fat_verify header fat)
          then ok (some unknown, dst, m')
          else (called desc.file_start_location >>= λ start.
              called desc.alloc_unit_aligned_bytes >>= λ aligned.
              called desc.sectors_per_alloc_unit >>= λ sectors.
              called desc.next_location >>= λ next. called desc.is_contiguous >>= λ contiguous.
              called desc.is_valid_for_read >>= λ valid. called desc.is_eof >>= λ is_eof.
              load_chain fuel fuel volume
                (record {
                  next = next header fat;
                  contiguous = contiguous header;
                  valid = valid header;
                  is_eof = is_eof;
                  expected_bytes = aligned header info.size_bytes;
                  sectors_per_alloc_unit = sectors header;
                })
                (start header info) 0 dst m'))

  -- The end of `loadFileChain`, on a file name and an extension of the volume: what is found of the
  -- file, and the load if there is a buffer.
  unfoldable pub find_and_load :
      ℕ
      → ℕ
      → FileSystemDescriptor
      → Array ℕ
      → Array ℕ
      → Option (Array ℕ)
      → Files S
      → Outcome ((Answer FileError FileInfo × Option (Array ℕ)) × Files S)
  unfolding load_file
  find_and_load fuel volume desc name extension dst m =
      k_stor_volume_read_header volume m >>= λ (answer, m'). elim answer [
        | fails e ↦ ok ((fails unknown, dst), m')
        | done header ↦ called desc.directory_range >>= λ directory_range.
            k_stor_volume_read_bytes volume (directory_range header) m' >>= λ (answer', m'').
            elim answer' [
              | fails e ↦ ok ((fails unknown, dst), m'')
              | done directory ↦ called desc.file_info >>= λ file_info.
                  elim (file_info header directory name extension) [
                    | fails not_found ↦ ok ((fails not_found, dst), m'')
                    | fails _ ↦ ok ((fails unknown, dst), m'')
                    | done info ↦ elim dst [
                      | none ↦ ok ((done info, none), m'')
                      | some buffer ↦
                          load_file fuel volume header info desc buffer m'' >>= λ (e, buffer', m₃).
                          ok ((elim e [ some e ↦ fails e | none ↦ done info ], some buffer'), m₃)
                    ]
                  ]
            ]
      ]

  -- The part of `loadFileChain` on a name. The name ends at the first dot; a name without one has the
  -- offset -1, which as a size is above every length.
  unfoldable pub load_named :
      ℕ
      → ℕ
      → Array ℕ
      → ℕ
      → Option (Array ℕ)
      → Files S
      → Outcome ((Answer FileError FileInfo × Option (Array ℕ)) × Files S)
  unfolding find_and_load
  load_named fuel volume name name_len dst m =
      strfindl name (int_32 name_len) (literal (b'.' ∷ [])) (pos 1) >>= λ dot.
      let desc = (m.file_systems (m.storage.volumes volume).file_sys_id).desc in
      let extension_len =
        if eq_ℤ dot str_not_found then 0 else sub_word (sub_word name_len (size_t dot)) 1 in
      if eq_ℤ dot (pos 0) || not (leb_ℤ str_not_found dot)
      then ok ((fails invalid_path, dst), m)
      else if ltb desc.max_filename_length (size_t dot)
      then ok ((fails invalid_path, dst), m)
      else if ltb desc.max_extension_length extension_len
      then ok ((fails invalid_path, dst), m)
      else find_and_load fuel volume desc (written name 0 (size_t dot) (λ i. 0))
          (written (λ i. name (size_t dot + 1 + i)) 0 extension_len (λ i. 0)) dst m

  -- The part of `loadFileChain` behind the number of the volume, which takes so many characters.
  unfoldable pub load_of_volume :
      ℕ
      → Array ℕ
      → ℕ
      → ℕ
      → Option ℕ
      → Option (Array ℕ)
      → Files S
      → Outcome ((Answer FileError FileInfo × Option (Array ℕ)) × Files S)
  unfolding load_named
  load_of_volume fuel path path_len id_len none dst m = ok ((fails invalid_path, dst), m)
  load_of_volume fuel path path_len id_len (some volume) dst m =
      if leb path_len (word (id_len + 1))
      then ok ((fails invalid_path, dst), m)
      else (k_stor_volume_validate_id volume m >>= λ valid.
          if not valid
          then ok ((fails invalid_path, dst), m)
          else load_named fuel volume (λ i. path (id_len + 1 + i)) (path_len - id_len - 1) dst m)

  unfoldable pub load_file_chain :
      ℕ
      → Array ℕ
      → ℕ
      → Option (Array ℕ)
      → Files S
      → Outcome ((Answer FileError FileInfo × Option (Array ℕ)) × Files S)
  unfolding load_of_volume
  load_file_chain fuel path path_len dst m =
      strfindl path (int_32 path_len) (literal (b':' ∷ [])) (pos 1) >>= λ id_len.
      if leb_ℤ id_len (pos 0)
      then ok ((fails invalid_path, dst), m)
      else (str2intl path (size_t id_len) >>= λ volume.
          load_of_volume fuel path path_len (size_t id_len) volume dst m)

  unfoldable pub k_stor_file_get_info :
      ℕ → Option (Array ℕ) → ℕ → Bool → Files S → Outcome (Answer FileError FileInfo × Files S)
  unfolding load_file_chain
  k_stor_file_get_info fuel none path_len info m = oops
  k_stor_file_get_info fuel (some path) path_len info m =
      if not info
      then oops
      else (load_file_chain fuel path path_len none m >>= λ ((answer, _), m'). ok (answer, m'))

  unfoldable pub k_stor_file_load :
      ℕ
      → Option (Array ℕ)
      → ℕ
      → Option (Array ℕ)
      → Files S
      → Outcome ((Answer FileError FileInfo × Option (Array ℕ)) × Files S)
  unfolding load_file_chain
  k_stor_file_load fuel none path_len dst m = oops
  k_stor_file_load fuel (some path) path_len none m = oops
  k_stor_file_load fuel (some path) path_len (some dst) m =
      load_file_chain fuel path path_len (some dst) m
