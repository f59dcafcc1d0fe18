-- ===== src/Tests/Files.antt =====
-- A file of three sectors on a drive, and numbers and names in paths.
use gunw_os.Prelude.Outcome.{ok, done, Ensures}
use gunw_os.Prelude.Int.{pos}
use gunw_os.Prelude.{
  ℕ, zero, suc, ◌+◌, ◌*◌, ◌<◌, ◌≤◌, ◌≡◌, ◌≢◌, ◌∙◌, refl, sym, subst, word, true, false, none, some,
  List, [], ◌∷◌, Array, length, ltb, leb, ◌==◌, if◌then◌else◌, arith,
}
use gunw_os.Text.{literal}
use gunw_os.Text.Find.{strfindl, str_not_found}
use gunw_os.Text.Numbers.{uint2str, str2intl, highest, digit_chars}
use gunw_os.Text.Numbers.RoundTrip.{str2intl-uint2str}
use gunw_os.Fat12.{Location, Range, StorGeometry}
use gunw_os.Dev.Descriptor.{Uha, ReadResult, gsec_none, uha_get_desc}
use gunw_os.Dev.{k_dev_get_uha_for_id, k_dev_get_by_id}
use gunw_os.Storage.{k_stor_drive_validate_id}
use gunw_os.Storage.Bytes.{read_bytes-disk}
use gunw_os.Storage.FileSystem.{FileSystemDescriptor, k_stor_file_sys_validate_id}
use gunw_os.Storage.Volumes.{
  Files, k_stor_volume_read_sector, k_stor_volume_read_bytes, k_stor_volume_validate_id,
}
use gunw_os.Storage.File.{Walk, load_chain, load_file, load_file_chain}
use gunw_os.Storage.File.Names.{IsInvalid, load_file_chain-no_dot}
use gunw_os.Storage.File.Within.{Keeps, load_file-Keeps}
use gunw_os.Storage.File.Content.{Reads, load_chain-content}
use gunw_os.Storage.File.Chain.{IsChain, content}
use gunw_os.Tests.Drives.{with_drive, disk, geometry, controller}

-- Units 5, 6 and 9 of one sector each; the number of the unit is its sector.
abbrev unit_number : ℕ → ℕ
unit_number zero = 5
unit_number (suc zero) = 6
unit_number (suc (suc zero)) = 9
unit_number (suc (suc (suc k))) = 4095

abbrev unit_at : ℕ → Location
unit_at n = record { sector = n; alloc_unit = n; size_bytes = 512 }

abbrev units : ℕ → Location
units k = unit_at (unit_number k)

abbrev walk : Walk
walk = record {
  next = λ l. unit_at (if l.alloc_unit == 5 then 6 else if l.alloc_unit == 6 then 9 else 4095);
  contiguous = λ l m. m.alloc_unit == l.alloc_unit + 1;
  valid = λ l. ltb l.alloc_unit 100;
  is_eof = λ l. leb 4088 l.alloc_unit;
  expected_bytes = 1536;
  sectors_per_alloc_unit = 1;
}

units-IsChain : IsChain walk units 3 512 512
units-IsChain = record {
  some_bytes = omega arith;
  some_units = omega arith;
  bound = omega arith;
  places = places;
  expected = refl;
  sectors = refl;
  sizes = λ k h. refl;
  steps = steps;
  runs = runs;
  ends = ends;
  valid = valid;
  marked = refl;
}
  where
    places : (k : ℕ) → k < 3 → (units k).sector * 512 < 4294967296
    places zero h = omega arith
    places (suc zero) h = omega arith
    places (suc (suc zero)) h = omega arith
    places (suc (suc (suc k))) h = absurd (omega arith)

    steps : (k : ℕ) → k < 3 → walk.next (units k) ≡ units (suc k)
    steps zero h = refl
    steps (suc zero) h = refl
    steps (suc (suc zero)) h = refl
    steps (suc (suc (suc k))) h = absurd (omega arith)

    runs :
        (k : ℕ)
        → suc k < 3
        → walk.contiguous (units k) (units (suc k)) ≡ true
        → ((units (suc k)).alloc_unit ≡ (units k).alloc_unit + 1)
          × ((units (suc k)).sector ≡ (units k).sector + 1)
    runs zero h e = (refl, refl)
    runs (suc zero) h e = absurd (cc)
    runs (suc (suc k)) h e = absurd (omega arith)

    ends : (k : ℕ) → suc k ≡ 3 → walk.contiguous (units k) (units (suc k)) ≡ false
    ends zero e = absurd (omega arith)
    ends (suc zero) e = absurd (omega arith)
    ends (suc (suc zero)) e = refl
    ends (suc (suc (suc k))) e = absurd (omega arith)

    valid : (k : ℕ) → k < 3 → walk.valid (units k) ≡ true
    valid zero h = refl
    valid (suc zero) h = refl
    valid (suc (suc zero)) h = refl
    valid (suc (suc (suc k))) h = absurd (omega arith)

abbrev drive_geometry : ℕ → ℕ → StorGeometry × ℕ
drive_geometry drive s = (geometry, s)

abbrev drive_read : ℕ → ℕ → ℕ → ℕ → ReadResult × ℕ
drive_read drive lba count s =
    (record { bytes_read = count * 512; buffer = λ i. lba * 512 + i; error = gsec_none }, s + 1)

abbrev drive : Uha ℕ
drive = record controller {
  stor_ctrl_desc = record { drive_count = 1; removable = false; removable_media = false };
}

abbrev plain : FileSystemDescriptor
plain = record {
  header_range = record { offset = 0; length = 512 };
  max_filename_length = 8;
  max_extension_length = 3;
  sectors_per_alloc_unit = some (λ h. 1);
  directory_range = some (λ h. record { offset = 512; length = 512 });
  fat_range = some (λ h. record { offset = 1024; length = 512 });
  fat_verify = some (λ h f. true);
  file_start_location = some (λ h i. units 0);
  next_location = some (λ h f. walk.next);
  is_contiguous = some (λ h. walk.contiguous);
  is_valid_for_read = some (λ h. walk.valid);
  is_eof = some walk.is_eof;
  file_info = some (λ h d n e. done (record { size_bytes = 1500; alloc_unit = 5 }));
  alloc_unit_aligned_bytes = some (λ h n. 1536);
  detect = some (λ h g. true);
}

-- The drive has been used so many times.
abbrev pub files : ℕ → Files ℕ
files x = record {
  storage = record with_drive {
    machine = record with_drive.machine {
      devices = λ i. record (with_drive.machine.devices i) {
        desc = record (with_drive.machine.devices i).desc { api = drive };
      };
      drivers = x;
    };
  };
  file_systems = λ _. record { used = true; desc = plain };
}

abbrev IsUsed : Files ℕ → Type 0
IsUsed m = (x : ℕ) × (m ≡ files x)

drive_found : (x : ℕ) → k_dev_get_uha_for_id 0 true (files x).storage.machine ≡ ok drive
unfolding k_dev_get_uha_for_id
drive_found x = refl

volume_valid : (x : ℕ) → k_stor_volume_validate_id 0 (files x) ≡ ok true
unfolding k_stor_volume_validate_id k_stor_drive_validate_id k_dev_get_by_id
    k_stor_file_sys_validate_id uha_get_desc
volume_valid x = refl

drive_reads : Reads 0 512 disk IsUsed
unfolding k_stor_volume_read_sector k_stor_volume_read_bytes
drive_reads lba count room m (x, e) place size fits =
    let range : Range = record { offset = word (lba * 512); length = word (512 * count) } in
    let enough : ltb room (word (512 * count)) ≡ false = ground arith in
    let (buffer, s, got, bytes) =
      read_bytes-disk 0 range (files x).storage drive drive_geometry drive_read geometry disk x
        (drive_found x) refl refl refl
        (λ lba count. record { succeeded = refl; size = refl; content = λ i h. refl }) (omega arith)
        (omega arith) in
    (
      buffer,
      files s,
      subst (λ m. k_stor_volume_read_sector 0 lba count room m ≡ ok (done buffer, files s)) (sym e)
          (rw (drive_found x) (rw (volume_valid x) (rw got (rw enough refl)))),
      (s, refl),
      λ i h. bytes i (omega arith) ∙ omega arith,
    )

load_chain-content_example :
    (bytes : Array ℕ) × (m' : Files ℕ) × (load_chain 3 3 0 walk (units 0) 0 (λ i. 0) (files 0)
      ≡ ok (none, bytes, m'))
    × ((i : ℕ) → i < 1536 → bytes i ≡ content disk units 512 512 i)
    × ((i : ℕ) → 1536 ≤ i → bytes i ≡ 0)
load_chain-content_example =
    load_chain-content disk 0 units-IsChain drive_reads 3 3 (λ i. 0) (files 0) (omega arith)
      (omega arith) (0, refl)

load_file-Keeps_example :
    Ensures (Keeps 1536 (λ i. 7)) (
      load_file 3 0
        (λ i. 0)
        (record { size_bytes = 1500; alloc_unit = 5 })
        plain
        (λ i. 7)
        (files 0))
load_file-Keeps_example =
    load_file-Keeps 3 0 (λ i. 0) (record { size_bytes = 1500; alloc_unit = 5 }) plain (λ h n. 1536)
      (λ i. 7) (files 0) refl (omega arith)

str2intl-uint2str_example :
    (cs : List ℕ) × (uint2str 2026 10 ≡ ok cs)
    × (str2intl (literal cs) (length cs) ≡ ok (some 2026))
str2intl-uint2str_example = str2intl-uint2str 2026 (omega arith)

writes_digits : uint2str 2026 10 ≡ ok (b'2' ∷ b'0' ∷ b'2' ∷ b'6' ∷ [])
unfolding uint2str highest digit_chars
writes_digits = refl

-- The search for "aab" in "aaab" misses it.
misses :
    strfindl
      (literal (b'a' ∷ b'a' ∷ b'a' ∷ b'b' ∷ []))
      (pos 4)
      (literal (b'a' ∷ b'a' ∷ b'b' ∷ []))
      (pos 3)
    ≡ ok str_not_found
unfolding strfindl
misses = refl

-- A path to a file without an extension.
abbrev without_dot : Array ℕ
without_dot = literal (b'0' ∷ b':' ∷ b'a' ∷ b'b' ∷ [])

has_no_dot : (i : ℕ) → i < 4 → without_dot i ≢ b'.'
has_no_dot zero h = λ e. absurd (omega arith)
has_no_dot (suc zero) h = λ e. absurd (omega arith)
has_no_dot (suc (suc zero)) h = λ e. absurd (omega arith)
has_no_dot (suc (suc (suc i))) h = ground arith

load_file_chain-no_dot_example :
    Ensures (IsInvalid none (files 0)) (load_file_chain 9 without_dot 4 none (files 0))
load_file_chain-no_dot_example =
    load_file_chain-no_dot 9 without_dot 4 none (files 0) (omega arith) has_no_dot
      (λ i. omega arith)
