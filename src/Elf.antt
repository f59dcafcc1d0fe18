-- ===== src/Elf.antt =====
-- src/lib/gunwelf/gunwelf.c and gunwelf.h: the check of a program file, and its section headers. A
-- file is the bytes at its address, with its size; a pointer to a header is its offset in the file.
pub mod Accepted
use gunw_os.Prelude.Int.{pos, eq_ℤ}
use gunw_os.Prelude.{
  ℕ, zero, suc, ◌+◌, ◌-◌, ◌*◌, ◌%◌, Array, first, Bool, true, false, not, ◌&&◌, ltb, leb, ◌==◌,
  if◌then◌else◌, Option, none, some, is_some, List, [], ◌∷◌, word,
}
use gunw_os.Text.{literal, strcmpl}
use gunw_os.Dev.Event.{word_at}
use gunw_os.Fat12.Detect.{popcount}

-- `ELF_MAGIC`
abbrev pub elf_magic : Array ℕ
elf_magic = literal (127 ∷ 69 ∷ 76 ∷ 70 ∷ [])

abbrev pub elf_version : ℕ
elf_version = 1

abbrev pub elf_header_size : ℕ
elf_header_size = 52

abbrev pub elf_program_entry_size : ℕ
elf_program_entry_size = 32

abbrev pub elf_section_entry_size : ℕ
elf_section_entry_size = 40

abbrev pub half_at : Array ℕ → ℕ → ℕ
half_at b i = b i + b (i + 1) * 256

-- `struct elfHeader32`, with the identifier in front, as it stands in the file.
pub record Header : Type 0 where
  pub magic : Array ℕ
  pub class : ℕ
  pub endianess : ℕ
  pub id_version : ℕ
  pub type : ℕ
  pub architecture : ℕ
  pub version : ℕ
  pub entry : ℕ
  pub program_header_table : ℕ
  pub section_header_table : ℕ
  pub elf_header_size : ℕ
  pub program_header_entry_size : ℕ
  pub program_header_entries : ℕ
  pub section_header_entry_size : ℕ
  pub section_header_entries : ℕ

abbrev pub header : Array ℕ → Header
header f = record {
  magic = f;
  class = f 4;
  endianess = f 5;
  id_version = f 6;
  type = half_at f 16;
  architecture = half_at f 18;
  version = word_at f 20;
  entry = word_at f 24;
  program_header_table = word_at f 28;
  section_header_table = word_at f 32;
  elf_header_size = half_at f 40;
  program_header_entry_size = half_at f 42;
  program_header_entries = half_at f 44;
  section_header_entry_size = half_at f 46;
  section_header_entries = half_at f 48;
}

-- The fields of `struct elfProgramHeaderEntry32` that are looked at, at an offset of the file.
pub record ProgramHeaderEntry : Type 0 where
  pub offset : ℕ
  pub virtual_addr : ℕ
  pub alignment : ℕ

abbrev pub program_header_entry : Array ℕ → ℕ → ProgramHeaderEntry
program_header_entry f i = record {
  offset = word_at f (i + 4);
  virtual_addr = word_at f (i + 8);
  alignment = word_at f (i + 28);
}

-- The fields of `struct elfSectionHeaderEntry32` that are looked at.
pub record SectionHeaderEntry : Type 0 where
  pub type : ℕ
  pub attributes : ℕ
  pub virtual_addr : ℕ
  pub offset : ℕ
  pub file_size_bytes : ℕ
  pub address_alignment : ℕ

abbrev pub section_header_entry : Array ℕ → ℕ → SectionHeaderEntry
section_header_entry f i = record {
  type = word_at f (i + 4);
  attributes = word_at f (i + 8);
  virtual_addr = word_at f (i + 12);
  offset = word_at f (i + 16);
  file_size_bytes = word_at f (i + 20);
  address_alignment = word_at f (i + 32);
}

-- `struct elfExpectation`
pub record Expectation : Type 0 where
  pub class : ℕ
  pub endianess : ℕ
  pub type : ℕ
  pub architecture : ℕ

unfoldable pub program_header_entry_offset : ℕ → ℕ
program_header_entry_offset index = elf_header_size + index * elf_program_entry_size

-- The section headers stand at the end of the file.
unfoldable pub section_header_entry_offset : ℕ → Header → ℕ → ℕ
section_header_entry_offset index h file_size =
    file_size - (h.section_header_entries - index) * elf_section_entry_size

unfoldable pub validate_identifier : Header → Bool
validate_identifier h =
    if not (eq_ℤ (strcmpl h.magic elf_magic 4) (pos 0)) then false else h.id_version == elf_version

unfoldable pub validate_expectation : Header → Expectation → Bool
validate_expectation h e =
    h.class == e.class
    && h.endianess == e.endianess
    && h.type == e.type
    && h.architecture == e.architecture

unfoldable pub validate_program_header_entry : ProgramHeaderEntry → Bool
unfolding popcount
validate_program_header_entry e =
    if ltb 1 e.alignment
    then popcount 32 e.alignment == 1 && e.offset % e.alignment == e.virtual_addr % e.alignment
    else true

unfoldable pub validate_section_header_entry : SectionHeaderEntry → Bool
unfolding popcount
validate_section_header_entry e =
    if ltb 1 e.address_alignment
    then popcount 32 e.address_alignment == 1
      && e.virtual_addr % e.address_alignment == 0
      && not (
          not (e.virtual_addr == 0)
          && ltb (word (e.virtual_addr + e.file_size_bytes)) e.virtual_addr)
    else true

-- The loops over the entries: every one of them passes.
abbrev pub all_pass : (ℕ → Bool) → ℕ → Bool
all_pass test n = not (ltb (first (λ i. not (test i)) 0 n) n)

unfoldable pub validate_entries : Array ℕ → ℕ → Bool
unfolding program_header_entry_offset section_header_entry_offset validate_program_header_entry
    validate_section_header_entry
validate_entries f file_size =
    let h = header f in
    if not (
      all_pass
        (λ i.
          validate_program_header_entry (program_header_entry f (program_header_entry_offset i)))
        h.program_header_entries)
    then false
    else all_pass
        (λ i.
          validate_section_header_entry
            (section_header_entry f (section_header_entry_offset i h file_size)))
        h.section_header_entries

unfoldable pub elf_validate : Option (Array ℕ) → ℕ → Option Expectation → Bool
unfolding validate_identifier validate_entries validate_expectation
elf_validate none file_size expectation = false
elf_validate (some f) file_size expectation =
    let h = header f in
    if not (validate_identifier h)
    then false
    else if not (h.id_version == h.version)
    then false
    else if h.program_header_table == 0
    then false
    else if h.section_header_table == 0
    then false
    else if not (h.class == 1)
    then false
    else if not (h.elf_header_size == elf_header_size)
    then false
    else if not (h.program_header_entry_size == elf_program_entry_size)
    then false
    else if not (h.section_header_entry_size == elf_section_entry_size)
    then false
    else if ltb file_size (
        elf_header_size
        + h.program_header_entries * elf_program_entry_size
        + h.section_header_entries * elf_section_entry_size)
    then false
    else if not (validate_entries f file_size)
    then false
    else elim expectation [ none ↦ true | some e ↦ validate_expectation h e ]

unfoldable pub elf_get_section_header_entry_count : Array ℕ → ℕ
elf_get_section_header_entry_count f = (header f).section_header_entries

-- The offset of a section header.
unfoldable pub elf_get_section_header_entry : Array ℕ → ℕ → ℕ → Option ℕ
unfolding section_header_entry_offset
elf_get_section_header_entry f index file_size =
    if leb (header f).section_header_entries index
    then none
    else some (section_header_entry_offset index (header f) file_size)

-- No entry is the address 0.
unfoldable pub elf_get_entry : Option (Array ℕ) → ℕ → ℕ
elf_get_entry none file_size = 0
elf_get_entry (some f) file_size = if ltb file_size elf_header_size then 0 else (header f).entry
