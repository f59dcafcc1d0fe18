-- ===== src/Elf/Accepted.antt =====
-- src/lib/gunwelf/gunwelf.c: what an accepted program file is.
use gunw_os.Prelude.Int.{pos, eq_ℤ_iff}
use gunw_os.Prelude.{
  ℕ, zero, suc, ◌+◌, ◌*◌, ◌/◌, ◌%◌, ◌^◌, ◌≤◌, ◌<◌, ◌≡◌, ◌≢◌, ◌∙◌, sym, subst, Array, first_miss,
  Bool, true, not, ltb, ◌==◌, Bool-cases, Option, some, inl, inr, ◌⊎◌, arith,
}
use gunw_os.Text.{strcmpl, strcmpl_lem, strcmpl-swap}
use gunw_os.Dev.Event.{word_at}
use gunw_os.Fat12.Detect.{popcount}
use gunw_os.Elf.{
  header, elf_magic, ProgramHeaderEntry, program_header_entry, SectionHeaderEntry,
  section_header_entry, Expectation, program_header_entry_offset, section_header_entry_offset,
  validate_identifier, validate_expectation, validate_program_header_entry,
  validate_section_header_entry, all_pass, validate_entries, elf_validate,
}

popcount-zero : (w n : ℕ) → popcount w n ≡ 0 → n < 2 ^ w → n ≡ 0
unfolding popcount
popcount-zero zero n e h = omega arith
popcount-zero (suc w) n e h = omega (arith, popcount-zero w (n / 2) (omega arith) (omega arith))

-- One bit is set: a power of two.
popcount-power : (w n : ℕ) → popcount w n ≡ 1 → n < 2 ^ w → (k : ℕ) × (n ≡ 2 ^ k)
unfolding popcount
popcount-power zero n e h = absurd (omega arith)
popcount-power (suc w) n e h = elim (Bool-cases (n % 2 == 0)) [
  | inl even ↦
      let (k, q) = popcount-power w (n / 2) (ground arith) (omega arith) in (suc k, ground arith)
  | inr odd ↦ (0, ground (arith, popcount-zero w (n / 2) (ground arith) (omega arith)))
]

magic_set : (j : ℕ) → j < 4 → elf_magic j ≢ 0
magic_set zero lt = λ q. omega arith
magic_set (suc zero) lt = λ q. omega arith
magic_set (suc (suc zero)) lt = λ q. omega arith
magic_set (suc (suc (suc zero))) lt = λ q. omega arith
magic_set (suc (suc (suc (suc j)))) lt = absurd (omega arith)

-- A file of bytes.
abbrev pub AreBytes : Array ℕ → Type 0
AreBytes f = (i : ℕ) → f i < 256

word_at-lt : (f : Array ℕ) (i : ℕ) → AreBytes f → word_at f i < 2 ^ 32
word_at-lt f i b = omega (arith, b i, b (i + 1), b (i + 2), b (i + 3))

abbrev pub AlignsProgram : ProgramHeaderEntry → Type 0
AlignsProgram e =
    (e.alignment ≤ 1)
    ⊎ (((k : ℕ) × (e.alignment ≡ 2 ^ k)) × (e.offset % e.alignment ≡ e.virtual_addr % e.alignment))

abbrev pub AlignsSection : SectionHeaderEntry → Type 0
AlignsSection e =
    (e.address_alignment ≤ 1)
    ⊎ (((k : ℕ) × (e.address_alignment ≡ 2 ^ k)) × (e.virtual_addr % e.address_alignment ≡ 0))

program-aligns :
    (e : ProgramHeaderEntry)
    → e.alignment < 2 ^ 32
    → validate_program_header_entry e ≡ true
    → AlignsProgram e
unfolding validate_program_header_entry
program-aligns e lt h = elim (Bool-cases (ltb 1 e.alignment)) [
  | inr low ↦ inl (ground arith)
  | inl high ↦ inr (popcount-power 32 e.alignment (ground arith) lt, ground arith)
]

section-aligns :
    (e : SectionHeaderEntry)
    → e.address_alignment < 2 ^ 32
    → validate_section_header_entry e ≡ true
    → AlignsSection e
unfolding validate_section_header_entry
section-aligns e lt h = elim (Bool-cases (ltb 1 e.address_alignment)) [
  | inr low ↦ inl (ground arith)
  | inl high ↦ inr (popcount-power 32 e.address_alignment (ground arith) lt, ground arith)
]

all_pass-at : (test : ℕ → Bool) (n i : ℕ) → all_pass test n ≡ true → i < n → test i ≡ true
all_pass-at test n i h lt =
    let miss = first_miss (λ j. not (test j)) 0 n i (omega arith) in
    ground (arith, miss (ground arith))

-- A program file of the 32-bit class whose headers lie within it.
pub record IsElf (f : Array ℕ) (file_size : ℕ) : Type 0 where
  pub magic : (j : ℕ) → j < 4 → f j ≡ elf_magic j
  pub class : (header f).class ≡ 1
  pub versions : ((header f).id_version ≡ 1) × ((header f).version ≡ 1)
  pub room :
      52 + (header f).program_header_entries * 32 + (header f).section_header_entries * 40
      ≤ file_size
  pub programs :
      (i : ℕ)
      → i < (header f).program_header_entries
      → (program_header_entry_offset i + 32 ≤ file_size)
        × AlignsProgram (program_header_entry f (program_header_entry_offset i))
  pub sections :
      (i : ℕ)
      → i < (header f).section_header_entries
      → (52 + (header f).program_header_entries * 32
          ≤ section_header_entry_offset i (header f) file_size)
        × (section_header_entry_offset i (header f) file_size + 40 ≤ file_size)
        × AlignsSection
            (section_header_entry f (section_header_entry_offset i (header f) file_size))

module _ (f : Array ℕ) (file_size : ℕ) where
  -- The tests of elfValidate, one by one.
  abbrev Passed : Type 0
  Passed =
      (validate_identifier (header f) ≡ true)
      × ((header f).id_version ≡ (header f).version)
      × ((header f).class ≡ 1)
      × (52 + (header f).program_header_entries * 32 + (header f).section_header_entries * 40
          ≤ file_size)
      × (validate_entries f file_size ≡ true)

  passed :
      (expectation : Option Expectation)
      → elf_validate (some f) file_size expectation ≡ true
      → Passed
  unfolding elf_validate
  passed expectation h = ground arith

  expected :
      (e : Expectation)
      → elf_validate (some f) file_size (some e) ≡ true
      → validate_expectation (header f) e ≡ true
  unfolding elf_validate
  expected e h = ground arith

  entries :
      validate_entries f file_size ≡ true
      → (all_pass
            (λ i.
              validate_program_header_entry
                (program_header_entry f (program_header_entry_offset i)))
            (header f).program_header_entries
          ≡ true)
        × (all_pass
              (λ i.
                validate_section_header_entry
                  (section_header_entry f (section_header_entry_offset i (header f) file_size)))
              (header f).section_header_entries
            ≡ true)
  unfolding validate_entries
  entries h = ground arith

  -- A file of bytes that elfValidate accepts is a 32-bit program file: its magic and versions are
  -- right, its program headers and section headers, as the code finds them, lie within it without
  -- touching its header or each other, and each is unaligned or aligned to a power of two. If
  -- something is expected of it, its class, byte order, type and architecture are the expected
  -- ones.
  pub elf_validate-IsElf :
      (expectation : Option Expectation)
      → AreBytes f
      → elf_validate (some f) file_size expectation ≡ true
      → IsElf f file_size
        × ((e : Expectation)
            → expectation ≡ some e
            → ((header f).class ≡ e.class)
              × ((header f).endianess ≡ e.endianess)
              × ((header f).type ≡ e.type)
              × ((header f).architecture ≡ e.architecture))
  elf_validate-IsElf expectation b h =
      let (id, same, class, room, valid) = passed expectation h in
      let (programs, sections) = entries valid in
      (
        record {
          magic = magic_of id;
          class = class;
          versions = (version_of id, sym same ∙ version_of id);
          room = room;
          programs = λ i lt. (
            unfold program_header_entry_offset in omega arith,
            program-aligns _ (word_at-lt f _ b) (all_pass-at _ _ i programs lt),
          );
          sections = λ i lt. (
            unfold section_header_entry_offset in omega arith,
            unfold section_header_entry_offset in omega arith,
            section-aligns _ (word_at-lt f _ b) (all_pass-at _ _ i sections lt),
          );
        },
        λ e q. meets e (expected e (subst (λ x. elf_validate (some f) file_size x ≡ true) q h)),
      )
    where
      version_of : validate_identifier (header f) ≡ true → (header f).id_version ≡ 1
      version_of h = unfold validate_identifier in ground arith

      magic_of : validate_identifier (header f) ≡ true → (j : ℕ) → j < 4 → f j ≡ elf_magic j
      magic_of h j lt =
          let same : strcmpl f elf_magic 4 ≡ pos 0 =
            (eq_ℤ_iff (strcmpl f elf_magic 4) (pos 0)).0
              (unfold validate_identifier in ground arith) in
          sym ((strcmpl_lem elf_magic f 4 magic_set).0 (strcmpl-swap f elf_magic 4 same) j lt)

      meets :
          (e : Expectation)
          → validate_expectation (header f) e ≡ true
          → ((header f).class ≡ e.class)
            × ((header f).endianess ≡ e.endianess)
            × ((header f).type ≡ e.type)
            × ((header f).architecture ≡ e.architecture)
      meets e h = unfold validate_expectation in ground arith
