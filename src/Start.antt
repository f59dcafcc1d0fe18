-- ===== src/Start.antt =====
-- src/system/kernel/syscall/usr/start.c: the start of a program. The calls of the storage are taken as an
-- interface, which Services.antt fills; the value written to the caller's error code is the result. Messages to the log are left out.
pub mod Failure
pub mod Services
use gunw_os.Prelude.Outcome.{Outcome, ok, oops, ◌>>=◌, Answer, done, fails}
use gunw_os.Prelude.Int.{ℤ, pos}
use gunw_os.Prelude.{
  ℕ, zero, suc, ◌+◌, ◌-◌, ◌*◌, ◌/◌, ◌%◌, Array, Bool, true, false, not, ltb, leb, ◌==◌,
  if◌then◌else◌, Option, none, some, word,
}
use gunw_os.Kernel.{Kernel, ProcError, pe_none, kernel_proc_id, k_proc_id_is_user}
use gunw_os.Proc.{reserved_kernel_mem, k_proc_spawn, k_proc_hatch, k_proc_cleanup}
use gunw_os.Mem.{k_mem_gimme}
use gunw_os.Mem.Contents.{Memory, k_mem_zero, k_mem_copy}
use gunw_os.Paging.{Paging, MemError, me_none, me_already_assigned, me_part_already_assigned}
use gunw_os.Mem.Zone.{k_mem_buffer_zone_valid_for_proc}
use gunw_os.Paging.Release.{k_paging_proc_cleanup}
use gunw_os.Fat12.{FileError, not_found}
use gunw_os.Elf.{
  SectionHeaderEntry, section_header_entry, Expectation, elf_validate,
  elf_get_section_header_entry_count, elf_get_section_header_entry, elf_get_entry,
}

-- `enum gnwCtrlError`
pub data CtrlError : Type 0 where
  gce_none gce_invalid_argument gce_header_invalid gce_not_found gce_operation_failed gce_unknown :
      CtrlError

-- `struct gnwCtrlStartDescriptor`
pub record StartDescriptor : Type 0 where
  pub path_ptr : ℕ
  pub path_len : ℕ
  pub error_ptr : ℕ

-- `struct k_proc_descriptor`
pub record ProcDescriptor : Type 0 where
  pub entry_linear_addr : ℕ
  pub heap_linear_addr : ℕ

-- The routines of the storage that are called, and the memory. They have no access to the process
-- table and the page tables.
pub record Calls (W : Type 0) : Type 0 where
  pub file_get_info : ℕ → ℕ → W → Outcome (Option FileError × ℕ × W)
  pub file_load : ℕ → ℕ → ℕ → W → Outcome (Option FileError × W)
  pub memory : Memory W

-- The process table, the page tables, and the drives with the contents of the memory.
pub record World (W : Type 0) : Type 0 where
  pub kernel : Kernel
  pub paging : Paging
  pub rest : W

-- `filePtr`: the place that every program is loaded to.
abbrev pub file_ptr : ℕ
file_ptr = 4293918721

abbrev pub expected_program : Expectation
expected_program = record { class = 1; endianess = 1; type = 2; architecture = 3 }

-- `stackSize`, `KiB(256)`
abbrev pub stack_size : ℕ
stack_size = 262144

-- `MAX`
abbrev pub max : ℕ → ℕ → ℕ
max a b = if ltb b a then a else b

-- An assignment that leaves the pages with the process.
abbrev pub is_assigned : MemError → Bool
is_assigned me_none = true
is_assigned me_already_assigned = true
is_assigned me_part_already_assigned = true
is_assigned e = false

abbrev pub is_done : MemError → Bool
is_done me_none = true
is_done e = false

abbrev pub is_fine : ProcError → Bool
is_fine pe_none = true
is_fine e = false

-- `attributes & ESECATTR_ALLOC`, and the type of a section with data in the file.
abbrev pub is_alloc : SectionHeaderEntry → Bool
is_alloc s = not (s.attributes / 2 % 2 == 0)

abbrev pub is_progbits : SectionHeaderEntry → Bool
is_progbits s = s.type == 1

module _ {W : Type 0} (calls : Calls W) where
  -- The bytes at an address of the kernel.
  abbrev pub bytes_at : ℕ → W → Array ℕ
  bytes_at ptr w i = calls.memory.get kernel_proc_id (word (ptr + i)) w

  abbrev pub loaded : ℕ → Option FileError × W → CtrlError × ℕ × W
  loaded size (none, w) = (gce_none, size, w)
  loaded size (some e, w) = (gce_unknown, 0, w)

  abbrev pub with_info : ℕ → ℕ → ℕ → Option FileError × ℕ × W → Outcome (CtrlError × ℕ × W)
  with_info path len ptr (some not_found, size, w) = ok (gce_not_found, 0, w)
  with_info path len ptr (some e, size, w) = ok (gce_unknown, 0, w)
  with_info path len ptr (none, size, w) =
      if size == 0
      then ok (gce_operation_failed, 0, w)
      else (calls.file_load path len ptr w >>= λ r. ok (loaded size r))

  unfoldable pub load_file : ℕ → ℕ → ℕ → W → Outcome (CtrlError × ℕ × W)
  load_file path len ptr w =
      if path == 0
      then oops
      else if len == 0
      then oops
      else if ptr == 0
      then oops
      else (calls.file_get_info path len w >>= with_info path len ptr)

  -- One section: the end of the heap, and the memory with its data.
  unfoldable pub load_section :
      ℕ → SectionHeaderEntry → ℤ → ℕ × Paging × W → Outcome (ℕ × Paging × W)
  load_section ptr s p (heap, g, w) =
      let heap' = max heap (word (s.virtual_addr + s.file_size_bytes)) in
      if not (is_alloc s)
      then ok (heap, g, w)
      else (k_mem_gimme p s.virtual_addr s.file_size_bytes g >>= λ (e, g').
          let (e', w') = k_mem_zero calls.memory p s.virtual_addr s.file_size_bytes w in
          if not (is_assigned e)
          then oops
          else if not (is_done e')
          then oops
          else if not (is_progbits s)
          then ok (heap', g', w')
          else (k_mem_copy calls.memory kernel_proc_id (word (ptr + s.offset)) p s.virtual_addr
                s.file_size_bytes w'
              >>= λ (e'', w''). if not (is_done e'') then oops else ok (heap', g', w'')))

  abbrev pub load_at : ℕ → Option ℕ → ℤ → ℕ × Paging × W → Outcome (ℕ × Paging × W)
  load_at ptr none p s = oops
  load_at ptr (some offset) p (heap, g, w) =
      load_section ptr (section_header_entry (bytes_at ptr w) offset) p (heap, g, w)

  unfoldable pub load_sections : ℕ → ℕ → ℤ → ℕ → ℕ → ℕ × Paging × W → Outcome (ℕ × Paging × W)
  unfolding load_section
  load_sections ptr size p index zero s = ok s
  load_sections ptr size p index (suc n) (heap, g, w) =
      load_at ptr (elf_get_section_header_entry (bytes_at ptr w) index size) p (heap, g, w)
      >>= load_sections ptr size p (index + 1) n

  unfoldable pub load_elf : ℕ → ℕ → ℤ → Paging × W → Outcome (ProcDescriptor × Paging × W)
  unfolding load_sections
  load_elf ptr size p (g, w) =
      if ptr == 0
      then oops
      else if size == 0
      then oops
      else if not (k_proc_id_is_user p)
      then oops
      else (load_sections ptr size p 0 (elf_get_section_header_entry_count (bytes_at ptr w))
            (0, g, w)
          >>= λ (heap, g', w'). ok (
            record {
              entry_linear_addr = elf_get_entry (some (bytes_at ptr w')) size;
              heap_linear_addr = heap;
            },
            g',
            w',
          ))

  -- `k_proc_cleanup`, with the release of the pages that `k_mem_procCleanup` asks for.
  unfoldable pub give_up : ℤ → World W → Outcome (CtrlError × World W)
  give_up p m = k_proc_cleanup p m.kernel >>= λ k. k_paging_proc_cleanup p m.paging >>= λ g.
      ok (gce_operation_failed, record m { kernel = k; paging = g })

  -- `k_proc_hatch` halts or answers PE_NONE.
  abbrev pub hatch : ProcDescriptor → ℤ → Kernel → Outcome (ProcError × Kernel)
  hatch d p k = k_proc_hatch d.entry_linear_addr d.heap_linear_addr p k >>= λ k'. ok (pe_none, k')

  -- The stack, and the process comes to life.
  unfoldable pub hatch_loaded : ℤ → ProcDescriptor → World W → Outcome (CtrlError × World W)
  unfolding give_up
  hatch_loaded p desc m =
      k_mem_gimme p (4294967296 - reserved_kernel_mem - stack_size) stack_size m.paging
      >>= λ (e, g).
          let m' = record m { paging = g } in
          if not (is_done e)
          then give_up p m'
          else (hatch desc p m.kernel >>= λ (e', k).
              let m'' = record m' { kernel = k } in
              if not (is_fine e') then give_up p m'' else ok (gce_none, m''))

  unfoldable pub start_valid : ℕ → World W → Outcome (CtrlError × World W)
  unfolding load_elf hatch_loaded
  start_valid size m = k_proc_spawn true m.kernel >>= elim [
    | fails e ↦ ok (gce_operation_failed, m)
    | done (p, k) ↦ load_elf file_ptr size p (m.paging, m.rest) >>= λ (desc, g, w).
        hatch_loaded p desc (record { kernel = k; paging = g; rest = w })
  ]

  abbrev pub start_loaded : World W → CtrlError × ℕ × W → Outcome (CtrlError × World W)
  start_loaded m (gce_none, size, w) =
      if not (elf_validate (some (bytes_at file_ptr w)) size (some expected_program))
      then ok (gce_header_invalid, record m { rest = w })
      else start_valid size (record m { rest = w })
  start_loaded m (e, size, w) = ok (e, record m { rest = w })

  unfoldable pub k_scr_usr_start : ℤ → ℕ → StartDescriptor → World W → Outcome (CtrlError × World W)
  unfolding load_file start_valid
  k_scr_usr_start p ptr d m =
      if ptr == 0
      then oops
      else (k_mem_buffer_zone_valid_for_proc p ptr 12 >>= λ valid.
          if not valid
          then oops
          else if d.error_ptr == 0
          then oops
          else (k_mem_buffer_zone_valid_for_proc p d.error_ptr 4 >>= λ valid'.
              if not valid'
              then oops
              else if d.path_ptr == 0
              then oops
              else if d.path_len == 0
              then oops
              else (k_mem_buffer_zone_valid_for_proc p d.path_ptr d.path_len >>= λ valid''.
                  if not valid''
                  then oops
                  else (load_file d.path_ptr d.path_len file_ptr m.rest >>= start_loaded m))))
