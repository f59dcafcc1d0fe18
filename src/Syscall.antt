-- ===== src/Syscall.antt =====
-- src/system/kernel/hal/syscall and src/system/kernel/syscall/usr: the system calls on devices and on
-- memory, from the stack of the caller to the routines of the kernel. A `Caller` is the stack pointer
-- and the words of the memory that the process sees; what a call writes there is the value of its function.
pub mod Buffer
pub mod Messages
pub mod Pending
use gunw_os.Prelude.Outcome.{Outcome, ok, oops, ◌>>=◌}
use gunw_os.Prelude.Int.{ℤ}
use gunw_os.Prelude.{
  ℕ, ◌+◌, ◌*◌, ◌/◌, ◌%◌, Array, Bool, true, false, not, ◌==◌, if◌then◌else◌, Option, none, some,
  word,
}
use gunw_os.Mem.{k_mem_gimme, k_mem_thanks_page}
use gunw_os.Mem.Zone.{k_mem_buffer_zone_valid_for_proc}
use gunw_os.Paging.{
  Paging, MemError, me_none, me_already_assigned, me_part_already_assigned, me_out_of_pages,
  me_out_of_memory,
}
use gunw_os.Dev.Errors.{DeviceError}
use gunw_os.Dev.Descriptor.{AddrRange, UhaDesc}
use gunw_os.Dev.{
  Machine, k_dev_get_by_id, k_dev_get_by_type, k_dev_acquire_hold, k_dev_release_hold,
}
use gunw_os.Dev.Access.{
  ParamDescriptor, k_dev_write_mem, k_dev_write_char, k_dev_listen, k_dev_get_param,
  k_dev_set_param,
}

pub record Caller : Type 0 where
  pub proc_id : ℤ
  pub esp : ℕ
  pub words : Array ℕ

-- `userStackSafeValuePointer`, and the value there. The first parameter is at offset 4.
unfoldable pub user_stack_safe_value : Caller → ℕ → ℕ → Outcome ℕ
user_stack_safe_value u offset bytes =
    k_mem_buffer_zone_valid_for_proc u.proc_id (word (u.esp + offset)) bytes >>= λ valid.
    if not valid then oops else ok (u.words (word (u.esp + offset)))

-- The result of a call is stored in the first word of the caller's stack, which is tested like a
-- parameter.
unfoldable pub answered {ℓ} : {A : Type ℓ} → Caller → Outcome A → Outcome A
answered u result = k_mem_buffer_zone_valid_for_proc u.proc_id (word u.esp) 4 >>= λ valid.
    if not valid then oops else result

-- The test that a pointer of the caller is not null and its buffer in reach, or the kernel halts.
abbrev pub checked {ℓ} : {A : Type ℓ} → ℤ → ℕ → ℕ → Outcome A → Outcome A
checked p ptr bytes rest =
    if ptr == 0
    then oops
    else (k_mem_buffer_zone_valid_for_proc p ptr bytes >>= λ valid.
        if not valid then oops else rest)

-- The structures at an address of the caller.
abbrev pub range_at : Array ℕ → ℕ → AddrRange
range_at words i = record { offset = words i; size_bytes = words (i + 4) }

abbrev pub param_at : Array ℕ → ℕ → ParamDescriptor
param_at words i = record {
  param = words i;
  sub_param = words (i + 4);
  param_index = words (i + 8);
}

-- A pointer to a routine, null or not.
abbrev pub routine : ℕ → Option ℕ
routine f = if f == 0 then none else some f

module _ {S : Type 0} where
  -- The descriptor is written to the caller; its size is that of the structure.
  unfoldable pub k_scr_usr_dev_get_by_id : ℤ → ℕ → ℕ → ℕ → Machine S → Outcome UhaDesc
  k_scr_usr_dev_get_by_id p id ptr bytes m = checked p ptr bytes (k_dev_get_by_id id true m)

  unfoldable pub k_scr_usr_dev_get_by_type : ℤ → ℕ → ℕ → ℕ → Machine S → Outcome (Option UhaDesc)
  k_scr_usr_dev_get_by_type p type ptr bytes m = checked p ptr bytes (k_dev_get_by_type type true m)

  unfoldable pub k_scr_usr_dev_get_param :
      ℤ → ℕ → ℕ → ℕ → Array ℕ → Machine S → Outcome ((DeviceError × ℕ) × Machine S)
  k_scr_usr_dev_get_param p id ptr result words m =
      checked p ptr 12 (checked p result 4 (k_dev_get_param id (param_at words ptr) true m))

  unfoldable pub k_scr_usr_dev_set_param :
      ℤ → ℕ → ℕ → ℕ → Array ℕ → Machine S → Outcome (DeviceError × Machine S)
  k_scr_usr_dev_set_param p id ptr value words m =
      checked p ptr 12 (k_dev_set_param p id (param_at words ptr) value m)

  unfoldable pub k_scr_usr_dev_mem_write :
      ℤ → ℕ → ℕ → ℕ → Array ℕ → Machine S → Outcome (DeviceError × Machine S)
  k_scr_usr_dev_mem_write p id buffer range words m =
      if buffer == 0
      then oops
      else checked p range 8 (
          if (range_at words range).size_bytes == 0
          then oops
          else checked p buffer (range_at words range).size_bytes (
              k_dev_get_by_id id true m >>= λ desc.
              k_dev_write_mem p id buffer (range_at words range) m))

  unfoldable pub k_scr_dev_get_by_id : ℕ → Caller → Machine S → Outcome UhaDesc
  unfolding user_stack_safe_value answered k_scr_usr_dev_get_by_id
  k_scr_dev_get_by_id bytes u m = user_stack_safe_value u 4 4 >>= λ id.
      user_stack_safe_value u 8 4 >>= λ ptr.
      answered u (k_scr_usr_dev_get_by_id u.proc_id id ptr bytes m)

  unfoldable pub k_scr_dev_get_by_type : ℕ → Caller → Machine S → Outcome (Option UhaDesc)
  unfolding user_stack_safe_value answered k_scr_usr_dev_get_by_type
  k_scr_dev_get_by_type bytes u m = user_stack_safe_value u 4 4 >>= λ type.
      user_stack_safe_value u 8 4 >>= λ ptr.
      answered u (k_scr_usr_dev_get_by_type u.proc_id type ptr bytes m)

  unfoldable pub k_scr_dev_char_write : Caller → Machine S → Outcome (DeviceError × Machine S)
  unfolding user_stack_safe_value answered
  k_scr_dev_char_write u m = user_stack_safe_value u 4 4 >>= λ id.
      user_stack_safe_value u 8 1 >>= λ c. answered u (k_dev_write_char u.proc_id id (c % 256) m)

  unfoldable pub k_scr_dev_acquire : Caller → Machine S → Outcome (DeviceError × Machine S)
  unfolding user_stack_safe_value answered
  k_scr_dev_acquire u m =
      user_stack_safe_value u 4 4 >>= λ id. answered u (k_dev_acquire_hold u.proc_id id m)

  unfoldable pub k_scr_dev_release : Caller → Machine S → Outcome (Machine S)
  unfolding user_stack_safe_value
  k_scr_dev_release u m = user_stack_safe_value u 4 4 >>= λ id. k_dev_release_hold u.proc_id id m

  unfoldable pub k_scr_dev_mem_write : Caller → Machine S → Outcome (DeviceError × Machine S)
  unfolding user_stack_safe_value answered k_scr_usr_dev_mem_write
  k_scr_dev_mem_write u m = user_stack_safe_value u 4 4 >>= λ id.
      user_stack_safe_value u 8 4 >>= λ buffer. user_stack_safe_value u 12 4 >>= λ range.
      answered u (k_scr_usr_dev_mem_write u.proc_id id buffer range u.words m)

  unfoldable pub k_scr_dev_listen : Caller → Machine S → Outcome (DeviceError × Machine S)
  unfolding user_stack_safe_value answered
  k_scr_dev_listen u m = user_stack_safe_value u 4 4 >>= λ id.
      user_stack_safe_value u 8 4 >>= λ listener. user_stack_safe_value u 12 4 >>= λ decoder.
      answered u (k_dev_listen u.proc_id id (routine listener) (routine decoder) m)

  unfoldable pub k_scr_dev_get_param : Caller → Machine S → Outcome ((DeviceError × ℕ) × Machine S)
  unfolding user_stack_safe_value answered k_scr_usr_dev_get_param
  k_scr_dev_get_param u m = user_stack_safe_value u 4 4 >>= λ id.
      user_stack_safe_value u 8 4 >>= λ ptr. user_stack_safe_value u 12 4 >>= λ result.
      answered u (k_scr_usr_dev_get_param u.proc_id id ptr result u.words m)

  unfoldable pub k_scr_dev_set_param : Caller → Machine S → Outcome (DeviceError × Machine S)
  unfolding user_stack_safe_value answered k_scr_usr_dev_set_param
  k_scr_dev_set_param u m = user_stack_safe_value u 4 4 >>= λ id.
      user_stack_safe_value u 8 4 >>= λ ptr. user_stack_safe_value u 12 4 >>= λ value.
      answered u (k_scr_usr_dev_set_param u.proc_id id ptr value u.words m)

-- `enum gnwMemoryError`
pub data MemoryError : Type 0 where
  gme_none gme_address_alignment gme_out_of_memory gme_unknown : MemoryError

-- The answer to a request for memory.
abbrev pub asked : MemError → MemoryError
asked me_none = gme_none
asked me_already_assigned = gme_none
asked me_part_already_assigned = gme_none
asked me_out_of_pages = gme_out_of_memory
asked me_out_of_memory = gme_out_of_memory
asked e = gme_unknown

abbrev pub thanked : MemError → MemoryError
thanked me_none = gme_none
thanked e = gme_unknown

unfoldable pub k_scr_usr_mem_plz : ℤ → ℕ → ℕ → Paging → Outcome (MemoryError × Paging)
k_scr_usr_mem_plz p pages start m =
    if not (start % 4096 == 0)
    then ok (gme_address_alignment, m)
    else (k_mem_gimme p start (word (pages * 4096)) m >>= λ r. ok (asked r.0, r.1))

unfoldable pub k_scr_usr_mem_thx : ℤ → ℕ → Paging → Outcome (MemoryError × Paging)
k_scr_usr_mem_thx p start m =
    if not (start % 4096 == 0)
    then ok (gme_address_alignment, m)
    else (k_mem_thanks_page p (start / 4096) m >>= λ r. ok (thanked r.0, r.1))

unfoldable pub k_scr_mem_plz : Caller → Paging → Outcome (MemoryError × Paging)
unfolding user_stack_safe_value answered k_scr_usr_mem_plz
k_scr_mem_plz u m = user_stack_safe_value u 4 4 >>= λ pages.
    user_stack_safe_value u 8 4 >>= λ start. answered u (k_scr_usr_mem_plz u.proc_id pages start m)

unfoldable pub k_scr_mem_thx : Caller → Paging → Outcome (MemoryError × Paging)
unfolding user_stack_safe_value answered k_scr_usr_mem_thx
k_scr_mem_thx u m =
    user_stack_safe_value u 4 4 >>= λ start. answered u (k_scr_usr_mem_thx u.proc_id start m)
