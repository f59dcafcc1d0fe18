-- ===== src/Mem/Contents.antt =====
-- src/system/kernel/hal/mem/mem.c: the clearing and the copying of memory under the page tables of a
-- process (MEM_ONTABLE of hal/paging/paging.h), with the loops of src/lib/stdgunw/mem.c. The memory
-- itself, seen through the page tables, is a parameter.
use gunw_os.Prelude.Outcome.{Outcome, ok, oops}
use gunw_os.Prelude.Int.{ℤ, eq_ℤ}
use gunw_os.Prelude.{ℕ, zero, suc, ◌+◌, not, ◌&&◌, ◌||◌, ◌==◌, if◌then◌else◌, word}
use gunw_os.Kernel.{kernel_proc_id, k_proc_id_is_user}
use gunw_os.Paging.{MemError, me_none, me_invalid_argument}

-- A byte at an address under the page tables of a process, or of the kernel.
pub record Memory (W : Type 0) : Type 0 where
  pub get : ℤ → ℕ → W → ℕ
  pub put : ℤ → ℕ → ℕ → W → W

module _ {W : Type 0} (memory : Memory W) where
  unfoldable pub memzero : ℤ → ℕ → ℕ → W → W
  memzero p v zero w = w
  memzero p v (suc n) w = memzero p (word (v + 1)) n (memory.put p v 0 w)

  -- From the last byte to the first.
  unfoldable pub memcopy : ℤ → ℕ → ℕ → ℕ → W → W
  memcopy p from to zero w = w
  memcopy p from to (suc n) w =
      memcopy p from to n (memory.put p (word (to + n)) (memory.get p (word (from + n)) w) w)

  -- Between two processes each byte goes through a variable of the kernel.
  unfoldable pub copy_bytes : ℤ → ℕ → ℤ → ℕ → ℕ → W → W
  copy_bytes q from p to zero w = w
  copy_bytes q from p to (suc n) w =
      copy_bytes q (word (from + 1)) p (word (to + 1)) n (memory.put p to (memory.get q from w) w)

  unfoldable pub k_mem_zero : ℤ → ℕ → ℕ → W → MemError × W
  unfolding memzero
  k_mem_zero p v size w =
      if not (k_proc_id_is_user p) then (me_invalid_argument, w) else (me_none, memzero p v size w)

  unfoldable pub k_mem_copy : ℤ → ℕ → ℤ → ℕ → ℕ → W → Outcome (MemError × W)
  unfolding memcopy copy_bytes
  k_mem_copy q from p to size w =
      if from == 0 || to == 0
      then oops
      else if not (eq_ℤ q kernel_proc_id) && not (k_proc_id_is_user q)
      then oops
      else if not (eq_ℤ p kernel_proc_id) && not (k_proc_id_is_user p)
      then oops
      else if not (eq_ℤ q kernel_proc_id) && not (eq_ℤ p kernel_proc_id)
      then ok (me_none, copy_bytes q from p to size w)
      else ok (me_none, memcopy (if eq_ℤ q kernel_proc_id then p else q) from to size w)
