-- ===== src/Mem/Zone.antt =====
-- src/system/kernel/hal/mem/mem.c: `k_mem_bufferZoneValidForProc`. Pointers have 32 bits.
use gunw_os.Prelude.Outcome.{Outcome, ok, oops}
use gunw_os.Prelude.Int.{ℤ, pos, negsuc, eq_ℤ}
use gunw_os.Prelude.{
  ℕ, ◌+◌, ◌-◌, ◌<◌, ◌≡◌, ◌↔◌, ◌≢◌, ◌⊎◌, inl, inr, Bool-cases, Bool, true, false, not, ltb, leb,
  ◌==◌, if◌then◌else◌, word, arith, sub_word,
}
use gunw_os.Kernel.{kernel_proc_id, k_proc_id_is_user}
use gunw_os.Proc.{reserved_kernel_mem}

-- The first address that user code cannot reach.
abbrev pub user_end : ℕ
user_end = 4294967296 - reserved_kernel_mem

unfoldable pub k_mem_buffer_zone_valid_for_proc : ℤ → ℕ → ℕ → Outcome Bool
k_mem_buffer_zone_valid_for_proc p ptr bytes =
    let end = sub_word (word (ptr + bytes)) 1 in
    if bytes == 0
    then ok true
    else if ptr == 0
    then ok false
    else if eq_ℤ p kernel_proc_id
    then ok true
    else if not (k_proc_id_is_user p)
    then oops
    else if ltb end ptr
    then ok false
    else if leb user_end end
    then ok false
    else ok true

-- For a user process and a pointer and size of 32 bits, k_mem_bufferZoneValidForProc answers true
-- exactly if every byte of the buffer lies below the memory reserved for the kernel and the
-- buffer, unless empty, does not start at the null pointer; otherwise it answers false.
pub buffer_zone_valid_lem :
    (p : ℤ) (ptr bytes : ℕ)
    → ptr < 4294967296
    → bytes < 4294967296
    → k_proc_id_is_user p ≡ true
    → ((k_mem_buffer_zone_valid_for_proc p ptr bytes ≡ ok true)
        ↔ ((i : ℕ) → i < bytes → (ptr ≢ 0) × (ptr + i < user_end)))
      × ((k_mem_buffer_zone_valid_for_proc p ptr bytes ≡ ok false)
          ⊎ (k_mem_buffer_zone_valid_for_proc p ptr bytes ≡ ok true))
unfolding k_mem_buffer_zone_valid_for_proc k_proc_id_is_user
buffer_zone_valid_lem (negsuc n) ptr bytes a b u = absurd (cc)
buffer_zone_valid_lem (pos n) ptr bytes a b u = elim (Bool-cases (bytes == 0)) [
  | inl none ↦ (ground arith, inr (ground arith))
  | inr some ↦ (
    (
      λ e i lt. (ground arith, ground arith),
      λ all. ground (arith, (all 0 (ground arith)).0, (all (bytes - 1) (ground arith)).1),
    ),
    ground arith,
  )
]
