-- ===== src/Mem/Request.antt =====
-- src/system/kernel/hal/mem/mem.c: the pages that a request for memory takes.
use gunw_os.Prelude.Int.{ℤ}
use gunw_os.Prelude.{
  ℕ, ◌+◌, ◌-◌, ◌*◌, ◌/◌, ◌%◌, ◌<◌, ◌≤◌, ◌≡◌, Bool-cases, inl, inr, true, false, ltb, leb, ◌==◌,
  word, sub_word, arith,
}
use gunw_os.Kernel.{k_proc_id_is_user}
use gunw_os.Fat12.{alignedr}
use gunw_os.Mem.{k_mem_gimme}
use gunw_os.Mem.Zone.{user_end}
use gunw_os.Paging.{Paging}
use gunw_os.Paging.Assign.{k_paging_assign}

-- The pages that hold some byte of a range, and no others.
abbrev pub Covers : ℕ → ℕ → ℕ → ℕ → Type 0
Covers v_ptr size_bytes page n =
    (page * 4096 ≤ v_ptr)
    × (v_ptr < (page + 1) * 4096)
    × (v_ptr + size_bytes ≤ (page + n) * 4096)
    × ((page + n) * 4096 < v_ptr + size_bytes + 4096)

page_end :
    (x : ℕ)
    → x ≤ user_end
    → (n : ℕ) × (alignedr x 4096 true / 4096 ≡ n) × (x ≤ n * 4096) × (n * 4096 < x + 4096)
unfolding alignedr
page_end x h = elim (Bool-cases (x % 4096 == 0)) [
  | inl whole ↦ (x / 4096, rw whole, ground arith, omega arith)
  | inr rest ↦ (x / 4096 + 1, rw rest (omega arith), omega arith, ground arith)
]

-- A request of a user process for a range of memory that is not empty and ends below the memory
-- of the kernel is an assignment of exactly the pages that hold some byte of the range.
pub k_mem_gimme-Covers :
    (p : ℤ) (v_ptr size_bytes : ℕ) (m : Paging)
    → k_proc_id_is_user p ≡ true
    → 0 < size_bytes
    → v_ptr + size_bytes ≤ user_end
    → (page : ℕ) × (n : ℕ) × (k_mem_gimme p v_ptr size_bytes m ≡ k_paging_assign p page n m)
      × Covers v_ptr size_bytes page n
unfolding k_mem_gimme
k_mem_gimme-Covers p v_ptr size_bytes m user some_bytes fits =
    let (n, e, lo, hi) = page_end (v_ptr + size_bytes) fits in
    let start = v_ptr / 4096 in
    let end : word (v_ptr + size_bytes) ≡ v_ptr + size_bytes = omega arith in
    let above : leb (v_ptr + size_bytes) v_ptr ≡ false = ground arith in
    let below : ltb user_end (v_ptr + size_bytes) ≡ false = ground arith in
    let count : sub_word n start ≡ n - start = ground arith in
    (
      start,
      n - start,
      rw (end, user, above, below, e, count),
      (omega arith, omega arith, omega arith, omega arith),
    )
