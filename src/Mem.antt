-- ===== src/Mem.antt =====
-- src/system/kernel/hal/mem/mem.c: requests for memory, on top of the pages of
-- hal/paging/paging.c. Addresses have 32 bits.
pub mod Zone
pub mod Contents
pub mod Request
use gunw_os.Prelude.Outcome.{Outcome, ok, oops, ◌>>=◌}
use gunw_os.Prelude.Int.{ℤ}
use gunw_os.Prelude.{
  ℕ, ◌+◌, ◌-◌, ◌*◌, ◌/◌, Bool, true, not, ltb, leb, ◌==◌, if◌then◌else◌, word, sub_word,
}
use gunw_os.Kernel.{k_proc_id_is_user}
use gunw_os.Proc.{reserved_kernel_mem}
use gunw_os.Fat12.{alignedr}
use gunw_os.Mem.Zone.{user_end}
use gunw_os.Paging.{
  Paging, MemError, me_invalid_argument, physical_page_count, k_paging_get_free_pages,
}
use gunw_os.Paging.Assign.{k_paging_assign}
use gunw_os.Paging.Release.{k_paging_release, k_paging_proc_cleanup}

abbrev pub page_size_bytes : ℕ
page_size_bytes = 4096

unfoldable pub k_mem_physical_to_linear : ℕ → Outcome ℕ
k_mem_physical_to_linear address =
    if leb reserved_kernel_mem address then oops else ok (sub_word address reserved_kernel_mem)

unfoldable pub k_mem_get_free_bytes : Paging → ℕ
k_mem_get_free_bytes m = word (k_paging_get_free_pages physical_page_count m * page_size_bytes)

abbrev pub page_of_addr : ℕ → ℕ
page_of_addr address = address / page_size_bytes

unfoldable pub k_mem_gimme : ℤ → ℕ → ℕ → Paging → Outcome (MemError × Paging)
k_mem_gimme p v_ptr size_bytes m =
    let v_end = word (v_ptr + size_bytes) in
    let start_page = page_of_addr v_ptr in
    let page_count = sub_word (page_of_addr (alignedr v_end page_size_bytes true)) start_page in
    if not (k_proc_id_is_user p)
    then ok (me_invalid_argument, m)
    else if leb v_end v_ptr
    then ok (me_invalid_argument, m)
    else if ltb user_end v_end
    then ok (me_invalid_argument, m)
    else k_paging_assign p start_page page_count m

unfoldable pub k_mem_thanks_page : ℤ → ℕ → Paging → Outcome (MemError × Paging)
k_mem_thanks_page p page m =
    if not (k_proc_id_is_user p)
    then ok (me_invalid_argument, m)
    else if page == 0
    then ok (me_invalid_argument, m)
    else k_paging_release p page m

unfoldable pub k_mem_proc_cleanup : ℤ → Paging → Outcome Paging
k_mem_proc_cleanup p m = k_paging_proc_cleanup p m
