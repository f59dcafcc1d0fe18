-- ===== src/Paging/Release.antt =====
-- src/system/kernel/hal/paging/paging.c: `k_paging_release`, `k_paging_switch` and
-- `k_paging_procCleanup`.
use gunw_os.Prelude.Outcome.{Outcome, ok, oops, ◌>>=◌}
use gunw_os.Prelude.Int.{ℤ, index, eq_ℤ}
use gunw_os.Prelude.{
  ℕ, zero, suc, ◌+◌, ◌*◌, ◌/◌, ◌%◌, true, false, not, ◌&&◌, ◌||◌, leb, ◌==◌, if◌then◌else◌, Option,
  none, some,
}
use gunw_os.Kernel.{kernel_proc_id, k_proc_id_is_user}
use gunw_os.Paging.{
  Paging, MemError, me_none, page_table_count, max_page_entry, user_max_page_table_count,
  max_virtual_page_count, table_slot, slot, dir_slot, release_virtual_page, empty_entry,
}

-- Without a table the address difference names none of the process's tables, which is refused.
unfoldable pub release_in_table : ℤ → Option ℕ → ℕ → Paging → Outcome (MemError × Paging)
unfolding release_virtual_page
release_in_table p none page m = oops
release_in_table p (some t) page m = release_virtual_page p t page true m >>= λ m'. ok (me_none, m')

unfoldable pub k_paging_release : ℤ → ℕ → Paging → Outcome (MemError × Paging)
unfolding release_in_table
k_paging_release p page m =
    let dir_index = page / max_page_entry in
    if not (k_proc_id_is_user p)
    then oops
    else if page == 0 || leb max_virtual_page_count page
    then oops
    else if leb user_max_page_table_count dir_index
    then oops
    else release_in_table p (m.directory (dir_slot (index p) dir_index)).table
        (page % max_page_entry) m

-- The answer is the directory that was loaded before.
unfoldable pub k_paging_switch : ℤ → Paging → Outcome (ℤ × Paging)
k_paging_switch p m =
    if not (k_proc_id_is_user p) && not (eq_ℤ p kernel_proc_id)
    then oops
    else ok (m.cr3, record m { cr3 = p })

-- The loops of `k_paging_procCleanup` over so many pages of a table, and over so many tables.
unfoldable pub release_pages : ℤ → ℕ → ℕ → ℕ → Paging → Outcome Paging
unfolding release_virtual_page
release_pages p table page zero m = ok m
release_pages p table page (suc n) m =
    (if not (m.pages (slot (index p) table page)).present
      then ok m
      else release_virtual_page p table page false m)
    >>= λ m'. release_pages p table (page + 1) n m'

unfoldable pub release_tables : ℤ → ℕ → ℕ → Paging → Outcome Paging
unfolding release_pages
release_tables p table zero m = ok m
release_tables p table (suc n) m =
    (if not (m.used (table_slot (index p) table))
      then ok m
      else release_pages p table 0 max_page_entry m)
    >>= λ m'. release_tables p (table + 1) n m'

-- The three areas of a process, cleared.
unfoldable pub clear_process : ℕ → Paging → Paging
clear_process p m = record m {
  directory = λ i.
      if i / user_max_page_table_count == p
      then record { present = false; writable = false; user = false; table = none }
      else m.directory i;
  pages = λ i. if i / (page_table_count * max_page_entry) == p then empty_entry else m.pages i;
  used = λ i. if i / page_table_count == p then false else m.used i;
}

unfoldable pub k_paging_proc_cleanup : ℤ → Paging → Outcome Paging
unfolding release_tables clear_process
k_paging_proc_cleanup p m =
    if not (k_proc_id_is_user p)
    then oops
    else (release_tables p 0 page_table_count m >>= λ m'. ok (clear_process (index p) m'))
