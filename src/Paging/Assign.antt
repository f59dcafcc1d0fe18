-- ===== src/Paging/Assign.antt =====
-- src/system/kernel/hal/paging/paging.c: `k_paging_assign`.
use gunw_os.Prelude.Outcome.{Outcome, ok, oops, ◌>>=◌}
use gunw_os.Prelude.Int.{ℤ, index}
use gunw_os.Prelude.{
  ℕ, zero, suc, ◌+◌, ◌/◌, ◌%◌, Bool, true, false, not, ◌||◌, update, leb, ◌==◌, if◌then◌else◌,
  Option, none, some,
}
use gunw_os.Kernel.{k_proc_id_is_user}
use gunw_os.Paging.{
  Paging, MemError, me_none, me_part_already_assigned, me_already_assigned, me_unavailable,
  me_out_of_pages, me_out_of_memory, me_invalid_argument, max_page_entry, user_max_page_table_count,
  max_virtual_page_count, table_slot, slot, dir_slot, get_free_table, get_free_physical_page_index,
  assign_virtual_page,
}

-- What becomes of one page.
pub data PageResult : Type 0 where
  fresh : PageResult
  overlaps : PageResult
  refused : MemError → PageResult

-- The page entry: already assigned, in use otherwise, or assigned to the first free physical page.
unfoldable pub assign_entry : ℕ → Paging → Outcome (PageResult × Paging)
unfolding assign_virtual_page
assign_entry entry m =
    if (m.pages entry).user
    then ok (overlaps, m)
    else if (m.pages entry).present
    then ok (refused me_unavailable, m)
    else elim (get_free_physical_page_index m) [
      | none ↦ ok (refused me_out_of_memory, m)
      | some f ↦ assign_virtual_page entry f true m >>= λ m'. ok (fresh, m')
    ]

-- `getPageSpecifier` gives no entry without a table.
unfoldable pub assign_in_table : ℕ → Option ℕ → ℕ → Paging → Outcome (PageResult × Paging)
unfolding assign_entry
assign_in_table p none page m = oops
assign_in_table p (some t) page m = assign_entry (slot p t (page % max_page_entry)) m

-- A table for a directory entry that is not present.
unfoldable pub assign_dir_entry : ℕ → ℕ → ℕ → Paging → Paging
assign_dir_entry p dir_index t m = record m {
  directory =
      update m.directory (dir_slot p dir_index)
        (record { present = true; writable = true; user = true; table = some t });
  used = update m.used (table_slot p t) true;
}

unfoldable pub assign_page : ℕ → ℕ → Paging → Outcome (PageResult × Paging)
unfolding assign_in_table assign_dir_entry get_free_table
assign_page p page m =
    let dir_index = page / max_page_entry in
    let d = m.directory (dir_slot p dir_index) in
    if leb user_max_page_table_count dir_index
    then ok (refused me_unavailable, m)
    else if not d.present
    then elim (get_free_table p m) [
      | none ↦ ok (refused me_out_of_pages, m)
      | some t ↦ assign_in_table p (some t) page (assign_dir_entry p dir_index t m)
    ]
    else if not d.user
    then ok (refused me_unavailable, m)
    else assign_in_table p d.table page m

-- The code of `k_paging_assign` at its end.
abbrev pub assign_code : Bool → Bool → MemError
assign_code overlap new_pages =
    if overlap
    then (if new_pages then me_part_already_assigned else me_already_assigned)
    else me_none

abbrev pub is_overlap : PageResult → Bool
is_overlap r = elim r [ overlaps ↦ true | _ ↦ false ]

abbrev pub is_fresh : PageResult → Bool
is_fresh r = elim r [ fresh ↦ true | _ ↦ false ]

-- The loop over so many pages: a refusal ends it, and what was assigned before remains.
unfoldable pub assign_from : ℕ → ℕ → ℕ → Bool → Bool → Paging → Outcome (MemError × Paging)
unfolding assign_page
assign_from p page zero overlap new_pages m = ok (assign_code overlap new_pages, m)
assign_from p page (suc n) overlap new_pages m = assign_page p page m >>= λ (r, m').
    let rest = assign_from p (page + 1) n (overlap || is_overlap r) (new_pages || is_fresh r) m' in
    elim r [ refused e ↦ ok (e, m') | _ ↦ rest ]

unfoldable pub k_paging_assign : ℤ → ℕ → ℕ → Paging → Outcome (MemError × Paging)
unfolding assign_from
k_paging_assign p start_page page_count m =
    if not (k_proc_id_is_user p)
    then ok (me_invalid_argument, m)
    else if page_count == 0
    then ok (me_invalid_argument, m)
    else if leb max_virtual_page_count start_page
        || leb max_virtual_page_count page_count
        || leb max_virtual_page_count (start_page + page_count)
    then ok (me_invalid_argument, m)
    else assign_from (index p) start_page page_count false false m
