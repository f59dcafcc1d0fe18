-- ===== src/Paging.antt =====
-- src/system/kernel/hal/paging/paging.c: physical pages and the page tables of processes, with the
-- sizes of hal/paging/data.h and hal/mem/mem.h. The four tables of each process are one array,
-- and a pointer to an entry is its place there. A directory entry holds the number of the table
-- that its address is that of, if any. The loading of tables and the buffer of the processor's
-- translations are left out, but for the register that names the directory.
pub mod Assign
pub mod Release
pub mod Setup
pub mod Invariant
pub mod Preserve
pub mod Isolation
use gunw_os.Prelude.Outcome.{Outcome, ok, oops, fault, ◌>>=◌}
use gunw_os.Prelude.Int.{ℤ, pos, index, eq_ℤ}
use gunw_os.Prelude.{
  ℕ, zero, suc, ◌+◌, ◌-◌, ◌*◌, ◌/◌, ◌%◌, Bool, true, false, not, ◌&&◌, ◌||◌, Array, update, first,
  ltb, leb, ◌==◌, if◌then◌else◌, Option, none, some,
}
use gunw_os.Kernel.{kernel_proc_id, k_proc_id_is_user}

abbrev pub page_table_count : ℕ
page_table_count = 4

abbrev pub max_page_entry : ℕ
max_page_entry = 1024

abbrev pub user_max_page_table_count : ℕ
user_max_page_table_count = 1023

abbrev pub physical_page_count : ℕ
physical_page_count = 4096

abbrev pub max_physical_page_count : ℕ
max_physical_page_count = 1048576

abbrev pub max_virtual_page_count : ℕ
max_virtual_page_count = 1048576

-- `enum k_mem_error`
pub data MemError : Type 0 where
  me_none me_part_already_assigned me_already_assigned me_unavailable me_out_of_pages
        me_out_of_memory me_invalid_argument me_unknown :
      MemError

pub record PhysicalPage : Type 0 where
  pub present : Bool
  pub available : Bool
  pub reserved : Bool
  pub assign_count : ℕ

-- An entry of a page table; the bits that the processor sets and the unused ones are left out.
pub record PageEntry : Type 0 where
  pub present : Bool
  pub writable : Bool
  pub user : Bool
  pub frame_address : ℕ

-- An entry of the user part of a page directory.
pub record DirEntry : Type 0 where
  pub present : Bool
  pub writable : Bool
  pub user : Bool
  pub table : Option ℕ

pub record Paging : Type 0 where
  pub physical_pages : Array PhysicalPage
  -- the entries of the tables, by `slot`, whether a table is used, and the directories
  pub pages : Array PageEntry
  pub used : Array Bool
  pub directory : Array DirEntry
  -- whose directory is loaded
  pub cr3 : ℤ

-- The place of an entry, of a table and of a directory entry of a process.
abbrev pub table_slot : ℕ → ℕ → ℕ
table_slot p table = p * page_table_count + table

abbrev pub slot : ℕ → ℕ → ℕ → ℕ
slot p table page = table_slot p table * max_page_entry + page

abbrev pub dir_slot : ℕ → ℕ → ℕ
dir_slot p i = p * user_max_page_table_count + i

-- `getFreeTable` for a user process: the first table that is not used.
unfoldable pub get_free_table : ℕ → Paging → Option ℕ
get_free_table p m =
    let t = first (λ t. not (m.used (table_slot p t))) 0 page_table_count in
    if ltb t page_table_count then some t else none

unfoldable pub is_physical_page_free : PhysicalPage → Bool
is_physical_page_free f = f.present && f.available && not f.reserved && f.assign_count == 0

unfoldable pub get_free_physical_page_index : Paging → Option ℕ
unfolding is_physical_page_free
get_free_physical_page_index m =
    let f = first (λ f. is_physical_page_free (m.physical_pages f)) 0 physical_page_count in
    if ltb f physical_page_count then some f else none

abbrev pub assigned_entry : ℕ → Bool → PageEntry
assigned_entry f user = record { present = true; writable = true; user = user; frame_address = f }

abbrev pub empty_entry : PageEntry
empty_entry = record { present = false; writable = false; user = false; frame_address = 0 }

-- The tests of `assignVirtualPage` on the physical page.
abbrev pub is_assignable : ℕ → PhysicalPage → Bool
is_assignable index f =
    not (index == 0)
    && ltb index max_physical_page_count
    && f.present
    && f.available
    && not f.reserved
    && f.assign_count == 0

unfoldable pub assign_virtual_page : ℕ → ℕ → Bool → Paging → Outcome Paging
assign_virtual_page entry index user m =
    let f = m.physical_pages index in
    if not (is_assignable index f)
    then oops
    else ok (record m {
      physical_pages =
          update m.physical_pages index (record f { assign_count = f.assign_count + 1 });
      pages = update m.pages entry (assigned_entry index user);
    })

-- The tests of `releaseVirtualPage` on the physical page.
abbrev pub is_releasable : PhysicalPage → Bool
is_releasable f = not (f.assign_count == 0) && not f.reserved && f.available && f.present

abbrev pub released_frame : PhysicalPage → PhysicalPage
released_frame f = record f { assign_count = f.assign_count - 1 }

-- `releaseVirtualPage` for an entry within the tables.
unfoldable pub release_entry : ℕ → Bool → Paging → Outcome Paging
release_entry entry clean m =
    let e = m.pages entry in
    let f = m.physical_pages e.frame_address in
    let freed = update m.physical_pages e.frame_address (released_frame f) in
    let pages = if clean then update m.pages entry empty_entry else m.pages in
    if e.frame_address == 0
    then oops
    else if ltb physical_page_count e.frame_address
    then oops
    else if e.frame_address == physical_page_count
    then fault
    else if clean && (not e.present || not e.user)
    then oops
    else if not (is_releasable f)
    then oops
    else ok (record m { physical_pages = freed; pages = pages })

-- The tests of the indices accept the one behind the last, where the entry lies outside the table.
unfoldable pub release_virtual_page : ℤ → ℕ → ℕ → Bool → Paging → Outcome Paging
unfolding release_entry
release_virtual_page p table page clean m =
    if not (k_proc_id_is_user p)
    then oops
    else if ltb page_table_count table
    then oops
    else if ltb max_page_entry page
    then oops
    else if table == page_table_count || page == max_page_entry
    then fault
    else release_entry (slot (index p) table page) clean m

unfoldable pub k_paging_get_free_pages : ℕ → Paging → ℕ
k_paging_get_free_pages zero m = 0
k_paging_get_free_pages (suc n) m =
    k_paging_get_free_pages n m + (if is_physical_page_free (m.physical_pages n) then 1 else 0)
