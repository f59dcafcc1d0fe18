-- ===== src/Tests/Memory.antt =====
-- src/system/kernel/hal/paging/paging.c and hal/mem/mem.c on a machine without mapped pages.
use gunw_os.Prelude.Outcome.{ok}
use gunw_os.Prelude.Int.{pos, negsuc}
use gunw_os.Prelude.{
  ℕ, zero, suc, ◌≡◌, refl, true, false, none, some, Array, update, ltb, first, arith, if◌then◌else◌,
}
use gunw_os.Kernel.{k_proc_id_is_user}
use gunw_os.Fat12.{alignedr}
use gunw_os.Paging.{
  Paging, PhysicalPage, me_none, empty_entry, assigned_entry, get_free_physical_page_index,
}
use gunw_os.Paging.Assign.{k_paging_assign}
use gunw_os.Paging.Setup.{MemMapEntry, mmrt_none, mmrt_memory, initialize_physical_memory_map}
use gunw_os.Paging.Invariant.{IsIsolated}
use gunw_os.Paging.Isolation.{initial, next, assigns, reachable-IsIsolated}
use gunw_os.Mem.{k_mem_gimme}
use gunw_os.Mem.Request.{Covers, k_mem_gimme-Covers}

abbrev ram : Array PhysicalPage
ram i = record {
  present = true;
  available = true;
  reserved = ltb i 1;
  assign_count = if ltb i 1 then 1 else 0;
}

abbrev pub blank : Paging
blank = record {
  physical_pages = ram;
  pages = λ _. empty_entry;
  used = λ _. false;
  directory = λ _. record { present = false; writable = false; user = false; table = none };
  cr3 = negsuc 0;
}

-- Process 2 has its page 5, in its first table, on physical page 1.
abbrev one_page : Paging
one_page = record blank {
  physical_pages = update ram 1 (record (ram 1) { assign_count = 1 });
  pages = update blank.pages 8197 (assigned_entry 1 true);
  used = update blank.used 8 true;
  directory =
      update blank.directory 2046
        (record { present = true; writable = true; user = true; table = some 0 });
}

gets_page : k_paging_assign (pos 2) 5 1 blank ≡ ok (me_none, one_page)
unfolding k_paging_assign k_proc_id_is_user first get_free_physical_page_index
gets_page = refl

reachable-IsIsolated_example : IsIsolated one_page
reachable-IsIsolated_example =
    reachable-IsIsolated blank (λ a. refl) (next initial (assigns (pos 2) 5 1 gets_page))

user_two : k_proc_id_is_user (pos 2) ≡ true
unfolding k_proc_id_is_user
user_two = refl

k_mem_gimme-Covers_example :
    (page : ℕ) × (n : ℕ) × (k_mem_gimme (pos 2) 5000 9000 blank
      ≡ k_paging_assign (pos 2) page n blank)
    × Covers 5000 9000 page n
k_mem_gimme-Covers_example =
    k_mem_gimme-Covers (pos 2) 5000 9000 blank user_two (omega arith) (omega arith)

-- Two pages of memory.
abbrev map : Array MemMapEntry
map zero = record {
  base_addr_low = 0;
  base_addr_high = 0;
  length_low = 8192;
  length_high = 0;
  type = mmrt_memory;
}
map (suc i) = record {
  base_addr_low = 0;
  base_addr_high = 0;
  length_low = 0;
  length_high = 0;
  type = mmrt_none;
}

abbrev absent : Array PhysicalPage
absent i = record { present = false; available = false; reserved = false; assign_count = 0 }

abbrev kernel_page : PhysicalPage
kernel_page = record { present = true; available = true; reserved = true; assign_count = 1 }

sets_up :
    initialize_physical_memory_map map absent
    ≡ ok (update (update absent 0 kernel_page) 1 kernel_page)
unfolding initialize_physical_memory_map alignedr
sets_up = refl
