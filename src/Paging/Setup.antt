-- ===== src/Paging/Setup.antt =====
-- src/system/kernel/hal/paging/paging.c: `initializePhysicalMemoryMap`, with the memory map of
-- src/bootloader/preloader/kernel/kernel_boot_data.h. The log of the sizes is left out.
use gunw_os.Prelude.Outcome.{Outcome, ok, oops, Ensures, ensures_ok, ensures_oops, ensures_result}
use gunw_os.Prelude.{
  ℕ, zero, suc, ◌+◌, ◌-◌, ◌*◌, ◌/◌, ◌≡◌, refl, Bool, true, false, not, ◌&&◌, ◌||◌, Array, update,
  update-all, min, ltb, leb, ◌==◌, if◌then◌else◌, if_holds, word, sub_word,
}
use gunw_os.Proc.{reserved_kernel_mem}
use gunw_os.Fat12.{alignedr}
use gunw_os.Paging.{PhysicalPage, max_physical_page_count, physical_page_count}

abbrev pub mmap_max_entries : ℕ
mmap_max_entries = 128

pub data MemMapRangeType : Type 0 where
  mmrt_none mmrt_memory mmrt_reserved mmrt_other : MemMapRangeType

pub record MemMapEntry : Type 0 where
  pub base_addr_low : ℕ
  pub base_addr_high : ℕ
  pub length_low : ℕ
  pub length_high : ℕ
  pub type : MemMapRangeType

-- The entry of a page of a region.
abbrev pub marked : Bool → ℕ → PhysicalPage
marked usable page =
    let reserved = ltb (page * 4096) reserved_kernel_mem in
    record {
      present = true;
      available = usable;
      reserved = reserved;
      assign_count = if reserved then 1 else 0;
    }

unfoldable pub mark_pages : Bool → ℕ → ℕ → Array PhysicalPage → Array PhysicalPage
mark_pages usable page zero pages = pages
mark_pages usable page (suc n) pages =
    mark_pages usable (page + 1) n (update pages page (marked usable page))

-- Whether the region reaches the end of the 32-bit space.
unfoldable pub is_limited : MemMapEntry → Bool
is_limited e =
    if e.length_high == 0 && e.length_low == 0
    then false
    else not (e.length_high == 0) || leb (word (e.base_addr_low + e.length_low)) e.base_addr_low

-- The first address of a region, and the address behind it, which is 0 at the end of the space:
-- usable memory shrinks to whole pages, a reserved region grows.
abbrev region_start : Bool → MemMapEntry → ℕ
region_start usable e = alignedr e.base_addr_low 4096 usable

abbrev region_next : Bool → MemMapEntry → ℕ
region_next usable e =
    if is_limited e then 0 else alignedr (word (e.base_addr_low + e.length_low)) 4096 (not usable)

-- The first page of a region, and the number of its pages below the end of the physical memory.
unfoldable pub region_pages : Bool → MemMapEntry → ℕ × ℕ
unfolding is_limited
region_pages usable e =
    let start = region_start usable e in
    let next = region_next usable e in
    let flat = next == 0 && start == 0 in
    let length_pages = if flat then max_physical_page_count else sub_word next start / 4096 in
    let start_page = if flat then 0 else start / 4096 in
    (start_page, min (word (start_page + length_pages)) physical_page_count - start_page)

unfoldable pub mark_region : Bool → MemMapEntry → Array PhysicalPage → Array PhysicalPage
unfolding mark_pages region_pages
mark_region usable e pages =
    let (start_page, n) = region_pages usable e in
    if ltb (region_start usable e) e.base_addr_low && usable
    then pages
    else if leb (region_next usable e) (region_start usable e) && not (is_limited e)
    then pages
    else mark_pages usable start_page n pages

unfoldable pub mark_entry : Bool → MemMapEntry → Array PhysicalPage → Array PhysicalPage
unfolding mark_region
mark_entry usable e pages = if e.base_addr_high == 0 then mark_region usable e pages else pages

-- The loop over the entries of the map, from one on.
unfoldable pub mark_entries :
    Array MemMapEntry → ℕ → ℕ → Array PhysicalPage → Outcome (Array PhysicalPage)
unfolding mark_entry
mark_entries map i zero pages = ok pages
mark_entries map i (suc n) pages =
    let rest : Bool → Outcome (Array PhysicalPage) =
      λ usable. mark_entries map (i + 1) n (mark_entry usable (map i) pages) in
    elim (map i).type [
      | mmrt_none ↦ ok pages
      | mmrt_memory ↦ rest true
      | mmrt_reserved ↦ rest false
      | mmrt_other ↦ oops
    ]

unfoldable pub initialize_physical_memory_map :
    Array MemMapEntry → Array PhysicalPage → Outcome (Array PhysicalPage)
unfolding mark_entries
initialize_physical_memory_map map pages = mark_entries map 0 mmap_max_entries pages

-- A page that is installed is reserved exactly if the kernel's memory holds it, and then counted as
-- assigned.
pub record IsMarked (page : ℕ) (f : PhysicalPage) : Type 0 where
  pub reserved : f.present ≡ true → f.reserved ≡ ltb (page * 4096) reserved_kernel_mem
  pub count :
      f.present ≡ true → f.assign_count ≡ (if ltb (page * 4096) reserved_kernel_mem then 1 else 0)

abbrev pub AllMarked : Array PhysicalPage → Type 0
AllMarked pages = (page : ℕ) → IsMarked page (pages page)

mark_pages-AllMarked :
    (usable : Bool) (page n : ℕ) (pages : Array PhysicalPage)
    → AllMarked pages
    → AllMarked (mark_pages usable page n pages)
unfolding mark_pages
mark_pages-AllMarked usable page zero pages v = v
mark_pages-AllMarked usable page (suc n) pages v = mark_pages-AllMarked usable (page + 1) n _ (
    update-all IsMarked pages page (marked usable page)
      (record { reserved = λ _. refl; count = λ _. refl }) v)

mark_entry-AllMarked :
    (usable : Bool) (e : MemMapEntry) (pages : Array PhysicalPage)
    → AllMarked pages
    → AllMarked (mark_entry usable e pages)
unfolding mark_entry mark_region
mark_entry-AllMarked usable e pages v =
    if_holds AllMarked (e.base_addr_high == 0) _ _
      (λ _.
        if_holds AllMarked (ltb (region_start usable e) e.base_addr_low && usable) _ _ (λ _. v)
          λ _.
            if_holds AllMarked
              (leb (region_next usable e) (region_start usable e) && not (is_limited e)) _ _
              (λ _. v)
              λ _.
                mark_pages-AllMarked usable (region_pages usable e).0 (region_pages usable e).1
                  pages v)
      (λ _. v)

mark_entries-AllMarked :
    (map : Array MemMapEntry) (i n : ℕ) (pages : Array PhysicalPage)
    → AllMarked pages
    → Ensures AllMarked (mark_entries map i n pages)
unfolding mark_entries
mark_entries-AllMarked map i zero pages v = ensures_ok v
mark_entries-AllMarked map i (suc n) pages v = at (map i).type (λ u.
    mark_entries-AllMarked map (i + 1) n (mark_entry u (map i) pages)
      (mark_entry-AllMarked u (map i) pages v))
  where
    at :
        (t : MemMapRangeType)
        → ((u : Bool) → Ensures AllMarked (mark_entries map (i + 1) n (mark_entry u (map i) pages)))
        → Ensures AllMarked (elim t [
          | mmrt_none ↦ ok pages
          | mmrt_memory ↦ mark_entries map (i + 1) n (mark_entry true (map i) pages)
          | mmrt_reserved ↦ mark_entries map (i + 1) n (mark_entry false (map i) pages)
          | mmrt_other ↦ oops
        ])
    at mmrt_none rest = ensures_ok v
    at mmrt_memory rest = rest true
    at mmrt_reserved rest = rest false
    at mmrt_other rest = ensures_oops

-- If the set-up from a memory map returns, with no page installed before, then every installed
-- page is reserved exactly if it lies in the memory of the kernel, and counted as assigned
-- exactly then.
pub initialize_physical_memory_map-AllMarked :
    (map : Array MemMapEntry) (pages pages' : Array PhysicalPage)
    → ((page : ℕ) → (pages page).present ≡ false)
    → initialize_physical_memory_map map pages ≡ ok pages'
    → (page : ℕ) → IsMarked page (pages' page)
unfolding initialize_physical_memory_map
initialize_physical_memory_map-AllMarked map pages pages' z e =
    ensures_result
      (mark_entries-AllMarked map 0 128 pages (λ page. record {
        reserved = λ h. absurd (cc (z page));
        count = λ h. absurd (cc (z page));
      }))
      e
