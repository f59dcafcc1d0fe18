-- ===== src/Heap.antt =====
-- src/system/api/app/src/gunwmem.c: the heap of a process. The entries of its list are read and
-- written by their address, 0 is the null pointer; the bytes between them are left out. The calls of
-- the kernel for pages come back; a `fug` is an `oops`. Walks along the list have fuel.
pub mod Alias
use gunw_os.Prelude.Outcome.{Outcome, ok, oops, hang, ◌>>=◌}
use gunw_os.Prelude.{
  ℕ, zero, suc, ◌+◌, ◌-◌, ◌*◌, ◌/◌, Array, update, Bool, true, false, not, ◌&&◌, ◌||◌, ltb, leb,
  ◌==◌, if◌then◌else◌, word, sub_word,
}
use gunw_os.Fat12.{alignedr}

-- `enum gnwMemoryError`, as far as the heap tells its values apart.
pub data PageAnswer : Type 0 where
  gme_none gme_out_of_memory gme_other : PageAnswer

-- `memPagePlz` and `memPageThx` behind their test of the address.
pub record Pages (W : Type 0) : Type 0 where
  pub plz : ℕ → ℕ → W → PageAnswer × W
  pub thx : ℕ → W → W

-- `heapMetadataStartEntry`, `_heapStart`, the two fields of the entries, and the kernel.
pub record Heap (W : Type 0) : Type 0 where
  pub start_entry : ℕ
  pub heap_start : ℕ
  pub data_size_bytes : Array ℕ
  pub next : Array ℕ
  pub kernel : W

-- `sizeof(struct heapMetadataEntry)`
abbrev pub entry_size : ℕ
entry_size = 8

abbrev pub page_size : ℕ
page_size = 4096

-- `entry + sizeof(struct heapMetadataEntry)`: the sum is one of a pointer, and counts entries.
abbrev pub data_of : ℕ → ℕ
data_of entry = word (entry + entry_size * entry_size)

module _ {W : Type 0} (pages : Pages W) where
  unfoldable pub mem_page_plz : ℕ → ℕ → Heap W → Outcome (PageAnswer × Heap W)
  mem_page_plz count start h =
      let (e, w) = pages.plz count start h.kernel in
      if start == 0 then oops else ok (e, record h { kernel = w })

  unfoldable pub mem_page_thx : ℕ → Heap W → Outcome (Heap W)
  mem_page_thx start h =
      if start == 0 then oops else ok (record h { kernel = pages.thx start h.kernel })

  -- The entry goes into the list.
  abbrev pub linked : ℕ → ℕ → ℕ → ℕ → PageAnswer × Heap W → Outcome (ℕ × Heap W)
  linked entry prev next size (gme_none, h) =
      let nexts = update h.next entry next in
      ok (
        data_of entry,
        record h {
          data_size_bytes = update h.data_size_bytes entry size;
          next = if prev == 0 then nexts else update nexts prev entry;
        },
      )
  linked entry prev next size (e, h) = oops

  unfoldable pub allocate : ℕ → ℕ → ℕ → Heap W → Outcome (ℕ × Heap W)
  unfolding mem_page_plz
  allocate prev next size h =
      let entry =
        if prev == 0 then h.heap_start else word (prev + entry_size + h.data_size_bytes prev) in
      let start_page = alignedr entry page_size false in
      let following_page = alignedr (word (entry + entry_size + size)) page_size true in
      if ltb following_page start_page
      then oops
      else (mem_page_plz ((following_page - start_page) / page_size) start_page h
          >>= linked entry prev next size)

  -- The walk to the entry behind which there is room.
  unfoldable pub find_gap : ℕ → ℕ → ℕ → Heap W → Outcome ℕ
  find_gap zero size entry h = hang
  find_gap (suc fuel) size entry h =
      let rest = find_gap fuel size (h.next entry) h in
      let gap_start = word (entry + entry_size + h.data_size_bytes entry) in
      let next_unit = word (gap_start + size) in
      if h.next entry == 0
      then ok entry
      else if leb next_unit gap_start
      then oops
      else if leb next_unit (h.next entry)
      then ok entry
      else rest

  unfoldable pub mem_plz : ℕ → ℕ → Heap W → Outcome (ℕ × Heap W)
  unfolding allocate find_gap
  mem_plz fuel size h =
      let alloc_size = word (size + entry_size) in
      if size == 0
      then oops
      else if ltb alloc_size size || alloc_size == 0
      then oops
      else if leb (word (h.heap_start + alloc_size)) h.heap_start
      then oops
      else if h.start_entry == 0
      then allocate 0 0 size h
      else if leb (word (h.heap_start + alloc_size)) h.start_entry
      then allocate 0 h.start_entry size h
      else (find_gap fuel alloc_size h.start_entry h >>= λ entry.
          allocate entry (h.next entry) size h)

  -- `LAST_BYTE_ADDR`
  abbrev pub last_byte_addr : ℕ → Heap W → ℕ
  last_byte_addr entry h = sub_word (word (entry + entry_size + h.data_size_bytes entry)) 1

  -- The walk to the entry of a pointer: the entry and the one before it, and whether one before it
  -- ends in the page of the pointer.
  unfoldable pub find_entry : ℕ → ℕ → ℕ → ℕ → Bool → Heap W → Outcome (ℕ × ℕ × Bool)
  find_entry zero ptr entry prev shared h = hang
  find_entry (suc fuel) ptr entry prev shared h =
      let here = last_byte_addr entry h / page_size == ptr / page_size in
      let rest = find_entry fuel ptr (h.next entry) entry (shared || here) h in
      if entry == 0
      then ok (entry, prev, shared)
      else if data_of entry == ptr
      then ok (entry, prev, shared)
      else rest

  unfoldable pub release_pages : ℕ → ℕ → Heap W → Outcome (Heap W)
  unfolding mem_page_thx
  release_pages page zero h = ok h
  release_pages page (suc n) h =
      mem_page_thx (word (page * page_size)) h >>= λ h'. release_pages (page + 1) n h'

  abbrev pub release_unless : Bool → ℕ → Heap W → Outcome (Heap W)
  release_unless true page h = ok h
  release_unless false page h = mem_page_thx (word (page * page_size)) h

  abbrev pub unlinked : ℕ → ℕ → Heap W → Heap W
  unlinked entry prev h =
      if prev == 0
      then record h { start_entry = h.next entry }
      else record h { next = update h.next prev (h.next entry) }

  abbrev pub release : ℕ → ℕ × ℕ × Bool → Heap W → Outcome (Heap W)
  release ptr (entry, prev, shared) h =
      let leading = ptr / page_size in
      let trailing = last_byte_addr entry h / page_size in
      let trailing_shared = not (h.next entry == 0) && h.next entry / page_size == trailing in
      if entry == 0
      then oops
      else (release_unless shared leading (unlinked entry prev h) >>= λ h1.
          release_pages (leading + 1) (trailing - (leading + 1)) h1 >>= λ h2.
          release_unless trailing_shared trailing h2)

  unfoldable pub mem_thx : ℕ → ℕ → Heap W → Outcome (Heap W)
  unfolding find_entry release_pages mem_page_thx
  mem_thx fuel ptr h =
      if ptr == 0
      then oops
      else if ltb ptr entry_size
      then oops
      else (find_entry fuel ptr h.start_entry 0 false h >>= λ found. release ptr found h)
