-- ===== src/Heap/Alias.antt =====
-- src/system/api/app/src/gunwmem.c: what the heap gives out, as no code sets its first entry.
use gunw_os.Prelude.Outcome.{
  ok, oops, ◌>>=◌, Ensures, ensures_ok, ensures_oops, Ensures-if, Ensures-bind, ensures_result,
}
use gunw_os.Prelude.{
  ℕ, suc, ◌+◌, ◌-◌, ◌/◌, ◌≡◌, refl, sym, ap, ◌∙◌, ◌<◌, ◌≤◌, true, false, ◌||◌, ltb, leb, ◌==◌, word,
  arith, Bool-cases, inl, inr,
}
use gunw_os.Fat12.{alignedr}
use gunw_os.Heap.{
  PageAnswer, gme_none, Pages, Heap, data_of, mem_page_plz, linked, allocate, mem_plz, mem_thx,
  find_entry,
}

module _ {W : Type 0} (pages : Pages W) where
  -- The address that the first entry of a heap has for its data, and a list that is still empty.
  abbrev pub AtStart : Heap W → ℕ × Heap W → Type 0
  AtStart h (p, h') =
      (p ≡ data_of h.heap_start) × (h'.start_entry ≡ 0) × (h'.heap_start ≡ h.heap_start)

  linked-AtStart :
      (size : ℕ) (h : Heap W) (a : PageAnswer × Heap W)
      → (a.1.start_entry ≡ 0)
      → (a.1.heap_start ≡ h.heap_start)
      → Ensures (AtStart h) (linked pages h.heap_start 0 0 size a)
  linked-AtStart size h (gme_none, h') e f = ensures_ok (refl, e, f)
  linked-AtStart size h (a, h') e f = ensures_oops

  allocate-AtStart :
      (size : ℕ) (h : Heap W) → h.start_entry ≡ 0 → Ensures (AtStart h) (allocate pages 0 0 size h)
  unfolding allocate mem_page_plz
  allocate-AtStart size h e =
      let start_page = alignedr h.heap_start 4096 false in
      let following_page = alignedr (word (h.heap_start + 8 + size)) 4096 true in
      Ensures-if (ltb following_page start_page) (λ _. ensures_oops)
        λ _.
          Ensures-bind
            {Q = λ (a : PageAnswer × Heap W).
              (a.1.start_entry ≡ 0) × (a.1.heap_start ≡ h.heap_start)}
            (Ensures-if (start_page == 0) (λ _. ensures_oops) λ _. ensures_ok (e, refl))
            λ a q. linked-AtStart size h a q.0 q.1

  -- A call of memPlz that returns gives out the same address as every other one, behind the first
  -- entry of the heap, and leaves the list empty.
  mem_plz-AtStart :
      (fuel size : ℕ) (h : Heap W)
      → h.start_entry ≡ 0
      → Ensures (AtStart h) (mem_plz pages fuel size h)
  unfolding mem_plz
  mem_plz-AtStart fuel size h e =
      let alloc_size = word (size + 8) in
      Ensures-if (size == 0) (λ _. ensures_oops)
        λ _.
          Ensures-if (ltb alloc_size size || alloc_size == 0) (λ _. ensures_oops)
            λ _.
              Ensures-if (leb (word (h.heap_start + alloc_size)) h.heap_start) (λ _. ensures_oops)
                λ _.
                  Ensures-if (h.start_entry == 0) (λ _. allocate-AtStart size h e)
                    λ other. absurd (ground arith)

  mem_thx-oops :
      (fuel ptr : ℕ) (h : Heap W) → h.start_entry ≡ 0 → mem_thx pages (suc fuel) ptr h ≡ oops
  unfolding mem_thx find_entry
  mem_thx-oops fuel ptr h e = elim (Bool-cases (ptr == 0)) [
    | inl null ↦ rw null
    | inr real ↦ elim (Bool-cases (ltb ptr 8)) [
      | inl low ↦ rw (real, low)
      | inr high ↦ rw (real, high, e)
    ]
  ]

  module _ (grants : (count start : ℕ) (w : W) → (pages.plz count start w).0 ≡ gme_none)
      (fuel size : ℕ) (h : Heap W) (e : h.start_entry ≡ 0) (some_bytes : 0 < size)
      (low : 4096 ≤ h.heap_start) (fits : h.heap_start + size + 8 + 4096 < 4294967296) where
    granted :
        (count start : ℕ)
        → (start == 0) ≡ false
        → (r : ℕ × Heap W) × ((mem_page_plz pages count start h
              >>= linked pages h.heap_start 0 0 size)
            ≡ ok r)
    unfolding mem_page_plz
    granted count start real = rw (real, grants count start h.kernel) (_, refl)

    down :
        (alignedr h.heap_start 4096 false ≤ h.heap_start) × (0 < alignedr h.heap_start 4096 false)
    unfolding alignedr
    down = ground arith

    up : h.heap_start + 8 + size ≤ alignedr (word (h.heap_start + 8 + size)) 4096 true
    unfolding alignedr
    up = ground arith

    allocates : (r : ℕ × Heap W) × (allocate pages 0 0 size h ≡ ok r)
    unfolding allocate
    allocates =
        let start_page = alignedr h.heap_start 4096 false in
        let following_page = alignedr (word (h.heap_start + 8 + size)) 4096 true in
        let (r, q) =
          granted ((following_page - start_page) / 4096) start_page (ground (arith, down)) in
        let order : ltb following_page start_page ≡ false = ground (arith, down, up) in
        (r, rw order q)

    -- If the kernel grants every request for pages, the heap starts behind the first page, and the
    -- space asked for is not empty and ends before the last page, memPlz returns.
    mem_plz_grants : (r : ℕ × Heap W) × (mem_plz pages fuel size h ≡ ok r)
    unfolding mem_plz
    mem_plz_grants =
        let empty : (h.start_entry == 0) ≡ true = ground arith in
        let t1 : (size == 0) ≡ false = ground arith in
        let t2 : (ltb (word (size + 8)) size || word (size + 8) == 0) ≡ false = ground arith in
        let t3 : leb (word (h.heap_start + word (size + 8))) h.heap_start ≡ false = ground arith in
        rw (t1, t2, t3, empty) allocates

  -- If the kernel grants every request for pages, the list of the heap is empty, as at the start
  -- of a process, and the heap starts behind the first page, two requests that are not empty and
  -- end before the last page both return, with one and the same address, and the release of any
  -- address then ends the process.
  pub mem_plz-alias :
      (grants : (count start : ℕ) (w : W) → (pages.plz count start w).0 ≡ gme_none) (a b : ℕ)
      (h : Heap W)
      → h.start_entry ≡ 0
      → 4096 ≤ h.heap_start
      → 0 < a
      → 0 < b
      → h.heap_start + a + 8 + 4096 < 4294967296
      → h.heap_start + b + 8 + 4096 < 4294967296
      → (fuel : ℕ)
      → (x y : ℕ × Heap W) × (mem_plz pages fuel a h ≡ ok x)
        × (mem_plz pages fuel b x.1 ≡ ok y)
        × (y.0 ≡ x.0)
        × ((steps ptr : ℕ) → mem_thx pages (suc steps) ptr y.1 ≡ oops)
  mem_plz-alias grants a b h e low some_a some_b fits_a fits_b fuel =
      let (x, ex) = mem_plz_grants grants fuel a h e some_a low fits_a in
      let (px, ex0, sx) = ensures_result (mem_plz-AtStart fuel a h e) ex in
      let low_x : 4096 ≤ x.1.heap_start = rw sx low in
      let fits_x : x.1.heap_start + b + 8 + 4096 < 4294967296 = rw sx fits_b in
      let (y, ey) = mem_plz_grants grants fuel b x.1 ex0 some_b low_x fits_x in
      let (py, ey0, sy) = ensures_result (mem_plz-AtStart fuel b x.1 ex0) ey in
      (x, y, ex, ey, py ∙ (ap data_of sx ∙ sym px), λ steps ptr. mem_thx-oops steps ptr y.1 ey0)
