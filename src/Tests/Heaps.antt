-- ===== src/Tests/Heaps.antt =====
-- A process whose heap starts at 4 MiB asks for memory twice.
use gunw_os.Prelude.Outcome.{ok, oops}
use gunw_os.Prelude.{ℕ, suc, ◌+◌, ◌≡◌, refl, arith}
use gunw_os.Heap.{Pages, Heap, gme_none, mem_plz, mem_thx}
use gunw_os.Heap.Alias.{mem_plz-alias}

-- The kernel grants every page, and counts them.
abbrev granting : Pages ℕ
granting = record { plz = λ count start w. (gme_none, w + count); thx = λ start w. w }

abbrev fresh : Heap ℕ
fresh = record {
  start_entry = 0;
  heap_start = 4194304;
  data_size_bytes = λ a. 0;
  next = λ a. 0;
  kernel = 0;
}

mem_plz-alias_example :
    (x y : ℕ × Heap ℕ) × (mem_plz granting 1 100 fresh ≡ ok x)
    × (mem_plz granting 1 200 x.1 ≡ ok y)
    × (y.0 ≡ x.0)
    × ((steps ptr : ℕ) → mem_thx granting (suc steps) ptr y.1 ≡ oops)
mem_plz-alias_example =
    mem_plz-alias granting (λ count start w. refl) 100 200 fresh refl (omega arith) (omega arith)
      (omega arith) (omega arith) (omega arith) 1
