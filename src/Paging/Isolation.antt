-- ===== src/Paging/Isolation.antt =====
-- src/system/kernel/hal/paging/paging.c: no physical page is mapped twice in any state that the
-- routines reach; with the cleanup after a process.
use gunw_os.Prelude.Outcome.{
  ok, Ensures, ensures_ok, ensures_oops, ensures_fault, Ensures-if, Ensures-bind, ensures_result,
}
use gunw_os.Prelude.Int.{ℤ, index, eq_ℤ}
use gunw_os.Prelude.{
  ℕ, zero, suc, ◌+◌, ◌/◌, ◌≡◌, ◌≢◌, ap, sym, ◌∙◌, true, false, not, ◌&&◌, ◌||◌, Array, update, ltb,
  ◌==◌, if◌then◌else◌, if_holds, arith,
}
use gunw_os.Kernel.{kernel_proc_id, k_proc_id_is_user}
use gunw_os.Paging.{
  Paging, PhysicalPage, PageEntry, MemError, slot, table_slot, is_releasable, released_frame,
  release_entry, release_virtual_page, empty_entry,
}
use gunw_os.Paging.Assign.{k_paging_assign}
use gunw_os.Paging.Release.{
  k_paging_release, k_paging_switch, release_pages, release_tables, clear_process,
  k_paging_proc_cleanup,
}
use gunw_os.Paging.Invariant.{IsSingle, Maps, Isolated, IsIsolated, Maps-update}
use gunw_os.Paging.Preserve.{k_paging_assign-IsIsolated, k_paging_release-IsIsolated}

-- The entries without those of one process.
abbrev without : ℕ → Array PageEntry → Array PageEntry
without p pages = λ i. if i / 4096 == p then empty_entry else pages i

-- While the pages of a process are released the others keep apart.
abbrev IsLeaving : ℕ → Paging → Type 0
IsLeaving p m = IsSingle m.pages × Isolated m.physical_pages (without p m.pages)

read_without {κ} :
    (P : PageEntry → Type κ) (p : ℕ) (pages : Array PageEntry) (a : ℕ)
    → (a / 4096 ≡ p → P empty_entry)
    → (a / 4096 ≢ p → P (pages a))
    → P (without p pages a)
read_without P p pages a mine other =
    if_holds P (a / 4096 == p) _ _ (λ e. mine (ground arith)) (λ e. other (ground arith))

without-Isolated :
    (p : ℕ) (physical : Array PhysicalPage) (pages : Array PageEntry)
    → Isolated physical pages
    → Isolated physical (without p pages)
without-Isolated p physical pages v = record {
  mapped = λ a.
      read_without (λ x. x.present ≡ true → Maps physical x) p pages a (λ _ h. absurd (cc))
        (λ _ h. v.mapped a h);
  single = λ a b.
      read_without
        (λ x.
          x.present ≡ true
          → (without p pages b).present ≡ true
          → x.frame_address ≡ (without p pages b).frame_address
          → a ≡ b)
        p pages a (λ _ h. absurd (cc))
        (λ _.
          read_without
            (λ y.
              (pages a).present ≡ true
              → y.present ≡ true
              → (pages a).frame_address ≡ y.frame_address
              → a ≡ b)
            p pages b (λ _ h k. absurd (cc)) (λ _. v.single a b));
}

-- The physical page of a leaving entry may change.
leave :
    (p : ℕ) (m : Paging) (e : ℕ) (x : PhysicalPage)
    → e / 4096 ≡ p
    → (m.pages e).present ≡ true
    → IsLeaving p m
    → Isolated (update m.physical_pages (m.pages e).frame_address x) (without p m.pages)
leave p m e x mine here (single, v) = record {
  mapped = λ a. keep a (v.mapped a);
  single = v.single;
}
  where
    keep :
        (a : ℕ)
        → ((without p m.pages a).present ≡ true → Maps m.physical_pages (without p m.pages a))
        → (without p m.pages a).present ≡ true
        → Maps (update m.physical_pages (m.pages e).frame_address x) (without p m.pages a)
    keep a =
        read_without
          (λ y.
            (y.present ≡ true → Maps m.physical_pages y)
            → y.present ≡ true
            → Maps (update m.physical_pages (m.pages e).frame_address x) y)
          p m.pages a (λ _ _ h. absurd (cc))
          (λ other old h.
            Maps-update m.physical_pages (m.pages e).frame_address x (m.pages a)
              (λ same. other (ap (λ n. n / 4096) (sym (single e a here h same)) ∙ mine)) (old h))

release_entry-IsLeaving :
    (p : ℕ) (e : ℕ) (m : Paging)
    → e / 4096 ≡ p
    → (m.pages e).present ≡ true
    → IsLeaving p m
    → Ensures (IsLeaving p) (release_entry e false m)
unfolding release_entry
release_entry-IsLeaving p e m mine here k =
    let x = m.pages e in
    Ensures-if (x.frame_address == 0) (λ _. ensures_oops)
      λ _.
        Ensures-if (ltb 4096 x.frame_address) (λ _. ensures_oops)
          λ _.
            Ensures-if (x.frame_address == 4096) (λ _. ensures_fault)
              λ _.
                Ensures-if (not (is_releasable (m.physical_pages x.frame_address)))
                  (λ _. ensures_oops)
                  λ _. ensures_ok (
                    k.0,
                    leave p m e (released_frame (m.physical_pages x.frame_address)) mine here k,
                  )

release_pages-IsLeaving :
    (p : ℤ) (t page n : ℕ) (m : Paging)
    → IsLeaving (index p) m
    → Ensures (IsLeaving (index p)) (release_pages p t page n m)
unfolding release_pages release_virtual_page
release_pages-IsLeaving p t page zero m k = ensures_ok k
release_pages-IsLeaving p t page (suc n) m k =
    Ensures-bind {Q = IsLeaving (index p)}
      (Ensures-if (not (m.pages (slot (index p) t page)).present) (λ _. ensures_ok k)
        λ is_present.
          Ensures-if (not (k_proc_id_is_user p)) (λ _. ensures_oops)
            λ _.
              Ensures-if (ltb 4 t) (λ _. ensures_oops)
                λ small_table.
                  Ensures-if (ltb 1024 page) (λ _. ensures_oops)
                    λ small_page.
                      Ensures-if (t == 4 || page == 1024) (λ _. ensures_fault)
                        λ inside.
                          release_entry-IsLeaving (index p) (slot (index p) t page) m (ground arith)
                            (ground arith) k)
      λ m' k'. release_pages-IsLeaving p t (page + 1) n m' k'

release_tables-IsLeaving :
    (p : ℤ) (t n : ℕ) (m : Paging)
    → IsLeaving (index p) m
    → Ensures (IsLeaving (index p)) (release_tables p t n m)
unfolding release_tables
release_tables-IsLeaving p t zero m k = ensures_ok k
release_tables-IsLeaving p t (suc n) m k =
    Ensures-bind {Q = IsLeaving (index p)}
      (Ensures-if (not (m.used (table_slot (index p) t))) (λ _. ensures_ok k)
        λ _. release_pages-IsLeaving p t 0 1024 m k)
      λ m' k'. release_tables-IsLeaving p (t + 1) n m' k'

k_paging_proc_cleanup-IsIsolated :
    (p : ℤ) (m : Paging) → IsIsolated m → Ensures IsIsolated (k_paging_proc_cleanup p m)
unfolding k_paging_proc_cleanup clear_process
k_paging_proc_cleanup-IsIsolated p m v =
    Ensures-if (not (k_proc_id_is_user p)) (λ _. ensures_oops)
      λ _.
        Ensures-bind {Q = IsLeaving (index p)}
          (release_tables-IsLeaving p 0 4 m
            (v.single, without-Isolated (index p) m.physical_pages m.pages v))
          λ m' k. ensures_ok k.1

-- One call that returns.
pub data Step : Paging → Paging → Type 0 where
  assigns :
      {m : Paging} (p : ℤ) (page n : ℕ) {r : MemError × Paging}
      → k_paging_assign p page n m ≡ ok r
      → Step m r.1
  releases :
      {m : Paging} (p : ℤ) (page : ℕ) {r : MemError × Paging}
      → k_paging_release p page m ≡ ok r
      → Step m r.1
  switches : {m : Paging} (p : ℤ) {r : ℤ × Paging} → k_paging_switch p m ≡ ok r → Step m r.1
  cleans : {m m' : Paging} (p : ℤ) → k_paging_proc_cleanup p m ≡ ok m' → Step m m'

pub data Reachable (start : Paging) : Paging → Type 0 where
  initial : Reachable start start
  next : {m m' : Paging} → Reachable start m → Step m m' → Reachable start m'

k_paging_switch-IsIsolated :
    (p : ℤ) (m : Paging) → IsIsolated m → Ensures (λ r. IsIsolated r.1) (k_paging_switch p m)
unfolding k_paging_switch
k_paging_switch-IsIsolated p m v =
    Ensures-if (not (k_proc_id_is_user p) && not (eq_ℤ p kernel_proc_id)) (λ _. ensures_oops)
      λ _. ensures_ok v

Step-IsIsolated : {m m' : Paging} → Step m m' → IsIsolated m → IsIsolated m'
Step-IsIsolated (assigns p page n e) v = ensures_result (k_paging_assign-IsIsolated p page n _ v) e
Step-IsIsolated (releases p page e) v = ensures_result (k_paging_release-IsIsolated p page _ v) e
Step-IsIsolated (switches p e) v = ensures_result (k_paging_switch-IsIsolated p _ v) e
Step-IsIsolated (cleans p e) v = ensures_result (k_paging_proc_cleanup-IsIsolated p _ v) e

-- In every state that assignments, releases, switches and cleanups reach from one without a
-- present page entry, whatever they answer, each present page entry belongs to user code and maps
-- a physical page other than the null page that is installed, available, not reserved for the
-- kernel and counted once, and no two entries map the same physical page.
pub reachable-IsIsolated :
    (start : Paging) {m : Paging}
    → ((a : ℕ) → (start.pages a).present ≡ false)
    → Reachable start m
    → IsIsolated m
reachable-IsIsolated start z initial = record {
  mapped = λ a h. absurd (cc (z a));
  single = λ a b h. absurd (cc (z a));
}
reachable-IsIsolated start z (next r s) = Step-IsIsolated s (reachable-IsIsolated start z r)
