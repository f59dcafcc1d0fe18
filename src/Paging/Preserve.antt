-- ===== src/Paging/Preserve.antt =====
-- src/system/kernel/hal/paging/paging.c: every routine keeps the page entries apart.
use gunw_os.Prelude.Outcome.{
  ok, ◌>>=◌, Ensures, ensures_ok, ensures_oops, ensures_fault, Ensures-if, Ensures-bind,
}
use gunw_os.Prelude.Int.{ℤ, index}
use gunw_os.Prelude.{
  ℕ, zero, suc, ◌+◌, ◌/◌, ◌%◌, ◌<◌, ◌≡◌, inl, inr, refl, Bool-cases, Bool, true, false, not, ◌||◌,
  first, first_hit, ltb, leb, ◌==◌, Option, none, some, arith, subst,
}
use gunw_os.Kernel.{k_proc_id_is_user}
use gunw_os.Paging.{
  Paging, me_out_of_memory, me_out_of_pages, slot, dir_slot, is_physical_page_free,
  get_free_physical_page_index, get_free_table, is_assignable, assign_virtual_page, is_releasable,
  released_frame, release_entry, release_virtual_page,
}
use gunw_os.Paging.Assign.{
  PageResult, fresh, overlaps, refused, assign_entry, assign_in_table, assign_dir_entry,
  assign_page, assign_from, is_overlap, is_fresh, k_paging_assign,
}
use gunw_os.Paging.Release.{release_in_table, k_paging_release}
use gunw_os.Paging.Invariant.{IsIsolated, assign-Isolated, release-Isolated}

free_found :
    (m : Paging) {f : ℕ}
    → get_free_physical_page_index m ≡ some f
    → (f < 4096) × (is_physical_page_free (m.physical_pages f) ≡ true)
unfolding get_free_physical_page_index
free_found m {f} h = elim (Bool-cases (ltb i 4096)) [
  | inl lt ↦
      subst (λ k. (k < 4096) × (is_physical_page_free (m.physical_pages k) ≡ true)) (ground arith)
        (ground arith, first_hit test 0 4096 (ground arith))
  | inr ge ↦ absurd (ground arith)
]
  where
    test : ℕ → Bool
    test k = is_physical_page_free (m.physical_pages k)

    i : ℕ
    i = first test 0 4096

assign_virtual_page-IsIsolated :
    (e f : ℕ) (m : Paging)
    → f < 4096
    → IsIsolated m
    → Ensures IsIsolated (assign_virtual_page e f true m)
unfolding assign_virtual_page
assign_virtual_page-IsIsolated e f m lt v =
    Ensures-if (not (is_assignable f (m.physical_pages f))) (λ _. ensures_oops)
      λ ok_page. ensures_ok (
        assign-Isolated v e f lt (ground arith) (ground arith) (ground arith) (ground arith)
          (ground arith))

assign_entry-IsIsolated :
    (e : ℕ) (m : Paging) → IsIsolated m → Ensures (λ r. IsIsolated r.1) (assign_entry e m)
unfolding assign_entry
assign_entry-IsIsolated e m v =
    Ensures-if (m.pages e).user (λ _. ensures_ok v)
      λ _.
        Ensures-if (m.pages e).present (λ _. ensures_ok v)
          λ _. at (get_free_physical_page_index m) refl
  where
    at :
        (o : Option ℕ)
        → get_free_physical_page_index m ≡ o
        → Ensures
            (λ (r : PageResult × Paging). IsIsolated r.1)
            (elim o [
              | none ↦ ok (refused me_out_of_memory, m)
              | some f ↦ assign_virtual_page e f true m >>= λ m'. ok (fresh, m')
            ])
    at none h = ensures_ok v
    at (some f) h =
        Ensures-bind {Q = IsIsolated} (assign_virtual_page-IsIsolated e f m (free_found m h).0 v)
          λ m' w. ensures_ok w

assign_in_table-IsIsolated :
    (p : ℕ) (t : Option ℕ) (page : ℕ) (m : Paging)
    → IsIsolated m
    → Ensures (λ r. IsIsolated r.1) (assign_in_table p t page m)
unfolding assign_in_table
assign_in_table-IsIsolated p none page m v = ensures_oops
assign_in_table-IsIsolated p (some t) page m v =
    assign_entry-IsIsolated (slot p t (page % 1024)) m v

assign_page-IsIsolated :
    (p page : ℕ) (m : Paging) → IsIsolated m → Ensures (λ r. IsIsolated r.1) (assign_page p page m)
unfolding assign_page assign_dir_entry
assign_page-IsIsolated p page m v =
    let d = m.directory (dir_slot p (page / 1024)) in
    Ensures-if (leb 1023 (page / 1024)) (λ _. ensures_ok v)
      λ _.
        Ensures-if (not d.present) (λ _. at (get_free_table p m))
          λ _.
            Ensures-if (not d.user) (λ _. ensures_ok v)
              λ _. assign_in_table-IsIsolated p d.table page m v
  where
    at :
        (o : Option ℕ)
        → Ensures
            (λ (r : PageResult × Paging). IsIsolated r.1)
            (elim o [
              | none ↦ ok (refused me_out_of_pages, m)
              | some t ↦ assign_in_table p (some t) page (assign_dir_entry p (page / 1024) t m)
            ])
    at none = ensures_ok v
    at (some t) =
        assign_in_table-IsIsolated p (some t) page (assign_dir_entry p (page / 1024) t m) v

assign_step :
    (p page n : ℕ) (o f : Bool) (r : PageResult) (m : Paging)
    → IsIsolated m
    → ((o f : Bool) → Ensures (λ r. IsIsolated r.1) (assign_from p (page + 1) n o f m))
    → Ensures
        (λ r. IsIsolated r.1)
        (let rest = assign_from p (page + 1) n (o || is_overlap r) (f || is_fresh r) m in
          elim r [ refused e ↦ ok (e, m) | _ ↦ rest ])
assign_step p page n o f fresh m v rest = rest _ _
assign_step p page n o f overlaps m v rest = rest _ _
assign_step p page n o f (refused e) m v rest = ensures_ok v

assign_from-IsIsolated :
    (p page n : ℕ) (o f : Bool) (m : Paging)
    → IsIsolated m
    → Ensures (λ r. IsIsolated r.1) (assign_from p page n o f m)
unfolding assign_from
assign_from-IsIsolated p page zero o f m v = ensures_ok v
assign_from-IsIsolated p page (suc n) o f m v =
    Ensures-bind (assign_page-IsIsolated p page m v) λ (r, m') w.
      assign_step p page n o f r m' w (λ o' f'. assign_from-IsIsolated p (page + 1) n o' f' m' w)

pub k_paging_assign-IsIsolated :
    (p : ℤ) (page n : ℕ) (m : Paging)
    → IsIsolated m
    → Ensures (λ r. IsIsolated r.1) (k_paging_assign p page n m)
unfolding k_paging_assign
k_paging_assign-IsIsolated p page n m v =
    Ensures-if (not (k_proc_id_is_user p)) (λ _. ensures_ok v)
      λ _.
        Ensures-if (n == 0) (λ _. ensures_ok v)
          λ _.
            Ensures-if (leb 1048576 page || leb 1048576 n || leb 1048576 (page + n))
              (λ _. ensures_ok v) λ _. assign_from-IsIsolated (index p) page n false false m v

-- With `clean` the entry that is released is present.
release_entry-IsIsolated :
    (e : ℕ) (m : Paging) → IsIsolated m → Ensures IsIsolated (release_entry e true m)
unfolding release_entry
release_entry-IsIsolated e m v =
    let x = m.pages e in
    Ensures-if (x.frame_address == 0) (λ _. ensures_oops)
      λ _.
        Ensures-if (ltb 4096 x.frame_address) (λ _. ensures_oops)
          λ _.
            Ensures-if (x.frame_address == 4096) (λ _. ensures_fault)
              λ _.
                Ensures-if (not x.present || not x.user) (λ _. ensures_oops)
                  λ is_present.
                    Ensures-if (not (is_releasable (m.physical_pages x.frame_address)))
                      (λ _. ensures_oops)
                      λ _. ensures_ok (
                        release-Isolated v e (ground arith)
                          (released_frame (m.physical_pages x.frame_address)))

release_virtual_page-IsIsolated :
    (p : ℤ) (t page : ℕ) (m : Paging)
    → IsIsolated m
    → Ensures IsIsolated (release_virtual_page p t page true m)
unfolding release_virtual_page
release_virtual_page-IsIsolated p t page m v =
    Ensures-if (not (k_proc_id_is_user p)) (λ _. ensures_oops)
      λ _.
        Ensures-if (ltb 4 t) (λ _. ensures_oops)
          λ _.
            Ensures-if (ltb 1024 page) (λ _. ensures_oops)
              λ _.
                Ensures-if (t == 4 || page == 1024) (λ _. ensures_fault)
                  λ _. release_entry-IsIsolated (slot (index p) t page) m v

pub k_paging_release-IsIsolated :
    (p : ℤ) (page : ℕ) (m : Paging)
    → IsIsolated m
    → Ensures (λ r. IsIsolated r.1) (k_paging_release p page m)
unfolding k_paging_release release_in_table
k_paging_release-IsIsolated p page m v =
    Ensures-if (not (k_proc_id_is_user p)) (λ _. ensures_oops)
      λ _.
        Ensures-if (page == 0 || leb 1048576 page) (λ _. ensures_oops)
          λ _.
            Ensures-if (leb 1023 (page / 1024)) (λ _. ensures_oops)
              λ _. at (m.directory (dir_slot (index p) (page / 1024))).table
  where
    at : (t : Option ℕ) → Ensures (λ r. IsIsolated r.1) (release_in_table p t (page % 1024) m)
    at none = ensures_oops
    at (some t) =
        Ensures-bind {Q = IsIsolated} (release_virtual_page-IsIsolated p t (page % 1024) m v)
          λ m' w. ensures_ok w
