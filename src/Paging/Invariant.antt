-- ===== src/Paging/Invariant.antt =====
-- src/system/kernel/hal/paging/paging.c: page entries that map different physical pages.
use gunw_os.Prelude.{
  ℕ, ◌+◌, ◌<◌, ◌≡◌, ◌≢◌, ◌∙◌, ap, subst, sym, refl, true, false, Array, update, update_self,
  update_ne, arith, ℕ_discrete,
}
use gunw_os.Paging.{Paging, PhysicalPage, PageEntry, assigned_entry, empty_entry}

-- A physical page that one page entry maps.
pub record IsMapped (f : PhysicalPage) : Type 0 where
  pub once : f.assign_count ≡ 1
  pub available : f.available ≡ true
  pub not_reserved : f.reserved ≡ false
  pub present : f.present ≡ true

-- No two present entries have the same physical page.
abbrev pub IsSingle : Array PageEntry → Type 0
IsSingle pages =
    (a b : ℕ)
    → (pages a).present ≡ true
    → (pages b).present ≡ true
    → (pages a).frame_address ≡ (pages b).frame_address
    → a ≡ b

-- The entry is the user's and maps a physical page that is counted once, is not reserved for the
-- kernel and is not the null page.
abbrev pub Maps : Array PhysicalPage → PageEntry → Type 0
Maps physical e =
    (e.user ≡ true)
    × (0 < e.frame_address)
    × (e.frame_address < 4096)
    × IsMapped (physical e.frame_address)

pub record Isolated (physical : Array PhysicalPage) (pages : Array PageEntry) : Type 0 where
  pub mapped : (a : ℕ) → (pages a).present ≡ true → Maps physical (pages a)
  pub single : IsSingle pages

abbrev pub IsIsolated : Paging → Type 0
IsIsolated m = Isolated m.physical_pages m.pages

-- A written entry, read at one place.
read_update {κ} :
    (P : PageEntry → Type κ) (pages : Array PageEntry) (e a : ℕ) (x : PageEntry)
    → (e ≡ a → P x)
    → (e ≢ a → P (pages a))
    → P (update pages e x a)
read_update P pages e a x new old = elim (ℕ_discrete e a) [
  | yes here ↦
      subst (λ n. P (update pages e x n)) here (subst P (sym (update_self pages e x)) (new here))
  | no ne ↦ subst P (sym (update_ne pages e a x ne)) (old ne)
]

-- A physical page that an entry does not map may change.
pub Maps-update :
    (physical : Array PhysicalPage) (f : ℕ) (x : PhysicalPage) (e : PageEntry)
    → f ≢ e.frame_address
    → Maps physical e
    → Maps (update physical f x) e
Maps-update physical f x e ne (u, lo, hi, mapped) =
    (u, lo, hi, subst IsMapped (sym (update_ne physical f e.frame_address x ne)) mapped)

module _ {physical : Array PhysicalPage} {pages : Array PageEntry} (v : Isolated physical pages)
    (e : ℕ) where
  module _ (f : ℕ) (small : f < 4096) (pos : 0 < f) (free : (physical f).assign_count ≡ 0)
      (av : (physical f).available ≡ true) (nr : (physical f).reserved ≡ false)
      (pr : (physical f).present ≡ true) where
    abbrev counted : PhysicalPage
    counted = record (physical f) { assign_count = (physical f).assign_count + 1 }

    other_frame : (a : ℕ) → (pages a).present ≡ true → f ≢ (pages a).frame_address
    other_frame a h same =
        absurd
          (omega (arith, ap (λ i. (physical i).assign_count) same, (v.mapped a h).3.once, free))

    counted-IsMapped : IsMapped (update physical f counted f)
    counted-IsMapped =
        subst IsMapped (sym (update_self physical f counted))
          (record { once = omega arith; available = av; not_reserved = nr; present = pr })

    -- A new mapping to a physical page that is free.
    pub assign-Isolated :
        Isolated (update physical f counted) (update pages e (assigned_entry f true))
    assign-Isolated = record {
      mapped = λ a.
          read_update (λ x. x.present ≡ true → Maps (update physical f counted) x) pages e a
            (assigned_entry f true) (λ _ h. (refl, pos, small, counted-IsMapped))
            (λ ne h. Maps-update physical f counted (pages a) (other_frame a h) (v.mapped a h));
      single = λ a b.
          read_update
            (λ x.
              x.present ≡ true
              → (update pages e (assigned_entry f true) b).present ≡ true
              → x.frame_address ≡ (update pages e (assigned_entry f true) b).frame_address
              → a ≡ b)
            pages e a (assigned_entry f true)
            (λ here.
              read_update (λ y. true ≡ true → y.present ≡ true → f ≡ y.frame_address → a ≡ b) pages
                e b (assigned_entry f true) (λ here' _ _ _. sym here ∙ here')
                (λ ne h k same. absurd (other_frame b k same)))
            (λ ne.
              read_update
                (λ y.
                  (pages a).present ≡ true
                  → y.present ≡ true
                  → (pages a).frame_address ≡ y.frame_address
                  → a ≡ b)
                pages e b (assigned_entry f true)
                (λ _ h k same. absurd (other_frame a h (sym same)))
                (λ ne' h k same. v.single a b h k same));
    }

  -- A mapping that ends.
  pub release-Isolated :
      (pages e).present ≡ true
      → (x : PhysicalPage)
      → Isolated (update physical (pages e).frame_address x) (update pages e empty_entry)
  release-Isolated was x = record {
    mapped = λ a.
        read_update (λ y. y.present ≡ true → Maps (update physical (pages e).frame_address x) y)
          pages e a empty_entry (λ _ h. absurd (cc))
          (λ ne h.
            Maps-update physical (pages e).frame_address x (pages a)
              (λ same. ne (v.single e a was h same)) (v.mapped a h));
    single = λ a b.
        read_update
          (λ y.
            y.present ≡ true
            → (update pages e empty_entry b).present ≡ true
            → y.frame_address ≡ (update pages e empty_entry b).frame_address
            → a ≡ b)
          pages e a empty_entry (λ _ h. absurd (cc))
          (λ ne.
            read_update
              (λ y.
                (pages a).present ≡ true
                → y.present ≡ true
                → (pages a).frame_address ≡ y.frame_address
                → a ≡ b)
              pages e b empty_entry (λ _ h k. absurd (cc)) (λ ne' h k same. v.single a b h k same));
  }
