-- ===== src/Fat12/Directory.antt =====
-- driver/fat12/fat12.c: which directory entry `fileInfo` finds.
use gunw_os.Prelude.Int.{pos, eq_ℤ_iff}
use gunw_os.Prelude.{
  ℕ, ◌<◌, ◌≡◌, ◌∙◌, ap, ◌≢◌, ◌↔◌, arith, Bool, true, ◌&&◌, Array, first, first_hit, first_miss, ltb,
  ◌==◌, if◌then◌else◌, some, dec_lt,
}
use gunw_os.Text.{strcmpl, strcmpl_lem}
use gunw_os.Fat12.{Bpb, DirEntry, FileInfo, not_found}
use gunw_os.Fat12.Search.{
  found, failed, file_info, search_dir, is_named, validate_dir_entry, strreplacel,
}

-- A name as it stands in a directory: blanks in place of zeros.
abbrev pub pad : ℕ → ℕ
pad c = if c == 0 then b' ' else c

-- The entry has this name and this extension.
abbrev pub IsNamed : Array ℕ → Array ℕ → DirEntry → Type 0
IsNamed name ext d =
    ((j : ℕ) → j < 8 → pad (name j) ≡ d.filename j)
    × ((j : ℕ) → j < 3 → pad (ext j) ≡ d.extension j)

-- Entry `i` of `n` is the first one with the name.
abbrev pub IsFirst : ℕ → Array DirEntry → Array ℕ → Array ℕ → ℕ → Type 0
IsFirst n dir name ext i =
    (i < n) × IsNamed name ext (dir i) × ((k : ℕ) → k < i → ¬ IsNamed name ext (dir k))

padded-eq :
    (s other : Array ℕ) (len : ℕ)
    → (strcmpl (strreplacel s len 0 b' ') other len ≡ pos 0)
      ↔ ((j : ℕ) → j < len → pad (s j) ≡ other j)
unfolding strreplacel
padded-eq s other len =
    let lem = strcmpl_lem (strreplacel s len 0 b' ') other len nonzero in
    (
      λ e j h. ground (arith, here j h, lem.0 e j h),
      λ all. lem.1 (λ j h. ground (arith, here j h, all j h)),
    )
  where
    here : (j : ℕ) → j < len → strreplacel s len 0 b' ' j ≡ pad (s j)
    here j h = ground arith

    nonzero : (j : ℕ) → j < len → strreplacel s len 0 b' ' j ≢ 0
    nonzero j h = ground (arith, here j h)

is_named_iff :
    (name ext : Array ℕ) (d : DirEntry)
    → (is_named (strreplacel name 8 0 b' ') (strreplacel ext 3 0 b' ') d ≡ true)
      ↔ IsNamed name ext d
unfolding is_named
is_named_iff name ext d =
    let l = padded-eq name d.filename 8 in
    let r = padded-eq ext d.extension 3 in
    (
      λ e. (l.0 ((eq_ℤ_iff _ _).0 (both e).0), r.0 ((eq_ℤ_iff _ _).0 (both e).1)),
      λ h. join ((eq_ℤ_iff _ _).1 (l.1 h.0)) ((eq_ℤ_iff _ _).1 (r.1 h.1)),
    )
  where
    both : {p q : Bool} → (p && q) ≡ true → (p ≡ true) × (q ≡ true)
    both {p} {q} e = ground arith

    join : {p q : Bool} → p ≡ true → q ≡ true → (p && q) ≡ true
    join e f = ground arith

abbrev pub info_of : DirEntry → FileInfo
info_of d = record { size_bytes = d.file_size_bytes; alloc_unit = d.first_logical_cluster }

module _ (b : Bpb) (dir : Array DirEntry) (name ext : Array ℕ) where
  abbrev test : ℕ → Bool
  test i = is_named (strreplacel name 8 0 b' ') (strreplacel ext 3 0 b' ') (dir i)

  abbrev hit : ℕ
  hit = first test 0 b.max_root_directory_entries

  hit-IsFirst :
      hit < b.max_root_directory_entries → IsFirst b.max_root_directory_entries dir name ext hit
  hit-IsFirst h = (
    h,
    (is_named_iff name ext (dir hit)).0
        (first_hit test 0 b.max_root_directory_entries (omega arith)),
    λ k lt named. cc (
      first_miss test 0 b.max_root_directory_entries k (omega arith) lt,
      (is_named_iff name ext (dir k)).1 named,
    ),
  )

  IsFirst-hit : (i : ℕ) → IsFirst b.max_root_directory_entries dir name ext i → hit ≡ i
  IsFirst-hit i h = elim (dec_lt i hit) [
    | yes lt ↦ absurd (
        cc (
          first_miss test 0 b.max_root_directory_entries i (omega arith) lt,
          (is_named_iff name ext (dir i)).1 h.1,
        ))
    | no ge ↦ elim (dec_lt hit i) [
      | yes gt ↦ absurd (h.2 hit gt (hit-IsFirst (omega (arith, h.0))).1)
      | no le ↦ omega arith
    ]
  ]

  -- fileInfo finds a file exactly if some directory entry is the first one whose name and
  -- extension are the given ones, with blanks for zeros, and passes validateDirEntry; the answer
  -- then holds that entry's size and cluster.
  pub file_info-found :
      (info : FileInfo)
      → (file_info (some b) (some dir) (some name) (some ext) true ≡ found info) ↔ (
          (i : ℕ) × IsFirst b.max_root_directory_entries dir name ext i
          × (validate_dir_entry b (dir i) ≡ true)
          × (info ≡ info_of (dir i)))
  unfolding file_info search_dir
  file_info-found info = (
    λ e. (hit, hit-IsFirst (ground arith), ground arith, ground arith),
    λ (i, one, valid, same). at_hit (IsFirst-hit i one) ∙ ground (arith, one.0),
  )
    where
      at_hit :
          {i : ℕ}
          → hit ≡ i
          → file_info (some b) (some dir) (some name) (some ext) true ≡ (
              if ltb i b.max_root_directory_entries
              then (if validate_dir_entry b (dir i)
                  then found (info_of (dir i))
                  else failed not_found)
              else failed not_found)
      at_hit e =
          ap
            (λ k.
              if ltb k b.max_root_directory_entries
              then (if validate_dir_entry b (dir k)
                  then found (info_of (dir k))
                  else failed not_found)
              else failed not_found)
            e
