-- ===== src/Fat12/Chain.antt =====
-- driver/fat12/fat12.c: the sectors of a file, on a volume whose header `detect` accepts and that
-- has no hidden sectors.
use native.Mathlib.Nat.{
  mul-le-mul_right, div-add-mod', mul-sub, mul_comm, mul-mod_left, mod-eq_of_lt,
  add-mul-mod_self_right, div-mul-le_self, add-mul,
}
use gunw_os.Prelude.{
  ℕ, zero, suc, ◌+◌, ◌-◌, ◌*◌, ◌/◌, ◌%◌, ◌≤◌, ◌<◌, ◌≡◌, ◌≢◌, false, ◌∙◌, ap, sym, subst, sub_word,
  true, ◌==◌, arith, word, Array,
}
use gunw_os.Fat12.{
  Bpb, Location, FileInfo, first_cluster_sector, last_cluster, cluster_start_sector,
  is_valid_for_read, next_location, next_cluster, file_start_location,
}
use gunw_os.Fat12.Detect.{utility_sectors, data_sectors, data_clusters, fat_bytes}
use gunw_os.Fat12.Volume.{IsVolume, first_cluster_sector-eq}

-- What an accepted header says of the clusters, with all words read as numbers.
clusters :
    (u t s c : ℕ)
    → u < t
    → t < 65536
    → 2 ≤ c
    → c ≤ word (sub_word t u / s + 1)
    → (word (u + sub_word c 2 * s) ≡ u + (c - 2) * s)
      × (u + (c - 2) * s + s ≤ t)
      × (c ≤ (t - u) / s + 1)
clusters u t s c fits w lo hi =
    let same : sub_word t u ≡ t - u = ground arith in
    let q : c ≤ (t - u) / s + 1 = ground (arith, subst (λ x. c ≤ word (x / s + 1)) same hi) in
    let m : (c - 1) * s ≤ (t - u) / s * s = mul-le-mul_right s (omega arith) in
    let d : (t - u) / s * s ≤ t - u = div-mul-le_self (t - u) s in
    let e : (c - 1) * s ≡ (c - 2) * s + s =
      let p : c - 1 ≡ c - 2 + 1 = omega arith in
      ap (λ x. x * s) p ∙ omega (arith, add-mul (c - 2) 1 s) in
    let sub : sub_word c 2 ≡ c - 2 = ground arith in rw sub (omega arith, omega arith, q)

-- `nextLocation` so many times.
abbrev pub walk : ℕ → Bpb → Array ℕ → Location → Location
walk zero b fat l = l
walk (suc n) b fat l = next_location b fat (walk n b fat l)

-- The difference of two multiples.
multiple : (x y s : ℕ) → x % s ≡ 0 → y % s ≡ 0 → x - y ≡ (x / s - y / s) * s
multiple x y s p q =
    let dx : x / s * s + x % s ≡ x = div-add-mod' x s in
    let dy : y / s * s + y % s ≡ y = div-add-mod' y s in
    omega (
      arith,
      mul-sub s (x / s) (y / s),
      mul_comm (x / s) s,
      mul_comm (y / s) s,
      mul_comm (x / s - y / s) s,
    )

in_cluster : (k s j : ℕ) → j < s → (k * s + j) % s ≡ j
in_cluster k s j h =
    let c : k * s + j ≡ j + k * s = omega arith in
    ap (λ x. x % s) c ∙ (add-mul-mod_self_right j k s ∙ mod-eq_of_lt h)

offset : (start k s i : ℕ) → start ≡ k * s → suc i < s → (start + i + 1) % s ≡ suc i
offset start k s i m lt =
    let sum : start + i + 1 ≡ k * s + suc i = omega arith in
    ap (λ x. x % s) sum ∙ in_cluster k s (suc i) lt

offset_end : (start k s i : ℕ) → start ≡ k * s → suc i ≡ s → (start + i + 1) % s ≡ 0
offset_end start k s i m end =
    let sum : start + i + 1 ≡ (k + 1) * s = omega (arith, add-mul k 1 s) in
    ap (λ x. x % s) sum ∙ mul-mod_left (k + 1) s

-- A sector of a cluster, as the driver describes it.
abbrev pub at : Bpb → ℕ → ℕ → Location
at b sector cluster = record {
  sector = sector;
  alloc_unit = cluster;
  size_bytes = b.bytes_per_logical_sector;
}

module _ (b : Bpb) (fat : Array ℕ) (sector c : ℕ) (small : sector + 1 < 4294967296) where
  next_location_inside :
      (sector + 1) % b.logical_sectors_per_cluster ≢ 0
      → next_location b fat (at b sector c) ≡ at b (suc sector) c
  unfolding next_location
  next_location_inside h =
      let same : word (sector + 1) ≡ suc sector = omega arith in
      let test : (suc sector % b.logical_sectors_per_cluster == 0) ≡ false = ground arith in
      rw (same, test)

  next_location_across :
      (sector + 1) % b.logical_sectors_per_cluster ≡ 0
      → next_location b fat (at b sector c)
        ≡ at b (cluster_start_sector b (next_cluster fat c)) (next_cluster fat c)
  unfolding next_location
  next_location_across h =
      let same : word (sector + 1) ≡ suc sector = omega arith in
      let test : (suc sector % b.logical_sectors_per_cluster == 0) ≡ true = ground arith in
      rw (same, test)

module _ (b : Bpb) (v : IsVolume b) (w : b.total_logical_sectors < 65536) where
  valid-clusters :
      (l : Location)
      → is_valid_for_read b l ≡ true
      → (cluster_start_sector b l.alloc_unit
          ≡ utility_sectors b + (l.alloc_unit - 2) * b.logical_sectors_per_cluster)
        × (cluster_start_sector b l.alloc_unit + b.logical_sectors_per_cluster
            ≤ b.total_logical_sectors)
        × (2 ≤ l.alloc_unit)
        × (l.alloc_unit ≤ 4079)
        × (l.alloc_unit
            ≤ (b.total_logical_sectors - utility_sectors b) / b.logical_sectors_per_cluster + 1)
  unfolding is_valid_for_read cluster_start_sector last_cluster
  valid-clusters l e =
      let f = first_cluster_sector-eq b v w in
      let last : l.alloc_unit ≤ last_cluster b = ground arith in
      let (start, inside, le) =
        clusters (utility_sectors b) b.total_logical_sectors b.logical_sectors_per_cluster
          l.alloc_unit (omega (arith, v.fits)) w (ground arith)
          (subst
            (λ x.
              l.alloc_unit
              ≤ word (sub_word b.total_logical_sectors x / b.logical_sectors_per_cluster + 1))
            f last) in
      rw f (start, omega arith, ground arith, ground arith, le)

  -- On a volume with the geometry that detect checks and fewer than 65536 sectors, the sectors of
  -- a cluster that is valid for reading lie behind the root directory and within the volume.
  pub cluster_start_sector-le :
      (l : Location)
      → is_valid_for_read b l ≡ true
      → (first_cluster_sector b ≤ cluster_start_sector b l.alloc_unit)
        × (cluster_start_sector b l.alloc_unit + b.logical_sectors_per_cluster
            ≤ b.total_logical_sectors)
  cluster_start_sector-le l e =
      let (start, inside, _, _, _) = valid-clusters l e in
      (rw (first_cluster_sector-eq b v w, start) (omega arith), inside)

  -- On such a volume without hidden sectors, nextCluster on a cluster that is valid for reading
  -- depends on no byte outside the table.
  pub next_cluster-reads :
      (fat other : Array ℕ) (l : Location)
      → b.hidden_sectors ≡ 0
      → is_valid_for_read b l ≡ true
      → ((i : ℕ) → i < fat_bytes b → fat i ≡ other i)
      → next_cluster fat l.alloc_unit ≡ next_cluster other l.alloc_unit
  unfolding next_cluster
  next_cluster-reads fat other l h e same =
      let (_, _, lo, hi, le) = valid-clusters l e in
      let n : data_sectors b ≡ b.total_logical_sectors - utility_sectors b = omega arith in
      let t : l.alloc_unit ≤ data_clusters b + 1 = rw n le in
      let i : word (3 * l.alloc_unit) / 2 % 65536 + 1 < fat_bytes b =
        omega (arith, v.table_holds) in
      rw (
        same (word (3 * l.alloc_unit) / 2 % 65536) (omega arith),
        same (word (3 * l.alloc_unit) / 2 % 65536 + 1) i,
      )

  -- Without hidden sectors each cluster starts at a multiple of its size.
  start-multiple :
      (l : Location)
      → b.hidden_sectors ≡ 0
      → is_valid_for_read b l ≡ true
      → (k : ℕ) × (cluster_start_sector b l.alloc_unit ≡ k * b.logical_sectors_per_cluster)
  start-multiple l h e =
      let s = b.logical_sectors_per_cluster in
      let k = b.total_logical_sectors / s - data_sectors b / s in
      let (start, _, _, _, _) = valid-clusters l e in
      let u : utility_sectors b ≡ k * s = omega (
        arith,
        multiple b.total_logical_sectors (data_sectors b) s v.total_whole v.data_whole,
        v.fits,
      ) in
      (k + (l.alloc_unit - 2), start ∙ omega (arith, add-mul k (l.alloc_unit - 2) s))

  module _ (fat : Array ℕ) (l : Location) (h : b.hidden_sectors ≡ 0)
      (e : is_valid_for_read b l ≡ true) where
    walk_inside :
        (i : ℕ)
        → i < b.logical_sectors_per_cluster
        → walk i b fat (at b (cluster_start_sector b l.alloc_unit) l.alloc_unit)
          ≡ at b (cluster_start_sector b l.alloc_unit + i) l.alloc_unit
    walk_inside zero lt = ap (λ x. at b x l.alloc_unit) (omega arith)
    walk_inside (suc i) lt =
        let (_, end, _, _, _) = valid-clusters l e in
        let (k, multiple_of) = start-multiple l h e in
        let place : (cluster_start_sector b l.alloc_unit + i + 1) % b.logical_sectors_per_cluster
            ≡ suc i =
          offset _ k _ i multiple_of lt in
        ap (next_location b fat) (walk_inside i (omega arith))
        ∙ (next_location_inside b fat (cluster_start_sector b l.alloc_unit + i) l.alloc_unit
              (omega arith) (omega arith)
            ∙ ap (λ x. at b x l.alloc_unit) (omega arith))

    walk_across :
        (n : ℕ)
        → suc n ≡ b.logical_sectors_per_cluster
        → walk (suc n) b fat (at b (cluster_start_sector b l.alloc_unit) l.alloc_unit)
          ≡ at b
              (cluster_start_sector b (next_cluster fat l.alloc_unit))
              (next_cluster fat l.alloc_unit)
    walk_across n size =
        let (_, end, _, _, _) = valid-clusters l e in
        let (k, multiple_of) = start-multiple l h e in
        let place : (cluster_start_sector b l.alloc_unit + n + 1) % b.logical_sectors_per_cluster
            ≡ 0 =
          offset_end _ k _ n multiple_of size in
        ap (next_location b fat) (walk_inside n (omega arith))
        ∙ next_location_across b fat (cluster_start_sector b l.alloc_unit + n) l.alloc_unit
            (omega arith) place

  -- On a volume with the geometry that detect checks, fewer than 65536 sectors and no hidden
  -- ones, from the start of a file in a cluster that is valid for reading, nextLocation goes
  -- through the sectors of that cluster one by one, and behind the last of them to the start of
  -- the cluster that the table names next.
  pub walk-cluster :
      (fat : Array ℕ) (info : FileInfo)
      → b.hidden_sectors ≡ 0
      → is_valid_for_read b (file_start_location b info) ≡ true
      → ((i : ℕ)
          → i < b.logical_sectors_per_cluster
          → walk i b fat (file_start_location b info)
            ≡ at b ((file_start_location b info).sector + i) info.alloc_unit)
        × (walk b.logical_sectors_per_cluster b fat (file_start_location b info)
            ≡ file_start_location b (record {
              size_bytes = info.size_bytes;
              alloc_unit = next_cluster fat info.alloc_unit;
            }))
  unfolding file_start_location
  walk-cluster fat info h e =
      let l = file_start_location b info in
      let size : suc (b.logical_sectors_per_cluster - 1) ≡ b.logical_sectors_per_cluster =
        omega (arith, v.cluster_pos) in
      (
        walk_inside fat l h e,
        ap (λ n. walk n b fat l) (sym size)
            ∙ walk_across fat l h e (b.logical_sectors_per_cluster - 1) size,
      )
