-- ===== src/Storage/File/Clusters.antt =====
-- src/system/kernel/driver/fat12/fat12.c: the clusters of a file, on a volume whose clusters have one
-- sector, as the chain of units that src/system/kernel/storage/file.c goes through.
use native.Mathlib.Nat.{le-mul_of_pos_right, lt_of_le_of_lt, mul-le-mul_right}
use gunw_os.Prelude.{
  ℕ, zero, suc, ◌+◌, ◌-◌, ◌*◌, ◌%◌, ◌≤◌, ◌<◌, ◌≡◌, refl, sym, ap, subst, Bool, ◌&&◌, true, false,
  Array, ◌==◌, in_range, min, word, arith,
}
use gunw_os.Fat12.{
  Bpb, FileInfo, Location, sectors_per_alloc_unit, next_location, next_cluster, is_contiguous,
  is_valid_for_read, is_eof, alloc_unit_aligned_bytes, cluster_start_sector, first_cluster_sector,
  last_cluster,
}
use gunw_os.Storage.File.{Walk}
use gunw_os.Storage.File.Chain.{IsChain}

-- The clusters of a file, from its first one on.
unfoldable pub cluster_at : Array ℕ → ℕ → ℕ → ℕ
cluster_at fat c zero = c
cluster_at fat c (suc k) = next_cluster fat (cluster_at fat c k)

-- The location of a cluster.
abbrev pub location : Bpb → ℕ → Location
location b c = record {
  sector = cluster_start_sector b c;
  alloc_unit = c;
  size_bytes = b.bytes_per_logical_sector;
}

abbrev pub fat12_walk : Bpb → Array ℕ → ℕ → Walk
fat12_walk b fat size = record {
  next = next_location b fat;
  contiguous = is_contiguous b;
  valid = is_valid_for_read b;
  is_eof = is_eof;
  expected_bytes = alloc_unit_aligned_bytes b size;
  sectors_per_alloc_unit = sectors_per_alloc_unit b;
}

-- A file of n clusters that it fills but for the rest of the last one, on a volume with one sector to
-- a cluster.
pub record IsFile (b : Bpb) (fat : Array ℕ) (info : FileInfo) (n : ℕ) : Type 0 where
  pub one_sector : b.logical_sectors_per_cluster ≡ 1
  pub some_bytes : 0 < b.bytes_per_logical_sector
  pub some_clusters : 0 < n
  pub fills : alloc_unit_aligned_bytes b info.size_bytes ≡ n * b.bytes_per_logical_sector
  pub bound :
      n * b.bytes_per_logical_sector + b.bytes_per_logical_sector + b.bytes_per_logical_sector
      < 4294967296
  pub valid :
      (k : ℕ) → k < n → is_valid_for_read b (location b (cluster_at fat info.alloc_unit k)) ≡ true
  pub places :
      (k : ℕ)
      → k < n
      → (first_cluster_sector b + cluster_at fat info.alloc_unit k) * b.bytes_per_logical_sector
        < 4294967296
  pub marked : is_eof (location b (cluster_at fat info.alloc_unit n)) ≡ true

-- With one sector to a cluster the location behind one is that of the next cluster.
one_sector_next :
    (b : Bpb) (fat : Array ℕ) (sector c : ℕ)
    → b.logical_sectors_per_cluster ≡ 1
    → next_location b fat
        (record { sector = sector; alloc_unit = c; size_bytes = b.bytes_per_logical_sector })
      ≡ location b (next_cluster fat c)
unfolding next_location
one_sector_next b fat sector c e =
    let test : (word (sector + 1) % b.logical_sectors_per_cluster == 0) ≡ true =
      rw e (ground arith) in
    rw test refl

eq_of_and : (x y : ℕ) (p q : Bool) → (x == y && p && q) ≡ true → x ≡ y
eq_of_and x y true true h = ground arith
eq_of_and x y true false h = ground arith
eq_of_and x y false q h = ground arith

and_false : (a p q : Bool) → q ≡ false → (a && p && q) ≡ false
and_false true true q h = h
and_false true false q h = refl
and_false false p q h = refl

next_number :
    (b : Bpb) (l m : Location) → is_contiguous b l m ≡ true → m.alloc_unit ≡ word (l.alloc_unit + 1)
unfolding is_contiguous
next_number b l m e =
    eq_of_and m.alloc_unit (word (l.alloc_unit + 1)) (is_valid_for_read b l) (is_valid_for_read b m)
      e

behind_range : (c last : ℕ) → in_range 4088 c 4095 ≡ true → in_range 2 c (min last 4079) ≡ false
behind_range c last h = ground arith

-- The mark of the end is not contiguous with anything.
end_stops : (b : Bpb) (l m : Location) → is_eof m ≡ true → is_contiguous b l m ≡ false
unfolding is_contiguous is_eof is_valid_for_read
end_stops b l m e =
    and_false (m.alloc_unit == word (l.alloc_unit + 1)) (is_valid_for_read b l)
      (is_valid_for_read b m) (behind_range m.alloc_unit (last_cluster b) e)

module _ {b : Bpb} {fat : Array ℕ} {info : FileInfo} {n : ℕ} (f : IsFile b fat info n) where
  abbrev nth : ℕ → Location
  nth k = location b (cluster_at fat info.alloc_unit k)

  next_nth : (k : ℕ) → next_location b fat (nth k) ≡ nth (suc k)
  unfolding cluster_at
  next_nth k =
      one_sector_next b fat (cluster_start_sector b (cluster_at fat info.alloc_unit k))
        (cluster_at fat info.alloc_unit k) f.one_sector

  in_cluster_range : (k : ℕ) → k < n → (2 ≤ (nth k).alloc_unit) × ((nth k).alloc_unit < 4080)
  unfolding is_valid_for_read
  in_cluster_range k lt = let v = f.valid k lt in ground (arith, v)

  sector_of :
      (c : ℕ)
      → 2 ≤ c
      → first_cluster_sector b + c < 4294967296
      → cluster_start_sector b c ≡ first_cluster_sector b + (c - 2)
  unfolding cluster_start_sector
  sector_of c le lt = rw f.one_sector (ground arith)

  first_fits :
      (k : ℕ) → k < n → first_cluster_sector b + cluster_at fat info.alloc_unit k < 4294967296
  first_fits k lt = lt_of_le_of_lt (le-mul_of_pos_right _ f.some_bytes) (f.places k lt)

  nth_sector :
      (k : ℕ)
      → k < n
      → cluster_start_sector b (cluster_at fat info.alloc_unit k)
        ≡ first_cluster_sector b + (cluster_at fat info.alloc_unit k - 2)
  nth_sector k lt =
      sector_of (cluster_at fat info.alloc_unit k) (in_cluster_range k lt).0 (first_fits k lt)

  pub file-IsChain :
      IsChain
        (fat12_walk b fat info.size_bytes)
        nth
        n
        b.bytes_per_logical_sector
        b.bytes_per_logical_sector
  unfolding sectors_per_alloc_unit
  file-IsChain = record {
    some_bytes = f.some_bytes;
    some_units = f.some_clusters;
    bound = f.bound;
    places = λ k lt.
        lt_of_le_of_lt
          (mul-le-mul_right b.bytes_per_logical_sector (omega (arith, nth_sector k lt)))
          (f.places k lt);
    expected = f.fills;
    sectors = omega (arith, ap (λ (t : ℕ). t * b.bytes_per_logical_sector) f.one_sector);
    sizes = λ k lt. refl;
    steps = λ k lt. next_nth k;
    runs = λ k lt e.
        let number = next_number b (nth k) (nth (suc k)) e in
        let small = in_cluster_range k (omega arith) in
        (
          omega (arith, number, small),
          omega (
            arith,
            number,
            small,
            nth_sector k (omega arith),
            nth_sector (suc k) lt,
            f.one_sector,
          ),
        );
    ends = λ k e.
        end_stops b (nth k) (nth (suc k)) (subst (λ i. is_eof (nth i) ≡ true) (sym e) f.marked);
    valid = f.valid;
    marked = f.marked;
  }
