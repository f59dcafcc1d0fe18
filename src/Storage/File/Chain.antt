-- ===== src/Storage/File/Chain.antt =====
-- src/system/kernel/storage/file.c: the chain of a file, and the runs that the inner loop of
-- `loadFile` finds in it.
use gunw_os.Prelude.Outcome.{ok}
use gunw_os.Prelude.{
  ℕ, zero, suc, ◌+◌, ◌*◌, ◌/◌, ◌%◌, ◌≤◌, ◌<◌, ◌≡◌, ◌∙◌, sym, ap, Bool, Bool-cases, true, false, inl,
  inr, Array, arith,
}
use gunw_os.Fat12.{Location}
use gunw_os.Storage.File.{Walk, last_contiguous}

-- A chain of n allocation units of so many bytes on sectors of so many, whose end is marked behind
-- it. The file fills them all.
pub record IsChain (w : Walk) (units : ℕ → Location) (n size sect : ℕ) : Type 0 where
  pub some_bytes : 0 < size
  pub some_units : 0 < n
  pub bound : n * size + sect + sect < 4294967296
  pub places : (k : ℕ) → k < n → (units k).sector * sect < 4294967296
  pub expected : w.expected_bytes ≡ n * size
  pub sectors : size ≡ w.sectors_per_alloc_unit * sect
  pub sizes : (k : ℕ) → k < n → (units k).size_bytes ≡ size
  pub steps : (k : ℕ) → k < n → w.next (units k) ≡ units (suc k)
  pub runs :
      (k : ℕ)
      → suc k < n
      → w.contiguous (units k) (units (suc k)) ≡ true
      → ((units (suc k)).alloc_unit ≡ (units k).alloc_unit + 1)
        × ((units (suc k)).sector ≡ (units k).sector + w.sectors_per_alloc_unit)
  pub ends : (k : ℕ) → suc k ≡ n → w.contiguous (units k) (units (suc k)) ≡ false
  pub valid : (k : ℕ) → k < n → w.valid (units k) ≡ true
  pub marked : w.is_eof (units n) ≡ true

-- The byte of the file at a place.
abbrev pub content : Array ℕ → (ℕ → Location) → ℕ → ℕ → Array ℕ
content disk units size sect i = disk ((units (i / size)).sector * sect + i % size)

-- A run of the chain from unit k on.
pub record IsRun (w : Walk) (units : ℕ → Location) (n k fuel : ℕ) : Type 0 where
  pub more : ℕ
  pub inside : k + more < n
  pub found : last_contiguous fuel w.next w.contiguous (units k) ≡ ok (units (k + more))
  pub last_unit : (units (k + more)).alloc_unit ≡ (units k).alloc_unit + more
  pub in_row :
      (t : ℕ) → t ≤ more → (units (k + t)).sector ≡ (units k).sector + t * w.sectors_per_alloc_unit

module _ (f : ℕ) (next : Location → Location) (contiguous : Location → Location → Bool)
    (l : Location) where
  last_stops : contiguous l (next l) ≡ false → last_contiguous (suc f) next contiguous l ≡ ok l
  unfolding last_contiguous
  last_stops e = ground arith

  last_goes_on :
      contiguous l (next l) ≡ true
      → last_contiguous (suc f) next contiguous l ≡ last_contiguous f next contiguous (next l)
  unfolding last_contiguous
  last_goes_on e = ground arith

module _ {w : Walk} {units : ℕ → Location} {n size sect : ℕ} (c : IsChain w units n size sect) where
  alone :
      (k f : ℕ) → k < n → w.contiguous (units k) (units (suc k)) ≡ false → IsRun w units n k (suc f)
  alone k f lt e =
      let same : k + 0 ≡ k = omega arith in
      record {
        more = 0;
        inside = omega arith;
        found =
            last_stops f w.next w.contiguous (units k)
              (ap (w.contiguous (units k)) (c.steps k lt) ∙ e)
            ∙ ap (λ i. ok (units i)) (sym same);
        last_unit = ap (λ i. (units i).alloc_unit) same ∙ omega arith;
        in_row = λ t le.
            let none_left : t ≡ 0 = omega arith in
            rw none_left (ap (λ i. (units i).sector) same ∙ omega arith);
      }

  longer :
      (k f : ℕ)
      → suc k < n
      → w.contiguous (units k) (units (suc k)) ≡ true
      → IsRun w units n (suc k) f
      → IsRun w units n k (suc f)
  longer k f lt e r =
      let same : suc k + r.more ≡ k + suc r.more = omega arith in
      let (unit, sector) = c.runs k lt e in
      record {
        more = suc r.more;
        inside = omega (arith, r.inside);
        found =
            last_goes_on f w.next w.contiguous (units k)
              (ap (w.contiguous (units k)) (c.steps k (omega arith)) ∙ e)
            ∙ (ap (last_contiguous f w.next w.contiguous) (c.steps k (omega arith))
                ∙ (r.found ∙ ap (λ i. ok (units i)) same));
        last_unit = ap (λ i. (units i).alloc_unit) (sym same) ∙ (r.last_unit ∙ omega (arith, unit));
        in_row = row;
      }
    where
      row :
          (t : ℕ)
          → t ≤ suc r.more
          → (units (k + t)).sector ≡ (units k).sector + t * w.sectors_per_alloc_unit
      row zero le =
          let here : k + zero ≡ k = omega arith in ap (λ i. (units i).sector) here ∙ omega arith
      row (suc t) le =
          let step = (c.runs k lt e).1 in
          let here : k + suc t ≡ suc k + t = omega arith in
          ap (λ i. (units i).sector) here ∙ (r.in_row t (omega arith) ∙ grind (arith, step))

  pub chain-IsRun : (d f k : ℕ) → k + suc d ≡ n → d ≤ f → IsRun w units n k (suc f)
  chain-IsRun zero f k e le = alone k f (omega arith) (c.ends k (omega arith))
  chain-IsRun (suc d) zero k e le = absurd (omega arith)
  chain-IsRun (suc d) (suc f) k e le = elim (Bool-cases (w.contiguous (units k) (units (suc k)))) [
    | inl on ↦
        longer k (suc f) (omega arith) on (chain-IsRun d f (suc k) (omega arith) (omega arith))
    | inr off ↦ alone k (suc f) (omega arith) off
  ]
