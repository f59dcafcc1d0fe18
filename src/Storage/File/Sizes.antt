-- ===== src/Storage/File/Sizes.antt =====
-- src/system/kernel/storage/file.c: the arithmetic of allocation units in `loadFile`.
use native.Mathlib.Nat.{
  mul_assoc, mul-le-mul_right, le-mul_of_pos_right, div-add-mod', le-div_iff_mul-le,
  div-lt_iff_lt-mul,
}
use gunw_os.Prelude.{
  ℕ, zero, suc, ◌+◌, ◌-◌, ◌*◌, ◌/◌, ◌%◌, ◌≤◌, ◌<◌, ◌≡◌, ◌∙◌, refl, sym, ap, subst, Bool, true,
  false, ◌&&◌, ltb, sub_word, arith,
}

-- A place behind the start of a run.
pub place :
    (spau sect sector t r : ℕ)
    → sector * sect + (t * (spau * sect) + r) ≡ (sector + t * spau) * sect + r
place spau sect sector t r = grind arith

-- The unit of a place.
pub unit_of :
    (size k more i : ℕ)
    → 0 < size
    → k * size ≤ i
    → i < (k + suc more) * size
    → (t : ℕ) × (t ≤ more) × (i / size ≡ k + t) × (i - k * size ≡ t * size + i % size)
unit_of size k more i pos lo hi =
    let whole = div-add-mod' i size in
    let above : k ≤ i / size = (le-div_iff_mul-le pos).1 lo in
    let below : i / size < k + suc more = (div-lt_iff_lt-mul pos).1 hi in
    let split : (k + (i / size - k)) * size ≡ k * size + (i / size - k) * size = grind arith in
    let same : k + (i / size - k) ≡ i / size = omega arith in
    (
      i / size - k,
      omega arith,
      omega arith,
      omega (arith, whole, ap (λ (q : ℕ). q * size) same, split),
    )

-- The sizes of a run of so many units from unit k on.
pub record Sizes (n size sect spau k u : ℕ) : Type 0 where
  pub sum : k * size + u * size ≡ (k + u) * size
  pub whole : (k + u) * size ≤ n * size
  pub few : n ≤ n * size
  pub sectors : u * spau ≤ u * size
  pub read : u * spau * sect ≡ u * size
  pub enough : u ≤ (n * size - k * size) / size

sect_pos : (spau sect : ℕ) → 0 < spau * sect → 0 < sect
sect_pos spau zero h = absurd (omega arith)
sect_pos spau (suc sect) h = omega arith

pub run-Sizes :
    (n size sect spau k u : ℕ)
    → 0 < size
    → size ≡ spau * sect
    → k + u ≤ n
    → Sizes n size sect spau k u
run-Sizes n size sect spau k u pos e le =
    let sum : k * size + u * size ≡ (k + u) * size = grind arith in
    let whole : (k + u) * size ≤ n * size = mul-le-mul_right size le in
    let read : u * spau * sect ≡ u * size = mul_assoc u spau sect ∙ ap (λ b. u * b) (sym e) in
    let sect_some : 0 < sect = sect_pos spau sect (subst (λ b. 0 < b) e pos) in
    record {
      sum = sum;
      whole = whole;
      few = le-mul_of_pos_right n pos;
      sectors = omega (arith, le-mul_of_pos_right (u * spau) sect_some, read);
      read = read;
      enough = (le-div_iff_mul-le pos).1 (omega arith);
    }

pub fits_left :
    {n size sect spau k u : ℕ} (expected bytes : ℕ)
    → Sizes n size sect spau k u
    → n * size < 4294967296
    → expected ≡ n * size
    → bytes ≡ size
    → ltb (sub_word expected (k * size) / bytes) u ≡ false
fits_left {n} {size} {sect} {spau} {k} {u} expected bytes z lt e b =
    let same : sub_word (n * size) (k * size) ≡ n * size - k * size =
      ground (arith, z.sum, z.whole) in
    rw e (rw b (ground (arith, z.enough, same)))

pub stops_at : (b : Bool) (k n size : ℕ) → k ≡ n → (b && ltb (k * size) (n * size)) ≡ false
stops_at true k n size e = rw e (ground arith)
stops_at false k n size e = refl
