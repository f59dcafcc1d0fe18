-- ===== src/Storage/File/Content.antt =====
-- src/system/kernel/storage/file.c: what `loadFile` loads of a sound chain on a disk.
use native.Mathlib.Nat.{mul-lt-mul_of_pos_right, mul-le-mul_right}
use gunw_os.Prelude.Outcome.{Outcome, ok, done, ensures_result}
use gunw_os.Prelude.{
  ℕ, zero, suc, ◌+◌, ◌-◌, ◌*◌, ◌/◌, ◌%◌, ◌≤◌, ◌<◌, ◌≡◌, ◌∙◌, refl, sym, ap, subst, Bool, true,
  false, ◌&&◌, Array, leb, ltb, ◌==◌, if◌then◌else◌, none, word, sub_word, dec_lt, arith,
}
use gunw_os.Fat12.{Location}
use gunw_os.Storage.Volumes.{Files, k_stor_volume_read_sector}
use gunw_os.Storage.File.Within.{load_chain-Keeps}
use gunw_os.Storage.File.{Walk, Loaded, written, last_contiguous, end_of_load, load_chain}
use gunw_os.Storage.File.Chain.{IsChain, content, IsRun, chain-IsRun}
use gunw_os.Storage.File.Sizes.{place, unit_of, run-Sizes, fits_left, stops_at}

-- The reads of a drive with this disk succeed, to a buffer that has room for what is read.
abbrev pub Reads : {S : Type 0} → ℕ → ℕ → Array ℕ → (Files S → Type 0) → Type 0
Reads {S} volume sect disk Good =
    (lba count room : ℕ) (m : Files S)
    → Good m
    → lba * sect < 4294967296
    → count * sect + sect + sect < 4294967296
    → count * sect ≤ room
    → (buffer : Array ℕ) × (m' : Files S) × (k_stor_volume_read_sector volume lba count room m
        ≡ ok (done buffer, m'))
      × Good m'
      × ((i : ℕ) → i < count * sect → buffer i ≡ disk (lba * sect + i))

-- What a load leaves that adds the bytes of a file between two places.
pub record IsLoaded {S : Type 0} (Good : Files S → Type 0) (file : Array ℕ) (from to : ℕ)
    (dst : Array ℕ) (o : Outcome (Loaded S)) : Type 0 where
  pub bytes : Array ℕ
  pub after : Files S
  pub returns : o ≡ ok (none, bytes, after)
  pub good : Good after
  pub loaded : (i : ℕ) → from ≤ i → i < to → bytes i ≡ file i
  pub before : (i : ℕ) → i < from → bytes i ≡ dst i

-- A round of the loop that reads a run.
load_round :
    {S : Type 0} (f rf volume : ℕ) (w : Walk) (l last l' : Location) (total units bytes total' : ℕ)
    (dst buffer : Array ℕ) (m m' : Files S) (on : Bool)
    → last_contiguous rf w.next w.contiguous l ≡ ok last
    → word (last.alloc_unit - l.alloc_unit + 1) ≡ units
    → word (units * l.size_bytes) ≡ bytes
    → ltb last.alloc_unit l.alloc_unit ≡ false
    → (l.size_bytes == 0) ≡ false
    → ltb (sub_word w.expected_bytes total / l.size_bytes) units ≡ false
    → k_stor_volume_read_sector volume l.sector (word (units * w.sectors_per_alloc_unit)) bytes m
      ≡ ok (done buffer, m')
    → w.next last ≡ l'
    → word (total + bytes) ≡ total'
    → ltb total' w.expected_bytes ≡ on
    → load_chain (suc f) rf volume w l total dst m ≡ (
        if w.valid l' && on
        then load_chain f rf volume w l' total' (written buffer total bytes dst) m'
        else ok (end_of_load w l' total' (written buffer total bytes dst) m'))
unfolding load_chain
load_round f rf volume w l last l' total units bytes total' dst buffer m m' on run u b a z e r n t
      o =
    rw run (rw a (rw z (rw u (rw e (rw b (rw r (rw n (rw t (rw o refl)))))))))

module _ {w : Walk} {units : ℕ → Location} {n size sect : ℕ} (disk : Array ℕ) where
  -- The bytes of a run stand where the file has them.
  run_content :
      (c : IsChain w units n size sect) (k fuel : ℕ) (r : IsRun w units n k fuel)
      (buffer dst : Array ℕ)
      → ((i : ℕ) → i < suc r.more * size → buffer i ≡ disk ((units k).sector * sect + i))
      → (i : ℕ) → k * size ≤ i
      → i < (k + suc r.more) * size
      → written buffer (k * size) (suc r.more * size) dst i ≡ content disk units size sect i
  run_content c k fuel r buffer dst reads i lo hi =
      let (t, le, unit, at) = unit_of size k r.more i c.some_bytes lo hi in
      let sum : (k + suc r.more) * size ≡ k * size + suc r.more * size = grind arith in
      let inside : (leb (k * size) i && ltb i (k * size + suc r.more * size)) ≡ true =
        ground arith in
      let there : (units k).sector * sect + (i - k * size)
          ≡ (units (i / size)).sector * sect + i % size =
        ap (λ x. (units k).sector * sect + x) (at ∙ ap (λ b. t * b + i % size) c.sectors)
        ∙ place w.sectors_per_alloc_unit sect (units k).sector t (i % size)
        ∙ ap (λ x. x * sect + i % size)
            (sym (r.in_row t le) ∙ ap (λ q. (units q).sector) (sym unit)) in
      rw inside (reads (i - k * size) (omega arith) ∙ ap disk there)

  -- One round from unit k on: a run is read, and the load is over or goes on behind it.
  step_on :
      {S : Type 0} (volume : ℕ) {Good : Files S → Type 0} (c : IsChain w units n size sect)
      → Reads volume sect disk Good
      → (f rf k : ℕ) (dst : Array ℕ) (m : Files S) → k < n
      → n ≤ suc rf
      → Good m
      → (r : IsRun w units n k (suc rf)) × (buffer : Array ℕ) × (m' : Files S) × Good m'
        × ((i : ℕ) → i < suc r.more * size → buffer i ≡ disk ((units k).sector * sect + i))
        × (load_chain (suc f) (suc rf) volume w (units k) (k * size) dst m ≡ (
            if w.valid (units (k + suc r.more)) && ltb ((k + suc r.more) * size) (n * size)
            then load_chain f
                (suc rf)
                volume
                w
                (units (k + suc r.more))
                ((k + suc r.more) * size)
                (written buffer (k * size) (suc r.more * size) dst)
                m'
            else ok (
                end_of_load w
                  (units (k + suc r.more))
                  ((k + suc r.more) * size)
                  (written buffer (k * size) (suc r.more * size) dst)
                  m')))
  step_on volume c reads f rf k dst m lt enough good =
      let r = chain-IsRun c (n - suc k) rf k (omega arith) (omega arith) in
      let u = suc r.more in
      let spau = w.sectors_per_alloc_unit in
      let z = run-Sizes n size sect spau k u c.some_bytes c.sectors (omega (arith, r.inside)) in
      let count : word (u * spau) ≡ u * spau = omega (arith, z.sectors, z.sum, z.whole, c.bound) in
      let (buffer, m', got, good', bytes) =
        reads (units k).sector (u * spau) (u * size) m good (c.places k lt)
          (omega (arith, z.read, z.sum, z.whole, c.bound)) (omega (arith, z.read)) in
      let size_k = c.sizes k lt in
      let next_unit : suc (k + r.more) ≡ k + suc r.more = omega arith in
      let total : word (k * size + u * size) ≡ (k + u) * size =
        omega (arith, z.sum, z.whole, c.bound) in
      (
        r,
        buffer,
        m',
        good',
        λ i h. bytes i (omega (arith, z.read)),
        load_round f (suc rf) volume w (units k) (units (k + r.more)) (units (k + suc r.more))
            (k * size) u (u * size) ((k + u) * size) dst buffer m m'
            (ltb ((k + u) * size) (n * size)) r.found
            (omega (arith, r.last_unit, z.few, r.inside, c.bound))
            (ap (λ b. word (u * b)) size_k ∙ omega (arith, z.sum, z.whole, c.bound))
            (ground (arith, r.last_unit)) (ground (arith, c.some_bytes, size_k))
            (fits_left w.expected_bytes (units k).size_bytes z (omega (arith, c.bound)) c.expected
              size_k)
            (ap (λ x. k_stor_volume_read_sector volume (units k).sector x (u * size) m) count ∙ got)
            (c.steps (k + r.more) r.inside ∙ ap units next_unit) total
            (ap (λ e. ltb ((k + u) * size) e) c.expected),
      )

  -- The load ends with the last unit.
  end_of_file :
      {S : Type 0} (c : IsChain w units n size sect) (k : ℕ) (dst : Array ℕ) (m : Files S)
      → k ≡ n
      → end_of_load w (units k) (k * size) dst m ≡ (none, dst, m)
  end_of_file c k dst m e = rw e (ground (arith, c.marked, c.expected))

  load_from :
      {S : Type 0} (volume : ℕ) {Good : Files S → Type 0} (c : IsChain w units n size sect)
      → Reads volume sect disk Good
      → (f rf k : ℕ) (dst : Array ℕ) (m : Files S) → k < n
      → n ≤ k + f
      → n ≤ suc rf
      → Good m
      → IsLoaded Good
          (content disk units size sect)
          (k * size)
          (n * size)
          dst
          (load_chain f (suc rf) volume w (units k) (k * size) dst m)
  load_from volume c reads zero rf k dst m lt fuel enough good = absurd (omega arith)
  load_from volume c reads (suc f) rf k dst m lt fuel enough good =
      let (r, buffer, m', good', bytes, e) = step_on volume c reads f rf k dst m lt enough good in
      let k' = k + suc r.more in
      let dst' = written buffer (k * size) (suc r.more * size) dst in
      let new = run_content c k (suc rf) r buffer dst bytes in
      let old : (i : ℕ) → i < k * size → dst' i ≡ dst i = λ i h. ground arith in
      let sum : k * size ≤ k' * size = mul-le-mul_right size (omega arith) in
      elim (dec_lt k' n) [
        | yes on ↦
            let rest = load_from volume c reads f rf k' dst' m' on (omega arith) enough good' in
            let more : (w.valid (units k') && ltb (k' * size) (n * size)) ≡ true =
              ground (arith, c.valid k' on, mul-lt-mul_of_pos_right on c.some_bytes) in
            record {
              bytes = rest.bytes;
              after = rest.after;
              returns = e ∙ (rw more refl ∙ rest.returns);
              good = rest.good;
              loaded = λ i lo hi. elim (dec_lt i (k' * size)) [
                | yes below ↦ rest.before i below ∙ new i lo below
                | no above ↦ rest.loaded i (omega arith) hi
              ];
              before = λ i h. rest.before i (omega arith) ∙ old i h;
            }
        | no over ↦
            let last : k' ≡ n = omega (arith, r.inside) in
            let stop : (w.valid (units k') && ltb (k' * size) (n * size)) ≡ false =
              stops_at (w.valid (units k')) k' n size last in
            record {
              bytes = dst';
              after = m';
              returns = e ∙ (rw stop (ap ok (end_of_file c k' dst' m' last)));
              good = good';
              loaded = λ i lo hi. new i lo (subst (λ b. i < b * size) (sym last) hi);
              before = old;
            }
      ]

  -- On a chain of allocation units of equal size whose end is marked behind it, whose contiguous
  -- units lie behind one another on the disk, whose units fill their sectors and which the file
  -- fills, and with a drive whose reads succeed with the bytes of the disk, the loops of loadFile
  -- come back without an error, for fuel of at least as many rounds as the chain has units. The
  -- buffer then holds the bytes of the units in the order of the chain, and is unchanged behind
  -- them.
  pub load_chain-content :
      {S : Type 0} (volume : ℕ) {Good : Files S → Type 0}
      → IsChain w units n size sect
      → Reads volume sect disk Good
      → (fuel run_fuel : ℕ) (dst : Array ℕ) (m : Files S) → n ≤ fuel
      → n ≤ run_fuel
      → Good m
      → (bytes : Array ℕ) × (m' : Files S) × (load_chain fuel run_fuel volume w (units 0) 0 dst m
          ≡ ok (none, bytes, m'))
        × ((i : ℕ) → i < n * size → bytes i ≡ content disk units size sect i)
        × ((i : ℕ) → n * size ≤ i → bytes i ≡ dst i)
  load_chain-content volume c reads fuel zero dst m a b good = absurd (omega (arith, c.some_units))
  load_chain-content volume c reads fuel (suc rf) dst m a b good =
      let zero_bytes : 0 * size ≡ 0 = omega arith in
      let l = load_from volume c reads fuel rf 0 dst m c.some_units (omega arith) b good in
      let returns : load_chain fuel (suc rf) volume w (units 0) 0 dst m
          ≡ ok (none, l.bytes, l.after) =
        ap (λ t. load_chain fuel (suc rf) volume w (units 0) t dst m) (sym zero_bytes)
        ∙ l.returns in
      let keeps =
        ensures_result
          (load_chain-Keeps fuel (suc rf) volume w (units 0) 0 dst m (omega arith)
            (omega (arith, c.expected, c.bound)))
          returns in
      (
        l.bytes,
        l.after,
        returns,
        λ i h. l.loaded i (omega arith) h,
        λ i h. keeps i (omega (arith, c.expected)),
      )
