-- ===== src/Fat12/Entries.antt =====
-- driver/fat12/fat12.c: `nextCluster` against the packing of 12-bit entries, two in three bytes.
use gunw_os.Prelude.{
  ℕ, ◌+◌, ◌*◌, ◌/◌, ◌%◌, ◌<◌, ◌≡◌, ◌∙◌, ap, sym, Array, ◌==◌, if◌then◌else◌, arith, Bool-cases, inl,
  inr, word,
}
use gunw_os.Fat12.{next_cluster}

-- The bytes of a table: entry 2k is the low 12 bits of the three bytes at 3k, and entry 2k + 1 is
-- their high 12 bits.
abbrev pub packed : Array ℕ → Array ℕ
packed e i =
    if i % 3 == 0
    then e (2 * (i / 3)) % 256
    else if i % 3 == 1
    then e (2 * (i / 3)) / 256 + e (2 * (i / 3) + 1) % 16 * 16
    else e (2 * (i / 3) + 1) / 16

abbrev Is12Bit : Array ℕ → Type 0
Is12Bit e = (i : ℕ) → e i < 4096

module _ (e : Array ℕ) where
  packed-first : (k : ℕ) → packed e (3 * k) ≡ e (2 * k) % 256
  packed-first k =
      let d : 3 * k / 3 ≡ k = omega arith in let m : 3 * k % 3 ≡ 0 = omega arith in rw (m, d)

  packed-middle : (k : ℕ) → packed e (3 * k + 1) ≡ e (2 * k) / 256 + e (2 * k + 1) % 16 * 16
  packed-middle k =
      let d : (3 * k + 1) / 3 ≡ k = omega arith in
      let m : (3 * k + 1) % 3 ≡ 1 = omega arith in rw (m, d)

  packed-last : (k : ℕ) → packed e (3 * k + 2) ≡ e (2 * k + 1) / 16
  packed-last k =
      let d : (3 * k + 2) / 3 ≡ k = omega arith in
      let m : (3 * k + 2) % 3 ≡ 2 = omega arith in rw (m, d)

next_cluster-even :
    (fat : Array ℕ) (k : ℕ)
    → k < 21845
    → next_cluster fat (2 * k) ≡ fat (3 * k + 1) % 16 * 256 + fat (3 * k)
unfolding next_cluster
next_cluster-even fat k h =
    let i : word (3 * (2 * k)) / 2 % 65536 ≡ 3 * k = omega arith in
    let m : 2 * k % 2 ≡ 0 = omega arith in rw (m, i)

next_cluster-odd :
    (fat : Array ℕ) (k : ℕ)
    → k < 21845
    → next_cluster fat (2 * k + 1) ≡ fat (3 * k + 1 + 1) * 16 + fat (3 * k + 1) / 16
unfolding next_cluster
next_cluster-odd fat k h =
    let i : word (3 * (2 * k + 1)) / 2 % 65536 ≡ 3 * k + 1 = omega arith in
    let m : (2 * k + 1) % 2 ≡ 1 = omega arith in rw (m, i)

-- From a table that packs 12-bit entries two in three bytes, nextCluster reads back the entry of
-- each cluster below 43690.
pub next_cluster-packed :
    (e : Array ℕ) (c : ℕ) → Is12Bit e → c < 43690 → next_cluster (packed e) c ≡ e c
next_cluster-packed e c b h = elim (Bool-cases (c % 2 == 0)) [
  | inl even ↦
      let k : c ≡ 2 * (c / 2) = ground arith in
      ap (next_cluster (packed e)) k
      ∙ (next_cluster-even (packed e) (c / 2) (omega arith)
          ∙ (rw (packed-middle e (c / 2), packed-first e (c / 2))
                (omega (arith, b (2 * (c / 2)), b (2 * (c / 2) + 1)))
              ∙ ap e (sym k)))
  | inr odd ↦
      let k : c ≡ 2 * (c / 2) + 1 = ground arith in
      ap (next_cluster (packed e)) k
      ∙ (next_cluster-odd (packed e) (c / 2) (omega arith)
          ∙ (rw (packed-middle e (c / 2), last (c / 2))
                (omega (arith, b (2 * (c / 2)), b (2 * (c / 2) + 1)))
              ∙ ap e (sym k)))
]
  where
    last : (k : ℕ) → packed e (3 * k + 1 + 1) ≡ e (2 * k + 1) / 16
    last k = let i : 3 * k + 1 + 1 ≡ 3 * k + 2 = omega arith in ap (packed e) i ∙ packed-last e k
