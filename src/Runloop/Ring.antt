-- ===== src/Runloop/Ring.antt =====
-- The slots of a run loop (src/system/kernel/runloop/runloop.c) as the list of the events that are reserved,
-- delivered or half fetched, oldest reservation first.
use gunw_os.Prelude.Outcome.{done, fails}
use gunw_os.Prelude.{
  ℕ, ◌+◌, ◌%◌, ◌≤◌, ◌<◌, ◌≡◌, refl, ◌≢◌, true, List, [], ◌∷◌, ◌++◌, ◌∙◌, ap, arith, Array, update,
  length, if◌then◌else◌, ◌==◌, length-append, ℕ_discrete,
}
use gunw_os.Runloop.{RunLoop, grle_full, DispatchItem, zero_item, reserve}

-- The slot `k` places behind the one that was finished last, less one.
abbrev pub slot : RunLoop → ℕ → DispatchItem
slot l k = l.queue ((l.finished_index + 1 + k) % 8)

abbrev pub Held : (ℕ → DispatchItem) → ℕ → List DispatchItem → Type 0
Held f k [] = Unit {0}
Held f k (d ∷ ds) = (f k ≡ d) × (d.reserved ≡ true) × Held f (k + 1) ds

-- The slots behind the finished one hold `ds`, all reserved; every other slot is zeroed.
pub record Holds (l : RunLoop) (ds : List DispatchItem) : Type 0 where
  pub finished_lt : l.finished_index < 8
  pub end_eq : l.end_index ≡ (l.finished_index + length ds) % 8
  pub count : length ds ≤ 8
  pub held : Held (slot l) 0 ds
  pub free : (k : ℕ) → length ds ≤ k → k < 8 → slot l k ≡ zero_item

pub Held-frame :
    (f g : ℕ → DispatchItem) (k : ℕ) (ds : List DispatchItem)
    → ((j : ℕ) → k ≤ j → j < k + length ds → g j ≡ f j)
    → Held f k ds
    → Held g k ds
Held-frame f g k [] same h = tt
Held-frame f g k (d ∷ ds) same h = (
  same k (omega arith) (omega arith) ∙ h.0,
  h.1,
  Held-frame f g (k + 1) ds (λ j a b. same j (omega arith) (omega arith)) h.2,
)

pub Held-shift :
    (f g : ℕ → DispatchItem) (k : ℕ) (ds : List DispatchItem)
    → ((j : ℕ) → k ≤ j → j < k + length ds → g j ≡ f (j + 1))
    → Held f (k + 1) ds
    → Held g k ds
Held-shift f g k [] same h = tt
Held-shift f g k (d ∷ ds) same h = (
  same k (omega arith) (omega arith) ∙ h.0,
  h.1,
  Held-shift f g (k + 1) ds (λ j a b. same j (omega arith) (omega arith)) h.2,
)

Held-append :
    (f : ℕ → DispatchItem) (k : ℕ) (d : DispatchItem) (ds : List DispatchItem)
    → Held f k ds
    → f (k + length ds) ≡ d
    → d.reserved ≡ true
    → Held f k (ds ++ d ∷ [])
Held-append f k d [] h e r = (ground (arith, e), r, tt)
Held-append f k d (x ∷ ds) h e r = (h.0, h.1, Held-append f (k + 1) d ds h.2 (ground (arith, e)) r)

-- The held items are found at their places.
pub Held-reserved :
    (f : ℕ → DispatchItem) (k j : ℕ) (ds : List DispatchItem)
    → Held f k ds
    → k ≤ j
    → j < k + length ds
    → (f j).reserved ≡ true
Held-reserved f k j [] h a b = absurd (omega arith)
Held-reserved f k j (d ∷ ds) h a b = elim (ℕ_discrete k j) [
  | yes here ↦ ground arith
  | no later ↦ Held-reserved f (k + 1) j ds h.2 (omega arith) (omega arith)
]

-- Writing the slot at place `n` changes that place only.
pub slot-update :
    (q : Array DispatchItem) (f n k : ℕ) (v : DispatchItem)
    → n < 8
    → k < 8
    → update q ((f + 1 + n) % 8) v ((f + 1 + k) % 8) ≡ (if n == k then v else q ((f + 1 + k) % 8))
slot-update q f n k v hn hk = elim (ℕ_discrete n k) [
  | yes same ↦ ground arith
  | no other ↦ ground (arith, apart other)
]
  where
    apart : n ≢ k → (f + 1 + n) % 8 ≢ (f + 1 + k) % 8
    apart ne e = omega arith

-- A slot that is promised to a caller and not filled yet.
abbrev pub promised : DispatchItem
promised = record zero_item { reserved = true }

abbrev pub reserved_in : RunLoop → ℕ → RunLoop
reserved_in l i = record l {
  queue = update l.queue i (record (l.queue i) { reserved = true });
  end_index = i;
}

module _ (l : RunLoop) (ds : List DispatchItem) (h : Holds l ds) where
  end_slot : (l.end_index + 1) % 8 ≡ (l.finished_index + 1 + length ds) % 8
  end_slot = omega (arith, h.end_eq)

  fresh_slot : length ds < 8 → l.queue ((l.end_index + 1) % 8) ≡ zero_item
  fresh_slot lt = ap l.queue end_slot ∙ h.free (length ds) (omega arith) lt

  reserved_slot :
      (k : ℕ)
      → length ds < 8
      → k < 8
      → slot (reserved_in l ((l.end_index + 1) % 8)) k
        ≡ (if length ds == k then promised else slot l k)
  reserved_slot k lt hk =
      rw (fresh_slot lt, end_slot)
        (slot-update l.queue l.finished_index (length ds) k promised lt hk)

  reserved_in-Holds :
      length ds < 8 → Holds (reserved_in l ((l.end_index + 1) % 8)) (ds ++ promised ∷ [])
  reserved_in-Holds lt = record {
    finished_lt = h.finished_lt;
    end_eq = omega (arith, h.end_eq, length-append {0} ds (promised ∷ []));
    count = omega (arith, length-append {0} ds (promised ∷ []));
    held =
        Held-append _ 0 promised ds
          (Held-frame (slot l) _ 0 ds
            (λ j a b. ground (arith, reserved_slot j lt (omega (arith, h.count)))) h.held)
          (ground (arith, reserved_slot (length ds) lt lt)) refl;
    free = λ k a b. ground (
      arith,
      length-append ds (promised ∷ []),
      reserved_slot k lt b,
      h.free k (omega (arith, length-append {0} ds (promised ∷ []))) b,
    );
  }

  -- On a ring with fewer than eight events a reservation hands out a zeroed slot, which goes
  -- behind all the others.
  pub reserve_lem :
      length ds < 8
      → let i = (l.end_index + 1) % 8 in
        (reserve l ≡ done (i, reserved_in l i))
        × (l.queue i ≡ zero_item)
        × Holds (reserved_in l i) (ds ++ promised ∷ [])
  unfolding reserve
  reserve_lem lt = (ground (arith, fresh_slot lt), fresh_slot lt, reserved_in-Holds lt)

  -- On a ring with eight events a reservation is refused as full.
  pub reserve_full : length ds ≡ 8 → reserve l ≡ fails grle_full
  unfolding reserve
  reserve_full full =
      ground
        (arith, end_slot, Held-reserved (slot l) 0 0 ds h.held (omega arith) (omega arith), wrap)
    where
      wrap : (l.finished_index + 1 + length ds) % 8 ≡ (l.finished_index + 1 + 0) % 8
      wrap = omega arith
