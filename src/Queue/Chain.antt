-- ===== src/Queue/Chain.antt =====
-- The chain of `next` pointers in the slots of src/system/kernel/queue/queue.c.
use gunw_os.Prelude.Outcome.{ok}
use gunw_os.Prelude.{
  ℕ, zero, suc, ◌<◌, ◌≡◌, refl, ◌≢◌, true, Option, none, some, List, [], ◌∷◌, ◌++◌, map, arith,
  Array, contains, Distinct, last, length, contains-last,
}
use gunw_os.Queue.{DispatchEntry, Call, last_entry, call_of_func}

module _ {F : Type 0} where
  -- From `start` the pointers lead through just the slots `is`, in order.
  abbrev pub Linked : Array (DispatchEntry F) → Option ℕ → List ℕ → Type 0
  Linked es start [] = start ≡ none
  Linked es start (i ∷ is) = (start ≡ some i) × Linked es (es i).next is

  -- The calls that the slots `is` hold.
  abbrev pub calls : Array (DispatchEntry F) → List ℕ → List (Option (Call F))
  calls es = map (λ i. call_of_func (es i).func)

  -- With as much fuel as there are slots in the chain the walk finds the last of them.
  pub last_entry-eq-last :
      (fuel : ℕ) (es : Array (DispatchEntry F)) (x : ℕ) (xs : List ℕ)
      → Linked es (es x).next xs
      → length xs < fuel
      → last_entry fuel es x ≡ ok (last x xs)
  unfolding last_entry
  last_entry-eq-last zero es x xs h lt = absurd (omega arith)
  last_entry-eq-last (suc fuel) es x [] h lt = rw (h, last_entry)
  last_entry-eq-last (suc fuel) es x (y ∷ ys) h lt =
      rw (h.0, last_entry) (last_entry-eq-last fuel es y ys h.1 (omega arith))

  -- A change that leaves the pointers of the chain's slots alone keeps the chain.
  pub Linked-frame :
      (es fs : Array (DispatchEntry F)) (start : Option ℕ) (is : List ℕ)
      → ((j : ℕ) → contains j is ≡ true → (fs j).next ≡ (es j).next)
      → Linked es start is
      → Linked fs start is
  Linked-frame es fs start [] same h = h
  Linked-frame es fs start (i ∷ is) same h = (
    h.0,
    rw (same i (ground arith))
        (Linked-frame es fs (es i).next is (λ j e. same j (ground arith)) h.1),
  )

  -- A last slot whose pointer is set to `i`, with nothing behind `i`, makes the chain longer by `i`.
  pub Linked-append :
      (es fs : Array (DispatchEntry F)) (start : Option ℕ) (x i : ℕ) (xs : List ℕ)
      → ((j : ℕ) → contains j (x ∷ xs) ≡ true → j ≢ last x xs → (fs j).next ≡ (es j).next)
      → (fs (last x xs)).next ≡ some i
      → (fs i).next ≡ none
      → Distinct (x ∷ xs)
      → Linked es start (x ∷ xs)
      → Linked fs start ((x ∷ xs) ++ i ∷ [])
  Linked-append es fs start x i [] same l e d h = (h.0, (l, e))
  Linked-append es fs start x i (y ∷ ys) same l e d h = (
    h.0,
    rw (same x (ground arith) apart)
        (Linked-append es fs (es x).next y i ys (λ j m. same j (ground arith)) l e d.1 h.1),
  )
    where
      apart : x ≢ last y ys
      apart e = ground (arith, contains-last y ys)

  pub calls-frame :
      (es fs : Array (DispatchEntry F)) (is : List ℕ)
      → ((j : ℕ) → contains j is ≡ true → (fs j).func ≡ (es j).func)
      → calls fs is ≡ calls es is
  calls-frame es fs [] same = refl
  calls-frame es fs (i ∷ is) same =
      ground (arith, same i (ground arith), calls-frame es fs is (λ j e. same j (ground arith)))
