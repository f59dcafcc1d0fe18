-- ===== src/Runloop/Delivery.antt =====
-- `k_runloop_dispatch` (src/system/kernel/runloop/runloop.c): what becomes of a promised slot, and the way of
-- one event through reserve, dispatch and the two fetches.
use gunw_os.Prelude.Outcome.{ok, done}
use gunw_os.Prelude.{
  ℕ, zero, suc, ◌+◌, ◌%◌, ◌≤◌, ◌<◌, ◌≡◌, refl, ◌≢◌, Bool, true, false, Option, some, List, [], ◌∷◌,
  ◌∙◌, ap, subst, arith, Array, update, length, if◌then◌else◌, ◌==◌,
}
use gunw_os.Runloop.{
  RunLoop, RunLoopDispatchItem, DispatchItem, reserve, pending_item, pending_item_data,
  is_item_empty, copied, gef_none, accept, fill,
}
use gunw_os.Runloop.Ring.{
  Holds, Held, slot, promised, slot-update, reserve_lem, reserved_in, Held-frame,
}
use gunw_os.Runloop.Events.{Refines, front_item, front_data, pending_item-Refines}
use gunw_os.Runloop.Events.{pending_item_data-Refines}

-- The list with the item at a place exchanged.
abbrev pub set : List DispatchItem → ℕ → DispatchItem → List DispatchItem
set [] k v = []
set (d ∷ ds) zero v = v ∷ ds
set (d ∷ ds) (suc k) v = d ∷ set ds k v

length-set : (ds : List DispatchItem) (k : ℕ) (v : DispatchItem) → length (set ds k v) ≡ length ds
length-set [] k v = refl
length-set (d ∷ ds) zero v = refl
length-set (d ∷ ds) (suc k) v = ap suc (length-set ds k v)

Held-set :
    (f g : ℕ → DispatchItem) (i k : ℕ) (v : DispatchItem) (ds : List DispatchItem)
    → v.reserved ≡ true
    → ((j : ℕ) → i ≤ j → j < i + length ds → g j ≡ (if i + k == j then v else f j))
    → Held f i ds
    → Held g i (set ds k v)
Held-set f g i k v [] r same h = tt
Held-set f g i zero v (d ∷ ds) r same h = (
  ground (arith, same i (omega arith) (omega arith)),
  r,
  Held-frame f g (i + 1) ds (λ j a b. ground (arith, same j (omega arith) (omega arith))) h.2,
)
Held-set f g i (suc k) v (d ∷ ds) r same h = (
  ground (arith, same i (omega arith) (omega arith), h.0),
  h.1,
  Held-set f g (i + 1) k v ds r (λ j a b. ground (arith, same j (omega arith) (omega arith))) h.2,
)

abbrev pub place : RunLoop → ℕ → ℕ
place l k = (l.finished_index + 1 + k) % 8

-- Another content for the slot at place `k`.
pub set-Holds :
    (l : RunLoop) (k : ℕ) (v : DispatchItem) (ds : List DispatchItem)
    → k < length ds
    → v.reserved ≡ true
    → Holds l ds
    → Holds (record l { queue = update l.queue (place l k) v }) (set ds k v)
set-Holds l k v ds lt r h = record {
  finished_lt = h.finished_lt;
  end_eq = rw (length-set ds k v) h.end_eq;
  count = rw (length-set ds k v) h.count;
  held =
      Held-set (slot l) _ 0 k v ds r (λ j a b. ground (arith, changed j (omega (arith, h.count))))
        h.held;
  free = λ j a b.
      ground (arith, length-set ds k v, changed j b, h.free j (omega (arith, length-set ds k v)) b);
}
  where
    changed :
        (j : ℕ)
        → j < 8
        → update l.queue (place l k) v (place l j) ≡ (if k == j then v else slot l j)
    changed j b = slot-update l.queue l.finished_index k j v (omega (arith, h.count)) b

-- A slot that has been delivered to, with the mark of `dataHandled` that `accept` gives.
abbrev pub delivered : RunLoopDispatchItem → Bool → Array ℕ → DispatchItem
delivered item data_handled bytes = record {
  reserved = true;
  handled = false;
  data_handled = data_handled;
  item = item;
  bytes = bytes;
}

abbrev blank : Array ℕ
blank = λ _. 0

module _ {D : Type 0} (item : RunLoopDispatchItem) (data_ptr : Option D)
    (encode : Option D → Array ℕ → Array ℕ) where
  filled : RunLoop → ℕ → Bool → RunLoop
  filled l k b = record l {
    queue = update l.queue (place l k) (delivered item b (encode data_ptr blank));
  }

  fill-promised :
      (l : RunLoop) (token : ℕ) (b : Bool)
      → l.queue token ≡ promised
      → accept item data_ptr true false ≡ ok b
      → fill token item data_ptr (some encode) l
        ≡ ok (record l { queue = update l.queue token (delivered item b (encode data_ptr blank)) })
  unfolding fill
  fill-promised l token b e a = simp (fill, e, a)

  -- An accepted event for a promised slot of a ring is stored in that slot, its data as encoded,
  -- and nowhere else.
  pub fill_lem :
      (l : RunLoop) (ds : List DispatchItem) (k : ℕ) (b : Bool)
      → Holds l ds
      → k < length ds
      → slot l k ≡ promised
      → accept item data_ptr true false ≡ ok b
      → (r : RunLoop) × (fill (place l k) item data_ptr (some encode) l ≡ ok r)
        × Holds r (set ds k (delivered item b (encode data_ptr blank)))
  fill_lem l ds k b h lt e a = (
    record l { queue = update l.queue (place l k) (delivered item b (encode data_ptr blank)) },
    fill-promised l (place l k) b e a,
    set-Holds l k (delivered item b (encode data_ptr blank)) ds lt refl h,
  )

  abbrev sent : DispatchItem
  sent = delivered item false (encode data_ptr blank)

  abbrev sent_handled : DispatchItem
  sent_handled = record sent { handled = true }

  sent_full : item.format ≢ gef_none → is_item_empty sent ≡ false
  sent_full f = ground arith

  item_fetched :
      (l : RunLoop)
      → Holds l (sent ∷ [])
      → item.format ≢ gef_none
      → (r : RunLoop) × (pending_item l ≡ done (item, r)) × Holds r (sent_handled ∷ [])
  unfolding front_item
  item_fetched l h f =
      let e : front_item (sent ∷ []) ≡ done (item, sent_handled ∷ []) = simp (sent_full f) in
      subst (Refines (pending_item l)) e (pending_item-Refines l (sent ∷ []) h)

  data_fetched :
      (l : RunLoop)
      → Holds l (sent_handled ∷ [])
      → item.format ≢ gef_none
      → (r : RunLoop) × (pending_item_data l
          ≡ done (copied (encode data_ptr blank) 0 item.data_size_bytes, r))
        × Holds r []
  unfolding front_data
  data_fetched l h f =
      let bytes = copied (encode data_ptr blank) 0 item.data_size_bytes in
      let e : front_data (sent_handled ∷ []) ≡ done (bytes, []) = simp (sent_full f) in
      subst (Refines (pending_item_data l)) e (pending_item_data-Refines l (sent_handled ∷ []) h)

  -- An accepted event with data that goes through an idle run loop by reserve, dispatch and the
  -- two fetches comes out as it was sent, with its data as encoded, and leaves the run loop idle.
  pub event_round_trip :
      (l : RunLoop)
      → Holds l []
      → accept item data_ptr true false ≡ ok false
      → item.format ≢ gef_none
      → (token : ℕ) × (l₁ : RunLoop) × (l₂ : RunLoop) × (l₃ : RunLoop) × (l₄ : RunLoop) × (reserve l
          ≡ done (token, l₁))
        × (fill token item data_ptr (some encode) l₁ ≡ ok l₂)
        × (pending_item l₂ ≡ done (item, l₃))
        × (pending_item_data l₃ ≡ done (copied (encode data_ptr blank) 0 item.data_size_bytes, l₄))
        × Holds l₄ []
  event_round_trip l h a f =
      let l₁ = reserved_in l ((l.end_index + 1) % 8) in
      let (reserved, _, h₁) = reserve_lem l [] h (omega arith) in
      let token_eq : (l.end_index + 1) % 8 ≡ place l₁ 0 = omega (arith, h.end_eq) in
      let (l₂, stored, h₂) = fill_lem l₁ (promised ∷ []) 0 false h₁ (omega arith) h₁.held.0 a in
      let (l₃, fetched, h₃) = item_fetched l₂ h₂ f in
      let (l₄, read, h₄) = data_fetched l₃ h₃ f in
      (
        place l₁ 0,
        l₁,
        l₂,
        l₃,
        l₄,
        reserved ∙ ap (λ t. done (t, l₁)) token_eq,
        stored,
        fetched,
        read,
        h₄,
      )
