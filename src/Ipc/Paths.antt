-- ===== src/Ipc/Paths.antt =====
-- src/system/kernel/ipc/utility.c: what a path is, and which listener a path finds.
use gunw_os.Prelude.Int.{pos, eq_ℤ, eq_ℤ_iff}
use gunw_os.Prelude.{
  ℕ, zero, suc, ◌+◌, ◌-◌, ◌%◌, ◌^◌, ◌<◌, ◌≤◌, ◌≡◌, ◌≢◌, ◌↔◌, refl, arith, Bool, true, false, not,
  ◌&&◌, ◌||◌, Array, first_hit, first_miss, first-le, le-first, ltb, ◌==◌, if◌then◌else◌,
  ℕ_discrete,
}
use gunw_os.Text.{strcmpl, strcmpl_lem}
use gunw_os.Ipc.{
  PathData, IpcListener, max_ipc_listener, separator, is_path_char, validate_from,
  path_global_validate, next_listener_index_for_path,
}

-- A letter, a digit or a separator, and not a second separator in a row.
abbrev ok_at : Array ℕ → ℕ → Bool
ok_at ptr i =
    is_path_char (ptr i) && not ((ptr i == separator) && ltb 0 i && (ptr (i - 1) == separator))

-- What the loop remembers: whether the byte before is a separator.
abbrev Remembers : Array ℕ → ℕ → Bool → ℕ → Type 0
Remembers ptr i has last =
    (has ≡ true → last < i)
    × (((last == (i + 2 ^ 32 - 1) % 2 ^ 32) && has) ≡ (ltb 0 i && (ptr (i - 1) == separator)))

wrapped : (i : ℕ) → i + 1 < 2 ^ 32 → (i + 1 + 2 ^ 32 - 1) % 2 ^ 32 ≡ i
wrapped i b = omega arith

Remembers-suc :
    (ptr : Array ℕ) (i : ℕ) (has : Bool) (last : ℕ)
    → i + 1 < 2 ^ 32
    → Remembers ptr i has last
    → Remembers ptr (i + 1) (has || (ptr i == separator)) (if ptr i == separator then i else last)
Remembers-suc ptr i false last b (l, r) = (ground arith, ground (arith, wrapped i b))
Remembers-suc ptr i true last b (l, r) = (ground arith, ground (arith, wrapped i b))

validate_from-suc :
    (ptr : Array ℕ) (n i : ℕ) (has : Bool) (last : ℕ)
    → Remembers ptr i has last
    → ((validate_from ptr
            (i + 1)
            (has || (ptr i == separator))
            (if ptr i == separator then i else last)
            n
          ≡ true)
        ↔ ((j : ℕ) → i + 1 ≤ j → j < i + 1 + n → ok_at ptr j ≡ true))
    → (validate_from ptr i has last (suc n) ≡ true)
      ↔ ((j : ℕ) → i ≤ j → j < i + suc n → ok_at ptr j ≡ true)
unfolding validate_from
validate_from-suc ptr n i has last r rest = (
  λ e j h k. elim (ℕ_discrete i j) [
    | yes here ↦ rw (← here) (ground (arith, r.1))
    | no later ↦ rest.0 (ground arith) j (omega arith) (omega arith)
  ],
  λ all. ground (
    arith,
    r.1,
    all i (omega arith) (omega arith),
    rest.1 (λ j h k. all j (omega arith) (omega arith)),
  ),
)

validate_from_lem :
    (ptr : Array ℕ) (n i : ℕ) (has : Bool) (last : ℕ)
    → i + n < 2 ^ 32
    → Remembers ptr i has last
    → (validate_from ptr i has last n ≡ true) ↔ ((j : ℕ) → i ≤ j → j < i + n → ok_at ptr j ≡ true)
unfolding validate_from
validate_from_lem ptr zero i has last b r = (λ _ j h k. absurd (omega arith), λ _. refl)
validate_from_lem ptr (suc n) i has last b r = validate_from-suc ptr n i has last r (
    validate_from_lem ptr n (i + 1) _ _ (omega arith)
      (Remembers-suc ptr i has last (omega arith) r))

-- Letters, digits and separators; no separator first or last, and no two in a row.
pub record IsGlobalPath (p : PathData) : Type 0 where
  pub not_empty : 0 < p.bytes
  pub chars : (j : ℕ) → j < p.bytes → is_path_char (p.ptr j) ≡ true
  pub starts : p.ptr 0 ≢ separator
  pub ends : p.ptr (p.bytes - 1) ≢ separator
  pub apart : (j : ℕ) → j + 1 < p.bytes → p.ptr j ≡ separator → p.ptr (j + 1) ≢ separator

from_ok :
    (p : PathData)
    → 0 < p.bytes
    → p.ptr 0 ≢ separator
    → p.ptr (p.bytes - 1) ≢ separator
    → ((j : ℕ) → 0 ≤ j → j < 0 + p.bytes → ok_at p.ptr j ≡ true)
    → IsGlobalPath p
from_ok p h s e all = record {
  not_empty = h;
  chars = λ j k. ground (arith, all j (omega arith) (omega arith));
  starts = s;
  ends = e;
  apart = λ j k e. ground (arith, all (j + 1) (omega arith) (omega arith));
}

to_ok : (p : PathData) → IsGlobalPath p → (j : ℕ) → 0 ≤ j → j < 0 + p.bytes → ok_at p.ptr j ≡ true
to_ok p g zero h k = ground (arith, g.chars 0 (omega arith))
to_ok p g (suc j) h k = ground (arith, g.chars (suc j) (omega arith), g.apart j (omega arith))

starts_Remembers : (ptr : Array ℕ) → Remembers ptr 0 false 0
starts_Remembers ptr = (λ e. absurd (cc), ground arith)

-- k_ipc_utl_pathGlobalValidate accepts exactly the paths that are not empty, consist of letters,
-- digits and separators, neither start nor end with a separator and have no two separators in a
-- row. The length is below 2 ^ 32.
pub path_global_validate-IsGlobalPath :
    (p : PathData) → p.bytes < 2 ^ 32 → (path_global_validate p ≡ true) ↔ IsGlobalPath p
unfolding path_global_validate
path_global_validate-IsGlobalPath p b =
    let loop = validate_from_lem p.ptr p.bytes 0 false 0 (omega arith) (starts_Remembers p.ptr) in
    (
      λ e. from_ok p (ground arith) (ground arith) (ground arith) (loop.0 (ground arith)),
      λ g. ground (arith, g.not_empty, g.starts, g.ends, loop.1 (to_ok p g)),
    )

-- The listener's path begins with the path looked for.
abbrev pub Begins : PathData → Array ℕ → Type 0
Begins p path = (j : ℕ) → j < p.bytes → p.ptr j ≡ path j

-- For a path without zero bytes, k_ipc_utl_nextListenerIndexForPath answers the first index from
-- the start on whose listener's path begins with the given one, or the number of listeners.
pub next_listener_lem :
    (ls : Array IpcListener) (p : PathData) (start : ℕ)
    → start ≤ max_ipc_listener
    → ((j : ℕ) → j < p.bytes → p.ptr j ≢ 0)
    → let i = next_listener_index_for_path ls p start in
      (i ≤ max_ipc_listener)
      × (i < max_ipc_listener → Begins p (ls i).path)
      × ((j : ℕ) → start ≤ j → j < i → ¬ Begins p (ls j).path)
unfolding next_listener_index_for_path
next_listener_lem ls p start s nz =
    let test : ℕ → Bool = λ i. eq_ℤ (strcmpl p.ptr (ls i).path p.bytes) (pos 0) in
    (
      omega (arith, first-le test start (max_ipc_listener - start)),
      λ h.
          (strcmpl_lem p.ptr (ls _).path p.bytes nz).0
            ((eq_ℤ_iff _ _).0 (first_hit test start (max_ipc_listener - start) (omega arith))),
      λ j a k begins.
          let e = (eq_ℤ_iff _ _).1 ((strcmpl_lem p.ptr (ls j).path p.bytes nz).1 begins) in
          ground (arith, first_miss test start (max_ipc_listener - start) j a k),
    )

pub le-next_listener :
    (ls : Array IpcListener) (p : PathData) (start : ℕ)
    → start ≤ next_listener_index_for_path ls p start
unfolding next_listener_index_for_path
le-next_listener ls p start =
    le-first (λ i. eq_ℤ (strcmpl p.ptr (ls i).path p.bytes) (pos 0)) start
      (max_ipc_listener - start)
