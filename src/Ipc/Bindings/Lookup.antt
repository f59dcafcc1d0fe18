-- ===== src/Ipc/Bindings/Lookup.antt =====
-- src/system/kernel/ipc/binding.c: the table of bindings as a map from pairs of processes to permissions.
use gunw_os.Prelude.Outcome.{ok, done, fails}
use gunw_os.Prelude.Int.{ℤ, eq_ℤ, eq_ℤ_iff}
use gunw_os.Prelude.{
  ℕ, ◌<◌, ◌≡◌, ◌∙◌, refl, sym, ap, subst, arith, Bool, true, false, ◌&&◌, some, Array, update,
  update_self, update_ne, first, first_hit, first_miss, ltb, lt→ltb, if◌then◌else◌, ℕ_discrete,
  dec_lt, fun_ext, ltb→lt, inl, inr, Bool-cases,
}
use gunw_os.Kernel.{none_proc_id}
use gunw_os.Ipc.{Binding, max_binding, gipce_not_found}
use gunw_os.Ipc.Bindings.{
  binds, find, find_free, binding_create, binding_update, binding_get_permissions,
}

abbrev pub same_pair : ℤ → ℤ → ℤ → ℤ → Bool
same_pair s r s' r' = eq_ℤ s s' && eq_ℤ r r'

abbrev place : Array Binding → ℤ → ℤ → ℕ
place bs s r = first (λ i. binds s r (bs i)) 0 max_binding

-- A scan is decided by where the test passes first.
place_eq :
    (bs : Array Binding) (s r : ℤ) (i : ℕ)
    → i < max_binding
    → binds s r (bs i) ≡ true
    → ((j : ℕ) → j < i → binds s r (bs j) ≡ false)
    → place bs s r ≡ i
place_eq bs s r i h t miss =
    let test : ℕ → Bool = λ i. binds s r (bs i) in
    elim (dec_lt (place bs s r) i) [
      | yes lt ↦
          absurd
            (ground (arith, miss (place bs s r) lt, first_hit test 0 max_binding (omega arith)))
      | no ge ↦ elim (dec_lt i (place bs s r)) [
        | yes gt ↦ absurd (ground (arith, first_miss test 0 max_binding i (omega arith) gt))
        | no le ↦ omega arith
      ]
    ]

get_hit :
    (bs : Array Binding) (s r : ℤ) (i : ℕ)
    → place bs s r ≡ i
    → i < max_binding
    → binding_get_permissions s r true bs ≡ ok (done (bs i).permissions)
unfolding binding_get_permissions find
get_hit bs s r i e h =
    subst
      (λ i. i < max_binding → binding_get_permissions s r true bs ≡ ok (done (bs i).permissions)) e
      (λ h. simp (lt→ltb (place bs s r) max_binding h)) h

get_miss :
    (bs : Array Binding) (s r : ℤ)
    → ltb (place bs s r) max_binding ≡ false
    → binding_get_permissions s r true bs ≡ ok (fails gipce_not_found)
unfolding binding_get_permissions find
get_miss bs s r e = simp e

-- Two tables that agree on a pair grant it the same.
get_congr :
    (bs bs' : Array Binding) (s r : ℤ)
    → ((j : ℕ) → binds s r (bs' j) ≡ binds s r (bs j))
    → ((j : ℕ) → binds s r (bs j) ≡ true → (bs' j).permissions ≡ (bs j).permissions)
    → binding_get_permissions s r true bs' ≡ binding_get_permissions s r true bs
get_congr bs bs' s r same perms =
    let test : ℕ → Bool = λ i. binds s r (bs i) in
    let k = place bs s r in
    let e : place bs' s r ≡ k = ap (λ t. first t 0 max_binding) (fun_ext same) in
    elim (Bool-cases (ltb k max_binding)) [
      | inl h ↦
          let lt = ltb→lt k max_binding h in
          get_hit bs' s r k e lt
          ∙ ap (λ n. ok (done n)) (perms k (first_hit test 0 max_binding lt))
          ∙ sym (get_hit bs s r k refl lt)
      | inr h ↦ get_miss bs' s r (ap (λ n. ltb n max_binding) e ∙ h) ∙ sym (get_miss bs s r h)
    ]

found :
    (bs : Array Binding) (s r : ℤ) → place bs s r < max_binding → find bs s r ≡ some (place bs s r)
unfolding find
found bs s r h = ground arith

update_found :
    (bs : Array Binding) (s r : ℤ) (p i : ℕ)
    → find bs s r ≡ some i
    → binding_update s r p bs ≡ done (update bs i (record (bs i) { permissions = p }))
unfolding binding_update
update_found bs s r p i e = rw (binding_update, e)

create_found :
    (bs : Array Binding) (s r : ℤ) (p i : ℕ)
    → find bs none_proc_id none_proc_id ≡ some i
    → binding_create s r p bs
      ≡ done (update bs i (record { sender = s; receiver = r; permissions = p }))
unfolding binding_create find_free
create_found bs s r p i e = rw (binding_create, find_free, e)

both : {a b : Bool} → (a && b) ≡ true → (a ≡ true) × (b ≡ true)
both e = ground arith

binds_eq : (s r : ℤ) (b : Binding) → binds s r b ≡ true → (b.sender ≡ s) × (b.receiver ≡ r)
binds_eq s r b e =
    let (es, er) = both e in ((eq_ℤ_iff b.sender s).0 es, (eq_ℤ_iff b.receiver r).0 er)

same_eq : (s r s' r' : ℤ) → same_pair s r s' r' ≡ true → (s ≡ s') × (r ≡ r')
same_eq s r s' r' e = let (es, er) = both e in ((eq_ℤ_iff s s').0 es, (eq_ℤ_iff r r').0 er)

-- An entry is that of one pair only.
binds_other :
    (s r s' r' : ℤ) (b : Binding)
    → binds s r b ≡ true
    → same_pair s r s' r' ≡ false
    → binds s' r' b ≡ false
binds_other s r s' r' b e d = rw (← (binds_eq s r b e).0, ← (binds_eq s r b e).1) at d

binds_self :
    (s r : ℤ) (p : ℕ) → binds s r (record { sender = s; receiver = r; permissions = p }) ≡ true
binds_self s r p = ground (arith, (eq_ℤ_iff s s).1 refl, (eq_ℤ_iff r r).1 refl)

get-update_other :
    (bs : Array Binding) (i : ℕ) (v : Binding) (s r : ℤ)
    → binds s r v ≡ false
    → binds s r (bs i) ≡ false
    → binding_get_permissions s r true (update bs i v) ≡ binding_get_permissions s r true bs
get-update_other bs i v s r new old =
    get_congr bs (update bs i v) s r
      (λ j. elim (ℕ_discrete i j) [
        | yes e ↦
            subst (λ j. binds s r (update bs i v j) ≡ binds s r (bs j)) e
              (ap (binds s r) (update_self bs i v) ∙ new ∙ sym old)
        | no ne ↦ ap (binds s r) (update_ne bs i j v ne)
      ])
      (λ j b. elim (ℕ_discrete i j) [
        | yes e ↦ absurd (cc (subst (λ j. binds s r (bs j) ≡ false) e old, b))
        | no ne ↦ ap (λ b. b.permissions) (update_ne bs i j v ne)
      ])

get-update_self :
    (bs : Array Binding) (i : ℕ) (v : Binding) (s r : ℤ)
    → i < max_binding
    → binds s r v ≡ true
    → ((j : ℕ) → j < i → binds s r (bs j) ≡ false)
    → binding_get_permissions s r true (update bs i v) ≡ ok (done v.permissions)
get-update_self bs i v s r h b miss =
    get_hit (update bs i v) s r i
      (place_eq (update bs i v) s r i h (ap (binds s r) (update_self bs i v) ∙ b)
        (λ j lt. ap (binds s r) (update_ne bs i j v (omega arith)) ∙ miss j lt))
      h
    ∙ ap (λ b. ok (done b.permissions)) (update_self bs i v)

-- What a table grants after the entry of one pair has been written.
get-update :
    (bs : Array Binding) (i : ℕ) (v : Binding) (s r s' r' : ℤ)
    → i < max_binding
    → binds s r v ≡ true
    → ((j : ℕ) → j < i → binds s r (bs j) ≡ false)
    → (same_pair s r s' r' ≡ false → binds s' r' (bs i) ≡ false)
    → binding_get_permissions s' r' true (update bs i v) ≡ (
        if same_pair s r s' r'
        then ok (done v.permissions)
        else binding_get_permissions s' r' true bs)
get-update bs i v s r s' r' h b miss other = elim (Bool-cases (same_pair s r s' r')) [
  | inl same ↦
      let (es, er) = same_eq s r s' r' same in
      let at_self = get-update_self bs i v s r h b miss in
      rw (← es, ← er) at_self
      ∙ sym (
          ap (λ b. if b then ok (done v.permissions) else binding_get_permissions s' r' true bs)
            same)
  | inr differs ↦
      get-update_other bs i v s' r' (binds_other s r s' r' v b differs) (other differs)
      ∙ sym (
          ap (λ b. if b then ok (done v.permissions) else binding_get_permissions s' r' true bs)
            differs)
]

missing :
    (bs : Array Binding) (s r : ℤ)
    → binding_get_permissions s r true bs ≡ ok (fails gipce_not_found)
    → (j : ℕ) → j < max_binding
    → binds s r (bs j) ≡ false
missing bs s r e j h = elim (Bool-cases (ltb (place bs s r) max_binding)) [
  | inl t ↦ absurd (cc (get_hit bs s r (place bs s r) refl (ltb→lt _ max_binding t), e))
  | inr f ↦ first_miss (λ i. binds s r (bs i)) 0 max_binding j (omega arith) (ground arith)
]

present :
    (bs : Array Binding) (s r : ℤ) (old : ℕ)
    → binding_get_permissions s r true bs ≡ ok (done old)
    → place bs s r < max_binding
present bs s r old e = elim (Bool-cases (ltb (place bs s r) max_binding)) [
  | inl t ↦ ltb→lt _ max_binding t
  | inr f ↦ absurd (cc (get_miss bs s r f, e))
]

-- Updating an existing binding succeeds; afterwards its pair has the new permissions and every
-- other pair has what it had.
pub binding_update_lem :
    (bs : Array Binding) (s r : ℤ) (old p : ℕ)
    → binding_get_permissions s r true bs ≡ ok (done old)
    → (bs' : Array Binding) × (binding_update s r p bs ≡ done bs')
      × ((s' r' : ℤ)
          → binding_get_permissions s' r' true bs'
            ≡ (if same_pair s r s' r' then ok (done p) else binding_get_permissions s' r' true bs))
binding_update_lem bs s r old p e =
    let test : ℕ → Bool = λ i. binds s r (bs i) in
    let i = place bs s r in
    let h = present bs s r old e in
    let v = record (bs i) { permissions = p } in
    let hit = first_hit test 0 max_binding h in
    (
      update bs i v,
      update_found bs s r p i (found bs s r h),
      λ s' r'.
          get-update bs i v s r s' r' h hit
            (λ j lt. first_miss test 0 max_binding j (omega arith) lt)
            (λ d. binds_other s r s' r' (bs i) hit d),
    )

-- With a free entry and no binding of a sender with a receiver, the creation of one succeeds;
-- afterwards that pair has the given permissions, and every other pair but that of free entries
-- has what it had.
pub binding_create_lem :
    (bs : Array Binding) (s r : ℤ) (p free : ℕ)
    → binding_get_permissions s r true bs ≡ ok (fails gipce_not_found)
    → free < max_binding
    → binds none_proc_id none_proc_id (bs free) ≡ true
    → (bs' : Array Binding) × (binding_create s r p bs ≡ done bs')
      × ((s' r' : ℤ)
          → same_pair none_proc_id none_proc_id s' r' ≡ false
          → binding_get_permissions s' r' true bs'
            ≡ (if same_pair s r s' r' then ok (done p) else binding_get_permissions s' r' true bs))
binding_create_lem bs s r p free e lt is_free =
    let test : ℕ → Bool = λ i. binds none_proc_id none_proc_id (bs i) in
    let i = place bs none_proc_id none_proc_id in
    let h : i < max_binding = elim (dec_lt i max_binding) [
      | yes h ↦ h
      | no ge ↦
          absurd (ground (arith, first_miss test 0 max_binding free (omega arith) (omega arith)))
    ] in
    let v : Binding = record { sender = s; receiver = r; permissions = p } in
    (
      update bs i v,
      create_found bs s r p i (found bs none_proc_id none_proc_id h),
      λ s' r' used.
          get-update bs i v s r s' r' h (binds_self s r p) (λ j k. missing bs s r e j (omega arith))
            (λ _.
              binds_other none_proc_id none_proc_id s' r' (bs i) (first_hit test 0 max_binding h)
                used),
    )
