-- ===== src/Sessions/Display/Kept.antt =====
-- src/system/user/gnwdispm: the display manager keeps its sessions and stacks consistent.
use gunw_os.Prelude.Outcome.{ok}
use gunw_os.Prelude.Int.{ℤ}
use gunw_os.Prelude.{
  ℕ, ◌<◌, ◌≡◌, ◌≢◌, ◌∙◌, sym, ap, refl, subst, Array, update, update_ne, Bool-cases, Option, some,
  arith, ◌⊎◌, inl, inr, ◌==◌,
}
use gunw_os.Kernel.{none_proc_id}
use gunw_os.Sessions.{pull}
use gunw_os.Sessions.Stack.{Raised, Raised-from, pull-absent, pull-from}
use gunw_os.Sessions.Display.{
  DisplayDescriptor, zero_descriptor, Manager, initial, cleared, session_destroy,
}

-- An entry of the stacks after a write of one of them.
update-entry :
    (stacks : Array (Array (Option ℕ))) (id : ℕ) (stack : Array (Option ℕ)) (d i t : ℕ)
    → update stacks id stack d i ≡ some t
    → ((id ≡ d) × (stack i ≡ some t)) ⊎ ((id ≢ d) × (stacks d i ≡ some t))
update-entry stacks id stack d i t e = elim (Bool-cases (id == d)) [
  | inl same ↦ inl (ground arith, rw same at e)
  | inr other ↦ inr (ground arith, rw other at e)
]

module _ {W : Type 0} where
  -- A session on the stack of a display is one of a process, for that display; no process has two
  -- sessions; the display of each session has a stack.
  pub record IsConsistent (m : Manager W) : Type 0 where
    pub live :
        (d i s : ℕ)
        → d < 8
        → i < 8
        → m.stacks d i ≡ some s
        → (s < 8) × (m.procs s ≢ none_proc_id) × ((m.descriptors s).identifier ≡ d)
    pub distinct :
        (s t : ℕ) → s < 8 → t < 8 → m.procs s ≢ none_proc_id → m.procs s ≡ m.procs t → s ≡ t
    pub known : (s : ℕ) → (m.descriptors s).identifier < 8

  pub initial-IsConsistent : (w : W) → IsConsistent (initial w)
  initial-IsConsistent w = record {
    live = λ d i s _ _ e. cc;
    distinct = λ s t _ _ ne _. absurd (ne refl);
    known = λ s. omega arith;
  }

  module _ (s : ℕ) (m : Manager W) (v : IsConsistent m) where
    cleared_live :
        (d i t : ℕ)
        → d < 8
        → i < 8
        → (cleared s m).stacks d i ≡ some t
        → (t ≢ s) × ((j : ℕ) × (j < 8) × (m.stacks d j ≡ some t))
    cleared_live d i t ld li e =
        let id = (m.descriptors s).identifier in
        elim (update-entry m.stacks id (pull s (m.stacks id)) d i t e) [
          | inl (q, e') ↦
              let from = pull-from s (m.stacks id) i t li e' in
              (
                λ r. pull-absent s (m.stacks id) i li (e' ∙ ap some r),
                (from.0, from.1, subst (λ k. m.stacks k from.0 ≡ some t) q from.2),
              )
          | inr (ne, e') ↦ (
            λ r. ne (sym (ap (λ k. (m.descriptors k).identifier) r) ∙ (v.live d i t ld li e').2),
            (i, li, e'),
          )
        ]

    pub cleared-IsConsistent : IsConsistent (cleared s m)
    cleared-IsConsistent = record {
      live = λ d i t ld li e.
          let (ne, (j, lj, h)) = cleared_live d i t ld li e in
          let old = v.live d j t ld lj h in
          (
            old.0,
            subst (λ p. p ≢ none_proc_id)
                (sym (update_ne m.procs s t none_proc_id (λ q. ne (sym q)))) old.1,
            ap (λ (x : DisplayDescriptor). x.identifier)
                  (update_ne m.descriptors s t zero_descriptor (λ q. ne (sym q)))
                ∙ old.2,
          );
      distinct = λ a b la lb ne e. grind (arith, v.distinct a b la lb);
      known = λ t. ground (arith, v.known t);
    }

    pub session_destroy_lem : session_destroy s m ≡ ok (cleared s m)
    unfolding session_destroy
    session_destroy_lem = ground (arith, v.known s)

    -- A free session is given to a process that has none.
    pub created-IsConsistent :
        (p : ℤ) (d : DisplayDescriptor)
        → m.procs s ≡ none_proc_id
        → ((j : ℕ) → j < 8 → m.procs j ≢ p)
        → d.identifier < 8
        → IsConsistent
            (record m { procs = update m.procs s p; descriptors = update m.descriptors s d })
    created-IsConsistent p d free other lt = record {
      live = λ b i t lb li e.
          let old = v.live b i t lb li e in
          let ne : s ≢ t = λ q. old.1 (sym (ap m.procs q) ∙ free) in
          (
            old.0,
            subst (λ p. p ≢ none_proc_id) (sym (update_ne m.procs s t p ne)) old.1,
            ap (λ (x : DisplayDescriptor). x.identifier) (update_ne m.descriptors s t d ne) ∙ old.2,
          );
      distinct = λ a b la lb ne e. grind (arith, v.distinct a b la lb, other a la, other b lb);
      known = λ t. ground (arith, v.known t);
    }

    -- A session of a process is raised on the stack of its display.
    pub lifted-IsConsistent :
        (stack : Array (Option ℕ)) (w : W)
        → s < 8
        → m.procs s ≢ none_proc_id
        → Raised s (m.stacks (m.descriptors s).identifier) stack
        → IsConsistent
            (record m { stacks = update m.stacks (m.descriptors s).identifier stack; device = w })
    lifted-IsConsistent stack w ls active r =
        let id = (m.descriptors s).identifier in
        record {
          live = λ d i t ld li e. elim (update-entry m.stacks id stack d i t e) [
            | inr (ne, old) ↦ v.live d i t ld li old
            | inl (q, new) ↦ elim (Raised-from s (m.stacks id) stack r i t li new) [
              | inl here ↦ (
                rw here ls,
                subst (λ k. m.procs k ≢ none_proc_id) (sym here) active,
                ap (λ k. (m.descriptors k).identifier) here ∙ q,
              )
              | inr (j, lj, old) ↦ v.live d j t ld lj (subst (λ k. m.stacks k j ≡ some t) q old)
            ]
          ];
          distinct = v.distinct;
          known = v.known;
        }
