-- ===== src/Sessions/Keyboard/Kept.antt =====
-- src/system/user/gnwkbdm: the sessions stay consistent, and who gets the events of keys.
use gunw_os.Prelude.Outcome.{Returns}
use gunw_os.Prelude.Int.{ℤ}
use gunw_os.Prelude.{
  ℕ, ◌<◌, ◌≡◌, ◌≢◌, ◌∙◌, sym, ap, refl, subst, update, update_self, update_ne, some, arith, inl,
  inr,
}
use gunw_os.Kernel.{none_proc_id}
use gunw_os.Dev.Errors.{DeviceError, gde_none, gde_operation_failed, gde_already_held}
use gunw_os.Sessions.{free_session}
use gunw_os.Sessions.Stack.{push_lem, Raised-from, pull-absent, pull-from}
use gunw_os.Sessions.Slots.{session_for_proc_lem}
use gunw_os.Sessions.Keyboard.{
  Manager, initial, session_on_top, session_create, session_enable, session_destroy,
  on_session_destroy, enabled, keyboard_attach,
}

module _ {W : Type 0} where
  -- A session on the stack is one of a process, and no process has two.
  pub record IsConsistent (m : Manager W) : Type 0 where
    pub live : (i s : ℕ) → i < 8 → m.stack i ≡ some s → (s < 8) × (m.procs s ≢ none_proc_id)
    pub distinct :
        (s t : ℕ) → s < 8 → t < 8 → m.procs s ≢ none_proc_id → m.procs s ≡ m.procs t → s ≡ t

  pub initial-IsConsistent : (w : W) → IsConsistent (initial w)
  initial-IsConsistent w = record {
    live = λ i s _ e. cc;
    distinct = λ s t _ _ ne _. absurd (ne refl);
  }

  -- A session that ends is on the stack no more.
  pub session_destroy-IsConsistent :
      (s : ℕ) (m : Manager W) → IsConsistent m → IsConsistent (session_destroy s m)
  unfolding session_destroy
  session_destroy-IsConsistent s m v = record {
    live = λ i t li e.
        let (j, lj, old) = pull-from s m.stack i t li e in
        let ne : s ≢ t = λ q. pull-absent s m.stack i li (e ∙ ap some (sym q)) in
        (
          (v.live j t lj old).0,
          subst (λ p. p ≢ none_proc_id) (sym (update_ne m.procs s t none_proc_id ne))
              (v.live j t lj old).1,
        );
    distinct = λ a b la lb ne e. grind (arith, v.distinct a b la lb);
  }

  pub on_session_destroy-IsConsistent :
      (p : ℤ) (m : Manager W) → IsConsistent m → IsConsistent (on_session_destroy p m)
  unfolding on_session_destroy
  on_session_destroy-IsConsistent p m v = elim (session_for_proc_lem p m.procs) [
    | inl (missing, _) ↦ rw (missing, on_session_destroy) v
    | inr (s, found, _, _) ↦ rw (found, on_session_destroy) (session_destroy-IsConsistent s m v)
  ]

  module _ (p : ℤ) (m : Manager W) (v : IsConsistent m) where
    abbrev created : ℕ → Manager W
    created s = record m { procs = update m.procs s p }

    created-IsConsistent :
        (s : ℕ)
        → m.procs s ≡ none_proc_id
        → ((j : ℕ) → j < 8 → m.procs j ≢ p)
        → IsConsistent (created s)
    created-IsConsistent s free other = record {
      live = λ i t li e.
          let old = v.live i t li e in
          let ne : s ≢ t = λ q. old.1 (sym (ap m.procs q) ∙ free) in
          (old.0, subst (λ p. p ≢ none_proc_id) (sym (update_ne m.procs s t p ne)) old.1);
      distinct = λ a b la lb ne e. grind (arith, v.distinct a b la lb, other a la, other b lb);
    }

    -- The process has the keyboard, or it is refused.
    abbrev pub Attached : DeviceError × Manager W → Type 0
    Attached (e, m') =
        IsConsistent m'
        × ((e ≡ gde_none) → ((s : ℕ) × (s < 8) × (m'.procs s ≡ p) × (session_on_top m' ≡ some s)))

    enabled-Attached :
        (s : ℕ)
        → s < 8
        → m.procs s ≡ none_proc_id
        → ((j : ℕ) → j < 8 → m.procs j ≢ p)
        → Attached (enabled s (session_enable s (created s)))
    unfolding session_enable session_on_top
    enabled-Attached s ls free other =
        let w = created-IsConsistent s free other in
        let mine : (created s).procs s ≡ p = update_self m.procs s p in
        elim (push_lem s m.stack) [
          | inl (full, _, _) ↦ rw full (session_destroy-IsConsistent s (created s) w, λ q. cc)
          | inr (stack, e, r) ↦ rw e (
            record {
              live = λ i t li q. elim (Raised-from s m.stack stack r i t li q) [
                | inl same ↦ (
                  rw same ls,
                  subst (λ k. (created s).procs k ≢ none_proc_id) (sym same)
                      (λ z. other s ls (free ∙ (sym z ∙ mine))),
                )
                | inr (j, lj, old) ↦ w.live j t lj old
              ];
              distinct = w.distinct;
            },
            λ _. (s, ls, mine, r.0),
          )
        ]

    -- An attachment to the keyboard comes back with consistent sessions, and if it succeeds, with one
    -- of the process on top of the stack.
    pub keyboard_attach-Attached : Returns Attached (keyboard_attach p m)
    unfolding keyboard_attach session_create free_session
    keyboard_attach-Attached = elim (session_for_proc_lem p m.procs) [
      | inr (i, found, _, _) ↦ ((gde_already_held, m), rw found, (v, λ q. cc))
      | inl (missing, other) ↦ elim (session_for_proc_lem none_proc_id m.procs) [
        | inl (full, _) ↦
            ((gde_operation_failed, m), rw (missing, full, session_create), (v, λ q. cc))
        | inr (s, found, ls, free) ↦ (
          enabled s (session_enable s (created s)),
          rw (missing, found, session_create),
          enabled-Attached s ls free other,
        )
      ]
    ]
