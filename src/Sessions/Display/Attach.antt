-- ===== src/Sessions/Display/Attach.antt =====
-- src/system/user/gnwdispm: what the calls of the display manager come to on consistent sessions.
use gunw_os.Prelude.Outcome.{
  ok, ◌>>=◌, Returns, ReturnsUnless, Stuck, Outcome-cases, Stuck-bind, Unless-bind,
}
use gunw_os.Prelude.Int.{ℤ}
use gunw_os.Prelude.{
  ℕ, ◌<◌, ◌≡◌, ◌≢◌, ◌∙◌, sym, ap, refl, subst, Array, update, update_self, Bool, true, false,
  Bool-cases, Option, none, some, is_some, not, if◌then◌else◌, arith, ◌⊎◌, inl, inr, ltb,
}
use gunw_os.Kernel.{none_proc_id}
use gunw_os.Dev.Errors.{
  DeviceError, gde_none, gde_operation_failed, gde_id_invalid, gde_already_held,
}
use gunw_os.Sessions.{session_for_proc, free_session}
use gunw_os.Sessions.Stack.{push_lem, Raised}
use gunw_os.Sessions.Slots.{session_for_proc_lem}
use gunw_os.Sessions.Display.{
  DisplayDescriptor, DisplayType, Calls, Manager, cleared, session_create, session_enable, raise,
  enabled, enable_created, is_text, is_text_type, same, display_attach_to_display, succeeded,
}
use gunw_os.Sessions.Display.Kept.{
  IsConsistent, cleared-IsConsistent, session_destroy_lem, created-IsConsistent,
  lifted-IsConsistent,
}

pub succeeded_iff : (e : DeviceError) → succeeded e ≡ true → e ≡ gde_none
succeeded_iff gde_none h = refl
succeeded_iff e h = cc

pub failed : (e : DeviceError) → succeeded e ≡ false → e ≢ gde_none
failed gde_none h = cc
failed e h = λ q. cc

module _ {W : Type 0} (calls : Calls W) where
  -- The session stays, or it is gone.
  abbrev Enabled : ℕ → Manager W → DeviceError × Manager W → Type 0
  Enabled s m (e, m') =
      IsConsistent m' × (((e ≡ gde_none) × (m' ≡ m)) ⊎ ((e ≢ gde_none) × (m' ≡ cleared s m)))

  enabled_lem :
      (s : ℕ) (e : DeviceError) (m : Manager W)
      → IsConsistent m
      → Returns (Enabled s m) (enabled calls s (e, m))
  enabled_lem s e m v = elim (Bool-cases (succeeded e)) [
    | inl good ↦ ((gde_none, m), rw good, (v, inl (refl, refl)))
    | inr bad ↦ (
      (e, cleared s m),
      rw bad (rw (session_destroy_lem s m v)),
      (cleared-IsConsistent s m v, inr (failed e bad, refl)),
    )
  ]

  -- The session of a process is on top of the stack of its display, or it is gone.
  abbrev OnTop : ℕ → Manager W → DeviceError × Manager W → Type 0
  OnTop s m (e, m') =
      IsConsistent m'
      × (((e ≡ gde_none)
            × (m'.procs ≡ m.procs)
            × (m'.descriptors ≡ m.descriptors)
            × (m'.stacks (m.descriptors s).identifier 0 ≡ some s))
          ⊎ ((e ≢ gde_none) × (m'.procs ≡ update m.procs s none_proc_id)))

  module _ (s : ℕ) (m : Manager W) (v : IsConsistent m) (ls : s < 8)
      (active : m.procs s ≢ none_proc_id) where
    -- The kernel does not come back from the setting of the format.
    abbrev Halted : Type 0
    Halted = Stuck (calls.set_format (m.descriptors s).identifier (m.descriptors s).format m.device)

    enable_full : Returns (OnTop s m) (raise calls s none m >>= enabled calls s)
    enable_full = (
      (gde_operation_failed, cleared s m),
      rw (session_destroy_lem s m v),
      (cleared-IsConsistent s m v, inr (λ q. cc, refl)),
    )

    enable_set :
        (stack : Array (Option ℕ))
        → Raised s (m.stacks (m.descriptors s).identifier) stack
        → (answer : DeviceError × W)
        → Returns (OnTop s m) (
            enabled calls s (
              answer.0,
              record m {
                stacks = update m.stacks (m.descriptors s).identifier stack;
                device = answer.1;
              },
            ))
    enable_set stack r answer =
        let d = m.descriptors s in
        let m2 = record m { stacks = update m.stacks d.identifier stack; device = answer.1 } in
        let (res, e, (w, end)) =
          enabled_lem s answer.0 m2 (lifted-IsConsistent s m v stack answer.1 ls active r) in
        (
          res,
          e,
          (
            w,
            elim end [
              | inl (q, same_m) ↦ inl (
                q,
                ap (λ (x : Manager W). x.procs) same_m,
                ap (λ (x : Manager W). x.descriptors) same_m,
                ap (λ (x : Manager W). x.stacks d.identifier 0) same_m
                    ∙ (ap (λ (f : Array (Option ℕ)). f 0) (update_self m.stacks d.identifier stack)
                        ∙ r.0),
              )
              | inr (q, gone) ↦ inr (q, ap (λ (x : Manager W). x.procs) gone)
            ],
          ),
        )

    enable_some :
        (stack : Array (Option ℕ))
        → Raised s (m.stacks (m.descriptors s).identifier) stack
        → ReturnsUnless Halted (OnTop s m) (raise calls s (some stack) m >>= enabled calls s)
    enable_some stack r =
        let d = m.descriptors s in
        elim (Outcome-cases (calls.set_format d.identifier d.format m.device)) [
          | inl (answer, back) ↦ inl (rw back (enable_set stack r answer))
          | inr stuck ↦ inr (stuck, Stuck-bind _ _ (Stuck-bind _ _ stuck))
        ]

    enable_lem : ReturnsUnless Halted (OnTop s m) (session_enable calls s m >>= enabled calls s)
    unfolding session_enable
    enable_lem =
        rw (in_row (v.known s)) (elim (push_lem s (m.stacks (m.descriptors s).identifier)) [
          | inl full ↦ rw full.0 (inl enable_full)
          | inr (stack, e, r) ↦ rw e (enable_some stack r)
        ])
      where
        in_row : {id : ℕ} → id < 8 → ltb id 8 ≡ true
        in_row lt = ground arith

  -- The process is attached with a new session on top of the display, or nothing has changed in who
  -- has a session.
  abbrev pub Attached :
      ℤ → DisplayType → DisplayDescriptor → Manager W → DeviceError × Manager W → Type 0
  Attached p type d m (e, m') =
      IsConsistent m'
      × (((e ≢ gde_none) × ((j : ℕ) → m'.procs j ≡ m.procs j))
          ⊎ ((e ≡ gde_none)
              × (is_text d.format ≡ is_text_type type)
              × ((j : ℕ) → j < 8 → m.procs j ≢ p)
              × ((s : ℕ) × (s < 8)
                  × (m'.procs s ≡ p)
                  × (m'.descriptors s ≡ d)
                  × (m'.stacks d.identifier 0 ≡ some s))))

  -- The kernel does not come back from the search for the display, or from the setting of its format.
  abbrev pub Unanswered : DisplayDescriptor → Manager W → Type 0
  Unanswered d m =
      Stuck (calls.get_by_id d.identifier m.device)
      ⊎ Stuck (calls.set_format d.identifier d.format m.device)

  module _ (p : ℤ) (type : DisplayType) (d : DisplayDescriptor) (m : Manager W)
      (v : IsConsistent m) where
    abbrev created : ℕ → Manager W
    created s = record m { procs = update m.procs s p; descriptors = update m.descriptors s d }

    create_full :
        session_for_proc none_proc_id m.procs ≡ none
        → session_create p d m ≡ (gde_operation_failed, none, m)
    unfolding session_create free_session
    create_full e = rw (e, session_create)

    create_free :
        (s : ℕ)
        → session_for_proc none_proc_id m.procs ≡ some s
        → session_create p d m ≡ (gde_none, some s, created s)
    unfolding session_create free_session
    create_free s e = rw (e, session_create)

    refuse : (e : DeviceError) → e ≢ gde_none → Attached p type d m (e, m)
    refuse e ne = (v, inl (ne, λ j. refl))

    attach_created :
        (s : ℕ)
        → s < 8
        → m.procs s ≡ none_proc_id
        → ((j : ℕ) → j < 8 → m.procs j ≢ p)
        → d.identifier < 8
        → is_text d.format ≡ is_text_type type
        → ReturnsUnless
            (Unanswered d m)
            (Attached p type d m)
            (session_enable calls s (created s) >>= enabled calls s)
    attach_created s ls free other lt fits =
        let mine : (created s).procs s ≡ p = update_self m.procs s p in
        let desc : (created s).descriptors s ≡ d = update_self m.descriptors s d in
        let active : (created s).procs s ≢ none_proc_id = λ q. other s ls (free ∙ (sym q ∙ mine)) in
        let enable =
          enable_lem s (created s) (created-IsConsistent s m v p d free other lt) ls active in
        elim enable [
          | inr (stuck, never) ↦ inr (
            inr (
                subst
                  (λ (x : DisplayDescriptor).
                    Stuck (calls.set_format x.identifier x.format m.device))
                  desc stuck),
            never,
          )
          | inl (r, e, (w, end)) ↦ inl (
            r,
            e,
            (
              w,
              elim end [
                | inl (good, procs, descs, top) ↦ inr (
                  good,
                  fits,
                  other,
                  (
                    s,
                    ls,
                    ap (λ (f : Array ℤ). f s) procs ∙ mine,
                    ap (λ (f : Array DisplayDescriptor). f s) descs ∙ desc,
                    subst (λ x. r.1.stacks (DisplayDescriptor.identifier x) 0 ≡ some s) desc top,
                  ),
                )
                | inr (bad, procs) ↦
                    inl (bad, λ j. ap (λ (f : Array ℤ). f j) procs ∙ restored s free j)
              ],
            ),
          )
        ]
      where
        restored :
            (s : ℕ)
            → m.procs s ≡ none_proc_id
            → (j : ℕ) → update (update m.procs s p) s none_proc_id j ≡ m.procs j
        restored s free j = ground arith

    -- On consistent sessions an attachment to a display comes back with consistent sessions,
    -- unless the kernel does not come back from the search for the display or the setting of its
    -- format. If it succeeds, the format fits the type, the process had no session, and it has
    -- one with the descriptor on top of its display; otherwise the sessions belong to the
    -- processes to which they belonged.
    pub display_attach_to_display-Attached :
        ReturnsUnless
          (Unanswered d m)
          (Attached p type d m)
          (display_attach_to_display calls p type (some d) m)
    unfolding display_attach_to_display
    display_attach_to_display-Attached =
        Unless-bind (calls.get_by_id d.identifier m.device) inl answered
      where
        same_iff : (a b : Bool) → same a b ≡ true → a ≡ b
        same_iff a b h = ground arith

        answered :
            (answer : DeviceError)
            → calls.get_by_id d.identifier m.device ≡ ok answer
            → ReturnsUnless (Unanswered d m) (Attached p type d m) (
                if not (succeeded answer)
                then ok (answer, m)
                else if not (same (is_text d.format) (is_text_type type))
                then ok (gde_id_invalid, m)
                else if is_some (session_for_proc p m.procs)
                then ok (gde_already_held, m)
                else enable_created calls (session_create p d m))
        answered answer back = elim (Bool-cases (succeeded answer)) [
          | inr bad ↦ inl ((answer, m), rw bad, refuse answer (failed answer bad))
          | inl good ↦ elim (Bool-cases (same (is_text d.format) (is_text_type type))) [
            | inr unfit ↦
                inl ((gde_id_invalid, m), rw (good, unfit), refuse gde_id_invalid (λ q. cc))
            | inl fit ↦ elim (session_for_proc_lem p m.procs) [
              | inr (i, found, _, _) ↦
                  inl (
                    (gde_already_held, m),
                    rw (good, fit, found),
                    refuse gde_already_held (λ q. cc),
                  )
              | inl (missing, other) ↦ elim (session_for_proc_lem none_proc_id m.procs) [
                | inl (full, _) ↦ inl (
                  (gde_operation_failed, m),
                  rw (good, fit, missing, create_full full),
                  refuse gde_operation_failed (λ q. cc),
                )
                | inr (s, found, ls, free) ↦
                    rw (good, fit, missing, create_free s found)
                      (attach_created s ls free other
                        (calls.known_lt d.identifier m.device
                          (back ∙ ap ok (succeeded_iff answer good)))
                        (same_iff _ _ fit))
              ]
            ]
          ]
        ]
