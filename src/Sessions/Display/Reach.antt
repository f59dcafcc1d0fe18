-- ===== src/Sessions/Display/Reach.antt =====
-- src/system/user/gnwdispm: frames, and the states that the display manager reaches.
use gunw_os.Prelude.Outcome.{
  ok, ◌>>=◌, Returns, ReturnsUnless, Stuck, Unless-bind, returns_result, unless_result,
}
use gunw_os.Prelude.Int.{ℤ}
use gunw_os.Prelude.{
  ℕ, ◌<◌, ◌≡◌, ◌≢◌, refl, true, false, Bool-cases, some, arith, ◌⊎◌, inl, inr, ◌==◌, ltb,
  if◌then◌else◌,
}
use gunw_os.Kernel.{none_proc_id}
use gunw_os.Dev.Errors.{DeviceError, gde_none, gde_handle_invalid, gde_busy}
use gunw_os.Dev.Descriptor.{AddrRange}
use gunw_os.Sessions.Stack.{is_iff}
use gunw_os.Sessions.Slots.{session_for_proc_lem}
use gunw_os.Sessions.Display.{
  DisplayDescriptor, DisplayType, Calls, Manager, initial, cleared, session_is_on_top,
  on_session_destroy, display_attach_to_display, write_frame, push_from, display_push_frame,
  succeeded, session_destroy,
}
use gunw_os.Sessions.Display.Kept.{
  IsConsistent, initial-IsConsistent, cleared-IsConsistent, session_destroy_lem,
}
use gunw_os.Sessions.Display.Attach.{display_attach_to_display-Attached}

module _ {W : Type 0} (calls : Calls W) where
  -- The frame has been handed to the display, or refused.
  abbrev pub Framed : ℤ → ℕ → ℕ → AddrRange → Manager W → DeviceError × Manager W → Type 0
  Framed p id buffer range m (e, m') =
      IsConsistent m'
      × (((e ≢ gde_none) × (m'.device ≡ m.device))
          ⊎ (((s : ℕ) × (s < 8) × (m.stacks id 0 ≡ some s) × (m.procs s ≡ p))
              × (calls.mem_write id buffer range m.device ≡ ok (e, m'.device))))

  module _ (p : ℤ) (id buffer : ℕ) (range : AddrRange) (m : Manager W) (v : IsConsistent m) where
    -- The kernel does not come back from the write.
    abbrev Unwritten : Type 0
    Unwritten = Stuck (calls.mem_write id buffer range m.device)

    answered :
        (s : ℕ)
        → s < 8
        → m.stacks id 0 ≡ some s
        → m.procs s ≡ p
        → (answer : DeviceError × W) → calls.mem_write id buffer range m.device ≡ ok answer
        → Returns (Framed p id buffer range m) (
            let m' = record m { device = answer.1 } in
            if succeeded answer.0
            then ok (answer.0, m')
            else (session_destroy s m' >>= λ n. ok (answer.0, n)))
    answered s ls top mine answer back =
        let m2 = record m { device = answer.1 } in
        let w : IsConsistent m2 = record {
          live = v.live;
          distinct = v.distinct;
          known = v.known;
        } in
        elim (Bool-cases (succeeded answer.0)) [
          | inl good ↦ ((answer.0, m2), rw good, (w, inr ((s, ls, top, mine), back)))
          | inr bad ↦ (
            (answer.0, cleared s m2),
            rw bad (rw (session_destroy_lem s m2 w)),
            (cleared-IsConsistent s m2 w, inr ((s, ls, top, mine), back)),
          )
        ]

    written :
        (s : ℕ)
        → s < 8
        → m.stacks id 0 ≡ some s
        → m.procs s ≡ p
        → ReturnsUnless Unwritten
            (Framed p id buffer range m)
            (write_frame calls s id buffer range m)
    written s ls top mine =
        Unless-bind (calls.mem_write id buffer range m.device) (λ stuck. stuck)
          λ answer back. inl (answered s ls top mine answer back)

    pushed :
        (s : ℕ)
        → s < 8
        → m.procs s ≡ p
        → ReturnsUnless Unwritten
            (Framed p id buffer range m)
            (push_from calls (some s) id buffer range m)
    unfolding session_is_on_top
    pushed s ls mine = elim (Bool-cases ((m.descriptors s).identifier == id)) [
      | inr other ↦ inl (
        (gde_handle_invalid, cleared s m),
        rw other (rw (session_destroy_lem s m v)),
        (cleared-IsConsistent s m v, inl (λ q. cc, refl)),
      )
      | inl same ↦
          let here : (m.descriptors s).identifier ≡ id = ground arith in
          let row : ltb id 8 ≡ true = ground (arith, v.known s) in
          elim (Bool-cases (session_is_on_top s m)) [
            | inr under ↦ inl ((gde_busy, m), rw (same, row, under), (v, inl (λ q. cc, refl)))
            | inl top ↦
                rw (same, row, top) (written s ls (is_iff s (m.stacks id 0) (rw here at top)) mine)
          ]
    ]

    pub display_push_frame-Framed :
        0 < buffer
        → ReturnsUnless Unwritten
            (Framed p id buffer range m)
            (display_push_frame calls p id buffer range m)
    unfolding display_push_frame
    display_push_frame-Framed pos_buffer =
        rw (not_null buffer pos_buffer) (elim (session_for_proc_lem p m.procs) [
          | inl (missing, _) ↦ inl ((gde_handle_invalid, m), rw missing, (v, inl (λ q. cc, refl)))
          | inr (s, found, ls, mine) ↦ rw found (pushed s ls mine)
        ])
      where
        not_null : (b : ℕ) → 0 < b → (b == 0) ≡ false
        not_null b h = ground arith

  -- The process of a notification has no session any more.
  pub on_session_destroy-gone :
      (p : ℤ) (m : Manager W)
      → p ≢ none_proc_id
      → IsConsistent m
      → Returns
          (λ m'. IsConsistent m' × ((j : ℕ) → j < 8 → m'.procs j ≢ p))
          (on_session_destroy p m)
  unfolding on_session_destroy
  on_session_destroy-gone p m real v = elim (session_for_proc_lem p m.procs) [
    | inl (missing, other) ↦ (m, rw (missing, on_session_destroy), (v, other))
    | inr (s, found, ls, mine) ↦ (
      cleared s m,
      rw (found, on_session_destroy) (session_destroy_lem s m v),
      (cleared-IsConsistent s m v, λ j lj e. grind (arith, v.distinct s j ls lj)),
    )
  ]

  -- The calls of other processes, in any order.
  pub data Step : Manager W → Manager W → Type 0 where
    attach :
        {m m' : Manager W} (p : ℤ) (type : DisplayType) (d : DisplayDescriptor) (e : DeviceError)
        → display_attach_to_display calls p type (some d) m ≡ ok (e, m')
        → Step m m'
    frame :
        {m m' : Manager W} (p : ℤ) (id buffer : ℕ) (range : AddrRange) (e : DeviceError)
        → 0 < buffer
        → display_push_frame calls p id buffer range m ≡ ok (e, m')
        → Step m m'
    destroyed :
        {m m' : Manager W} (p : ℤ) → p ≢ none_proc_id → on_session_destroy p m ≡ ok m' → Step m m'

  pub data Reach (m : Manager W) : Manager W → Type 0 where
    here : Reach m m
    next : {m1 m2 : Manager W} → Reach m m1 → Step m1 m2 → Reach m m2

  Step-IsConsistent : {m m' : Manager W} → Step m m' → IsConsistent m → IsConsistent m'
  Step-IsConsistent (attach p type d e q) v =
      (unless_result (display_attach_to_display-Attached calls p type d _ v) q).0
  Step-IsConsistent (frame p id buffer range e pos_buffer q) v =
      (unless_result (display_push_frame-Framed p id buffer range _ v pos_buffer) q).0
  Step-IsConsistent (destroyed p real q) v =
      (returns_result (on_session_destroy-gone p _ real v) q).0

  -- In every state that attachments, frames and notifications of ended sessions reach from the
  -- initial one, whatever they answer, each session on the stack of a display is one of a process
  -- and for that display, no process has two sessions, and the display of each session has a
  -- stack.
  pub Reach-IsConsistent : {w : W} {m : Manager W} → Reach (initial w) m → IsConsistent m
  Reach-IsConsistent {w} here = initial-IsConsistent w
  Reach-IsConsistent (next r s) = Step-IsConsistent s (Reach-IsConsistent r)
