-- ===== src/Sessions/Keyboard/Events.antt =====
-- src/system/user/gnwkbdm: the events of keys, and the states that the keyboard manager reaches.
use gunw_os.Prelude.Outcome.{
  ok, Ensures, ensures_ok, ensures_oops, Ensures-if, Ensures-weaken, ensures_result, returns_result,
}
use gunw_os.Prelude.Int.{ℤ}
use gunw_os.Prelude.{
  ℕ, ◌<◌, ◌≡◌, ◌≢◌, refl, update_self, Option, none, some, arith, ◌⊎◌, inl, inr, ◌==◌, leb, not, ap,
  sym,
}
use gunw_os.Kernel.{none_proc_id}
use gunw_os.Ipc.{IpcError, gipce_forbidden, gipce_not_found}
use gunw_os.Dev.Errors.{DeviceError}
use gunw_os.Sessions.Stack.{pull-absent}
use gunw_os.Sessions.Keyboard.{
  Manager, initial, session_on_top, session_destroy, on_session_destroy, keyboard_attach, sent,
  send_to, on_device_event,
}
use gunw_os.Sessions.Keyboard.Kept.{
  IsConsistent, initial-IsConsistent, session_destroy-IsConsistent, on_session_destroy-IsConsistent,
  keyboard_attach-Attached,
}

module _ {W : Type 0} (send : ℤ → ℕ → ℕ → W → Option IpcError × W) where
  -- The message has gone to the process of the session on top, and the session stays or is gone.
  abbrev pub Handed : ℕ → ℕ → ℕ → Manager W → Manager W → Type 0
  Handed s type key m m' =
      let answer = send (m.procs s) type key m.kernel in
      (m'.kernel ≡ answer.1)
      × (((answer.0 ≡ none) × (m'.stack ≡ m.stack) × (m'.procs ≡ m.procs))
          ⊎ ((answer.0 ≢ none)
              × (m'.procs s ≡ none_proc_id)
              × ((j : ℕ) → j < 8 → m'.stack j ≢ some s)))

  abbrev pub Heard : ℕ → ℕ → Manager W → Manager W → Type 0
  Heard type key m m' =
      IsConsistent m'
      × (((m.stack 0 ≡ none) × (m' ≡ m))
          ⊎ ((s : ℕ) × (m.stack 0 ≡ some s) × (m.procs s ≢ none_proc_id) × Handed s type key m m'))

  module _ (m : Manager W) (v : IsConsistent m) (type key : ℕ) where
    heard :
        (s : ℕ) → m.stack 0 ≡ some s → Ensures (Heard type key m) (send_to send (some s) type key m)
    heard s top = by_answer (send (m.procs s) type key m.kernel) refl
      where
        answered : Option IpcError × W
        answered = send (m.procs s) type key m.kernel

        gone :
            (e : IpcError) (w : W)
            → answered ≡ (some e, w)
            → Heard type key m (session_destroy s (record m { kernel = w }))
        gone e w q = (
          session_destroy-IsConsistent s (record m { kernel = w })
              (record { live = v.live; distinct = v.distinct }),
          inr (
            s,
            top,
            (v.live 0 s (omega arith) top).1,
            (
              unfold session_destroy in (sym (ap (λ (a : Option IpcError × W). a.1) q)),
              inr (
                λ z. cc (q, z),
                unfold session_destroy in update_self m.procs s none_proc_id,
                unfold session_destroy in pull-absent s m.stack,
              ),
            ),
          ),
        )

        by_answer :
            (a : Option IpcError × W) → answered ≡ a → Ensures (Heard type key m) (sent s a m)
        by_answer (none, w) q = ensures_ok (
          record { live = v.live; distinct = v.distinct },
          inr (
            s,
            top,
            (v.live 0 s (omega arith) top).1,
            (
              sym (ap (λ (a : Option IpcError × W). a.1) q),
              inl (ap (λ (a : Option IpcError × W). a.0) q, refl, refl),
            ),
          ),
        )
        by_answer (some gipce_forbidden, w) q = ensures_ok (gone gipce_forbidden w q)
        by_answer (some gipce_not_found, w) q = ensures_ok (gone gipce_not_found w q)
        by_answer (some e, w) q = ensures_oops

    heard_top :
        (t : Option ℕ) → m.stack 0 ≡ t → Ensures (Heard type key m) (send_to send t type key m)
    heard_top none e = ensures_ok (v, inl (e, refl))
    heard_top (some s) e = heard s e

    -- On consistent sessions, if the handler of a device event with a key comes back, then the
    -- event is the press or the release of a key. Without a session on the stack nothing has
    -- changed; otherwise one message with the event has gone to the process of the session on
    -- top, and that session is gone from the stack if its process has not taken it.
    pub on_device_event-Heard :
        (size : ℕ)
        → Ensures
            (λ m'. (size ≡ 1) × (type < 2) × Heard type key m m')
            (on_device_event send (some (record { type = type; key = some key; size = size })) m)
    unfolding on_device_event session_on_top
    on_device_event-Heard size =
        Ensures-if (not (size == 1)) (λ _. ensures_oops)
          λ one.
            Ensures-if (not (leb type 1)) (λ _. ensures_oops)
              λ two.
                Ensures-weaken (λ r h. (ground arith, ground arith, h)) (heard_top (m.stack 0) refl)

  -- The calls of processes and the events of the keyboard, in any order.
  pub data Step : Manager W → Manager W → Type 0 where
    attach :
        {m m' : Manager W} (p : ℤ) (e : DeviceError) → keyboard_attach p m ≡ ok (e, m') → Step m m'
    event :
        {m m' : Manager W} (type key size : ℕ)
        → on_device_event send (some (record { type = type; key = some key; size = size })) m
          ≡ ok m'
        → Step m m'
    destroyed : {m : Manager W} (p : ℤ) → Step m (on_session_destroy p m)

  pub data Reach (m : Manager W) : Manager W → Type 0 where
    here : Reach m m
    next : {m1 m2 : Manager W} → Reach m m1 → Step m1 m2 → Reach m m2

  Step-IsConsistent : {m m' : Manager W} → Step m m' → IsConsistent m → IsConsistent m'
  Step-IsConsistent (attach p e q) v = (returns_result (keyboard_attach-Attached p _ v) q).0
  Step-IsConsistent (event type key size q) v =
      (ensures_result (on_device_event-Heard _ v type key size) q).2.0
  Step-IsConsistent (destroyed p) v = on_session_destroy-IsConsistent p _ v

  -- In every state that attachments, events and notifications reach from the initial one, each
  -- session on the stack is one of a process, and no process has two sessions.
  pub reachable_sessions-IsConsistent :
      {w : W} {m : Manager W} → Reach (initial w) m → IsConsistent m
  reachable_sessions-IsConsistent {w} here = initial-IsConsistent w
  reachable_sessions-IsConsistent (next r s) =
      Step-IsConsistent s (reachable_sessions-IsConsistent r)
