-- ===== src/Ipc/Listeners.antt =====
-- src/system/kernel/ipc/delivery.c: the loops over the listeners of a path come to an end.
use gunw_os.Prelude.Outcome.{ok}
use gunw_os.Prelude.{
  ℕ, zero, suc, ◌+◌, ◌<◌, ◌≤◌, ◌≡◌, ◌≢◌, ◌⊎◌, inl, inr, ◌∙◌, arith, Bool, true, false, Array, leb,
  Bool-cases, dec_lt, ℕ_discrete,
}
use gunw_os.Ipc.{PathData, IpcListener, max_ipc_listener, next_listener_index_for_path}
use gunw_os.Ipc.Paths.{Begins, next_listener_lem, le-next_listener}
use gunw_os.Ipc.Delivery.{wanted_listener}

module _ (ls : Array IpcListener) (p : PathData) (wanted : IpcListener → Bool) where
  -- The first listener from `start` on that is wanted and whose path begins with the one looked for.
  pub record FirstWanted (start i : ℕ) : Type 0 where
    pub bound : i ≤ max_ipc_listener
    pub begins : i < max_ipc_listener → Begins p (ls i).path
    pub is_wanted : i < max_ipc_listener → wanted (ls i) ≡ true
    pub earlier : (j : ℕ) → start ≤ j → j < i → (¬ Begins p (ls j).path) ⊎ (wanted (ls j) ≡ false)

  abbrev next : ℕ → ℕ
  next start = next_listener_index_for_path ls p start

  stops_end :
      (fuel start : ℕ)
      → leb max_ipc_listener (next start) ≡ true
      → wanted_listener ls p wanted (suc fuel) start ≡ ok (next start)
  unfolding wanted_listener
  stops_end fuel start e = simp e

  stops_wanted :
      (fuel start : ℕ)
      → leb max_ipc_listener (next start) ≡ false
      → wanted (ls (next start)) ≡ true
      → wanted_listener ls p wanted (suc fuel) start ≡ ok (next start)
  unfolding wanted_listener
  stops_wanted fuel start e w = simp (e, w)

  goes_on :
      (fuel start : ℕ)
      → leb max_ipc_listener (next start) ≡ false
      → wanted (ls (next start)) ≡ false
      → wanted_listener ls p wanted (suc fuel) start
        ≡ wanted_listener ls p wanted fuel (next start + 1)
  unfolding wanted_listener
  goes_on fuel start e w = simp (e, w)

  -- With more fuel than listeners are left, the loop over the listeners of a path without zero
  -- bytes ends, at the first listener that is wanted and whose path begins with the given one, or
  -- behind the last listener.
  pub wanted_listener_lem :
      (fuel start : ℕ)
      → start ≤ max_ipc_listener
      → max_ipc_listener < fuel + start
      → ((j : ℕ) → j < p.bytes → p.ptr j ≢ 0)
      → (i : ℕ) × (wanted_listener ls p wanted fuel start ≡ ok i) × FirstWanted start i
  wanted_listener_lem zero start s f nz = absurd (omega arith)
  wanted_listener_lem (suc fuel) start s f nz =
      let (bound, begins, earlier) = next_listener_lem ls p start s nz in
      elim (Bool-cases (leb max_ipc_listener (next start))) [
        | inl e ↦ (
          next start,
          stops_end fuel start e,
          record {
            bound = bound;
            begins = begins;
            is_wanted = λ h. absurd (ground arith);
            earlier = λ j a b. inl (earlier j a b);
          },
        )
        | inr e ↦ elim (Bool-cases (wanted (ls (next start)))) [
          | inl w ↦ (
            next start,
            stops_wanted fuel start e w,
            record {
              bound = bound;
              begins = begins;
              is_wanted = λ h. w;
              earlier = λ j a b. inl (earlier j a b);
            },
          )
          | inr w ↦
              let (i, found, r) =
                wanted_listener_lem fuel (next start + 1) (ground arith)
                  (omega (arith, le-next_listener ls p start)) nz in
              (
                i,
                goes_on fuel start e w ∙ found,
                record {
                  bound = r.bound;
                  begins = r.begins;
                  is_wanted = r.is_wanted;
                  earlier = λ j a b. elim (dec_lt j (next start)) [
                    | yes lt ↦ inl (earlier j a lt)
                    | no ge ↦ elim (ℕ_discrete j (next start)) [
                      | yes same ↦ inr (rw same w)
                      | no other ↦ r.earlier j (omega arith) b
                    ]
                  ];
                },
              )
        ]
      ]
