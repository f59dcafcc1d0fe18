-- ===== src/Dev/Cleanup.antt =====
-- src/system/kernel/dev/dev.c: the cleanup of the devices after a process.
use gunw_os.Prelude.Outcome.{ok, ensures_result}
use gunw_os.Prelude.Int.{ℤ, eq_ℤ, eq_ℤ_iff}
use gunw_os.Prelude.{
  ℕ, zero, suc, ◌+◌, ◌≤◌, ◌<◌, ◌≡◌, ◌≢◌, ◌∙◌, ap, sym, subst, inl, inr, refl, Bool-cases,
  update_self, update_ne, if◌then◌else◌, arith, ℕ_discrete, dec_lt,
}
use gunw_os.Kernel.{none_proc_id}
use gunw_os.Dev.{
  Machine, Device, freed, set_device, k_dev_release_hold, cleanup_from, k_dev_proc_cleanup,
}
use gunw_os.Dev.Preserve.{k_dev_release_hold-Consistent}
use gunw_os.Dev.Invariant.{IsConsistent}
use gunw_os.Dev.Hold.{release_own}

-- The entry of a device after its holder is gone.
abbrev pub cleaned : {S : Type 0} → ℤ → Device S → Device S
cleaned p d = if eq_ℤ d.holder p then freed d else d

module _ {S : Type 0} (p : ℤ) (other : p ≢ none_proc_id) where
  abbrev pub Cleaned : ℕ → ℕ → Machine S → Machine S → Type 0
  Cleaned id n m m' =
      ((j : ℕ) → j < id → m'.devices j ≡ m.devices j)
      × ((j : ℕ) → id ≤ j → j < id + n → m'.devices j ≡ cleaned p (m.devices j))

  clean_one :
      (id : ℕ) (m : Machine S)
      → IsConsistent m
      → (m' : Machine S) × ((if eq_ℤ (m.devices id).holder p
            then k_dev_release_hold p id m
            else ok m)
          ≡ ok m')
        × IsConsistent m'
        × (m'.devices id ≡ cleaned p (m.devices id))
        × ((j : ℕ) → id ≢ j → m'.devices j ≡ m.devices j)
  clean_one id m v = elim (Bool-cases (eq_ℤ (m.devices id).holder p)) [
    | inl mine ↦
        let h : (m.devices id).holder ≡ p = (eq_ℤ_iff _ _).0 mine in
        let lt : id < m.devices_count = installed (dec_lt id m.devices_count) h in
        let done = release_own p id m m (omega (arith, v.count_le)) lt h in
        (
          set_device m id (freed (m.devices id)),
          rw mine done,
          ensures_result (k_dev_release_hold-Consistent p id m v) done,
          update_self m.devices id _ ∙ rw mine,
          λ j ne. update_ne m.devices id j _ ne,
        )
    | inr not_mine ↦ (m, rw not_mine, v, rw not_mine, λ j ne. refl)
  ]
    where
      installed : Dec (id < m.devices_count) → (m.devices id).holder ≡ p → id < m.devices_count
      installed (yes lt) h = lt
      installed (no ge) h = absurd (other (sym h ∙ (v.entries id).absent (omega arith)))

  clean_all :
      (id n : ℕ) (m : Machine S)
      → IsConsistent m
      → (m' : Machine S) × (cleanup_from p id n m ≡ ok m') × Cleaned id n m m'
  unfolding cleanup_from
  clean_all id zero m v = (m, refl, (λ j lt. refl, λ j le lt. absurd (omega arith)))
  clean_all id (suc n) m v =
      let (m1, e1, v1, here, there) = clean_one id m v in
      let (m2, e2, (before, behind)) = clean_all (id + 1) n m1 v1 in
      (
        m2,
        rw e1 e2,
        (
          λ j lt. before j (omega arith) ∙ there j (omega arith),
          λ j le lt. elim (ℕ_discrete id j) [
            | yes e ↦
                subst (λ k. m2.devices k ≡ cleaned p (m.devices k)) e
                  (before id (omega arith) ∙ here)
            | no ne ↦ behind j (omega arith) (omega arith) ∙ ap (cleaned p) (there j ne)
          ],
        ),
      )

  -- On a consistent table the cleanup after a process returns; each device that the process held
  -- has no holder, listener and decoder afterwards, and every other device is as it was.
  pub k_dev_proc_cleanup-Cleaned :
      (m : Machine S)
      → IsConsistent m
      → (m' : Machine S) × (k_dev_proc_cleanup p m ≡ ok m')
        × ((j : ℕ) → j < 8 → m'.devices j ≡ cleaned p (m.devices j))
  unfolding k_dev_proc_cleanup
  k_dev_proc_cleanup-Cleaned m v =
      let (m', e, (_, all)) = clean_all 0 8 m v in
      (m', e, λ j lt. all j (omega arith) (omega arith))
