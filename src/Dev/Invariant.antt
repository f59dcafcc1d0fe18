-- ===== src/Dev/Invariant.antt =====
-- src/system/kernel/dev/dev.c: what holds of the table of devices between the calls.
use gunw_os.Prelude.Int.{ℤ}
use gunw_os.Prelude.{
  ℕ, suc, ◌≤◌, ◌<◌, ◌≡◌, ◌≢◌, ◌⊎◌, inl, inr, refl, Bool, true, Array, update, update-all,
  update_self, update_ne, subst, sym, ℕ_discrete, Option, none, some, is_some, arith,
}
use gunw_os.Kernel.{none_proc_id, k_proc_id_is_user}
use gunw_os.Hal.{IsrEntry}
use gunw_os.Dev.{Machine, Device, freed}

-- Entry `i` of a table of `count` devices: an installed one is initialized; only an installed one
-- has a holder, which is a user process; only a held one has a listener, and then a decoder too.
pub record IsEntry {S : Type 0} (count i : ℕ) (d : Device S) : Type 0 where
  pub installed : i < count → d.initialized ≡ true
  pub absent : count ≤ i → d.holder ≡ none_proc_id
  pub held : (d.holder ≡ none_proc_id) ⊎ (k_proc_id_is_user d.holder ≡ true)
  pub free : d.holder ≡ none_proc_id → (d.listener ≡ none) × (d.decoder ≡ none)
  pub decoded : is_some d.listener ≡ true → is_some d.decoder ≡ true

-- The table as a whole: its entries, and each registered interrupt belongs to an installed device.
pub record Consistent {S : Type 0} (devices : Array (Device S)) (count : ℕ) (isr : Array IsrEntry)
    : Type 0 where
  pub count_le : count ≤ 8
  pub entries : (i : ℕ) → IsEntry count i (devices i)
  pub owned : (irq : ℕ) → is_some (isr irq).routine ≡ true → (isr irq).dev_id < count

abbrev pub IsConsistent : {S : Type 0} → Machine S → Type 0
IsConsistent m = Consistent m.devices m.devices_count m.hal.isr_reg

module _ {S : Type 0} {devices : Array (Device S)} {count : ℕ} {isr : Array IsrEntry}
    (v : Consistent devices count isr) where
  -- A change of one entry.
  pub update-Consistent :
      (i : ℕ) (d : Device S) → IsEntry count i d → Consistent (update devices i d) count isr
  update-Consistent i d e = record {
    count_le = v.count_le;
    entries = update-all (IsEntry count) devices i d e v.entries;
    owned = v.owned;
  }

  pub started-IsEntry : (i : ℕ) (b : Bool) → IsEntry count i (record (devices i) { started = b })
  started-IsEntry i b =
      let e = v.entries i in
      record {
        installed = e.installed;
        absent = e.absent;
        held = e.held;
        free = e.free;
        decoded = e.decoded;
      }

  pub held-IsEntry :
      (i : ℕ) (p : ℤ)
      → i < count
      → k_proc_id_is_user p ≡ true
      → (devices i).holder ≡ none_proc_id
      → IsEntry count i (record (devices i) { holder = p })
  held-IsEntry i p lt user none_before =
      let e = v.entries i in
      record {
        installed = e.installed;
        absent = λ le. absurd (omega arith);
        held = inr user;
        free = λ none_now. e.free none_before;
        decoded = e.decoded;
      }

  pub freed-IsEntry : (i : ℕ) → IsEntry count i (freed (devices i))
  freed-IsEntry i =
      let e = v.entries i in
      record {
        installed = e.installed;
        absent = λ le. refl;
        held = inl refl;
        free = λ none_now. (refl, refl);
        decoded = λ h. absurd (cc);
      }

  pub listening-IsEntry :
      (i l d : ℕ)
      → i < count
      → (devices i).holder ≢ none_proc_id
      → IsEntry count i (record (devices i) { listener = some l; decoder = some d })
  listening-IsEntry i l d lt owner =
      let e = v.entries i in
      record {
        installed = e.installed;
        absent = e.absent;
        held = e.held;
        free = λ none_now. absurd (owner none_now);
        decoded = λ h. refl;
      }

  -- A new device behind the last one.
  pub append-Consistent :
      (d : Device S)
      → count < 8
      → d.initialized ≡ true
      → d.holder ≡ none_proc_id
      → d.listener ≡ none
      → d.decoder ≡ none
      → Consistent (update devices count d) (suc count) isr
  append-Consistent d lt i h l c = record {
    count_le = omega arith;
    entries = λ j. elim (ℕ_discrete count j) [
      | yes e ↦
          subst (λ n. IsEntry (suc count) n (update devices count d n)) e
            (subst (IsEntry (suc count) count) (sym (update_self devices count d)) new)
      | no ne ↦ subst (IsEntry (suc count) j) (sym (update_ne devices count j d ne)) (old j ne)
    ];
    owned = λ irq some_routine. omega (arith, v.owned irq some_routine);
  }
    where
      new : IsEntry (suc count) count d
      new = record {
        installed = λ lt. i;
        absent = λ le. h;
        held = inl h;
        free = λ none_now. (l, c);
        decoded = λ some_now. absurd (cc);
      }

      old : (j : ℕ) → count ≢ j → IsEntry (suc count) j (devices j)
      old j ne =
          let e = v.entries j in
          record {
            installed = λ lt. e.installed (omega arith);
            absent = λ le. e.absent (omega arith);
            held = e.held;
            free = e.free;
            decoded = e.decoded;
          }

  -- The registration of an interrupt for an installed device.
  pub register-Consistent :
      (irq id : ℕ) (routine : Option ℕ)
      → id < count
      → Consistent devices count (update isr irq (record { dev_id = id; routine = routine }))
  register-Consistent irq id routine lt = record {
    count_le = v.count_le;
    entries = v.entries;
    owned =
        update-all (λ _ e. is_some e.routine ≡ true → e.dev_id < count) isr irq _ (λ h. lt) v.owned;
  }
