-- ===== src/Syscall/Buffer.antt =====
-- src/system/kernel/syscall/usr/devmemwrite.c, reached from hal/syscall/usrfunc.c: which memory a
-- process can hand to a driver.
use gunw_os.Prelude.Outcome.{
  Outcome, ok, oops, hang, fault, Ensures, ensures_oops, Ensures-if, Ensures-bind, Ensures-then,
  Ensures-weaken, ensures_ok, ensures_hang, ensures_fault,
}
use gunw_os.Prelude.Int.{ℤ}
use gunw_os.Prelude.{
  ℕ, ◌+◌, ◌<◌, ◌≡◌, ◌≢◌, refl, ap, sym, subst, Bool, true, false, not, ◌==◌, word, arith,
}
use gunw_os.Kernel.{k_proc_id_is_user}
use gunw_os.Mem.Zone.{k_mem_buffer_zone_valid_for_proc, user_end, buffer_zone_valid_lem}
use gunw_os.Dev.Errors.{DeviceError}
use gunw_os.Dev.Descriptor.{AddrRange}
use gunw_os.Dev.{Machine, k_dev_get_by_id}
use gunw_os.Dev.Hold.{Wrote, k_dev_write_mem-Wrote}
use gunw_os.Syscall.{
  Caller, user_stack_safe_value, answered, checked, range_at, k_scr_usr_dev_mem_write,
  k_scr_dev_mem_write,
}

-- Every byte of the buffer is one that user code can reach.
abbrev pub InReach : ℕ → ℕ → Type 0
InReach ptr bytes = (i : ℕ) → i < bytes → (ptr ≢ 0) × (ptr + i < user_end)

word-lt : (n : ℕ) → word n < 4294967296
word-lt n = omega arith

pub valid-InReach :
    (p : ℤ) (ptr bytes : ℕ)
    → k_proc_id_is_user p ≡ true
    → ptr < 4294967296
    → bytes < 4294967296
    → Ensures
        (λ valid. valid ≡ true → InReach ptr bytes)
        (k_mem_buffer_zone_valid_for_proc p ptr bytes)
valid-InReach p ptr bytes u a b =
    let law = buffer_zone_valid_lem p ptr bytes a b u in
    answer (k_mem_buffer_zone_valid_for_proc p ptr bytes) law.0.0
  where
    answer :
        (o : Outcome Bool)
        → (o ≡ ok true → InReach ptr bytes)
        → Ensures (λ valid. valid ≡ true → InReach ptr bytes) o
    answer (ok true) f = ensures_ok (λ e. f refl)
    answer (ok false) f = ensures_ok (λ e. absurd (cc))
    answer oops f = ensures_oops
    answer hang f = ensures_hang
    answer fault f = ensures_fault

-- A call that tests a buffer of the caller goes on only if it is in reach.
Ensures-checked {ℓ κ} :
    {A : Type ℓ} {P : A → Type κ} {rest : Outcome A} (p : ℤ) (ptr bytes : ℕ)
    → k_proc_id_is_user p ≡ true
    → ptr < 4294967296
    → bytes < 4294967296
    → (InReach ptr bytes → Ensures P rest)
    → Ensures P (checked p ptr bytes rest)
Ensures-checked p ptr bytes u a b f =
    Ensures-if (ptr == 0) (λ _. ensures_oops)
      λ _.
        Ensures-bind (valid-InReach p ptr bytes u a b)
          λ valid reach. Ensures-if (not valid) (λ _. ensures_oops) λ e. f (reach (ground arith))

pub stack_value-InReach :
    (u : Caller) (offset bytes : ℕ)
    → k_proc_id_is_user u.proc_id ≡ true
    → bytes < 4294967296
    → Ensures
        (λ x. (x ≡ u.words (word (u.esp + offset))) × InReach (word (u.esp + offset)) bytes)
        (user_stack_safe_value u offset bytes)
unfolding user_stack_safe_value
stack_value-InReach u offset bytes user b =
    Ensures-bind (valid-InReach u.proc_id (word (u.esp + offset)) bytes user (word-lt _) b)
      λ valid reach.
        Ensures-if (not valid) (λ _. ensures_oops) λ e. ensures_ok (refl, reach (ground arith))

pub Ensures-answered {ℓ κ} :
    {A : Type ℓ} {P : A → Type κ} {result : Outcome A} (u : Caller)
    → k_proc_id_is_user u.proc_id ≡ true
    → (InReach (word u.esp) 4 → Ensures P result)
    → Ensures P (answered u result)
unfolding answered
Ensures-answered u user f =
    Ensures-bind (valid-InReach u.proc_id (word u.esp) 4 user (word-lt _) (omega arith))
      λ valid reach. Ensures-if (not valid) (λ _. ensures_oops) λ e. f (reach (ground arith))

-- What a write by the caller hands over: the range lies at the address in the third parameter and
-- the buffer at the one in the second. The parameters, the place of the result, the range and the buffer are in reach, and the
-- kernel has refused the write or called the routine of the driver with them.
pub record Handed {S : Type 0} (u : Caller) (m : Machine S) (r : DeviceError × Machine S)
    : Type 0 where
  pub id : ℕ
  pub buffer : ℕ
  pub range : AddrRange
  pub id_param : (id ≡ u.words (word (u.esp + 4))) × InReach (word (u.esp + 4)) 4
  pub buffer_param : (buffer ≡ u.words (word (u.esp + 8))) × InReach (word (u.esp + 8)) 4
  pub result_place : InReach (word u.esp) 4
  pub range_param : InReach (word (u.esp + 12)) 4
  pub at_address : range ≡ range_at u.words (u.words (word (u.esp + 12)))
  pub range_in_reach : InReach (u.words (word (u.esp + 12))) 8
  pub buffer_in_reach : InReach buffer range.size_bytes
  pub not_empty : 0 < range.size_bytes
  pub wrote : Wrote u.proc_id id m buffer range r

module _ {S : Type 0} (u : Caller) (m : Machine S) where
  -- If the words in the memory of a user process have 32 bits and its write to a device returns,
  -- then its parameters, the place of the result, the range and every byte of the buffer lie in
  -- the memory that user code can reach, and either the call has failed and nothing has changed,
  -- or the process holds the started device, the range lies within the largest input that the
  -- driver declares, and the routine of the driver has been called once with this buffer and
  -- range.
  pub k_scr_dev_mem_write-Handed :
      k_proc_id_is_user u.proc_id ≡ true
      → ((i : ℕ) → u.words i < 4294967296)
      → Ensures (Handed u m) (k_scr_dev_mem_write u m)
  unfolding k_scr_dev_mem_write k_scr_usr_dev_mem_write
  k_scr_dev_mem_write-Handed user words =
      Ensures-bind (stack_value-InReach u 4 4 user (omega arith)) λ id i.
        Ensures-bind (stack_value-InReach u 8 4 user (omega arith)) λ buffer b.
          Ensures-bind (stack_value-InReach u 12 4 user (omega arith))
            λ range r. Ensures-answered u user (handed id buffer range i b r)
    where
      handed :
          (id buffer range : ℕ)
          → (id ≡ u.words (word (u.esp + 4))) × InReach (word (u.esp + 4)) 4
          → (buffer ≡ u.words (word (u.esp + 8))) × InReach (word (u.esp + 8)) 4
          → (range ≡ u.words (word (u.esp + 12))) × InReach (word (u.esp + 12)) 4
          → InReach (word u.esp) 4
          → Ensures (Handed u m) (k_scr_usr_dev_mem_write u.proc_id id buffer range u.words m)
      handed id buffer range i b r place =
          let size = u.words (range + 4) in
          Ensures-if (buffer == 0) (λ _. ensures_oops)
            λ _.
              Ensures-checked u.proc_id range 8 user
                (subst (λ x. x < 4294967296) (sym r.0) (words _)) (omega arith)
                λ range_ok.
                  Ensures-if (size == 0) (λ _. ensures_oops)
                    λ some_bytes.
                      Ensures-checked u.proc_id buffer size user
                        (subst (λ x. x < 4294967296) (sym b.0) (words _)) (words _)
                        λ buffer_ok. Ensures-then (k_dev_get_by_id id true m) λ desc.
                          Ensures-weaken
                            (λ out w. record {
                              id = id;
                              buffer = buffer;
                              range = range_at u.words range;
                              id_param = i;
                              buffer_param = b;
                              result_place = place;
                              range_param = r.1;
                              at_address = ap (range_at u.words) r.0;
                              range_in_reach = subst (λ x. InReach x 8) r.0 range_ok;
                              buffer_in_reach = buffer_ok;
                              not_empty = ground arith;
                              wrote = w;
                            })
                            (k_dev_write_mem-Wrote u.proc_id id m buffer (range_at u.words range))
