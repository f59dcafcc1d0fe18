-- ===== src/Ipc/Bindings.antt =====
-- src/system/kernel/ipc/binding.c: the table of bindings, but for the notification of a destroyed one
-- (Ipc/Delivery.antt).
pub mod Lookup
use gunw_os.Prelude.Outcome.{Outcome, ok, oops, Answer, done, fails}
use gunw_os.Prelude.Int.{ℤ, eq_ℤ}
use gunw_os.Prelude.{
  ℕ, Bool, true, false, not, ◌&&◌, Option, none, some, Array, update, first, ltb, if◌then◌else◌,
}
use gunw_os.Kernel.{none_proc_id}
use gunw_os.Ipc.{Binding, max_binding, IpcError, gipce_full, gipce_not_found}

-- `bindingClear`
abbrev pub clear_binding : Binding
clear_binding = record { sender = none_proc_id; receiver = none_proc_id; permissions = 0 }

-- `k_ipc_binding_initialize`
unfoldable pub binding_initialize : Array Binding → Array Binding
binding_initialize bs = λ i. if ltb i max_binding then clear_binding else bs i

abbrev pub binds : ℤ → ℤ → Binding → Bool
binds sender receiver b = eq_ℤ b.sender sender && eq_ℤ b.receiver receiver

unfoldable pub find : Array Binding → ℤ → ℤ → Option ℕ
find bs sender receiver =
    let i = first (λ i. binds sender receiver (bs i)) 0 max_binding in
    if ltb i max_binding then some i else none

unfoldable pub find_free : Array Binding → Option ℕ
unfolding find
find_free bs = find bs none_proc_id none_proc_id

unfoldable pub binding_create : ℤ → ℤ → ℕ → Array Binding → Answer IpcError (Array Binding)
unfolding find_free
binding_create sender receiver permissions bs = elim (find_free bs) [
  | none ↦ fails gipce_full
  | some i ↦
      done
        (update bs i (record { sender = sender; receiver = receiver; permissions = permissions }))
]

unfoldable pub binding_get_permissions : ℤ → ℤ → Bool → Array Binding → Outcome (Answer IpcError ℕ)
unfolding find
binding_get_permissions sender receiver permissions_ptr bs =
    if not permissions_ptr then oops else elim (find bs sender receiver) [
      | none ↦ ok (fails gipce_not_found)
      | some i ↦ ok (done (bs i).permissions)
    ]

unfoldable pub binding_update : ℤ → ℤ → ℕ → Array Binding → Answer IpcError (Array Binding)
unfolding find
binding_update sender receiver permissions bs = elim (find bs sender receiver) [
  | none ↦ fails gipce_not_found
  | some i ↦ done (update bs i (record (bs i) { permissions = permissions }))
]
