-- ===== src/Ipc/Registration.antt =====
-- src/system/kernel/ipc/registration.c: processes register listeners for paths.
use gunw_os.Prelude.Outcome.{Outcome, ok, oops, ◌>>=◌, Answer, done, fails}
use gunw_os.Prelude.Int.{ℤ, pos, leb_ℤ, eq_ℤ}
use gunw_os.Prelude.{
  ℕ, zero, suc, ◌+◌, Bool, true, false, not, ◌&&◌, ◌||◌, Option, none, some, [], ◌∷◌, Array, update,
  first, leb, ltb, ◌==◌, if◌then◌else◌,
}
use gunw_os.Kernel.{kernel_proc_id, none_proc_id}
use gunw_os.Text.{strcmp, literal}
use gunw_os.Ipc.{
  IpcListener, IpcError, gipce_invalid_path, gipce_invalid_parameter, gipce_already_exists,
  gipce_precondition_not_satisfied, PathData, ListenerType, gilt_none, gilt_global, gilt_direct,
  gilt_notification, max_ipc_listener, path_max_length, path_global_validate, path_direct_validate,
  path_notification_validate, next_listener_index_for_path,
}

-- `GNW_PATH_IPC_BINDING_NOTIFICATION_SESSION_DESTROYED`: "_/ipc/sd", with its end.
abbrev pub session_destroyed : Array ℕ
session_destroyed = literal (95 ∷ 47 ∷ 105 ∷ 112 ∷ 99 ∷ 47 ∷ 115 ∷ 100 ∷ [])

unfoldable pub free_listener_index : Array IpcListener → ℕ
free_listener_index ls = first (λ i. eq_ℤ (ls i).proc_id none_proc_id) 0 max_ipc_listener

-- `receivesKernelNotifications`, from index `i` on with `n` entries to come.
unfoldable pub receives_kernel_notifications : Array IpcListener → ℤ → ℕ → ℕ → Outcome Bool
unfolding strcmp
receives_kernel_notifications ls p i zero = ok false
receives_kernel_notifications ls p i (suc n) =
    let rest = receives_kernel_notifications ls p (i + 1) n in
    if eq_ℤ (ls i).proc_id p
    then (strcmp path_max_length (ls i).path 9 session_destroyed >>= λ c.
        if eq_ℤ c (pos 0) then ok true else rest)
    else rest

-- The type of a path, if it has exactly one.
unfoldable pub listener_type : Bool → Bool → Bool → ListenerType
listener_type true false false = gilt_global
listener_type false true false = gilt_direct
listener_type false false true = gilt_notification
listener_type _ _ _ = gilt_none

abbrev pub is_global : ListenerType → Bool
is_global t = elim t [ gilt_global ↦ true | _ ↦ false ]

abbrev pub is_direct : ListenerType → Bool
is_direct t = elim t [ gilt_direct ↦ true | _ ↦ false ]

abbrev pub is_notification : ListenerType → Bool
is_notification t = elim t [ gilt_notification ↦ true | _ ↦ false ]

abbrev pub is_no_type : ListenerType → Bool
is_no_type t = elim t [ gilt_none ↦ true | _ ↦ false ]

unfoldable pub path_type : PathData → ListenerType
unfolding listener_type path_global_validate path_direct_validate path_notification_validate
path_type p =
    listener_type (path_global_validate p) (path_direct_validate p) (path_notification_validate p)

-- The writes at the end of `k_ipc_register`.
unfoldable pub write_listener :
    ℤ → PathData → ListenerType → ℕ → ℕ → Bool → ℕ → IpcListener → IpcListener
write_listener p path type handler decoder binding_required mask l = record {
  proc_id = p;
  path = λ i. if ltb i path.bytes then path.ptr i else l.path i;
  type = type;
  listener = handler;
  decoder = decoder;
  binding_required = binding_required;
  permission_mask = mask;
}

-- From the precondition on.
unfoldable pub register_listener :
    ℤ
    → PathData
    → ListenerType
    → ℕ
    → ℕ
    → Bool
    → ℕ
    → Array IpcListener
    → Outcome (Answer IpcError (Array IpcListener))
unfolding receives_kernel_notifications next_listener_index_for_path free_listener_index
    write_listener
register_listener p path type handler decoder binding_required mask ls =
    (if binding_required then receives_kernel_notifications ls p 0 max_ipc_listener else ok true)
    >>= λ satisfied.
        if not satisfied
        then ok (fails gipce_precondition_not_satisfied)
        else if is_global type && ltb (next_listener_index_for_path ls path 0) max_ipc_listener
        then ok (fails gipce_already_exists)
        else (let i = free_listener_index ls in
            if leb max_ipc_listener i
            then oops
            else ok (
                done (
                  update ls i
                    (write_listener p path type handler decoder binding_required mask (ls i)))))

-- A null path is `none`.
unfoldable pub k_ipc_register :
    ℤ
    → Option PathData
    → ℕ
    → ℕ
    → Bool
    → ℕ
    → Array IpcListener
    → Outcome (Answer IpcError (Array IpcListener))
unfolding path_type register_listener
k_ipc_register p path_data handler decoder binding_required mask ls =
    if leb_ℤ p kernel_proc_id then ok (fails gipce_invalid_parameter) else elim path_data [
      | none ↦ oops
      | some path ↦
          let type = path_type path in
          if path.bytes == 0 || ltb path_max_length path.bytes
          then ok (fails gipce_invalid_path)
          else if handler == 0
          then ok (fails gipce_invalid_parameter)
          else if decoder == 0
          then ok (fails gipce_invalid_parameter)
          else if not binding_required && not (mask == 0)
          then ok (fails gipce_invalid_parameter)
          else if is_no_type type
          then ok (fails gipce_invalid_path)
          else if is_direct type && not binding_required
          then ok (fails gipce_invalid_parameter)
          else if is_notification type && binding_required
          then ok (fails gipce_invalid_parameter)
          else register_listener p path type handler decoder binding_required mask ls
    ]
