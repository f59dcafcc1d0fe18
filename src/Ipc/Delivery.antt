-- ===== src/Ipc/Delivery.antt =====
-- src/system/kernel/ipc/delivery.c, ipc.c, and of utility.c and binding.c what goes through a process:
-- queries are delivered as events, and a sender that expects a reply is locked.
-- The routine that encodes a query for the run loop is a parameter.
use gunw_os.Prelude.Outcome.{Outcome, ok, oops, hang, ◌>>=◌}
use gunw_os.Prelude.Int.{ℤ, leb_ℤ, eq_ℤ}
use gunw_os.Prelude.{
  ℕ, zero, suc, ◌+◌, ◌-◌, ◌^◌, Bool, false, not, ◌&&◌, ◌||◌, Option, none, some, ◌∷◌, Array, update,
  first, leb, ltb, ◌==◌, if◌then◌else◌, is_some,
}
use gunw_os.Kernel.{kernel_proc_id, none_proc_id, plt_ipc, write_current}
use gunw_os.Proc.{k_proc_unlock}
use gunw_os.Ipc.Bindings.{binding_initialize}
use gunw_os.Ipc.{
  System, IpcListener, IpcReply, IpcError, gipce_invalid_path, gipce_invalid_parameter, BindData,
  PathData, gilt_none, max_ipc_listener, max_ipc_token, path_max_length, path_notification_validate,
  next_listener_index_for_path,
}

-- Bytes that a pointer, which may be null, points to.
pub record Data : Type 0 where
  pub ptr : Option (Array ℕ)
  pub bytes : ℕ

-- `struct gnwIpcSenderQuery`; a null path is `none`, and the reply pointers are addresses.
pub record SenderQuery : Type 0 where
  pub proc_id : ℤ
  pub path_data : Option PathData
  pub query_data : Data
  pub reply_err_ptr : ℕ
  pub reply_ptr : ℕ
  pub reply_bytes : ℕ
  pub bind_data : BindData

-- `struct gnwIpcEndpointQuery`, of 28 bytes.
pub record EndpointQuery : Type 0 where
  pub source_proc_id : ℤ
  pub query_data : Data
  pub reply_size_bytes : ℕ
  pub token : ℕ
  pub bound : Bool
  pub permissions : ℕ

abbrev pub endpoint_query_size : ℕ
endpoint_query_size = 28

-- What a routine answers, `none` being success, and the tables as it leaves them.
abbrev pub Result : Type 0
Result = Outcome (Option IpcError × System)

-- The error code -6, as it is stored.
abbrev ignored_code : ℕ
ignored_code = 2 ^ 32 - 6

abbrev pub empty_reply : IpcReply
empty_reply = record {
  sender_proc_id = none_proc_id;
  handler_proc_id = none_proc_id;
  reply_error_ptr = 0;
  reply_buffer_ptr = 0;
  reply_buffer_bytes = 0;
}

-- `k_ipc_utl_clearReply`
unfoldable pub clear_reply : ℕ → System → Outcome System
clear_reply n s =
    if leb max_ipc_token n then oops else ok (record s { replies = update s.replies n empty_reply })

-- `k_ipc_utl_unlockIfAble`
unfoldable pub unlock_if_able : ℤ → System → Outcome System
unlock_if_able p s =
    let token = first (λ t. eq_ℤ (s.replies t).sender_proc_id p) 0 max_ipc_token in
    if ltb token max_ipc_token
    then ok s
    else (k_proc_unlock p plt_ipc s.kernel >>= λ k. ok (record s { kernel = k }))

-- `clearListener`
abbrev pub empty_listener : IpcListener
empty_listener = record {
  proc_id = none_proc_id;
  path = λ _. 0;
  type = gilt_none;
  listener = 0;
  decoder = 0;
  binding_required = false;
  permission_mask = 0;
}

unfoldable pub clear_listener : ℕ → System → Outcome System
clear_listener n s =
    if leb max_ipc_listener n
    then oops
    else ok (record s { listeners = update s.listeners n empty_listener })

-- `for (i = start; i < start + n; ++i)` over a body that may halt.
unfoldable pub for_each : (ℕ → System → Outcome System) → ℕ → ℕ → System → Outcome System
for_each body i zero s = ok s
for_each body i (suc n) s = body i s >>= for_each body (i + 1) n

unfoldable pub k_ipc_init : System → Outcome System
unfolding for_each clear_listener clear_reply binding_initialize
k_ipc_init s =
    for_each clear_listener 0 max_ipc_listener s >>= for_each clear_reply 0 max_ipc_token >>= λ s'.
    ok (record s' { bindings = binding_initialize s'.bindings })

-- `failReply`
unfoldable pub fail_reply : ℕ → System → Outcome System
unfolding clear_reply unlock_if_able
fail_reply token s =
    let reply = s.replies token in
    if leb max_ipc_token token
    then oops
    else if eq_ℤ reply.handler_proc_id none_proc_id
    then oops
    else if reply.reply_error_ptr == 0
    then oops
    else if leb_ℤ reply.sender_proc_id kernel_proc_id
    then oops
    else (clear_reply token (record s {
      kernel = record s.kernel {
        effects = write_current reply.reply_error_ptr ignored_code ∷ s.kernel.effects;
      };
    })
        >>= unlock_if_able reply.sender_proc_id)

abbrev pub nullable : ℕ → Option ℕ
nullable n = if n == 0 then none else some n

-- `validateQuery`, behind the test of the path for null.
unfoldable pub validate_query : PathData → SenderQuery → Outcome (Option IpcError)
validate_query path q =
    if not (is_some q.query_data.ptr) && not (q.query_data.bytes == 0)
    then oops
    else if is_some q.query_data.ptr && (q.query_data.bytes == 0)
    then oops
    else if path.bytes == 0 || ltb path_max_length path.bytes
    then ok (some gipce_invalid_path)
    else ok none

-- `validateNotificationQuery`
unfoldable pub validate_notification_query : PathData → SenderQuery → Outcome (Option IpcError)
unfolding validate_query path_notification_validate
validate_notification_query path q = validate_query path q >>= elim [
  | some e ↦ ok (some e)
  | none ↦
      if not (path_notification_validate path)
      then ok (some gipce_invalid_path)
      else if not (q.reply_ptr == 0) || not (q.reply_err_ptr == 0) || not (q.reply_bytes == 0)
      then ok (some gipce_invalid_parameter)
      else ok none
]

-- The loops over the listeners of a path: the first, from `start` on, that is wanted.
unfoldable pub wanted_listener :
    Array IpcListener → PathData → (IpcListener → Bool) → ℕ → ℕ → Outcome ℕ
unfolding next_listener_index_for_path
wanted_listener ls path wanted zero start = hang
wanted_listener ls path wanted (suc fuel) start =
    let i = next_listener_index_for_path ls path start in
    let rest = wanted_listener ls path wanted fuel (i + 1) in
    if leb max_ipc_listener i then ok i else if wanted (ls i) then ok i else rest
