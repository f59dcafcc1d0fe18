-- ===== src/Ipc/Send.antt =====
-- src/system/kernel/ipc/delivery.c, with the destruction of bindings in binding.c and the cleanup of
-- ipc.c. The routine that encodes a query for the run loop (gnwIpcEndpointQuery_encode) is a parameter.
use Prim.Native.Nat.{bit_and}
use gunw_os.Prelude.Outcome.{Outcome, ok, oops, ◌>>=◌, Answer, done, fails}
use gunw_os.Prelude.Int.{ℤ, eq_ℤ}
use gunw_os.Prelude.{
  ℕ, ◌+◌, ◌/◌, ◌%◌, ◌^◌, true, false, not, ◌&&◌, ◌||◌, Option, none, some, Array, update, first,
  leb, ◌==◌, if◌then◌else◌,
}
use gunw_os.Queue.{k_que_dispatch_arch}
use gunw_os.Kernel.{
  kernel_proc_id, none_proc_id, plt_ipc, ProcError, pe_none, pe_ignored, pe_limit_reached,
  ipc_unlock_if_able, on_queue,
}
use gunw_os.Schedule.{unsigned}
use gunw_os.Proc.{k_proc_lock, k_proc_callback_invoke_ptr}
use gunw_os.Ipc.{
  System, IpcListener, Binding, IpcError, gipce_invalid_path, gipce_invalid_parameter,
  gipce_already_exists, gipce_ignored, gipce_forbidden, gipce_full, gipce_unknown, gipce_not_found,
  gibf_none, gibf_bind, gibf_update, gibf_unbind, BindData, ListenerType, max_ipc_listener,
  max_ipc_token, max_binding, path_global_validate, path_direct_validate,
}
use gunw_os.Ipc.Bindings.{
  clear_binding, find, binding_create, binding_update, binding_get_permissions,
}
use gunw_os.Ipc.Registration.{
  session_destroyed, listener_type, is_global, is_direct, is_notification, is_no_type,
}
use gunw_os.Ipc.Delivery.{
  SenderQuery, EndpointQuery, endpoint_query_size, Result, clear_reply, clear_listener, for_each,
  fail_reply, nullable, validate_query, validate_notification_query, wanted_listener,
}

module _ (encode : Option EndpointQuery → Array ℕ → Array ℕ) where
  -- What `deliver` does on an error: the reply is given up, and its sender's unlocking is queued.
  unfoldable pub give_up_reply : EndpointQuery → System → Outcome System
  unfolding clear_reply
  give_up_reply q s =
      if q.reply_size_bytes == 0
      then ok s
      else (clear_reply q.token s >>= λ s'.
          on_queue (k_que_dispatch_arch ipc_unlock_if_able (unsigned q.source_proc_id)) s'.kernel
          >>= λ k. ok (record s' { kernel = k }))

  abbrev delivery_error : ListenerType → ProcError → IpcError
  delivery_error t e = elim e [
    | pe_ignored ↦ if is_notification t then gipce_unknown else gipce_ignored
    | pe_limit_reached ↦ gipce_full
    | _ ↦ gipce_unknown
  ]

  unfoldable pub deliver : IpcListener → EndpointQuery → System → Result
  unfolding give_up_reply
  deliver l q s =
      k_proc_callback_invoke_ptr l.proc_id l.listener (some q) endpoint_query_size
        (endpoint_query_size + q.query_data.bytes) (some encode) (nullable l.decoder) s.kernel
      >>= λ (e, k).
          let s' = record s { kernel = k } in
          elim e [
            | pe_none ↦ ok (none, s')
            | error ↦ give_up_reply q s' >>= λ s''. ok (some (delivery_error l.type error), s'')
          ]

  -- `k_ipc_notify`
  unfoldable pub k_ipc_notify : SenderQuery → ℤ → System → Result
  unfolding deliver validate_notification_query wanted_listener
  k_ipc_notify q target s = elim q.path_data [
    | none ↦ oops
    | some path ↦ validate_notification_query path q >>= elim [
      | some e ↦ ok (some e, s)
      | none ↦
          wanted_listener s.listeners path (λ l. eq_ℤ l.proc_id target) (max_ipc_listener + 1) 0
          >>= λ i.
              if leb max_ipc_listener i
              then ok (none, s)
              else deliver (s.listeners i)
                  (record {
                    source_proc_id = kernel_proc_id;
                    query_data = q.query_data;
                    reply_size_bytes = 0;
                    token = max_ipc_token;
                    bound = false;
                    permissions = 0;
                  })
                  s
    ]
  ]

  -- The query of `bindingDestroyNotify`; its data are the four bytes of the requester.
  abbrev destroyed_query : ℤ → SenderQuery
  destroyed_query requester = record {
    proc_id = none_proc_id;
    path_data = some (record { ptr = session_destroyed; bytes = 8 });
    query_data = record { ptr = some (λ i. unsigned requester / 256 ^ i % 256); bytes = 4 };
    reply_err_ptr = 0;
    reply_ptr = 0;
    reply_bytes = 0;
    bind_data = record { flag = gibf_none; permissions = 0 };
  }

  unfoldable pub binding_destroy_notify : Binding → ℤ → System → Outcome System
  unfolding k_ipc_notify
  binding_destroy_notify b requester s =
      k_ipc_notify (destroyed_query requester)
        (if eq_ℤ b.receiver requester then b.sender else b.receiver) s
      >>= λ (e, s'). elim e [ none ↦ ok s' | some _ ↦ oops ]

  abbrev clear_at : ℕ → System → System
  clear_at i s = record s { bindings = update s.bindings i clear_binding }

  -- `bindingDestroy`
  unfoldable pub binding_destroy_at : ℕ → ℤ → System → Outcome System
  unfolding binding_destroy_notify
  binding_destroy_at i requester s =
      binding_destroy_notify (s.bindings i) requester s >>= λ s'. ok (clear_at i s')

  unfoldable pub k_ipc_binding_destroy : ℤ → ℤ → ℤ → System → Result
  unfolding binding_destroy_at find
  k_ipc_binding_destroy sender receiver requester s = elim (find s.bindings sender receiver) [
    | none ↦ ok (some gipce_not_found, s)
    | some i ↦ binding_destroy_at i requester s >>= λ s'. ok (none, s')
  ]

  unfoldable pub k_ipc_binding_cleanup : ℤ → System → Outcome System
  unfolding binding_destroy_at for_each
  k_ipc_binding_cleanup p s =
      for_each
        (λ i s.
          let destroyed = binding_destroy_at i p s in
          if eq_ℤ (s.bindings i).sender p
          then destroyed
          else if eq_ℤ (s.bindings i).receiver p
          then ok (clear_at i s)
          else ok s)
        0 max_binding s

  unfoldable pub k_ipc_proc_cleanup : ℤ → System → Outcome System
  unfolding k_ipc_binding_cleanup for_each clear_listener fail_reply clear_reply
  k_ipc_proc_cleanup p s =
      for_each (λ i s. if eq_ℤ (s.listeners i).proc_id p then clear_listener i s else ok s) 0
        max_ipc_listener s
      >>= for_each
          (λ t s.
            if eq_ℤ (s.replies t).handler_proc_id p
            then fail_reply t s
            else if eq_ℤ (s.replies t).sender_proc_id p
            then clear_reply t s
            else ok s)
          0 max_ipc_token
      >>= k_ipc_binding_cleanup p

  -- The switch on the flag of the binding, at the end of `k_ipc_send` and in `k_ipc_reply`. The code
  -- of an existing binding counts as success.
  abbrev pub unless_existing : IpcError → Option IpcError
  unless_existing e = elim e [ gipce_already_exists ↦ none | error ↦ some error ]

  abbrev pub with_bindings : System → Answer IpcError (Array Binding) → Result
  with_bindings s (done bs) = ok (none, record s { bindings = bs })
  with_bindings s (fails e) = ok (unless_existing e, s)

  unfoldable pub apply_binding : BindData → ℤ → ℤ → ℤ → System → Result
  unfolding k_ipc_binding_destroy binding_create binding_update
  apply_binding b sender receiver requester s = elim b.flag [
    | gibf_bind ↦ with_bindings s (binding_create sender receiver b.permissions s.bindings)
    | gibf_update ↦ with_bindings s (binding_update sender receiver b.permissions s.bindings)
    | gibf_unbind ↦ k_ipc_binding_destroy sender receiver requester s
    | gibf_none ↦ ok (none, s)
  ]

  -- The part of `k_ipc_send` that keeps a slot for the reply: its token.
  unfoldable pub expect_reply : ℤ → SenderQuery → IpcListener → System → Outcome (ℕ × System)
  expect_reply p q l s =
      let token = first (λ t. eq_ℤ (s.replies t).sender_proc_id none_proc_id) 0 max_ipc_token in
      if q.reply_bytes == 0
      then ok (max_ipc_token, s)
      else if q.reply_ptr == 0
      then oops
      else if q.reply_err_ptr == 0
      then oops
      else if leb max_ipc_token token
      then oops
      else (k_proc_lock p plt_ipc s.kernel >>= λ k. ok (
        token,
        record s {
          kernel = k;
          replies = update s.replies token (record {
            sender_proc_id = p;
            handler_proc_id = l.proc_id;
            reply_error_ptr = q.reply_err_ptr;
            reply_buffer_ptr = q.reply_ptr;
            reply_buffer_bytes = q.reply_bytes;
          });
        },
      ))

  -- The permissions of a sender with a listener, or the refusal.
  unfoldable pub check_permissions : ℤ → IpcListener → System → Outcome (Answer IpcError ℕ)
  unfolding binding_get_permissions
  check_permissions p l s =
      if not l.binding_required
      then ok (done 0)
      else (binding_get_permissions p l.proc_id true s.bindings >>= elim [
        | fails _ ↦ ok (fails gipce_forbidden)
        | done permissions ↦
            if not (bit_and l.permission_mask permissions == l.permission_mask)
            then ok (fails gipce_forbidden)
            else ok (done permissions)
      ])

  unfoldable pub send_to : ℤ → SenderQuery → IpcListener → ℕ → System → Result
  unfolding expect_reply deliver apply_binding
  send_to p q l permissions s = expect_reply p q l s >>= λ (token, s').
      deliver l
        (record {
          source_proc_id = p;
          query_data = q.query_data;
          reply_size_bytes = q.reply_bytes;
          token = token;
          bound = l.binding_required;
          permissions = permissions;
        })
        s'
      >>= λ (e, s''). elim e [
        | some e ↦ ok (some e, s'')
        | none ↦ apply_binding q.bind_data l.proc_id p p s''
      ]

  unfoldable pub k_ipc_send : ℤ → SenderQuery → System → Result
  unfolding send_to check_permissions validate_query wanted_listener path_global_validate
      path_direct_validate listener_type
  k_ipc_send p q s = elim q.path_data [
    | none ↦ oops
    | some path ↦
        let type = listener_type (path_global_validate path) (path_direct_validate path) false in
        validate_query path q >>= elim [
          | some e ↦ ok (some e, s)
          | none ↦
              if is_no_type type
              then ok (some gipce_invalid_path, s)
              else (wanted_listener s.listeners path
                    (λ l. is_global type || (is_direct type && eq_ℤ l.proc_id q.proc_id))
                    (max_ipc_listener + 1) 0
                  >>= λ i.
                      let l = s.listeners i in
                      if leb max_ipc_listener i
                      then ok (none, s)
                      else if not l.binding_required && is_direct type
                      then ok (some gipce_invalid_parameter, s)
                      else (check_permissions p l s >>= elim [
                        | fails e ↦ ok (some e, s)
                        | done permissions ↦ send_to p q l permissions s
                      ]))
        ]
  ]
