-- ===== src/Ipc/Reply.antt =====
-- src/system/kernel/ipc/reply.c: the answer to a query.
use gunw_os.Prelude.Outcome.{
  ok, oops, ◌>>=◌, Answer, done, fails, Ensures, ensures_ok, ensures_oops, Ensures-if, Ensures-bind,
  Ensures-then, Ensures-weaken,
}
use gunw_os.Prelude.Int.{ℤ, leb_ℤ, eq_ℤ, eq_ℤ_iff}
use gunw_os.Prelude.{
  ℕ, ◌≡◌, refl, not, Option, none, some, ◌∷◌, Array, update_self, leb, ltb, first, ◌==◌,
  if◌then◌else◌, arith,
}
use gunw_os.Kernel.{kernel_proc_id, none_proc_id, plt_ipc, write_user, mem_copy}
use gunw_os.Proc.{k_proc_unlock}
use gunw_os.Ipc.{
  System, IpcReply, Binding, IpcError, gipce_invalid_parameter, gipce_not_found, gipce_forbidden,
  BindData, BindFlag, gibf_none, gibf_bind, gibf_update, gibf_unbind, max_ipc_token,
}
use gunw_os.Ipc.Bindings.{find}
use gunw_os.Ipc.Delivery.{EndpointQuery, Result, clear_reply, unlock_if_able, empty_reply}
use gunw_os.Ipc.Send.{
  apply_binding, k_ipc_binding_destroy, binding_destroy_at, with_bindings, unless_existing,
}

-- `struct gnwIpcReplyInfo`
pub record ReplyInfo : Type 0 where
  pub data_ptr : ℕ
  pub data_bytes : ℕ
  pub token : ℕ
  pub bind_data : BindData

module _ (encode : Option EndpointQuery → Array ℕ → Array ℕ) where
  -- The end of `k_ipc_reply`, from the copy on.
  unfoldable pub finish_reply : ℤ → ReplyInfo → IpcReply → System → Result
  unfolding clear_reply unlock_if_able
  finish_reply p info reply s =
      clear_reply info.token (record s {
        kernel = record s.kernel {
          effects =
              write_user reply.sender_proc_id reply.reply_error_ptr 0
              ∷ mem_copy p info.data_ptr reply.sender_proc_id reply.reply_buffer_ptr info.data_bytes
              ∷ s.kernel.effects;
        };
      })
      >>= unlock_if_able reply.sender_proc_id
      >>= λ s'. ok (none, s')

  -- A null pointer to the reply info is `none`.
  unfoldable pub k_ipc_reply : ℤ → Option ReplyInfo → System → Result
  unfolding finish_reply apply_binding
  k_ipc_reply p info_ptr s = elim info_ptr [
    | none ↦ oops
    | some info ↦
        let reply = s.replies info.token in
        if info.data_ptr == 0
        then oops
        else if info.data_bytes == 0
        then ok (some gipce_invalid_parameter, s)
        else if leb max_ipc_token info.token
        then ok (some gipce_invalid_parameter, s)
        else if eq_ℤ reply.handler_proc_id none_proc_id
        then ok (some gipce_not_found, s)
        else if not (eq_ℤ reply.handler_proc_id p)
        then ok (some gipce_forbidden, s)
        else if not (reply.reply_buffer_bytes == info.data_bytes)
        then ok (some gipce_invalid_parameter, s)
        else if reply.reply_error_ptr == 0
        then oops
        else if reply.reply_buffer_ptr == 0
        then oops
        else if leb_ℤ reply.sender_proc_id kernel_proc_id
        then oops
        else (apply_binding encode info.bind_data reply.sender_proc_id p p s >>= λ (e, s'). elim e [
          | some e ↦ ok (some e, s')
          | none ↦ finish_reply p info reply s'
        ])
  ]

  -- An answer that is refused changes nothing. One that is accepted comes from the process that the
  -- slot names, has the size of the sender's buffer, and frees the slot.
  abbrev pub Replied : ℤ → ReplyInfo → System → Option IpcError × System → Type 0
  Replied p info s (some e, s') = s' ≡ s
  Replied p info s (none, s') =
      ((s.replies info.token).handler_proc_id ≡ p)
      × ((s.replies info.token).reply_buffer_bytes ≡ info.data_bytes)
      × (s'.replies info.token ≡ empty_reply)

  abbrev KeepsOnError : System → Option IpcError × System → Type 0
  KeepsOnError s (some e, s') = s' ≡ s
  KeepsOnError s (none, s') = Unit {0}

  destroy-KeepsOnError :
      (a b c : ℤ) (s : System) → Ensures (KeepsOnError s) (k_ipc_binding_destroy encode a b c s)
  unfolding k_ipc_binding_destroy
  destroy-KeepsOnError a b c s = at (find s.bindings a b)
    where
      at :
          (o : Option ℕ)
          → Ensures (KeepsOnError s) (elim o [
            | none ↦ ok (some gipce_not_found, s)
            | some i ↦ binding_destroy_at encode i c s >>= λ s'. ok (none, s')
          ])
      at none = ensures_ok refl
      at (some i) = Ensures-then (binding_destroy_at encode i c s) λ s'. ensures_ok tt

  unchanged : (o : Option IpcError) (s : System) → KeepsOnError s (o, s)
  unchanged none s = tt
  unchanged (some e) s = refl

  with_bindings-KeepsOnError :
      (s : System) (a : Answer IpcError (Array Binding))
      → Ensures (KeepsOnError s) (with_bindings encode s a)
  with_bindings-KeepsOnError s (done bs) = ensures_ok tt
  with_bindings-KeepsOnError s (fails e) = ensures_ok (unchanged (unless_existing encode e) s)

  apply_flag-KeepsOnError :
      (f : BindFlag) (n : ℕ) (x y z : ℤ) (s : System)
      → Ensures
          (KeepsOnError s)
          (apply_binding encode (record { flag = f; permissions = n }) x y z s)
  unfolding apply_binding
  apply_flag-KeepsOnError gibf_none n x y z s = ensures_ok tt
  apply_flag-KeepsOnError gibf_bind n x y z s = with_bindings-KeepsOnError s _
  apply_flag-KeepsOnError gibf_update n x y z s = with_bindings-KeepsOnError s _
  apply_flag-KeepsOnError gibf_unbind n x y z s = destroy-KeepsOnError x y z s

  unlock_if_able-Keeps :
      (p : ℤ) (n : ℕ) (r : IpcReply) (s : System)
      → s.replies n ≡ r
      → Ensures (λ s'. s'.replies n ≡ r) (unlock_if_able p s)
  unfolding unlock_if_able
  unlock_if_able-Keeps p n r s e =
      Ensures-if
        (ltb (first (λ t. eq_ℤ (s.replies t).sender_proc_id p) 0 max_ipc_token) max_ipc_token)
        (λ _. ensures_ok e) (λ _. Ensures-then (k_proc_unlock p plt_ipc s.kernel) λ k. ensures_ok e)

  abbrev Freed : ReplyInfo → Option IpcError × System → Type 0
  Freed info (e, s') = (e ≡ none) × (s'.replies info.token ≡ empty_reply)

  finish_reply-Freed :
      (p : ℤ) (info : ReplyInfo) (reply : IpcReply) (s : System)
      → Ensures (Freed info) (finish_reply p info reply s)
  unfolding finish_reply clear_reply
  finish_reply-Freed p info reply s =
      let Q : System → Type 0 = λ s'. s'.replies info.token ≡ empty_reply in
      Ensures-bind {Q = Q}
        (Ensures-bind {Q = Q}
          (Ensures-if (leb max_ipc_token info.token) (λ _. ensures_oops)
            (λ _. ensures_ok (update_self s.replies info.token empty_reply)))
          (λ s' e. unlock_if_able-Keeps reply.sender_proc_id info.token empty_reply s' e))
        (λ s' e. ensures_ok (refl, e))

  answer :
      (p : ℤ) (info : ReplyInfo) (s : System) (r : Option IpcError × System)
      → KeepsOnError s r
      → (s.replies info.token).handler_proc_id ≡ p
      → (s.replies info.token).reply_buffer_bytes ≡ info.data_bytes
      → Ensures (Replied p info s) (elim r.0 [
        | some e ↦ ok (some e, r.1)
        | none ↦ finish_reply p info (s.replies info.token) r.1
      ])
  answer p info s (some e, s') k h z = ensures_ok k
  answer p info s (none, s') k h z =
      Ensures-weaken (λ (e, t) f. accepted e t f)
        (finish_reply-Freed p info (s.replies info.token) s')
    where
      accepted : (e : Option IpcError) (t : System) → Freed info (e, t) → Replied p info s (e, t)
      accepted none t f = (h, z, f.1)
      accepted (some e) t f = absurd (cc f.0)

  -- If k_ipc_reply with a reply info returns: an answer that is refused changes nothing; one that
  -- is accepted comes from the process that the slot of its token names, has the size of the
  -- sender's buffer, and leaves the slot empty.
  pub k_ipc_reply-Replied :
      (p : ℤ) (info : ReplyInfo) (s : System)
      → Ensures (Replied p info s) (k_ipc_reply p (some info) s)
  unfolding k_ipc_reply
  k_ipc_reply-Replied p info s =
      let reply = s.replies info.token in
      Ensures-if (info.data_ptr == 0) (λ _. ensures_oops)
        λ _.
          Ensures-if (info.data_bytes == 0) (λ _. ensures_ok refl)
            λ _.
              Ensures-if (leb max_ipc_token info.token) (λ _. ensures_ok refl)
                λ _.
                  Ensures-if (eq_ℤ reply.handler_proc_id none_proc_id) (λ _. ensures_ok refl)
                    λ _.
                      Ensures-if (not (eq_ℤ reply.handler_proc_id p)) (λ _. ensures_ok refl)
                        λ handler.
                          Ensures-if (not (reply.reply_buffer_bytes == info.data_bytes))
                            (λ _. ensures_ok refl)
                            λ size.
                              Ensures-if (reply.reply_error_ptr == 0) (λ _. ensures_oops)
                                λ _.
                                  Ensures-if (reply.reply_buffer_ptr == 0) (λ _. ensures_oops)
                                    λ _.
                                      Ensures-if (leb_ℤ reply.sender_proc_id kernel_proc_id)
                                        (λ _. ensures_oops)
                                        λ _.
                                          Ensures-bind {Q = KeepsOnError s}
                                            (apply_flag-KeepsOnError info.bind_data.flag
                                              info.bind_data.permissions reply.sender_proc_id p p s)
                                            λ r k.
                                              answer p info s r k
                                                ((eq_ℤ_iff reply.handler_proc_id p).0
                                                  (ground arith))
                                                (ground arith)
