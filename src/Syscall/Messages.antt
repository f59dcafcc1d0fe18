-- ===== src/Syscall/Messages.antt =====
-- src/system/kernel/hal/syscall/usrfunc.c and syscall/usr: the calls on messages and on run loops.
use gunw_os.Prelude.Outcome.{Outcome, ok, oops, Answer, done, fails, ◌>>=◌}
use gunw_os.Prelude.Int.{ℤ}
use gunw_os.Prelude.{ℕ, ◌+◌, Array, List, Bool, true, not, ◌==◌, if◌then◌else◌, Option, some}
use gunw_os.Mem.Zone.{k_mem_buffer_zone_valid_for_proc}
use gunw_os.Ipc.{
  System, BindFlag, gibf_none, gibf_bind, gibf_update, gibf_unbind, IpcListener, IpcError,
}
use gunw_os.Ipc.Registration.{k_ipc_register}
use gunw_os.Ipc.Delivery.{EndpointQuery, Result}
use gunw_os.Ipc.Reply.{ReplyInfo, k_ipc_reply}
use gunw_os.Runloop.{
  RunLoopError, RunLoopDispatchItem, RunLoops, k_runloop_get_pending_item,
  k_runloop_get_pending_item_data_size_bytes, k_runloop_get_pending_item_data,
}
use gunw_os.Syscall.{Caller, user_stack_safe_value, answered, checked}

-- A flag that is none of the named ones binds nothing.
abbrev pub bind_flag : ℕ → BindFlag
bind_flag n =
    if n == 1
    then gibf_bind
    else if n == 2
    then gibf_update
    else if n == 3
    then gibf_unbind
    else gibf_none

-- The structures at an address of the caller.
abbrev pub reply_info_at : Array ℕ → ℕ → ReplyInfo
reply_info_at words i = record {
  data_ptr = words i;
  data_bytes = words (i + 4);
  token = words (i + 8);
  bind_data = record { flag = bind_flag (words (i + 12)); permissions = words (i + 16) };
}

unfoldable pub k_scr_usr_run_loop_get_item :
    ℤ → ℕ → RunLoops → Outcome (Answer RunLoopError (RunLoopDispatchItem × RunLoops))
k_scr_usr_run_loop_get_item p item rs = checked p item 20 (k_runloop_get_pending_item p true rs)

-- The buffer is tested for the size of the pending data, which is then written to it.
unfoldable pub k_scr_usr_run_loop_get_data :
    ℤ → ℕ → RunLoops → Outcome (Answer RunLoopError (List ℕ × RunLoops))
k_scr_usr_run_loop_get_data p buffer rs =
    if buffer == 0
    then oops
    else (k_runloop_get_pending_item_data_size_bytes p rs >>= elim [
      | fails e ↦ ok (fails e)
      | done size ↦ k_mem_buffer_zone_valid_for_proc p buffer size >>= λ valid.
          if not valid then oops else k_runloop_get_pending_item_data p true rs
    ])

unfoldable pub k_scr_run_loop_get_item :
    Caller → RunLoops → Outcome (Answer RunLoopError (RunLoopDispatchItem × RunLoops))
unfolding user_stack_safe_value answered k_scr_usr_run_loop_get_item
k_scr_run_loop_get_item u rs = user_stack_safe_value u 4 4 >>= λ item.
    answered u (k_scr_usr_run_loop_get_item u.proc_id item rs)

unfoldable pub k_scr_run_loop_get_data :
    Caller → RunLoops → Outcome (Answer RunLoopError (List ℕ × RunLoops))
unfolding user_stack_safe_value answered k_scr_usr_run_loop_get_data
k_scr_run_loop_get_data u rs = user_stack_safe_value u 4 4 >>= λ buffer.
    answered u (k_scr_usr_run_loop_get_data u.proc_id buffer rs)

-- The contents of the path are those at the address in its descriptor.
unfoldable pub k_scr_usr_ipc_register :
    ℤ
    → ℕ
    → Array ℕ
    → (ℕ → Array ℕ)
    → (ℕ → Bool)
    → Array IpcListener
    → Outcome (Answer IpcError (Array IpcListener))
unfolding k_ipc_register
k_scr_usr_ipc_register p desc words bytes_at flag_at ls = checked p desc 24 (
    if words desc == 0
    then oops
    else if words (desc + 4) == 0
    then oops
    else checked p (words desc) (words (desc + 4)) (
        if words (desc + 8) == 0
        then oops
        else if words (desc + 12) == 0
        then oops
        else k_ipc_register p
            (some (record { ptr = bytes_at (words desc); bytes = words (desc + 4) }))
            (words (desc + 8)) (words (desc + 12)) (flag_at (desc + 16)) (words (desc + 20)) ls))

module _ (encode : Option EndpointQuery → Array ℕ → Array ℕ) where
  unfoldable pub k_scr_usr_ipc_reply : ℤ → ℕ → Array ℕ → System → Result
  unfolding k_ipc_reply
  k_scr_usr_ipc_reply p info words s =
      let reply = reply_info_at words info in
      checked p info 20 (
        if reply.data_ptr == 0
        then oops
        else if reply.data_bytes == 0
        then oops
        else checked p reply.data_ptr reply.data_bytes (k_ipc_reply encode p (some reply) s))

  unfoldable pub k_scr_ipc_reply : Caller → System → Result
  unfolding user_stack_safe_value answered k_scr_usr_ipc_reply
  k_scr_ipc_reply u s = user_stack_safe_value u 4 4 >>= λ info.
      answered u (k_scr_usr_ipc_reply u.proc_id info u.words s)

unfoldable pub k_scr_ipc_register :
    Caller
    → (ℕ → Array ℕ)
    → (ℕ → Bool)
    → Array IpcListener
    → Outcome (Answer IpcError (Array IpcListener))
unfolding user_stack_safe_value answered k_scr_usr_ipc_register
k_scr_ipc_register u bytes_at flag_at ls = user_stack_safe_value u 4 4 >>= λ desc.
    answered u (k_scr_usr_ipc_register u.proc_id desc u.words bytes_at flag_at ls)
