-- ===== src/Tests/Messages.antt =====
-- src/system/kernel/ipc on small tables.
use gunw_os.Prelude.Outcome.{ok, Ensures}
use gunw_os.Prelude.Int.{pos}
use gunw_os.Prelude.{
  ℕ, zero, suc, ◌<◌, ◌≤◌, ◌≡◌, ◌≢◌, ◌↔◌, true, Option, some, Array, [], ◌∷◌, arith, update,
}
use gunw_os.Text.{literal}
use gunw_os.Ipc.{
  System, PathData, IpcListener, Binding, max_ipc_listener, path_global_validate,
  next_listener_index_for_path, gibf_bind,
}
use gunw_os.Ipc.Paths.{IsGlobalPath, path_global_validate-IsGlobalPath, Begins, next_listener_lem}
use gunw_os.Ipc.Bindings.{clear_binding}
use gunw_os.Ipc.Delivery.{EndpointQuery, empty_listener, empty_reply, wanted_listener}
use gunw_os.Ipc.Listeners.{FirstWanted, wanted_listener_lem}
use gunw_os.Ipc.Reply.{ReplyInfo, k_ipc_reply, Replied, k_ipc_reply-Replied}
use gunw_os.Tests.Processes.{start}

-- "ab/c"
abbrev path : PathData
path = record { ptr = literal (97 ∷ 98 ∷ 47 ∷ 99 ∷ []); bytes = 4 }

path_global_validate-IsGlobalPath_example : (path_global_validate path ≡ true) ↔ IsGlobalPath path
path_global_validate-IsGlobalPath_example = path_global_validate-IsGlobalPath path (omega arith)

path_chars : (j : ℕ) → j < 4 → path.ptr j ≢ 0
path_chars zero h = λ e. cc
path_chars (suc zero) h = λ e. cc
path_chars (suc (suc zero)) h = λ e. cc
path_chars (suc (suc (suc zero))) h = λ e. cc
path_chars (suc (suc (suc (suc n)))) h = absurd (omega arith)

-- The listener of "ab/cd" at index 3.
abbrev listening : Array IpcListener
listening =
    update (λ _. empty_listener) 3
      (record empty_listener { proc_id = pos 1; path = literal (97 ∷ 98 ∷ 47 ∷ 99 ∷ 100 ∷ []) })

next_listener_lem_example :
    (next_listener_index_for_path listening path 0 ≤ max_ipc_listener)
    × (next_listener_index_for_path listening path 0 < max_ipc_listener
        → Begins path (listening (next_listener_index_for_path listening path 0)).path)
    × ((j : ℕ)
        → 0 ≤ j
        → j < next_listener_index_for_path listening path 0
        → ¬ Begins path (listening j).path)
next_listener_lem_example = next_listener_lem listening path 0 (omega arith) path_chars

wanted_listener_lem_example :
    (i : ℕ) × (wanted_listener listening path (λ l. l.binding_required) 17 0 ≡ ok i)
    × FirstWanted listening path (λ l. l.binding_required) 0 i
wanted_listener_lem_example =
    wanted_listener_lem listening path (λ l. l.binding_required) 17 0 (omega arith) (omega arith)
      path_chars

abbrev bound : Array Binding
bound = update (λ _. clear_binding) 0 (record { sender = pos 1; receiver = pos 2; permissions = 6 })

abbrev encode : Option EndpointQuery → Array ℕ → Array ℕ
encode q bytes = bytes

-- Process 0 waits for an answer of four bytes from process 1.
abbrev asked : System
asked = record {
  kernel = start;
  listeners = listening;
  replies =
      update (λ _. empty_reply) 0
        (record {
          sender_proc_id = pos 0;
          handler_proc_id = pos 1;
          reply_error_ptr = 64;
          reply_buffer_ptr = 128;
          reply_buffer_bytes = 4;
        });
  bindings = bound;
}

abbrev info : ReplyInfo
info = record {
  data_ptr = 256;
  data_bytes = 4;
  token = 0;
  bind_data = record { flag = gibf_bind; permissions = 3 };
}

k_ipc_reply-Replied_example :
    Ensures (Replied encode (pos 1) info asked) (k_ipc_reply encode (pos 1) (some info) asked)
k_ipc_reply-Replied_example = k_ipc_reply-Replied encode (pos 1) info asked
