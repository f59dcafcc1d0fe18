-- ===== src/Ipc.antt =====
-- src/system/kernel/ipc: the tables of data.h and binding.c, and the paths of utility.c.
-- A `data_t` is a pointer, which may be null, and a number of bytes; the pointer is the bytes it
-- points to. Routines of processes are addresses.
pub mod Paths
pub mod Bindings
pub mod Registration
pub mod Delivery
pub mod Listeners
pub mod Send
pub mod Reply
use gunw_os.Prelude.Int.{ℤ, pos, negsuc, leb_ℤ, eq_ℤ}
use gunw_os.Prelude.{
  in_range, ℕ, zero, suc, ◌+◌, ◌-◌, ◌%◌, ◌^◌, ◌≡◌, Bool, true, false, not, ◌&&◌, ◌||◌, Option, none,
  some, Array, update, first, leb, ltb, ◌==◌, if◌then◌else◌,
}
use gunw_os.Kernel.{Kernel, none_proc_id}
use gunw_os.Text.{strcmpl}

abbrev pub max_ipc_listener : ℕ
max_ipc_listener = 16

abbrev pub max_ipc_token : ℕ
max_ipc_token = 8

abbrev pub max_binding : ℕ
max_binding = 16

abbrev pub path_max_length : ℕ
path_max_length = 64

-- `enum gnwIpcError`, without the success code.
pub data IpcError : Type 0 where
  gipce_invalid_path gipce_invalid_parameter gipce_already_exists gipce_not_found gipce_ignored
        gipce_forbidden gipce_full gipce_precondition_not_satisfied gipce_unknown :
      IpcError

-- `enum gnwIpcBindFlag` and `struct gnwIpcBindData`
pub data BindFlag : Type 0 where
  gibf_none gibf_bind gibf_update gibf_unbind : BindFlag

pub record BindData : Type 0 where
  pub flag : BindFlag
  pub permissions : ℕ

pub record PathData : Type 0 where
  pub ptr : Array ℕ
  pub bytes : ℕ

-- `enum gnwIpcListenerType`, of which a listener has exactly one.
pub data ListenerType : Type 0 where
  gilt_none gilt_global gilt_direct gilt_notification : ListenerType

-- `struct ipcListener`
pub record IpcListener : Type 0 where
  pub proc_id : ℤ
  pub path : Array ℕ
  pub type : ListenerType
  pub listener : ℕ
  pub decoder : ℕ
  pub binding_required : Bool
  pub permission_mask : ℕ

-- `struct ipcReply`; the pointers are addresses.
pub record IpcReply : Type 0 where
  pub sender_proc_id : ℤ
  pub handler_proc_id : ℤ
  pub reply_error_ptr : ℕ
  pub reply_buffer_ptr : ℕ
  pub reply_buffer_bytes : ℕ

-- `struct binding`
pub record Binding : Type 0 where
  pub sender : ℤ
  pub receiver : ℤ
  pub permissions : ℕ

-- `GNW_PATH_IPC_COMPONENT_SEPARATOR`, the two prefixes, and the characters of components.
abbrev pub separator : ℕ
separator = 47

abbrev pub direct_prefix : ℕ
direct_prefix = 58

abbrev pub notification_prefix : ℕ
notification_prefix = 95

abbrev pub is_path_char : ℕ → Bool
is_path_char c = in_range 48 c 57 || in_range 65 c 90 || in_range 97 c 122 || c == separator

-- The loop of `k_ipc_utl_pathGlobalValidate` from index `i` on, with `n` bytes to come.
unfoldable pub validate_from : Array ℕ → ℕ → Bool → ℕ → ℕ → Bool
validate_from ptr i has_separator last_separator_index zero = true
validate_from ptr i has_separator last_separator_index (suc n) =
    let is_separator = ptr i == separator in
    let rest =
      validate_from ptr (i + 1) (has_separator || is_separator)
        (if is_separator then i else last_separator_index) n in
    if not (is_path_char (ptr i))
    then false
    else if is_separator && ((last_separator_index == (i + 2 ^ 32 - 1) % 2 ^ 32) && has_separator)
    then false
    else rest

unfoldable pub path_global_validate : PathData → Bool
unfolding validate_from
path_global_validate p =
    if p.bytes == 0
    then false
    else if p.ptr 0 == separator
    then false
    else if p.ptr (p.bytes - 1) == separator
    then false
    else validate_from p.ptr 0 false 0 p.bytes

-- `pathData.ptr += 2; pathData.bytes -= 2;`
abbrev pub without_prefix : PathData → PathData
without_prefix p = record { ptr = λ i. p.ptr (i + 2); bytes = p.bytes - 2 }

unfoldable pub path_direct_validate : PathData → Bool
unfolding path_global_validate
path_direct_validate p =
    if leb p.bytes 2
    then false
    else if not (p.ptr 0 == direct_prefix)
    then false
    else if not (p.ptr 1 == separator)
    then false
    else path_global_validate (without_prefix p)

unfoldable pub path_notification_validate : PathData → Bool
unfolding path_global_validate
path_notification_validate p =
    if leb p.bytes 2
    then false
    else if not (p.ptr 0 == notification_prefix)
    then false
    else if not (p.ptr 1 == separator)
    then false
    else path_global_validate (without_prefix p)

-- `k_ipc_utl_nextListenerIndexForPath`; `start` is 0, or the place behind `*after`.
unfoldable pub next_listener_index_for_path : Array IpcListener → PathData → ℕ → ℕ
unfolding strcmpl
next_listener_index_for_path ls p start =
    first (λ i. eq_ℤ (strcmpl p.ptr (ls i).path p.bytes) (pos 0)) start (max_ipc_listener - start)

-- `ipcListenerRegister`, `ipcReplyRegister` and `bindings`, beside the kernel.
pub record System : Type 0 where
  pub kernel : Kernel
  pub listeners : Array IpcListener
  pub replies : Array IpcReply
  pub bindings : Array Binding
