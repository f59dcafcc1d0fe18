-- ===== src/Tests/Syscalls.antt =====
-- A write of process 2 to the device that it holds, and a request for pending data, by system calls.
use gunw_os.Prelude.Int.{pos}
use gunw_os.Prelude.Outcome.{ok, done, Ensures}
use gunw_os.Prelude.{
  ℕ, ◌+◌, ◌<◌, ◌≡◌, refl, Array, true, update, [], ◌∷◌, ◌==◌, if◌then◌else◌, arith,
}
use gunw_os.Kernel.{k_proc_id_is_user}
use gunw_os.Mem.Zone.{k_mem_buffer_zone_valid_for_proc}
use gunw_os.Proc.{k_proc_get_state}
use gunw_os.Dev.Errors.{gde_none}
use gunw_os.Dev.{validate_started_device, k_dev_get_by_id, k_dev_install, k_dev_init}
use gunw_os.Dev.Access.{k_dev_write_mem}
use gunw_os.Dev.Descriptor.{validate_device_descriptor}
use gunw_os.Hal.{k_hal_install, k_hal_is_irq_registered}
use gunw_os.Syscall.{
  Caller, user_stack_safe_value, answered, k_scr_usr_dev_mem_write, k_scr_dev_mem_write,
}
use gunw_os.Syscall.Buffer.{Handed, k_scr_dev_mem_write-Handed}
use gunw_os.Runloop.{
  RunLoops, DispatchItem, zero_item, zero_loop, gef_ptr, finish_if_needed, at_loop, copied,
  k_runloop_get_pending_item_data_size_bytes, k_runloop_get_pending_item_data, pending_item_data,
  pending_item_data_size_bytes,
}
use gunw_os.Syscall.Messages.{k_scr_usr_run_loop_get_data, k_scr_run_loop_get_data}
use gunw_os.Syscall.Pending.{HasRoom, k_scr_run_loop_get_data-HasRoom}
use gunw_os.Tests.Devices.{serviced}

-- Device 0, the buffer at 4096 and the range at 8192: 20 bytes from offset 10.
abbrev memory : Array ℕ
memory i =
    if i == 65544
    then 4096
    else if i == 65548
    then 8192
    else if i == 8192
    then 10
    else if i == 8196
    then 20
    else 0

abbrev caller : Caller
caller = record { proc_id = pos 2; esp = 65536; words = memory }

memory-lt : (i : ℕ) → memory i < 4294967296
memory-lt i = ground arith

writes : k_scr_dev_mem_write caller serviced ≡ ok (gde_none, record serviced { drivers = 1 })
unfolding k_scr_dev_mem_write k_scr_usr_dev_mem_write user_stack_safe_value answered
    k_mem_buffer_zone_valid_for_proc k_proc_id_is_user k_dev_get_by_id k_dev_write_mem k_dev_install
    k_dev_init k_proc_get_state k_hal_install k_hal_is_irq_registered validate_device_descriptor
    validate_started_device
writes = refl

k_scr_dev_mem_write-Handed_example :
    Ensures (Handed caller serviced) (k_scr_dev_mem_write caller serviced)
unfolding k_proc_id_is_user
k_scr_dev_mem_write-Handed_example = k_scr_dev_mem_write-Handed caller serviced refl memory-lt

-- Every run loop has a handled item with 3 bytes of data; the buffer is at 4096.
abbrev pending : DispatchItem
pending = record zero_item {
  handled = true;
  item = record zero_item.item { format = gef_ptr; data_size_bytes = 3 };
  bytes = λ i. i + 7;
}

abbrev loops : RunLoops
loops i = record zero_loop { queue = λ j. if j == 1 then pending else zero_item; end_index = 1 }

abbrev reader : Caller
reader = record { proc_id = pos 2; esp = 65536; words = λ i. if i == 65540 then 4096 else 0 }

loops-lt : (i j : ℕ) → ((loops i).queue j).item.data_size_bytes < 4294967296
loops-lt i j = ground arith

reader-lt : (i : ℕ) → reader.words i < 4294967296
reader-lt i = ground arith

k_scr_run_loop_get_data-HasRoom_example :
    Ensures (HasRoom 4096) (k_scr_run_loop_get_data reader loops)
unfolding k_proc_id_is_user
k_scr_run_loop_get_data-HasRoom_example =
    k_scr_run_loop_get_data-HasRoom reader loops refl reader-lt loops-lt

fetches :
    k_scr_run_loop_get_data reader loops
    ≡ ok (
        done (
          7 ∷ 8 ∷ 9 ∷ [],
          update loops 2 (
              finish_if_needed 1 (record (loops 2) {
                queue = update (loops 2).queue 1 (record pending { data_handled = true });
              })),
        ))
unfolding k_scr_run_loop_get_data k_scr_usr_run_loop_get_data user_stack_safe_value answered
    k_mem_buffer_zone_valid_for_proc k_proc_id_is_user k_runloop_get_pending_item_data_size_bytes
    k_runloop_get_pending_item_data at_loop pending_item_data pending_item_data_size_bytes copied
fetches = refl
