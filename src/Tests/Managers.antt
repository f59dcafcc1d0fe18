-- ===== src/Tests/Managers.antt =====
-- Two processes at a display and at the keyboard.
use gunw_os.Prelude.Outcome.{Outcome, ok, ReturnsUnless, Ensures}
use gunw_os.Prelude.Int.{ℤ, pos}
use gunw_os.Prelude.{ℕ, ◌+◌, ◌<◌, ◌≡◌, Array, update, Option, none, some, true, refl, first}
use gunw_os.Ipc.{IpcError}
use gunw_os.Dev.Errors.{DeviceError, gde_none}
use gunw_os.Dev.Descriptor.{AddrRange}
use gunw_os.Mem.Zone.{k_mem_buffer_zone_valid_for_proc}
use gunw_os.Kernel.{k_proc_id_is_user}
use gunw_os.Proc.{k_proc_get_state}
use gunw_os.Dev.{Machine, k_dev_get_by_id, k_dev_install, k_dev_init, validate_started_device}
use gunw_os.Dev.Access.{k_dev_set_param}
use gunw_os.Dev.Descriptor.{validate_device_descriptor}
use gunw_os.Hal.{k_hal_install, k_hal_is_irq_registered}
use gunw_os.Syscall.{k_scr_usr_dev_get_by_id, k_scr_usr_dev_set_param}
use gunw_os.Sessions.{pull, push, free_session, session_for_proc}
use gunw_os.Sessions.Display.Kernel.{kernel_calls, display_known}
use gunw_os.Tests.Devices.{serviced}
use gunw_os.Sessions.Stack.{Pulled, pull_lem}
use gunw_os.Sessions.Display
use gunw_os.Sessions.Display.{
  Calls, DisplayDescriptor, text, display_attach_to_display, session_create, session_enable,
}
use gunw_os.Sessions.Display.Kept
use gunw_os.Sessions.Display.Attach.{Attached, Unanswered, display_attach_to_display-Attached}
use gunw_os.Sessions.Display.Reach.{Reach, here, next, attach, Reach-IsConsistent}
use gunw_os.Sessions.Keyboard
use gunw_os.Sessions.Keyboard.{on_device_event, keyboard_attach}
use gunw_os.Sessions.Keyboard.Kept.{keyboard_attach-Attached, initial-IsConsistent}
use gunw_os.Sessions.Keyboard.Events.{Heard, on_device_event-Heard}

-- The manager is process 2 and holds device 0, whose driver takes every format and counts the writes.
abbrev machine : Machine ℕ
machine = record serviced {
  devices = λ i. record (serviced.devices i) {
    desc = record (serviced.devices i).desc {
      api = record (serviced.devices i).desc.api { set_param = some (λ q r n v s. (true, s)) };
    };
  };
}

abbrev calls : Calls (Machine ℕ)
calls = kernel_calls (pos 2) 4096 8192 64 (λ i. 0)

abbrev screen : DisplayDescriptor
screen = record { identifier = 0; width = pos 80; height = pos 25; format = 3 }

-- No process is attached.
abbrev nobody : Display.Manager (Machine ℕ)
nobody = Display.initial machine

nobody-IsConsistent : Kept.IsConsistent nobody
nobody-IsConsistent = Kept.initial-IsConsistent machine

display_attach_to_display-Attached_example :
    ReturnsUnless
      (Unanswered calls screen nobody)
      (Attached calls (pos 3) text screen nobody)
      (display_attach_to_display calls (pos 3) text (some screen) nobody)
display_attach_to_display-Attached_example =
    display_attach_to_display-Attached calls (pos 3) text screen nobody nobody-IsConsistent

abbrev left : Outcome (DeviceError × Display.Manager (Machine ℕ)) → Display.Manager (Machine ℕ)
left (ok (e, m)) = m
left _ = nobody

-- Process 3 is attached.
abbrev one : Display.Manager (Machine ℕ)
one = left (display_attach_to_display calls (pos 3) text (some screen) nobody)

attaches : display_attach_to_display calls (pos 3) text (some screen) nobody ≡ ok (gde_none, one)
unfolding display_attach_to_display session_create free_session session_for_proc session_enable push
    first display_known k_scr_usr_dev_get_by_id k_scr_usr_dev_set_param k_dev_get_by_id
    k_dev_set_param k_mem_buffer_zone_valid_for_proc k_proc_id_is_user k_dev_install k_dev_init
    k_proc_get_state k_hal_install k_hal_is_irq_registered validate_device_descriptor
    validate_started_device
attaches = refl

attached-Reach : Reach calls nobody one
attached-Reach = next here (attach (pos 3) text screen gde_none attaches)

Reach-IsConsistent_example : Kept.IsConsistent one
Reach-IsConsistent_example = Reach-IsConsistent calls attached-Reach

abbrev frame : AddrRange
frame = record { offset = 0; size_bytes = 4000 }

-- The messages, by their receivers; every one is taken.
abbrev taken : ℤ → ℕ → ℕ → ℕ → Option IpcError × ℕ
taken p type key w = (none, w + 1)

abbrev typing : Keyboard.Manager ℕ
typing = (keyboard_attach-Attached (pos 2) (Keyboard.initial 0) (initial-IsConsistent 0)).0.1

on_device_event-Heard_example :
    Ensures
      (λ m'. (◌≡◌ {A = ℕ} 1 1) × (1 < 2) × Heard taken 1 30 typing m')
      (on_device_event taken (some (record { type = 1; key = some 30; size = 1 })) typing)
on_device_event-Heard_example =
    on_device_event-Heard taken typing
      (keyboard_attach-Attached (pos 2) (Keyboard.initial 0) (initial-IsConsistent 0)).2.0 1 30 1

-- Three sessions, the first one on top; the second one ends.
abbrev three : Array (Option ℕ)
three = update (update (update (λ i. none) 0 (some 5)) 1 (some 6)) 2 (some 7)

pull_lem_example : Pulled 6 three (pull 6 three)
pull_lem_example = pull_lem 6 three
