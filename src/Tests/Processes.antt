-- ===== src/Tests/Processes.antt =====
-- src/system/kernel/hal/proc/proc.c and schedule/schedule.c on small kernels.
use gunw_os.Prelude.Outcome.{ok, done}
use gunw_os.Prelude.Int.{pos}
use gunw_os.Prelude.{ℕ, ◌<◌, ◌≡◌, ◌≢◌, ◌⊎◌, refl, first, true, false, none, arith}
use gunw_os.Queue.{Queue, dfe_none}
use gunw_os.Runloop.{max_proc, zero_loop}
use gunw_os.Kernel.{
  Kernel, Task, kernel_proc_id, ps_ready, ps_running, ProcessUser, CpuState, zero_cpu, no_lock,
  set_process,
}
use gunw_os.Schedule.{sched_evaluate_run, is_ready}
use gunw_os.Schedule.RoundRobin.{Chosen}
use gunw_os.Proc.{k_proc_spawn}
use gunw_os.Proc.Switch.{
  k_proc_switch, k_proc_switch_to_kernel_if_needed, k_proc_schedule_on_kernel_handling_finished,
}
use gunw_os.Proc.Invariant.{IsValid, update-IsConsistent}
use gunw_os.Proc.Resume.{handling_finished_lem, switch_round_trip}
use gunw_os.Proc.Reach.{
  IsSound, reach_start, reach_step, step_spawn, step_evaluate, initial_kernel, initial-IsSound,
  reachable-IsSound,
}

abbrev idle : Queue Task
idle = record {
  entries = λ _. record {
    reserved = false;
    func = record { type = dfe_none; ptr = none; param0 = 0; param1 = 0 };
    next = none;
  };
  current = none;
  running = true;
}

abbrev pub start : Kernel
start = initial_kernel idle (λ _. zero_loop)

abbrev waiting : ProcessUser
waiting = record {
  state = ps_ready;
  dpl = 3;
  cpu_state = record zero_cpu { eip = 77 };
  lock_mask = no_lock;
}

-- Process 2 waits for the processor.
abbrev one_ready : Kernel
one_ready = set_process start 2 waiting

one_ready-IsValid : IsValid one_ready
one_ready-IsValid =
    update-IsConsistent start.p_tab kernel_proc_id ps_running 2 waiting refl tt
      (initial-IsSound idle (λ _. zero_loop)).table

handling_finished_lem_example :
    ((k_proc_schedule_on_kernel_handling_finished zero_cpu (sched_evaluate_run one_ready)
        ≡ ok (zero_cpu, sched_evaluate_run one_ready))
      × ((n : ℕ) → n < max_proc → is_ready (one_ready.p_tab n).state ≡ false))
    ⊎ ((n : ℕ) × Chosen one_ready.p_tab kernel_proc_id n
        × (k' : Kernel) × (k_proc_schedule_on_kernel_handling_finished zero_cpu
              (sched_evaluate_run one_ready)
            ≡ ok ((one_ready.p_tab n).cpu_state, k'))
        × (k'.proc_current ≡ pos n)
        × ((k'.p_tab n).state ≡ ps_running))
handling_finished_lem_example = handling_finished_lem zero_cpu one_ready one_ready-IsValid refl refl

abbrev interrupted : CpuState
interrupted = record zero_cpu { eip = 99; eax = 5 }

switch_round_trip_example :
    (k1 : Kernel) × (k2 : Kernel) × (k3 : Kernel) × (k_proc_switch (pos 2) zero_cpu one_ready
      ≡ ok (waiting.cpu_state, k1))
    × (k_proc_switch_to_kernel_if_needed 4096 (pos 2) interrupted k1 ≡ ok (zero_cpu, k2))
    × (k_proc_switch (pos 2) zero_cpu k2 ≡ ok (interrupted, k3))
    × ((j : ℕ) → 2 ≢ j → k3.p_tab j ≡ one_ready.p_tab j)
switch_round_trip_example =
    switch_round_trip 2 4096 zero_cpu interrupted zero_cpu one_ready one_ready-IsValid
      (omega arith, refl, refl) (λ e. cc)

-- What `k_proc_spawn` makes of the initial kernel.
abbrev spawned : (k : Kernel) × (k_proc_spawn true start ≡ ok (done (pos 0, k)))
unfolding k_proc_spawn first
spawned = (_, refl)

reachable-IsSound_example : IsSound (sched_evaluate_run spawned.0)
unfolding spawned
reachable-IsSound_example =
    reachable-IsSound idle (λ _. zero_loop) (sched_evaluate_run spawned.0)
      (reach_step spawned.0 (sched_evaluate_run spawned.0)
        (reach_step start spawned.0 reach_start (step_spawn true (pos 0) spawned.0 spawned.1))
        (step_evaluate refl))
