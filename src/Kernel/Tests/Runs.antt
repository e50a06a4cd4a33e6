-- ===== src/Kernel/Tests/Runs.antt =====
-- A run of the kernel: it starts with two processors, and init runs on the first.
use os_project_signal.Prelude.{ℕ, ◌≡◌, refl, Option, none, some, get_elem?, length-replicate}
use os_project_signal.Kernel.Queue.{queue_size, pop_queue}
use os_project_signal.Kernel.System.{System}
use os_project_signal.Kernel.System.Consistent.{IsConsistent}
use os_project_signal.Kernel.Process.{zero_trapframe, schedule, run_task}
use os_project_signal.Kernel.Boot.{proc_init, load_init_app}
use os_project_signal.Kernel.Reach.{schedules, Reach, boots, steps}
use os_project_signal.Kernel.Reach.Invariant.{Reach-IsConsistent}
use os_project_signal.Kernel.Tests.Systems.{no_memory, slots, asleep}

abbrev system_of : Option System → System
system_of none = asleep
system_of (some s) = s

unfoldable booted : System
unfolding proc_init load_init_app
booted =
    system_of (
      load_init_app (some (no_memory, zero_trapframe)) (proc_init 2 slots no_memory zero_trapframe))

booted_lem :
    load_init_app (some (no_memory, zero_trapframe)) (proc_init 2 slots no_memory zero_trapframe)
    ≡ some booted
unfolding proc_init load_init_app booted
booted_lem = refl

unfoldable init_scheduled : System
unfolding booted schedule
init_scheduled = system_of (schedule 0 booted)

booted_idle : get_elem? (System.cpus booted) 0 ≡ some none
unfolding booted
booted_idle = refl

init_scheduled_lem : schedule 0 booted ≡ some init_scheduled
unfolding init_scheduled booted schedule pop_queue run_task
init_scheduled_lem = refl

init_on_first : get_elem? (System.cpus init_scheduled) 0 ≡ some (some 0)
unfolding init_scheduled pop_queue run_task
init_on_first = refl

booted-Reach : Reach 2 booted
booted-Reach =
    boots slots no_memory no_memory zero_trapframe zero_trapframe
      (length-replicate {A = ℕ} queue_size 0) booted_lem

init_scheduled-Reach : Reach 2 init_scheduled
init_scheduled-Reach = steps booted-Reach (schedules 0 booted_idle init_scheduled_lem)

Reach-IsConsistent_example : IsConsistent init_scheduled
Reach-IsConsistent_example = Reach-IsConsistent init_scheduled-Reach
