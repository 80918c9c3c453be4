-- ===== src/Task/Tests.antt =====
-- Runs of kernel/proc/task.c at concrete tasks.
use peker_os.Common.{ℕ, ◌≡◌, refl, true, false, Option, some, none, [], ◌∷◌, get_elem?, arith}
use peker_os.Task.{
  Task, Tasks, running, sleep, dead, new_task, create_task, init_multitasking, task_exit, run_next,
  save_esp, find_next, switch_to, schedule_internal,
}
use peker_os.Task.Schedule.{Switched, run_next-Switched}
use peker_os.Task.Kernel.{
  Reach, here, next, create, exit, schedule_internal-Ends, schedule_internal-wakes,
}
use peker_os.Task.Frame.{Framed, create_task-Framed}

abbrev no_memory : Task
no_memory = record {
  id = 0;
  name = [];
  esp = 0;
  kstack_top = 0;
  state = dead;
  fd_table = λ k. 0;
  fd_offset = λ k. 0;
  heap_start = 0;
  heap_end = 0;
}

abbrev booted : Tasks
booted = init_multitasking no_memory (λ a. 0) 0x9000 0

abbrev shell : Tasks
shell = create_task booted (115 ∷ 104 ∷ []) 0x10000 0x20000 0x400000 true

abbrev two : Tasks
two = create_task shell (118 ∷ 105 ∷ []) 0x30000 0 0x500000 false

abbrev current : Option (ℕ × Tasks) → ℕ
current none = 99
current (some x) = x.1.current_task

-- The kernel's task gives the processor to the shell.
run_once : current (run_next two 0x8000) ≡ 1
unfolding run_next save_esp create_task init_multitasking find_next new_task switch_to
run_once = refl

run_next-Switched_example :
    (out : ℕ × Tasks) × (run_next two 0x8000 ≡ some out) × Switched two 0x8000 out
unfolding create_task init_multitasking
run_next-Switched_example = run_next-Switched two 0x8000 0 (omega arith) refl

reached : Reach (init_multitasking no_memory (λ a. 0) 0x9000 0) (task_exit two)
reached =
    next
      (next (next here (create (115 ∷ 104 ∷ []) 0x10000 0x20000 0x400000 true))
        (create (118 ∷ 105 ∷ []) 0x30000 0 0x500000 false))
      exit

schedule_internal-Ends_example :
    (out : ℕ × Tasks) × (schedule_internal (some (task_exit two)) 0x8000 ≡ some (out.0, some out.1))
    × Switched (task_exit two) 0x8000 out
schedule_internal-Ends_example =
    schedule_internal-Ends no_memory (λ a. 0) 0x9000 0 (task_exit two) 0x8000 reached

create_task-Framed_example : Framed booted shell 0x10000 0x400000 true
create_task-Framed_example =
    create_task-Framed booted (115 ∷ 104 ∷ []) 0x10000 0x20000 0x400000 true (omega arith)

abbrev sleeper : Task
sleeper = record no_memory { id = 2; esp = 77; state = sleep }

abbrev asleep : Tasks
asleep = record {
  task_list = record no_memory { id = 1; state = running } ∷ sleeper ∷ [];
  current_task = 0;
  next_pid = 3;
  esp0 = 0;
  words = λ a. 0;
}

schedule_internal-wakes_example :
    (out : Tasks) × (schedule_internal (some asleep) 5 ≡ some (77, some out))
    × (get_elem? out.task_list 1 ≡ some (record sleeper { state = running }))
schedule_internal-wakes_example = schedule_internal-wakes asleep 5 sleeper (omega arith) refl refl
