-- ===== src/Task.antt =====
-- kernel/proc/task.c: the task list, the creation of tasks, and the round-robin scheduler. A task is
-- appended to the list and never taken off it, so the list is a list, a pointer to a task its index,
-- and the null pointer behind the last task the list's length. `kmalloc`'s results are arguments.
pub mod Search
pub mod Schedule
pub mod Kernel
pub mod Frame
mod Tests
use peker_os.Common.{
  ℕ, zero, suc, ◌+◌, ◌-◌, ◌*◌, ◌%◌, ◌^◌, Bool, true, false, not, ◌&&◌, ◌==◌, if◌then◌else◌, Option,
  none, some, List, [], ◌∷◌, ◌++◌, length, get_elem?, set, take,
}

pub data TaskState : Type 0 where
  ready running sleep dead : TaskState

-- `struct task`; the link is the task's place in the list, and `page_dir` is used nowhere in the file.
pub record Task : Type 0 where
  pub id : ℕ
  pub name : List ℕ
  pub esp : ℕ
  pub kstack_top : ℕ
  pub state : TaskState
  pub fd_table : ℕ → ℕ
  pub fd_offset : ℕ → ℕ
  pub heap_start : ℕ
  pub heap_end : ℕ

-- The static variables of the file, the `esp0` that `set_kernel_stack` of tss.c writes, and the words in
-- memory by their addresses, as far as the stacks of new tasks are concerned.
pub record Tasks : Type 0 where
  pub task_list : List Task
  pub current_task : ℕ
  pub next_pid : ℕ
  pub esp0 : ℕ
  pub words : ℕ → ℕ

abbrev pub is_dead : TaskState → Bool
is_dead dead = true
is_dead _ = false

-- `*(--esp) = value`, of the stack pointer and the words in memory by their addresses.
pub push : ℕ × (ℕ → ℕ) → ℕ → ℕ × (ℕ → ℕ)
push (esp, words) value =
    let top = (esp + 2 ^ 32 - 4) % 2 ^ 32 in (top, λ a. if a == top then value else words a)

pub push_all : ℕ × (ℕ → ℕ) → List ℕ → ℕ × (ℕ → ℕ)
push_all st [] = st
push_all st (value ∷ values) = push_all (push st value) values

-- What `create_task` pushes, in this order: for a user task `ss` and `esp`; `eflags`, `cs`, `eip`, the
-- error code and the interrupt's number, the registers of `pusha`, and `ds`.
pub initial_frame : ℕ → ℕ → Bool → List ℕ
initial_frame stack entry_point is_user =
    (if is_user then 0x23 ∷ (stack + 4096) % 2 ^ 32 ∷ [] else [])
    ++ (0x202
        ∷ (if is_user then 0x1B else 0x08)
        ∷ entry_point
        ∷ 0
        ∷ 0
        ∷ 0
        ∷ 0
        ∷ 0
        ∷ 0
        ∷ 0
        ∷ 0
        ∷ 0
        ∷ 0
        ∷ (if is_user then 0x23 else 0x10)
        ∷ [])

-- The stack pointer of a new task, and the words in memory, when its frame is on its stack.
pub push_frame : (ℕ → ℕ) → ℕ → ℕ → Bool → ℕ × (ℕ → ℕ)
push_frame words stack entry_point is_user =
    push_all ((stack + 4096) % 2 ^ 32, words) (initial_frame stack entry_point is_user)

-- The new task, with the address of its stack and of its kernel stack, and its stack pointer.
pub new_task : ℕ → List ℕ → ℕ → ℕ → ℕ → Bool → Task
new_task pid name stack kstack esp is_user = record {
  id = pid;
  name = take 31 name;
  esp = esp;
  kstack_top = if is_user then (kstack + 4096) % 2 ^ 32 else (stack + 4096) % 2 ^ 32;
  state = ready;
  fd_table = λ k. 0;
  fd_offset = λ k. 0;
  heap_start = 0x10000000;
  heap_end = 0x10000000;
}

pub create_task : Tasks → List ℕ → ℕ → ℕ → ℕ → Bool → Tasks
create_task s name stack kstack entry_point is_user =
    let (esp, words) = push_frame s.words stack entry_point is_user in
    record s {
      task_list = s.task_list ++ (new_task s.next_pid name stack kstack esp is_user ∷ []);
      next_pid = s.next_pid + 1;
      words = words;
    }

-- `init_multitasking`: the kernel's task. Its other fields are what `kmalloc` left in memory.
pub init_multitasking : Task → (ℕ → ℕ) → ℕ → ℕ → Tasks
init_multitasking memory words stack_top esp0 = record {
  task_list =
      record memory {
        id = 1;
        name = 107 ∷ 101 ∷ 114 ∷ 110 ∷ 101 ∷ 108 ∷ [];
        state = running;
        kstack_top = stack_top;
      }
      ∷ [];
  current_task = 0;
  next_pid = 2;
  esp0 = esp0;
  words = words;
}

-- The loop of `schedule_internal`, on fuel: the next task that is not dead.
pub find_next : List Task → ℕ → ℕ → Option ℕ
find_next ts zero next = none
find_next ts (suc k) next =
    let here = if next == length ts then 0 else next in
    let further = find_next ts k (here + 1) in
    elim (get_elem? ts here) [
      | none ↦ none
      | some t ↦ if is_dead t.state then further else some here
    ]

-- Give the processor to the task at `next`: the state after, and the stack pointer returned.
pub switch_to : Tasks → ℕ → Option (ℕ × Tasks)
switch_to s next = elim (get_elem? s.task_list next) [
  | none ↦ none
  | some t ↦ some (
    t.esp,
    record s {
      task_list = set s.task_list next (record t { state = running });
      current_task = next;
      esp0 = t.kstack_top;
    },
  )
]

pub save_esp : Tasks → ℕ → Option Tasks
save_esp s current_esp = elim (get_elem? s.task_list s.current_task) [
  | none ↦ none
  | some t ↦
      some
        (record s { task_list = set s.task_list s.current_task (record t { esp = current_esp }) })
]

-- `none` is a null pointer followed or a search that does not end.
pub run_next : Tasks → ℕ → Option (ℕ × Tasks)
run_next s current_esp = elim (save_esp s current_esp) [
  | none ↦ none
  | some s' ↦ elim (find_next s'.task_list (length s'.task_list + 1) (s'.current_task + 1)) [
    | none ↦ none
    | some next ↦ switch_to s' next
  ]
]

-- Before `init_multitasking` there are no tasks, and the stack pointer is returned as it is.
pub schedule_internal : Option Tasks → ℕ → Option (ℕ × Option Tasks)
schedule_internal none current_esp = some (current_esp, none)
schedule_internal (some s) current_esp = elim (run_next s current_esp) [
  | none ↦ none
  | some (esp, s') ↦ some (esp, some s')
]

-- `task_exit`, up to the wait for the scheduler.
pub task_exit : Tasks → Tasks
task_exit s = elim (get_elem? s.task_list s.current_task) [
  | none ↦ s
  | some t ↦
      if not (t.id == 1)
      then record s { task_list = set s.task_list s.current_task (record t { state = dead }) }
      else s
]
