-- ===== src/Task/Kernel.antt =====
-- The kernel's task, PID 1, of kernel/proc/task.c never dies, so the scheduler always ends.
use peker_os.Common.{
  ℕ, zero, suc, ◌+◌, ◌≤◌, ◌<◌, ◌≡◌, refl, sym, ap, ◌∙◌, ◌≢◌, ◌⊎◌, Bool, true, arith, inl, inr, ◌==◌,
  Bool-cases, Option, none, some, List, [], ◌∷◌, ◌++◌, length, get_elem?, set, length-append,
  length-set, get_elem?-set_ne, ◌↔◌,
}
use native.Mathlib.Decide.{dec_lt}
use peker_os.Task.{
  Task, Tasks, running, sleep, dead, push_frame, new_task, create_task, init_multitasking, run_next,
  schedule_internal, task_exit,
}
use peker_os.Task.Search.{alive, alive-lt, IsNext, ahead, round, get_elem?-some}
use peker_os.Task.Schedule.{IsNext-lt, field, field-set, Switched, run_next-Switched}

-- The first task is the kernel's and is alive, no other task has its number, and the current task is one of the list.
pub record HasKernel (s : Tasks) : Type 0 where
  pub first : alive s.task_list 0 ≡ true
  pub only : (g : ℕ) (t : Task) → get_elem? s.task_list g ≡ some t → (t.id ≡ 1) ↔ (g ≡ 0)
  pub current : s.current_task < length s.task_list
  pub fresh : 2 ≤ s.next_pid

-- The steps that the tasks and the timer take, in any order.
pub data Step (s : Tasks) : Tasks → Type 0 where
  create :
      (name : List ℕ) (stack kstack entry_point : ℕ) (is_user : Bool)
      → Step s (create_task s name stack kstack entry_point is_user)
  tick : (esp esp' : ℕ) (u : Tasks) → run_next s esp ≡ some (esp', u) → Step s u
  exit : Step s (task_exit s)

pub data Reach (s : Tasks) : Tasks → Type 0 where
  here : Reach s s
  next : {t u : Tasks} → Reach s t → Step t u → Reach s u

init_multitasking-HasKernel :
    (memory : Task) (words : ℕ → ℕ) (stack_top esp0 : ℕ)
    → HasKernel (init_multitasking memory words stack_top esp0)
unfolding init_multitasking
init_multitasking-HasKernel memory words stack_top esp0 = record {
  first = refl;
  only = only;
  current = omega arith;
  fresh = omega arith;
}
  where
    only :
        (g : ℕ) (t : Task)
        → get_elem? (init_multitasking memory words stack_top esp0).task_list g ≡ some t
        → (t.id ≡ 1) ↔ (g ≡ 0)
    only zero t e =
        (λ h. refl, λ h. ap (λ (o : Option Task). elim o [ none ↦ 1 | some x ↦ x.id ]) (sym e))
    only (suc g) t e = absurd (ground arith)

-- An element behind a list that grew by one.
get_elem?-snoc :
    {A : Type 0} (xs : List A) (a : A) (g : ℕ) {t : A}
    → get_elem? (xs ++ (a ∷ [])) g ≡ some t
    → (get_elem? xs g ≡ some t) ⊎ ((g ≡ length xs) × (t ≡ a))
get_elem?-snoc [] a zero e = inr (refl, ground arith)
get_elem?-snoc [] a (suc g) e = absurd (ground arith)
get_elem?-snoc (x ∷ xs) a zero e = inl e
get_elem?-snoc (x ∷ xs) a (suc g) e = elim (get_elem?-snoc xs a g e) [
  | inl old ↦ inl old
  | inr (q, same) ↦ inr (ap suc q, same)
]

alive-snoc :
    (xs : List Task) (a : Task) (g : ℕ) → alive xs g ≡ true → alive (xs ++ (a ∷ [])) g ≡ true
alive-snoc [] a g live = absurd (ground arith)
alive-snoc (x ∷ xs) a zero live = live
alive-snoc (x ∷ xs) a (suc g) live = alive-snoc xs a g live

create_task-HasKernel :
    {s : Tasks} (name : List ℕ) (stack kstack entry_point : ℕ) (is_user : Bool)
    → HasKernel s
    → HasKernel (create_task s name stack kstack entry_point is_user)
unfolding create_task new_task
create_task-HasKernel {s} name stack kstack entry_point is_user h = record {
  first =
      alive-snoc s.task_list
        (new_task s.next_pid name stack kstack (push_frame s.words stack entry_point is_user).0
          is_user)
        0 h.first;
  only = λ g t e.
      elim (get_elem?-snoc s.task_list
        (new_task s.next_pid name stack kstack (push_frame s.words stack entry_point is_user).0
          is_user)
        g e) [
          | inl old ↦ h.only g t old
          | inr (q, same) ↦ (
            λ one. absurd (omega (arith, h.fresh, ap (λ (x : Task). x.id) same)),
            λ z. absurd (omega (arith, alive-lt s.task_list 0 h.first)),
          )
        ];
  current = omega (
    arith,
    h.current,
    length-append s.task_list (
        new_task s.next_pid name stack kstack (push_frame s.words stack entry_point is_user).0
          is_user
        ∷ []),
  );
  fresh = omega (arith, h.fresh);
}

-- What an invariant of numbers and life needs of a step that keeps the list's tasks.
keeps :
    {s u : Tasks}
    → ((g : ℕ) → field (λ t. t.id) u.task_list g ≡ field (λ t. t.id) s.task_list g)
    → alive u.task_list 0 ≡ true
    → u.current_task < length u.task_list
    → u.next_pid ≡ s.next_pid
    → HasKernel s
    → HasKernel u
keeps {s} {u} ids first current pids h = record {
  first = first;
  only = λ g t e. go g t e (get_elem? s.task_list g) refl;
  current = current;
  fresh = omega (arith, h.fresh);
}
  where
    go :
        (g : ℕ) (t : Task)
        → get_elem? u.task_list g ≡ some t
        → (o : Option Task) → get_elem? s.task_list g ≡ o
        → (t.id ≡ 1) ↔ (g ≡ 0)
    go g t e none e' = absurd (ground (arith, ids g, e, e'))
    go g t e (some t') e' =
        let same : t'.id ≡ t.id = ground (arith, ids g, e, e') in
        let old = h.only g t' e' in (λ one. old.0 (same ∙ one), λ z. sym same ∙ old.1 z)

run_next-HasKernel :
    (s : Tasks) (esp esp' : ℕ) (u : Tasks)
    → HasKernel s
    → run_next s esp ≡ some (esp', u)
    → HasKernel u
run_next-HasKernel s esp esp' u h e =
    let (out, e', sw) = run_next-Switched s esp 0 h.current h.first in
    let same : u ≡ out.1 =
      ap (λ (o : Option (ℕ × Tasks)). elim o [ none ↦ u | some x ↦ x.1 ]) (sym e ∙ e') in
    rw same (keeps sw.ids (first out sw) (omega (arith, IsNext-lt sw.next, sw.size)) sw.pids h)
  where
    first : (out : ℕ × Tasks) → Switched s esp out → alive out.1.task_list 0 ≡ true
    first out sw = elim (Bool-cases (out.1.current_task == 0)) [
      | inl zero_next ↦
          let q : out.1.current_task ≡ 0 = ground arith in
          let r = rw q at sw.is_running in ground (arith, r)
      | inr other ↦
          let ne : 0 ≢ out.1.current_task = ground arith in ground (arith, sw.states 0 ne, h.first)
    ]

task_exit-HasKernel : {s : Tasks} → HasKernel s → HasKernel (task_exit s)
unfolding task_exit
task_exit-HasKernel {s} h =
    let (t, at) = get_elem?-some s.task_list s.current_task h.current in
    elim (Bool-cases (t.id == 1)) [
      | inl one ↦ rw (at, task_exit) (rw one h)
      | inr other ↦
          let ne : s.current_task ≢ 0 =
            λ z. ground (arith, other, (h.only s.current_task t at).1 z) in
          let u : Tasks = record s {
            task_list = set s.task_list s.current_task (record t { state = dead });
          } in
          let kept : HasKernel u =
            keeps
              (field-set (λ x. x.id) s.task_list s.current_task (record t { state = dead }) at refl)
              (ground (
                arith,
                h.first,
                get_elem?-set_ne s.task_list {i = s.current_task} {j = 0}
                    (record t { state = dead }) ne,
              ))
              (omega (
                arith,
                h.current,
                length-set s.task_list s.current_task (record t { state = dead }),
              ))
              refl h in
          rw (at, task_exit) (rw other kept)
    ]

Step-HasKernel : {s u : Tasks} → Step s u → HasKernel s → HasKernel u
Step-HasKernel (create name stack kstack entry_point is_user) h =
    create_task-HasKernel name stack kstack entry_point is_user h
Step-HasKernel {s} (tick esp esp' u e) h = run_next-HasKernel s esp esp' u h e
Step-HasKernel exit h = task_exit-HasKernel h

-- Whatever tasks are created, switched to and exit after `init_multitasking`, in any order: task 1 is
-- alive and is the first of the list, and the current task is one of the list.
pub Reach-HasKernel :
    (memory : Task) (words : ℕ → ℕ) (stack_top esp0 : ℕ) {s : Tasks}
    → Reach (init_multitasking memory words stack_top esp0) s
    → HasKernel s
Reach-HasKernel memory words stack_top esp0 here =
    init_multitasking-HasKernel memory words stack_top esp0
Reach-HasKernel memory words stack_top esp0 (next r step) =
    Step-HasKernel step (Reach-HasKernel memory words stack_top esp0 r)

-- In every state reached from `init_multitasking` by creations, switches and exits, `schedule_internal`
-- ends, and its task is the first behind the current one, round the list, that is not dead.
pub schedule_internal-Ends :
    (memory : Task) (words : ℕ → ℕ) (stack_top esp0 : ℕ) (s : Tasks) (current_esp : ℕ)
    → Reach (init_multitasking memory words stack_top esp0) s
    → (out : ℕ × Tasks) × (schedule_internal (some s) current_esp ≡ some (out.0, some out.1))
      × Switched s current_esp out
unfolding schedule_internal
schedule_internal-Ends memory words stack_top esp0 s esp r =
    let h = Reach-HasKernel memory words stack_top esp0 r in
    let (out, e, sw) = run_next-Switched s esp 0 h.current h.first in
    (out, rw (e, schedule_internal) refl, sw)

IsNext-first : {ts : List Task} {i j : ℕ} → alive ts i ≡ true → IsNext ts i j → j ≡ i
IsNext-first {ts} {i} {j} live (ahead live' from to all) = elim (dec_lt i j) [
  | yes lt ↦ absurd (ground (arith, live, all i (omega arith) lt))
  | no ge ↦ omega arith
]
IsNext-first {ts} {i} {j} live (round live' from to all all') =
    absurd (ground (arith, live, all i (omega arith) (alive-lt ts i live)))

-- A task that sleeps, and that is next in the list behind the current task, is given the processor and
-- marked as running by the scheduler, whatever it waits for.
pub schedule_internal-wakes :
    (s : Tasks) (current_esp : ℕ) (t : Task)
    → s.current_task < length s.task_list
    → get_elem? s.task_list (s.current_task + 1) ≡ some t
    → t.state ≡ sleep
    → (out : Tasks) × (schedule_internal (some s) current_esp ≡ some (t.esp, some out))
      × (get_elem? out.task_list (s.current_task + 1) ≡ some (record t { state = running }))
unfolding schedule_internal
schedule_internal-wakes s esp t inside at asleep =
    let live : alive s.task_list (s.current_task + 1) ≡ true = ground (arith, at, asleep) in
    let (out, e, sw) = run_next-Switched s esp (s.current_task + 1) inside live in
    let first : out.1.current_task ≡ s.current_task + 1 = IsNext-first live sw.next in
    let same : sw.task ≡ t =
      ap (λ (o : Option Task). elim o [ none ↦ t | some x ↦ x ])
        (sym sw.picked ∙ ap (get_elem? s.task_list) first ∙ at) in
    let returned : out.0 ≡ t.esp =
      sw.returned ∙ ground (arith, first) ∙ ap (λ (x : Task). x.esp) same in
    (
      out.1,
      rw (e, schedule_internal) (ap (λ n. some (n, some out.1)) returned),
      ap (get_elem? out.1.task_list) (sym first)
          ∙ sw.is_running
          ∙ ap (λ (x : Task). some (record x { esp = out.0; state = running })) same
          ∙ ap (λ n. some (record t { esp = n; state = running })) returned,
    )
