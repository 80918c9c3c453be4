-- ===== src/Task/Schedule.antt =====
-- The scheduler of kernel/proc/task.c: which task it picks, and that it ends.
use peker_os.Common.{
  ℕ, zero, suc, ◌+◌, ◌<◌, ◌≡◌, refl, sym, ap, ◌∙◌, ◌≢◌, true, arith, inl, inr, ◌==◌, Bool-cases,
  if◌then◌else◌, Option, none, some, List, [], ◌∷◌, length, get_elem?, set, length-set,
  get_elem?-set_ne, get_elem?-set_self, get_elem?-lt,
}
use peker_os.Task.{Task, Tasks, running, switch_to, save_esp, run_next}
use peker_os.Task.Search.{alive, IsNext, ahead, round, get_elem?-some, alive-lt, find_next-IsNext}

-- The stack pointers apart, who is alive does not change when one is saved.
alive-set_esp :
    (ts : List Task) (c e g : ℕ) {t : Task}
    → get_elem? ts c ≡ some t
    → alive (set ts c (record t { esp = e })) g ≡ alive ts g
alive-set_esp ts c e g {t} at = elim (Bool-cases (c == g)) [
  | inl same ↦
      let q : c ≡ g = ground arith in
      rw (← q)
        (ground (arith, at, get_elem?-set_self ts c (record t { esp = e }) (get_elem?-lt ts c at)))
  | inr other ↦
      ground (arith, get_elem?-set_ne ts {i = c} {j = g} (record t { esp = e }) (ground arith))
]

-- A property of the task at an index.
abbrev pub field : {B : Type 0} → (Task → B) → List Task → ℕ → Option B
field f ts g = elim (get_elem? ts g) [ none ↦ none | some t ↦ some (f t) ]

-- Writing a task with the property of the one that it replaces changes the property nowhere.
pub field-set :
    {B : Type 0} (f : Task → B) (ts : List Task) (i : ℕ) (a : Task) {t : Task}
    → get_elem? ts i ≡ some t
    → f a ≡ f t
    → (g : ℕ) → field f (set ts i a) g ≡ field f ts g
field-set f [] i a at e g = refl
field-set f (x ∷ ts) zero a at e zero =
    ap some (e ∙ ap (λ (o : Option Task). elim o [ none ↦ f a | some y ↦ f y ]) (sym at))
field-set f (x ∷ ts) zero a at e (suc g) = refl
field-set f (x ∷ ts) (suc i) a at e zero = refl
field-set f (x ∷ ts) (suc i) a at e (suc g) = field-set f ts i a at e g

IsNext-same :
    {ts us : List Task} {i j : ℕ}
    → ((g : ℕ) → alive us g ≡ alive ts g)
    → length us ≡ length ts
    → IsNext us i j
    → IsNext ts i j
IsNext-same same len (ahead live from to all) =
    ahead (sym (same _) ∙ live) from (omega (arith, len)) (λ g lo hi. sym (same g) ∙ all g lo hi)
IsNext-same same len (round live from to all all') =
    round (sym (same _) ∙ live) from (omega (arith, len))
      (λ g lo hi. sym (same g) ∙ all g lo (omega (arith, len)))
      (λ g lo hi. sym (same g) ∙ all' g lo hi)

-- What a call of the scheduler does.
pub record Switched (s : Tasks) (current_esp : ℕ) (out : ℕ × Tasks) : Type 0 where
  pub next : IsNext s.task_list (s.current_task + 1) out.1.current_task
  pub task : Task
  pub picked : get_elem? s.task_list out.1.current_task ≡ some task
  pub returned : out.0 ≡ (if s.current_task == out.1.current_task then current_esp else task.esp)
  pub stack : out.1.esp0 ≡ task.kstack_top
  pub is_running :
      get_elem? out.1.task_list out.1.current_task
      ≡ some (record task { esp = out.0; state = running })
  pub ids : (g : ℕ) → field (λ t. t.id) out.1.task_list g ≡ field (λ t. t.id) s.task_list g
  pub states :
      (g : ℕ)
      → g ≢ out.1.current_task
      → field (λ t. t.state) out.1.task_list g ≡ field (λ t. t.state) s.task_list g
  pub size : length out.1.task_list ≡ length s.task_list
  pub pids : out.1.next_pid ≡ s.next_pid
  pub others :
      (g : ℕ)
      → g ≢ out.1.current_task
      → g ≢ s.current_task
      → get_elem? out.1.task_list g ≡ get_elem? s.task_list g

save_esp-some :
    (s : Tasks) (esp : ℕ) {c : Task}
    → get_elem? s.task_list s.current_task ≡ some c
    → save_esp s esp
      ≡ some (record s { task_list = set s.task_list s.current_task (record c { esp = esp }) })
unfolding save_esp
save_esp-some s esp at = rw (at, save_esp)

switch_to-some :
    (s : Tasks) (j : ℕ) {u : Task}
    → get_elem? s.task_list j ≡ some u
    → switch_to s j
      ≡ some (
        u.esp,
        record s {
          task_list = set s.task_list j (record u { state = running });
          current_task = j;
          esp0 = u.kstack_top;
        },
      )
unfolding switch_to
switch_to-some s j at = rw (at, switch_to)

-- A task of the list in which the current one's stack pointer is saved.
saved_task :
    (ts : List Task) (c e j : ℕ) {a t u : Task}
    → get_elem? ts c ≡ some a
    → get_elem? ts j ≡ some t
    → get_elem? (set ts c (record a { esp = e })) j ≡ some u
    → u ≡ record t { esp = if c == j then e else t.esp }
saved_task ts c e j {a} {t} {u} at at' now = elim (Bool-cases (c == j)) [
  | inl same ↦
      let q : c ≡ j = ground arith in
      let n : get_elem? (set ts c (record a { esp = e })) c ≡ some u = rw (← q) at now in
      ground (
        arith,
        at,
        at',
        n,
        ap (get_elem? ts) q,
        get_elem?-set_self ts c (record a { esp = e }) (get_elem?-lt ts c at),
      )
  | inr other ↦ ground (
    arith,
    at,
    at',
    now,
    get_elem?-set_ne ts {i = c} {j = j} (record a { esp = e }) (ground arith),
  )
]

pub IsNext-lt : {ts : List Task} {i j : ℕ} → IsNext ts i j → j < length ts
IsNext-lt (ahead live from to all) = to
IsNext-lt (round live from to all all') = to

-- Some task is alive: `schedule_internal` ends, and picks the first task behind the current one, round
-- the list, that is not dead, a sleeping one too. It returns that task's stack pointer, having saved
-- the current task's, marks the task as running and sets its kernel stack.
pub run_next-Switched :
    (s : Tasks) (current_esp w : ℕ)
    → s.current_task < length s.task_list
    → alive s.task_list w ≡ true
    → (out : ℕ × Tasks) × (run_next s current_esp ≡ some out) × Switched s current_esp out
unfolding run_next
run_next-Switched s esp w inside live =
    let (c, at) = get_elem?-some s.task_list s.current_task inside in
    let us : List Task = set s.task_list s.current_task (record c { esp = esp }) in
    let len : length us ≡ length s.task_list =
      length-set s.task_list s.current_task (record c { esp = esp }) in
    let same : (g : ℕ) → alive us g ≡ alive s.task_list g =
      λ g. alive-set_esp s.task_list s.current_task esp g at in
    let (j, e, next) =
      find_next-IsNext us (s.current_task + 1) w (omega arith)
        (omega (arith, alive-lt s.task_list w live)) (same w ∙ live) in
    let (u, at_u) = get_elem?-some us j (IsNext-lt next) in
    let (t, at_t) = get_elem?-some s.task_list j (omega (arith, IsNext-lt next)) in
    let q = saved_task s.task_list s.current_task esp j at at_t at_u in
    let s' : Tasks = record s { task_list = us } in
    (
      (
        u.esp,
        record s' {
          task_list = set us j (record u { state = running });
          current_task = j;
          esp0 = u.kstack_top;
        },
      ),
      rw (save_esp-some s esp at, run_next) (rw (e, run_next) (switch_to-some s' j at_u)),
      record {
        next = IsNext-same same len next;
        task = t;
        picked = at_t;
        returned = ap (λ (x : Task). x.esp) q;
        stack = ap (λ (x : Task). x.kstack_top) q;
        is_running =
            get_elem?-set_self us j (record u { state = running }) (IsNext-lt next)
            ∙ ap (λ (x : Task). some (record x { esp = u.esp; state = running })) q;
        ids = λ g.
            field-set (λ x. x.id) us j (record u { state = running }) at_u refl g
            ∙ field-set (λ x. x.id) s.task_list s.current_task (record c { esp = esp }) at refl g;
        states = λ g ne.
            ap (λ (o : Option Task). elim o [ none ↦ none | some x ↦ some x.state ])
              (get_elem?-set_ne us {i = j} {j = g} (record u { state = running }) (λ p. ne (sym p)))
            ∙ field-set (λ x. x.state) s.task_list s.current_task (record c { esp = esp }) at refl
                g;
        size = length-set us j (record u { state = running }) ∙ len;
        pids = refl;
        others = λ g ne ne'.
            get_elem?-set_ne us {i = j} {j = g} (record u { state = running }) (λ p. ne (sym p))
            ∙ get_elem?-set_ne s.task_list {i = s.current_task} {j = g} (record c { esp = esp })
                (λ p. ne' (sym p));
      },
    )
