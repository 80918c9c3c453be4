-- ===== src/Task/Frame.antt =====
-- The first stack of a task, as `create_task` of kernel/proc/task.c lays it out in memory for the return
-- from the timer's interrupt.
use peker_os.Common.{
  ℕ, zero, suc, ◌+◌, ◌-◌, ◌*◌, ◌%◌, ◌^◌, ◌≤◌, ◌<◌, ◌≡◌, refl, ap, ◌∙◌, ◌⊎◌, Bool, true, false,
  arith, inl, inr, ◌==◌, if◌then◌else◌, some, List, [], ◌∷◌, ◌++◌, length, get_elem?,
}
use mathlib.Core.Option.{some-injective, none-ne-some}
use peker_os.Task.{
  Task, Tasks, ready, push, push_all, initial_frame, push_frame, new_task, create_task,
}

-- A word that is pushed is at the new stack pointer, and no other word changes.
push-eq :
    (esp value : ℕ) (words : ℕ → ℕ)
    → 4 ≤ esp
    → esp < 2 ^ 32
    → push (esp, words) value ≡ (esp - 4, λ a. if a == esp - 4 then value else words a)
unfolding push
push-eq esp value words lo hi =
    ap (λ (top : ℕ). (top, λ (a : ℕ). if a == top then value else words a))
      {x = (esp + 2 ^ 32 - 4) % 2 ^ 32} {y = esp - 4} (omega arith)

-- What pushing a list of values does: the stack pointer, the words pushed, and the others.
record Pushed (esp : ℕ) (words : ℕ → ℕ) (values : List ℕ) (out : ℕ × (ℕ → ℕ)) : Type 0 where
  pub top : out.0 ≡ esp - 4 * length values
  pub pushed : (k value : ℕ) → get_elem? values k ≡ some value → out.1 (esp - 4 * (k + 1)) ≡ value
  pub kept : (a : ℕ) → (a < esp - 4 * length values) ⊎ (esp ≤ a) → out.1 a ≡ words a

push_all-Pushed :
    (esp : ℕ) (words : ℕ → ℕ) (values : List ℕ)
    → 4 * length values ≤ esp
    → esp < 2 ^ 32
    → Pushed esp words values (push_all (esp, words) values)
unfolding push_all
push_all-Pushed esp words [] le lt = record {
  top = omega arith;
  pushed = λ k value e. absurd (none-ne-some value e);
  kept = λ a out. refl;
}
push_all-Pushed esp words (v ∷ vs) le lt =
    let words' : ℕ → ℕ = λ a. if a == esp - 4 then v else words a in
    let r = push_all-Pushed (esp - 4) words' vs (omega arith) (omega arith) in
    rw (push-eq esp v words (omega arith) lt) (record {
      top = omega (arith, r.top);
      pushed = λ k value e. at k value e r;
      kept = λ a out. kept a out r;
    })
  where
    at :
        (k value : ℕ)
        → get_elem? (v ∷ vs) k ≡ some value
        → Pushed
            (esp - 4)
            (λ a. if a == esp - 4 then v else words a)
            vs
            (push_all (esp - 4, λ a. if a == esp - 4 then v else words a) vs)
        → (push_all (esp - 4, λ a. if a == esp - 4 then v else words a) vs).1 (esp - 4 * (k + 1))
          ≡ value
    at zero value e r =
        let below : esp - 4 ≤ esp - 4 * (zero + 1) = omega arith in
        r.kept (esp - 4 * (zero + 1)) (inr below) ∙ ground (arith, some-injective v value e)
    at (suc k) value e r =
        ap (push_all (esp - 4, λ a. if a == esp - 4 then v else words a) vs).1
          {x = esp - 4 * (suc k + 1)} {y = esp - 4 - 4 * (k + 1)} (omega arith)
        ∙ r.pushed k value e

    kept :
        (a : ℕ)
        → (a < esp - 4 * length (v ∷ vs)) ⊎ (esp ≤ a)
        → Pushed
            (esp - 4)
            (λ a. if a == esp - 4 then v else words a)
            vs
            (push_all (esp - 4, λ a. if a == esp - 4 then v else words a) vs)
        → (push_all (esp - 4, λ a. if a == esp - 4 then v else words a) vs).1 a ≡ words a
    kept a (inl below) r = r.kept a (inl (omega arith)) ∙ ground arith
    kept a (inr above) r = r.kept a (inr (omega arith)) ∙ ground arith

-- The words of a new task's stack, from its stack pointer on, as the return from the interrupt takes them
-- off: the data segment, ten words for the registers of `popa`, the interrupt's number and its error
-- code, where to go on, and for a user task its own stack.
pub record Frame (stack entry_point : ℕ) (is_user : Bool) (esp : ℕ) (words : ℕ → ℕ) : Type 0 where
  pub ds : words esp ≡ (if is_user then 0x23 else 0x10)
  pub registers : (k : ℕ) → k < 10 → words (esp + 4 + 4 * k) ≡ 0
  pub eip : words (esp + 44) ≡ entry_point
  pub cs : words (esp + 48) ≡ (if is_user then 0x1B else 0x08)
  pub eflags : words (esp + 52) ≡ 0x202
  pub user_esp : is_user ≡ true → words (esp + 56) ≡ stack + 4096
  pub ss : is_user ≡ true → words (esp + 60) ≡ 0x23

-- What `create_task` adds to the list of tasks and writes to memory.
pub record Framed (before after : Tasks) (stack entry_point : ℕ) (is_user : Bool) : Type 0 where
  pub task : Task
  pub last : after.task_list ≡ before.task_list ++ (task ∷ [])
  pub is_ready : task.state ≡ ready
  pub inside : stack ≤ task.esp
  pub ends : task.esp + (if is_user then 64 else 56) ≡ stack + 4096
  pub frame : Frame stack entry_point is_user task.esp after.words
  pub kept : (a : ℕ) → (a < stack) ⊎ (stack + 4096 ≤ a) → after.words a ≡ before.words a

-- The `k`th of the words that are popped is the one that is pushed `k` in front of the last.
popped :
    {end : ℕ} {words : ℕ → ℕ} {values : List ℕ} {out : ℕ × (ℕ → ℕ)}
    → Pushed end words values out
    → 4 * length values ≤ end
    → (k j value : ℕ) → j + k + 1 ≡ length values
    → get_elem? values j ≡ some value
    → out.1 (out.0 + 4 * k) ≡ value
popped {end} {words} {values} {out} r le k j value e at =
    ap out.1 {x = out.0 + 4 * k} {y = end - 4 * (j + 1)} (omega (arith, r.top))
    ∙ r.pushed j value at

ten_zeros :
    (j ds : ℕ) → j < 10 → get_elem? (0 ∷ 0 ∷ 0 ∷ 0 ∷ 0 ∷ 0 ∷ 0 ∷ 0 ∷ 0 ∷ 0 ∷ ds ∷ []) j ≡ some 0
ten_zeros zero ds lt = refl
ten_zeros (suc zero) ds lt = refl
ten_zeros (suc (suc zero)) ds lt = refl
ten_zeros (suc (suc (suc zero))) ds lt = refl
ten_zeros (suc (suc (suc (suc zero)))) ds lt = refl
ten_zeros (suc (suc (suc (suc (suc zero))))) ds lt = refl
ten_zeros (suc (suc (suc (suc (suc (suc zero)))))) ds lt = refl
ten_zeros (suc (suc (suc (suc (suc (suc (suc zero))))))) ds lt = refl
ten_zeros (suc (suc (suc (suc (suc (suc (suc (suc zero)))))))) ds lt = refl
ten_zeros (suc (suc (suc (suc (suc (suc (suc (suc (suc zero))))))))) ds lt = refl
ten_zeros (suc (suc (suc (suc (suc (suc (suc (suc (suc (suc j)))))))))) ds lt = absurd (omega arith)

module _ (words : ℕ → ℕ) (stack entry_point : ℕ) (small : stack + 4096 < 2 ^ 32) where
  push_frame-Pushed :
      (is_user : Bool)
      → length (initial_frame stack entry_point is_user) ≤ 16
      → Pushed
          (stack + 4096)
          words
          (initial_frame stack entry_point is_user)
          (push_frame words stack entry_point is_user)
  unfolding push_frame
  push_frame-Pushed is_user le =
      let e : (stack + 4096) % 2 ^ 32 ≡ stack + 4096 = omega arith in
      rw e (
        push_all-Pushed (stack + 4096) words (initial_frame stack entry_point is_user) (omega arith)
          small)

  kernel-Frame :
      (out : ℕ × (ℕ → ℕ))
      → Pushed (stack + 4096) words (initial_frame stack entry_point false) out
      → Frame stack entry_point false out.0 out.1
  unfolding initial_frame
  kernel-Frame out r =
      let le : 4 * 14 ≤ stack + 4096 = omega arith in
      record {
        ds =
            ap out.1 {x = out.0} {y = out.0 + 4 * 0} (omega arith)
            ∙ popped r le 0 13 0x10 refl refl;
        registers = λ k lt.
            ap out.1 {x = out.0 + 4 + 4 * k} {y = out.0 + 4 * (k + 1)} (omega arith)
            ∙ popped r le (k + 1) (suc (suc (suc (9 - k)))) 0 (omega arith)
                (ten_zeros (9 - k) 0x10 (omega arith));
        eip = popped r le 11 2 entry_point refl refl;
        cs = popped r le 12 1 0x08 refl refl;
        eflags = popped r le 13 0 0x202 refl refl;
        user_esp = λ e. ground arith;
        ss = λ e. ground arith;
      }

  user-Frame :
      (out : ℕ × (ℕ → ℕ))
      → Pushed (stack + 4096) words (initial_frame stack entry_point true) out
      → Frame stack entry_point true out.0 out.1
  unfolding initial_frame
  user-Frame out r =
      let le : 4 * 16 ≤ stack + 4096 = omega arith in
      record {
        ds =
            ap out.1 {x = out.0} {y = out.0 + 4 * 0} (omega arith)
            ∙ popped r le 0 15 0x23 refl refl;
        registers = λ k lt.
            ap out.1 {x = out.0 + 4 + 4 * k} {y = out.0 + 4 * (k + 1)} (omega arith)
            ∙ popped r le (k + 1) (suc (suc (suc (suc (suc (9 - k)))))) 0 (omega arith)
                (ten_zeros (9 - k) 0x23 (omega arith));
        eip = popped r le 11 4 entry_point refl refl;
        cs = popped r le 12 3 0x1B refl refl;
        eflags = popped r le 13 2 0x202 refl refl;
        user_esp = λ e. popped r le 14 1 _ refl refl ∙ omega arith;
        ss = λ e. popped r le 15 0 0x23 refl refl;
      }

-- On a stack that does not reach the end of the address space, `create_task` adds a task that is ready to
-- the end of the list. Its stack pointer is in the stack, and the words in memory from there to the
-- stack's end are the frame of an interrupt whose return starts the task at its entry point, with the
-- interrupts on, the registers 0, the segments of a kernel's or a user's task as asked, and a user's task
-- on its own stack. No word outside the stack changes.
pub create_task-Framed :
    (s : Tasks) (name : List ℕ) (stack kstack entry_point : ℕ) (is_user : Bool)
    → stack + 4096 < 2 ^ 32
    → Framed s (create_task s name stack kstack entry_point is_user) stack entry_point is_user
unfolding create_task new_task initial_frame
create_task-Framed s name stack kstack entry_point true small =
    let r = push_frame-Pushed s.words stack entry_point small true (omega arith) in
    record {
      task =
          new_task s.next_pid name stack kstack (push_frame s.words stack entry_point true).0 true;
      last = refl;
      is_ready = refl;
      inside = omega (arith, r.top);
      ends = omega (arith, r.top);
      frame = user-Frame s.words stack entry_point small _ r;
      kept = λ a out. r.kept a (go a out);
    }
  where
    go :
        (a : ℕ)
        → (a < stack) ⊎ (stack + 4096 ≤ a)
        → (a < stack + 4096 - 4 * 16) ⊎ (stack + 4096 ≤ a)
    go a (inl below) = inl (omega arith)
    go a (inr above) = inr above
create_task-Framed s name stack kstack entry_point false small =
    let r = push_frame-Pushed s.words stack entry_point small false (omega arith) in
    record {
      task =
          new_task s.next_pid name stack kstack (push_frame s.words stack entry_point false).0
            false;
      last = refl;
      is_ready = refl;
      inside = omega (arith, r.top);
      ends = omega (arith, r.top);
      frame = kernel-Frame s.words stack entry_point small _ r;
      kept = λ a out. r.kept a (go a out);
    }
  where
    go :
        (a : ℕ)
        → (a < stack) ⊎ (stack + 4096 ≤ a)
        → (a < stack + 4096 - 4 * 14) ⊎ (stack + 4096 ≤ a)
    go a (inl below) = inl (omega arith)
    go a (inr above) = inr above
