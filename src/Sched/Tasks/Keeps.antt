-- ===== src/Sched/Tasks/Keeps.antt =====
-- Changes of the tasks of src/kernel/sched/task.rs that make no task able or unable to run.
use an_os_in_rust.Base.{
  ℕ, ◌≡◌, refl, sym, ap, true, none, some, List, ◌==◌, if◌then◌else◌, arith, Bool-cases, inl, inr,
  ok,
}
use an_os_in_rust.Base.Assoc.{lookup, put, lookup-put}
use an_os_in_rust.Sched.Tasks.{TaskInfo, Task, TaskList, is_runnable, modify}
use an_os_in_rust.Sched.Tasks.Queue.{ready_task, ready}

-- The tasks afterwards are the same ones.
pub record Retains (tasks tasks' : List (ℕ × Task)) : Type 0 where
  pub absence : (j : ℕ) → lookup j tasks ≡ none → lookup j tasks' ≡ none
  pub presence :
      (j : ℕ) (task : Task)
      → lookup j tasks ≡ some task
      → (task' : Task) × (lookup j tasks' ≡ some task')
  pub naming :
      (j : ℕ) (task' : Task)
      → lookup j tasks' ≡ some task'
      → (task : Task) × (lookup j tasks ≡ some task) × (task'.info.task_id ≡ task.info.task_id)

-- Moreover, each is as able to run as before.
pub record Keeps (tasks tasks' : List (ℕ × Task)) : Type 0 where
  pub retains : Retains tasks tasks'
  pub readiness : (j : ℕ) → ready j tasks' ≡ ready j tasks

pub put-Retains :
    (id : ℕ) (task task' : Task) (tasks : List (ℕ × Task))
    → lookup id tasks ≡ some task
    → task'.info.task_id ≡ task.info.task_id
    → Retains tasks (put id task' tasks)
put-Retains id task task' tasks found named = record {
  absence = λ j missing. ground (arith, lookup-put id j task' tasks);
  presence = λ j other here. elim (Bool-cases (id == j)) [
    | inl e ↦ (task', rw (lookup-put id j task' tasks, e) refl)
    | inr e ↦ (other, rw (lookup-put id j task' tasks, e) here)
  ];
  naming = λ j other here. elim (Bool-cases (id == j)) [
    | inl e ↦ (
      task,
      rw (ap (λ k. lookup k tasks) (sym (eq_of id j e))) found,
      same_name other (sym (rw (lookup-put id j task' tasks, e) at here)),
    )
    | inr e ↦ (other, rw (lookup-put id j task' tasks, e) at here, refl)
  ];
}
  where
    eq_of : (a b : ℕ) → (a == b) ≡ true → a ≡ b
    eq_of a b e = ground arith

    same_name : (other : Task) → some other ≡ some task' → other.info.task_id ≡ task.info.task_id
    same_name other e = cc

pub put-Keeps :
    (id : ℕ) (task task' : Task) (tasks : List (ℕ × Task))
    → lookup id tasks ≡ some task
    → task'.info.flags ≡ task.info.flags
    → task'.info.task_id ≡ task.info.task_id
    → Keeps tasks (put id task' tasks)
unfolding ready ready_task
put-Keeps id task task' tasks found same named = record {
  retains = put-Retains id task task' tasks found named;
  readiness =
      λ j. ground (arith, lookup-put id j task' tasks, same_ready, found, ap (λ k. lookup k tasks));
}
  where
    same_ready : ready_task (some task') ≡ ready_task (some task)
    same_ready = ap (λ flags. if is_runnable flags then 1 else 0) same

-- A change of a task that exists returns.
pub modify-returns :
    (id : ℕ) (f : TaskInfo → TaskInfo) (l : TaskList) (task : Task)
    → ((info : TaskInfo) → (f info).flags ≡ info.flags)
    → ((info : TaskInfo) → (f info).task_id ≡ info.task_id)
    → lookup id l.tasks ≡ some task
    → (l' : TaskList) × (modify id f l ≡ ok l')
      × Keeps l.tasks l'.tasks
      × (l'.schedulable ≡ l.schedulable)
      × (l'.next_task_id ≡ l.next_task_id)
unfolding modify
modify-returns id f l task same named found = (
  record l { tasks = put id (record task { info = f task.info }) l.tasks },
  rw (found) refl,
  put-Keeps id task (record task { info = f task.info }) l.tasks found (same task.info)
      (named task.info),
  refl,
  refl,
)
