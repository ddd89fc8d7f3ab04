-- ===== src/Sched/Guard/Invariant.antt =====
-- The scheduler's invariant: its heap holds exactly the tasks that can run and do not run, once each.
use an_os_in_rust.Base.{
  ℕ, ◌+◌, ◌-◌, ◌*◌, ◌^◌, ◌≤◌, ◌<◌, ◌≡◌, sym, ap, ◌∙◌, none, some, ◌==◌, if◌then◌else◌, arith,
  length, ok,
}
use an_os_in_rust.Base.Assoc.{lookup}
use an_os_in_rust.Sched.Tasks
use an_os_in_rust.Sched.Tasks.{
  TaskInfo, Task, TaskList, is_runnable, set_is_runnable, push, retain, pick, sched_latency,
  update_runtime, set_runnable, set_current_task, set_run_until,
}
use an_os_in_rust.Sched.Tasks.Queue.{times, ready}
use an_os_in_rust.Sched.Tasks.Keeps.{Retains, modify-returns}

-- The tasks are stored under their ids, the idle task is there, and ids from the next one on are free.
pub record IsKnown (l : TaskList) : Type 0 where
  pub idle : (task : Task) × (lookup 0 l.tasks ≡ some task)
  pub fresh : (id : ℕ) → l.next_task_id ≤ id → lookup id l.tasks ≡ none
  pub named : (id : ℕ) (task : Task) → lookup id l.tasks ≡ some task → task.info.task_id ≡ id

-- While no task is on the processor: every task that can run is in the heap once, and no other task is.
pub record IsWaiting (l : TaskList) : Type 0 where
  pub known : IsKnown l
  pub queue : (id : ℕ) → times id l.schedulable ≡ ready id l.tasks

-- While a task runs: it is not in the heap, and the other tasks are there as above.
pub record IsScheduled (running : ℕ) (l : TaskList) : Type 0 where
  pub known : IsKnown l
  pub found : (task : Task) × (lookup running l.tasks ≡ some task)
  pub queue : (id : ℕ) → times id l.schedulable ≡ (if running == id then 0 else ready id l.tasks)

-- The times that a switch computes are 64-bit numbers, and the clock has not gone back.
pub record IsTimely (now : ℕ) (task : Task) (l : TaskList) : Type 0 where
  pub forward : task.info.last_scheduled ≤ now
  pub charged : task.info.total_runtime + (now - task.info.last_scheduled) * length l.tasks < 2 ^ 64
  pub until : now + sched_latency < 2 ^ 64

pub IsKnown-Retains :
    (l l' : TaskList)
    → IsKnown l
    → Retains l.tasks l'.tasks
    → l'.next_task_id ≡ l.next_task_id
    → IsKnown l'
IsKnown-Retains l l' v keeps n = record {
  idle = keeps.presence 0 (v.idle.0) (v.idle.1);
  fresh = λ j h. keeps.absence j (v.fresh j (omega (arith, n)));
  named = λ j task' h. let (old, here, e) = keeps.naming j task' h in e ∙ v.named j old here;
}

pub modify-IsScheduled :
    (running id : ℕ) (f : TaskInfo → TaskInfo) (l : TaskList) (task : Task)
    → ((info : TaskInfo) → (f info).flags ≡ info.flags)
    → ((info : TaskInfo) → (f info).task_id ≡ info.task_id)
    → lookup id l.tasks ≡ some task
    → IsScheduled running l
    → (l' : TaskList) × (Tasks.modify id f l ≡ ok l') × IsScheduled running l'
modify-IsScheduled running id f l task same name found v =
    let (l', returns, keeps, e, n) = modify-returns id f l task same name found in
    (
      l',
      returns,
      record {
        known = IsKnown-Retains l l' v.known keeps.retains n;
        found = keeps.retains.presence running (v.found.0) (v.found.1);
        queue = λ j.
            ap (times j) e
            ∙ v.queue j
            ∙ ap (λ (k : ℕ). if running == j then 0 else k) (sym (keeps.readiness j));
      },
    )
