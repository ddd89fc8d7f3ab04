-- ===== src/Sched/Guard/Operations.antt =====
-- Every operation of the scheduler keeps its invariant.
use an_os_in_rust.Base.{
  ℕ, ◌≡◌, refl, ap, Bool, true, false, some, List, ◌∷◌, ◌==◌, ==_self, if◌then◌else◌, arith,
  Bool-cases, inl, inr, ok,
}
use an_os_in_rust.Base.Assoc.{lookup, put, lookup-put, length-put}
use an_os_in_rust.Sched.Tasks.{
  TaskInfo, Task, TaskList, set_is_runnable, push, retain, set_runnable,
}
use an_os_in_rust.Sched.Tasks.Queue.{times, ready_task, ready, times-retain, is_runnable-set}
use an_os_in_rust.Sched.Tasks.Keeps.{Retains, put-Retains}
use an_os_in_rust.Sched.Guard.{Scheduler, switch, unlock, wake, block}
use an_os_in_rust.Sched.Guard.Invariant.{IsScheduled, IsTimely, IsKnown-Retains}
use an_os_in_rust.Sched.Guard.Elect.{elect-IsScheduled}

pub unlock-returns :
    (s : Scheduler) (task : Task)
    → lookup s.running s.task_list.tasks ≡ some task
    → (s' : Scheduler) × (unlock s ≡ ok s')
      × (s'.running ≡ s.running)
      × (s'.task_list ≡ s.task_list)
unfolding unlock
unlock-returns s task found = elim (Bool-cases task.info.interrupt_enabled) [
  | inl e ↦ (record s { interrupts = true }, rw (found, e) refl, refl, refl)
  | inr e ↦ (s, rw (found, e) refl, refl, refl)
]

-- While the invariant holds, the clock has not gone back and the times fit 64 bits: a switch by
-- the running task returns, and the invariant holds of the task that runs afterwards.
pub switch-IsScheduled :
    (now : ℕ) (s : Scheduler) (v : IsScheduled s.running s.task_list)
    → IsTimely now (v.found.0) s.task_list
    → (s' : Scheduler) × (switch now s ≡ ok s') × IsScheduled s'.running s'.task_list
unfolding switch
switch-IsScheduled now s v t =
    let (to, l, e, v') = elect-IsScheduled s.running now s.task_list v t in
    let (s', e', r, tl) =
      unlock-returns (record s { task_list = l; running = to }) (v'.found.0) (v'.found.1) in
    (s', rw (e) e', rw (r, tl) v')

-- The information of a task that becomes able or unable to run.
abbrev pub marked : Bool → Task → Task
marked runnable task = record task {
  info = record (task.info) { flags = set_is_runnable runnable task.info.flags };
}

other_ready :
    (id j : ℕ) (task' : Task) (tasks : List (ℕ × Task))
    → (id == j) ≡ false
    → ready j (put id task' tasks) ≡ ready j tasks
unfolding ready
other_ready id j task' tasks e = ap ready_task (rw (lookup-put id j task' tasks, e) refl)

own_ready :
    (id j : ℕ) (runnable : Bool) (task : Task) (tasks : List (ℕ × Task))
    → (id == j) ≡ true
    → ready j (put id (marked runnable task) tasks) ≡ (if runnable then 1 else 0)
unfolding ready ready_task
own_ready id j runnable task tasks e =
    rw (lookup-put id j (marked runnable task) tasks, e, is_runnable-set runnable task.info.flags)
      refl

-- The running task becomes unable to run: the invariant holds, and the switch has the same times to compute.
stop-IsScheduled :
    (running now : ℕ) (l : TaskList) (v : IsScheduled running l)
    → IsTimely now (v.found.0) l
    → (l' : TaskList) × (v' : IsScheduled running l') × (set_runnable running false l ≡ ok l')
      × IsTimely now (v'.found.0) l'
unfolding set_runnable
stop-IsScheduled running now l v t = (
  l',
  v',
  rw (v.found.1) refl,
  record {
    forward = t.forward;
    charged = rw (length-put running (marked false task) task l.tasks (v.found.1)) t.charged;
    until = t.until;
  },
)
  where
    task : Task
    task = v.found.0

    l' : TaskList
    l' = record l {
      tasks = put running (marked false task) l.tasks;
      schedulable = retain running l.schedulable;
    }

    queue : (j : ℕ) → times j l'.schedulable ≡ (if running == j then 0 else ready j l'.tasks)
    queue j = ground (
      arith,
      times-retain running j l.schedulable,
      v.queue j,
      other_ready running j (marked false task) l.tasks,
    )

    v' : IsScheduled running l'
    v' = record {
      known =
          IsKnown-Retains l l' v.known
            (put-Retains running task (marked false task) l.tasks (v.found.1) refl) refl;
      found = (
        marked false task,
        rw (lookup-put running running (marked false task) l.tasks, ==_self running) refl,
      );
      queue = queue;
    }

wake_list-IsScheduled :
    (running id : ℕ) (l : TaskList) (task : Task)
    → IsScheduled running l
    → lookup id l.tasks ≡ some task
    → (running == id) ≡ false
    → (l' : TaskList) × (set_runnable id true l ≡ ok l') × IsScheduled running l'
unfolding set_runnable push times
wake_list-IsScheduled running id l task v found other = (l', rw (found) refl, v')
  where
    info : TaskInfo
    info = (marked true task).info

    l' : TaskList
    l' = record l {
      tasks = put id (marked true task) l.tasks;
      schedulable = info ∷ retain id l.schedulable;
    }

    retains : Retains l.tasks l'.tasks
    retains = put-Retains id task (marked true task) l.tasks found refl

    queue : (j : ℕ) → times j l'.schedulable ≡ (if running == j then 0 else ready j l'.tasks)
    queue j = ground (
      arith,
      times-retain id j l.schedulable,
      v.queue j,
      v.known.named id task found,
      other_ready id j (marked true task) l.tasks,
      own_ready id j true task l.tasks,
    )

    v' : IsScheduled running l'
    v' = record {
      known = IsKnown-Retains l l' v.known retains refl;
      found = retains.presence running (v.found.0) (v.found.1);
      queue = queue;
    }

-- While the invariant holds, the clock has not gone back and the times fit 64 bits: blocking the
-- running task returns, and the invariant holds of the task that runs afterwards. So every other
-- task that can run is in the heap once, and no blocked task is.
pub block-IsScheduled :
    (now : ℕ) (s : Scheduler) (v : IsScheduled s.running s.task_list)
    → IsTimely now (v.found.0) s.task_list
    → (s' : Scheduler) × (block now s ≡ ok s') × IsScheduled s'.running s'.task_list
unfolding block
block-IsScheduled now s v t =
    let (l, v1, e1, t1) = stop-IsScheduled s.running now s.task_list v t in
    let (s', e', v') = switch-IsScheduled now (record s { task_list = l }) v1 t1 in
    (s', rw (e1) e', v')

-- While the invariant holds, waking a task that exists and does not run returns and keeps the
-- invariant, also for a task that was never blocked. The running task goes on.
pub wake-IsScheduled :
    (id : ℕ) (s : Scheduler) (task : Task)
    → IsScheduled s.running s.task_list
    → lookup id s.task_list.tasks ≡ some task
    → (s.running == id) ≡ false
    → (s' : Scheduler) × (wake id s ≡ ok s')
      × (s'.running ≡ s.running)
      × IsScheduled s'.running s'.task_list
unfolding wake
wake-IsScheduled id s task v found other =
    let (l, e, v') = wake_list-IsScheduled s.running id s.task_list task v found other in
    (record s { task_list = l }, rw (e) refl, refl, v')
