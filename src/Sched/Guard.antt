-- ===== src/Sched/Guard.antt =====
-- src/kernel/sched/mod.rs: the operations of the scheduler under its lock. `SchedulerGuard` holds the lock, with
-- interrupts disabled on the one processor; its drop gives a task back the interrupts that it had. The assembly
-- `_do_switch` saves and loads stack pointers, which are not modelled: it makes the other task the running one.
pub mod Invariant
pub mod Elect
pub mod Operations
use an_os_in_rust.Base.{
  ℕ, ◌+◌, Bool, true, false, Option, none, some, List, [], ◌∷◌, leb, if◌then◌else◌, Outcome, ok,
  panic, ◌>>=◌, expect, checked_add,
}
use an_os_in_rust.Base.Assoc.{lookup, put}
use an_os_in_rust.Sched.Tasks
use an_os_in_rust.Sched.Tasks.{TaskList, Task, TaskInfo, Registers}

-- The scheduler, the task that runs and the processor's interrupt flag.
pub record Scheduler : Type 0 where
  pub task_list : TaskList
  pub running : ℕ
  pub interrupts : Bool

-- `sched::lock`: the interrupt state goes to the running task. The task's memory is outside the list
-- before `init`, and nothing is recorded then.
unfoldable pub set_resume_interrupts : Bool → Scheduler → Scheduler
set_resume_interrupts enabled s = elim (lookup s.running s.task_list.tasks) [
  | none ↦ s
  | some task ↦ record s {
    task_list = record (s.task_list) {
      tasks =
          put s.running (record task { info = record (task.info) { interrupt_enabled = enabled } })
            s.task_list.tasks;
    };
  }
]

unfoldable pub lock : Scheduler → Scheduler
lock s = set_resume_interrupts s.interrupts (record s { interrupts = false })

-- `Drop for SchedulerGuard`
unfoldable pub unlock : Scheduler → Outcome Scheduler
unlock s = do
  task ← expect (lookup s.running s.task_list.tasks)
  ok (if task.info.interrupt_enabled then record s { interrupts = true } else s)

-- `.unwrap_or_else(|| … get(0) …)`
unfoldable pub or_idle : Option ℕ → TaskList → Outcome ℕ
or_idle (some id) l = ok id
or_idle none l = expect (Tasks.get 0 l)

-- What `switch` does before `_do_switch`: the list, and the task to switch to.
unfoldable pub elect : ℕ → ℕ → TaskList → Outcome (ℕ × TaskList)
elect now from l = do
  l1 ← Tasks.update_runtime from now l
  let (popped, l2) = Tasks.next l1
  to ← or_idle popped l2
  l3 ← Tasks.set_current_task to now l2
  l4 ← Tasks.set_run_until to now l3
  ok (to, l4)

-- `switch`, under the lock, to the release of the lock by the task that it switched to.
unfoldable pub switch : ℕ → Scheduler → Outcome Scheduler
switch now s = do
  (to, l) ← elect now s.running s.task_list
  unlock (record s { task_list = l; running = to })

unfoldable pub wake : ℕ → Scheduler → Outcome Scheduler
wake task s = Tasks.set_runnable task true s.task_list >>= λ l. ok (record s { task_list = l })

unfoldable pub block : ℕ → Scheduler → Outcome Scheduler
block now s =
    Tasks.set_runnable s.running false s.task_list >>= λ l. switch now (record s { task_list = l })

unfoldable pub new_task : (ℕ → Outcome ℕ) → ℕ → ℕ → ℕ → Task → Scheduler → Outcome (ℕ × Scheduler)
new_task fork address task_entry entry memory s = do
  (id, l) ← Tasks.new_task fork s.running address task_entry entry memory s.task_list
  ok (id, record s { task_list = l })

-- `check_runtime`, which the timer interrupt calls.
unfoldable pub check_runtime : ℕ → Scheduler → Outcome Scheduler
check_runtime now s = do
  let locked = lock s
  until ← Tasks.get_run_until locked.running locked.task_list
  let switched = switch now locked
  if leb until now then switched else unlock locked

-- `init`, on the stack of the idle task.
unfoldable pub init : Task → Registers → ℕ → ℕ → Bool → Outcome Scheduler
init boot_stack registers now later interrupts = do
  let s = lock (record { task_list = Tasks.new; running = 0; interrupts = interrupts })
  l ← Tasks.init_idle_task boot_stack registers now s.interrupts s.task_list
  switch later (record s { task_list = l })
