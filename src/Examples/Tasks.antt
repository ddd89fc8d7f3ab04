-- ===== src/Examples/Tasks.antt =====
-- Examples for src/kernel and src/locking.
use an_os_in_rust.Base.{
  ℕ, ◌+◌, ◌%◌, ◌^◌, ◌≤◌, ◌≡◌, refl, true, false, [], ◌∷◌, arith, ◌==◌, if◌then◌else◌, List, ◌++◌,
  ok, ◌>>=◌, none, some,
}
use an_os_in_rust.Base.Assoc.{lookup}
use an_os_in_rust.Sched.Tasks
use an_os_in_rust.Sched.Tasks.{pick, cmp, Task, TaskInfo, TaskList, is_runnable}
use an_os_in_rust.Sched.Tasks.Queue.{times, ready, ready_task}
use an_os_in_rust.Sched.Tasks.Pick.{AllFrom, next-least}
use an_os_in_rust.Sched.Guard.{Scheduler, block, wake}
use an_os_in_rust.Sched.Guard.Invariant.{IsScheduled, IsTimely}
use an_os_in_rust.Sched.Guard.Operations.{block-IsScheduled, wake-IsScheduled}
use an_os_in_rust.Semaphore.{Semaphore, try_wait, wake_releasing, take_one, pop_front, wake_any}
use an_os_in_rust.Semaphore.Tokens.{
  tries_wait, perform, taken, given, History, none_yet, and_then, History-balance,
}
use an_os_in_rust.Clock.{Callback, Clock, tick}
use an_os_in_rust.Clock.Due.{IsOrdered, IsAbove, due, later, run_all, tick_lem}

abbrev info_of : ℕ → ℕ → ℕ → TaskInfo
info_of id total flags = record {
  task_id = id;
  registers = record { stack_top = 0; cr3 = 0x1000 };
  last_scheduled = 100;
  run_until = 200;
  total_runtime = total;
  flags = flags;
  interrupt_enabled = true;
}

abbrev pub task_of : ℕ → ℕ → ℕ → Task
task_of id total flags = record { info = info_of id total flags; stack = [] }

-- The idle task runs, task 1 can run and task 2 is blocked.
abbrev three_tasks : TaskList
three_tasks = record {
  next_task_id = 3;
  current = some 0;
  tasks = (0, task_of 0 50 1) ∷ (1, task_of 1 70 1) ∷ (2, task_of 2 90 0) ∷ [];
  schedulable = info_of 1 70 1 ∷ [];
}

abbrev pub machine : Scheduler
machine = record { task_list = three_tasks; running = 0; interrupts = false }

pub idle_found : lookup 0 three_tasks.tasks ≡ some (task_of 0 50 1)
unfolding lookup
idle_found = refl

blocked_found : lookup 2 three_tasks.tasks ≡ some (task_of 2 90 0)
unfolding lookup
blocked_found = refl

three_fresh : (id : ℕ) → 3 ≤ id → lookup id three_tasks.tasks ≡ none
unfolding lookup
three_fresh id h = ground arith

three_named :
    (id : ℕ) (task : Task) → lookup id three_tasks.tasks ≡ some task → task.info.task_id ≡ id
unfolding lookup
three_named id task h = ground arith

three_queue :
    (id : ℕ)
    → times id three_tasks.schedulable ≡ (if 0 == id then 0 else ready id three_tasks.tasks)
unfolding times ready ready_task is_runnable lookup
three_queue id = ground arith

abbrev three-IsScheduled : IsScheduled 0 three_tasks
three-IsScheduled = record {
  known = record { idle = (task_of 0 50 1, idle_found); fresh = three_fresh; named = three_named };
  found = (task_of 0 50 1, idle_found);
  queue = three_queue;
}

abbrev three-IsTimely : IsTimely 300 (task_of 0 50 1) three_tasks
three-IsTimely = record { forward = omega arith; charged = omega arith; until = omega arith }

block-IsScheduled_example :
    (s' : Scheduler) × (block 300 machine ≡ ok s') × IsScheduled s'.running s'.task_list
block-IsScheduled_example = block-IsScheduled 300 machine three-IsScheduled three-IsTimely

wake-IsScheduled_example :
    (s' : Scheduler) × (wake 2 machine ≡ ok s')
    × (s'.running ≡ 0)
    × IsScheduled s'.running s'.task_list
wake-IsScheduled_example =
    wake-IsScheduled 2 machine (task_of 2 90 0) three-IsScheduled blocked_found refl

abbrev two_waiting : TaskList
two_waiting = record three_tasks { schedulable = info_of 1 70 1 ∷ info_of 2 60 1 ∷ [] }

next-least_example :
    (info : TaskInfo) × (before : List TaskInfo) × (after : List TaskInfo)
    × (two_waiting.schedulable ≡ before ++ info ∷ after)
    × (Tasks.next two_waiting
        ≡ (some info.task_id, record two_waiting { schedulable = before ++ after }))
    × AllFrom info.total_runtime two_waiting.schedulable
next-least_example = next-least two_waiting (info_of 1 70 1) (info_of 2 60 1 ∷ []) refl

second_first :
    Tasks.next two_waiting ≡ (some 2, record two_waiting { schedulable = info_of 1 70 1 ∷ [] })
unfolding Tasks.next pick cmp
second_first = refl

abbrev one_token : Semaphore
one_token = record { count = 1; max = 1; waiting = []; releasing = [] }

abbrev no_token : Semaphore
no_token = record { count = 0; max = 1; waiting = []; releasing = [] }

takes_token : perform (tries_wait 0) one_token machine ≡ ok (true, no_token, machine)
unfolding perform try_wait wake_releasing take_one pop_front wake_any
takes_token = refl

abbrev one_wait :
    History one_token no_token (0 + taken (tries_wait 0) true) (0 + given (tries_wait 0) true)
one_wait = and_then (tries_wait 0) machine machine true none_yet takes_token

History-balance_example :
    (no_token.count + (0 + taken (tries_wait 0) true)
      ≡ one_token.count + (0 + given (tries_wait 0) true))
    × (no_token.count ≤ no_token.max)
    × (no_token.max ≡ one_token.max)
History-balance_example =
    History-balance one_token no_token (0 + taken (tries_wait 0) true)
      (0 + given (tries_wait 0) true) one_wait (omega arith)

-- A callback that adds the time to a sum.
abbrev add_time : Callback ℕ
add_time now sum = ok (sum + now)

abbrev set_time : Callback ℕ
set_time now _ = ok now

abbrev two_callbacks : Clock ℕ
two_callbacks = record { ticks = 5; callbacks = (10, add_time) ∷ (40, set_time) ∷ [] }

two_callbacks-IsOrdered : IsOrdered two_callbacks.callbacks
unfolding IsOrdered IsAbove
two_callbacks-IsOrdered = ((omega arith, tt), (tt, tt))

tick_lem_example : tick 20 two_callbacks 7 ≡ (
    run_all ((5 + 20) % 2 ^ 64) (due ((5 + 20) % 2 ^ 64) two_callbacks.callbacks) 7 >>= λ w'. ok (
      record {
        ticks = (5 + 20) % 2 ^ 64;
        callbacks = later ((5 + 20) % 2 ^ 64) two_callbacks.callbacks;
      },
      w',
    ))
tick_lem_example = tick_lem 20 two_callbacks 7 two_callbacks-IsOrdered
