-- ===== src/Sched/Guard/Elect.antt =====
-- The invariant of src/kernel/sched/mod.rs over the choice of the next task.
use an_os_in_rust.Base.{
  ℕ, ◌+◌, ◌-◌, ◌*◌, ◌/◌, ◌^◌, ◌≤◌, ◌≡◌, ◌≢◌, refl, sym, ap, ◌∙◌, true, false, Option, some, List,
  [], ◌∷◌, leb, ltb, ◌==◌, arith, length, Bool-cases, Option-cases, inl, inr, ok, expect,
}
use an_os_in_rust.Base.Assoc.{lookup, put}
use an_os_in_rust.Sched.Tasks
use an_os_in_rust.Sched.Tasks.{
  TaskInfo, Task, TaskList, is_runnable, set_is_runnable, push, retain, pick, sched_latency,
  update_runtime, set_runnable, set_current_task, set_run_until,
}
use an_os_in_rust.Sched.Tasks.Queue.{times, ready_task, ready, times-pick}
use an_os_in_rust.Sched.Tasks.Keeps.{Keeps, put-Keeps}
use an_os_in_rust.Sched.Guard.{or_idle, elect}
use an_os_in_rust.Sched.Guard.Invariant.{
  IsKnown, IsWaiting, IsScheduled, IsTimely, IsKnown-Retains, modify-IsScheduled,
}

update_runtime-IsWaiting :
    (running now : ℕ) (l : TaskList) (v : IsScheduled running l)
    → IsTimely now (v.found.0) l
    → (l' : TaskList) × (update_runtime running now l ≡ ok l') × IsWaiting l'
unfolding update_runtime times ready ready_task push
update_runtime-IsWaiting running now l v t = elim (Bool-cases (is_runnable task.info.flags)) [
  | inl e ↦ (
    push info l1,
    rw (v.found.1, low, middle, high, e) refl,
    record {
      known = IsKnown-Retains l (push info l1) v.known keeps.retains refl;
      queue = λ j. pushed e j ∙ sym (keeps.readiness j);
    },
  )
  | inr e ↦ (
    l1,
    rw (v.found.1, low, middle, high, e) refl,
    record {
      known = IsKnown-Retains l l1 v.known keeps.retains refl;
      queue = λ j. left e j ∙ sym (keeps.readiness j);
    },
  )
]
  where
    task : Task
    task = v.found.0

    elapsed : ℕ
    elapsed = now - task.info.last_scheduled

    info : TaskInfo
    info = record (task.info) { total_runtime = task.info.total_runtime + elapsed * length l.tasks }

    l1 : TaskList
    l1 = record l { tasks = put running (record task { info = info }) l.tasks }

    low : leb task.info.last_scheduled now ≡ true
    low = ground (arith, t.forward)

    middle : ltb (elapsed * length l.tasks) (2 ^ 64) ≡ true
    middle = ground (arith, t.charged)

    high : ltb (task.info.total_runtime + elapsed * length l.tasks) (2 ^ 64) ≡ true
    high = ground (arith, t.charged)

    keeps : Keeps l.tasks l1.tasks
    keeps = put-Keeps running task (record task { info = info }) l.tasks (v.found.1) refl refl

    itself : (id : ℕ) → (running == id) ≡ true → ready id l.tasks ≡ ready_task (some task)
    itself id e = ap ready_task (ap (λ k. lookup k l.tasks) (sym (eq_of running id e)) ∙ v.found.1)
      where
        eq_of : (a b : ℕ) → (a == b) ≡ true → a ≡ b
        eq_of a b e = ground arith

    pushed :
        is_runnable task.info.flags ≡ true
        → (id : ℕ) → times id (info ∷ l.schedulable) ≡ ready id l.tasks
    pushed e id = ground (arith, v.queue id, v.known.named running task (v.found.1), itself id, e)

    left :
        is_runnable task.info.flags ≡ false → (id : ℕ) → times id l.schedulable ≡ ready id l.tasks
    left e id = ground (arith, v.queue id, itself id, e)

-- The list with a given heap.
abbrev with_queue : TaskList → List TaskInfo → TaskList
with_queue l q = record l { schedulable = q }

same-IsKnown :
    (l : TaskList) (current : Option ℕ) (q : List TaskInfo)
    → IsKnown l
    → IsKnown (record l { current = current; schedulable = q })
same-IsKnown l current q v = record { idle = v.idle; fresh = v.fresh; named = v.named }

idle_again :
    (l : TaskList) → IsWaiting l → ((id : ℕ) → times id l.schedulable ≡ 0) → IsScheduled 0 l
idle_again l v empty = record {
  known = v.known;
  found = v.known.idle;
  queue = λ j. ground (arith, empty j, v.queue j);
}

lookup-ready :
    (id : ℕ) (tasks : List (ℕ × Task))
    → ready id tasks ≢ 0
    → (task : Task) × (lookup id tasks ≡ some task)
unfolding ready ready_task
lookup-ready id tasks h = elim (Option-cases (lookup id tasks)) [
  | inl e ↦ absurd (h (ap ready_task e))
  | inr found ↦ found
]

ready-le : (id : ℕ) (tasks : List (ℕ × Task)) → ready id tasks ≤ 1
unfolding ready ready_task
ready-le id tasks = ground arith

get-found :
    (id : ℕ) (l : TaskList) {task : Task} → lookup id l.tasks ≡ some task → Tasks.get id l ≡ some id
unfolding Tasks.get
get-found id l e = rw (Tasks.get, e) refl

next_of :
    (l : TaskList) (q : List TaskInfo)
    → IsWaiting (with_queue l q)
    → (to : ℕ) × (or_idle (Tasks.next (with_queue l q)).0 (Tasks.next (with_queue l q)).1 ≡ ok to)
      × IsScheduled to (Tasks.next (with_queue l q)).1
unfolding or_idle Tasks.next times
next_of l [] v = (
  0,
  ap expect (get-found 0 (with_queue l []) (v.known.idle.1)),
  idle_again (with_queue l []) v (λ id. refl),
)
next_of l (x ∷ xs) v = (
  least.task_id,
  refl,
  record {
    known = same-IsKnown (with_queue l (x ∷ xs)) l.current (pick x xs).1 v.known;
    found = lookup-ready least.task_id l.tasks present;
    queue = λ j. ground (arith, count j, v.queue j, ready-le j l.tasks);
  },
)
  where
    least : TaskInfo
    least = (pick x xs).0

    count : (j : ℕ) → times j (least ∷ (pick x xs).1) ≡ ready j l.tasks
    count j = times-pick j x xs ∙ v.queue j

    present : ready least.task_id l.tasks ≢ 0
    present = ground (arith, count least.task_id)

next-IsScheduled :
    (l : TaskList)
    → IsWaiting l
    → (to : ℕ) × (or_idle (Tasks.next l).0 (Tasks.next l).1 ≡ ok to)
      × IsScheduled to (Tasks.next l).1
next-IsScheduled l v = next_of l l.schedulable v

current-IsScheduled :
    (running : ℕ) (current : Option ℕ) (l : TaskList)
    → IsScheduled running l
    → IsScheduled running (record l { current = current })
current-IsScheduled running current l v = record {
  known = same-IsKnown l current l.schedulable v.known;
  found = v.found;
  queue = v.queue;
}

-- A switch returns, and the invariant holds of the task that it switches to.
pub elect-IsScheduled :
    (running now : ℕ) (l : TaskList) (v : IsScheduled running l)
    → IsTimely now (v.found.0) l
    → (to : ℕ) × (l' : TaskList) × (elect now running l ≡ ok (to, l')) × IsScheduled to l'
unfolding elect set_current_task set_run_until
elect-IsScheduled running now l v t =
    let (l1, e1, v1) = update_runtime-IsWaiting running now l v t in
    let (to, e2, v2) = next-IsScheduled l1 v1 in
    let l2 = (Tasks.next l1).1 in
    let (l3, e3, v3) =
      modify-IsScheduled to to (λ info. record info { last_scheduled = now })
        (record l2 { current = some to }) (v2.found.0) (λ info. refl) (λ info. refl) (v2.found.1)
        (current-IsScheduled to (some to) l2 v2) in
    let until = now + sched_latency / length l3.tasks in
    let (l4, e4, v4) =
      modify-IsScheduled to to (λ info. record info { run_until = until }) l3 (v3.found.0)
        (λ info. refl) (λ info. refl) (v3.found.1) v3 in
    let fits : ltb until (2 ^ 64) ≡ true = ground (arith, t.until) in
    (to, l4, rw (e1, e2, e3, fits, e4) refl, v4)
