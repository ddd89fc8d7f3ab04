-- ===== src/Semaphore/Progress.antt =====
-- src/locking/semaphore.rs: calls that find a token, or room for one, return.
use an_os_in_rust.Base.{
  ℕ, ◌+◌, ◌-◌, ◌<◌, ◌≡◌, refl, sym, Bool, true, false, none, some, List, [], ◌∷◌, ltb, lt→ltb,
  arith, Bool-cases, Option-cases, inl, inr, ok, >>=-eq-ok, ok_injective, sym, ap, ◌==◌, ◌∙◌,
}
use an_os_in_rust.Base.Assoc.{lookup, put, lookup-put}
use an_os_in_rust.Sched.Tasks.{Task, TaskList, set_runnable, push, retain}
use an_os_in_rust.Sched.Guard.Operations.{unlock-returns, marked}
use an_os_in_rust.Sched.Guard.{Scheduler, set_resume_interrupts, lock, unlock, wake, block}
use an_os_in_rust.Semaphore.{
  Semaphore, take_one, give_one, pop_front, wake_any, wake_releasing, wake_waiting, try_wait, wait,
  signal,
}

-- A task exists.
abbrev pub Knows : Scheduler → ℕ → Type 0
Knows k id = (task : Task) × (lookup id k.task_list.tasks ≡ some task)

-- All the tasks of a queue exist.
abbrev pub KnowsAll : Scheduler → List ℕ → Type 0
KnowsAll k [] = Unit {0}
KnowsAll k (id ∷ ids) = Knows k id × KnowsAll k ids

-- The same task runs, and the tasks that were there still are.
pub record Follows (k k' : Scheduler) : Type 0 where
  pub same_running : k'.running ≡ k.running
  pub knows : (id : ℕ) → Knows k id → Knows k' id

pub Follows-KnowsAll :
    (k k' : Scheduler) (ids : List ℕ) → Follows k k' → KnowsAll k ids → KnowsAll k' ids
Follows-KnowsAll k k' [] f known = tt
Follows-KnowsAll k k' (id ∷ ids) f (known, rest) =
    (f.knows id known, Follows-KnowsAll k k' ids f rest)

pub Follows-refl : (k : Scheduler) → Follows k k
Follows-refl k = record { same_running = refl; knows = λ id known. known }

pub Follows-trans : (a b c : Scheduler) → Follows a b → Follows b c → Follows a c
Follows-trans a b c f g = record {
  same_running = g.same_running ∙ f.same_running;
  knows = λ id known. g.knows id (f.knows id known);
}

Knows-put :
    (id j : ℕ) (task other : Task) (tasks : List (ℕ × Task))
    → lookup j tasks ≡ some other
    → (found : Task) × (lookup j (put id task tasks) ≡ some found)
Knows-put id j task other tasks here = elim (Bool-cases (id == j)) [
  | inl e ↦ (task, rw (lookup-put id j task tasks, e) refl)
  | inr e ↦ (other, rw (lookup-put id j task tasks, e) here)
]

set_resume_interrupts-Follows :
    (enabled : Bool) (k : Scheduler) → Follows k (set_resume_interrupts enabled k)
unfolding set_resume_interrupts
set_resume_interrupts-Follows enabled k = elim (Option-cases (lookup k.running k.task_list.tasks)) [
  | inl e ↦ rw (set_resume_interrupts, e) (Follows-refl k)
  | inr (task, e) ↦
      rw (set_resume_interrupts, e)
        (record {
          same_running = refl;
          knows = λ id (other, here).
              Knows-put k.running id
                (record task { info = record (task.info) { interrupt_enabled = enabled } }) other
                k.task_list.tasks here;
        })
]

lock-Follows : (k : Scheduler) → Follows k (lock k)
unfolding lock
lock-Follows k =
    let f = set_resume_interrupts-Follows k.interrupts (record k { interrupts = false }) in
    record { same_running = f.same_running; knows = f.knows }

unlock-Follows :
    (k : Scheduler) → Knows k k.running → (k' : Scheduler) × (unlock k ≡ ok k') × Follows k k'
unlock-Follows k (task, found) =
    let (k', e, r, tl) = unlock-returns k task found in
    (k', e, record { same_running = r; knows = λ id known. rw (tl) known })

wake-Follows :
    (id : ℕ) (k : Scheduler) → Knows k id → (k' : Scheduler) × (wake id k ≡ ok k') × Follows k k'
unfolding wake set_runnable push
wake-Follows id k (task, found) = (
  record k { task_list = l },
  rw (set_runnable, found) refl,
  record {
    same_running = refl;
    knows = λ j (other, here). Knows-put id j (marked true task) other k.task_list.tasks here;
  },
)
  where
    l : TaskList
    l = push ((marked true task).info) (record (k.task_list) {
      tasks = put id (marked true task) k.task_list.tasks;
      schedulable = retain id k.task_list.schedulable;
    })

relock :
    (k : Scheduler)
    → Knows k k.running
    → (k' : Scheduler) × (unlock (lock k) ≡ ok k') × Follows k k'
relock k running =
    let f = lock-Follows k in
    let (k', e, g) = unlock-Follows (lock k) (rw (f.same_running) (f.knows k.running running)) in
    (k', e, Follows-trans k (lock k) k' f g)

wake_any-Follows :
    (ids : List ℕ) (k : Scheduler)
    → Knows k k.running
    → KnowsAll k ids
    → (k' : Scheduler) × (wake_any ((pop_front ids).0) k ≡ ok k') × Follows k k'
unfolding wake_any pop_front
wake_any-Follows [] k running known = (k, refl, Follows-refl k)
wake_any-Follows (id ∷ ids) k running (known, _) =
    let f = lock-Follows k in
    let (k1, e1, f1) = wake-Follows id (lock k) (f.knows id known) in
    let g = Follows-trans k (lock k) k1 f f1 in
    let (k2, e2, f2) = unlock-Follows k1 (rw (g.same_running) (g.knows k.running running)) in
    (k2, rw (e1) e2, Follows-trans k k1 k2 g f2)

take_one-some : (s : Semaphore) → 0 < s.count → take_one s ≡ some (record s { count = s.count - 1 })
unfolding take_one
take_one-some s h = rw (lt→ltb 0 s.count h) refl

take_one-none : (s : Semaphore) → s.count ≡ 0 → take_one s ≡ none
unfolding take_one
take_one-none s e = let none_left : ltb 0 s.count ≡ false = ground (arith, e) in rw (none_left) refl

-- `try_wait` on a count of zero changes nothing.
pub try_wait-fails : (s : Semaphore) (k : Scheduler) → s.count ≡ 0 → try_wait s k ≡ ok (false, s, k)
unfolding try_wait
try_wait-fails s k e = rw (try_wait, take_one-none s e) refl

give_one-some :
    (s : Semaphore) → s.count < s.max → give_one s ≡ some (record s { count = s.count + 1 })
unfolding give_one
give_one-some s h = rw (lt→ltb s.count s.max h) refl

-- Where the count is positive and the waiting tasks exist, `try_wait` takes a token and returns.
pub try_wait-passes :
    (s : Semaphore) (k : Scheduler)
    → 0 < s.count
    → Knows k k.running
    → KnowsAll k s.releasing
    → (k' : Scheduler) × (try_wait s k
        ≡ ok (true, record s { count = s.count - 1; releasing = (pop_front s.releasing).1 }, k'))
      × Follows k k'
unfolding try_wait wake_releasing
try_wait-passes s k h running known =
    let (k', e, f) = wake_any-Follows s.releasing k running known in
    (k', rw (try_wait, take_one-some s h, e) refl, f)

pub wait-passes :
    (now : ℕ) (s : Semaphore) (k : Scheduler)
    → 0 < s.count
    → Knows k k.running
    → KnowsAll k s.releasing
    → (k' : Scheduler) × (wait now s k
        ≡ ok (true, record s { count = s.count - 1; releasing = (pop_front s.releasing).1 }, k'))
      × Follows k k'
unfolding wait wake_releasing
wait-passes now s k h running known =
    let (k1, e1, f1) = relock k running in
    let (k', e, f) =
      wake_any-Follows s.releasing k1 (rw (f1.same_running) (f1.knows k.running running))
        (Follows-KnowsAll k k1 s.releasing f1 known) in
    (k', rw (wait, take_one-some s h, e1, e) refl, Follows-trans k k1 k' f1 f)

pub signal-passes :
    (now : ℕ) (s : Semaphore) (k : Scheduler)
    → s.count < s.max
    → Knows k k.running
    → KnowsAll k s.waiting
    → (k' : Scheduler) × (signal now s k
        ≡ ok (true, record s { count = s.count + 1; waiting = (pop_front s.waiting).1 }, k'))
      × Follows k k'
unfolding signal wake_waiting
signal-passes now s k h running known =
    let (k1, e1, f1) = relock k running in
    let (k', e, f) =
      wake_any-Follows s.waiting k1 (rw (f1.same_running) (f1.knows k.running running))
        (Follows-KnowsAll k k1 s.waiting f1 known) in
    (k', rw (signal, give_one-some s h, e1, e) refl, Follows-trans k k1 k' f1 f)

-- A pass of `wait` on a count of zero does not end the loop, and takes no token.
pub wait-blocks :
    (now : ℕ) (s u : Semaphore) (k k' : Scheduler) (passed : Bool)
    → s.count ≡ 0
    → wait now s k ≡ ok (passed, u, k')
    → (passed ≡ false) × (u.count ≡ s.count)
unfolding wait
wait-blocks now s u k k' passed e h =
    let (k1, _, e') = >>=-eq-ok (block now (lock k)) _ (rw (wait, take_one-none s e) at h) in
    let r = sym (ok_injective e') in (ap (λ r. r.0) r, ap (λ r. (r.1).count) r)
