-- ===== src/Semaphore.antt =====
-- src/locking/semaphore.rs: counting semaphores. A pass of the loop in `wait` or `signal` is one
-- step, which the running task makes: it ends the loop, or queues the task and blocks it, and the
-- task goes on with another pass when it is switched to. The spin locks of the two queues are never
-- contended, since each is taken and released within one step.
pub mod Progress
pub mod Tokens
use an_os_in_rust.Base.{
  ℕ, ◌+◌, ◌-◌, Bool, true, false, Option, none, some, List, [], ◌∷◌, ◌++◌, ltb, leb, if◌then◌else◌,
  Outcome, ok, panic, ◌>>=◌, ◌>>◌, assert,
}
use an_os_in_rust.Sched.Guard.{Scheduler, lock, unlock, wake, block}

pub record Semaphore : Type 0 where
  pub count : ℕ
  pub max : ℕ
  pub waiting : List ℕ
  pub releasing : List ℕ

unfoldable pub new : ℕ → ℕ → Outcome Semaphore
new init max =
    assert (leb init max) >> ok (record { count = init; max = max; waiting = []; releasing = [] })

-- `if u > 0 { Some(u - 1) } else { None }`
unfoldable pub take_one : Semaphore → Option Semaphore
take_one s = if ltb 0 s.count then some (record s { count = s.count - 1 }) else none

-- `if u < self.max { Some(u + 1) } else { None }`
unfoldable pub give_one : Semaphore → Option Semaphore
give_one s = if ltb s.count s.max then some (record s { count = s.count + 1 }) else none

-- `pop_front`
unfoldable pub pop_front : List ℕ → Option ℕ × List ℕ
pop_front [] = (none, [])
pop_front (x ∷ xs) = (some x, xs)

-- `if let Some(task) = … { sched::lock().wake(task); }`
unfoldable pub wake_any : Option ℕ → Scheduler → Outcome Scheduler
wake_any none k = ok k
wake_any (some task) k = wake task (lock k) >>= unlock

unfoldable pub wake_releasing : Semaphore → Scheduler → Outcome (Bool × Semaphore × Scheduler)
wake_releasing s k = do
  let (task, rest) = pop_front s.releasing
  k' ← wake_any task k
  ok (true, record s { releasing = rest }, k')

unfoldable pub wake_waiting : Semaphore → Scheduler → Outcome (Bool × Semaphore × Scheduler)
wake_waiting s k = do
  let (task, rest) = pop_front s.waiting
  k' ← wake_any task k
  ok (true, record s { waiting = rest }, k')

unfoldable pub try_wait : Semaphore → Scheduler → Outcome (Bool × Semaphore × Scheduler)
try_wait s k = elim (take_one s) [ none ↦ ok (false, s, k) | some s' ↦ wake_releasing s' k ]

unfoldable pub try_signal : Semaphore → Scheduler → Outcome (Bool × Semaphore × Scheduler)
try_signal s k = elim (give_one s) [ none ↦ ok (false, s, k) | some s' ↦ wake_waiting s' k ]

-- One pass of the loop of `wait`, with what follows the loop when it ends.
unfoldable pub wait : ℕ → Semaphore → Scheduler → Outcome (Bool × Semaphore × Scheduler)
wait now s k = elim (take_one s) [
  | none ↦ block now (lock k) >>= λ k'.
      ok (false, record s { waiting = s.waiting ++ k.running ∷ [] }, k')
  | some s' ↦ unlock (lock k) >>= wake_releasing s'
]

unfoldable pub signal : ℕ → Semaphore → Scheduler → Outcome (Bool × Semaphore × Scheduler)
signal now s k = elim (give_one s) [
  | none ↦ block now (lock k) >>= λ k'.
      ok (false, record s { releasing = s.releasing ++ k.running ∷ [] }, k')
  | some s' ↦ unlock (lock k) >>= wake_waiting s'
]
