-- ===== src/Clock.antt =====
-- src/kernel/clock.rs: the clock and the callbacks that it runs, and `sleep` of src/kernel/sched/mod.rs, which
-- uses it. `W` is what a callback may change, the clock source's time is an argument, and the
-- ordered map is a list in the order of the times. The counter wraps, as atomic additions do.
pub mod Due
use an_os_in_rust.Base.{
  ℕ, ◌+◌, ◌*◌, ◌%◌, ◌^◌, Option, none, some, List, [], ◌∷◌, leb, ltb, ◌==◌, if◌then◌else◌, Outcome,
  ok, panic, ◌>>=◌, checked_add, checked_mul, Bool, true, false,
}
use an_os_in_rust.Sched.Tasks.{set_runnable}
use an_os_in_rust.Sched.Guard.{Scheduler, lock, switch}

-- `Box<dyn FnOnce(u64) + Sync>`
abbrev pub Callback {ℓ} : Type ℓ → Type ℓ
Callback W = ℕ → W → Outcome W

pub record Clock {ℓ} (W : Type ℓ) : Type ℓ where
  pub ticks : ℕ
  pub callbacks : List (ℕ × Callback W)

module _ {ℓ} {W : Type ℓ} where
  unfoldable pub new : Clock W
  new = record { ticks = 0; callbacks = [] }

  -- `BTreeMap::insert`, which replaces the value of a key that is there.
  unfoldable pub insert : ℕ → Callback W → List (ℕ × Callback W) → List (ℕ × Callback W)
  insert k f [] = (k, f) ∷ []
  insert k f ((j, g) ∷ m) =
      if ltb k j then (k, f) ∷ (j, g) ∷ m else if k == j then (k, f) ∷ m else (j, g) ∷ insert k f m

  -- `BTreeMap::remove`
  unfoldable pub remove : ℕ → List (ℕ × Callback W) → Option (Callback W) × List (ℕ × Callback W)
  remove k [] = (none, [])
  remove k ((j, g) ∷ m) =
      let (found, rest) = remove k m in if j == k then (some g, m) else (found, (j, g) ∷ rest)

  -- `keys().copied().filter(|&k| k <= now).collect()`
  unfoldable pub due_keys : ℕ → List (ℕ × Callback W) → List ℕ
  due_keys now [] = []
  due_keys now ((j, g) ∷ m) = if leb j now then j ∷ due_keys now m else due_keys now m

  unfoldable pub run_any : Option (Callback W) → ℕ → W → Outcome W
  run_any none now w = ok w
  run_any (some f) now w = f now w

  -- The loop of `tick`.
  unfoldable pub run_keys :
      ℕ → List ℕ → List (ℕ × Callback W) → W → Outcome (List (ℕ × Callback W) × W)
  run_keys now [] m w = ok (m, w)
  run_keys now (k ∷ ks) m w =
      let (found, rest) = remove k m in run_any found now w >>= λ w'. run_keys now ks rest w'

  unfoldable pub tick : ℕ → Clock W → W → Outcome (Clock W × W)
  tick increment c w = do
    let now = (c.ticks + increment) % 2 ^ 64
    (callbacks, w') ← run_keys now (due_keys now c.callbacks) c.callbacks w
    ok (record { ticks = now; callbacks = callbacks }, w')

  unfoldable pub get_tick : ℕ → Clock W → ℕ × Clock W
  get_tick now c = (now, record c { ticks = now })

  unfoldable pub callback_at : ℕ → Callback W → Clock W → Clock W
  callback_at ns f c = record c { callbacks = insert ns f c.callbacks }

-- `sleep`, where `seen` is what the counter shows in the rounds of the loop: how many rounds the
-- processor halts for. Out of rounds is a panic.
unfoldable pub busy_rounds : List ℕ → ℕ → Outcome ℕ
busy_rounds [] until = panic
busy_rounds (ticks ∷ seen) until =
    let more = busy_rounds seen until >>= (λ n. ok (n + 1)) in
    if ltb ticks until then more else ok 0

-- `CLOCK`
module _ {W : Type 0} where
  unfoldable pub init : Option (Clock W) → Option (Clock W)
  init clock = some new

  -- The function that `tick_fn` returns.
  unfoldable pub tick_fn : ℕ → Option (Clock W) → W → Outcome (Option (Clock W) × W)
  tick_fn x none w = ok (none, w)
  tick_fn x (some clock) w = tick x clock w >>= λ (clock', w'). ok (some clock', w')

  unfoldable pub busy_sleep : Option (Clock W) → List ℕ → ℕ → Outcome ℕ
  busy_sleep none seen ms = panic
  busy_sleep (some clock) seen ms = do
    ns ← checked_mul ms 1000000
    until ← checked_add clock.ticks ns
    busy_rounds seen until

-- The closure that `sleep` registers.
unfoldable pub wake_sleeper : ℕ → Callback Scheduler
wake_sleeper task _ s = set_runnable task true s.task_list >>= λ l. ok (record s { task_list = l })

-- `SchedulerGuard::sleep`, under the lock, at the clock source's time `source` and the switch's `now`.
unfoldable pub sleep :
    ℕ → ℕ → ℕ → Clock Scheduler → Scheduler → Outcome (Clock Scheduler × Scheduler)
sleep source now ns c s = do
  let (tick, c1) = get_tick source c
  until ← checked_add tick ns
  l ← set_runnable s.running false s.task_list
  s' ← switch now (record s { task_list = l })
  ok (callback_at until (wake_sleeper s.running) c1, s')
