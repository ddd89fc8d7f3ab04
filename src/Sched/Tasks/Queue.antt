-- ===== src/Sched/Tasks/Queue.antt =====
-- How often each task stands in the heap of src/kernel/sched/task.rs.
use an_os_in_rust.Base.{
  ℕ, suc, ◌^◌, ◌-◌, bit_and, bit_or, ◌≡◌, refl, ap, ◌∙◌, Bool, true, false, not, Option, none, some,
  List, [], ◌∷◌, ◌==◌, if◌then◌else◌, arith,
}
use an_os_in_rust.Base.Assoc.{lookup}
use an_os_in_rust.Base.Bits.Digit.{and_assoc, and-zero, digit-or, digit-and, digit}
use an_os_in_rust.Sched.Tasks.{TaskInfo, Task, is_runnable, set_is_runnable, retain, pick}

-- The entries of a task.
unfoldable pub times : ℕ → List TaskInfo → ℕ
times id [] = 0
times id (x ∷ xs) = if x.task_id == id then suc (times id xs) else times id xs

-- One for a task that can run, none for one that is blocked or that does not exist.
unfoldable pub ready_task : Option Task → ℕ
ready_task none = 0
ready_task (some task) = if is_runnable task.info.flags then 1 else 0

unfoldable pub ready : ℕ → List (ℕ × Task) → ℕ
ready id tasks = ready_task (lookup id tasks)

pub times-retain :
    (id j : ℕ) (xs : List TaskInfo) → times j (retain id xs) ≡ (if id == j then 0 else times j xs)
unfolding times retain
times-retain id j [] = ground arith
times-retain id j (x ∷ xs) = ground (arith, times-retain id j xs)

pub times-pick :
    (j : ℕ) (x : TaskInfo) (xs : List TaskInfo)
    → times j ((pick x xs).0 ∷ (pick x xs).1) ≡ times j (x ∷ xs)
unfolding times pick
times-pick j x [] = refl
times-pick j x (y ∷ ys) = ground (arith, times-pick j y ys)

and_one : (n : ℕ) → digit 0 (bit_and n 1) ≡ digit 0 n
unfolding digit
and_one n = omega (arith, digit-and 0 n 1)

pub is_runnable-set :
    (runnable : Bool) (flags : ℕ) → is_runnable (set_is_runnable runnable flags) ≡ runnable
unfolding is_runnable set_is_runnable digit
is_runnable-set true flags = ground (arith, digit-or 0 flags 1, and_one (bit_or flags 1))
is_runnable-set false flags =
    ap (λ n. not (n == 0)) (and_assoc flags (2 ^ 32 - 2) 1 ∙ and-zero flags)
