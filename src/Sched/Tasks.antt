-- ===== src/Sched/Tasks.antt =====
-- src/kernel/sched/task.rs: the list of tasks and the heap of tasks that can be scheduled. The task
-- that runs is found from the stack pointer in the source and is an argument here, as are the
-- allocator's memory, the clock's time and `fork`. The heap is a list, of which `pop` takes the first
-- of the entries with the least runtime; which of several such entries a heap pops is not documented.
pub mod Queue
pub mod Keeps
pub mod Pick
use an_os_in_rust.Base.{
  ℕ, zero, suc, ◌+◌, ◌-◌, ◌*◌, ◌/◌, ◌%◌, ◌^◌, bit_and, bit_or, Bool, true, false, not, Option, none,
  some, List, [], ◌∷◌, ◌++◌, leb, ltb, ◌==◌, if◌then◌else◌, length, replicate, Outcome, ok, panic,
  ◌>>=◌, expect, checked_add, checked_mul, checked_sub,
}
use an_os_in_rust.Base.Assoc.{lookup, put}
use an_os_in_rust.Base.Slices.{write_at}

abbrev pub kernel_stack_size : ℕ
kernel_stack_size = 0x2000

-- `KERNEL_STACK_SIZE - size_of::<TaskInfo>()`
abbrev pub actual_stack_size : ℕ
actual_stack_size = 8136

-- `SCHED_LATENCY`
abbrev pub sched_latency : ℕ
sched_latency = 20000000

abbrev pub paging_structure_base : ℕ
paging_structure_base = 0xffffff8000000000

pub record Registers : Type 0 where
  pub stack_top : ℕ
  pub cr3 : ℕ

pub record TaskInfo : Type 0 where
  pub task_id : ℕ
  pub registers : Registers
  pub last_scheduled : ℕ
  pub run_until : ℕ
  pub total_runtime : ℕ
  pub flags : ℕ
  pub interrupt_enabled : Bool

pub record Task : Type 0 where
  pub info : TaskInfo
  pub stack : List ℕ

pub record TaskList : Type 0 where
  pub next_task_id : ℕ
  pub current : Option ℕ
  pub tasks : List (ℕ × Task)
  pub schedulable : List TaskInfo

unfoldable pub is_runnable : ℕ → Bool
is_runnable flags = not (bit_and flags 1 == 0)

unfoldable pub set_is_runnable : Bool → ℕ → ℕ
set_is_runnable true flags = bit_or flags 1
set_is_runnable false flags = bit_and flags (2 ^ 32 - 2)

unfoldable pub new : TaskList
new = record { next_task_id = 0; current = none; tasks = []; schedulable = [] }

-- A change of the information of a task that must exist.
unfoldable pub modify : ℕ → (TaskInfo → TaskInfo) → TaskList → Outcome TaskList
modify id f l = do
  task ← expect (lookup id l.tasks)
  ok (record l { tasks = put id (record task { info = f task.info }) l.tasks })

unfoldable pub set_current_task : ℕ → ℕ → TaskList → Outcome TaskList
set_current_task id now l =
    modify id (λ info. record info { last_scheduled = now }) (record l { current = some id })

unfoldable pub get : ℕ → TaskList → Option ℕ
get id l = elim (lookup id l.tasks) [ none ↦ none | some _ ↦ some id ]

unfoldable pub get_run_until : ℕ → TaskList → Outcome ℕ
get_run_until id l = expect (lookup id l.tasks) >>= λ task. ok task.info.run_until

unfoldable pub push : TaskInfo → TaskList → TaskList
push info l = record l { schedulable = info ∷ l.schedulable }

unfoldable pub update_runtime : ℕ → ℕ → TaskList → Outcome TaskList
update_runtime id timestamp l = do
  task ← expect (lookup id l.tasks)
  elapsed ← checked_sub timestamp task.info.last_scheduled
  delta ← checked_mul elapsed (length l.tasks)
  total ← checked_add task.info.total_runtime delta
  let info = record (task.info) { total_runtime = total }
  let l' = record l { tasks = put id (record task { info = info }) l.tasks }
  ok (if is_runnable info.flags then push info l' else l')

unfoldable pub set_run_until : ℕ → ℕ → TaskList → Outcome TaskList
set_run_until id begin_at l = do
  until ← checked_add begin_at (sched_latency / length l.tasks)
  modify id (λ info. record info { run_until = until }) l

-- `schedulable.retain(|x| x.task_id != id)`
unfoldable pub retain : ℕ → List TaskInfo → List TaskInfo
retain id [] = []
retain id (x ∷ xs) = if x.task_id == id then retain id xs else x ∷ retain id xs

unfoldable pub set_runnable : ℕ → Bool → TaskList → Outcome TaskList
set_runnable id runnable l = do
  task ← expect (lookup id l.tasks)
  let info = record (task.info) { flags = set_is_runnable runnable task.info.flags }
  let l' = record l {
    tasks = put id (record task { info = info }) l.tasks;
    schedulable = retain id l.schedulable;
  }
  ok (if runnable then push info l' else l')

-- `core::cmp::Ordering`, of which `compare_u64` is `u64::cmp`.
pub data Ordering : Type 0 where
  less equal greater : Ordering

abbrev pub compare_u64 : ℕ → ℕ → Ordering
compare_u64 a b = if ltb a b then less else if a == b then equal else greater

abbrev pub reverse : Ordering → Ordering
reverse less = greater
reverse equal = equal
reverse greater = less

abbrev pub is_less : Ordering → Bool
is_less less = true
is_less equal = false
is_less greater = false

-- `Ord::cmp` of `TaskInfo`, which `partial_cmp` agrees with.
unfoldable pub cmp : TaskInfo → TaskInfo → Ordering
cmp x y = reverse (compare_u64 x.total_runtime y.total_runtime)

-- `BinaryHeap::pop` on a heap that is not empty: an element that no other is greater than, by `cmp`,
-- and the others. Of equal elements it may be any; here it is the first.
unfoldable pub pick : TaskInfo → List TaskInfo → TaskInfo × List TaskInfo
pick x [] = (x, [])
pick x (y ∷ ys) =
    let (greatest, rest) = pick y ys in
    if is_less (cmp x greatest) then (greatest, x ∷ rest) else (x, y ∷ ys)

unfoldable pub next : TaskList → Option ℕ × TaskList
next l = elim l.schedulable [
  | [] ↦ (none, l)
  | x ∷ xs ↦
      let (greatest, rest) = pick x xs in (some greatest.task_id, record l { schedulable = rest })
]

unfoldable pub create_task : Task → TaskList → Outcome (ℕ × TaskList)
create_task kernel_stack l = do
  let id = l.next_task_id
  let task = record kernel_stack { info = record (kernel_stack.info) { task_id = id } }
  following ← checked_add id 1
  ok (id, record l { tasks = put id task l.tasks; next_task_id = following })

-- `to_le_bytes` of a `usize`.
unfoldable pub to_le_bytes : ℕ → List ℕ
to_le_bytes n =
    n % 256
    ∷ n / 2 ^ 8 % 256
    ∷ n / 2 ^ 16 % 256
    ∷ n / 2 ^ 24 % 256
    ∷ n / 2 ^ 32 % 256
    ∷ n / 2 ^ 40 % 256
    ∷ n / 2 ^ 48 % 256
    ∷ n / 2 ^ 56 % 256
    ∷ []

-- `init_idle_task`: `boot_stack` is the memory of the stack that the kernel started on.
unfoldable pub init_idle_task : Task → Registers → ℕ → Bool → TaskList → Outcome TaskList
init_idle_task boot_stack registers now interrupts_enabled l = do
  let info : TaskInfo = record {
    task_id = 0;
    registers = registers;
    last_scheduled = now;
    run_until = 0;
    total_runtime = 0;
    flags = 1;
    interrupt_enabled = interrupts_enabled;
  }
  (id, l') ← create_task (record boot_stack { info = info }) l
  ok (record l' { current = some id })

-- What `new_task` writes to the allocated memory, which held `memory`, before it has an id.
unfoldable pub prepare : ℕ → ℕ → ℕ → Task → Outcome Task
prepare cr3 task_entry entry memory = do
  let info = record (memory.info) {
    registers = record { stack_top = 0; cr3 = cr3 };
    flags = 1;
    last_scheduled = 0;
    total_runtime = 0;
    interrupt_enabled = true;
  }
  stack1 ← write_at (actual_stack_size - 8) (to_le_bytes task_entry) (replicate actual_stack_size 0)
  stack2 ← write_at (actual_stack_size - 24) (to_le_bytes entry) stack1
  ok (record { info = info; stack = stack2 })

-- `new_task`, run by `running`; `address` is where the allocated memory stands.
unfoldable pub new_task : (ℕ → Outcome ℕ) → ℕ → ℕ → ℕ → ℕ → Task → TaskList → Outcome (ℕ × TaskList)
new_task fork running address task_entry entry memory l = do
  current ← expect (lookup running l.tasks)
  pointer ← checked_add current.info.registers.cr3 paging_structure_base
  cr3 ← fork pointer
  prepared ← prepare cr3 task_entry entry memory
  (id, l') ← create_task prepared l
  task ← expect (lookup id l'.tasks)
  stack ← write_at (actual_stack_size - 16) (to_le_bytes id) task.stack
  let stack_top = address + (kernel_stack_size - actual_stack_size) + (actual_stack_size - 8 - 48)
  let info = record (task.info) {
    registers = record (task.info.registers) { stack_top = stack_top };
  }
  ok (id, push info (record l' { tasks = put id (record { info = info; stack = stack }) l'.tasks }))
