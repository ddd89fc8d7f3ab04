-- ===== src/Sched/Tasks/Pick.antt =====
-- Which task `next` of src/kernel/sched/task.rs takes from the heap.
use an_os_in_rust.Base.{
  ℕ, ◌≤◌, ◌≡◌, refl, sym, ap, subst, ◌∙◌, some, List, [], ◌∷◌, ◌++◌, ltb, arith, Bool-cases, inl,
  inr,
}
use an_os_in_rust.Sched.Tasks.{TaskInfo, TaskList, cmp, is_less, pick, next}

-- The order is that of the runtimes, reversed.
is_less-cmp : (x y : TaskInfo) → is_less (cmp x y) ≡ ltb y.total_runtime x.total_runtime
unfolding cmp
is_less-cmp x y = ground arith

-- No task of the list has run for less time.
abbrev pub AllFrom : ℕ → List TaskInfo → Type 0
AllFrom runtime [] = Unit {0}
AllFrom runtime (y ∷ ys) = (runtime ≤ y.total_runtime) × AllFrom runtime ys

AllFrom-below : (a b : ℕ) (ys : List TaskInfo) → a ≤ b → AllFrom b ys → AllFrom a ys
AllFrom-below a b [] h all = tt
AllFrom-below a b (y ∷ ys) h (first, all) = (omega (arith, h, first), AllFrom-below a b ys h all)

pick-AllFrom :
    (x : TaskInfo) (xs : List TaskInfo)
    → (info : TaskInfo) × (before : List TaskInfo) × (after : List TaskInfo) × (x ∷ xs
        ≡ before ++ info ∷ after)
      × (pick x xs ≡ (info, before ++ after))
      × AllFrom info.total_runtime (x ∷ xs)
unfolding pick
pick-AllFrom x [] = (x, [], [], refl, refl, (omega arith, tt))
pick-AllFrom x (y ∷ ys) =
    let (info, before, after, whole, picked, all) = pick-AllFrom y ys in
    elim (Bool-cases (is_less (cmp x info))) [
      | inl lesser ↦
          let shorter : info.total_runtime ≤ x.total_runtime =
            ground (arith, sym (is_less-cmp x info) ∙ lesser) in
          (info, x ∷ before, after, ap (λ l. x ∷ l) whole, rw (picked, lesser) refl, (shorter, all))
      | inr other ↦
          let shorter : x.total_runtime ≤ info.total_runtime =
            ground (arith, sym (is_less-cmp x info) ∙ other) in
          (
            x,
            [],
            y ∷ ys,
            refl,
            rw (picked, other) refl,
            (omega arith, AllFrom-below x.total_runtime info.total_runtime (y ∷ ys) shorter all),
          )
    ]

next_of :
    (l : TaskList) (x : TaskInfo) (xs : List TaskInfo)
    → (info : TaskInfo) × (before : List TaskInfo) × (after : List TaskInfo) × (x ∷ xs
        ≡ before ++ info ∷ after)
      × (next (record l { schedulable = x ∷ xs })
          ≡ (some info.task_id, record l { schedulable = before ++ after }))
      × AllFrom info.total_runtime (x ∷ xs)
unfolding next
next_of l x xs =
    let (info, before, after, whole, picked, all) = pick-AllFrom x xs in
    (info, before, after, whole, rw (picked) refl, all)

-- From a heap that is not empty, `next` takes one task, and leaves the others: a task such that none in
-- the heap has run for less time.
pub next-least :
    (l : TaskList) (x : TaskInfo) (xs : List TaskInfo)
    → l.schedulable ≡ x ∷ xs
    → (info : TaskInfo) × (before : List TaskInfo) × (after : List TaskInfo) × (l.schedulable
        ≡ before ++ info ∷ after)
      × (next l ≡ (some info.task_id, record l { schedulable = before ++ after }))
      × AllFrom info.total_runtime l.schedulable
next-least l x xs e =
    let (info, before, after, whole, taken, all) = next_of l x xs in
    (
      info,
      before,
      after,
      e ∙ whole,
      ap (λ q. next (record l { schedulable = q })) e ∙ taken,
      subst (AllFrom info.total_runtime) (sym e) all,
    )
