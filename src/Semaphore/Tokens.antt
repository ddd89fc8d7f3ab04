-- ===== src/Semaphore/Tokens.antt =====
-- The count of a semaphore of src/locking/semaphore.rs over the steps of all tasks.
use an_os_in_rust.Base.{
  ℕ, ◌+◌, ◌-◌, ◌≤◌, ◌≡◌, refl, sym, ap, ◌∙◌, Bool, true, none, some, ltb, if◌then◌else◌, arith,
  Bool-cases, ◌⊎◌, inl, inr, Outcome, ok, >>=-eq-ok, ok_injective,
}
use an_os_in_rust.Sched.Guard.{Scheduler, lock, unlock, block}
use an_os_in_rust.Semaphore.{
  Semaphore, take_one, give_one, pop_front, wake_any, wake_releasing, wake_waiting, try_wait,
  try_signal, wait, signal,
}

-- The steps of the tasks that use a semaphore. Other code may run the scheduler in between.
pub data Operation : Type 0 where
  waits signals tries_wait tries_signal : ℕ → Operation

unfoldable pub perform : Operation → Semaphore → Scheduler → Outcome (Bool × Semaphore × Scheduler)
perform (waits now) = wait now
perform (signals now) = signal now
perform (tries_wait _) = try_wait
perform (tries_signal _) = try_signal

-- Tokens that a step took and that it gave.
unfoldable pub taken : Operation → Bool → ℕ
taken (waits _) passed = if passed then 1 else 0
taken (tries_wait _) passed = if passed then 1 else 0
taken (signals _) _ = 0
taken (tries_signal _) _ = 0

unfoldable pub given : Operation → Bool → ℕ
given (signals _) passed = if passed then 1 else 0
given (tries_signal _) passed = if passed then 1 else 0
given (waits _) _ = 0
given (tries_wait _) _ = 0

-- A history: from one state of the semaphore to another, with the tokens that were taken and given.
pub data History : Semaphore → Semaphore → ℕ → ℕ → Type 0 where
  none_yet : {s : Semaphore} → History s s 0 0
  and_then :
      {s t u : Semaphore} {w g : ℕ} (o : Operation) (k k' : Scheduler) (passed : Bool)
      → History s t w g
      → perform o t k ≡ ok (passed, u, k')
      → History s u (w + taken o passed) (g + given o passed)

-- What a step may do to a semaphore.
record IsStep (s u : Semaphore) (w g : ℕ) : Type 0 where
  balance : u.count + w ≡ s.count + g
  bound : s.count ≤ s.max → u.count ≤ u.max
  same_max : u.max ≡ s.max

wake_releasing-count :
    (s u : Semaphore) (k k' : Scheduler) (passed : Bool)
    → wake_releasing s k ≡ ok (passed, u, k')
    → (u.count ≡ s.count) × (u.max ≡ s.max) × (passed ≡ true)
unfolding wake_releasing
wake_releasing-count s u k k' passed h =
    let (k1, _, e) = >>=-eq-ok (wake_any (pop_front s.releasing).0 k) _ h in
    let e' = sym (ok_injective e) in
    (ap (λ r. (r.1).count) e', ap (λ r. (r.1).max) e', ap (λ r. r.0) e')

wake_waiting-count :
    (s u : Semaphore) (k k' : Scheduler) (passed : Bool)
    → wake_waiting s k ≡ ok (passed, u, k')
    → (u.count ≡ s.count) × (u.max ≡ s.max) × (passed ≡ true)
unfolding wake_waiting
wake_waiting-count s u k k' passed h =
    let (k1, _, e) = >>=-eq-ok (wake_any (pop_front s.waiting).0 k) _ h in
    let e' = sym (ok_injective e) in
    (ap (λ r. (r.1).count) e', ap (λ r. (r.1).max) e', ap (λ r. r.0) e')

take_one-cases :
    (s : Semaphore)
    → (take_one s ≡ none)
      ⊎ ((s' : Semaphore) × (take_one s ≡ some s') × (s'.count + 1 ≡ s.count) × (s'.max ≡ s.max))
unfolding take_one
take_one-cases s = elim (Bool-cases (ltb 0 s.count)) [
  | inl e ↦ inr (record s { count = s.count - 1 }, rw (e) refl, ground (arith, e), refl)
  | inr e ↦ inl (rw (e) refl)
]

give_one-cases :
    (s : Semaphore)
    → (give_one s ≡ none)
      ⊎ ((s' : Semaphore) × (give_one s ≡ some s')
          × (s'.count ≡ s.count + 1)
          × (s'.max ≡ s.max)
          × (s.count + 1 ≤ s.max))
unfolding give_one
give_one-cases s = elim (Bool-cases (ltb s.count s.max)) [
  | inl e ↦ inr (record s { count = s.count + 1 }, rw (e) refl, refl, refl, ground (arith, e))
  | inr e ↦ inl (rw (e) refl)
]

stays : (s u : Semaphore) → u.count ≡ s.count → u.max ≡ s.max → IsStep s u 0 0
stays s u c m = record {
  balance = omega (arith, c);
  bound = λ h. omega (arith, c, m);
  same_max = m;
}

takes :
    (s s' u : Semaphore) (k k' : Scheduler) (passed : Bool)
    → s'.count + 1 ≡ s.count
    → s'.max ≡ s.max
    → wake_releasing s' k ≡ ok (passed, u, k')
    → IsStep s u (if passed then 1 else 0) 0
takes s s' u k k' passed c m h =
    let (c', m', e) = wake_releasing-count s' u k k' passed h in
    rw (e) (record {
      balance = omega (arith, c, c');
      bound = λ b. omega (arith, c, c', m, m');
      same_max = m' ∙ m;
    })

gives :
    (s s' u : Semaphore) (k k' : Scheduler) (passed : Bool)
    → s'.count ≡ s.count + 1
    → s'.max ≡ s.max
    → s.count + 1 ≤ s.max
    → wake_waiting s' k ≡ ok (passed, u, k')
    → IsStep s u 0 (if passed then 1 else 0)
gives s s' u k k' passed c m room h =
    let (c', m', e) = wake_waiting-count s' u k k' passed h in
    rw (e) (record {
      balance = omega (arith, c, c');
      bound = λ b. omega (arith, c, c', m, m', room);
      same_max = m' ∙ m;
    })

perform-IsStep :
    (o : Operation) (s u : Semaphore) (k k' : Scheduler) (passed : Bool)
    → perform o s k ≡ ok (passed, u, k')
    → IsStep s u (taken o passed) (given o passed)
unfolding perform taken given wait signal try_wait try_signal
perform-IsStep (waits now) s u k k' passed h = elim (take_one-cases s) [
  | inl e ↦
      let (k1, _, e') = >>=-eq-ok (block now (lock k)) _ (rw (wait, e) at h) in
      let r = sym (ok_injective e') in
      rw (ap (λ r. r.0) r) (stays s u (ap (λ r. (r.1).count) r) (ap (λ r. (r.1).max) r))
  | inr (s', e, c, m) ↦
      let (k1, _, e') = >>=-eq-ok (unlock (lock k)) _ (rw (wait, e) at h) in
      takes s s' u k1 k' passed c m e'
]
perform-IsStep (signals now) s u k k' passed h = elim (give_one-cases s) [
  | inl e ↦
      let (k1, _, e') = >>=-eq-ok (block now (lock k)) _ (rw (signal, e) at h) in
      let r = sym (ok_injective e') in
      rw (ap (λ r. r.0) r) (stays s u (ap (λ r. (r.1).count) r) (ap (λ r. (r.1).max) r))
  | inr (s', e, c, m, room) ↦
      let (k1, _, e') = >>=-eq-ok (unlock (lock k)) _ (rw (signal, e) at h) in
      gives s s' u k1 k' passed c m room e'
]
perform-IsStep (tries_wait _) s u k k' passed h = elim (take_one-cases s) [
  | inl e ↦
      let r = sym (ok_injective (rw (try_wait, e) at h)) in
      rw (ap (λ r. r.0) r) (stays s u (ap (λ r. (r.1).count) r) (ap (λ r. (r.1).max) r))
  | inr (s', e, c, m) ↦ takes s s' u k k' passed c m (rw (try_wait, e) at h)
]
perform-IsStep (tries_signal _) s u k k' passed h = elim (give_one-cases s) [
  | inl e ↦
      let r = sym (ok_injective (rw (try_signal, e) at h)) in
      rw (ap (λ r. r.0) r) (stays s u (ap (λ r. (r.1).count) r) (ap (λ r. (r.1).max) r))
  | inr (s', e, c, m, room) ↦ gives s s' u k k' passed c m room (rw (try_signal, e) at h)
]

-- Over any history, the tokens that were taken and the count are those that were there and those
-- that were given, the maximum is the same, and a count within the maximum stays within it.
pub History-balance :
    (s u : Semaphore) (w g : ℕ)
    → History s u w g
    → s.count ≤ s.max
    → (u.count + w ≡ s.count + g) × (u.count ≤ u.max) × (u.max ≡ s.max)
History-balance s _ _ _ none_yet h = (refl, h, refl)
History-balance s u _ _ (and_then {t = t} {w = w} {g = g} o k k' passed before e) h =
    let (balance, bound, same) = History-balance s t w g before h in
    let step = perform-IsStep o t u k k' passed e in
    (omega (arith, balance, step.balance), step.bound bound, step.same_max ∙ same)
