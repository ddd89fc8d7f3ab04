-- ===== src/Examples/Locking.antt =====
-- Examples for src/locking/spinlock.rs: two locks, one inside the other.
use an_os_in_rust.Base.{
  ℕ, ◌==◌, if◌then◌else◌, Bool, true, false, Option, some, none, ◌≡◌, refl, ap, [], ◌∷◌,
}
use an_os_in_rust.Locking.{
  Mutexes, IsMutexes, Processor, WithSpinLockGuard, take, drop_guard, disable_interrupts,
  interrupts_enabled,
}
use an_os_in_rust.Locking.Nesting.{Steps, start_here, takes, drops, Steps-restore}

-- Mutexes as the locks that are held.
abbrev with_lock : Bool → ℕ → (ℕ → Bool) → ℕ → Bool
with_lock b i m j = if j == i then b else m j

abbrev lock_one : Bool → ℕ → (ℕ → Bool) → Option (ℕ → Bool)
lock_one held i m = if held then none else some (with_lock true i m)

abbrev table : Mutexes (ℕ → Bool)
table = record {
  is_locked = λ i m. m i;
  lock = λ i m. lock_one (m i) i m;
  unlock = with_lock false;
}

table-IsMutexes : IsMutexes table
table-IsMutexes = record {
  locks = λ i m h. (with_lock true i m, ap (λ b. lock_one b i m) h, λ j. refl);
  spins = λ i m h. ap (λ b. lock_one b i m) h;
  unlocks = λ i m j. refl;
}

abbrev idle : Processor (ℕ → Bool)
idle = record { interrupts = true; mutexes = λ _. false }

abbrev outer : WithSpinLockGuard
outer = record { inner = 1; was_enabled = true }

abbrev nested : WithSpinLockGuard
nested = record { inner = 2; was_enabled = false }

abbrev one_held : Processor (ℕ → Bool)
one_held = record { interrupts = false; mutexes = with_lock true 1 (λ _. false) }

abbrev two_held : Processor (ℕ → Bool)
two_held = record { interrupts = false; mutexes = with_lock true 2 (with_lock true 1 (λ _. false)) }

both_taken : Steps table idle (nested ∷ outer ∷ []) two_held
unfolding take disable_interrupts interrupts_enabled
both_taken = takes 2 (takes 1 start_here refl) refl

Steps-restore_example :
    ((drop_guard table outer (drop_guard table nested two_held)).interrupts ≡ true)
    × ((i : ℕ)
        → table.is_locked i (drop_guard table outer (drop_guard table nested two_held)).mutexes
          ≡ false)
Steps-restore_example =
    Steps-restore table table-IsMutexes idle
      (drop_guard table outer (drop_guard table nested two_held))
      (drops outer (drops nested both_taken))
