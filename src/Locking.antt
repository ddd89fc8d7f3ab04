-- ===== src/Locking.antt =====
-- src/locking/spinlock.rs: WithSpinLock and its guard, on one processor. The mutex of the crate spin
-- is the parameter `Mutexes`; the interrupt flag is the one of src/arch/x86_64/interrupt.rs.
pub mod Nesting
use an_os_in_rust.Base.{ℕ, ◌==◌, if◌then◌else◌, Bool, true, false, Option, some, none, ◌≡◌, ◌≢◌}

-- The mutexes of the crate, each with its name: `lock` has no result where it spins for ever, and
-- `unlock` is what dropping its guard does.
pub record Mutexes (M : Type 0) : Type 0 where
  pub is_locked : ℕ → M → Bool
  pub lock : ℕ → M → Option M
  pub unlock : ℕ → M → M

pub record IsMutexes {M : Type 0} (x : Mutexes M) : Type 0 where
  pub locks :
      (i : ℕ) (m : M)
      → x.is_locked i m ≡ false
      → (m' : M) × (x.lock i m ≡ some m')
        × ((j : ℕ) → x.is_locked j m' ≡ (if j == i then true else x.is_locked j m))
  pub spins : (i : ℕ) (m : M) → x.is_locked i m ≡ true → x.lock i m ≡ none
  pub unlocks :
      (i : ℕ) (m : M) (j : ℕ)
      → x.is_locked j (x.unlock i m) ≡ (if j == i then false else x.is_locked j m)

pub record Processor (M : Type 0) : Type 0 where
  pub interrupts : Bool
  pub mutexes : M

unfoldable pub interrupts_enabled : {M : Type 0} → Processor M → Bool
interrupts_enabled p = p.interrupts

unfoldable pub enable_interrupts : {M : Type 0} → Processor M → Processor M
enable_interrupts p = record p { interrupts = true }

unfoldable pub disable_interrupts : {M : Type 0} → Processor M → Processor M
disable_interrupts p = record p { interrupts = false }

pub record WithSpinLockGuard : Type 0 where
  pub inner : ℕ
  pub was_enabled : Bool

module _ {M : Type 0} (x : Mutexes M) where
  unfoldable pub take : ℕ → Processor M → Option (WithSpinLockGuard × Processor M)
  take i p =
      let off = disable_interrupts p in
      elim (x.lock i off.mutexes) [
        | none ↦ none
        | some m ↦
            some
              (record { inner = i; was_enabled = interrupts_enabled p }, record off { mutexes = m })
      ]

  -- `MutexGuard`'s own drop.
  unfoldable pub drop_inner : WithSpinLockGuard → Processor M → Processor M
  drop_inner g p = record p { mutexes = x.unlock g.inner p.mutexes }

  -- The body of `drop`: the lock is released before the interrupts are restored.
  unfoldable pub drop_body : WithSpinLockGuard → Processor M → Processor M
  drop_body g p =
      let released = drop_inner g p in
      if g.was_enabled then enable_interrupts released else released

  -- All of dropping a guard: behind the body of `drop`, the fields are dropped, and so `inner` again.
  unfoldable pub drop_guard : WithSpinLockGuard → Processor M → Processor M
  drop_guard g p = drop_inner g (drop_body g p)
