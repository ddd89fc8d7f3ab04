-- ===== src/Locking/Nesting.antt =====
-- Guards of src/locking/spinlock.rs that are dropped in the opposite of the order they were taken in.
use mathlib.Core.Path.{fun_ext}
use an_os_in_rust.Base.{
  ℕ, ◌==◌, if◌then◌else◌, Bool, true, false, some, none, ◌≡◌, refl, sym, ap, ap₂, ◌∙◌, List, [],
  ◌∷◌, inl, inr, Bool-cases, ==_self, ==_iff,
}
use an_os_in_rust.Locking.{
  Mutexes, IsMutexes, Processor, WithSpinLockGuard, take, drop_inner, drop_body, drop_guard,
  enable_interrupts, disable_interrupts, interrupts_enabled,
}

module _ {M : Type 0} (x : Mutexes M) where
  -- What code that nests its guards does, from a first state to a state with the guards that are
  -- alive, the one that was taken last in front.
  pub data Steps (start : Processor M) : List WithSpinLockGuard → Processor M → Type 0 where
    start_here : Steps start [] start
    takes :
        {gs : List WithSpinLockGuard} {p q : Processor M} {g : WithSpinLockGuard} (i : ℕ)
        → Steps start gs p
        → take x i p ≡ some (g, q)
        → Steps start (g ∷ gs) q
    drops :
        {gs : List WithSpinLockGuard} {p : Processor M} (g : WithSpinLockGuard)
        → Steps start (g ∷ gs) p
        → Steps start gs (drop_guard x g p)

  abbrev set_lock : Bool → ℕ → (ℕ → Bool) → ℕ → Bool
  set_lock b i f j = if j == i then b else f j

  abbrev locks : Processor M → ℕ → Bool
  locks p i = x.is_locked i p.mutexes

  -- With the guards `gs` alive: the flag and the locks are those that dropping the guards turns into
  -- those of the start.
  abbrev Restores : Processor M → List WithSpinLockGuard → Bool → (ℕ → Bool) → Type 0
  Restores start [] flag f = (flag ≡ start.interrupts) × (f ≡ locks start)
  Restores start (g ∷ gs) flag f =
      (flag ≡ false)
      × (f g.inner ≡ true)
      × Restores start gs g.was_enabled (set_lock false g.inner f)

  set_twice :
      (b : Bool) (i : ℕ) (f : ℕ → Bool) → f i ≡ b → (c : Bool) → set_lock b i (set_lock c i f) ≡ f
  set_twice b i f h c = fun_ext λ j. elim (Bool-cases (j == i)) [
    | inl same ↦ rw (same) (sym (ap f ((==_iff j i).0 same) ∙ h))
    | inr other ↦ rw (other) refl
  ]

  module _ (laws : IsMutexes x) where
    take-some :
        (i : ℕ) (p q : Processor M) (g : WithSpinLockGuard)
        → take x i p ≡ some (g, q)
        → (locks p i ≡ false)
          × (g.inner ≡ i)
          × (g.was_enabled ≡ p.interrupts)
          × (q.interrupts ≡ false)
          × (locks q ≡ set_lock true i (locks p))
    unfolding take disable_interrupts interrupts_enabled
    take-some i p q g h = elim (Bool-cases (locks p i)) [
      | inl held ↦
          let stuck : take x i p ≡ none = rw (take, laws.spins i p.mutexes held) refl in
          absurd (nothing (sym stuck ∙ h))
      | inr open_now ↦
          let (m, e, after) = laws.locks i p.mutexes open_now in
          let pair = some_injective (sym h ∙ rw (take, e) refl) in
          (
            open_now,
            ap (λ r. (r.0).inner) pair,
            ap (λ r. (r.0).was_enabled) pair,
            ap (λ r. (r.1).interrupts) pair,
            ap (λ r. locks r.1) pair ∙ fun_ext after,
          )
    ]
      where
        nothing : {r : WithSpinLockGuard × Processor M} → none ≡ some r → ⊥
        nothing e = cc

        some_injective : {r s : WithSpinLockGuard × Processor M} → some r ≡ some s → r ≡ s
        some_injective e = cc

    unlock_twice :
        (i : ℕ) (m : M)
        → (λ (j : ℕ). x.is_locked j (x.unlock i (x.unlock i m)))
          ≡ set_lock false i (λ j. x.is_locked j m)
    unlock_twice i m = fun_ext λ j. elim (Bool-cases (j == i)) [
      | inl same ↦ laws.unlocks i (x.unlock i m) j ∙ rw (same) refl
      | inr other ↦
          laws.unlocks i (x.unlock i m) j ∙ rw (other) (laws.unlocks i m j ∙ rw (other) refl)
    ]

    drop-locks :
        (g : WithSpinLockGuard) (p : Processor M)
        → p.interrupts ≡ false
        → ((drop_guard x g p).interrupts ≡ g.was_enabled)
          × (locks (drop_guard x g p) ≡ set_lock false g.inner (locks p))
    unfolding drop_guard drop_body drop_inner enable_interrupts
    drop-locks g p off = elim (Bool-cases g.was_enabled) [
      | inl on ↦ (rw (drop_body, on) refl, rw (drop_body, on) (unlock_twice g.inner p.mutexes))
      | inr on ↦ (rw (drop_body, on) off, rw (drop_body, on) (unlock_twice g.inner p.mutexes))
    ]

    -- Whatever nests its guards: with guards alive, interrupts are off and their locks are held; and
    -- dropping them gives back the flag and the locks of the start.
    Steps-Restores :
        (start p : Processor M) (gs : List WithSpinLockGuard)
        → Steps start gs p
        → Restores start gs p.interrupts (locks p)
    Steps-Restores start _ _ start_here = (refl, refl)
    Steps-Restores start _ _ (takes {gs} {p} {q} {g} i steps h) =
        let before = Steps-Restores start p gs steps in
        let (was_free, named, kept, off, now) = take-some i p q g h in
        let held : locks q g.inner ≡ true =
          ap (λ f. f g.inner) now ∙ ap (set_lock true i (locks p)) named ∙ rw (==_self i) refl in
        let back : set_lock false g.inner (locks q) ≡ locks p =
          ap₂ (set_lock false) named now ∙ set_twice false i (locks p) was_free true in
        (off, held, rw (kept, back) before)
    Steps-Restores start _ _ (drops {gs} {p} g steps) =
        let (off, _, rest) = Steps-Restores start p (g ∷ gs) steps in
        let (flag, free_now) = drop-locks g p off in rw (flag, free_now) rest

    -- Where the mutexes behave as documented and nothing runs while a guard is being dropped, code that
    -- takes locks and drops all the guards again, the last one first, leaves the interrupt flag and every
    -- lock as they were at the start.
    pub Steps-restore :
        (start p : Processor M)
        → Steps start [] p
        → (p.interrupts ≡ start.interrupts)
          × ((i : ℕ) → x.is_locked i p.mutexes ≡ x.is_locked i start.mutexes)
    Steps-restore start p steps =
        let (flag, same) = Steps-Restores start p [] steps in (flag, λ i. ap (λ f. f i) same)

    -- While guards are alive that were taken and dropped in nested order: interrupts are off, and the
    -- lock of the last guard is held, so that taking it again never returns.
    Steps-masked :
        (start p : Processor M) (g : WithSpinLockGuard) (gs : List WithSpinLockGuard)
        → Steps start (g ∷ gs) p
        → (p.interrupts ≡ false)
          × (x.is_locked g.inner p.mutexes ≡ true)
          × (take x g.inner p ≡ none)
    unfolding take disable_interrupts
    Steps-masked start p g gs steps =
        let (off, held, _) = Steps-Restores start p (g ∷ gs) steps in
        (off, held, rw (take, laws.spins g.inner p.mutexes held) refl)
