-- ===== src/Clock/Due.antt =====
-- Which callbacks a tick of src/kernel/clock.rs runs, and which stay.
use an_os_in_rust.Base.{
  ℕ, ◌+◌, ◌%◌, ◌^◌, ◌<◌, ◌≡◌, refl, sym, ap, List, [], ◌∷◌, leb, ltb, ◌==◌, ==_self, if◌then◌else◌,
  arith, Outcome, ok, panic, ◌>>=◌, >>=_assoc, subst, true, false, Bool-cases, inl, inr,
}
use an_os_in_rust.Clock.{
  Callback, Clock, insert, remove, due_keys, run_any, run_keys, tick, callback_at,
}

module _ {ℓ} {W : Type ℓ} where
  -- Every time in the list is above the given one.
  unfoldable pub IsAbove : ℕ → List (ℕ × Callback W) → Type 0
  IsAbove k [] = Unit
  IsAbove k ((j, g) ∷ m) = k < j × IsAbove k m

  -- The times ascend, so no two callbacks have the same one.
  unfoldable pub IsOrdered : List (ℕ × Callback W) → Type 0
  IsOrdered [] = Unit
  IsOrdered ((j, g) ∷ m) = IsAbove j m × IsOrdered m

  unfoldable pub due : ℕ → List (ℕ × Callback W) → List (ℕ × Callback W)
  due now [] = []
  due now ((j, g) ∷ m) = if leb j now then (j, g) ∷ due now m else due now m

  unfoldable pub later : ℕ → List (ℕ × Callback W) → List (ℕ × Callback W)
  later now [] = []
  later now ((j, g) ∷ m) = if leb j now then later now m else (j, g) ∷ later now m

  -- The callbacks one after the other.
  unfoldable pub run_all : ℕ → List (ℕ × Callback W) → W → Outcome W
  run_all now [] w = ok w
  run_all now ((j, g) ∷ m) w = g now w >>= λ w'. run_all now m w'

  none_due :
      (now k : ℕ) (m : List (ℕ × Callback W))
      → now < k
      → IsAbove k m
      → (due_keys now m ≡ []) × (due now m ≡ []) × (later now m ≡ m)
  unfolding IsAbove due_keys due later
  none_due now k [] h above = (refl, refl, refl)
  none_due now k ((j, g) ∷ m) h (below, above) =
      let e : leb j now ≡ false = ground arith in
      let (a, b, c) = none_due now k m h above in rw (e) (a, b, ap (λ rest. (j, g) ∷ rest) c)

  run_keys-due :
      (now : ℕ) (m : List (ℕ × Callback W)) (w : W)
      → IsOrdered m
      → run_keys now (due_keys now m) m w
        ≡ (run_all now (due now m) w >>= λ w'. ok (later now m, w'))
  unfolding IsOrdered run_keys due_keys due later run_all run_any remove
  run_keys-due now [] w v = refl
  run_keys-due now ((j, g) ∷ m) w (above, v) = elim (Bool-cases (leb j now)) [
    | inl e ↦ rw (e, ==_self j) (by_result (g now w) (λ w'. run_keys-due now m w' v))
    | inr e ↦ let (a, b, c) = none_due now j m (ground (arith, e)) above in rw (e, a, b, c) refl
  ]
    where
      by_result :
          (o : Outcome W)
          → ((w' : W)
              → run_keys now (due_keys now m) m w'
                ≡ (run_all now (due now m) w' >>= λ w''. ok (later now m, w'')))
          → (o >>= λ w'. run_keys now (due_keys now m) m w')
            ≡ ((o >>= λ w'. run_all now (due now m) w') >>= λ w'. ok (later now m, w'))
      by_result (ok w') ih = ih w'
      by_result panic ih = refl

  IsAbove-mono : (i k : ℕ) (m : List (ℕ × Callback W)) → i < k → IsAbove k m → IsAbove i m
  unfolding IsAbove
  IsAbove-mono i k [] h above = tt
  IsAbove-mono i k ((j, g) ∷ m) h (below, above) = (omega arith, IsAbove-mono i k m h above)

  insert-IsAbove :
      (k j : ℕ) (f : Callback W) (m : List (ℕ × Callback W))
      → k < j
      → IsAbove k m
      → IsAbove k (insert j f m)
  unfolding IsAbove insert
  insert-IsAbove k j f [] h above = (h, tt)
  insert-IsAbove k j f ((i, g) ∷ m) h (below, above) =
      ground (arith, insert-IsAbove k j f m h above)

  -- Registering a callback keeps the order.
  insert-IsOrdered :
      (k : ℕ) (f : Callback W) (m : List (ℕ × Callback W)) → IsOrdered m → IsOrdered (insert k f m)
  unfolding IsAbove IsOrdered insert
  insert-IsOrdered k f [] v = (tt, tt)
  insert-IsOrdered k f ((j, g) ∷ m) (above, v) = elim (Bool-cases (ltb k j)) [
    | inl e ↦
        let low : k < j = ground (arith, e) in
        rw (e) ((low, IsAbove-mono k j m low above), (above, v))
    | inr e ↦ elim (Bool-cases (k == j)) [
      | inl same ↦ rw (e, same) (subst (λ i. IsAbove i m) (sym (eq_of k j same)) above, v)
      | inr other ↦
          rw (e, other)
            (insert-IsAbove j k f m (ground (arith, e, other)) above, insert-IsOrdered k f m v)
    ]
  ]
    where
      eq_of : (a b : ℕ) → (a == b) ≡ true → a ≡ b
      eq_of a b e = ground arith

  -- A tick advances the clock, runs the callbacks that are due in the order of their times, each once
  -- and with the new time, and leaves those that are not.
  pub tick_lem :
      (increment : ℕ) (c : Clock W) (w : W)
      → IsOrdered c.callbacks
      → tick increment c w ≡ (
          run_all
            ((c.ticks + increment) % 2 ^ 64)
            (due ((c.ticks + increment) % 2 ^ 64) c.callbacks)
            w
          >>= λ w'. ok (
            record {
              ticks = (c.ticks + increment) % 2 ^ 64;
              callbacks = later ((c.ticks + increment) % 2 ^ 64) c.callbacks;
            },
            w',
          ))
  unfolding tick
  tick_lem increment c w v = rw (run_keys-due ((c.ticks + increment) % 2 ^ 64) c.callbacks w v) (
      >>=_assoc
        (run_all ((c.ticks + increment) % 2 ^ 64) (due ((c.ticks + increment) % 2 ^ 64) c.callbacks)
          w)
        _ _)

  insert-insert :
      (k : ℕ) (f g : Callback W) (m : List (ℕ × Callback W))
      → insert k g (insert k f m) ≡ insert k g m
  unfolding insert
  insert-insert k f g [] = ground arith
  insert-insert k f g ((j, h) ∷ m) = ground (arith, insert-insert k f g m)

  -- A callback registered at the time of an earlier one replaces it: the clock is what it would be had
  -- the earlier callback never been registered.
  callback_at_replaces :
      (ns : ℕ) (f g : Callback W) (c : Clock W)
      → callback_at ns g (callback_at ns f c) ≡ callback_at ns g c
  unfolding callback_at
  callback_at_replaces ns f g c =
      ap (λ m. record c { callbacks = m }) (insert-insert ns f g c.callbacks)
