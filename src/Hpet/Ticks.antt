-- ===== src/Hpet/Ticks.antt =====
-- The time that src/arch/x86_64/hpet.rs reports to the clock.
use an_os_in_rust.Base.{
  ℕ, ◌+◌, ◌-◌, ◌*◌, ◌^◌, ◌≤◌, ◌<◌, ◌≡◌, refl, ap, ◌∙◌, arith, true, none, some, List, [], ◌∷◌, ltb,
  leb, Outcome, ok, panic, ◌>>=◌,
}
use an_os_in_rust.Base.Bits.{mul_le_mul}
use an_os_in_rust.Hpet.{Mmio, Hpet, read_main_counter, hpet_tick}

-- The ticks of the timer at these states of its registers, one after the other: the sum of the
-- nanoseconds that the clock is called with, and the timer afterwards.
unfoldable pub ticks : {W : Type 0} → Mmio W → Hpet → List W → Outcome (ℕ × Hpet)
ticks mmio h [] = ok (0, h)
ticks mmio h (w ∷ ws) = hpet_tick mmio (some h) w >>= λ (called, after). elim after [
  | none ↦ panic
  | some h' ↦
      ticks mmio h' ws >>= λ (sum, h''). ok ((elim called [ none ↦ 0 | some ns ↦ ns ]) + sum, h'')
]

-- The timer with another count seen last.
abbrev pub seen : ℕ → Hpet → Hpet
seen count h = record h { last_tick_count_timer_0 = count }

module _ {W : Type 0} (mmio : Mmio W) where
  -- The counter never goes back, and the nanoseconds that it stands for fit 64 bits.
  abbrev pub AreForward : Hpet → List W → Type 0
  AreForward h [] = Unit {0}
  AreForward h (w ∷ ws) =
      (h.last_tick_count_timer_0 ≤ read_main_counter mmio h w)
      × (read_main_counter mmio h w * h.counter_clock_period < 2 ^ 64)
      × AreForward (seen (read_main_counter mmio h w) h) ws

  telescope : (a b c p : ℕ) → a ≤ b → b ≤ c → (b - a) * p + (c - b) * p ≡ (c - a) * p
  telescope a b c p h k =
      let split : c - a ≡ b - a + (c - b) = omega (arith, h, k) in rw (split) (grind arith)

  one_tick :
      (h : Hpet) (w : W)
      → h.tick ≡ true
      → h.last_tick_count_timer_0 ≤ read_main_counter mmio h w
      → read_main_counter mmio h w * h.counter_clock_period < 2 ^ 64
      → hpet_tick mmio (some h) w
        ≡ ok (
          some ((read_main_counter mmio h w - h.last_tick_count_timer_0) * h.counter_clock_period),
          some (seen (read_main_counter mmio h w) h),
        )
  unfolding hpet_tick read_main_counter
  one_tick h w set forward fits =
      let room : leb h.last_tick_count_timer_0 (read_main_counter mmio h w) ≡ true = ground arith in
      let less =
        mul_le_mul (read_main_counter mmio h w - h.last_tick_count_timer_0)
          (read_main_counter mmio h w) h.counter_clock_period (omega arith) in
      let small : ltb
            ((read_main_counter mmio h w - h.last_tick_count_timer_0) * h.counter_clock_period)
            (2 ^ 64)
          ≡ true =
        ground (arith, less, fits) in
      rw (room, set, small) refl

  -- The register's count at the last of these states, and `before` where there is none.
  unfoldable pub last_count : Hpet → ℕ → List W → ℕ
  last_count h before [] = before
  last_count h before (w ∷ ws) = last_count h (read_main_counter mmio h w) ws

  last_count-seen :
      (c before : ℕ) (h : Hpet) (ws : List W)
      → last_count (seen c h) before ws ≡ last_count h before ws
  unfolding last_count read_main_counter
  last_count-seen c before h [] = refl
  last_count-seen c before h (w ∷ ws) = last_count-seen c (read_main_counter mmio h w) h ws

  last_count-forward :
      (h : Hpet) (ws : List W)
      → AreForward h ws
      → h.last_tick_count_timer_0 ≤ last_count h h.last_tick_count_timer_0 ws
  unfolding last_count
  last_count-forward h [] forward = omega arith
  last_count-forward h (w ∷ ws) (forward, _, rest) =
      let c = read_main_counter mmio h w in
      omega (arith, forward, last_count-forward (seen c h) ws rest, last_count-seen c c h ws)

  -- Where a function is registered, the counter never goes back and its nanoseconds fit 64 bits: the
  -- ticks return; the timer holds the count that its register has at the last of them; and the clock
  -- is called with nanoseconds that add up to those between the count that was seen before and that
  -- one. No time is lost and none is counted twice.
  pub ticks-elapsed :
      (h : Hpet) (ws : List W)
      → h.tick ≡ true
      → AreForward h ws
      → ticks mmio h ws
        ≡ ok (
          (last_count h h.last_tick_count_timer_0 ws - h.last_tick_count_timer_0)
              * h.counter_clock_period,
          seen (last_count h h.last_tick_count_timer_0 ws) h,
        )
  unfolding ticks last_count
  ticks-elapsed h [] set forward =
      ap (λ n. ok (n, h)) (nothing h.last_tick_count_timer_0 h.counter_clock_period)
    where
      nothing : (a p : ℕ) → 0 ≡ (a - a) * p
      nothing a p = let none : a - a ≡ 0 = omega arith in rw (none) (omega arith)
  ticks-elapsed h (w ∷ ws) set (forward, fits, rest) =
      let c = read_main_counter mmio h w in
      let last = last_count h c ws in
      let same = last_count-seen c c h ws in
      let later : c ≤ last = omega (arith, last_count-forward (seen c h) ws rest, same) in
      let e : ticks mmio (seen c h) ws ≡ ok ((last - c) * h.counter_clock_period, seen last h) =
        ticks-elapsed (seen c h) ws set rest
        ∙ ap (λ n. ok ((n - c) * h.counter_clock_period, seen n h)) same in
      rw (one_tick h w set forward fits, e)
        (ap (λ n. ok (n, seen last h))
          (telescope h.last_tick_count_timer_0 c last h.counter_clock_period forward later))
