-- ===== src/Hpet.antt =====
-- src/arch/x86_64/hpet.rs: the timer that drives the clock. Its registers, of 32 or 64 bits at an offset
-- from its base address, are behind parameters; `W` is their state.
pub mod Ticks
use an_os_in_rust.Base.{
  ℕ, ◌+◌, ◌-◌, ◌*◌, ◌/◌, ◌%◌, ◌^◌, ◌==◌, ltb, leb, if◌then◌else◌, Bool, true, false, ◌&&◌, not,
  Option, none, some, Outcome, ok, panic, ◌>>=◌, ◌>>◌, assert, checked_mul, checked_sub, bit_and,
  bit_or,
}
use an_os_in_rust.Acpi

pub record Mmio (W : Type 0) : Type 0 where
  pub inw : ℕ → W → ℕ
  pub ing : ℕ → W → ℕ
  pub outw : ℕ → ℕ → W → W
  pub outg : ℕ → ℕ → W → W

-- `tick` is whether a function was registered: it is the clock's.
pub record Hpet : Type 0 where
  pub base_address : ℕ
  pub comparator_count : ℕ
  pub counter_size : ℕ
  pub legacy_replacement_irq_routing_capable : Bool
  pub counter_clock_period : ℕ
  pub last_tick_count_timer_0 : ℕ
  pub tick : Bool

abbrev pub reg_general_configuration : ℕ
reg_general_configuration = 0x10

abbrev pub reg_main_counter : ℕ
reg_main_counter = 0xf0

-- `REG_TIMER_N_CONFIG_CAPABILITY + timer * 0x20`
unfoldable pub timer_register : ℕ → ℕ
timer_register timer = 0x100 + timer * 0x20

abbrev pub same_flag : Bool → Bool → Bool
same_flag true b = b
same_flag false b = not b

module _ {W : Type 0} (mmio : Mmio W) where
  unfoldable pub from_acpi : Acpi.Hpet → W → Outcome Hpet
  from_acpi h w =
      let capabilities = mmio.inw h.base_address w in
      let routing = h.legacy_replacement_irq_routing_capable in
      let period = mmio.inw (h.base_address + 4) w in
      assert (h.comparator_count == bit_and (capabilities / 2 ^ 8) 0x1f)
      >> (assert (h.counter_size == bit_and (capabilities / 2 ^ 13) 0x1)
          >> (assert (same_flag routing (not (bit_and (capabilities / 2 ^ 15) 0x1 == 0)))
              >> ok (record {
                base_address = h.base_address;
                comparator_count = h.comparator_count;
                counter_size = h.counter_size;
                legacy_replacement_irq_routing_capable = routing;
                counter_clock_period = period / 1000000;
                last_tick_count_timer_0 = 0;
                tick = false;
              })))

  unfoldable pub enable : Hpet → W → W
  enable h w =
      let at = h.base_address + reg_general_configuration in
      mmio.outw at (bit_or (mmio.inw at w) 0x1) w

  unfoldable pub read_main_counter : Hpet → W → ℕ
  read_main_counter h w = mmio.ing (h.base_address + reg_main_counter) w

  unfoldable pub reset_main_counter : Hpet → W → W
  reset_main_counter h w = mmio.outg (h.base_address + reg_main_counter) 0 w

  unfoldable pub get_timer_config : ℕ → Hpet → W → ℕ
  get_timer_config timer h w =
      if h.comparator_count == 0 then 0 else mmio.inw (h.base_address + timer_register timer) w

  unfoldable pub set_timer_config : ℕ → ℕ → Hpet → W → W
  set_timer_config timer config h w =
      if leb h.comparator_count timer
      then w
      else mmio.outw (h.base_address + timer_register timer) config w

  unfoldable pub timer_routing_capability : ℕ → Hpet → W → ℕ
  timer_routing_capability timer h w =
      if leb h.comparator_count timer
      then 0
      else mmio.inw (h.base_address + (timer_register timer + 0x4)) w

  unfoldable pub get_timer_comparator : ℕ → Hpet → W → ℕ
  get_timer_comparator timer h w = mmio.ing (h.base_address + (timer_register timer + 0x8)) w

  -- The flag goes to the register at 0x8, as the count does.
  unfoldable pub set_timer_comparator : ℕ → ℕ → Hpet → W → W
  set_timer_comparator timer count h w =
      let at = h.base_address + (timer_register timer + 0x8) in
      mmio.outg at count (mmio.outw at (bit_or (mmio.inw at w) (2 ^ 6)) w)

  -- `init`, to the unmasking of line 2: what goes to the static `HPET`.
  unfoldable pub init : Acpi.Hpet → W → Outcome (Hpet × W)
  init acpi_hpet w = do
    h ← from_acpi acpi_hpet w
    let routing = timer_routing_capability 0 h w
    assert (not (bit_and (routing / 2 ^ 2) 0x1 == 0))
        >> (let config = bit_or (get_timer_config 0 h w) (0x2 * 2 ^ 9) in
            assert (bit_and (config / 2 ^ 4) 0x1 == 1)
            >> (let periodic = bit_or (bit_or (bit_or config (2 ^ 3)) (2 ^ 2)) 0x0 in
                let w1 = set_timer_config 0 periodic h w in
                assert (not (h.counter_clock_period == 0))
                >> ok
                    (h, enable h (set_timer_comparator 0 (1000000 / h.counter_clock_period) h w1))))

  -- `get_time` and `get_tick`, which are the same.
  unfoldable pub get_time : Option Hpet → W → Outcome ℕ
  get_time none w = ok 0
  get_time (some h) w = checked_mul (read_main_counter h w) h.counter_clock_period

  -- `hpet_tick`: the nanoseconds that the registered function is called with, and the timer afterwards.
  unfoldable pub hpet_tick : Option Hpet → W → Outcome (Option ℕ × Option Hpet)
  hpet_tick none w = ok (none, none)
  hpet_tick (some h) w = do
    let current_count = read_main_counter h w
    delta_ticks ← checked_sub current_count h.last_tick_count_timer_0
    let h' = record h { last_tick_count_timer_0 = current_count }
    let called = checked_mul delta_ticks h.counter_clock_period >>= (λ ns. ok (some ns, some h'))
    if h.tick then called else ok (none, some h')

unfoldable pub register_tick : Option Hpet → Option Hpet
register_tick none = none
register_tick (some h) = some (record h { tick = true })
