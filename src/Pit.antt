-- ===== src/Pit.antt =====
-- src/arch/x86_64/pit.rs: the programmable interval timer.
use an_os_in_rust.Base.{ℕ, ◌/◌, ◌%◌, ◌^◌, Option, none, some}
use an_os_in_rust.Ports.{Ports}

abbrev pub chan0_data : ℕ
chan0_data = 0x40

abbrev pub mode_cmd : ℕ
mode_cmd = 0x43

-- In nanoseconds.
abbrev pub tick_interval : ℕ
tick_interval = 1000000

-- The function that is called at a tick, on the state `S`.
pub record Pit (S : Type 0) : Type 0 where
  pub tick : Option (ℕ → S → S)

module _ {S : Type 0} where
  unfoldable pub new : Pit S
  new = record { tick = none }

  unfoldable pub register_tick : (ℕ → S → S) → Pit S → Pit S
  register_tick tick pit = record pit { tick = some tick }

  unfoldable pub pit_tick : Pit S → S → S
  pit_tick pit s = elim pit.tick [ none ↦ s | some tick ↦ tick tick_interval s ]

-- `count` is 1193 and `control` is 0b00110100.
unfoldable pub start_rate : {W : Type 0} → Ports W → W → W
start_rate ports w =
    ports.outb chan0_data (1193 / 2 ^ 8 % 2 ^ 8)
      (ports.outb chan0_data (1193 % 2 ^ 8) (ports.outb mode_cmd (0b00110100 % 2 ^ 8) w))
