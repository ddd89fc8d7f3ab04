-- ===== src/Ports.antt =====
-- src/arch/x86_64/port.rs: port input and output. Each function there is one instruction of the
-- processor, so what the devices behind the ports do is a parameter: `W` is their state.
use an_os_in_rust.Base.{ℕ}

pub record Ports (W : Type 0) : Type 0 where
  pub outb : ℕ → ℕ → W → W
  pub inb : ℕ → W → ℕ × W
  pub outw : ℕ → ℕ → W → W
  pub inw : ℕ → W → ℕ × W
  pub outl : ℕ → ℕ → W → W
  pub inl : ℕ → W → ℕ × W
