-- ===== src/Serial.antt =====
-- src/drivers/serial.rs: the driver of the serial port, whose registers are behind the ports.
pub mod Line
use an_os_in_rust.Base.{
  ℕ, zero, suc, ◌+◌, ◌-◌, ◌*◌, ◌/◌, ◌%◌, ◌^◌, ◌==◌, ltb, if◌then◌else◌, Bool, true, false, Option,
  none, some, List, [], ◌∷◌, ◌++◌, length, Outcome, ok, panic, ◌>>=◌, bit_and,
}
use an_os_in_rust.Base.Slices.{slice}
use an_os_in_rust.Net.Ethernet.{Bytes}
use an_os_in_rust.Ports.{Ports}

pub record Com : Type 0 where
  pub port : Option ℕ

-- `port + offset` on `u16`.
unfoldable pub add_port : ℕ → ℕ → Outcome ℕ
add_port port offset = if ltb (port + offset) (2 ^ 16) then ok (port + offset) else panic

module _ {W : Type 0} (ports : Ports W) where
  unfoldable pub inb : Com → ℕ → W → Outcome (ℕ × W)
  inb c offset w = elim c.port [
    | none ↦ ok (0, w)
    | some port ↦ add_port port offset >>= λ at. ok (ports.inb at w)
  ]

  unfoldable pub outb : Com → ℕ → ℕ → W → Outcome W
  outb c offset value w = elim c.port [
    | none ↦ ok w
    | some port ↦ add_port port offset >>= λ at. ok (ports.outb at value w)
  ]

  -- `Com::new`
  unfoldable pub new : ℕ → ℕ → W → Outcome (Com × W)
  new port divisor w = do
    let c : Com = record { port = some port }
    w1 ← outb c 1 0 w
    w2 ← outb c 3 0x80 w1
    w3 ← outb c 0 (divisor % 2 ^ 8) w2
    w4 ← outb c 1 (divisor / 2 ^ 8) w3
    w5 ← outb c 3 0x03 w4
    w6 ← outb c 2 0xc7 w5
    w7 ← outb c 1 0b00000111 w6
    w8 ← outb c 4 0x0b w7
    ok (c, w8)

  unfoldable pub line_status : Com → W → Outcome (ℕ × W)
  line_status c w = inb c 5 w

  unfoldable pub write_byte : Com → ℕ → W → Outcome W
  write_byte c byte w =
      let returned = outb c 0 13 w >>= (λ w1. outb c 0 10 w1) in
      let plain = outb c 0 byte w in if byte == 10 then returned else plain

  unfoldable pub read_byte : Com → W → Outcome (ℕ × W)
  read_byte c w = inb c 0 w

  -- `read` into a buffer of a length: the bytes that were read.
  unfoldable pub read : Com → ℕ → W → Outcome (Bytes × W)
  read c zero w = ok ([], w)
  read c (suc left) w = do
    (status, w1) ← line_status c w
    let some_read = (do
      (byte, w2) ← read_byte c w1
      (bytes, w3) ← read c left w2
      ok (byte ∷ bytes, w3))
    if bit_and status 0x1 == 1 then some_read else ok ([], w1)

  unfoldable pub write : Com → Bytes → W → Outcome (ℕ × W)
  write c [] w = ok (0, w)
  write c (b ∷ bs) w = do
    (status, w1) ← line_status c w
    let written = (do w2 ← write_byte c b w1; (n, w3) ← write c bs w2; ok (n + 1, w3))
    if bit_and status 0b100000 == 0b100000 then written else ok (0, w1)

  -- `write_all`. Out of fuel is a panic.
  unfoldable pub write_all : ℕ → Com → Bytes → W → Outcome W
  write_all zero c buf w = panic
  write_all (suc fuel) c [] w = ok w
  write_all (suc fuel) c (b ∷ bs) w = do
    (written, w1) ← write c (b ∷ bs) w
    rest ← slice written (length (b ∷ bs)) (b ∷ bs)
    write_all fuel c rest w1

  -- `init`: the port that `COM1` holds afterwards.
  unfoldable pub init : W → Outcome (Com × W)
  init w = do
    (c, w1) ← new 0x3f8 0x2 w
    (_, w2) ← write c (0x1b ∷ 0x5b ∷ 0x32 ∷ 0x30 ∷ 0x68 ∷ []) w1
    ok (c, w2)

  unfoldable pub tmp_write_com1 : ℕ → Com → Bytes → W → Outcome W
  tmp_write_com1 fuel com1 buf w = elim com1.port [
    | none ↦ ok w
    | some _ ↦ write_all fuel com1 buf w
  ]

  -- `read_com1` echoes what was read.
  unfoldable pub read_com1 : ℕ → Com → W → Outcome W
  read_com1 fuel com1 w = elim com1.port [
    | none ↦ ok w
    | some _ ↦ read com1 16 w >>= λ (bytes, w1). write_all fuel com1 bytes w1
  ]

  -- `write_str`: `none` is the error.
  unfoldable pub write_str : ℕ → Com → Bytes → W → Outcome (Option W)
  write_str fuel c s w = elim c.port [
    | none ↦ ok none
    | some _ ↦ write_all fuel c s w >>= λ w'. ok (some w')
  ]
