-- ===== src/Acpi/Configurations.antt =====
-- The loop over the configuration spaces in src/drivers/acpi.rs.
use an_os_in_rust.Base.{
  ℕ, zero, suc, ◌+◌, ◌-◌, ◌/◌, ◌<◌, ◌≡◌, refl, ltb, Bool-cases, inl, inr, List, [], ◌∷◌, arith, ok,
}
use an_os_in_rust.Acpi.{Memory, Configuration, configuration_at, configurations_from}

-- The configurations at `n` places of 16 bytes.
unfoldable pub configurations : Memory → ℕ → ℕ → List Configuration
configurations mem zero offset = []
configurations mem (suc n) offset = configuration_at mem offset ∷ configurations mem n (offset + 16)

-- With more fuel than there are bytes left, the loop ends, with one configuration for every 16 bytes
-- that begin before the end of the table, in order.
pub configurations_from-places :
    (mem : Memory) (fuel offset tail : ℕ)
    → tail - offset < fuel
    → configurations_from fuel mem offset tail
      ≡ ok (configurations mem ((tail - offset + 15) / 16) offset)
unfolding configurations_from configurations
configurations_from-places mem zero offset tail enough = absurd (omega (arith, enough))
configurations_from-places mem (suc fuel) offset tail enough = elim (Bool-cases (ltb offset tail)) [
  | inl inside ↦
      let step : (tail - offset + 15) / 16 ≡ suc ((tail - (offset + 16) + 15) / 16) =
        ground (arith, inside) in
      let shorter : tail - (offset + 16) < fuel = ground (arith, inside, enough) in
      rw (inside, configurations_from-places mem fuel (offset + 16) tail shorter, step) refl
  | inr outside ↦
      let none_left : (tail - offset + 15) / 16 ≡ 0 = ground (arith, outside) in
      rw (outside, none_left) refl
]
