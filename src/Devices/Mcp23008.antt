-- ===== src/Devices/Mcp23008.antt =====
-- pkg/service/devices/mcp23008.go: an 8 pin GPIO expander. The driver keeps a copy of the
-- direction register and of the output register, and writes the copy after each change.
pub mod Writes
pub mod Setup
pub mod Refusals
use local_worker.Common.{
  ℕ, ◌-◌, ◌^◌, ltb, ◌==◌, if◌then◌else◌, Bool, ◌||◌, bit_and, M, Result, ok, err, Error, pure,
  throw, lift, map_ok, ◌>>=◌, ◌>>◌,
}
use local_worker.Common.Bits.{has_bit, raise_bit, lower_bit, put_bit}
use local_worker.Bridge.{Host, I2cDevice, I2cBus, on_world, modify_driver, get_driver, on_active}
use local_worker.Devices.{
  PinDirection, input, output, DeviceType, DeviceConfig, ParseUint, checked_address,
}

pub record Mcp23008 : Type 0 where
  pub address : ℕ
  pub iodir : ℕ
  pub value : ℕ

abbrev pub reg_iodir : ℕ
reg_iodir = 0x00

abbrev pub reg_iocon : ℕ
reg_iocon = 0x05

abbrev pub reg_gpio : ℕ
reg_gpio = 0x09

unfoldable pub new_mcp23008 : ParseUint → DeviceConfig → Result Mcp23008
unfolding checked_address
new_mcp23008 parse_uint config =
    map_ok (λ address. record { address = address; iodir = 0xff; value = 0xff })
      (checked_address parse_uint DeviceType.mcp23008 config)

abbrev pub pin_count : ℕ
pin_count = 8

unfoldable pub bit_mask : ℕ → Result ℕ
bit_mask pin = if ltb pin 1 || ltb 8 pin then err (Error.invalid_pin pin) else ok (2 ^ (pin - 1))

-- The branch of `SetDirection` on the direction.
abbrev pub put_direction : PinDirection → ℕ → Mcp23008 → Mcp23008
put_direction input mask d = record d { iodir = raise_bit d.iodir mask }
put_direction output mask d = record d { iodir = lower_bit d.iodir mask }

module _ {W : Type 0} (bus : I2cBus Mcp23008 W) where
  unfoldable pub configure : M (Host Mcp23008 W) (Unit {0})
  configure = do
    on_active
    d ← get_driver
    bus.execute Unit d.address λ dev. do
      modify_driver (λ d. record d { iodir = 0xff })
      on_world (dev.write_byte_reg reg_iocon 0x20)
      d ← get_driver
      on_world (dev.write_byte_reg reg_iodir d.iodir)

  unfoldable pub close : M (Host Mcp23008 W) (Unit {0})
  close = do
    on_active
    d ← get_driver
    bus.execute Unit d.address λ dev. do
      modify_driver (λ d. record d { iodir = 0xff })
      d ← get_driver
      on_world (dev.write_byte_reg reg_iodir d.iodir)

  unfoldable pub set_direction : ℕ → PinDirection → M (Host Mcp23008 W) (Unit {0})
  set_direction pin direction = do
    mask ← lift (bit_mask pin)
    on_active
    d ← get_driver
    bus.execute Unit d.address λ dev. do
      modify_driver (put_direction direction mask)
      d ← get_driver
      on_world (dev.write_byte_reg reg_iodir d.iodir)

  unfoldable pub get_direction : ℕ → M (Host Mcp23008 W) PinDirection
  get_direction pin = do
    mask ← lift (bit_mask pin)
    d ← get_driver
    value ← bus.execute ℕ d.address (λ dev. on_world (dev.read_byte_reg reg_iodir))
    pure (if bit_and value mask == 0 then output else input)

  unfoldable pub set : ℕ → Bool → M (Host Mcp23008 W) (Unit {0})
  set pin value = do
    mask ← lift (bit_mask pin)
    d ← get_driver
    if bit_and d.iodir mask == 0
        then (do
          on_active
          bus.execute Unit d.address λ dev. do
            modify_driver (λ d. record d { value = put_bit value d.value mask })
            d ← get_driver
            on_world (dev.write_byte_reg reg_gpio d.value))
        else throw (Error.invalid_direction pin)

  unfoldable pub get : ℕ → M (Host Mcp23008 W) Bool
  get pin = do
    mask ← lift (bit_mask pin)
    d ← get_driver
    value ← bus.execute ℕ d.address (λ dev. on_world (dev.read_byte_reg reg_gpio))
    pure (has_bit value mask)
