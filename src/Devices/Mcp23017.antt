-- ===== src/Devices/Mcp23017.antt =====
-- pkg/service/devices/mcp23017.go: a 16 pin GPIO expander with two banks of 8 pins. A bank has its
-- own registers; the driver keeps both banks of the direction and of the output in arrays of two.
pub mod Writes
use local_worker.Common.{
  ℕ, ◌+◌, ◌-◌, ◌^◌, ltb, leb, ◌==◌, if◌then◌else◌, Bool, ◌||◌, bit_and, M, Result, ok, err, Error,
  pure, throw, lift, map_ok, ◌>>=◌, ◌>>◌,
}
use local_worker.Common.Bits.{has_bit, raise_bit, lower_bit, put_bit}
use local_worker.Bridge.{Host, I2cDevice, I2cBus, on_world, modify_driver, get_driver, on_active}
use local_worker.Devices.{
  PinDirection, input, output, DeviceType, DeviceConfig, ParseUint, checked_address,
}

-- `[]byte` of length 2.
pub record Banks : Type 0 where
  pub bank_a : ℕ
  pub bank_b : ℕ

abbrev pub nth : Banks → ℕ → ℕ
nth b offset = if offset == 0 then b.bank_a else b.bank_b

abbrev pub set_nth : Banks → ℕ → ℕ → Banks
set_nth b offset x = if offset == 0 then record b { bank_a = x } else record b { bank_b = x }

pub record Mcp23017 : Type 0 where
  pub address : ℕ
  pub iodir : Banks
  pub value : Banks

abbrev pub reg_iodira : ℕ
reg_iodira = 0x00

abbrev reg_iodirb : ℕ
reg_iodirb = 0x01

abbrev pub reg_iocon : ℕ
reg_iocon = 0x0a

abbrev pub reg_gpioa : ℕ
reg_gpioa = 0x12

abbrev all_ones : Banks
all_ones = record { bank_a = 0xff; bank_b = 0xff }

unfoldable pub new_mcp23017 : ParseUint → DeviceConfig → Result Mcp23017
unfolding checked_address
new_mcp23017 parse_uint config =
    map_ok (λ address. record { address = address; iodir = all_ones; value = all_ones })
      (checked_address parse_uint DeviceType.mcp23017 config)

abbrev pub pin_count : ℕ
pin_count = 16

-- The mask and the offset of the bank.
unfoldable pub bit_mask : ℕ → Result (ℕ × ℕ)
bit_mask pin =
    if ltb pin 1 || ltb 16 pin
    then err (Error.invalid_pin pin)
    else (if leb pin 8 then ok (2 ^ (pin - 1), 0) else ok (2 ^ (pin - 9), 1))

-- The branch of `SetDirection` on the direction.
abbrev pub put_direction : PinDirection → ℕ → ℕ → Mcp23017 → Mcp23017
put_direction input mask offset d = record d {
  iodir = set_nth d.iodir offset (raise_bit (nth d.iodir offset) mask);
}
put_direction output mask offset d = record d {
  iodir = set_nth d.iodir offset (lower_bit (nth d.iodir offset) mask);
}

module _ {W : Type 0} (bus : I2cBus Mcp23017 W) where
  unfoldable pub configure : M (Host Mcp23017 W) (Unit {0})
  configure = do
    on_active
    d ← get_driver
    bus.execute Unit d.address λ dev. do
      modify_driver (λ d. record d { iodir = all_ones })
      on_world (dev.write_byte_reg reg_iocon 0x20)
      d ← get_driver
      on_world (dev.write_byte_reg reg_iodira d.iodir.bank_a)
      d ← get_driver
      on_world (dev.write_byte_reg reg_iodirb d.iodir.bank_b)

  unfoldable pub close : M (Host Mcp23017 W) (Unit {0})
  close = do
    on_active
    d ← get_driver
    bus.execute Unit d.address λ dev. do
      modify_driver (λ d. record d { iodir = all_ones })
      d ← get_driver
      on_world (dev.write_byte_reg reg_iodira d.iodir.bank_a)
      d ← get_driver
      on_world (dev.write_byte_reg reg_iodirb d.iodir.bank_b)

  unfoldable pub set_direction : ℕ → PinDirection → M (Host Mcp23017 W) (Unit {0})
  set_direction pin direction = do
    (mask, offset) ← lift (bit_mask pin)
    on_active
    d ← get_driver
    bus.execute Unit d.address λ dev. do
      modify_driver (put_direction direction mask offset)
      d ← get_driver
      on_world (dev.write_byte_reg (reg_iodira + offset) (nth d.iodir offset))

  unfoldable pub get_direction : ℕ → M (Host Mcp23017 W) PinDirection
  get_direction pin = do
    (mask, offset) ← lift (bit_mask pin)
    d ← get_driver
    value ← bus.execute ℕ d.address (λ dev. on_world (dev.read_byte_reg (reg_iodira + offset)))
    pure (if bit_and value mask == 0 then output else input)

  unfoldable pub set : ℕ → Bool → M (Host Mcp23017 W) (Unit {0})
  set pin value = do
    (mask, offset) ← lift (bit_mask pin)
    d ← get_driver
    if bit_and (nth d.iodir offset) mask == 0
        then (do
          on_active
          bus.execute Unit d.address λ dev. do
            modify_driver (λ d. record d {
              value = set_nth d.value offset (put_bit value (nth d.value offset) mask);
            })
            d ← get_driver
            on_world (dev.write_byte_reg (reg_gpioa + offset) (nth d.value offset)))
        else throw (Error.invalid_direction pin)

  unfoldable pub get : ℕ → M (Host Mcp23017 W) Bool
  get pin = do
    (mask, offset) ← lift (bit_mask pin)
    d ← get_driver
    value ← bus.execute ℕ d.address (λ dev. on_world (dev.read_byte_reg (reg_gpioa + offset)))
    pure (has_bit value mask)
