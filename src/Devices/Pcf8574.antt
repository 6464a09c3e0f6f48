-- ===== src/Devices/Pcf8574.antt =====
-- pkg/service/devices/pcf8574.go: an 8 pin expander with one quasi-bidirectional port and no
-- registers. A pin that is to be read is written high.
pub mod Port
use local_worker.Common.{
  ℕ, ◌-◌, ◌^◌, ltb, if◌then◌else◌, Bool, ◌||◌, bit_or, M, Result, ok, err, Error, pure, throw, lift,
  map_ok, ◌>>=◌, ◌>>◌,
}
use local_worker.Common.Bits.{has_bit, raise_bit, lower_bit, put_bit}
use local_worker.Bridge.{Host, I2cBus, on_world, modify_driver, get_driver, on_active}
use local_worker.Devices.{
  PinDirection, input, output, DeviceType, DeviceConfig, ParseUint, checked_address,
}

-- In `direction` a bit is 1 for reading and 0 for writing.
pub record Pcf8574 : Type 0 where
  pub address : ℕ
  pub direction : ℕ
  pub out : ℕ

unfoldable pub new_pcf8574 : ParseUint → DeviceConfig → Result Pcf8574
unfolding checked_address
new_pcf8574 parse_uint config =
    map_ok (λ address. record { address = address; direction = 0xff; out = 0 })
      (checked_address parse_uint DeviceType.pcf8574 config)

abbrev pub pin_count : ℕ
pin_count = 8

unfoldable pub bit_mask : ℕ → Result ℕ
bit_mask pin = if ltb pin 1 || ltb 8 pin then err (Error.invalid_pin pin) else ok (2 ^ (pin - 1))

abbrev pub merge_direction_and_output : Pcf8574 → ℕ
merge_direction_and_output d = bit_or d.direction d.out

-- The branch of `SetDirection` on the direction, after the output bit is cleared.
abbrev pub put_direction : PinDirection → ℕ → Pcf8574 → Pcf8574
put_direction input mask d = record d {
  out = lower_bit d.out mask;
  direction = raise_bit d.direction mask;
}
put_direction output mask d = record d {
  out = lower_bit d.out mask;
  direction = lower_bit d.direction mask;
}

module _ {W : Type 0} (bus : I2cBus Pcf8574 W) where
  unfoldable pub configure : M (Host Pcf8574 W) (Unit {0})
  configure = do
    on_active
    d ← get_driver
    bus.execute Unit d.address λ dev. do
      modify_driver (λ d. record d { direction = 0xff; out = 0 })
      on_world (dev.write_byte 0xff)

  unfoldable pub close : M (Host Pcf8574 W) (Unit {0})
  close = do
    on_active
    d ← get_driver
    bus.execute Unit d.address λ dev. do
      modify_driver (λ d. record d { direction = 0xff; out = 0 })
      on_world (dev.write_byte 0xff)

  unfoldable pub set_direction : ℕ → PinDirection → M (Host Pcf8574 W) (Unit {0})
  set_direction pin direction = do
    mask ← lift (bit_mask pin)
    on_active
    d ← get_driver
    bus.execute Unit d.address λ dev. do
      modify_driver (put_direction direction mask)
      d ← get_driver
      on_world (dev.write_byte (merge_direction_and_output d))

  unfoldable pub get_direction : ℕ → M (Host Pcf8574 W) PinDirection
  get_direction pin = do
    mask ← lift (bit_mask pin)
    d ← get_driver
    pure (if has_bit d.direction mask then input else output)

  unfoldable pub set : ℕ → Bool → M (Host Pcf8574 W) (Unit {0})
  set pin value = do
    mask ← lift (bit_mask pin)
    d ← get_driver
    if has_bit d.direction mask then throw (Error.invalid_direction pin) else (do
      on_active
      bus.execute Unit d.address λ dev. do
        modify_driver (λ d. record d { out = put_bit value d.out mask })
        d ← get_driver
        on_world (dev.write_byte (merge_direction_and_output d)))

  unfoldable pub get : ℕ → M (Host Pcf8574 W) Bool
  get pin = do
    mask ← lift (bit_mask pin)
    d ← get_driver
    x ← bus.execute ℕ d.address (λ dev. on_world dev.read_byte)
    pure (has_bit x mask)
