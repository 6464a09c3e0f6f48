-- ===== src/Devices/BinkyCarSensor.antt =====
-- pkg/service/devices/binkyCarSensor.go: 8 inputs that detect cars, then 8 outputs on the board and
-- up to 64 on expanders behind it. An operation that panics is one that returns the error `panic`
-- here; a bus takes that for a failed run, where the program would end.
pub mod Outputs
use local_worker.Common.{
  ℕ, zero, suc, ◌+◌, ◌-◌, ◌/◌, ◌%◌, ◌^◌, ltb, if◌then◌else◌, Bool, false, ◌||◌, Option, none, some,
  List, [], ◌∷◌, map, get_elem?, set as set_at, M, Result, ok, err, Error, pure, throw, lift,
  map_ok, ◌>>=◌, ◌>>◌,
}
use local_worker.Common.Bits.{has_bit, put_bit}
use local_worker.Bridge.{Host, I2cDevice, I2cBus, on_world, modify_driver, get_driver, on_active}
use local_worker.Devices.{
  PinDirection, input, output, DeviceType, DeviceConfig, ParseUint, checked_address, to_byte,
}

pub record BinkyCarSensor : Type 0 where
  pub address : ℕ
  pub output_data : List ℕ
  pub pins : ℕ

abbrev reg_version_major : ℕ
reg_version_major = 0x00

abbrev reg_version_minor : ℕ
reg_version_minor = 0x01

abbrev reg_version_patch : ℕ
reg_version_patch = 0x02

abbrev reg_car_sensor_count : ℕ
reg_car_sensor_count = 0x03

abbrev reg_i2c_output_count : ℕ
reg_i2c_output_count = 0x04

abbrev reg_car_sensor_state : ℕ
reg_car_sensor_state = 0x10

abbrev pub reg_output : ℕ
reg_output = 0x20

abbrev reg_output_i2c0 : ℕ
reg_output_i2c0 = 0x21

abbrev reg_configure_pwm0 : ℕ
reg_configure_pwm0 = 0x30

unfoldable pub new_binky_car_sensor : ParseUint → DeviceConfig → Result BinkyCarSensor
unfolding checked_address
new_binky_car_sensor parse_uint config =
    map_ok
      (λ address. record {
        address = address;
        output_data = 0 ∷ 0 ∷ 0 ∷ 0 ∷ 0 ∷ 0 ∷ 0 ∷ 0 ∷ 0 ∷ [];
        pins = 8;
      })
      (checked_address parse_uint DeviceType.binky_car_sensor config)

-- The index of the output byte, `byte(p>>3) - 1` with its wrap-around, and the mask.
unfoldable pub bit_mask : ℕ → ℕ → Result (ℕ × ℕ)
bit_mask pins pin =
    if ltb pin 1 || ltb pins pin
    then err (Error.invalid_pin pin)
    else ok (to_byte (to_byte ((pin - 1) / 2 ^ 3) + 255), 2 ^ ((pin - 1) % 8))

-- `d.outputData[index]`, which is there when it is asked for.
abbrev pub byte_at : List ℕ → ℕ → ℕ
byte_at [] i = 0
byte_at (x ∷ xs) zero = x
byte_at (x ∷ xs) (suc i) = byte_at xs i

abbrev pub put_output : Bool → ℕ → ℕ → BinkyCarSensor → BinkyCarSensor
put_output value index mask d = record d {
  output_data = set_at d.output_data index (put_bit value (byte_at d.output_data index) mask);
}

module _ {W : Type 0} where
  -- `n` bytes of zero to the registers from `r` on.
  unfoldable clear_outputs : ℕ → ℕ → I2cDevice W → M (Host BinkyCarSensor W) (Unit {0})
  clear_outputs zero r dev = pure tt
  clear_outputs (suc n) r dev = on_world (dev.write_byte_reg r 0) >> clear_outputs n (suc r) dev

module _ {W : Type 0} (bus : I2cBus BinkyCarSensor W) where
  unfoldable pub configure : M (Host BinkyCarSensor W) (Unit {0})
  configure = do
    on_active
    d ← get_driver
    bus.execute Unit d.address λ dev. do
      version_major ← on_world (dev.read_byte_reg reg_version_major)
      version_minor ← on_world (dev.read_byte_reg reg_version_minor)
      version_patch ← on_world (dev.read_byte_reg reg_version_patch)
      output_bit_count ← on_world (dev.read_byte_reg reg_i2c_output_count)
      sensor_bit_count ← on_world (dev.read_byte_reg reg_car_sensor_count)
      modify_driver (λ d. record d { pins = 16 + output_bit_count })

  unfoldable pub close : M (Host BinkyCarSensor W) (Unit {0})
  unfolding clear_outputs
  close = do
    on_active
    d ← get_driver
    bus.execute Unit d.address λ dev. do
      modify_driver (λ d. record d { output_data = map (λ _. 0) d.output_data })
      on_world (dev.write_byte_reg reg_output 0)
      clear_outputs 8 reg_output_i2c0 dev

  unfoldable pub pin_count : M (Host BinkyCarSensor W) ℕ
  pin_count = do d ← get_driver; pure d.pins

  unfoldable pub set_direction : ℕ → PinDirection → M (Host BinkyCarSensor W) (Unit {0})
  set_direction pin direction = on_active

  unfoldable pub get_direction : ℕ → M (Host BinkyCarSensor W) PinDirection
  get_direction pin = pure (if ltb pin 9 then input else output)

  -- `old` is the byte at the index, which the operation reads; there are as many bytes whenever it
  -- runs.
  set_output : Bool → ℕ → ℕ → Option ℕ → M (Host BinkyCarSensor W) (Unit {0})
  set_output value index mask none = do
    d ← get_driver
    bus.execute Unit d.address λ dev. throw Error.panic
  set_output value index mask (some old) = do
    d ← get_driver
    bus.execute Unit d.address λ dev. do
      modify_driver (put_output value index mask)
      d ← get_driver
      on_world (dev.write_byte_reg (to_byte (reg_output + index)) (byte_at d.output_data index))

  unfoldable pub set : ℕ → Bool → M (Host BinkyCarSensor W) (Unit {0})
  unfolding set_output
  set pin value = if ltb pin 8 then throw (Error.invalid_direction pin) else (do
    d ← get_driver
    m ← lift (bit_mask d.pins pin)
    set_output value m.0 m.1 (get_elem? d.output_data m.0))

  unfoldable pub get : ℕ → M (Host BinkyCarSensor W) Bool
  get pin = do
    d ← get_driver
    m ← lift (bit_mask d.pins pin)
    if ltb 8 pin then throw (Error.invalid_pin pin) else (do
      value ← bus.execute ℕ d.address (λ dev. on_world (dev.read_byte_reg reg_car_sensor_state))
      pure (has_bit value m.1))

  unfoldable pub set_pwm : ℕ → ℕ → ℕ → Bool → Bool → M (Host BinkyCarSensor W) (Unit {0})
  set_pwm pin on_value off_value enabled final_state = do
    d ← get_driver
    bus.execute Unit d.address λ dev. on_world (
        dev.write_byte_reg (to_byte (reg_configure_pwm0 + to_byte (pin + 255)))
          (to_byte (off_value / 16)))

  unfoldable pub get_pwm : ℕ → M (Host BinkyCarSensor W) (ℕ × ℕ × Bool)
  get_pwm pin = pure (0, 0, false)
