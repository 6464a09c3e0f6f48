-- ===== src/Devices/Pca9685.antt =====
-- pkg/service/devices/pca9685.go: 16 PWM outputs of 12 bits. An output has four registers, the low
-- and high byte of the on value and of the off value; bit 4 of the last switches it fully off.
pub mod Writes
pub mod RoundTrip
use local_worker.Common.{
  ℕ, ◌+◌, ◌-◌, ◌*◌, ◌/◌, ◌^◌, ltb, if◌then◌else◌, Bool, not, ◌||◌, bit_and, bit_or, M, Result, ok,
  err, Error, pure, lift, map_ok, ◌>>=◌, ◌>>◌,
}
use local_worker.Common.Bits.{has_bit}
use local_worker.Bridge.{Host, I2cDevice, I2cBus, on_world, get_driver, on_active}
use local_worker.Devices.{DeviceType, DeviceConfig, ParseUint, checked_address, to_byte}

pub record Pca9685 : Type 0 where
  pub address : ℕ

abbrev mode1_reg : ℕ
mode1_reg = 0x00

abbrev led_base_reg : ℕ
led_base_reg = 0x06

abbrev prescale_reg : ℕ
prescale_reg = 0xfe

abbrev reg_increment : ℕ
reg_increment = 4

unfoldable pub new_pca9685 : ParseUint → DeviceConfig → Result Pca9685
unfolding checked_address
new_pca9685 parse_uint config =
    map_ok (λ address. record { address = address })
      (checked_address parse_uint DeviceType.pca9685 config)

abbrev pub pwm_pin_count : ℕ
pwm_pin_count = 16

abbrev pub max_pwm_value : ℕ
max_pwm_value = 4095

-- `uint8(math.Floor(25000000.0/4096/(60.0*0.9) - 1.0 + 0.5))`, with the half taken into the
-- fraction: the constants make it a division of integers.
abbrev prescale : ℕ
prescale = to_byte ((2 * 25000000 / (4096 * 54) - 1) / 2)

unfoldable pub reg_base : ℕ → Result ℕ
reg_base output =
    if ltb output 1 || ltb 16 output
    then err Error.invalid_argument
    else ok (led_base_reg + (output - 1) * reg_increment)

-- The high byte of an off value, with the bit for fully off.
abbrev pub off_high_byte : Bool → ℕ → ℕ
off_high_byte enabled off_value =
    if not enabled
    then bit_or (bit_and (off_value / 2 ^ 8) 0x0f) 0x10
    else bit_and (off_value / 2 ^ 8) 0x0f

module _ {W : Type 0} (bus : I2cBus Pca9685 W) where
  unfoldable pub configure : M (Host Pca9685 W) (Unit {0})
  configure = do
    on_active
    d ← get_driver
    bus.execute Unit d.address λ dev. do
      on_world (dev.write_byte_reg mode1_reg 0x11)
      on_world (dev.write_byte_reg prescale_reg prescale)
      on_world (dev.write_byte_reg mode1_reg 0x01)

  unfoldable pub close : M (Host Pca9685 W) (Unit {0})
  close = do
    on_active
    d ← get_driver
    bus.execute Unit d.address (λ dev. on_world (dev.write_byte_reg mode1_reg 0x11))

  -- `final_state` is not used by this driver.
  unfoldable pub set_pwm : ℕ → ℕ → ℕ → (enabled final_state : Bool) → M (Host Pca9685 W) (Unit {0})
  set_pwm output on_value off_value enabled final_state = do
    base ← lift (reg_base output)
    on_active
    d ← get_driver
    bus.execute Unit d.address λ dev. do
      on_world (dev.write_byte_reg (to_byte (base + 0)) (bit_and on_value 0xff))
      on_world (dev.write_byte_reg (to_byte (base + 1)) (bit_and (on_value / 2 ^ 8) 0x0f))
      on_world (dev.write_byte_reg (to_byte (base + 2)) (bit_and off_value 0xff))
      on_world (dev.write_byte_reg (to_byte (base + 3)) (off_high_byte enabled off_value))

  -- The on value, the off value, and whether the output is enabled.
  unfoldable pub get_pwm : ℕ → M (Host Pca9685 W) (ℕ × ℕ × Bool)
  get_pwm output = do
    base ← lift (reg_base output)
    d ← get_driver
    bus.execute (ℕ × ℕ × Bool) d.address λ dev. do
      on_low ← on_world (dev.read_byte_reg (to_byte (base + 0)))
      on_high ← on_world (dev.read_byte_reg (to_byte (base + 1)))
      off_low ← on_world (dev.read_byte_reg (to_byte (base + 2)))
      off_high ← on_world (dev.read_byte_reg (to_byte (base + 3)))
      pure (
        bit_or on_low (bit_and on_high 0x0f * 2 ^ 8),
        bit_or off_low (bit_and off_high 0x0f * 2 ^ 8),
        has_bit off_high 0x10,
      )
