-- ===== src/Devices/Ads1115.antt =====
-- pkg/service/devices/ads1115.go: an analog to digital converter with 16 bit registers, which go
-- over the bus high byte first. `Get` starts a conversion and then asks for the status until the
-- conversion is complete or the context has ended.
pub mod Words
pub mod Polling
pub mod Registers
pub mod Conversion
use local_worker.Common.{
  ℕ, zero, suc, ◌-◌, ◌*◌, ◌/◌, ◌^◌, ◌==◌, ltb, if◌then◌else◌, get_elem?, Bool, true, false, Option,
  none, some, bit_and, bit_or, List, [], ◌∷◌, M, Result, ok, err, Error, pure, wrap, lift, map_ok,
  modify, ◌>>=◌, ◌>>◌,
}
use local_worker.Bridge.{Host, I2cDevice, I2cBus, on_world, get_driver, on_active}
use local_worker.Devices.{DeviceType, DeviceConfig, ParseUint, checked_address}

pub record Ads1115 : Type 0 where
  pub address : ℕ

abbrev reg_conversion : ℕ
reg_conversion = 0x00

abbrev reg_config : ℕ
reg_config = 0x01

abbrev pub os_mask : ℕ
os_mask = 0x8000

abbrev os_single : ℕ
os_single = 0x8000

abbrev pub os_not_busy : ℕ
os_not_busy = 0x8000

abbrev mux_by_channel : List ℕ
mux_by_channel = 0x4000 ∷ 0x5000 ∷ 0x6000 ∷ 0x7000 ∷ []

abbrev cque_none : ℕ
cque_none = 0x0003

abbrev rate_250sps : ℕ
rate_250sps = 0x00A0

abbrev mode_single : ℕ
mode_single = 0x0100

unfoldable pub new_ads1115 : ParseUint → DeviceConfig → Result Ads1115
unfolding checked_address
new_ads1115 parse_uint config =
    map_ok (λ address. record { address = address })
      (checked_address parse_uint DeviceType.ads1115 config)

abbrev pub pin_count : ℕ
pin_count = 4

-- The options that are 0 are left out of the disjunction.
abbrev with_mux : Option ℕ → Result ℕ
with_mux none = err Error.panic
with_mux (some mux) = ok (bit_or (bit_or (bit_or cque_none rate_250sps) mode_single) mux)

unfoldable pub create_config_bits : ℕ → Result ℕ
create_config_bits pin =
    if ltb pin 1 then err Error.panic else with_mux (get_elem? mux_by_channel (pin - 1))

-- The bytes `buf[1]` and `buf[2]`, which stay 0 where nothing is read into them.
abbrev byte_or_zero : Option ℕ → ℕ
byte_or_zero none = 0
byte_or_zero (some b) = b

-- `(uint16(buf[1]) << 8) | uint16(buf[2])`
unfoldable pub word_of : List ℕ → ℕ
word_of bytes = bit_or (byte_or_zero (get_elem? bytes 0) * 2 ^ 8) (byte_or_zero (get_elem? bytes 1))

unfoldable pub word_bytes : ℕ → List ℕ
word_bytes value = bit_and (value / 2 ^ 8) 0xff ∷ bit_and value 0xff ∷ []

-- What `Get` asks of its context and of the clock: `ctx.Err()`, and a millisecond of sleep.
pub record Waiting (W : Type 0) : Type 0 where
  pub check_context : M W (Unit {0})
  pub sleep : W → W

module _ {W : Type 0} (bus : I2cBus Ads1115 W) where
  unfoldable pub read_word_reg : ℕ → M (Host Ads1115 W) ℕ
  read_word_reg reg = do
    d ← get_driver
    bus.execute ℕ d.address λ dev. do
      wrap (on_world (dev.write_device (reg ∷ [])))
      bytes ← wrap (on_world (dev.read_device 2))
      pure (word_of bytes)

  unfoldable pub write_word_reg : ℕ → ℕ → M (Host Ads1115 W) (Unit {0})
  write_word_reg reg value = do
    d ← get_driver
    bus.execute Unit d.address λ dev. on_world (dev.write_device (reg ∷ word_bytes value))

  unfoldable read_conversion : M (Host Ads1115 W) ℕ
  read_conversion = read_word_reg reg_conversion

  unfoldable pub read_config : M (Host Ads1115 W) ℕ
  read_config = read_word_reg reg_config

  unfoldable pub write_config : ℕ → M (Host Ads1115 W) (Unit {0})
  write_config bits = write_word_reg reg_config bits

  unfoldable pub is_conversion_complete : M (Host Ads1115 W) Bool
  is_conversion_complete = do
    status ← read_word_reg reg_config
    pure (bit_and status os_mask == os_not_busy)

  unfoldable pub configure : M (Host Ads1115 W) (Unit {0})
  configure = do on_active; bits ← lift (create_config_bits 1); write_config bits

  unfoldable pub close : M (Host Ads1115 W) (Unit {0})
  close = do on_active; bits ← lift (create_config_bits 1); write_config bits

  -- The value is read once the conversion is complete.
  unfoldable pub fetch_value : Bool → M (Host Ads1115 W) (Option ℕ)
  unfolding read_conversion
  fetch_value true = read_conversion >>= λ v. pure (some v)
  fetch_value false = pure none

  -- `break`, or the rest of the loop.
  abbrev pub unless_complete : M (Host Ads1115 W) Bool → Bool → M (Host Ads1115 W) Bool
  unless_complete rest true = pure true
  unless_complete rest false = rest

  module _ (waiting : Waiting W) where
    -- At most `fuel` turns of the loop: whether the conversion has been seen complete.
    unfoldable pub wait_complete : ℕ → M (Host Ads1115 W) Bool
    wait_complete zero = pure false
    wait_complete (suc fuel) = do
      on_world waiting.check_context
      complete ← is_conversion_complete
      unless_complete (on_world (modify waiting.sleep) >> wait_complete fuel) complete

    -- The value, or `none` when the loop has not ended within its fuel. The status that is read
    -- before the loop is only printed.
    unfoldable pub get : ℕ → ℕ → M (Host Ads1115 W) (Option ℕ)
    get fuel pin = do
      bits ← lift (create_config_bits 1)
      write_config (bit_or bits os_single)
      current ← read_config
      complete ← wait_complete fuel
      fetch_value complete
