-- ===== src/Devices.antt =====
-- pkg/service/devices: what the drivers share. The pin directions of gpio.go, the errors of
-- errors.go (`Error` of Common), `parseAddress` of address.go, and the part of a device's
-- configuration that the constructors read.
pub mod Mcp23008
pub mod Mcp23017
pub mod Ads1115
pub mod Pcf8574
pub mod Pca9685
pub mod BinkyCarSensor
pub mod LocalGpio
pub mod Mqtt
pub mod Service
use local_worker.Common.{
  ℕ, ◌%◌, ◌==◌, if◌then◌else◌, Bool, true, false, ◌&&◌, ◌||◌, List, [], ◌∷◌, Result, err, Error,
  map_ok,
}
use local_worker.Common.Texts.{Text}

pub data PinDirection : Type 0 where
  input output : PinDirection

pub data DeviceType : Type 0 where
  gpio binky_car_sensor ads1115 mcp23008 mcp23017 pca9685 pcf8574 mqtt_gpio mqtt_servo : DeviceType
  -- Any other text.
  unsupported_type : DeviceType

abbrev pub is_type : DeviceType → DeviceType → Bool
is_type gpio gpio = true
is_type binky_car_sensor binky_car_sensor = true
is_type ads1115 ads1115 = true
is_type mcp23008 mcp23008 = true
is_type mcp23017 mcp23017 = true
is_type pca9685 pca9685 = true
is_type pcf8574 pcf8574 = true
is_type mqtt_gpio mqtt_gpio = true
is_type mqtt_servo mqtt_servo = true
is_type _ _ = false

-- `Address` is the configured text, as its bytes.
pub record DeviceConfig : Type 0 where
  pub id : Text
  pub type : DeviceType
  pub address : List ℕ

-- `strconv.ParseUint(text, base, 32)`
abbrev pub ParseUint : Type 0
ParseUint = List ℕ → ℕ → Result ℕ

-- `byte(address)` of an address that `parse_address` yields.
abbrev pub to_byte : ℕ → ℕ
to_byte n = n % 256

unfoldable parse_address : ParseUint → List ℕ → Result ℕ
parse_address parse_uint (x ∷ y ∷ rest) =
    if x == b'0' && (y == b'x' || y == b'X')
    then parse_uint rest 16
    else parse_uint (x ∷ y ∷ rest) 10
parse_address parse_uint addr = parse_uint addr 10

-- What the constructors of the I2C drivers do first: check the type and parse the address.
unfoldable pub checked_address : ParseUint → DeviceType → DeviceConfig → Result ℕ
unfolding parse_address
checked_address parse_uint t config =
    if is_type config.type t
    then map_ok to_byte (parse_address parse_uint config.address)
    else err Error.invalid_argument
