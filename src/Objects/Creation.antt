-- ===== src/Objects/Creation.antt =====
-- What the constructors of objects share: pkg/service/objects/util.go, and the configuration of an
-- object as the API of BinkyNet yields it. `DeviceByID` is a function here; a device is what the type
-- assertions on it find. Types and keys of the API are the values that the constructors ask for.
pub mod Switches
pub mod Outputs
pub mod Bounds
pub mod Created
use local_worker.Common.{
  ℕ, ◌+◌, ◌-◌, ◌%◌, ◌^◌, ltb, if◌then◌else◌, Bool, ◌||◌, Option, none, some, List, [], ◌∷◌, M,
  Result, ok, err, Error, lift, throw, pure, ◌>>=◌,
}
use local_worker.Common.Texts.{Text}
use local_worker.Objects.{Gpio, Pwm, Mqtt}
use local_worker.Objects.Service.{ObjectType}

pub data ConnectionName : Type 0 where
  sensor output straight_relay off_relay servo phase_straight_relay phase_off_relay : ConnectionName
  relay_out_a_in_a relay_out_a_in_b relay_out_b_in_a relay_out_b_in_b : ConnectionName
  magnetic_straight_a magnetic_straight_b magnetic_off_a magnetic_off_b : ConnectionName

pub data ConfigKey : Type 0 where
  invert pulse servo_straight servo_off servo_step threshold : ConfigKey
  mqtt_state_topic mqtt_command_topic : ConfigKey

pub data ObjectConfigKey : Type 0 where
  magnetic_always_enabled magnetic_straight_invert magnetic_off_invert : ObjectConfigKey

-- `negsuc n` is -(n + 1).
pub data ℤ : Type 0 where
  pos : ℕ → ℤ
  negsuc : ℕ → ℤ

-- `uint32(x)`
abbrev pub uint32 : ℤ → ℕ
uint32 (pos n) = n % 2 ^ 32
uint32 (negsuc n) = 2 ^ 32 - 1 - n % 2 ^ 32

-- A number below 0 where only its order against numbers from 0 on counts.
abbrev pub from_zero : ℤ → ℕ
from_zero (pos n) = n
from_zero (negsuc n) = 0

pub record DevicePin : Type 0 where
  pub device_id : Text
  pub index : ℕ

pub record Connection : Type 0 where
  pub pins : List DevicePin
  pub get_bool_config : ConfigKey → Bool
  pub get_int_config : ConfigKey → ℤ
  pub get_string_config : ConfigKey → Text

pub record Config : Type 0 where
  pub type : ObjectType
  pub connection_by_name : ConnectionName → Option Connection
  pub get_bool_config : ObjectConfigKey → Bool

-- The `ADC` interface.
pub record Adc (S : Type 0) : Type 0 where
  pub pin_count : ℕ
  pub get : ℕ → M S ℕ

pub record Device (S : Type 0) : Type 0 where
  pub gpio : Option (Gpio S)
  pub pwm : Option (Pwm S)
  pub adc : Option (Adc S)

abbrev pub required : {A : Type 0} → Option A → Result A
required none = err Error.invalid_argument
required (some a) = ok a

abbrev pub then_get : {A B : Type 0} → Result A → (A → Result B) → Result B
then_get (ok a) f = f a
then_get (err e) f = err e

-- An error behind which another text stands.
abbrev pub or_invalid : {A : Type 0} → Result A → Result A
or_invalid (ok a) = ok a
or_invalid (err e) = err Error.invalid_argument

abbrev pub single : Connection → List DevicePin → Result (Connection × DevicePin)
single conn (pin ∷ []) = ok (conn, pin)
single conn _ = err Error.invalid_argument

unfoldable pub get_single_pin : Config → ConnectionName → Result (Connection × DevicePin)
get_single_pin config name =
    then_get (required (config.connection_by_name name)) (λ conn. single conn conn.pins)

-- `pinNr < 1 || uint(pinNr) > PinCount()`
abbrev pub out_of_range : ℕ → ℕ → Bool
out_of_range pin pin_count = ltb pin 1 || ltb pin_count pin

abbrev pub in_range : {A : Type 0} → ℕ → ℕ → A → Result A
in_range pin pin_count a = if out_of_range pin pin_count then err Error.invalid_argument else ok a

module _ {S : Type 0} (device_by_id : Text → Option (Device S)) where
  unfoldable pub get_gpio_for_pin : DevicePin → Result (Gpio S)
  get_gpio_for_pin pin =
      then_get (required (device_by_id pin.device_id))
        λ device. then_get (required device.gpio) λ gpio. in_range pin.index gpio.pin_count gpio

  unfoldable pub get_pwm_for_pin : DevicePin → Result (Pwm S)
  get_pwm_for_pin pin =
      then_get (required (device_by_id pin.device_id))
        λ device. then_get (required device.pwm) λ pwm. in_range pin.index pwm.pwm_pin_count pwm
