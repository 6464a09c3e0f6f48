-- ===== src/Objects.antt =====
-- pkg/service/objects: what the objects share. The device interfaces that they call (gpio.go,
-- pwm.go and mqtt.go of pkg/service/devices), the switch directions, and the state that a call of
-- an object acts on.
pub mod Service
pub mod Creation
pub mod StatusService
pub mod Lines
pub mod PhaseRelay
pub mod RelaySwitch
pub mod TrackInverter
pub mod ServoSwitch
pub mod MagneticSwitch
pub mod BinaryOutput
pub mod BinarySensor
use local_worker.Common.{ℕ, if◌then◌else◌, Bool, true, false, not, Option, List, M, Result, ok}
use local_worker.Devices.{PinDirection}

-- The `MQTT` interface: the topics of a pin, as texts of bytes.
pub record Mqtt (S : Type 0) : Type 0 where
  pub set_state_topic : ℕ → List ℕ → M S (Unit {0})
  pub set_command_topic : ℕ → List ℕ → M S (Unit {0})

-- The `GPIO` interface; `mqtt` is the result of the type assertion `device.(devices.MQTT)`.
pub record Gpio (S : Type 0) : Type 0 where
  pub pin_count : ℕ
  pub set_direction : ℕ → PinDirection → M S (Unit {0})
  pub set : ℕ → Bool → M S (Unit {0})
  pub get : ℕ → M S Bool
  pub mqtt : Option (Mqtt S)

-- The `PWM` interface: `set_pwm index on off enabled final_state`.
pub record Pwm (S : Type 0) : Type 0 where
  pub pwm_pin_count : ℕ
  pub set_pwm : ℕ → ℕ → ℕ → Bool → Bool → M S (Unit {0})
  pub mqtt : Option (Mqtt S)

-- `SwitchDirection` of the API: its two named values, and the numbers that have no name.
pub data SwitchDirection : Type 0 where
  straight off : SwitchDirection
  other : ℕ → SwitchDirection

abbrev pub is_straight : SwitchDirection → Bool
is_straight straight = true
is_straight _ = false

abbrev pub is_off : SwitchDirection → Bool
is_off off = true
is_off _ = false

-- The message that `PublishSwitchActual` is given, without the address.
pub record SwitchActual : Type 0 where
  pub request : SwitchDirection
  pub actual : SwitchDirection

-- The `pinValue` of relays, magnets and outputs.
abbrev pub pin_value : Bool → Bool → Bool
pin_value invert value = if invert then not value else value

-- An object of type `O` beside the hardware that it drives.
pub record Site (O S : Type 0) : Type 0 where
  pub object : O
  pub hardware : S

module _ {O S : Type 0} where
  abbrev pub lift_hardware : {A : Type 0} → Site O S → Result A × S → Result A × Site O S
  lift_hardware s (r, h) = (r, record s { hardware = h })

  abbrev pub on_hardware : {A : Type 0} → M S A → M (Site O S) A
  on_hardware m s = lift_hardware s (m s.hardware)

  abbrev pub get_object : M (Site O S) O
  get_object s = (ok s.object, s)

  abbrev pub modify_object : (O → O) → M (Site O S) (Unit {0})
  modify_object f s = (ok tt, record s { object = f s.object })
