-- ===== src/Devices/LocalGpio.antt =====
-- pkg/service/devices/local-gpio.go: pins of the board itself. The API of the board is a parameter;
-- `I` and `O` are its input and output pins. A slice that is nil is the empty list.
pub mod Directions
use local_worker.Common.{
  ℕ, zero, suc, ◌-◌, ◌==◌, if◌then◌else◌, Bool, true, false, Option, none, some, List, [], ◌∷◌, M,
  Result, ok, err, Error, pure, throw, lift, get_elem?, ◌>>=◌, ◌>>◌,
}
use local_worker.Common.{set as set_at}
use local_worker.Bridge.{Host, on_world, modify_driver, get_driver, on_active}
use local_worker.Devices.{PinDirection, input, output, DeviceType, DeviceConfig, is_type}

-- `Input` and `Output` of the board, and the calls of its pins. Both take a pin to be active low, and
-- an output starts as false.
pub record Board (I O W : Type 0) : Type 0 where
  pub pin_count : ℕ
  pub input : ℕ → M W I
  pub output : ℕ → M W O
  pub read : I → M W Bool
  pub write : O → Bool → M W (Unit {0})

pub record LocalGpio (I O : Type 0) : Type 0 where
  pub inputs : List (Option I)
  pub outputs : List (Option O)

abbrev nils : {A : Type 0} → ℕ → List (Option A)
nils zero = []
nils (suc n) = none ∷ nils n

-- The element that the pin stands for, or none out of range; `pin - 1` wraps for pin 0, which no slice
-- reaches.
abbrev pub element : {A : Type 0} → ℕ → List A → Option A
element zero slice = none
element (suc index) slice = get_elem? slice index

abbrev pub or_panic : {A : Type 0} → Option A → Result A
or_panic none = err Error.panic
or_panic (some a) = ok a

unfoldable pub new_local_gpio : {I O : Type 0} → DeviceConfig → Result (LocalGpio I O)
new_local_gpio config =
    if is_type config.type DeviceType.gpio
    then ok (record { inputs = []; outputs = [] })
    else err Error.invalid_argument

module _ {I O W : Type 0} (board : Board I O W) where
  abbrev pub pin_count : ℕ
  pin_count = board.pin_count

  unfoldable pub configure : M (Host (LocalGpio I O) W) (Unit {0})
  configure = do
    on_active
    modify_driver (λ d. record { inputs = nils pin_count; outputs = nils pin_count })

  unfoldable pub close : M (Host (LocalGpio I O) W) (Unit {0})
  close = do on_active; modify_driver (λ d. record { inputs = []; outputs = [] })

  -- `d.inputs[pin-1] = i`, given the element that stands there.
  abbrev pub assign_input : ℕ → Option I → Option (Option I) → M (Host (LocalGpio I O) W) (Unit {0})
  assign_input pin i none s = (err Error.panic, s)
  assign_input pin i (some old) s = (
    ok tt,
    record s { driver = record (s.driver) { inputs = set_at s.driver.inputs (pin - 1) i } },
  )

  abbrev pub assign_output :
      ℕ → Option O → Option (Option O) → M (Host (LocalGpio I O) W) (Unit {0})
  assign_output pin o none s = (err Error.panic, s)
  assign_output pin o (some old) s = (
    ok tt,
    record s { driver = record (s.driver) { outputs = set_at s.driver.outputs (pin - 1) o } },
  )

  abbrev pub put_pin : ℕ → Option I → Option O → M (Host (LocalGpio I O) W) (Unit {0})
  put_pin pin i o =
      (λ s. assign_input pin i (element pin s.driver.inputs) s)
      >> (λ s. assign_output pin o (element pin s.driver.outputs) s)

  unfoldable pub set_direction : ℕ → PinDirection → M (Host (LocalGpio I O) W) (Unit {0})
  set_direction pin input = do on_active; i ← on_world (board.input pin); put_pin pin (some i) none
  set_direction pin output = do
    on_active
    o ← on_world (board.output pin)
    put_pin pin none (some o)

  abbrev pub direction_of : Option O → Result PinDirection
  direction_of (some o) = ok output
  direction_of none = err Error.invalid_argument

  abbrev pub direction_unless_input : ℕ → Option I → M (Host (LocalGpio I O) W) PinDirection
  direction_unless_input pin (some i) s = (ok input, s)
  direction_unless_input pin none s =
      (get_driver >>= λ d. lift (or_panic (element pin d.outputs)) >>= λ o. lift (direction_of o)) s

  unfoldable pub get_direction : ℕ → M (Host (LocalGpio I O) W) PinDirection
  get_direction pin = do
    d ← get_driver
    i ← lift (or_panic (element pin d.inputs))
    direction_unless_input pin i

  abbrev write_pin : ℕ → Option O → Bool → M (Host (LocalGpio I O) W) (Unit {0})
  write_pin pin (some o) value s = on_world (board.write o value) s
  write_pin pin none value s = (err (Error.wrapped (Error.invalid_direction pin)), s)

  unfoldable pub set : ℕ → Bool → M (Host (LocalGpio I O) W) (Unit {0})
  set pin value = do
    d ← get_driver
    o ← lift (or_panic (element pin d.outputs))
    write_pin pin o value

  abbrev read_pin : ℕ → Option I → M (Host (LocalGpio I O) W) Bool
  read_pin pin (some i) s = on_world (board.read i) s
  read_pin pin none s = (err (Error.wrapped (Error.invalid_direction pin)), s)

  unfoldable pub get : ℕ → M (Host (LocalGpio I O) W) Bool
  get pin = do d ← get_driver; i ← lift (or_panic (element pin d.inputs)); read_pin pin i
