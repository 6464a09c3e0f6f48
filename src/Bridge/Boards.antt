-- ===== src/Bridge/Boards.antt =====
-- The boards: `API` of pkg/service/bridge/api.go, and what implements it in rpi.go, orangepizero.go,
-- virtual.go and stub.go. The GPIO library of the two boards is a parameter, and `open_bus` is
-- `NewI2CBus`. `I`, `O` and `B` are the input pins, the output pins and the buses.
use local_worker.Common.{
  ℕ, zero, suc, Bool, true, false, Option, none, some, List, [], ◌∷◌, M, Result, ok, err, Error,
  pure, throw, wrapping,
}
use local_worker.Common.Texts.{Text}
use local_worker.Bridge.{I2cDevice}
use local_worker.Bridge.Led.{Led, LedSite, set, blink}

-- The delays of a blink are left out. A pin number may be negative in Go; the bus of the Raspberry PI
-- has none for its clock.
pub record Api (I O B S : Type 0) : Type 0 where
  pub set_green_led : Bool → M S (Unit {0})
  pub set_red_led : Bool → M S (Unit {0})
  blink_green_led : M S (Unit {0})
  blink_red_led : M S (Unit {0})
  pub i2c_bus : M S B
  pub pin_count : ℕ
  -- Input: number, active low. Output: number, active low, initial value.
  pub input : ℕ → Bool → M S I
  pub output : ℕ → Bool → Bool → M S O
  pub close : M S (Unit {0})

pub record Library (I O B W : Type 0) : Type 0 where
  pub gpio_input : ℕ → Bool → M W I
  pub gpio_output : ℕ → Bool → Bool → M W O
  pub write : O → Bool → M W (Unit {0})
  pub open_bus : Text → Option ℕ → M W B
  pub close_bus : B → M W (Unit {0})

-- What distinguishes the two boards.
pub record Wiring : Type 0 where
  green_led_pin : ℕ
  red_led_pin : ℕ
  bus_location : Text
  pub scl_pin : Option ℕ

pub record PiBridge (O B : Type 0) : Type 0 where
  green_pin : O
  red_pin : O
  green_led : Led
  red_led : Led
  pub bus : Option B

-- A bridge, and the board under it.
pub record Site (O B W : Type 0) : Type 0 where
  pub bridge : PiBridge O B
  pub board : W

abbrev unlit : Led
unlit = record { has_cancel = false; blinkers = [] }

module _ {I O B W : Type 0} (library : Library I O B W) where
  abbrev on_board : {A : Type 0} → M W A → M (Site O B W) A
  on_board m s = ((m s.board).0, record s { board = (m s.board).1 })

  -- The leds are active low and off at the start.
  abbrev with_red : O → Result O × W → Result (PiBridge O B) × W
  with_red green (ok red, w) = (
    ok (record {
      green_pin = green;
      red_pin = red;
      green_led = unlit;
      red_led = unlit;
      bus = none;
    }),
    w,
  )
  with_red green (err e, w) = (err (Error.wrapped e), w)

  abbrev with_green : Wiring → Result O × W → Result (PiBridge O B) × W
  with_green wiring (ok green, w) =
      with_red green (library.gpio_output wiring.red_led_pin true false w)
  with_green wiring (err e, w) = (err (Error.wrapped e), w)

  unfoldable new_bridge : Wiring → M W (PiBridge O B)
  new_bridge wiring w = with_green wiring (library.gpio_output wiring.green_led_pin true false w)

  -- A call of the green or the red led; its error is wrapped.
  abbrev on_green : ((Bool → M W (Unit {0})) → M (LedSite W) (Unit {0})) → M (Site O B W) (Unit {0})
  on_green call s =
      let out =
        call (library.write s.bridge.green_pin)
          (record { led = s.bridge.green_led; world = s.board }) in
      wrapping
        (out.0, record { bridge = record s.bridge { green_led = out.1.led }; board = out.1.world })

  abbrev on_red : ((Bool → M W (Unit {0})) → M (LedSite W) (Unit {0})) → M (Site O B W) (Unit {0})
  on_red call s =
      let out =
        call (library.write s.bridge.red_pin)
          (record { led = s.bridge.red_led; world = s.board }) in
      wrapping
        (out.0, record { bridge = record s.bridge { red_led = out.1.led }; board = out.1.world })

  -- The bus that was opened is kept.
  abbrev keep_bus : Site O B W → Result B × W → Result B × Site O B W
  keep_bus s (ok b, w) = (ok b, record { bridge = record s.bridge { bus = some b }; board = w })
  keep_bus s (err e, w) = (err (Error.wrapped e), record s { board = w })

  abbrev bus_or_open : Wiring → Option B → Site O B W → Result B × Site O B W
  bus_or_open wiring (some b) s = (ok b, s)
  bus_or_open wiring none s =
      keep_bus s (library.open_bus wiring.bus_location wiring.scl_pin s.board)

  unfoldable pub i2c_bus : Wiring → M (Site O B W) B
  i2c_bus wiring s = bus_or_open wiring s.bridge.bus s

  abbrev close_if : Option B → Site O B W → Result (Unit {0}) × Site O B W
  close_if none s = (ok tt, s)
  close_if (some b) s =
      wrapping
        (on_board (library.close_bus b) (record s { bridge = record s.bridge { bus = none } }))

  unfoldable pub close : M (Site O B W) (Unit {0})
  close s = close_if s.bridge.bus s

  abbrev pi_api : Wiring → ℕ → Api I O B (Site O B W)
  pi_api wiring pin_count = record {
    set_green_led = λ on. on_green (λ write. set write on);
    set_red_led = λ on. on_red (λ write. set write on);
    blink_green_led = on_green (λ write. blink write);
    blink_red_led = on_red (λ write. blink write);
    i2c_bus = i2c_bus wiring;
    pin_count = pin_count;
    input = λ pin active_low. on_board (library.gpio_input pin active_low);
    output =
        λ pin active_low initial_value. on_board (library.gpio_output pin active_low initial_value);
    close = close;
  }

-- "/dev/i2c-1", without a pin for the clock.
abbrev raspberry_pi_wiring : Wiring
raspberry_pi_wiring = record {
  green_led_pin = 23;
  red_led_pin = 24;
  bus_location = b'/' ∷ b'd' ∷ b'e' ∷ b'v' ∷ b'/' ∷ b'i' ∷ b'2' ∷ b'c' ∷ b'-' ∷ b'1' ∷ [];
  scl_pin = none;
}

-- "/dev/i2c-0"
abbrev orange_pi_zero_wiring : Wiring
orange_pi_zero_wiring = record {
  green_led_pin = 19;
  red_led_pin = 18;
  bus_location = b'/' ∷ b'd' ∷ b'e' ∷ b'v' ∷ b'/' ∷ b'i' ∷ b'2' ∷ b'c' ∷ b'-' ∷ b'0' ∷ [];
  scl_pin = some 11;
}

unfoldable raspberry_pi : {I O B W : Type 0} → Library I O B W → Api I O B (Site O B W)
raspberry_pi library = pi_api library raspberry_pi_wiring 17

unfoldable orange_pi_zero : {I O B W : Type 0} → Library I O B W → Api I O B (Site O B W)
orange_pi_zero library = pi_api library orange_pi_zero_wiring 17

-- A virtual board has no pins, and no device on its bus.
abbrev virtual_execute : {A S : Type 0} → ℕ → (I2cDevice S → M S A) → M S A
virtual_execute address op = throw (Error.no_device address)

unfoldable virtual_bridge : {I O S : Type 0} → Api I O (Unit {0}) S
virtual_bridge = record {
  set_green_led = λ on. pure tt;
  set_red_led = λ on. pure tt;
  blink_green_led = pure tt;
  blink_red_led = pure tt;
  i2c_bus = pure tt;
  pin_count = 8;
  input = λ pin active_low. throw (Error.invalid_pin pin);
  output = λ pin active_low initial_value. throw (Error.invalid_pin pin);
  close = pure tt;
}

-- The stub: every transfer succeeds and reads zeros. What it prints is left out. Its `ReadDevice`
-- leaves the bytes of the caller as they were made, zero.
abbrev zeros : ℕ → List ℕ
zeros zero = []
zeros (suc n) = 0 ∷ zeros n

unfoldable stub_device : {S : Type 0} → I2cDevice S
stub_device = record {
  read_byte_reg = λ reg. pure 0;
  write_byte_reg = λ reg val. pure tt;
  read_byte = pure 0;
  write_byte = λ val. pure tt;
  read_device = λ n. pure (zeros n);
  write_device = λ bytes. pure tt;
}

unfoldable stub_execute : {A S : Type 0} → ℕ → (I2cDevice S → M S A) → M S A
stub_execute address op = op stub_device

-- A pin of the stub keeps how it was opened; it reads false.
pub record StubInputPin : Type 0 where
  pub pin_number : ℕ
  pub active_low : Bool

pub record StubOutputPin : Type 0 where
  pub pin_number : ℕ
  pub active_low : Bool
  pub initial_value : Bool

abbrev stub_read : {S : Type 0} → StubInputPin → M S Bool
stub_read inp = pure false

abbrev stub_write : {S : Type 0} → StubOutputPin → Bool → M S (Unit {0})
stub_write outp on = pure tt

unfoldable stub : {S : Type 0} → Api StubInputPin StubOutputPin (Unit {0}) S
stub = record {
  set_green_led = λ on. pure tt;
  set_red_led = λ on. pure tt;
  blink_green_led = pure tt;
  blink_red_led = pure tt;
  i2c_bus = pure tt;
  pin_count = 17;
  input = λ pin active_low. pure (record { pin_number = pin; active_low = active_low });
  output = λ pin active_low initial_value.
      pure (record { pin_number = pin; active_low = active_low; initial_value = initial_value });
  close = pure tt;
}
