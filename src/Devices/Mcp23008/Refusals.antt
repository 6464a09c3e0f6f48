-- ===== src/Devices/Mcp23008/Refusals.antt =====
-- The calls that mcp23008.go refuses.
use local_worker.Common.{◌⊎◌, Error, ℕ, ◌+◌, ◌^◌, ◌<◌, Bool, ◌≡◌, refl, arith, err, true}
use local_worker.Common.Bits.{has_bit}
use local_worker.Bridge.{Host, I2cBus}
use local_worker.Devices.{PinDirection}
use local_worker.Devices.Mcp23008.{Mcp23008, bit_mask, set, set_direction, get, get_direction}
use local_worker.Devices.Mcp23008.Writes.{bit_mask_pin}

abbrev OutOfRange : ℕ → Type 0
OutOfRange pin = (pin < 1) ⊎ (8 < pin)

bit_mask_refuses : (pin : ℕ) → OutOfRange pin → bit_mask pin ≡ err (Error.invalid_pin pin)
unfolding bit_mask
bit_mask_refuses pin h = ground arith

-- For a pin below 1 or above 8, `Set`, `SetDirection`, `Get` and `GetDirection` fail with the error
-- for an invalid pin, and the driver, its activity counter and the bus stay as they are.
calls_refused :
    {W : Type 0} (bus : I2cBus Mcp23008 W) (pin : ℕ) (v : Bool) (p : PinDirection)
    (s : Host Mcp23008 W)
    → OutOfRange pin
    → (set bus pin v s ≡ (err (Error.invalid_pin pin), s))
      × (set_direction bus pin p s ≡ (err (Error.invalid_pin pin), s))
      × (get bus pin s ≡ (err (Error.invalid_pin pin), s))
      × (get_direction bus pin s ≡ (err (Error.invalid_pin pin), s))
unfolding set set_direction get get_direction
calls_refused bus pin v p s h = rw (bit_mask_refuses pin h) (refl, refl, refl, refl)

-- `Set` of a pin from 1 to 8 whose direction is input fails with the error for an invalid
-- direction, and the driver, its activity counter and the bus stay as they are.
set-input_refused :
    {W : Type 0} (bus : I2cBus Mcp23008 W) (i : ℕ) (v : Bool) (s : Host Mcp23008 W)
    → i < 8
    → has_bit s.driver.iodir (2 ^ i) ≡ true
    → set bus (i + 1) v s ≡ (err (Error.invalid_direction (i + 1)), s)
unfolding set
set-input_refused bus i v s hi h = rw (bit_mask_pin i hi) (ground arith)
