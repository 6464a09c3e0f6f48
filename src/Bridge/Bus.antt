-- ===== src/Bridge/Bus.antt =====
-- pkg/service/bridge/i2c.go: the bus keeps the devices that it has opened, and makes two attempts at
-- an operation. `tryRecoverFromLockup` is false in every bus that `NewI2CBus` makes, so that the
-- recovery is left out. The queue hands one operation at a time to the one goroutine that runs them.
pub mod Attempts
pub mod Chips
pub mod OneChip
pub mod Recovery
use local_worker.Common.{
  ℕ, zero, suc, ◌-◌, ◌==◌, if◌then◌else◌, Option, none, some, List, [], ◌∷◌, ◌++◌, M, Result, ok,
  err, Error, pure, throw, failed, attempt, ignore, wrap, ◌>>=◌, ◌>>◌,
}
use local_worker.Bridge.{Host, I2cDevice, I2cBus, on_world}
use local_worker.Bridge.Device.{
  Kernel, FileDevice, new_i2c_device, close_device, detect_device, read_byte_reg, write_byte_reg,
  read_byte, write_byte, read_device, write_device,
}

-- A device is stored under its own address, so that the map is the list of its values.
pub record BusState (W : Type 0) : Type 0 where
  pub devices : List FileDevice
  pub kernel_state : W

module _ {W : Type 0} where
  abbrev pub lift_kernel : {A : Type 0} → BusState W → Result A × W → Result A × BusState W
  lift_kernel s (r, w) = (r, record s { kernel_state = w })

  abbrev pub on_kernel : {A : Type 0} → M W A → M (BusState W) A
  on_kernel m s = lift_kernel s (m s.kernel_state)

  abbrev pub modify_devices : (List FileDevice → List FileDevice) → M (BusState W) (Unit {0})
  modify_devices f s = (ok tt, record s { devices = f s.devices })

  abbrev get_devices : M (BusState W) (List FileDevice)
  get_devices s = (ok s.devices, s)

abbrev pub find_device : ℕ → List FileDevice → Option FileDevice
find_device address [] = none
find_device address (d ∷ ds) = if d.address == address then some d else find_device address ds

-- The `err` of `execute` after an attempt.
abbrev pub error_of : {A : Type 0} → Error → Result A → Error
error_of last (ok a) = last
error_of last (err e) = e

abbrev pub errors : {A : Type 0} → Result A → List Error
errors (ok _) = []
errors (err e) = e ∷ []

-- The list that a call yields, or none.
abbrev found_or_none : Result (List ℕ) → List ℕ
found_or_none (ok l) = l
found_or_none (err e) = []

-- `delete(b.devices, address)`
abbrev delete_device : ℕ → List FileDevice → List FileDevice
delete_device address [] = []
delete_device address (d ∷ ds) =
    if d.address == address then delete_device address ds else d ∷ delete_device address ds

module _ {W : Type 0} (kernel : Kernel W) where
  -- The device that an operation is given.
  abbrev pub device_calls : FileDevice → I2cDevice (BusState W)
  device_calls d = record {
    read_byte_reg = λ r. on_kernel (read_byte_reg kernel d r);
    write_byte_reg = λ r v. on_kernel (write_byte_reg kernel d r v);
    read_byte = on_kernel (read_byte kernel d);
    write_byte = λ v. on_kernel (write_byte kernel d v);
    read_device = λ n. on_kernel (read_device kernel d n);
    write_device = λ bytes. on_kernel (write_device kernel d bytes);
  }

  register_device : ℕ → M (BusState W) FileDevice
  register_device address = do
    d ← on_kernel (new_i2c_device kernel address)
    modify_devices (λ ds. d ∷ ds)
    pure d

  found_device : ℕ → Option FileDevice → M (BusState W) FileDevice
  unfolding register_device
  found_device address (some d) = pure d
  found_device address none = register_device address

  unfoldable pub open_device : ℕ → M (BusState W) FileDevice
  unfolding found_device
  open_device address = do ds ← get_devices; found_device address (find_device address ds)

  -- Every file is closed; errors are not looked at.
  unfoldable pub close_files : List FileDevice → M (BusState W) (Unit {0})
  close_files [] = pure tt
  close_files (d ∷ ds) = ignore (on_kernel (close_device kernel d)) >> close_files ds

  unfoldable pub close_all : M (BusState W) (Unit {0})
  unfolding close_files
  close_all = do ds ← get_devices; close_files ds; modify_devices (λ _. [])

  module _ {D A : Type 0} (address : ℕ)
      (op : I2cDevice (BusState W) → M (Host D (BusState W)) A) where
    -- What follows the operation of an attempt: `next` is the next turn of the loop.
    after_attempt : M (Host D (BusState W)) A → Result A → M (Host D (BusState W)) A
    after_attempt next (ok a) = pure a
    after_attempt next (err e) = on_world close_all >> next

    -- `execute` with `n` attempts left.
    unfoldable pub attempts : ℕ → Error → M (Host D (BusState W)) A
    unfolding after_attempt
    attempts zero last = throw (Error.wrapped last)
    attempts (suc n) last = do
      d ← wrap (on_world (open_device address))
      r ← attempt (op (device_calls d))
      after_attempt (attempts n (error_of last r)) r

  abbrev pub i2c_bus : {D : Type 0} → I2cBus D (BusState W)
  i2c_bus = record { execute = λ A address op. attempts address op 2 Error.unsupported }

  -- Probe one address; `rest` are the addresses found behind it.
  probe : ℕ → M W (List ℕ)
  probe address = do
    d ← new_i2c_device kernel address
    r ← attempt (detect_device kernel d)
    ignore (close_device kernel d)
    pure (if failed r then [] else address ∷ [])

  -- `n` addresses from `address` on.
  unfoldable detect_from : ℕ → ℕ → M W (List ℕ)
  unfolding probe
  detect_from zero address = pure []
  detect_from (suc n) address = do
    r ← attempt (probe address)
    rest ← detect_from n (suc address)
    pure (found_or_none r ++ rest)

  unfoldable detect_slave_addresses : M W (List ℕ)
  detect_slave_addresses = detect_from 127 1

  -- The errors of the files that did not close are collected, and each device is taken off the map.
  unfoldable pub close_bus : List FileDevice → M (BusState W) (List Error)
  close_bus [] = pure []
  close_bus (d ∷ ds) = do
    r ← attempt (on_kernel (close_device kernel d))
    modify_devices (delete_device d.address)
    es ← close_bus ds
    pure (errors r ++ es)

  unfoldable pub close : M (BusState W) (List Error)
  close = get_devices >>= close_bus
