-- ===== src/Bridge/Bus/OneChip.antt =====
-- The bus of i2c.go, over a kernel, as the bus that the proofs of the drivers suppose.
use local_worker.Common.{ℕ, Bool, sym, subst, M, Result}
use local_worker.Bridge.{Host, I2cDevice}
use local_worker.Bridge.Runs.{Runs, refused, done, again, RegisterChip, SameRegs, ChipOn}
use local_worker.Bridge.Device.{Kernel}
use local_worker.Bridge.Bus.{BusState, i2c_bus}
use local_worker.Bridge.Bus.Attempts.{Quiet, SameBelow, DeviceAt, execute-Runs}
use local_worker.Bridge.Bus.Chips.{ChipBehind, device-RegisterChip}

module _ {D W A : Type 0} (Same Same' : W → W → Type 0) (Dev Dev' : I2cDevice W → Type 0)
    (op : I2cDevice W → M (Host D W) A) (weaken : (v w : W) → Same v w → Same' v w)
    (chip : (dev : I2cDevice W) → Dev dev → Dev' dev) where
  Runs-mono :
      {n : ℕ} {s : Host D W} {out : Result A × Host D W}
      → Runs Same Dev op n s out
      → Runs Same' Dev' op n s out
  Runs-mono (refused {s = s} {w = w} h) = refused (weaken s.world w h)
  Runs-mono (done {s = s} {w = w} dev h d e) = done dev (weaken s.world w h) (chip dev d) e
  Runs-mono (again {s = s} {w = w} dev h d e rest) =
      again dev (weaken s.world w h) (chip dev d) e (Runs-mono rest)

-- If one chip with byte registers answers on every file of the kernel, and the calls that open,
-- address and close files leave its registers alone, then `Execute` of the bus is what the theorems on
-- the register drivers suppose: at any address it runs an operation at most twice, on a device whose
-- calls read and write the registers of the chip, and changes none between the runs.
pub i2c_bus-ChipOn :
    {D W : Type 0} (kernel : Kernel W) (reg : W → ℕ → ℕ) (stored : ℕ → Bool) (a : ℕ)
    → Quiet kernel (SameRegs reg)
    → ((f : ℕ) → ChipBehind kernel f reg stored)
    → ChipOn {D = D} (i2c_bus kernel) a (λ (s : BusState W). reg s.kernel_state) stored
i2c_bus-ChipOn kernel reg stored a quiet chips = record {
  runs = λ A op s.
      Runs-mono (SameBelow kernel (SameRegs reg) quiet) (SameRegs (λ t. reg t.kernel_state))
        (DeviceAt kernel (SameRegs reg) quiet a) (RegisterChip (λ t. reg t.kernel_state) stored) op
        (λ v w h. h)
        (λ dev d.
          subst (RegisterChip (λ t. reg t.kernel_state) stored) (sym d.2)
            (device-RegisterChip kernel d.0 reg stored (chips d.0.file)))
        (execute-Runs kernel (SameRegs reg) quiet a op s);
}
