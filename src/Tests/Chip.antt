-- ===== src/Tests/Chip.antt =====
-- A bus with one chip of byte registers, which never fails.
use local_worker.Common.{ℕ, ◌==◌, if◌then◌else◌, Bool, true, ◌≡◌, refl, M, Result, ok, err, []}
use local_worker.Bridge.{Host, I2cDevice, I2cBus}
use local_worker.Bridge.Runs.{Runs, done, again, refused, RegisterChip, SameRegs, ChipOn}

abbrev pub Regs : Type 0
Regs = ℕ → ℕ

abbrev pub regs_of : Regs → ℕ → ℕ
regs_of w = w

abbrev pub all_stored : ℕ → Bool
all_stored r = true

abbrev chip_device : I2cDevice Regs
chip_device = record {
  read_byte_reg = λ r w. (ok (w r), w);
  write_byte_reg = λ r v w. (ok tt, λ q. if r == q then v else w q);
  read_byte = λ w. (ok (w 0), w);
  write_byte = λ v w. (ok tt, λ q. if 0 == q then v else w q);
  read_device = λ n w. (ok [], w);
  write_device = λ bytes w. (ok tt, w);
}

abbrev pub chip_bus : {D : Type 0} → I2cBus D Regs
chip_bus = record { execute = λ A address op s. op chip_device s }

chip_device-RegisterChip : RegisterChip regs_of all_stored chip_device
chip_device-RegisterChip = record {
  write = λ r v w q. refl;
  read = λ r w. ((λ _. refl), (λ q. refl));
}

run_once :
    {D A : Type 0} (op : I2cDevice Regs → M (Host D Regs) A) (s : Host D Regs)
    (out : Result A × Host D Regs)
    → op chip_device s ≡ out
    → Runs (SameRegs regs_of) (RegisterChip regs_of all_stored) op 2 s out
run_once op s (ok a, t) e = done chip_device (λ q. refl) chip_device-RegisterChip e
run_once op s (err x, t) e =
    again chip_device (λ q. refl) chip_device-RegisterChip e (refused (λ q. refl))

pub chip_bus-ChipOn : {D : Type 0} (a : ℕ) → ChipOn {D = D} chip_bus a regs_of all_stored
chip_bus-ChipOn a = record { runs = λ A op s. run_once op s (op chip_device s) refl }
