-- ===== src/Tests/KernelRuns.antt =====
-- The theorems on the bus, at a kernel with one register chip behind every file.
use local_worker.Common.{
  ℕ, ◌==◌, if◌then◌else◌, ◌≡◌, refl, ◌∙◌, M, Option, some, none, ok, length, [],
}
use local_worker.Bridge.{Host, I2cDevice, on_world}
use local_worker.Bridge.Runs.{Runs, ChipOn}
use local_worker.Bridge.Device.{Kernel}
use local_worker.Bridge.Bus.{BusState, i2c_bus}
use local_worker.Bridge.Bus.Attempts.{Quiet, SameBelow, DeviceAt, execute-Runs}
use local_worker.Bridge.Bus.Chips.{ChipBehind}
use local_worker.Bridge.Bus.OneChip.{i2c_bus-ChipOn}
use local_worker.Tests.Chip.{Regs, regs_of, all_stored}

abbrev smbus_data : ℕ → ℕ → Option ℕ → M Regs ℕ
smbus_data read_write r none w = (ok 0, w)
smbus_data read_write r (some v) w =
    if read_write == 0 then (ok v, λ q. if r == q then v else w q) else (ok (w r), w)

-- Descriptor 3 is handed out for every file; all transactions are offered.
abbrev chip_kernel : Kernel Regs
chip_kernel = record {
  open_file = λ w. (ok 3, w);
  close_file = λ f w. (ok tt, w);
  query_functionality = λ f w. (ok 0x1f0000, w);
  set_slave = λ f a w. (ok tt, w);
  set_timeout = λ f n w. (ok tt, w);
  smbus = λ f read_write r size v. smbus_data read_write r v;
  read_file = λ f n w. (ok [], w);
  write_file = λ f bytes w. (ok (length bytes), w);
}

abbrev SameRegisters : Regs → Regs → Type 0
SameRegisters v w = (q : ℕ) → w q ≡ v q

chip_kernel-Quiet : Quiet chip_kernel SameRegisters
chip_kernel-Quiet = record {
  same_refl = λ w q. refl;
  same_trans = λ u v w h k q. k q ∙ h q;
  open_quiet = λ w q. refl;
  close_quiet = λ f w q. refl;
  funcs_quiet = λ f w q. refl;
  slave_quiet = λ f a w q. refl;
  timeout_quiet = λ f n w q. refl;
}

chip_kernel-ChipBehind : (f : ℕ) → ChipBehind chip_kernel f regs_of all_stored
chip_kernel-ChipBehind f = record {
  write_data = λ r v w q. refl;
  read_data = λ r w. ((λ _. refl), (λ q. refl));
}

i2c_bus-ChipOn_example :
    ChipOn {D = ℕ} (i2c_bus chip_kernel) 0x20 (λ (s : BusState Regs). s.kernel_state) all_stored
i2c_bus-ChipOn_example =
    i2c_bus-ChipOn chip_kernel regs_of all_stored 0x20 chip_kernel-Quiet chip_kernel-ChipBehind

abbrev write_nine : I2cDevice (BusState Regs) → M (Host ℕ (BusState Regs)) (Unit {0})
write_nine dev = on_world (dev.write_byte_reg 9 1)

abbrev fresh_bus : Host ℕ (BusState Regs)
fresh_bus = record {
  driver = 0;
  active_count = 0;
  world = record { devices = []; kernel_state = λ r. 0 };
}

execute-Runs_example :
    Runs
      (SameBelow chip_kernel SameRegisters chip_kernel-Quiet)
      (DeviceAt chip_kernel SameRegisters chip_kernel-Quiet 0x20)
      write_nine
      2
      fresh_bus
      ((i2c_bus chip_kernel).execute Unit 0x20 write_nine fresh_bus)
execute-Runs_example =
    execute-Runs chip_kernel SameRegisters chip_kernel-Quiet 0x20 write_nine fresh_bus
