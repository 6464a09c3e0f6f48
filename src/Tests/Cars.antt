-- ===== src/Tests/Cars.antt =====
-- The theorems on the car sensor, at a device with 16 pins on the board and 8 behind it.
use local_worker.Common.{ℕ, ◌==◌, if◌then◌else◌, true, failed, ◌≡◌, refl, [], ◌∷◌, Ends, arith}
use local_worker.Common.Bits.{put_bit}
use local_worker.Bridge.{Host}
use local_worker.Bridge.Runs.{SameRegs}
use local_worker.Devices.BinkyCarSensor.{BinkyCarSensor, byte_at, set}
use local_worker.Devices.BinkyCarSensor.Outputs.{set-pin_8, set-Updated}
use local_worker.Tests.Chip.{Regs, regs_of, all_stored, chip_bus, chip_bus-ChipOn}

abbrev car_host : Host BinkyCarSensor Regs
car_host = record {
  driver = record {
    address = 0x30;
    output_data = 1 ∷ 2 ∷ 0 ∷ 0 ∷ 0 ∷ 0 ∷ 0 ∷ 0 ∷ 0 ∷ [];
    pins = 24;
  };
  active_count = 7;
  world = λ r. 0;
}

set-pin_8_example :
    (failed (set chip_bus 8 true car_host).0 ≡ true)
    × ((set chip_bus 8 true car_host).1.driver ≡ car_host.driver)
    × SameRegs regs_of car_host.world (set chip_bus 8 true car_host).1.world
set-pin_8_example =
    set-pin_8 chip_bus 0x30 regs_of all_stored (chip_bus-ChipOn 0x30) true car_host (omega arith)
      (omega arith) refl

set-Updated_example :
    Ends
      (λ _ t.
        ((j : ℕ)
          → byte_at t.driver.output_data j
            ≡ (if 1 == j then put_bit true 2 8 else byte_at car_host.driver.output_data j))
        × ((q : ℕ) → t.world q ≡ (if 0x21 == q then put_bit true 2 8 else 0)))
      (λ t. SameRegs regs_of car_host.world t.world)
      (set chip_bus 20 true car_host)
set-Updated_example =
    set-Updated chip_bus 0x30 regs_of all_stored (chip_bus-ChipOn 0x30) 1 3 true car_host
      (omega arith) (omega arith) (omega arith) (omega arith) (omega arith) refl
