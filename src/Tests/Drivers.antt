-- ===== src/Tests/Drivers.antt =====
-- The theorems on the drivers, at a chip that answers at address 0x20.
use local_worker.Common.{◌≡◌, ◌==◌, if◌then◌else◌, true, false, refl, Ends, arith}
use local_worker.Bridge.{Host}
use local_worker.Bridge.Runs.{SameRegs}
use local_worker.Devices.Mcp23008
use local_worker.Devices.Mcp23008.{Mcp23008}
use local_worker.Devices.Mcp23008.Writes as Mcp8
use local_worker.Devices.Mcp23008.Setup.{configure-Ends}
use local_worker.Devices.Mcp23017
use local_worker.Devices.Mcp23017.{Mcp23017, Banks}
use local_worker.Devices.Mcp23017.Writes as Mcp16
use local_worker.Devices.Pca9685.{Pca9685, set_pwm, get_pwm}
use local_worker.Devices.Pca9685.RoundTrip.{get_pwm-set_pwm}
use local_worker.Tests.Chip.{Regs, regs_of, all_stored, chip_bus, chip_bus-ChipOn}

-- Pins 1 to 4 are outputs, the others are inputs.
abbrev mcp8_host : Host Mcp23008 Regs
mcp8_host = record {
  driver = record { address = 0x20; iodir = 0xf0; value = 0x05 };
  active_count = 7;
  world = λ r. if r == 0 then 0xf0 else 0x05;
}

mcp8_host-Sync : Mcp8.Sync regs_of 0x20 mcp8_host
mcp8_host-Sync = record {
  address = refl;
  iodir_byte = omega arith;
  value_byte = omega arith;
  iodir_reg = refl;
  value_reg = refl;
}

set-Ends_example :
    Ends
      (λ _ t.
        Mcp8.Sync regs_of 0x20 t
        × Mcp8.PinWritten 1 true 0x05 (t.world Mcp23008.reg_gpio)
        × (t.world Mcp23008.reg_iodir ≡ 0xf0))
      (λ t. SameRegs regs_of mcp8_host.world t.world)
      (Mcp23008.set chip_bus 2 true mcp8_host)
set-Ends_example =
    Mcp8.set-Ends chip_bus 0x20 regs_of all_stored (chip_bus-ChipOn 0x20) 1 true mcp8_host
      (omega arith) mcp8_host-Sync refl

configure-Ends_example :
    Ends
      (λ _ t.
        (t.driver.iodir ≡ 0xff)
        × (t.world Mcp23008.reg_iodir ≡ 0xff)
        × (t.driver.value ≡ 0x05)
        × (t.world Mcp23008.reg_gpio ≡ 0x05))
      (λ t. t.world Mcp23008.reg_gpio ≡ 0x05)
      (Mcp23008.configure chip_bus mcp8_host)
configure-Ends_example =
    configure-Ends chip_bus 0x20 regs_of all_stored (chip_bus-ChipOn 0x20) mcp8_host refl

-- All pins of bank B are outputs.
abbrev mcp16_host : Host Mcp23017 Regs
mcp16_host = record {
  driver = record {
    address = 0x20;
    iodir = record { bank_a = 0xff; bank_b = 0 };
    value = record { bank_a = 0xff; bank_b = 0x81 };
  };
  active_count = 7;
  world = λ r. if r == 0 then 0xff else if r == 1 then 0 else if r == 0x12 then 0xff else 0x81;
}

mcp16_host-Sync : Mcp16.Sync regs_of 0x20 mcp16_host
mcp16_host-Sync = record {
  address = refl;
  value_byte = λ o. ground arith;
  iodir_reg = λ o h. ground arith;
  value_reg = λ o h. ground arith;
}

set-Ends_of_bank_example :
    Ends
      (λ _ t. Mcp16.Sync regs_of 0x20 t × Mcp16.BankWritten 1 3 true mcp16_host.world t.world)
      (λ t. SameRegs regs_of mcp16_host.world t.world)
      (Mcp23017.set chip_bus 12 true mcp16_host)
set-Ends_of_bank_example =
    Mcp16.set-Ends_of_bank chip_bus 0x20 regs_of all_stored (chip_bus-ChipOn 0x20) 1 3 true
      mcp16_host (omega arith) (omega arith) mcp16_host-Sync refl

abbrev pca_host : Host Pca9685 Regs
pca_host = record { driver = record { address = 0x40 }; active_count = 7; world = λ r. 0 }

get_pwm-set_pwm_example :
    Ends
      (λ _ t.
        Ends
          (λ x _. (x.0 ≡ 0) × (x.1 ≡ 1000) × (x.2 ≡ false))
          (λ _. Unit {0})
          (get_pwm chip_bus 3 t))
      (λ _. Unit {0})
      (set_pwm chip_bus 3 0 1000 true false pca_host)
get_pwm-set_pwm_example =
    get_pwm-set_pwm chip_bus 0x40 regs_of all_stored (chip_bus-ChipOn 0x40) (λ q. refl) 2 0 1000
      true false pca_host (omega arith) (omega arith) (omega arith) refl
