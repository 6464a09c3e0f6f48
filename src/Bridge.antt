-- ===== src/Bridge.antt =====
-- The interfaces of pkg/service/bridge/i2c.go: `I2CDevice`, `I2CBus`, and the state that a driver's
-- call acts on. A driver keeps its fields in `driver`; `active_count` is the counter that its
-- `onActive` callback raises (`onActive` of pkg/service/devices/service.go); `world` is the bus
-- and all that lies behind it.
pub mod Runs
pub mod Updates
pub mod Sequences
pub mod Ports
pub mod Device
pub mod Bus
pub mod Queue
pub mod Led
pub mod Boards
use local_worker.Common.{ℕ, ◌+◌, ◌%◌, ◌^◌, List, M, Result, ok}

pub record Host (D W : Type 0) : Type 0 where
  pub driver : D
  pub active_count : ℕ
  pub world : W

pub record I2cDevice (W : Type 0) : Type 0 where
  pub read_byte_reg : ℕ → M W ℕ
  pub write_byte_reg : ℕ → ℕ → M W (Unit {0})
  pub read_byte : M W ℕ
  pub write_byte : ℕ → M W (Unit {0})
  -- The number of bytes to read, and the bytes read.
  pub read_device : ℕ → M W (List ℕ)
  pub write_device : List ℕ → M W (Unit {0})

-- `Execute`. A variable that the operation captures and writes is the operation's result here.
pub record I2cBus (D W : Type 0) : Type 1 where
  pub execute : (A : Type 0) → ℕ → (I2cDevice W → M (Host D W) A) → M (Host D W) A

module _ {D W : Type 0} where
  abbrev pub lift_world : {A : Type 0} → Host D W → Result A × W → Result A × Host D W
  lift_world s (r, w) = (r, record s { world = w })

  -- A call of the device, which leaves the driver's fields alone.
  abbrev pub on_world : {A : Type 0} → M W A → M (Host D W) A
  on_world m s = lift_world s (m s.world)

  -- An assignment to the driver's fields.
  abbrev pub modify_driver : (D → D) → M (Host D W) (Unit {0})
  modify_driver f s = (ok tt, record s { driver = f s.driver })

  abbrev pub get_driver : M (Host D W) D
  get_driver s = (ok s.driver, s)

  -- `atomic.AddUint32(&s.activeCount, 1)`
  unfoldable pub on_active : M (Host D W) (Unit {0})
  on_active s = (ok tt, record s { active_count = (s.active_count + 1) % 2 ^ 32 })
