-- ===== src/Bridge/Device.antt =====
-- pkg/service/bridge/i2c_device.go: a device of the bus is a file of the kernel's I2C driver that
-- has been given a slave address. The calls of the kernel are parameters. The mutex of a device is
-- left out: the queue of the bus runs one operation at a time.
use local_worker.Common.{
  ℕ, ◌==◌, length, if◌then◌else◌, Option, none, some, List, M, Error, pure, throw, wrap, ◌>>=◌,
  ◌>>◌,
}
use local_worker.Common.Bits.{has_bit}

-- The system calls. A file is the number of its descriptor.
pub record Kernel (W : Type 0) : Type 0 where
  pub open_file : M W ℕ
  pub close_file : ℕ → M W (Unit {0})
  -- `I2C_FUNCS`, `I2C_SLAVE` and `I2C_TIMEOUT`
  pub query_functionality : ℕ → M W ℕ
  pub set_slave : ℕ → ℕ → M W (Unit {0})
  pub set_timeout : ℕ → ℕ → M W (Unit {0})
  -- `I2C_SMBUS` with read/write marker, command, transaction type and the byte that `data` points
  -- to, if any. It yields the byte that stands there afterwards.
  pub smbus : ℕ → ℕ → ℕ → ℕ → Option ℕ → M W ℕ
  pub read_file : ℕ → ℕ → M W (List ℕ)
  pub write_file : ℕ → List ℕ → M W ℕ

pub record FileDevice : Type 0 where
  pub address : ℕ
  pub file : ℕ
  pub funcs : ℕ

abbrev pub smbus_read : ℕ
smbus_read = 1

abbrev pub smbus_write : ℕ
smbus_write = 0

abbrev smbus_quick : ℕ
smbus_quick = 0

abbrev smbus_byte : ℕ
smbus_byte = 1

abbrev pub smbus_byte_data : ℕ
smbus_byte_data = 2

abbrev func_quick : ℕ
func_quick = 0x00010000

abbrev func_read_byte : ℕ
func_read_byte = 0x00020000

abbrev func_write_byte : ℕ
func_write_byte = 0x00040000

abbrev pub func_read_byte_data : ℕ
func_read_byte_data = 0x00080000

abbrev pub func_write_byte_data : ℕ
func_write_byte_data = 0x00100000

-- `defaultI2cTimeout` in units of 10 ms
abbrev default_timeout : ℕ
default_timeout = 10

module _ {W : Type 0} (kernel : Kernel W) where
  unfoldable pub new_i2c_device : ℕ → M W FileDevice
  new_i2c_device address = do
    file ← kernel.open_file
    funcs ← kernel.query_functionality file
    kernel.set_slave file address
    kernel.set_timeout file default_timeout
    pure (record { address = address; file = file; funcs = funcs })

  unfoldable pub close_device : FileDevice → M W (Unit {0})
  close_device d = kernel.close_file d.file

  -- A transaction that the adapter does not offer is refused.
  unfoldable pub access : FileDevice → ℕ → ℕ → ℕ → ℕ → Option ℕ → M W ℕ
  access d func read_write command size byte =
      if has_bit d.funcs func
      then kernel.smbus d.file read_write command size byte
      else throw Error.unsupported

  unfoldable quick : FileDevice → M W (Unit {0})
  unfolding access
  quick d = access d func_quick smbus_write 0 smbus_quick none >>= λ _. pure tt

  unfoldable pub detect_device : FileDevice → M W (Unit {0})
  unfolding quick
  detect_device d = wrap (quick d)

  unfoldable pub read_byte_reg : FileDevice → ℕ → M W ℕ
  unfolding access
  read_byte_reg d r = wrap (access d func_read_byte_data smbus_read r smbus_byte_data (some 0))

  unfoldable pub write_byte_reg : FileDevice → ℕ → ℕ → M W (Unit {0})
  unfolding access
  write_byte_reg d r v =
      wrap (access d func_write_byte_data smbus_write r smbus_byte_data (some v) >>= λ _. pure tt)

  unfoldable pub read_byte : FileDevice → M W ℕ
  unfolding access
  read_byte d = wrap (access d func_read_byte smbus_read 0 smbus_byte (some 0))

  unfoldable pub write_byte : FileDevice → ℕ → M W (Unit {0})
  unfolding access
  write_byte d v = wrap (access d func_write_byte smbus_write v smbus_byte none >>= λ _. pure tt)

  unfoldable pub read_device : FileDevice → ℕ → M W (List ℕ)
  read_device d n = do
    bytes ← kernel.read_file d.file n
    if length bytes == n then pure bytes else throw (Error.short_transfer n (length bytes))

  unfoldable pub write_device : FileDevice → List ℕ → M W (Unit {0})
  write_device d bytes = do
    n ← kernel.write_file d.file bytes
    if n == length bytes then pure tt else throw (Error.short_transfer (length bytes) n)
