-- ===== src/Bridge/Bus/Chips.antt =====
-- The calls of i2c_device.go make a register chip of a file behind which such a chip answers.
use local_worker.Common.{
  ℕ, ◌==◌, if◌then◌else◌, Bool, true, false, ◌≡◌, refl, some, Result, ok, err, Error, M, Ends,
  and_then, wrapping, pure, throw,
}
use local_worker.Common.Bits.{has_bit}
use local_worker.Bridge.Runs.{RegisterChip}
use local_worker.Bridge.Device.{
  Kernel, FileDevice, access, read_byte_reg, write_byte_reg, smbus_read, smbus_write,
  smbus_byte_data, func_read_byte_data, func_write_byte_data,
}
use local_worker.Bridge.Bus.{BusState, device_calls, lift_kernel}

-- What the transactions "write byte data" and "read byte data" on the file `f` do: they act on the
-- register that the command names. A transaction that fails changes no register.
pub record ChipBehind {W : Type 0} (kernel : Kernel W) (f : ℕ) (reg : W → ℕ → ℕ) (stored : ℕ → Bool)
    : Type 0 where
  pub write_data :
      (r v : ℕ) (w : W)
      → Ends
          (λ _ t. (q : ℕ) → reg t q ≡ (if r == q then v else reg w q))
          (λ t. (q : ℕ) → reg t q ≡ reg w q)
          (kernel.smbus f smbus_write r smbus_byte_data (some v) w)
  pub read_data :
      (r : ℕ) (w : W)
      → Ends
          (λ v t. (stored r ≡ true → v ≡ reg w r) × ((q : ℕ) → reg t q ≡ reg w q))
          (λ t. (q : ℕ) → reg t q ≡ reg w q)
          (kernel.smbus f smbus_read r smbus_byte_data (some 0) w)

module _ {W : Type 0} (Good : ℕ → W → Type 0) (Bad : W → Type 0) where
  guarded :
      (b : Bool) (w : W) (m : M W ℕ)
      → Bad w
      → Ends Good Bad (m w)
      → Ends Good Bad ((if b then m else throw Error.unsupported) w)
  guarded true w m bad h = h
  guarded false w m bad h = bad

  wrapped_read :
      (s : BusState W) (out : Result ℕ × W)
      → Ends Good Bad out
      → Ends (λ v t. Good v t.kernel_state) (λ t. Bad t.kernel_state) (lift_kernel s (wrapping out))
  wrapped_read s (ok v, t) h = h
  wrapped_read s (err e, t) h = h

wrapped_write :
    {W : Type 0} (Good : W → Type 0) (Bad : W → Type 0) (s : BusState W) (out : Result ℕ × W)
    → Ends (λ _. Good) Bad out
    → Ends
        (λ _ t. Good t.kernel_state)
        (λ t. Bad t.kernel_state)
        (lift_kernel s (wrapping (and_then (λ _. pure tt) out)))
wrapped_write Good Bad s (ok v, t) h = h
wrapped_write Good Bad s (err e, t) h = h

-- If a chip with byte registers answers on the file of a device, then `ReadByteReg` and
-- `WriteByteReg` of the device read and write those registers when they succeed and change none when
-- they fail, whichever transactions the adapter offers.
pub device-RegisterChip :
    {W : Type 0} (kernel : Kernel W) (d : FileDevice) (reg : W → ℕ → ℕ) (stored : ℕ → Bool)
    → ChipBehind kernel d.file reg stored
    → RegisterChip (λ (s : BusState W). reg s.kernel_state) stored (device_calls kernel d)
unfolding access read_byte_reg write_byte_reg
device-RegisterChip kernel d reg stored chip = record {
  write = λ r v s.
      let w = s.kernel_state in
      wrapped_write (λ t. (q : ℕ) → reg t q ≡ (if r == q then v else reg w q))
        (λ t. (q : ℕ) → reg t q ≡ reg w q) s
        (access kernel d func_write_byte_data smbus_write r smbus_byte_data (some v) w)
        (guarded _ _ (has_bit d.funcs func_write_byte_data) w
          (kernel.smbus d.file smbus_write r smbus_byte_data (some v)) (λ q. refl)
          (chip.write_data r v w));
  read = λ r s.
      let w = s.kernel_state in
      wrapped_read (λ v t. (stored r ≡ true → v ≡ reg w r) × ((q : ℕ) → reg t q ≡ reg w q))
        (λ t. (q : ℕ) → reg t q ≡ reg w q) s
        (access kernel d func_read_byte_data smbus_read r smbus_byte_data (some 0) w)
        (guarded _ _ (has_bit d.funcs func_read_byte_data) w
          (kernel.smbus d.file smbus_read r smbus_byte_data (some 0)) (λ q. refl)
          (chip.read_data r w));
}
