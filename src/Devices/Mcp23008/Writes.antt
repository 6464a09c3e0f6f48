-- ===== src/Devices/Mcp23008/Writes.antt =====
-- What `Set` and `SetDirection` of mcp23008.go do to the chip behind the bus.
use local_worker.Common.{
  ℕ, ◌+◌, ◌-◌, ◌^◌, ◌<◌, ◌==◌, if◌then◌else◌, Bool, ◌≡◌, refl, ap, ◌∙◌, Ends, arith, bit_and, ok,
  true, false,
}
use local_worker.Common.Bits.{has_bit, put_bit, has_bit-put_bit, put_bit-lt, put_bit-put_bit}
use local_worker.Bridge.{Host, I2cBus, on_active}
use local_worker.Bridge.Runs.{SameRegs, ChipOn}
use local_worker.Bridge.Updates.{update_write, Updated, update_write-meets}
use local_worker.Devices.{PinDirection, input, output}
use local_worker.Devices.Mcp23008.{
  Mcp23008, reg_iodir, reg_gpio, bit_mask, put_direction, set, set_direction,
}

-- The driver's copies agree with the chip.
pub record Sync {W : Type 0} (reg : W → ℕ → ℕ) (a : ℕ) (s : Host Mcp23008 W) : Type 0 where
  pub address : s.driver.address ≡ a
  pub iodir_byte : s.driver.iodir < 256
  pub value_byte : s.driver.value < 256
  pub iodir_reg : reg s.world reg_iodir ≡ s.driver.iodir
  pub value_reg : reg s.world reg_gpio ≡ s.driver.value

-- The eight pins of a register: pin `i + 1` has bit `i`, and after a write of `v` to it the others
-- are as before.
abbrev pub PinWritten : ℕ → Bool → ℕ → ℕ → Type 0
PinWritten i v x y = (q : ℕ) → q < 8 → has_bit y (2 ^ q) ≡ (if i == q then v else has_bit x (2 ^ q))

pub bit_mask_pin : (i : ℕ) → i < 8 → bit_mask (i + 1) ≡ ok (2 ^ i)
unfolding bit_mask
bit_mask_pin i h = let e : i + 1 - 1 ≡ i = omega arith in rw e (ground arith)

abbrev pub is_input : PinDirection → Bool
is_input input = true
is_input output = false

put_direction-put_bit :
    (p : PinDirection) (mask : ℕ) (d : Mcp23008)
    → put_direction p mask d ≡ record d { iodir = put_bit (is_input p) d.iodir mask }
put_direction-put_bit input mask d = refl
put_direction-put_bit output mask d = refl

set_value : Bool → ℕ → Mcp23008 → Mcp23008
set_value v i d = record d { value = put_bit v d.value (2 ^ i) }

put_direction-put_direction :
    (p : PinDirection) (i : ℕ) (d : Mcp23008)
    → i < 8
    → d.iodir < 256
    → put_direction p (2 ^ i) (put_direction p (2 ^ i) d) ≡ put_direction p (2 ^ i) d
put_direction-put_direction input i d hi hd =
    ap (λ x. record d { iodir = x }) (put_bit-put_bit true d.iodir i hd hi)
put_direction-put_direction output i d hi hd =
    ap (λ x. record d { iodir = x }) (put_bit-put_bit false d.iodir i hd hi)

module _ {W : Type 0} {reg : W → ℕ → ℕ} {a : ℕ} (s t : Host Mcp23008 W) (i : ℕ) (hi : i < 8)
    (sync : Sync reg a s) where
  value_written :
      (v : Bool)
      → Updated reg (set_value v i) reg_gpio (λ d. d.value) (on_active s).1 t
      → Sync reg a t
        × PinWritten i v (reg s.world reg_gpio) (reg t.world reg_gpio)
        × (reg t.world reg_iodir ≡ reg s.world reg_iodir)
  unfolding set_value on_active
  value_written v u =
      let value : reg t.world reg_gpio ≡ put_bit v s.driver.value (2 ^ i) = u.regs reg_gpio in
      let iodir : reg t.world reg_iodir ≡ reg s.world reg_iodir = u.regs reg_iodir in
      let byte = put_bit-lt v s.driver.value i sync.value_byte hi in
      (
        record {
          address = ap (λ d. d.address) u.driver ∙ sync.address;
          iodir_byte = ground (arith, u.driver);
          value_byte = ground (arith, u.driver, byte);
          iodir_reg = ground (arith, u.driver);
          value_reg = ground (arith, u.driver);
        },
        λ q hq. ground (arith, has_bit-put_bit v s.driver.value i q sync.value_byte hi hq),
        iodir,
      )

  direction_written :
      (p : PinDirection)
      → Updated reg (put_direction p (2 ^ i)) reg_iodir (λ d. d.iodir) (on_active s).1 t
      → Sync reg a t
        × PinWritten i (is_input p) (reg s.world reg_iodir) (reg t.world reg_iodir)
        × (reg t.world reg_gpio ≡ reg s.world reg_gpio)
  unfolding on_active
  direction_written p u =
      let iodir : reg t.world reg_iodir ≡ put_bit (is_input p) s.driver.iodir (2 ^ i) =
        u.regs reg_iodir ∙ ap (λ d. d.iodir) (put_direction-put_bit p (2 ^ i) s.driver) in
      let value : reg t.world reg_gpio ≡ reg s.world reg_gpio = u.regs reg_gpio in
      let byte = put_bit-lt (is_input p) s.driver.iodir i sync.iodir_byte hi in
      let driver : t.driver
          ≡ record s.driver { iodir = put_bit (is_input p) s.driver.iodir (2 ^ i) } =
        u.driver ∙ put_direction-put_bit p (2 ^ i) s.driver in
      (
        record {
          address = ap (λ d. d.address) driver ∙ sync.address;
          iodir_byte = ground (arith, byte);
          value_byte = ground arith;
          iodir_reg = ground arith;
          value_reg = ground arith;
        },
        λ q hq.
            ground (arith, has_bit-put_bit (is_input p) s.driver.iodir i q sync.iodir_byte hi hq),
        value,
      )

module _ {W : Type 0} (bus : I2cBus Mcp23008 W) where
  set_lem :
      (i : ℕ) (v : Bool) (s : Host Mcp23008 W) {a : ℕ}
      → s.driver.address ≡ a
      → i < 8
      → bit_and s.driver.iodir (2 ^ i) ≡ 0
      → set bus (i + 1) v s
        ≡ bus.execute Unit a (update_write (set_value v i) reg_gpio (λ d. d.value)) (on_active s).1
  unfolding set on_active set_value
  set_lem i v s e hi out =
      rw (bit_mask_pin i hi, out)
        (ap
          (λ x.
            bus.execute Unit x (update_write (set_value v i) reg_gpio (λ d. d.value))
              (on_active s).1)
          e)

  set_direction_lem :
      (i : ℕ) (p : PinDirection) (s : Host Mcp23008 W) {a : ℕ}
      → s.driver.address ≡ a
      → i < 8
      → set_direction bus (i + 1) p s
        ≡ bus.execute Unit a
            (update_write (put_direction p (2 ^ i)) reg_iodir (λ d. d.iodir))
            (on_active s).1
  unfolding set_direction on_active
  set_direction_lem i p s e hi = rw (bit_mask_pin i hi) (
      ap
        (λ x.
          bus.execute Unit x (update_write (put_direction p (2 ^ i)) reg_iodir (λ d. d.iodir))
            (on_active s).1)
        e)

module _ {W : Type 0} (bus : I2cBus Mcp23008 W) (a : ℕ) (reg : W → ℕ → ℕ) (stored : ℕ → Bool)
    (chip : ChipOn bus a reg stored) where
  -- On a bus where a register chip answers at the driver's address, with copies that agree with the
  -- chip: `Set` of an output pin from 1 to 8, if it succeeds, gives the pin's bit of the GPIO
  -- register the value and leaves the other seven bits and the direction register as they were, and
  -- the copies agree again. If it fails, no register of the chip has changed.
  pub set-Ends :
      (i : ℕ) (v : Bool) (s : Host Mcp23008 W)
      → i < 8
      → Sync reg a s
      → bit_and s.driver.iodir (2 ^ i) ≡ 0
      → Ends
          (λ _ t.
            Sync reg a t
            × PinWritten i v (reg s.world reg_gpio) (reg t.world reg_gpio)
            × (reg t.world reg_iodir ≡ reg s.world reg_iodir))
          (λ t. SameRegs reg s.world t.world)
          (set bus (i + 1) v s)
  unfolding set_value on_active
  set-Ends i v s hi sync out = rw (set_lem bus i v s sync.address hi out) (
      update_write-meets reg (set_value v i) reg_gpio (λ d. d.value) (on_active s).1
        (ap (λ x. record s.driver { value = x })
          (put_bit-put_bit v s.driver.value i sync.value_byte hi))
        bus a chip _ _ (λ t. value_written s t i hi sync v) (λ t u. u.regs))

  -- On a bus where a register chip answers at the driver's address, with copies that agree with the
  -- chip: `SetDirection` of a pin from 1 to 8, if it succeeds,
  -- gives the pin's bit of the direction register the direction (1 for input), and leaves the other
  -- seven bits and the GPIO register as they were, and the copies agree again. If it fails, no
  -- register of the chip has changed.
  set_direction-Ends :
      (i : ℕ) (p : PinDirection) (s : Host Mcp23008 W)
      → i < 8
      → Sync reg a s
      → Ends
          (λ _ t.
            Sync reg a t
            × PinWritten i (is_input p) (reg s.world reg_iodir) (reg t.world reg_iodir)
            × (reg t.world reg_gpio ≡ reg s.world reg_gpio))
          (λ t. SameRegs reg s.world t.world)
          (set_direction bus (i + 1) p s)
  unfolding on_active
  set_direction-Ends i p s hi sync = rw (set_direction_lem bus i p s sync.address hi) (
      update_write-meets reg (put_direction p (2 ^ i)) reg_iodir (λ d. d.iodir) (on_active s).1
        (put_direction-put_direction p i s.driver hi sync.iodir_byte) bus a chip _ _
        (λ t. direction_written s t i hi sync p) (λ t u. u.regs))
