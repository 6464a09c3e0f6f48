-- ===== src/Devices/Mcp23008/Setup.antt =====
-- What `Configure` of mcp23008.go leaves, and what `GetDirection` reads.
use local_worker.Common.{
  Ends-mono, Ends-bind, and_then, pure, ◌>>◌, subst, sym, [], ◌∷◌, ℕ, ◌+◌, ◌^◌, ◌<◌, ◌==◌,
  if◌then◌else◌, Bool, ◌≡◌, refl, ap, Ends, arith, bit_and, true,
}
use local_worker.Common.Bits.{has_bit}
use local_worker.Bridge.{Host, I2cBus, on_active, on_world, modify_driver}
use local_worker.Bridge.Runs.{SameRegs, ChipOn}
use local_worker.Bridge.Sequences.{write_regs, write_all-Ends, WasRead, Unread, read_reg-Ends}
use local_worker.Devices.{input, output}
use local_worker.Devices.Mcp23008.{
  Mcp23008, reg_iocon, reg_iodir, reg_gpio, configure, get_direction,
}
use local_worker.Devices.Mcp23008.Writes.{bit_mask_pin, is_input}

all_input : Mcp23008 → Mcp23008
all_input d = record d { iodir = 0xff }

module _ {W : Type 0} (bus : I2cBus Mcp23008 W) where
  configure_lem :
      (s : Host Mcp23008 W) {a : ℕ}
      → s.driver.address ≡ a
      → configure bus s
        ≡ bus.execute Unit a
            (λ dev.
              modify_driver all_input
              >> write_regs reg_iocon (λ _. 0x20) ((reg_iodir, (λ d. d.iodir)) ∷ []) dev)
            (on_active s).1
  unfolding configure on_active all_input
  configure_lem s e =
      ap
        (λ x.
          bus.execute Unit x
            (λ dev.
              modify_driver all_input
              >> write_regs reg_iocon (λ _. 0x20) ((reg_iodir, (λ d. d.iodir)) ∷ []) dev)
            (on_active s).1)
        e

module _ {W : Type 0} (bus : I2cBus Mcp23008 W) (a : ℕ) (reg : W → ℕ → ℕ) (stored : ℕ → Bool)
    (chip : ChipOn bus a reg stored) where
  -- On a bus where a register chip answers at the driver's address, `Configure`, if it succeeds,
  -- makes every pin an input, in the chip and in the driver's copy; whether it succeeds or not, the
  -- GPIO register stays as it was, and after a success so does the driver's copy of it, which need
  -- not agree with the register.
  pub configure-Ends :
      (s : Host Mcp23008 W)
      → s.driver.address ≡ a
      → Ends
          (λ _ t.
            (t.driver.iodir ≡ 0xff)
            × (reg t.world reg_iodir ≡ 0xff)
            × (t.driver.value ≡ s.driver.value)
            × (reg t.world reg_gpio ≡ reg s.world reg_gpio))
          (λ t. reg t.world reg_gpio ≡ reg s.world reg_gpio)
          (configure bus s)
  unfolding configure on_active all_input
  configure-Ends s e = rw (configure_lem bus s e) (
      Ends-mono
        (bus.execute Unit a
          (λ dev.
            modify_driver all_input
            >> write_regs reg_iocon (λ _. 0x20) ((reg_iodir, (λ d. d.iodir)) ∷ []) dev)
          (on_active s).1)
        (write_all-Ends reg all_input reg_iocon (λ _. 0x20) ((reg_iodir, (λ d. d.iodir)) ∷ [])
          (on_active s).1 bus a chip refl)
        (λ _ t u. (
          ap (λ d. d.iodir) u.driver,
          u.regs reg_iodir,
          ap (λ d. d.value) u.driver,
          u.regs reg_gpio,
        ))
        (λ t u. u.regs reg_gpio refl))

  -- On a bus where a register chip answers at the driver's address whose direction register reads
  -- back as written, `GetDirection` of a pin from 1 to 8, if it succeeds, yields the direction that the
  -- pin's bit of that register stands for; no register changes, whether it succeeds or not.
  get_direction-Ends :
      (i : ℕ) (s : Host Mcp23008 W)
      → i < 8
      → s.driver.address ≡ a
      → stored reg_iodir ≡ true
      → Ends
          (λ p t.
            (is_input p ≡ has_bit (reg s.world reg_iodir) (2 ^ i)) × SameRegs reg s.world t.world)
          (λ t. SameRegs reg s.world t.world)
          (get_direction bus (i + 1) s)
  unfolding get_direction
  get_direction-Ends i s hi e st = rw (bit_mask_pin i hi) (
      subst
        (λ x.
          Ends
            (λ p t.
              (is_input p ≡ has_bit (reg s.world reg_iodir) (2 ^ i)) × SameRegs reg s.world t.world)
            (λ t. SameRegs reg s.world t.world)
            (and_then (λ value. pure (if bit_and value (2 ^ i) == 0 then output else input))
              (bus.execute ℕ x (λ dev. on_world (dev.read_byte_reg reg_iodir)) s)))
        (sym e)
        (Ends-bind (WasRead reg reg_iodir s stored) (Unread reg reg_iodir s) _ _
          (λ value. pure (if bit_and value (2 ^ i) == 0 then output else input))
          (bus.execute ℕ a (λ dev. on_world (dev.read_byte_reg reg_iodir)) s)
          (read_reg-Ends reg reg_iodir s bus a chip) (λ v t h. (ground (arith, h.0 st), h.2))
          (λ t h. h.1)))
