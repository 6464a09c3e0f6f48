-- ===== src/Devices/Mcp23017/Writes.antt =====
-- What mcp23017.go does to the chip behind the bus. Bit `b` of bank `o` is pin `o * 8 + b + 1`.
use local_worker.Common.{
  ℕ, zero, suc, ◌+◌, ◌-◌, ◌*◌, ◌^◌, ◌<◌, ◌==◌, if◌then◌else◌, ◌&&◌, Bool, ◌≡◌, ap, ◌∙◌, ok, Ends,
  arith, bit_and,
}
use local_worker.Common.Bits.{has_bit, put_bit, has_bit-put_bit, put_bit-lt, put_bit-put_bit}
use local_worker.Bridge.{Host, I2cBus, on_active}
use local_worker.Bridge.Runs.{SameRegs, ChipOn}
use local_worker.Bridge.Updates.{update_write, Updated, update_write-meets}
use local_worker.Devices.Mcp23017.{
  Banks, nth, set_nth, Mcp23017, reg_iodira, reg_gpioa, bit_mask, set,
}

-- The driver's copies agree with the chip.
pub record Sync {W : Type 0} (reg : W → ℕ → ℕ) (a : ℕ) (s : Host Mcp23017 W) : Type 0 where
  pub address : s.driver.address ≡ a
  pub value_byte : (o : ℕ) → nth s.driver.value o < 256
  pub iodir_reg : (o : ℕ) → o < 2 → reg s.world (reg_iodira + o) ≡ nth s.driver.iodir o
  pub value_reg : (o : ℕ) → o < 2 → reg s.world (reg_gpioa + o) ≡ nth s.driver.value o

-- The pins of both GPIO registers after a write of `v` to bit `b` of bank `o`.
abbrev pub BankWritten : ℕ → ℕ → Bool → (ℕ → ℕ) → (ℕ → ℕ) → Type 0
BankWritten o b v x y =
    (o' b' : ℕ)
    → o' < 2
    → b' < 8
    → has_bit (y (reg_gpioa + o')) (2 ^ b')
      ≡ (if o == o' && b == b' then v else has_bit (x (reg_gpioa + o')) (2 ^ b'))

bit_mask_pin : (o b : ℕ) → o < 2 → b < 8 → bit_mask (o * 8 + b + 1) ≡ ok (2 ^ b, o)
unfolding bit_mask
bit_mask_pin zero b ho hb = let e : 0 * 8 + b + 1 - 1 ≡ b = omega arith in rw e (ground arith)
bit_mask_pin (suc zero) b ho hb = let e : 1 * 8 + b + 1 - 9 ≡ b = omega arith in rw e (ground arith)
bit_mask_pin (suc (suc o)) b ho hb = absurd (omega arith)

set_value : Bool → ℕ → ℕ → Mcp23017 → Mcp23017
set_value v o b d = record d { value = set_nth d.value o (put_bit v (nth d.value o) (2 ^ b)) }

nth-set_nth :
    (x : Banks) (o v q : ℕ)
    → o < 2
    → q < 2
    → nth (set_nth x o v) q ≡ (if o == q then v else nth x q)
nth-set_nth x o v q ho hq = ground arith

set_value-set_value :
    (v : Bool) (o b : ℕ) (d : Mcp23017)
    → b < 8
    → nth d.value o < 256
    → set_value v o b (set_value v o b d) ≡ set_value v o b d
unfolding set_value
set_value-set_value v o b d hb hd = ground (arith, put_bit-put_bit v (nth d.value o) b hd hb)

module _ {W : Type 0} {reg : W → ℕ → ℕ} {a : ℕ} (s t : Host Mcp23017 W) (o b : ℕ) (ho : o < 2)
    (hb : b < 8) (sync : Sync reg a s) where
  bank_reg :
      (v : Bool) (q : ℕ)
      → Updated reg (set_value v o b) (reg_gpioa + o) (λ d. nth d.value o) (on_active s).1 t
      → q < 2
      → reg t.world (reg_gpioa + q)
        ≡ (if o == q then put_bit v (nth s.driver.value o) (2 ^ b) else reg s.world (reg_gpioa + q))
  unfolding set_value on_active
  bank_reg v q u hq = ground (
    arith,
    u.regs (reg_gpioa + q),
    nth-set_nth s.driver.value o (put_bit v (nth s.driver.value o) (2 ^ b)) o ho ho,
  )

  value_written :
      (v : Bool)
      → Updated reg (set_value v o b) (reg_gpioa + o) (λ d. nth d.value o) (on_active s).1 t
      → Sync reg a t
        × ((o' b' : ℕ)
            → o' < 2
            → b' < 8
            → has_bit (reg t.world (reg_gpioa + o')) (2 ^ b')
              ≡ (if o == o' && b == b' then v else has_bit (reg s.world (reg_gpioa + o')) (2 ^ b')))
  unfolding set_value on_active
  value_written v u = (
    record {
      address = ap (λ d. d.address) u.driver ∙ sync.address;
      value_byte = λ q. ground (
        arith,
        ap (λ d. d.value) u.driver,
        sync.value_byte o,
        sync.value_byte q,
        put_bit-lt v (nth s.driver.value o) b (sync.value_byte o) hb,
      );
      iodir_reg = λ q hq.
          ground (arith, ap (λ d. d.iodir) u.driver, sync.iodir_reg q hq, u.regs (reg_iodira + q));
      value_reg = λ q hq. ground (
        arith,
        bank_reg v q u hq,
        ap (λ d. d.value) u.driver,
        sync.value_reg q hq,
        nth-set_nth s.driver.value o (put_bit v (nth s.driver.value o) (2 ^ b)) q ho hq,
      );
    },
    λ o' b' ho' hb'. ground (
      arith,
      bank_reg v o' u ho',
      sync.value_reg o ho,
      has_bit-put_bit v (nth s.driver.value o) b b' (sync.value_byte o) hb hb',
    ),
  )

module _ {W : Type 0} (bus : I2cBus Mcp23017 W) where
  set_lem :
      (o b : ℕ) (v : Bool) (s : Host Mcp23017 W) {a : ℕ}
      → s.driver.address ≡ a
      → o < 2
      → b < 8
      → bit_and (nth s.driver.iodir o) (2 ^ b) ≡ 0
      → set bus (o * 8 + b + 1) v s
        ≡ bus.execute Unit a
            (update_write (set_value v o b) (reg_gpioa + o) (λ d. nth d.value o))
            (on_active s).1
  unfolding set on_active set_value
  set_lem o b v s e ho hb out =
      rw (bit_mask_pin o b ho hb, out)
        (ap
          (λ x.
            bus.execute Unit x (update_write (set_value v o b) (reg_gpioa + o) (λ d. nth d.value o))
              (on_active s).1)
          e)

module _ {W : Type 0} (bus : I2cBus Mcp23017 W) (a : ℕ) (reg : W → ℕ → ℕ) (stored : ℕ → Bool)
    (chip : ChipOn bus a reg stored) where
  -- On a bus where a register chip answers at the driver's address, with copies that agree with the
  -- chip: `Set` of an output pin (pin `8 o + b + 1` is bit `b` of bank `o`), if it succeeds, gives that
  -- bit of the bank's GPIO register the value and leaves the other bits of both banks as they were,
  -- and the copies agree again. If it fails, no register of the chip has changed.
  pub set-Ends_of_bank :
      (o b : ℕ) (v : Bool) (s : Host Mcp23017 W)
      → o < 2
      → b < 8
      → Sync reg a s
      → bit_and (nth s.driver.iodir o) (2 ^ b) ≡ 0
      → Ends
          (λ _ t. Sync reg a t × BankWritten o b v (reg s.world) (reg t.world))
          (λ t. SameRegs reg s.world t.world)
          (set bus (o * 8 + b + 1) v s)
  unfolding on_active
  set-Ends_of_bank o b v s ho hb sync out = rw (set_lem bus o b v s sync.address ho hb out) (
      update_write-meets reg (set_value v o b) (reg_gpioa + o) (λ d. nth d.value o) (on_active s).1
        (set_value-set_value v o b s.driver hb (sync.value_byte o)) bus a chip _ _
        (λ t. value_written s t o b ho hb sync v) (λ t u. u.regs))
