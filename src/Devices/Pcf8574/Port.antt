-- ===== src/Devices/Pcf8574/Port.antt =====
-- What pcf8574.go writes to the port of the chip.
use local_worker.Common.{
  ℕ, ◌+◌, ◌-◌, ◌^◌, ◌<◌, ◌==◌, if◌then◌else◌, Bool, true, false, ◌≡◌, refl, sym, ap, ◌∙◌, ok, Ends,
  Ends-mono, arith,
}
use local_worker.Common.Bits.{has_bit, put_bit, has_bit-put_bit, put_bit-put_bit}
use local_worker.Bridge.{Host, I2cBus, on_active}
use local_worker.Bridge.Ports.{PortOn, port_write, port_write-Ends}
use local_worker.Devices.{PinDirection, input, output}
use local_worker.Devices.Pcf8574.{
  Pcf8574, bit_mask, merge_direction_and_output, put_direction, set_direction, set,
}

abbrev pub is_input : PinDirection → Bool
is_input input = true
is_input output = false

-- Bit `i` of a byte is given the value; its other seven bits are as before.
abbrev BitWritten : ℕ → Bool → ℕ → ℕ → Type 0
BitWritten i v x y = (q : ℕ) → q < 8 → has_bit y (2 ^ q) ≡ (if i == q then v else has_bit x (2 ^ q))

bit_mask_pin : (i : ℕ) → i < 8 → bit_mask (i + 1) ≡ ok (2 ^ i)
unfolding bit_mask
bit_mask_pin i h = let e : i + 1 - 1 ≡ i = omega arith in rw e (ground arith)

set_out : Bool → ℕ → Pcf8574 → Pcf8574
set_out v i d = record d { out = put_bit v d.out (2 ^ i) }

put_direction-put_bit :
    (p : PinDirection) (mask : ℕ) (d : Pcf8574)
    → put_direction p mask d ≡ record d {
      out = put_bit false d.out mask;
      direction = put_bit (is_input p) d.direction mask;
    }
put_direction-put_bit input mask d = refl
put_direction-put_bit output mask d = refl

put_direction-put_direction :
    (p : PinDirection) (i : ℕ) (d : Pcf8574)
    → i < 8
    → d.direction < 256
    → d.out < 256
    → put_direction p (2 ^ i) (put_direction p (2 ^ i) d) ≡ put_direction p (2 ^ i) d
put_direction-put_direction input i d hi hd ho =
    rw (put_bit-put_bit true d.direction i hd hi, put_bit-put_bit false d.out i ho hi) refl
put_direction-put_direction output i d hi hd ho =
    rw (put_bit-put_bit false d.direction i hd hi, put_bit-put_bit false d.out i ho hi) refl

module _ {W : Type 0} (bus : I2cBus Pcf8574 W) where
  set_lem :
      (i : ℕ) (v : Bool) (s : Host Pcf8574 W) {a : ℕ}
      → s.driver.address ≡ a
      → i < 8
      → has_bit s.driver.direction (2 ^ i) ≡ false
      → set bus (i + 1) v s
        ≡ bus.execute Unit a (port_write (set_out v i) merge_direction_and_output) (on_active s).1
  unfolding set set_out on_active
  set_lem i v s e hi out =
      rw (bit_mask_pin i hi, out)
        (ap
          (λ x.
            bus.execute Unit x (port_write (set_out v i) merge_direction_and_output)
              (on_active s).1)
          e)

  set_direction_lem :
      (i : ℕ) (p : PinDirection) (s : Host Pcf8574 W) {a : ℕ}
      → s.driver.address ≡ a
      → i < 8
      → set_direction bus (i + 1) p s
        ≡ bus.execute Unit a
            (port_write (put_direction p (2 ^ i)) merge_direction_and_output)
            (on_active s).1
  unfolding set_direction on_active
  set_direction_lem i p s e hi = rw (bit_mask_pin i hi) (
      ap
        (λ x.
          bus.execute Unit x (port_write (put_direction p (2 ^ i)) merge_direction_and_output)
            (on_active s).1)
        e)

  module _ (a : ℕ) (port : W → ℕ) (chip : PortOn bus a port) where
    -- On a bus where a chip with a port answers at the driver's address: `Set` of an output pin from 1
    -- to 8, if it succeeds, gives the pin's bit of the output copy the value, leaves the other seven
    -- and the direction copy as they were, and leaves in the port the bitwise or of both copies. If it
    -- fails, the port has not changed.
    set-BitWritten :
        (i : ℕ) (v : Bool) (s : Host Pcf8574 W)
        → i < 8
        → s.driver.address ≡ a
        → s.driver.out < 256
        → has_bit s.driver.direction (2 ^ i) ≡ false
        → Ends
            (λ _ t.
              BitWritten i v s.driver.out t.driver.out
              × (t.driver.direction ≡ s.driver.direction)
              × (port t.world ≡ merge_direction_and_output t.driver))
            (λ t. port t.world ≡ port s.world)
            (set bus (i + 1) v s)
    unfolding set_out on_active
    set-BitWritten i v s hi e byte out = rw (set_lem i v s e hi out) (
        Ends-mono
          (bus.execute Unit a (port_write (set_out v i) merge_direction_and_output) (on_active s).1)
          (port_write-Ends port (set_out v i) merge_direction_and_output (on_active s).1 bus a chip
            (ap (λ x. record (s.driver) { out = x }) (put_bit-put_bit v s.driver.out i byte hi)))
          (λ _ t h. (
            (λ q hq.
                ap (λ d. has_bit d.out (2 ^ q)) h.0
                ∙ has_bit-put_bit v s.driver.out i q byte hi hq),
            ap (λ d. d.direction) h.0,
            h.2 ∙ ap merge_direction_and_output (sym h.0),
          ))
          (λ t k. k.2))

    -- On such a bus: `SetDirection` of a pin from 1 to 8, if it succeeds, gives the pin's bit of the
    -- direction copy the direction (1 for input) and clears its bit of the output copy, leaves the
    -- other bits of both as they were, and leaves in the port the bitwise or of both copies. If it
    -- fails, the port has not changed.
    set_direction-BitWritten :
        (i : ℕ) (p : PinDirection) (s : Host Pcf8574 W)
        → i < 8
        → s.driver.address ≡ a
        → s.driver.direction < 256
        → s.driver.out < 256
        → Ends
            (λ _ t.
              BitWritten i (is_input p) s.driver.direction t.driver.direction
              × BitWritten i false s.driver.out t.driver.out
              × (port t.world ≡ merge_direction_and_output t.driver))
            (λ t. port t.world ≡ port s.world)
            (set_direction bus (i + 1) p s)
    unfolding on_active
    set_direction-BitWritten i p s hi e dir_byte out_byte = rw (set_direction_lem i p s e hi) (
        Ends-mono
          (bus.execute Unit a (port_write (put_direction p (2 ^ i)) merge_direction_and_output)
            (on_active s).1)
          (port_write-Ends port (put_direction p (2 ^ i)) merge_direction_and_output (on_active s).1
            bus a chip (put_direction-put_direction p i s.driver hi dir_byte out_byte))
          (λ _ t h.
            let written = h.0 ∙ put_direction-put_bit p (2 ^ i) s.driver in
            (
              (λ q hq.
                  ap (λ d. has_bit d.direction (2 ^ q)) written
                  ∙ has_bit-put_bit (is_input p) s.driver.direction i q dir_byte hi hq),
              (λ q hq.
                  ap (λ d. has_bit d.out (2 ^ q)) written
                  ∙ has_bit-put_bit false s.driver.out i q out_byte hi hq),
              h.2 ∙ ap merge_direction_and_output (sym h.0),
            ))
          (λ t k. k.2))
