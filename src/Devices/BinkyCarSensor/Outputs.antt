-- ===== src/Devices/BinkyCarSensor/Outputs.antt =====
-- What `Set` of binkyCarSensor.go does to the output bytes, and to pin 8.
use local_worker.Common.{
  ℕ, zero, suc, ◌+◌, ◌-◌, ◌*◌, ◌/◌, ◌%◌, ◌^◌, ◌≤◌, ◌<◌, ◌==◌, ltb, if◌then◌else◌, Bool, false, ◌≡◌,
  refl, sym, subst, true, failed, Result, ap, ◌∙◌, some, none, List, [], ◌∷◌, length, get_elem?,
  set as set_at, ok, err, Error, Ends, arith,
}
use local_worker.Common.Bits.{put_bit, put_bit-put_bit}
use local_worker.Bridge.{Host, I2cBus}
use local_worker.Bridge.Runs.{SameRegs, ChipOn, Runs-rule}
use local_worker.Bridge.Updates.{update_write, update_write-meets}
use local_worker.Devices.BinkyCarSensor.{
  BinkyCarSensor, bit_mask, byte_at, put_output, set_output, set, reg_output,
}

byte_at-get_elem? : (xs : List ℕ) (i : ℕ) → i < length xs → get_elem? xs i ≡ some (byte_at xs i)
byte_at-get_elem? [] i h = absurd (omega arith)
byte_at-get_elem? (x ∷ xs) zero h = refl
byte_at-get_elem? (x ∷ xs) (suc i) h = byte_at-get_elem? xs i (omega (arith, h))

get_elem?-beyond : (xs : List ℕ) (i : ℕ) → length xs ≤ i → get_elem? xs i ≡ none
get_elem?-beyond [] i h = refl
get_elem?-beyond (x ∷ xs) zero h = absurd (omega arith)
get_elem?-beyond (x ∷ xs) (suc i) h = get_elem?-beyond xs i (omega (arith, h))

byte_at-set_at :
    (xs : List ℕ) (i v j : ℕ)
    → i < length xs
    → byte_at (set_at xs i v) j ≡ (if i == j then v else byte_at xs j)
byte_at-set_at [] i v j h = absurd (omega arith)
byte_at-set_at (x ∷ xs) zero v zero h = refl
byte_at-set_at (x ∷ xs) zero v (suc j) h = ground arith
byte_at-set_at (x ∷ xs) (suc i) v zero h = ground arith
byte_at-set_at (x ∷ xs) (suc i) v (suc j) h =
    ground (arith, byte_at-set_at xs i v j (omega (arith, h)))

set_at-set_at : (xs : List ℕ) (i v w : ℕ) → set_at (set_at xs i v) i w ≡ set_at xs i w
set_at-set_at [] i v w = refl
set_at-set_at (x ∷ xs) zero v w = refl
set_at-set_at (x ∷ xs) (suc i) v w = ap (λ l. x ∷ l) (set_at-set_at xs i v w)

-- Bit `b` of output byte `k` is the pin `8 k + b + 9`.
bit_mask_output :
    (pins k b : ℕ)
    → k < 9
    → b < 8
    → k * 8 + b + 9 ≤ pins
    → bit_mask pins (k * 8 + b + 9) ≡ ok (k, 2 ^ b)
unfolding bit_mask
bit_mask_output pins k b hk hb hp =
    let e0 : ((k * 8 + b + 9 - 1) / 8 % 256 + 255) % 256 ≡ k = omega arith in
    let e1 : (k * 8 + b + 9 - 1) % 8 ≡ b = omega arith in rw (e0, e1) (ground arith)

put_output-put_output :
    (v : Bool) (k b : ℕ) (d : BinkyCarSensor)
    → k < length d.output_data
    → b < 8
    → byte_at d.output_data k < 256
    → put_output v k (2 ^ b) (put_output v k (2 ^ b) d) ≡ put_output v k (2 ^ b) d
put_output-put_output v k b d hk hb byte =
    let x = byte_at d.output_data k in
    let y = put_bit v x (2 ^ b) in
    let e : byte_at (set_at d.output_data k y) k ≡ y =
      byte_at-set_at d.output_data k y k hk ∙ ground arith in
    ap (λ l. record d { output_data = l })
      (set_at-set_at d.output_data k y _
        ∙ ap (λ z. set_at d.output_data k (put_bit v z (2 ^ b))) e
        ∙ ap (λ z. set_at d.output_data k z) (put_bit-put_bit v x b byte hb))

module _ {W : Type 0} (bus : I2cBus BinkyCarSensor W) where
  set_lem :
      (k b : ℕ) (v : Bool) (s : Host BinkyCarSensor W) {a : ℕ}
      → s.driver.address ≡ a
      → k < 9
      → b < 8
      → k * 8 + b + 9 ≤ s.driver.pins
      → k < length s.driver.output_data
      → set bus (k * 8 + b + 9) v s
        ≡ bus.execute Unit a
            (update_write (put_output v k (2 ^ b)) (reg_output + k) (λ d. byte_at d.output_data k))
            s
  unfolding set set_output
  set_lem k b v s e hk hb hp hl =
      let low : ltb (k * 8 + b + 9) 8 ≡ false = ground arith in
      let r : (0x20 + k) % 256 ≡ 0x20 + k = omega arith in
      rw
        (
          low,
          bit_mask_output s.driver.pins k b hk hb hp,
          byte_at-get_elem? s.driver.output_data k hl,
          r,
        )
        (ap
          (λ x.
            bus.execute Unit x
              (update_write (put_output v k (2 ^ b)) (reg_output + k)
                (λ d. byte_at d.output_data k))
              s)
          e)

  index_lem :
      (v : Bool) (s : Host BinkyCarSensor W) {a : ℕ}
      → s.driver.address ≡ a
      → 8 ≤ s.driver.pins
      → length s.driver.output_data < 256
      → set bus 8 v s ≡ bus.execute Unit a (λ dev t. (err Error.panic, t)) s
  unfolding set set_output bit_mask
  index_lem v s e hp hl =
      let high : ltb s.driver.pins 8 ≡ false = ground arith in
      rw (high, get_elem?-beyond s.driver.output_data 255 (omega (arith, hl)))
        (ap (λ x. bus.execute Unit x (λ dev t. (err Error.panic, t)) s) e)

  module _ (a : ℕ) (reg : W → ℕ → ℕ) (stored : ℕ → Bool) (chip : ChipOn bus a reg stored) where
    -- On a bus where a register chip answers at the driver's address: `Set` of pin `8 k + b + 9`, within
    -- the pins of the device and with output byte `k` in the driver, if it succeeds, gives bit `b` of
    -- the byte the value, in the driver and in register `0x20 + k`, and leaves the other bytes and
    -- registers as they were. If it fails, no register has changed.
    pub set-Updated :
        (k b : ℕ) (v : Bool) (s : Host BinkyCarSensor W)
        → k < 9
        → b < 8
        → k * 8 + b + 9 ≤ s.driver.pins
        → k < length s.driver.output_data
        → byte_at s.driver.output_data k < 256
        → s.driver.address ≡ a
        → Ends
            (λ _ t.
              ((j : ℕ)
                → byte_at t.driver.output_data j ≡ (
                    if k == j
                    then put_bit v (byte_at s.driver.output_data k) (2 ^ b)
                    else byte_at s.driver.output_data j))
              × ((q : ℕ)
                  → reg t.world q ≡ (
                      if 0x20 + k == q
                      then put_bit v (byte_at s.driver.output_data k) (2 ^ b)
                      else reg s.world q)))
            (λ t. SameRegs reg s.world t.world)
            (set bus (k * 8 + b + 9) v s)
    set-Updated k b v s hk hb hp hl byte e =
        let y = put_bit v (byte_at s.driver.output_data k) (2 ^ b) in
        let here : byte_at (set_at s.driver.output_data k y) k ≡ y =
          byte_at-set_at s.driver.output_data k y k hl ∙ ground arith in
        rw (set_lem k b v s e hk hb hp hl) (
          update_write-meets reg (put_output v k (2 ^ b)) (reg_output + k)
            (λ d. byte_at d.output_data k) s (put_output-put_output v k b s.driver hl hb byte) bus a
            chip _ _
            (λ t u. (
              (λ j.
                  ap (λ d. byte_at d.output_data j) u.driver
                  ∙ byte_at-set_at s.driver.output_data k y j hl),
              (λ q. u.regs q ∙ ap (λ z. if 0x20 + k == q then z else reg s.world q) here),
            ))
            (λ t u. u.regs))

    -- On a bus where a register chip answers at the driver's address, for the first pin behind the
    -- inputs, pin 8, on a device with at least 8 pins and fewer than 256 output bytes: `Set` never
    -- succeeds, and changes neither a register nor an output byte.
    pub set-pin_8 :
        (v : Bool) (s : Host BinkyCarSensor W)
        → 8 ≤ s.driver.pins
        → length s.driver.output_data < 256
        → s.driver.address ≡ a
        → (failed (set bus 8 v s).0 ≡ true)
          × ((set bus 8 v s).1.driver ≡ s.driver)
          × SameRegs reg s.world (set bus 8 v s).1.world
    set-pin_8 v s hp hl e = subst Left (sym (index_lem v s e hp hl)) (
        outcome (bus.execute Unit a (λ dev t. (err Error.panic, t)) s) (
          Runs-rule (λ t. (t.driver ≡ s.driver) × SameRegs reg s.world t.world) (λ _ _. ⊥)
            (λ t w same i. (i.0, λ q. same q ∙ i.1 q)) (λ dev t d i. i)
            (chip.runs Unit (λ dev t. (err Error.panic, t)) s) (refl, λ q. refl)))
      where
        Left : Result (Unit {0}) × Host BinkyCarSensor W → Type 0
        Left out =
            (failed out.0 ≡ true) × (out.1.driver ≡ s.driver) × SameRegs reg s.world out.1.world

        outcome :
            (out : Result (Unit {0}) × Host BinkyCarSensor W)
            → Ends (λ _ _. ⊥) (λ t. (t.driver ≡ s.driver) × SameRegs reg s.world t.world) out
            → Left out
        outcome (ok x, t) h = absurd h
        outcome (err x, t) h = (refl, h.0, h.1)
