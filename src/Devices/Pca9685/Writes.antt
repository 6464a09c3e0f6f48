-- ===== src/Devices/Pca9685/Writes.antt =====
-- What `SetPWM` of pca9685.go leaves in the registers.
use local_worker.Common.{
  ℕ, ◌+◌, ◌-◌, ◌*◌, ◌/◌, ◌^◌, ◌<◌, ltb, Bool, true, ◌≡◌, refl, ap, [], ◌∷◌, List, bit_and, ok, Ends,
  Ends-mono, arith, ◌>>◌, ◌%◌,
}
use local_worker.Bridge.{Host, I2cBus, on_active, modify_driver}
use local_worker.Bridge.Runs.{ChipOn}
use local_worker.Bridge.Sequences.{write_regs, write_all-Ends}
use local_worker.Devices.Pca9685.{Pca9685, reg_base, off_high_byte, set_pwm}

-- The registers of output `i + 1` hold a 12 bit on and off value and the enabled bit.
pub record Holds (regs : ℕ → ℕ) (i on off : ℕ) (enabled : Bool) : Type 0 where
  pub on_low : regs (6 + i * 4) ≡ bit_and on 0xff
  pub on_high : regs (6 + i * 4 + 1) ≡ bit_and (on / 2 ^ 8) 0x0f
  pub off_low : regs (6 + i * 4 + 2) ≡ bit_and off 0xff
  pub off_high : regs (6 + i * 4 + 3) ≡ off_high_byte enabled off

pub reg_base_output : (i : ℕ) → i < 16 → reg_base (i + 1) ≡ ok (6 + i * 4)
unfolding reg_base
reg_base_output i h = let e : i + 1 - 1 ≡ i = omega arith in rw e (ground arith)

abbrev pwm_writes : ℕ → ℕ → ℕ → Bool → List (ℕ × (Pca9685 → ℕ))
pwm_writes i on off enabled =
    (6 + i * 4 + 1, λ _. bit_and (on / 2 ^ 8) 0x0f)
    ∷ (6 + i * 4 + 2, λ _. bit_and off 0xff)
    ∷ (6 + i * 4 + 3, λ _. off_high_byte enabled off)
    ∷ []

module _ {W : Type 0} (bus : I2cBus Pca9685 W) (a : ℕ) (reg : W → ℕ → ℕ) (stored : ℕ → Bool)
    (chip : ChipOn bus a reg stored) where
  set_pwm_lem :
      (i on off : ℕ) (enabled final_state : Bool) (s : Host Pca9685 W)
      → i < 16
      → s.driver.address ≡ a
      → set_pwm bus (i + 1) on off enabled final_state s
        ≡ bus.execute Unit a
            (λ dev.
              modify_driver (λ d. d)
              >> write_regs (6 + i * 4) (λ _. bit_and on 0xff) (pwm_writes i on off enabled) dev)
            (on_active s).1
  unfolding set_pwm on_active
  set_pwm_lem i on off enabled final s hi e =
      let e0 : (6 + i * 4 + 0) % 256 ≡ 6 + i * 4 = omega arith in
      let e1 : (6 + i * 4 + 1) % 256 ≡ 6 + i * 4 + 1 = omega arith in
      let e2 : (6 + i * 4 + 2) % 256 ≡ 6 + i * 4 + 2 = omega arith in
      let e3 : (6 + i * 4 + 3) % 256 ≡ 6 + i * 4 + 3 = omega arith in
      rw (reg_base_output i hi, e0, e1, e2, e3)
        (ap
          (λ x.
            bus.execute Unit x
              (λ dev.
                modify_driver (λ d. d)
                >> write_regs (6 + i * 4) (λ _. bit_and on 0xff) (pwm_writes i on off enabled) dev)
              (on_active s).1)
          e)

  -- On a bus where a register chip answers at the driver's address: `SetPWM` of an output from 1 to 16,
  -- if it succeeds, leaves in the output's four registers the on and the off value and the bit for
  -- fully off, which is set exactly when the output is not enabled; whether it succeeds or fails, it
  -- changes no register below or above those four.
  pub set_pwm-Ends :
      (i on off : ℕ) (enabled final_state : Bool) (s : Host Pca9685 W)
      → i < 16
      → s.driver.address ≡ a
      → Ends
          (λ _ t.
            (t.driver ≡ s.driver)
            × Holds (reg t.world) i on off enabled
            × ((q : ℕ) → ltb q (6 + i * 4) ≡ true → reg t.world q ≡ reg s.world q)
            × ((q : ℕ) → ltb (6 + i * 4 + 3) q ≡ true → reg t.world q ≡ reg s.world q))
          (λ t.
            (t.driver ≡ s.driver)
            × ((q : ℕ) → ltb q (6 + i * 4) ≡ true → reg t.world q ≡ reg s.world q)
            × ((q : ℕ) → ltb (6 + i * 4 + 3) q ≡ true → reg t.world q ≡ reg s.world q))
          (set_pwm bus (i + 1) on off enabled final_state s)
  unfolding on_active
  set_pwm-Ends i on off enabled final s hi e = rw (set_pwm_lem i on off enabled final s hi e) (
      Ends-mono
        (bus.execute Unit a
          (λ dev.
            modify_driver (λ d. d)
            >> write_regs (6 + i * 4) (λ _. bit_and on 0xff) (pwm_writes i on off enabled) dev)
          (on_active s).1)
        (write_all-Ends reg (λ d. d) (6 + i * 4) (λ _. bit_and on 0xff)
          (pwm_writes i on off enabled) (on_active s).1 bus a chip refl)
        (λ _ t u. (
          u.driver,
          record {
            on_low = ground (arith, u.regs (6 + i * 4));
            on_high = ground (arith, u.regs (6 + i * 4 + 1));
            off_low = ground (arith, u.regs (6 + i * 4 + 2));
            off_high = ground (arith, u.regs (6 + i * 4 + 3));
          },
          (λ q h. ground (arith, u.regs q)),
          (λ q h. ground (arith, u.regs q)),
        ))
        (λ t u. (
          ground (arith, u.driver),
          (λ q h. u.regs q (ground arith)),
          (λ q h. u.regs q (ground arith)),
        )))
