-- ===== src/Devices/Pca9685/RoundTrip.antt =====
-- What `GetPWM` of pca9685.go reads after `SetPWM`.
use local_worker.Common.{
  ℕ, ◌+◌, ◌*◌, ◌/◌, ◌^◌, ◌<◌, ◌==◌, same_bool, same_bool→eq, ==_iff, not, Bool, true, false, ◌≡◌,
  refl, ap, ◌∙◌, bit_and, bit_or, Ends, Ends-mono, arith, M, pure, ◌>>=◌, ◌%◌,
}
use local_worker.Common.Bits.{has_bit, check_below, check_below_lem}
use local_worker.Bridge.{Host, I2cDevice, I2cBus, on_world}
use local_worker.Bridge.Runs.{ChipOn, RegisterChip, Runs-rule}
use local_worker.Bridge.Sequences.{Unread, read_then}
use local_worker.Devices.Pca9685.{Pca9685, off_high_byte, set_pwm, get_pwm}
use local_worker.Devices.Pca9685.Writes.{Holds, reg_base_output, set_pwm-Ends}

on_value_table :
    check_below 4096
      (λ x. bit_or (bit_and x 0xff) (bit_and (bit_and (x / 2 ^ 8) 0x0f) 0x0f * 2 ^ 8) == x)
    ≡ true
unfolding check_below
on_value_table = refl

off_value_table :
    (e : Bool)
    → check_below 4096
        (λ x. bit_or (bit_and x 0xff) (bit_and (off_high_byte e x) 0x0f * 2 ^ 8) == x)
      ≡ true
unfolding check_below
off_value_table true = refl
off_value_table false = refl

enabled_table :
    (e : Bool) → check_below 4096 (λ x. same_bool (has_bit (off_high_byte e x) 0x10) (not e)) ≡ true
unfolding check_below
enabled_table true = refl
enabled_table false = refl

-- What a register value decodes to.
decoded :
    (on off : ℕ) (e : Bool)
    → on < 4096
    → off < 4096
    → (bit_or (bit_and on 0xff) (bit_and (bit_and (on / 2 ^ 8) 0x0f) 0x0f * 2 ^ 8) ≡ on)
      × (bit_or (bit_and off 0xff) (bit_and (off_high_byte e off) 0x0f * 2 ^ 8) ≡ off)
      × (has_bit (off_high_byte e off) 0x10 ≡ not e)
decoded on off e h k = (
  (==_iff _ _).0 (check_below_lem 4096 _ on on_value_table h),
  (==_iff _ _).0 (check_below_lem 4096 _ off (off_value_table e) k),
  same_bool→eq _ _ (
      check_below_lem 4096 (λ x. same_bool (has_bit (off_high_byte e x) 0x10) (not e)) off
        (enabled_table e) k),
)

abbrev PwmRead : ℕ → ℕ → Bool → ℕ × ℕ × Bool → Type 0
PwmRead on off e x = (x.0 ≡ on) × (x.1 ≡ off) × (x.2 ≡ not e)

abbrev assemble : ℕ → ℕ → ℕ → ℕ → ℕ × ℕ × Bool
assemble on_low on_high off_low off_high = (
  bit_or on_low (bit_and on_high 0x0f * 2 ^ 8),
  bit_or off_low (bit_and off_high 0x0f * 2 ^ 8),
  has_bit off_high 0x10,
)

assemble_decoded :
    {regs : ℕ → ℕ} {i on off : ℕ} {e : Bool} (h : Holds regs i on off e)
    → on < 4096
    → off < 4096
    → (v0 v1 v2 v3 : ℕ) → v0 ≡ regs (6 + i * 4)
    → v1 ≡ regs (6 + i * 4 + 1)
    → v2 ≡ regs (6 + i * 4 + 2)
    → v3 ≡ regs (6 + i * 4 + 3)
    → PwmRead on off e (assemble v0 v1 v2 v3)
assemble_decoded {on = on} {off = off} {e = e} h lo lf v0 v1 v2 v3 e0 e1 e2 e3 =
    rw (e0 ∙ h.on_low, e1 ∙ h.on_high, e2 ∙ h.off_low, e3 ∙ h.off_high) (decoded on off e lo lf)

module _ {W : Type 0} (bus : I2cBus Pca9685 W) (a : ℕ) (reg : W → ℕ → ℕ) (stored : ℕ → Bool)
    (chip : ChipOn bus a reg stored) (reads : (q : ℕ) → stored q ≡ true) where
  abbrev get_op : ℕ → I2cDevice W → M (Host Pca9685 W) (ℕ × ℕ × Bool)
  get_op base dev = do
    on_low ← on_world (dev.read_byte_reg base)
    on_high ← on_world (dev.read_byte_reg (base + 1))
    off_low ← on_world (dev.read_byte_reg (base + 2))
    off_high ← on_world (dev.read_byte_reg (base + 3))
    pure (assemble on_low on_high off_low off_high)

  get_op-Ends :
      (i on off : ℕ) (e : Bool) (s : Host Pca9685 W)
      → Holds (reg s.world) i on off e
      → on < 4096
      → off < 4096
      → (dev : I2cDevice W) (t : Host Pca9685 W) → RegisterChip reg stored dev
      → Unread reg 0 s t
      → Ends
          (λ x u. PwmRead on off e x × Unread reg 0 s u)
          (Unread reg 0 s)
          (get_op (6 + i * 4) dev t)
  get_op-Ends i on off e s h lo lf dev t c u =
      read_then reg stored dev c s (6 + i * 4) G (Unread reg 0 s) _ t u (λ _ x. x)
        λ v0 t0 e0 u0.
          read_then reg stored dev c s (6 + i * 4 + 1) G (Unread reg 0 s) _ t0 u0 (λ _ x. x)
            λ v1 t1 e1 u1.
              read_then reg stored dev c s (6 + i * 4 + 2) G (Unread reg 0 s) _ t1 u1 (λ _ x. x)
                λ v2 t2 e2 u2.
                  read_then reg stored dev c s (6 + i * 4 + 3) G (Unread reg 0 s) _ t2 u2 (λ _ x. x)
                    λ v3 t3 e3 u3. (
                      assemble_decoded h lo lf v0 v1 v2 v3 (e0 (reads _)) (e1 (reads _))
                          (e2 (reads _)) (e3 (reads _)),
                      u3,
                    )
    where
      G : ℕ × ℕ × Bool → Host Pca9685 W → Type 0
      G x u = PwmRead on off e x × Unread reg 0 s u

  get_pwm_lem :
      (i : ℕ) (s : Host Pca9685 W)
      → i < 16
      → s.driver.address ≡ a
      → get_pwm bus (i + 1) s ≡ bus.execute (ℕ × ℕ × Bool) a (get_op (6 + i * 4)) s
  unfolding get_pwm
  get_pwm_lem i s hi e =
      let e0 : (6 + i * 4 + 0) % 256 ≡ 6 + i * 4 = omega arith in
      let e1 : (6 + i * 4 + 1) % 256 ≡ 6 + i * 4 + 1 = omega arith in
      let e2 : (6 + i * 4 + 2) % 256 ≡ 6 + i * 4 + 2 = omega arith in
      let e3 : (6 + i * 4 + 3) % 256 ≡ 6 + i * 4 + 3 = omega arith in
      rw (reg_base_output i hi, e0, e1, e2, e3)
        (ap (λ x. bus.execute (ℕ × ℕ × Bool) x (get_op (6 + i * 4)) s) e)

  -- On a bus where a chip answers at the driver's address whose registers read back as written: after
  -- `SetPWM` of an output from 1 to 16 with two 12 bit values has succeeded, a `GetPWM` of the output
  -- that succeeds yields those values, and the negation of the `enabled` that was set.
  pub get_pwm-set_pwm :
      (i on off : ℕ) (enabled final_state : Bool) (s : Host Pca9685 W)
      → i < 16
      → on < 4096
      → off < 4096
      → s.driver.address ≡ a
      → Ends
          (λ _ t.
            Ends
              (λ x _. (x.0 ≡ on) × (x.1 ≡ off) × (x.2 ≡ not enabled))
              (λ _. Unit {0})
              (get_pwm bus (i + 1) t))
          (λ _. Unit {0})
          (set_pwm bus (i + 1) on off enabled final_state s)
  get_pwm-set_pwm i on off enabled final s hi lo lf e =
      Ends-mono (set_pwm bus (i + 1) on off enabled final s)
        (set_pwm-Ends bus a reg stored chip i on off enabled final s hi e)
        (λ _ t u. rw (get_pwm_lem i t hi (ap (λ d. d.address) u.0 ∙ e)) (
          Ends-mono (bus.execute (ℕ × ℕ × Bool) a (get_op (6 + i * 4)) t)
            (Runs-rule (Unread reg 0 t) (λ x v. PwmRead on off enabled x × Unread reg 0 t v)
              (λ x w same v. (v.0, λ q. same q ∙ v.1 q))
              (λ dev x c v. get_op-Ends i on off enabled t u.1 lo lf dev x c v)
              (chip.runs _ (get_op (6 + i * 4)) t) (refl, λ q. refl))
            (λ _ _ h. h.0) (λ _ _. tt)))
        (λ _ _. tt)
