-- ===== src/Bridge/Updates.antt =====
-- The operation that the GPIO drivers hand to `Execute`: change a field, then write the field to a
-- register. It may be run twice, so the change has to be idempotent.
use local_worker.Common.{
  ℕ, ◌==◌, if◌then◌else◌, ◌≡◌, refl, ◌⊎◌, inl, inr, M, Result, ok, err, ◌>>=◌, ◌>>◌, Ends,
  Ends-mono, arith, Bool, ap, ◌∙◌,
}
use local_worker.Bridge.{Host, I2cDevice, I2cBus, on_world, modify_driver, get_driver, lift_world}
use local_worker.Bridge.Runs.{Runs-rule, RegisterChip, SameRegs, ChipOn}

module _ {D W : Type 0} (f : D → D) (r : ℕ) (p : D → ℕ) where
  abbrev pub update_write : I2cDevice W → M (Host D W) (Unit {0})
  update_write dev = do modify_driver f; d ← get_driver; on_world (dev.write_byte_reg r (p d))

module _ {D W : Type 0} (reg : W → ℕ → ℕ) (f : D → D) (r : ℕ) (p : D → ℕ) (s : Host D W) where
  -- The change has reached the driver and the register, and no other register.
  pub record Updated (t : Host D W) : Type 0 where
    pub driver : t.driver ≡ f s.driver
    pub active : t.active_count ≡ s.active_count
    pub regs : (q : ℕ) → reg t.world q ≡ (if r == q then p (f s.driver) else reg s.world q)

  -- The registers are as they were; the driver may have changed its own field.
  pub record Untouched (t : Host D W) : Type 0 where
    pub driver : (t.driver ≡ s.driver) ⊎ (t.driver ≡ f s.driver)
    pub active : t.active_count ≡ s.active_count
    pub regs : SameRegs reg s.world t.world

  lifted :
      (t : Host D W) (d : D)
      → d ≡ f s.driver
      → Untouched t
      → (out : Result (Unit {0}) × W)
      → Ends
          (λ _ w'. (q : ℕ) → reg w' q ≡ (if r == q then p d else reg t.world q))
          (λ w'. (q : ℕ) → reg w' q ≡ reg t.world q)
          out
      → Ends (λ _. Updated) Untouched (lift_world (record t { driver = d }) out)
  lifted t d e u (ok x, w) h = record {
    driver = e;
    active = u.active;
    regs = λ q. ground (arith, h q, u.regs q, ap p e);
  }
  lifted t d e u (err x, w) h = record {
    driver = inr e;
    active = u.active;
    regs = λ q. h q ∙ u.regs q;
  }

  settled :
      f (f s.driver) ≡ f s.driver → (d : D) → (d ≡ s.driver) ⊎ (d ≡ f s.driver) → f d ≡ f s.driver
  settled twice d (inl e) = ap f e
  settled twice d (inr e) = ap f e ∙ twice

  module _ {stored : ℕ → Bool} (twice : f (f s.driver) ≡ f s.driver) where
    update_write-step :
        (dev : I2cDevice W) (t : Host D W)
        → RegisterChip reg stored dev
        → Untouched t
        → Ends (λ _. Updated) Untouched (update_write f r p dev t)
    update_write-step dev t c u =
        lifted t (f t.driver) (settled twice t.driver u.driver) u
          (dev.write_byte_reg r (p (f t.driver)) t.world) (c.write r (p (f t.driver)) t.world)

    update_write-Ends :
        (bus : I2cBus D W) (a : ℕ)
        → ChipOn bus a reg stored
        → Ends (λ _. Updated) Untouched (bus.execute Unit a (update_write f r p) s)
    update_write-Ends bus a chip =
        Runs-rule Untouched (λ _. Updated)
          (λ t w same u. record {
            driver = u.driver;
            active = u.active;
            regs = λ q. same q ∙ u.regs q;
          })
          update_write-step (chip.runs Unit (update_write f r p) s)
          (record { driver = inl refl; active = refl; regs = λ q. refl })

    pub update_write-meets :
        (bus : I2cBus D W) (a : ℕ)
        → ChipOn bus a reg stored
        → (Good Bad : Host D W → Type 0) → ((t : Host D W) → Updated t → Good t)
        → ((t : Host D W) → Untouched t → Bad t)
        → Ends (λ _. Good) Bad (bus.execute Unit a (update_write f r p) s)
    update_write-meets bus a chip Good Bad g b =
        Ends-mono {Good = λ _. Updated} {Good' = λ _. Good} {Bad = Untouched} {Bad' = Bad}
          (bus.execute Unit a (update_write f r p) s) (update_write-Ends bus a chip) (λ _. g) b
