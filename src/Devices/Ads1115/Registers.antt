-- ===== src/Devices/Ads1115/Registers.antt =====
-- What the reads and writes of ads1115.go do on a bus where the converter answers: the registers of
-- the chip as the transfers show them.
use local_worker.Common.{
  ℕ, ◌^◌, ◌<◌, ◌≡◌, refl, sym, ap, ◌∙◌, List, [], ◌∷◌, M, Result, ok, err, pure, wrap, wrapping,
  and_then, ◌>>=◌, Ends, Ends-mono, Ends-bind, subst, arith,
}
use local_worker.Bridge.{Host, I2cDevice, I2cBus, on_world, lift_world, on_active}
use local_worker.Bridge.Runs.{Runs, Runs-rule}
use local_worker.Devices.Ads1115.{
  Ads1115, word_of, word_bytes, create_config_bits, read_word_reg, write_word_reg, write_config,
  configure,
}
use local_worker.Devices.Ads1115.Words.{word_of-word_bytes}

-- `given w` is what the configuration register was last given, `value w r` what register `r` reads
-- now, and `pointer w` the register that was last selected. A transfer that fails leaves the
-- configuration; one that succeeds may take time, in which other registers change.
pub record Converter {W : Type 0} (given : W → ℕ) (value : W → ℕ → ℕ) (pointer : W → ℕ)
    (dev : I2cDevice W) : Type 0 where
  pub select :
      (r : ℕ) (w : W)
      → Ends
          (λ _ t. (pointer t ≡ r) × (given t ≡ given w))
          (λ t. given t ≡ given w)
          (dev.write_device (r ∷ []) w)
  pub configure :
      (v : ℕ) (w : W)
      → v < 2 ^ 16
      → Ends (λ _ t. given t ≡ v) (λ t. given t ≡ given w) (dev.write_device (1 ∷ word_bytes v) w)
  pub fetch :
      (w : W)
      → Ends
          (λ bytes t. (bytes ≡ word_bytes (value t (pointer w))) × (given t ≡ given w))
          (λ t. given t ≡ given w)
          (dev.read_device 2 w)

pub record ConverterOn {W : Type 0} (bus : I2cBus Ads1115 W) (a : ℕ) (given : W → ℕ)
    (value : W → ℕ → ℕ) (pointer : W → ℕ) : Type 1 where
  pub words : (w : W) (r : ℕ) → value w r < 2 ^ 16
  pub runs :
      (A : Type 0) (op : I2cDevice W → M (Host Ads1115 W) A) (s : Host Ads1115 W)
      → Runs
          (λ v w. given w ≡ given v)
          (Converter given value pointer)
          op
          2
          s
          (bus.execute A a op s)

module _ {W : Type 0} (bus : I2cBus Ads1115 W) (a : ℕ) (given : W → ℕ) (value : W → ℕ → ℕ)
    (pointer : W → ℕ) (chip : ConverterOn bus a given value pointer) where
  -- The driver keeps its address, and the configuration is `v`.
  abbrev pub Given : ℕ → Host Ads1115 W → Type 0
  Given v t = (t.driver.address ≡ a) × (given t.world ≡ v)

  abbrev pub Fetched : ℕ → ℕ → ℕ → Host Ads1115 W → Type 0
  Fetched v reg x t = (x ≡ value t.world reg) × Given v t

  at_chip :
      (A : Type 0) (op : I2cDevice W → M (Host Ads1115 W) A) (s : Host Ads1115 W)
      → s.driver.address ≡ a
      → Runs
          (λ v w. given w ≡ given v)
          (Converter given value pointer)
          op
          2
          s
          (bus.execute A s.driver.address op s)
  at_chip A op s e =
      subst
        (λ x.
          Runs (λ v w. given w ≡ given v) (Converter given value pointer) op 2 s
            (bus.execute A x op s))
        (sym e) (chip.runs A op s)

  selected :
      (v reg : ℕ) (s : Host Ads1115 W)
      → Given v s
      → (out : Result (Unit {0}) × W)
      → Ends
          (λ _ t. (pointer t ≡ reg) × (given t ≡ given s.world))
          (λ t. given t ≡ given s.world)
          out
      → Ends (λ _ t. (pointer t.world ≡ reg) × Given v t) (Given v) (wrapping (lift_world s out))
  selected v reg s g (ok x, w) h = (h.0, (g.0, h.1 ∙ g.1))
  selected v reg s g (err e, w) h = (g.0, h ∙ g.1)

  fetched :
      (v reg : ℕ) (s : Host Ads1115 W)
      → pointer s.world ≡ reg
      → Given v s
      → (out : Result (List ℕ) × W)
      → Ends
          (λ bytes t. (bytes ≡ word_bytes (value t (pointer s.world))) × (given t ≡ given s.world))
          (λ t. given t ≡ given s.world)
          out
      → Ends
          (Fetched v reg)
          (Given v)
          (and_then (λ bytes. pure (word_of bytes)) (wrapping (lift_world s out)))
  fetched v reg s p g (ok bytes, w) h = (
    ap word_of h.0
        ∙ word_of-word_bytes (value w (pointer s.world)) (chip.words w (pointer s.world))
        ∙ ap (value w) p,
    (g.0, h.1 ∙ g.1),
  )
  fetched v reg s p g (err e, w) h = (g.0, h ∙ g.1)

  pub read_word_reg-Ends :
      (v reg : ℕ) (s : Host Ads1115 W)
      → Given v s
      → Ends (Fetched v reg) (Given v) (read_word_reg bus reg s)
  unfolding read_word_reg
  read_word_reg-Ends v reg s g =
      Runs-rule (Given v) (Fetched v reg) (λ t w same i. (i.0, same ∙ i.1))
        (λ dev t c i.
          Ends-bind (λ _ u. (pointer u.world ≡ reg) × Given v u) (Given v) (Fetched v reg) (Given v)
            (λ _. wrap (on_world (dev.read_device 2)) >>= λ bytes. pure (word_of bytes))
            (wrapping (lift_world t (dev.write_device (reg ∷ []) t.world)))
            (selected v reg t i _ (c.select reg t.world))
            (λ _ u j. fetched v reg u j.0 j.1 (dev.read_device 2 u.world) (c.fetch u.world))
            (λ u j. j))
        (at_chip ℕ _ s g.0) g

  configured :
      (v : ℕ) (s : Host Ads1115 W)
      → Given v s
      → (x : ℕ) (out : Result (Unit {0}) × W)
      → Ends (λ _ t. given t ≡ x) (λ t. given t ≡ given s.world) out
      → Ends (λ _. Given x) (Given v) (lift_world s out)
  configured v s g x (ok y, w) h = (g.0, h)
  configured v s g x (err e, w) h = (g.0, h ∙ g.1)

  pub write_config-Ends :
      (x : ℕ) (s : Host Ads1115 W)
      → s.driver.address ≡ a
      → x < 2 ^ 16
      → Ends (λ _. Given x) (Given (given s.world)) (write_config bus x s)
  unfolding write_config write_word_reg
  write_config-Ends x s e h =
      Runs-rule (Given (given s.world)) (λ _. Given x) (λ t w same i. (i.0, same ∙ i.1))
        (λ dev t c i. configured (given s.world) t i x _ (c.configure x t.world h))
        (at_chip Unit _ s e) (e, refl)

  -- On a bus where the converter answers at the driver's address: a `Configure` that succeeds leaves
  -- the configuration register with the single shot mode, 250 samples a second, no comparator and
  -- the first input (0x41A3), without a start of a conversion; one that fails leaves the register
  -- as it was.
  configure-Given :
      (s : Host Ads1115 W)
      → s.driver.address ≡ a
      → Ends (λ _ t. given t.world ≡ 0x41A3) (λ t. given t.world ≡ given s.world) (configure bus s)
  unfolding configure create_config_bits on_active
  configure-Given s e =
      Ends-mono (write_config bus 0x41A3 (on_active s).1)
        (write_config-Ends 0x41A3 (on_active s).1 e (omega arith)) (λ _ t h. h.1) (λ t h. h.1)
