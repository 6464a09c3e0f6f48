-- ===== src/Bridge/Ports.antt =====
-- A chip with a single port and no registers, and the operation of its driver: change the fields,
-- then write a byte made from them. It may be run twice, so the change has to be idempotent.
use local_worker.Common.{
  ℕ, ◌≡◌, refl, ap, ◌∙◌, ◌⊎◌, inl, inr, M, Result, ok, err, ◌>>=◌, ◌>>◌, Ends,
}
use local_worker.Bridge.{Host, I2cDevice, I2cBus, on_world, modify_driver, get_driver, lift_world}
use local_worker.Bridge.Runs.{Runs, Runs-rule}

-- `port w` is the byte that the chip was last given.
pub record PortChip {W : Type 0} (port : W → ℕ) (dev : I2cDevice W) : Type 0 where
  pub write : (v : ℕ) (w : W) → Ends (λ _ t. port t ≡ v) (λ t. port t ≡ port w) (dev.write_byte v w)

-- The chip answers at address `a` of the bus, which makes two attempts.
pub record PortOn {D W : Type 0} (bus : I2cBus D W) (a : ℕ) (port : W → ℕ) : Type 1 where
  pub runs :
      (A : Type 0) (op : I2cDevice W → M (Host D W) A) (s : Host D W)
      → Runs (λ v w. port w ≡ port v) (PortChip port) op 2 s (bus.execute A a op s)

module _ {D W : Type 0} (f : D → D) (p : D → ℕ) where
  abbrev pub port_write : I2cDevice W → M (Host D W) (Unit {0})
  port_write dev = do modify_driver f; d ← get_driver; on_world (dev.write_byte (p d))

module _ {D W : Type 0} (port : W → ℕ) (f : D → D) (p : D → ℕ) where
  module _ (s : Host D W) where
    abbrev PortWritten : Host D W → Type 0
    PortWritten t =
        (t.driver ≡ f s.driver)
        × (t.active_count ≡ s.active_count)
        × (port t.world ≡ p (f s.driver))

    abbrev PortKept : Host D W → Type 0
    PortKept t =
        ((t.driver ≡ s.driver) ⊎ (t.driver ≡ f s.driver))
        × (t.active_count ≡ s.active_count)
        × (port t.world ≡ port s.world)

    written :
        (t : Host D W) (d : D)
        → d ≡ f s.driver
        → PortKept t
        → (out : Result (Unit {0}) × W)
        → Ends (λ _ w. port w ≡ p d) (λ w. port w ≡ port t.world) out
        → Ends (λ _. PortWritten) PortKept (lift_world (record t { driver = d }) out)
    written t d e k (ok x, w) h = (e, k.1, h ∙ ap p e)
    written t d e k (err x, w) h = (inr e, k.1, h ∙ k.2)

    settled :
        f (f s.driver) ≡ f s.driver → (d : D) → (d ≡ s.driver) ⊎ (d ≡ f s.driver) → f d ≡ f s.driver
    settled twice d (inl e) = ap f e
    settled twice d (inr e) = ap f e ∙ twice

    pub port_write-Ends :
        (bus : I2cBus D W) (a : ℕ)
        → PortOn bus a port
        → f (f s.driver) ≡ f s.driver
        → Ends (λ _. PortWritten) PortKept (bus.execute Unit a (port_write f p) s)
    port_write-Ends bus a chip twice =
        Runs-rule PortKept (λ _. PortWritten) (λ t w same k. (k.0, k.1, same ∙ k.2))
          (λ dev t c k.
            written t (f t.driver) (settled twice t.driver k.0) k
              (dev.write_byte (p (f t.driver)) t.world) (c.write (p (f t.driver)) t.world))
          (chip.runs Unit (port_write f p) s) (inl refl, refl, refl)
