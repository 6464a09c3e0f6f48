-- ===== src/Objects/MagneticSwitch/Pins.antt =====
-- The pins of the magnets of a magnetic switch, and what giving them values does.
use local_worker.Common.{
  ℕ, Bool, false, not, ◌≡◌, ◌≢◌, sym, ap, ◌∙◌, Ends, Ends-mono, Ends-bind, arith, M, ◌>>◌,
}
use local_worker.Objects.{pin_value}
use local_worker.Objects.Lines.{Drives}
use local_worker.Objects.MagneticSwitch.{MagnetPin, Magnet, MagneticSwitch, set_pin}

-- The lines of the pins of the straight magnet and of the off magnet.
pub record MagnetLines : Type 0 where
  pub sa : ℕ
  pub sb : ℕ
  pub oa : ℕ
  pub ob : ℕ

-- What the two pins of a magnet are given, before the inversion of each.
pub record Polarity : Type 0 where
  pub a : Bool
  pub b : Bool

abbrev pub released : Polarity
released = record { a = false; b = false }

-- The current runs forward or backward, turned around if the pins of the magnet are swapped.
abbrev pub field : Bool → Bool → Polarity
field invert_pins forward = record {
  a = pin_value invert_pins forward;
  b = not (pin_value invert_pins forward);
}

module _ {S : Type 0} (Ready : S → Type 0) (line : S → ℕ → Bool) (c : MagnetLines) where
  pub record Wired (o : MagneticSwitch S) : Type 0 where
    pub sa_drives : Drives o.straight_magnet.a.device Ready line o.straight_magnet.a.pin c.sa
    pub sb_drives : Drives o.straight_magnet.b.device Ready line o.straight_magnet.b.pin c.sb
    pub oa_drives : Drives o.off_magnet.a.device Ready line o.off_magnet.a.pin c.oa
    pub ob_drives : Drives o.off_magnet.b.device Ready line o.off_magnet.b.pin c.ob
    pub sa_sb : c.sa ≢ c.sb
    pub sa_oa : c.sa ≢ c.oa
    pub sa_ob : c.sa ≢ c.ob
    pub sb_oa : c.sb ≢ c.oa
    pub sb_ob : c.sb ≢ c.ob
    pub oa_ob : c.oa ≢ c.ob

  abbrev pub driven : MagnetPin S → ℕ → S → Bool
  driven p n s = pin_value p.invert (line s n)

  -- The pins of magnet `m`, on the lines `i` and `j`, have the polarity.
  abbrev pub Has : Magnet S → ℕ → ℕ → Polarity → S → Type 0
  Has m i j p s = (driven m.a i s ≡ p.a) × (driven m.b j s ≡ p.b)

  -- Both pins are given their values; lines other than theirs are as before.
  abbrev pub Given : Magnet S → ℕ → ℕ → Polarity → S → S → Type 0
  Given m i j p s t = Ready t × Has m i j p t × ((q : ℕ) → i ≢ q → j ≢ q → line t q ≡ line s q)

  unfoldable pub give : Magnet S → Polarity → M S (Unit {0})
  give m p = set_pin m.a p.a >> set_pin m.b p.b

  set_pin-Ends :
      (p : MagnetPin S) (n : ℕ) (v : Bool) (s : S)
      → Drives p.device Ready line p.pin n
      → Ready s
      → Ends
          (λ _ t. Ready t × (driven p n t ≡ v) × ((q : ℕ) → n ≢ q → line t q ≡ line s q))
          (λ _. Unit {0})
          (set_pin p v s)
  set_pin-Ends p n v s d ready =
      Ends-mono (set_pin p v s) (d.set_meets (pin_value p.invert v) s ready)
        (λ _ t h. (h.0, ground (arith, h.1 n), λ q ne. ground (arith, h.1 q))) (λ _ _. tt)

  pub give-Ends :
      (m : Magnet S) (i j : ℕ) (p : Polarity) (s : S)
      → Drives m.a.device Ready line m.a.pin i
      → Drives m.b.device Ready line m.b.pin j
      → i ≢ j
      → Ready s
      → Ends (λ _. Given m i j p s) (λ _. Unit {0}) (give m p s)
  unfolding give
  give-Ends m i j p s da db ne ready =
      Ends-bind (λ _ t. Ready t × (driven m.a i t ≡ p.a) × ((q : ℕ) → i ≢ q → line t q ≡ line s q))
        (λ _. Unit {0}) (λ _. Given m i j p s) (λ _. Unit {0}) (λ _. set_pin m.b p.b)
        (set_pin m.a p.a s) (set_pin-Ends m.a i p.a s da ready)
        (λ _ t h.
          Ends-mono (set_pin m.b p.b t) (set_pin-Ends m.b j p.b t db h.0)
            (λ _ u k. (
              k.0,
              (ap (pin_value m.a.invert) (k.2 i (λ e. ne (sym e))) ∙ h.1, k.1),
              λ q x y. k.2 q y ∙ h.2 q x,
            ))
            (λ _ _. tt))
        (λ _ _. tt)
