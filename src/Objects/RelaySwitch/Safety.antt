-- ===== src/Objects/RelaySwitch/Safety.antt =====
-- The two relays of a relay switch are never energised together.
use local_worker.Common.{
  ℕ, ◌+◌, ◌&&◌, Bool, true, false, ◌≡◌, ◌≢◌, refl, sym, ok, Ends, Ends-mono, Ends-bind, arith, pure,
  ◌>>◌, Result, err, and_then,
}
use local_worker.Objects.{
  is_straight, is_off, straight, off, other, SwitchDirection, Site, modify_object, pin_value,
  lift_hardware,
}
use local_worker.Objects.Lines.{SameLines, LineSet, Drives}
use local_worker.Objects.RelaySwitch.{
  Relay, RelaySwitch, activate_relay, deactivate_relay, switch_relays, switch_to,
}

abbrev pulse_of : {S : Type 0} → RelaySwitch S → SwitchDirection → ℕ
pulse_of o straight = o.straight_relay.pulse
pulse_of o off = o.off_relay.pulse
pulse_of o (other _) = 0

-- What `switchTo` notes: the request, and the time at which both relays are to be released.
abbrev pub noted : {S : Type 0} → ℕ → SwitchDirection → RelaySwitch S → RelaySwitch S
noted now d o = record o {
  send_actual_needed = true;
  disable_all_needed = true;
  disable_all_time = now + pulse_of o d;
  requested_direction = d;
}

module _ {S : Type 0} (line : S → ℕ → Bool) where
  -- The relay's coil is powered: its line has the active level.
  abbrev pub energised : Relay S → ℕ → S → Bool
  energised r n s = pin_value r.invert (line s n)

  abbrev pub NotBoth : RelaySwitch S → ℕ → ℕ → S → Type 0
  NotBoth o m n s = (energised o.straight_relay m s && energised o.off_relay n s) ≡ false

  -- The relay of the direction is energised and the other is not; a direction without a name
  -- changes nothing.
  abbrev pub Directed : RelaySwitch S → ℕ → ℕ → SwitchDirection → S → S → Type 0
  Directed o m n d s t =
      (is_straight d ≡ true
        → (energised o.straight_relay m t ≡ true) × (energised o.off_relay n t ≡ false))
      × (is_off d ≡ true
          → (energised o.straight_relay m t ≡ false) × (energised o.off_relay n t ≡ true))
      × (is_straight d ≡ false → is_off d ≡ false → t ≡ s)

module _ {S : Type 0} (Ready : S → Type 0) (line : S → ℕ → Bool) where
  -- The relays of a switch stand on the lines `m` and `n`.
  pub record Wired (o : RelaySwitch S) (m n : ℕ) : Type 0 where
    pub straight_drives : Drives o.straight_relay.device Ready line o.straight_relay.pin m
    pub off_drives : Drives o.off_relay.device Ready line o.off_relay.pin n
    pub apart : m ≢ n

  module _ (r x : Relay S) (m n : ℕ) (dr : Drives r.device Ready line r.pin m)
      (dx : Drives x.device Ready line x.pin n) (apart : m ≢ n) where
    Exchanged : ℕ → S → Type 0
    Exchanged p t =
        (p ≡ r.pulse) × Ready t × (energised line r m t ≡ true) × (energised line x n t ≡ false)

    NotBothOf : S → Type 0
    NotBothOf t = (energised line r m t && energised line x n t) ≡ false

    -- Release `x`, then energise `r`.
    exchange :
        (s : S)
        → Ready s
        → NotBothOf s
        → Ends Exchanged NotBothOf ((do deactivate_relay x; activate_relay r; pure r.pulse) s)
    unfolding activate_relay deactivate_relay Exchanged NotBothOf
    exchange s ready safe =
        Ends-bind (λ _ t. Ready t × LineSet line n (pin_value x.invert false) s t)
          (SameLines line s) Exchanged NotBothOf _ (x.device.set x.pin (pin_value x.invert false) s)
          (dx.set_meets (pin_value x.invert false) s ready)
          (λ _ t h.
            Ends-bind (λ _ u. Ready u × LineSet line m (pin_value r.invert true) t u)
              (SameLines line t) Exchanged NotBothOf _
              (r.device.set r.pin (pin_value r.invert true) t)
              (dr.set_meets (pin_value r.invert true) t h.0)
              (λ _ u k. (refl, k.0, ground (arith, k.1 m), ground (arith, k.1 n, h.1 n)))
              (λ u k. ground (arith, k n, h.1 n)))
          (λ t h. ground (arith, h m, h n))

  module _ (o : RelaySwitch S) (m n : ℕ) (w : Wired o m n) where
    abbrev Switched : SwitchDirection → S → ℕ → S → Type 0
    Switched d s p t =
        (p ≡ pulse_of o d) × Ready t × Directed line o m n d s t × NotBoth line o m n t

    switch_relays-Ends :
        (d : SwitchDirection) (s : S)
        → Ready s
        → NotBoth line o m n s
        → Ends (Switched d s) (NotBoth line o m n) (switch_relays o d s)
    unfolding switch_relays Exchanged NotBothOf
    switch_relays-Ends straight s ready safe =
        Ends-mono
          ((do
            deactivate_relay o.off_relay
            activate_relay o.straight_relay
            pure o.straight_relay.pulse)
            s)
          (exchange o.straight_relay o.off_relay m n w.straight_drives w.off_drives w.apart s ready
            safe)
          (λ p t h. (h.0, h.1, ((λ _. (h.2, h.3)), (λ e. cc), (λ e. cc)), ground arith)) (λ t h. h)
    switch_relays-Ends off s ready safe =
        Ends-mono
          ((do
            deactivate_relay o.straight_relay
            activate_relay o.off_relay
            pure o.off_relay.pulse)
            s)
          (exchange o.off_relay o.straight_relay n m w.off_drives w.straight_drives
            (λ e. w.apart (sym e)) s ready (ground arith))
          (λ p t h. (h.0, h.1, ((λ e. cc), (λ _. (h.3, h.2)), (λ _ e. cc)), ground arith))
          (λ t h. ground arith)
    switch_relays-Ends (other k) s ready safe =
        (refl, ready, ((λ e. cc), (λ e. cc), (λ _ _. refl)), safe)

    switch_to-out :
        (now : ℕ) (d : SwitchDirection) (s : Site (RelaySwitch S) S) (p : Result ℕ × S)
        → s.object ≡ o
        → Ends (Switched d s.hardware) (NotBoth line o m n) p
        → Ends
            (λ _ t.
              (t.object ≡ noted now d s.object)
              × Ready t.hardware
              × Directed line o m n d s.hardware t.hardware
              × NotBoth line o m n t.hardware)
            (λ t.
              (t.object ≡ record s.object { send_actual_needed = true })
              × NotBoth line o m n t.hardware)
            (and_then
              (λ p. modify_object (λ o. record o {
                disable_all_needed = true;
                disable_all_time = now + p;
                requested_direction = d;
              }))
              (lift_hardware
                (record s { object = record s.object { send_actual_needed = true } })
                p))
    switch_to-out now d s (ok p, t) e h = (ground (arith, h.0, e), h.1, h.2, h.3)
    switch_to-out now d s (err x, t) e h = (refl, h)

  -- For relays on two different lines that are not both energised, `switchTo` leaves them not both
  -- energised, whether it succeeds or fails, provided the devices drive their lines as `Drives` says.
  -- If it succeeds, the relay of the direction is energised and the other is not (a direction without
  -- a name leaves the hardware alone), and the request and the time for the release are noted; if it
  -- fails, of the object only the flag for sending the actual has been set.
  pub switch_to-safe :
      (now : ℕ) (d : SwitchDirection) (s : Site (RelaySwitch S) S) (m n : ℕ)
      → Wired s.object m n
      → Ready s.hardware
      → NotBoth line s.object m n s.hardware
      → Ends
          (λ _ t.
            (t.object ≡ noted now d s.object)
            × Ready t.hardware
            × Directed line s.object m n d s.hardware t.hardware
            × NotBoth line s.object m n t.hardware)
          (λ t.
            (t.object ≡ record s.object { send_actual_needed = true })
            × NotBoth line s.object m n t.hardware)
          (switch_to now d s)
  unfolding switch_to switch_relays
  switch_to-safe now d s m n w ready safe =
      switch_to-out s.object m n w now d s (switch_relays s.object d s.hardware) refl
        (switch_relays-Ends s.object m n w d s.hardware ready safe)
