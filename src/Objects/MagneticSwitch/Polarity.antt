-- ===== src/Objects/MagneticSwitch/Polarity.antt =====
-- The polarity of the two magnets after a request.
use local_worker.Common.{
  ℕ, if◌then◌else◌, Bool, true, false, ◌&&◌, ◌≡◌, refl, sym, ap, ◌∙◌, Result, ok, err, Ends,
  Ends-mono, Ends-bind, and_then, M, pure, ◌>>◌,
}
use local_worker.Objects.{
  is_straight, is_off, straight, off, other, SwitchDirection, pin_value, Site, on_hardware,
  lift_hardware, modify_object,
}
use local_worker.Objects.MagneticSwitch.{
  MagneticSwitch, activate_magnet, deactivate_magnet, switch_magnets, switch_to,
}
use local_worker.Objects.MagneticSwitch.Pins.{
  MagnetLines, Polarity, released, field, Wired, driven, Has, give, give-Ends,
}

module _ {S : Type 0} (Ready : S → Type 0) (line : S → ℕ → Bool) (c : MagnetLines) where
  module _ (o : MagneticSwitch S) (w : Wired Ready line c o) where
    abbrev Stand : Polarity → Polarity → S → Type 0
    Stand p r s =
        Ready s
        × Has Ready line c o.straight_magnet c.sa c.sb p s
        × Has Ready line c o.off_magnet c.oa c.ob r s

    straight_step :
        {p r : Polarity} (p' : Polarity) (s : S)
        → Stand p r s
        → Ends (λ _. Stand p' r) (λ _. Unit {0}) (give Ready line c o.straight_magnet p' s)
    straight_step p' s h =
        Ends-mono (give Ready line c o.straight_magnet p' s)
          (give-Ends Ready line c o.straight_magnet c.sa c.sb p' s w.sa_drives w.sb_drives w.sa_sb
            h.0)
          (λ _ t k. (
            k.0,
            k.1,
            (
              ap (pin_value o.off_magnet.a.invert) (k.2 c.oa w.sa_oa w.sb_oa) ∙ h.2.0,
              ap (pin_value o.off_magnet.b.invert) (k.2 c.ob w.sa_ob w.sb_ob) ∙ h.2.1,
            ),
          ))
          (λ _ _. tt)

    off_step :
        {p r : Polarity} (r' : Polarity) (s : S)
        → Stand p r s
        → Ends (λ _. Stand p r') (λ _. Unit {0}) (give Ready line c o.off_magnet r' s)
    off_step r' s h =
        Ends-mono (give Ready line c o.off_magnet r' s)
          (give-Ends Ready line c o.off_magnet c.oa c.ob r' s w.oa_drives w.ob_drives w.oa_ob h.0)
          (λ _ t k. (
            k.0,
            (
              ap (pin_value o.straight_magnet.a.invert)
                    (k.2 c.sa (λ e. w.sa_oa (sym e)) (λ e. w.sa_ob (sym e)))
                  ∙ h.1.0,
              ap (pin_value o.straight_magnet.b.invert)
                    (k.2 c.sb (λ e. w.sb_oa (sym e)) (λ e. w.sb_ob (sym e)))
                  ∙ h.1.1,
            ),
            k.1,
          ))
          (λ _ _. tt)

    -- The polarity of the straight magnet, and of the off magnet, that a request asks for.
    abbrev straight_field : Bool → SwitchDirection → Polarity
    straight_field enabled d =
        if enabled && is_straight d
        then field o.straight_magnet.invert_pins true
        else (if enabled && is_off d then field o.straight_magnet.invert_pins false else released)

    abbrev off_field : Bool → SwitchDirection → Polarity
    off_field enabled d =
        if enabled && is_off d
        then field o.off_magnet.invert_pins true
        else (if enabled && is_straight d then field o.off_magnet.invert_pins false else released)

    abbrev pub Polarised : Bool → SwitchDirection → S → Type 0
    Polarised enabled d s = Stand (straight_field enabled d) (off_field enabled d) s

    switch_magnets-Ends :
        (d : SwitchDirection) (s : S)
        → Stand released released s
        → Ends (λ _. Polarised true d) (λ _. Unit {0}) (switch_magnets o d s)
    unfolding switch_magnets activate_magnet give
    switch_magnets-Ends straight s h =
        Ends-bind (λ _. Stand released (field o.off_magnet.invert_pins false)) (λ _. Unit {0})
          (λ _. Polarised true straight) (λ _. Unit {0})
          (λ _. activate_magnet o.straight_magnet true) (activate_magnet o.off_magnet false s)
          (off_step (field o.off_magnet.invert_pins false) s h)
          (λ _ t k. straight_step (field o.straight_magnet.invert_pins true) t k) (λ _ _. tt)
    switch_magnets-Ends off s h =
        Ends-bind (λ _. Stand (field o.straight_magnet.invert_pins false) released) (λ _. Unit {0})
          (λ _. Polarised true off) (λ _. Unit {0}) (λ _. activate_magnet o.off_magnet true)
          (activate_magnet o.straight_magnet false s)
          (straight_step (field o.straight_magnet.invert_pins false) s h)
          (λ _ t k. off_step (field o.off_magnet.invert_pins true) t k) (λ _ _. tt)
    switch_magnets-Ends (other n) s h = h

    lift_bind :
        (Good : Unit {0} → Site (MagneticSwitch S) S → Type 0) (s : Site (MagneticSwitch S) S)
        (f : M (Site (MagneticSwitch S) S) (Unit {0})) (G : S → Type 0)
        (out : Result (Unit {0}) × S)
        → Ends (λ _. G) (λ _. Unit {0}) out
        → ((t : S) → G t → Ends Good (λ t. t.object ≡ s.object) (f (record s { hardware = t })))
        → Ends Good (λ t. t.object ≡ s.object) (and_then (λ _. f) (lift_hardware s out))
    lift_bind Good s f G (ok x, t) h k = k t h
    lift_bind Good s f G (err e, t) h k = refl

    module _ (d : SwitchDirection) (n : MagneticSwitch S) where
      abbrev Done : Bool → Unit {0} → Site (MagneticSwitch S) S → Type 0
      Done enabled _ t =
          (t.object ≡ record n { requested_direction = d }) × Polarised enabled d t.hardware

      enabled-Ends :
          (enabled : Bool) (s : S)
          → Stand released released s
          → Ends
              (Done enabled)
              (λ t. t.object ≡ n)
              (((if enabled then on_hardware (switch_magnets o d) else pure tt)
                  >> modify_object (λ o. record o { requested_direction = d }))
                (record { object = n; hardware = s }))
      enabled-Ends true s h =
          lift_bind (Done true) (record { object = n; hardware = s })
            (modify_object (λ o. record o { requested_direction = d })) (Polarised true d)
            (switch_magnets o d s) (switch_magnets-Ends d s h) (λ t k. (refl, k))
      enabled-Ends false s h = (refl, h)

  asked : MagneticSwitch S → MagneticSwitch S
  asked o = record o { send_actual_needed = true }

  asked-Wired : (o : MagneticSwitch S) → Wired Ready line c o → Wired Ready line c (asked o)
  unfolding asked
  asked-Wired o w = record {
    sa_drives = w.sa_drives;
    sb_drives = w.sb_drives;
    oa_drives = w.oa_drives;
    ob_drives = w.ob_drives;
    sa_sb = w.sa_sb;
    sa_oa = w.sa_oa;
    sa_ob = w.sa_ob;
    sb_oa = w.sb_oa;
    sb_ob = w.sb_ob;
    oa_ob = w.oa_ob;
  }

  -- For magnets on four different lines that the devices drive as `Drives` says: if `switchTo`
  -- succeeds, then for an enabled request the magnet of the direction has the forward polarity and
  -- the other one the backward polarity, each turned around if its pins are swapped, and for a
  -- request that is not enabled, or a direction without a name, all four pins are released; the
  -- direction and the flag for sending the actual are noted. If it fails, of the object only that
  -- flag has been set.
  pub switch_to-Polarised :
      (d : SwitchDirection) (enabled : Bool) (s : Site (MagneticSwitch S) S)
      (w : Wired Ready line c s.object)
      → Ready s.hardware
      → Ends
          (λ _ t.
            (t.object ≡ record (s.object) { send_actual_needed = true; requested_direction = d })
            × Polarised s.object w enabled d t.hardware)
          (λ t. t.object ≡ record (s.object) { send_actual_needed = true })
          (switch_to d enabled s)
  unfolding switch_to deactivate_magnet give asked
  switch_to-Polarised d enabled s w ready =
      let n = asked s.object in
      let v = asked-Wired s.object w in
      let h = s.hardware in
      lift_bind n v _ (record { object = n; hardware = h }) _
        (Stand n v released (record {
          a = driven Ready line c n.off_magnet.a c.oa h;
          b = driven Ready line c n.off_magnet.b c.ob h;
        }))
        (deactivate_magnet n.straight_magnet h)
        (straight_step n v
          {p = record {
            a = driven Ready line c n.straight_magnet.a c.sa h;
            b = driven Ready line c n.straight_magnet.b c.sb h;
          }}
          released h (ready, (refl, refl), (refl, refl)))
        (λ t k.
          lift_bind n v _ (record { object = n; hardware = t }) _ (Stand n v released released)
            (deactivate_magnet n.off_magnet t) (off_step n v released t k)
            (λ u l. enabled-Ends n v d n enabled u l))
