-- ===== src/Objects/MagneticSwitch.antt =====
-- pkg/service/objects/magnetic_switch.go: a switch with two magnets, each between two pins. The
-- direction of the current is the direction of the magnet's field.
pub mod Pins
pub mod Polarity
use local_worker.Common.{
  ℕ, if◌then◌else◌, Bool, true, false, not, ◌||◌, Option, none, some, M, pure, attempt, failed,
  ◌>>=◌, ◌>>◌,
}
use local_worker.Devices.{output}
use local_worker.Objects.{
  Gpio, SwitchDirection, straight, off, other, SwitchActual, pin_value, Site, on_hardware,
  get_object, modify_object,
}

-- `magneticSwitchMagnetPin`
pub record MagnetPin (S : Type 0) : Type 0 where
  pub device : Gpio S
  pub pin : ℕ
  pub invert : Bool

-- `magneticSwitchMagnet`
pub record Magnet (S : Type 0) : Type 0 where
  pub a : MagnetPin S
  pub b : MagnetPin S
  pub invert_pins : Bool

pub record MagneticSwitch (S : Type 0) : Type 0 where
  pub straight_magnet : Magnet S
  pub off_magnet : Magnet S
  pub always_enabled : Bool
  pub disable_all_needed : Bool
  pub send_actual_needed : Bool
  pub requested_direction : SwitchDirection

module _ {S : Type 0} where
  abbrev pub set_pin : MagnetPin S → Bool → M S (Unit {0})
  set_pin p value = p.device.set p.pin (pin_value p.invert value)

  unfoldable configure_magnet : Magnet S → M S (Unit {0})
  configure_magnet m = do
    m.a.device.set_direction m.a.pin output
    m.b.device.set_direction m.b.pin output

  -- The two pins get opposite values.
  unfoldable pub activate_magnet : Magnet S → Bool → M S (Unit {0})
  activate_magnet m forward = do
    set_pin m.a (pin_value m.invert_pins forward)
    set_pin m.b (not (pin_value m.invert_pins forward))

  unfoldable pub deactivate_magnet : Magnet S → M S (Unit {0})
  deactivate_magnet m = do set_pin m.a false; set_pin m.b false

  -- The `switch` of `switchTo`.
  unfoldable pub switch_magnets : MagneticSwitch S → SwitchDirection → M S (Unit {0})
  unfolding activate_magnet
  switch_magnets o straight = do
    activate_magnet o.off_magnet false
    activate_magnet o.straight_magnet true
  switch_magnets o off = do
    activate_magnet o.straight_magnet false
    activate_magnet o.off_magnet true
  switch_magnets o (other _) = pure tt

  unfoldable pub configure : M (Site (MagneticSwitch S) S) (Unit {0})
  unfolding configure_magnet
  configure = do
    o ← get_object
    on_hardware (configure_magnet o.straight_magnet)
    on_hardware (configure_magnet o.off_magnet)

  unfoldable pub switch_to : SwitchDirection → Bool → M (Site (MagneticSwitch S) S) (Unit {0})
  unfolding deactivate_magnet switch_magnets
  switch_to direction enabled = do
    modify_object (λ o. record o { send_actual_needed = true })
    o ← get_object
    on_hardware (deactivate_magnet o.straight_magnet)
    on_hardware (deactivate_magnet o.off_magnet)
    (if enabled then on_hardware (switch_magnets o direction) else pure tt)
    modify_object (λ o. record o { requested_direction = direction })

  -- `enabled` is the `IsUsed` of the request.
  unfoldable pub process_message : SwitchDirection → Bool → M (Site (MagneticSwitch S) S) (Unit {0})
  unfolding switch_to
  process_message direction enabled = do
    o ← get_object
    switch_to direction (enabled || o.always_enabled)

  unfoldable pub process_power_message : Bool → M (Site (MagneticSwitch S) S) (Unit {0})
  process_power_message enabled =
      if enabled then modify_object (λ o. record o { send_actual_needed = true }) else pure tt

  disable_all : M (Site (MagneticSwitch S) S) (Unit {0})
  unfolding deactivate_magnet
  disable_all = do
    o ← get_object
    a ← attempt (on_hardware (deactivate_magnet o.straight_magnet))
    b ← attempt (on_hardware (deactivate_magnet o.off_magnet))
    if failed a || failed b
        then pure tt
        else modify_object (λ o. record o { disable_all_needed = false })

  -- One round of the loop of `Run` up to its `select`, with the message that it publishes.
  unfoldable pub run_step : M (Site (MagneticSwitch S) S) (Option SwitchActual)
  unfolding disable_all
  run_step = do
    o ← get_object
    if o.disable_all_needed
        then (disable_all >> pure none)
        else (if o.send_actual_needed
            then (do
              modify_object (λ o. record o { send_actual_needed = false })
              pure (
                  some
                    (record { request = o.requested_direction; actual = o.requested_direction })))
            else pure none)
