-- ===== src/Objects/RelaySwitch.antt =====
-- pkg/service/objects/relay_switch.go: a switch with a relay for each direction, which is energised
-- for the length of a pulse. Times are in nanoseconds.
pub mod Safety
pub mod Release
use local_worker.Common.{
  ℕ, ◌+◌, ◌-◌, ltb, if◌then◌else◌, Bool, true, false, ◌||◌, Option, none, some, List, M, pure,
  attempt, ignore, failed, ◌>>=◌, ◌>>◌,
}
use local_worker.Devices.{output}
use local_worker.Objects.{
  Mqtt, Gpio, SwitchDirection, straight, off, other, SwitchActual, pin_value, Site, on_hardware,
  get_object, modify_object,
}

-- `relaySwitchDirection`
pub record Relay (S : Type 0) : Type 0 where
  pub device : Gpio S
  pub pin : ℕ
  pub invert : Bool
  pub pulse : ℕ
  pub mqtt_state_topic : List ℕ
  pub mqtt_command_topic : List ℕ

pub record RelaySwitch (S : Type 0) : Type 0 where
  pub straight_relay : Relay S
  pub off_relay : Relay S
  pub disable_all_needed : Bool
  pub disable_all_time : ℕ
  pub send_actual_needed : Bool
  pub requested_direction : SwitchDirection

abbrev pub second : ℕ
second = 1_000_000_000

module _ {S : Type 0} where
  unfoldable pub activate_relay : Relay S → M S (Unit {0})
  activate_relay r = r.device.set r.pin (pin_value r.invert true)

  unfoldable pub deactivate_relay : Relay S → M S (Unit {0})
  deactivate_relay r = r.device.set r.pin (pin_value r.invert false)

  -- The errors of the two calls are not looked at.
  set_topics : Option (Mqtt S) → Relay S → M S (Unit {0})
  set_topics none r = pure tt
  set_topics (some m) r = do
    ignore (m.set_state_topic r.pin r.mqtt_state_topic)
    ignore (m.set_command_topic r.pin r.mqtt_command_topic)

  -- The part of `Configure` that is the same for both relays.
  configure_relay : Relay S → M S (Unit {0})
  unfolding set_topics deactivate_relay
  configure_relay r = do
    r.device.set_direction r.pin output
    set_topics r.device.mqtt r
    deactivate_relay r

  -- The `switch` of `switchTo`, which yields the length of the pulse.
  unfoldable pub switch_relays : RelaySwitch S → SwitchDirection → M S ℕ
  unfolding activate_relay deactivate_relay
  switch_relays o straight = do
    deactivate_relay o.off_relay
    activate_relay o.straight_relay
    pure o.straight_relay.pulse
  switch_relays o off = do
    deactivate_relay o.straight_relay
    activate_relay o.off_relay
    pure o.off_relay.pulse
  switch_relays o (other _) = pure 0

  unfoldable pub switch_to : ℕ → SwitchDirection → M (Site (RelaySwitch S) S) (Unit {0})
  switch_to now direction = do
    modify_object (λ o. record o { send_actual_needed = true })
    o ← get_object
    pulse ← on_hardware (switch_relays o direction)
    modify_object (λ o. record o {
      disable_all_needed = true;
      disable_all_time = now + pulse;
      requested_direction = direction;
    })

  unfoldable pub configure : ℕ → M (Site (RelaySwitch S) S) (Unit {0})
  unfolding configure_relay switch_to
  configure now = do
    o ← get_object
    on_hardware (configure_relay o.straight_relay)
    on_hardware (configure_relay o.off_relay)
    switch_to now straight

  unfoldable pub process_message : ℕ → SwitchDirection → M (Site (RelaySwitch S) S) (Unit {0})
  unfolding switch_to
  process_message now direction = switch_to now direction

  unfoldable pub process_power_message : Bool → M (Site (RelaySwitch S) S) (Unit {0})
  process_power_message enabled =
      if enabled then modify_object (λ o. record o { send_actual_needed = true }) else pure tt

  -- Both relays off; the flag is cleared if neither call failed.
  unfoldable pub disable_all : M (Site (RelaySwitch S) S) (Unit {0})
  unfolding deactivate_relay
  disable_all = do
    o ← get_object
    a ← attempt (on_hardware (deactivate_relay o.straight_relay))
    b ← attempt (on_hardware (deactivate_relay o.off_relay))
    if failed a || failed b
        then pure tt
        else modify_object (λ o. record o { disable_all_needed = false })

  -- One round of the loop of `Run` up to its `select`, with the message that it publishes.
  unfoldable pub run_step : ℕ → M (Site (RelaySwitch S) S) (Option SwitchActual)
  run_step now = do
    o ← get_object
    if o.disable_all_needed
        then (do (if ltb o.disable_all_time now then disable_all else pure tt); pure none)
        else (if o.send_actual_needed
            then (do
              modify_object (λ o. record o { send_actual_needed = false })
              pure (
                  some
                    (record { request = o.requested_direction; actual = o.requested_direction })))
            else pure none)

  -- The `select` when the context has ended: whether `Run` returns.
  unfoldable run_done : ℕ → M (Site (RelaySwitch S) S) Bool
  run_done now = do
    o ← get_object
    if o.disable_all_needed
        then (do modify_object (λ o. record o { disable_all_time = now - second }); pure false)
        else pure true
