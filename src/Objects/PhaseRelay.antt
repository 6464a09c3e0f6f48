-- ===== src/Objects/PhaseRelay.antt =====
-- The relay of a servo switch and of a track inverter (`phaseRelay` of
-- pkg/service/objects/servo_switch.go), which remembers whether it was last activated.
pub mod Flags
use local_worker.Common.{
  ℕ, if◌then◌else◌, Bool, true, false, Option, none, some, List, M, pure, ◌>>=◌, ◌>>◌,
}
use local_worker.Devices.{output}
use local_worker.Objects.{Mqtt, Gpio, pin_value, Site, on_hardware, get_object, modify_object}

pub record PhaseRelay (S : Type 0) : Type 0 where
  pub device : Gpio S
  pub pin : ℕ
  pub last_active : Bool
  pub invert : Bool
  pub mqtt_state_topic : List ℕ
  pub mqtt_command_topic : List ℕ

module _ {S : Type 0} where
  set_topics : Option (Mqtt S) → PhaseRelay S → M S (Unit {0})
  set_topics none r = pure tt
  set_topics (some m) r = do
    m.set_state_topic r.pin r.mqtt_state_topic
    m.set_command_topic r.pin r.mqtt_command_topic

  unfoldable pub configure : M (Site (PhaseRelay S) S) (Unit {0})
  unfolding set_topics
  configure = do
    r ← get_object
    on_hardware (r.device.set_direction r.pin output)
    on_hardware (r.device.set r.pin (pin_value r.invert false))
    on_hardware (set_topics r.device.mqtt r)
    modify_object (λ r. record r { last_active = false })

  -- Whether the relay was changed.
  unfoldable pub activate_relay : M (Site (PhaseRelay S) S) Bool
  activate_relay = do
    r ← get_object
    if r.last_active then pure false else (do
      on_hardware (r.device.set r.pin (pin_value r.invert true))
      modify_object (λ r. record r { last_active = true })
      pure true)

  unfoldable pub deactivate_relay : M (Site (PhaseRelay S) S) Bool
  deactivate_relay = do
    r ← get_object
    if r.last_active
        then (do
          on_hardware (r.device.set r.pin (pin_value r.invert false))
          modify_object (λ r. record r { last_active = false })
          pure true)
        else pure false

-- A call of a part of an object, found by `look` and put back by `put`.
abbrev pub zoom : {O R S A : Type 0} → (O → R) → (R → O → O) → M (Site R S) A → M (Site O S) A
zoom look put m s =
    let r : Site _ _ = record { object = look s.object; hardware = s.hardware } in
    ((m r).0, record { object = put (m r).1.object s.object; hardware = (m r).1.hardware })
