-- ===== src/Devices/Mqtt/Gpio.antt =====
-- pkg/service/devices/mqtt-gpio.go: 256 pins behind MQTT topics. A message on the state topic of a
-- pin is kept under the topic without prefix and suffix; a pin that is set publishes a command.
pub mod States
use local_worker.Common.{
  ℕ, ◌==◌, ltb, if◌then◌else◌, Bool, true, false, ◌||◌, Option, none, some, List, [], ◌∷◌, ◌++◌, M,
  Result, ok, err, Error, pure, throw, wrap, ◌>>=◌, ◌>>◌,
}
use local_worker.Common.Texts.{Text, has_suffix, trim_prefix, trim_suffix}
use local_worker.Common.Maps.{Map, find_or, put}
use local_worker.Bridge.{Host, on_world, modify_driver, get_driver, on_active}
use local_worker.Devices.{PinDirection, input, output}
use local_worker.Devices.Mqtt.{
  MqttClient, Topics, set_topic, text_or_empty, mqtt_pin_count, state_suffix, command_suffix,
  parse_bool, format_bool, qos_at_least_once,
}

-- `has_client` is false while the field `client` is nil.
pub record MqttGpio : Type 0 where
  pub topic_prefix : Text
  pub has_client : Bool
  pub states : Map Text
  pub direction : ℕ → PinDirection
  pub state_topics : Topics
  pub command_topics : Topics

abbrev pub is_pin : ℕ → Bool
is_pin index = if ltb index 1 || ltb mqtt_pin_count index then false else true

-- "pin%d": the decimal text of a number is a parameter.
abbrev pin_text : (ℕ → Text) → ℕ → Text
pin_text decimal pin = (b'p' ∷ b'i' ∷ b'n' ∷ []) ++ decimal pin

abbrev default_topics : (ℕ → Text) → Text → Text → Topics
default_topics decimal prefix suffix pin =
    if is_pin pin then some (prefix ++ pin_text decimal pin ++ suffix) else none

unfoldable pub new_mqtt_gpio : (ℕ → Text) → Text → MqttGpio
new_mqtt_gpio decimal prefix = record {
  topic_prefix = prefix;
  has_client = false;
  states = [];
  direction = λ pin. input;
  state_topics = default_topics decimal prefix state_suffix;
  command_topics = default_topics decimal prefix command_suffix;
}

abbrev pub is_input : PinDirection → Bool
is_input input = true
is_input output = false

-- An index of `direction` out of range.
abbrev pub checked : {W : Type 0} → ℕ → M (Host MqttGpio W) (Unit {0})
checked index = if is_pin index then pure tt else throw Error.panic

-- A topic without the suffix is not a state message.
abbrev pub put_state : Text → Text → MqttGpio → MqttGpio
put_state topic payload d =
    if has_suffix topic state_suffix
    then record d { states = put (trim_suffix topic state_suffix) payload d.states }
    else d

unfoldable pub on_message : {W : Type 0} → Text → Text → M (Host MqttGpio W) (Unit {0})
on_message topic payload =
    modify_driver (λ d. put_state (trim_prefix topic d.topic_prefix) payload d)

module _ {W : Type 0} where
  unfoldable pub set_direction : ℕ → PinDirection → M (Host MqttGpio W) (Unit {0})
  set_direction index direction = do
    checked index
    modify_driver
        (λ d. record d { direction = λ pin. if pin == index then direction else d.direction pin })

  unfoldable pub get_direction : ℕ → M (Host MqttGpio W) PinDirection
  get_direction index = do checked index; d ← get_driver; pure (d.direction index)

  unfoldable pub get : ℕ → M (Host MqttGpio W) Bool
  get pin = do
    d ← get_driver
    pure
        (parse_bool (
          find_or []
            (trim_suffix (trim_prefix (text_or_empty (d.state_topics pin)) d.topic_prefix)
              state_suffix)
            d.states)).0

  abbrev checked_topic : ℕ → Text → (MqttGpio → MqttGpio) → M (Host MqttGpio W) (Unit {0})
  checked_topic index [] change = pure tt
  checked_topic index (x ∷ xs) change =
      if is_pin index then modify_driver change else throw (Error.invalid_pin index)

  unfoldable pub set_state_topic : ℕ → Text → M (Host MqttGpio W) (Unit {0})
  set_state_topic index topic =
      checked_topic index topic
        (λ d. record d { state_topics = set_topic index topic d.state_topics })

  unfoldable pub set_command_topic : ℕ → Text → M (Host MqttGpio W) (Unit {0})
  set_command_topic index topic =
      checked_topic index topic
        (λ d. record d { command_topics = set_topic index topic d.command_topics })

module _ {W : Type 0} (client : MqttClient W) where
  unfoldable pub configure : M (Host MqttGpio W) (Unit {0})
  configure = modify_driver (λ d. record d { has_client = true }) >> wrap (on_world client.connect)

  abbrev pub disconnected : Bool → M (Host MqttGpio W) (Unit {0})
  disconnected false s = (ok tt, s)
  disconnected true s = (
    ok tt,
    record s {
      driver = record (s.driver) { has_client = false };
      world = client.disconnect s.world;
    },
  )

  unfoldable pub close : M (Host MqttGpio W) (Unit {0})
  close = do d ← get_driver; disconnected d.has_client; on_active

  -- `Publish` on a nil client panics. That a message is not delivered in time is only logged.
  abbrev publish_value : Text → Bool → Bool → M (Host MqttGpio W) (Unit {0})
  publish_value topic value false s = (err Error.panic, s)
  publish_value topic value true s = (
    ok tt,
    record s { world = (client.publish topic qos_at_least_once (format_bool value) s.world).1 },
  )

  -- Setting an input does nothing.
  unfoldable pub set : ℕ → Bool → M (Host MqttGpio W) (Unit {0})
  set pin value = do
    checked pin
    d ← get_driver
    if is_input (d.direction pin)
        then pure tt
        else publish_value (text_or_empty (d.command_topics pin)) value d.has_client
