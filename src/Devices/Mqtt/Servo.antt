-- ===== src/Devices/Mqtt/Servo.antt =====
-- pkg/service/devices/mqtt-servo.go: pulse lengths sent as MQTT commands. A command is published when
-- its payload differs from the last one whose token completed, or that one is older than
-- `pwm_payload_expiration`. The text of the level, which the source makes from a floating point number, is a parameter.
pub mod Publishing
use local_worker.Common.{
  ℕ, ◌-◌, ◌*◌, ◌==◌, ltb, if◌then◌else◌, Bool, true, false, not, ◌&&◌, ◌||◌, Option, none, some,
  List, [], ◌∷◌, M, Result, ok, err, Error, pure, throw, wrap, modify, ◌>>=◌, ◌>>◌,
}
use local_worker.Common.Texts.{Text, same_text, has_prefix, has_suffix, trim_prefix, trim_suffix}
use local_worker.Common.Maps.{Map, find, put}
use local_worker.Bridge.{Host, on_world, modify_driver, get_driver, on_active}
use local_worker.Devices.Mqtt.{
  MqttClient, Token, wait_timeout, Topics, set_topic, text_or_empty, mqtt_pin_count, state_suffix,
  command_suffix, qos_at_most_once, qos_at_least_once,
}

-- `last_payload_sent` is `none` for the zero time.
pub record PwmState : Type 0 where
  pub on_value : ℕ
  pub off_value : ℕ
  pub enabled : Bool
  pub payload : Text
  pub last_payload_sent : Option ℕ

-- 15 minutes in nanoseconds; the comment on it asks for 15 seconds.
abbrev pub pwm_payload_expiration : ℕ
pwm_payload_expiration = 15 * 60 * 1_000_000_000

abbrev pub is_expired : ℕ → Option ℕ → Bool
is_expired now none = true
is_expired now (some sent) = ltb pwm_payload_expiration (now - sent)

abbrev pub update_needed : ℕ → Text → PwmState → Bool
update_needed now payload s =
    not (same_text s.payload payload) || is_expired now s.last_payload_sent

pub record MqttServo : Type 0 where
  pub topic_prefix : Text
  pub has_client : Bool
  pub states : Map PwmState
  pub state_topics : Topics
  pub command_topics : Topics

unfoldable pub new_mqtt_servo : Text → MqttServo
new_mqtt_servo prefix = record {
  topic_prefix = prefix;
  has_client = false;
  states = [];
  state_topics = λ pin. none;
  command_topics = λ pin. none;
}

abbrev pub pwm_pin_count : ℕ
pwm_pin_count = mqtt_pin_count

abbrev pub max_pwm_value : ℕ
max_pwm_value = 4095

-- What a state message leaves, whatever its payload.
abbrev reported_state : PwmState
reported_state = record {
  on_value = 0;
  off_value = 1;
  enabled = true;
  payload = [];
  last_payload_sent = none;
}

abbrev pub put_state : Text → MqttServo → MqttServo
put_state topic d =
    if has_suffix topic state_suffix
    then record d {
      states =
          put (trim_suffix (trim_prefix topic d.topic_prefix) state_suffix) reported_state d.states;
    }
    else d

-- A missing state is the zero value, which no payload has been sent for.
abbrev pub is_publish_needed : ℕ → Text → Option PwmState → Bool
is_publish_needed now payload none = true
is_publish_needed now payload (some s) = update_needed now payload s

abbrev get_state : Option PwmState → ℕ → Result (ℕ × ℕ × Bool)
get_state none pin = err Error.invalid_argument
get_state (some s) pin = ok (s.on_value, s.off_value, s.enabled)

abbrev pub is_pin : ℕ → Bool
is_pin index = if ltb index 1 || ltb pwm_pin_count index then false else true

module _ {W : Type 0} where
  unfoldable pub on_message : Text → M (Host MqttServo W) (Unit {0})
  on_message topic = modify_driver (λ d. put_state (trim_prefix topic d.topic_prefix) d)

  unfoldable pub get_pwm : ℕ → M (Host MqttServo W) (ℕ × ℕ × Bool)
  get_pwm pin s = (
    get_state
        (find
          (trim_suffix
            (trim_prefix (text_or_empty (s.driver.state_topics pin)) s.driver.topic_prefix)
            state_suffix)
          s.driver.states)
        pin,
    s,
  )

  unfoldable pub set_state_topic : ℕ → Text → M (Host MqttServo W) (Unit {0})
  set_state_topic index [] = pure tt
  set_state_topic index (x ∷ xs) =
      if is_pin index
      then modify_driver (λ d. record d { state_topics = set_topic index (x ∷ xs) d.state_topics })
      else throw (Error.invalid_pin index)

  -- The prefix and the suffix of the topic are checked here.
  unfoldable pub set_command_topic : ℕ → Text → M (Host MqttServo W) (Unit {0})
  set_command_topic index [] s = (ok tt, s)
  set_command_topic index (x ∷ xs) s =
      if is_pin index
      then (if has_prefix (x ∷ xs) s.driver.topic_prefix && has_suffix (x ∷ xs) command_suffix
          then modify_driver
              (λ d. record d { command_topics = set_topic index (x ∷ xs) d.command_topics }) s
          else (err Error.invalid_argument, s))
      else (err (Error.invalid_pin index), s)

abbrev pub qos_of : Bool → ℕ
qos_of final_state = if final_state then qos_at_least_once else qos_at_most_once

-- The part of a topic that states are kept under.
abbrev pub command_key : Text → Text → Text
command_key prefix topic = trim_suffix (trim_prefix topic prefix) command_suffix

module _ {W : Type 0} (client : MqttClient W) where
  unfoldable pub configure : M (Host MqttServo W) (Unit {0})
  configure = modify_driver (λ d. record d { has_client = true }) >> wrap (on_world client.connect)

  abbrev pub disconnected : Bool → M (Host MqttServo W) (Unit {0})
  disconnected false s = (ok tt, s)
  disconnected true s = (
    ok tt,
    record s {
      driver = record (s.driver) { has_client = false };
      world = client.disconnect s.world;
    },
  )

  unfoldable pub close : M (Host MqttServo W) (Unit {0})
  close = do d ← get_driver; disconnected d.has_client; on_active

  -- The state is kept if the wait for the token has not timed out; the error of a token that has
  -- completed is not looked at, and that the wait has timed out is only logged.
  abbrev pub keep_if :
      Text → PwmState → Host MqttServo W → Bool → W → Result (Unit {0}) × Host MqttServo W
  keep_if key state s true w = (
    ok tt,
    record s { driver = record (s.driver) { states = put key state s.driver.states }; world = w },
  )
  keep_if key state s false w = (ok tt, record s { world = w })

  abbrev pub after_publish :
      Text → PwmState → Host MqttServo W → Token × W → Result (Unit {0}) × Host MqttServo W
  after_publish key state s out = keep_if key state s (wait_timeout out.0) out.1

  -- `Publish` on a nil client panics.
  abbrev pub publish_state : Text → Text → ℕ → PwmState → Bool → M (Host MqttServo W) (Unit {0})
  publish_state topic key qos state true s =
      after_publish key state s (client.publish topic qos state.payload s.world)
  publish_state topic key qos state false s = (err Error.panic, s)

  module _ (level_text : ℕ → Text) (now pin on_value off_value : ℕ)
      (enabled final_state : Bool) where
    abbrev pub new_state : PwmState
    new_state = record {
      on_value = on_value;
      off_value = off_value;
      enabled = enabled;
      payload = level_text off_value;
      last_payload_sent = some now;
    }

    abbrev pub publish_if_needed : Text → Text → Bool → M (Host MqttServo W) (Unit {0})
    publish_if_needed topic key true s =
        publish_state topic key (qos_of final_state) new_state s.driver.has_client s
    publish_if_needed topic key false s = (ok tt, s)

    abbrev pub set_pwm_of_topic : Option Text → M (Host MqttServo W) (Unit {0})
    set_pwm_of_topic none s = (ok tt, s)
    set_pwm_of_topic (some topic) s =
        publish_if_needed topic (command_key s.driver.topic_prefix topic)
          (is_publish_needed now (level_text off_value)
            (find (command_key s.driver.topic_prefix topic) s.driver.states))
          s

    -- `SetPWM` at the time `now`.
    unfoldable pub set_pwm : M (Host MqttServo W) (Unit {0})
    set_pwm s = set_pwm_of_topic (s.driver.command_topics pin) s
