-- ===== src/Devices/Mqtt.antt =====
-- What mqtt-gpio.go, mqtt-servo.go and mqtt-status-monitor.go of pkg/service/devices do alike. The
-- MQTT client is a library: its calls are a parameter.
pub mod Gpio
pub mod Servo
pub mod StatusMonitor
use local_worker.Common.{
  ℕ, ◌==◌, if◌then◌else◌, Bool, true, false, ◌||◌, Option, none, some, List, [], ◌∷◌, ◌++◌, M,
  Result, ok, err, Error, pure, wrap, ◌>>=◌, ◌>>◌,
}
use local_worker.Common.Texts.{Text, same_text, to_lower}
use local_worker.Bridge.{Host, on_world, modify_driver, get_driver, on_active}

-- The token of a publish after the wait for it: completed, which it also is when the message could not
-- be sent, with the error that it then carries, or still pending at the end of the time limit.
pub data Token : Type 0 where
  completed : Option Error → Token
  pending : Token

-- `WaitTimeout`, which looks at no error
abbrev pub wait_timeout : Token → Bool
wait_timeout (completed e) = true
wait_timeout pending = false

-- `connect` makes the client and connects it. `publish` takes topic, quality of service and payload,
-- and yields the token as the wait for it leaves it. All messages are retained.
pub record MqttClient (W : Type 0) : Type 0 where
  pub connect : M W (Unit {0})
  pub subscribe : Text → M W (Unit {0})
  pub disconnect : W → W
  pub publish : Text → ℕ → Text → W → Token × W

abbrev pub qos_at_most_once : ℕ
qos_at_most_once = 0

abbrev pub qos_at_least_once : ℕ
qos_at_least_once = 1

abbrev pub mqtt_pin_count : ℕ
mqtt_pin_count = 256

-- "/state", "/command" and "#"
abbrev pub state_suffix : Text
state_suffix = b'/' ∷ b's' ∷ b't' ∷ b'a' ∷ b't' ∷ b'e' ∷ []

abbrev pub command_suffix : Text
command_suffix = b'/' ∷ b'c' ∷ b'o' ∷ b'm' ∷ b'm' ∷ b'a' ∷ b'n' ∷ b'd' ∷ []

abbrev pub hash : Text
hash = b'#' ∷ []

-- A map from pins to topics.
abbrev pub Topics : Type 0
Topics = ℕ → Option Text

abbrev pub set_topic : ℕ → Text → Topics → Topics
set_topic index topic topics pin = if pin == index then some topic else topics pin

-- The topic of a pin, or the empty text.
abbrev pub text_or_empty : Option Text → Text
text_or_empty none = []
text_or_empty (some t) = t

abbrev is_one_of : Text → List Text → Bool
is_one_of text [] = false
is_one_of text (t ∷ ts) = same_text text t || is_one_of text ts

-- "1", "t", "true", "on", "yes"
abbrev true_words : List Text
true_words =
    (b'1' ∷ [])
    ∷ (b't' ∷ [])
    ∷ (b't' ∷ b'r' ∷ b'u' ∷ b'e' ∷ [])
    ∷ (b'o' ∷ b'n' ∷ [])
    ∷ (b'y' ∷ b'e' ∷ b's' ∷ [])
    ∷ []

-- "0", "f", "false", "off", "no"
abbrev false_words : List Text
false_words =
    (b'0' ∷ [])
    ∷ (b'f' ∷ [])
    ∷ (b'f' ∷ b'a' ∷ b'l' ∷ b's' ∷ b'e' ∷ [])
    ∷ (b'o' ∷ b'f' ∷ b'f' ∷ [])
    ∷ (b'n' ∷ b'o' ∷ [])
    ∷ []

-- `parseBool`: the value beside the error, which is false then.
unfoldable pub parse_bool : Text → Bool × Option Error
parse_bool text =
    if is_one_of (to_lower text) true_words
    then (true, none)
    else (if is_one_of (to_lower text) false_words
        then (false, none)
        else (false, some Error.invalid_argument))

unfoldable pub format_bool : Bool → Text
format_bool true = b'O' ∷ b'N' ∷ []
format_bool false = b'O' ∷ b'F' ∷ b'F' ∷ []

-- The handler of a connection: an error of the subscription ends the connection.
module _ {D W : Type 0} (client : MqttClient W) where
  abbrev subscribed : Result (Unit {0}) → M (Host D W) (Unit {0})
  subscribed (ok u) s = on_active s
  subscribed (err e) s = (ok tt, record s { world = client.disconnect s.world })

  unfoldable on_connect : Text → M (Host D W) (Unit {0})
  on_connect topic s =
      let r = client.subscribe topic s.world in subscribed r.0 (record s { world = r.1 })
