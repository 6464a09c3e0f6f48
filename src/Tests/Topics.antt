-- ===== src/Tests/Topics.antt =====
-- The theorems on the MQTT devices, at a broker that refuses its first message.
use local_worker.Common.{
  ℕ, ◌+◌, ◌==◌, if◌then◌else◌, true, none, some, [], ◌∷◌, ◌++◌, ok, err, Error, ◌≡◌, refl, arith,
}
use local_worker.Common.Texts.{Text}
use local_worker.Bridge.{Host}
use local_worker.Devices.Service.{DeviceService, unknown, router_status_device_id}
use local_worker.Devices.Mqtt.{
  MqttClient, pending, completed, state_suffix, command_suffix, format_bool,
}
use local_worker.Devices.Mqtt.Gpio as Pins
use local_worker.Devices.Mqtt.Gpio.{MqttGpio, new_mqtt_gpio}
use local_worker.Devices.Mqtt.Gpio.States.{get-on_message}
use local_worker.Devices.Mqtt.Servo.{MqttServo, set_pwm}
use local_worker.Devices.Mqtt.Servo.Publishing.{set_pwm-set_pwm}
use local_worker.Devices.Mqtt.StatusMonitor.{Parsing}

-- The world counts the messages.
abbrev broker : MqttClient ℕ
broker = record {
  connect = λ w. (ok tt, w);
  subscribe = λ t w. (ok tt, w);
  disconnect = λ w. w;
  publish = λ topic qos payload w. (if w == 0 then pending else completed none, w + 1);
}

-- "m/", with topics "m/p/state" and "m/q/state" for the pins 1 and 2
abbrev prefix : Text
prefix = b'm' ∷ b'/' ∷ []

abbrev pins : Host MqttGpio ℕ
pins = record {
  driver = record (new_mqtt_gpio (λ n. []) prefix) {
    state_topics = λ pin.
        if pin == 1
        then some (prefix ++ ((b'p' ∷ []) ++ state_suffix))
        else some (prefix ++ ((b'q' ∷ []) ++ state_suffix));
  };
  active_count = 0;
  world = 0;
}

get-on_message_example :
    let (r, t) =
      Pins.on_message (prefix ++ ((b'p' ∷ []) ++ state_suffix)) (format_bool true) pins in
    ((Pins.get 1 t).0 ≡ ok true) × ((Pins.get 2 t).0 ≡ (Pins.get 2 pins).0)
unfolding new_mqtt_gpio
get-on_message_example = get-on_message 1 (b'p' ∷ []) true pins refl 2 (b'q' ∷ []) refl refl

abbrev servo : Host MqttServo ℕ
servo = record {
  driver = record {
    topic_prefix = prefix;
    has_client = true;
    states = [];
    state_topics = λ pin. none;
    command_topics = λ pin. some (prefix ++ ((b's' ∷ []) ++ command_suffix));
  };
  active_count = 0;
  world = 0;
}

set_pwm-set_pwm_example :
    (set_pwm broker
      (λ n. n ∷ [])
      20
      1
      0
      300
      true
      true
      (set_pwm broker (λ n. n ∷ []) 10 1 0 300 true true servo).1).1.world
    ≡ 2
set_pwm-set_pwm_example =
    set_pwm-set_pwm broker (λ n. n ∷ []) 10 20 1 0 300 true true
      (prefix ++ ((b's' ∷ []) ++ command_suffix)) servo (omega arith) (omega arith) refl refl refl

abbrev parsing : Parsing
parsing = record {
  trim_space = λ t. t;
  atoi = λ t. err Error.invalid_argument;
  status_topic_suffix = b's' ∷ [];
  uptime_topic_suffix = b'u' ∷ [];
  ip_address_topic_suffix = b'i' ∷ [];
}

abbrev monitored : DeviceService ℕ
monitored = record {
  module_id = [];
  routers = [];
  devices = [];
  configured_devices = [];
  last_statuses = (router_status_device_id (b'x' ∷ []), unknown) ∷ [];
  last_uptime_seconds = [];
  last_ip_address = [];
}
