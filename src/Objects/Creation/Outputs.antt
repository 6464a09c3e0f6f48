-- ===== src/Objects/Creation/Outputs.antt =====
-- The constructors of binary_output.go, track_inverter.go and binary_sensor.go.
use local_worker.Common.{
  ℕ, Bool, true, false, Option, none, some, M, Result, ok, err, Error, lift, pure, ignore, ◌>>=◌,
  ◌>>◌,
}
use local_worker.Common.Texts.{Text}
use local_worker.Objects.{Gpio, Mqtt}
use local_worker.Objects.Service.{ObjectType}
use local_worker.Objects.PhaseRelay.{PhaseRelay}
use local_worker.Objects.BinaryOutput.{BinaryOutput, testing}
use local_worker.Objects.TrackInverter.{TrackInverter, default}
use local_worker.Objects.BinarySensor.{BinarySensor, Reader, gpio_reader, adc_reader}
use local_worker.Objects.Creation.{
  ConnectionName, ConfigKey, from_zero, DevicePin, Connection, Config, Adc, Device, required,
  then_get, in_range, get_single_pin,
}
use local_worker.Objects.Creation.Switches.{checked_type}

abbrev is_binary_output : ObjectType → Bool
is_binary_output ObjectType.binary_output = true
is_binary_output _ = false

abbrev pub is_track_inverter : ObjectType → Bool
is_track_inverter ObjectType.track_inverter = true
is_track_inverter _ = false

abbrev is_binary_sensor : ObjectType → Bool
is_binary_sensor ObjectType.binary_sensor = true
is_binary_sensor _ = false

module _ {S : Type 0} where
  -- The errors of the two calls are not looked at.
  abbrev try_topics : Option (Mqtt S) → Connection → ℕ → M S (Unit {0})
  try_topics none conn pin = pure tt
  try_topics (some mqtt) conn pin = do
    ignore (mqtt.set_state_topic pin (conn.get_string_config ConfigKey.mqtt_state_topic))
    ignore (mqtt.set_command_topic pin (conn.get_string_config ConfigKey.mqtt_command_topic))

  abbrev output_of : Connection → DevicePin → Gpio S → BinaryOutput S
  output_of conn pin gpio = record {
    output_device = gpio;
    pin = pin.index;
    invert = conn.get_bool_config ConfigKey.invert;
    target_state = 0;
    current_state = 0;
    send_actual_needed = false;
    initialized = false;
    place = testing;
  }

  -- The relay of an inverter, which starts as one that was not activated.
  abbrev pub inverter_relay_of : Connection → DevicePin → Gpio S → PhaseRelay S
  inverter_relay_of conn pin gpio = record {
    device = gpio;
    pin = pin.index;
    last_active = false;
    invert = conn.get_bool_config ConfigKey.invert;
    mqtt_state_topic = conn.get_string_config ConfigKey.mqtt_state_topic;
    mqtt_command_topic = conn.get_string_config ConfigKey.mqtt_command_topic;
  }

  -- Both states start with the zero value, `initialized` as in `Run`.
  abbrev pub inverter_of :
      PhaseRelay S → PhaseRelay S → PhaseRelay S → PhaseRelay S → TrackInverter S
  inverter_of a_in_a a_in_b b_in_a b_in_b = record {
    a_in_a = a_in_a;
    a_in_b = a_in_b;
    b_in_a = b_in_a;
    b_in_b = b_in_b;
    target_state = default;
    current_state = default;
    send_actual_needed = false;
    initialized = false;
  }

  -- The first of GPIO and ADC that the device is.
  abbrev adc_reader_if : Option (Adc S) → Connection → DevicePin → Result (Reader S)
  adc_reader_if none conn pin = err Error.invalid_argument
  adc_reader_if (some adc) conn pin =
      in_range pin.index adc.pin_count
        (adc_reader adc.get pin.index (from_zero (conn.get_int_config ConfigKey.threshold)))

  abbrev reader_if : Option (Gpio S) → Option (Adc S) → Connection → DevicePin → Result (Reader S)
  reader_if (some gpio) adc conn pin =
      in_range pin.index gpio.pin_count (gpio_reader gpio pin.index)
  reader_if none adc conn pin = adc_reader_if adc conn pin

  -- `device.(devices.MQTT)`, for a device whose pins are of either kind.
  abbrev mqtt_of : Option (Gpio S) → Option (Mqtt S)
  mqtt_of none = none
  mqtt_of (some gpio) = gpio.mqtt

  abbrev sensor_of : Reader S → Connection → BinarySensor S
  sensor_of reader conn = record {
    reader = reader;
    invert = conn.get_bool_config ConfigKey.invert;
    send_now = false;
    last_power = false;
    last_value = false;
    changes = 0;
    recent_errors = 0;
    last_sent = 0;
    actual_value = 0;
  }

module _ {S : Type 0} (device_by_id : Text → Option (Device S)) where
  -- The connection, its pin and the GPIO device with it in range.
  unfoldable pub find_gpio : Config → ConnectionName → Result (Connection × DevicePin × Gpio S)
  find_gpio config name = then_get (get_single_pin config name) λ found.
      then_get (required (device_by_id found.1.device_id)) λ device.
        then_get (required device.gpio)
          λ gpio. in_range found.1.index gpio.pin_count (found.0, found.1, gpio)

  unfoldable pub new_binary_output : Config → M S (BinaryOutput S)
  unfolding find_gpio
  new_binary_output config = do
    (conn, pin, gpio) ←
        lift (checked_type (is_binary_output config.type) (find_gpio config ConnectionName.output))
    try_topics gpio.mqtt conn pin.index
    pure (output_of conn pin gpio)

  unfoldable pub new_inverter_relay : Config → ConnectionName → Result (PhaseRelay S)
  unfolding find_gpio
  new_inverter_relay config name =
      then_get (find_gpio config name) (λ f. ok (inverter_relay_of f.0 f.1 f.2))

  abbrev pub with_three :
      Config → PhaseRelay S → PhaseRelay S → PhaseRelay S → Result (TrackInverter S)
  with_three config a_in_a a_in_b b_in_a =
      then_get (new_inverter_relay config ConnectionName.relay_out_b_in_b)
        λ b_in_b. ok (inverter_of a_in_a a_in_b b_in_a b_in_b)

  abbrev pub with_two : Config → PhaseRelay S → PhaseRelay S → Result (TrackInverter S)
  with_two config a_in_a a_in_b =
      then_get (new_inverter_relay config ConnectionName.relay_out_b_in_a)
        (with_three config a_in_a a_in_b)

  abbrev pub with_one : Config → PhaseRelay S → Result (TrackInverter S)
  with_one config a_in_a =
      then_get (new_inverter_relay config ConnectionName.relay_out_a_in_b) (with_two config a_in_a)

  unfoldable pub new_relays : Config → Result (TrackInverter S)
  unfolding new_inverter_relay
  new_relays config =
      then_get (new_inverter_relay config ConnectionName.relay_out_a_in_a) (with_one config)

  unfoldable pub new_track_inverter : Config → Result (TrackInverter S)
  unfolding new_relays
  new_track_inverter config = checked_type (is_track_inverter config.type) (new_relays config)

  -- The device, and the reader of the pin.
  unfoldable find_reader : Config → Result (Connection × DevicePin × Device S × Reader S)
  find_reader config = checked_type (is_binary_sensor config.type) (
      then_get (get_single_pin config ConnectionName.sensor) λ found.
        then_get (required (device_by_id found.1.device_id)) λ device.
          then_get (reader_if device.gpio device.adc found.0 found.1)
            λ reader. ok (found.0, found.1, device, reader))

  unfoldable pub new_binary_sensor : Config → M S (BinarySensor S)
  unfolding find_reader
  new_binary_sensor config = do
    (conn, pin, device, reader) ← lift (find_reader config)
    try_topics (mqtt_of device.gpio) conn pin.index
    pure (sensor_of reader conn)
