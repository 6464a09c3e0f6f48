-- ===== src/Objects/Creation/Switches.antt =====
-- The constructors of relay_switch.go, magnetic_switch.go and servo_switch.go.
use local_worker.Common.{
  ℕ, ◌*◌, ltb, if◌then◌else◌, Bool, true, false, Option, none, some, M, Result, ok, err, Error,
  lift, pure, ◌>>=◌, ◌>>◌,
}
use local_worker.Common.Texts.{Text}
use local_worker.Objects.{Gpio, Pwm, Mqtt, straight}
use local_worker.Objects.Service.{ObjectType}
use local_worker.Objects.RelaySwitch.{Relay, RelaySwitch}
use local_worker.Objects.MagneticSwitch.{MagnetPin, MagneticSwitch}
use local_worker.Objects.PhaseRelay.{PhaseRelay}
use local_worker.Objects.ServoSwitch.{ServoSwitch, idle}
use local_worker.Objects.Creation.{
  ConnectionName, ConfigKey, ObjectConfigKey, ℤ, pos, negsuc, uint32, from_zero, DevicePin,
  Connection, Config, Device, then_get, or_invalid, get_single_pin, get_gpio_for_pin,
  get_pwm_for_pin,
}

abbrev is_relay_switch : ObjectType → Bool
is_relay_switch ObjectType.relay_switch = true
is_relay_switch _ = false

abbrev is_magnetic_switch : ObjectType → Bool
is_magnetic_switch ObjectType.magnetic_switch = true
is_magnetic_switch _ = false

abbrev is_servo_switch : ObjectType → Bool
is_servo_switch ObjectType.servo_switch = true
is_servo_switch _ = false

abbrev pub checked_type : {A : Type 0} → Bool → Result A → Result A
checked_type fits r = if fits then r else err Error.invalid_argument

-- `maxInt(1, x)`
abbrev at_least_one : ℤ → ℕ
at_least_one (pos n) = if ltb n 1 then 1 else n
at_least_one (negsuc n) = 1

abbrev wrapped_error : {A : Type 0} → Result A → Result A
wrapped_error (ok a) = ok a
wrapped_error (err e) = err (Error.wrapped e)

module _ {S : Type 0} where
  -- A pulse below 0 ends where it begins, as one of 0 does.
  abbrev relay_of : Connection → DevicePin → Gpio S → Relay S
  relay_of conn pin device = record {
    device = device;
    pin = pin.index;
    invert = conn.get_bool_config ConfigKey.invert;
    pulse = from_zero (conn.get_int_config ConfigKey.pulse) * 1_000_000;
    mqtt_state_topic = conn.get_string_config ConfigKey.mqtt_state_topic;
    mqtt_command_topic = conn.get_string_config ConfigKey.mqtt_command_topic;
  }

  -- The relay of a phase, which starts as one that was activated.
  abbrev phase_relay_of : Connection → DevicePin → Gpio S → PhaseRelay S
  phase_relay_of conn pin device = record {
    device = device;
    pin = pin.index;
    last_active = true;
    invert = conn.get_bool_config ConfigKey.invert;
    mqtt_state_topic = conn.get_string_config ConfigKey.mqtt_state_topic;
    mqtt_command_topic = conn.get_string_config ConfigKey.mqtt_command_topic;
  }

  -- `state` and what follows it are the values with which `Run` starts.
  abbrev switch_of : Connection → DevicePin → Pwm S → ServoSwitch S
  switch_of conn pin device =
      let straight_pl = uint32 (conn.get_int_config ConfigKey.servo_straight) in
      let off_pl = uint32 (conn.get_int_config ConfigKey.servo_off) in
      record {
        servo = record {
          device = device;
          index = pin.index;
          straight_pl = straight_pl;
          off_pl = off_pl;
          step_size = at_least_one (conn.get_int_config ConfigKey.servo_step);
          phase_straight = none;
          phase_off = none;
        };
        send_actual_needed = false;
        current_pl = off_pl;
        target_pl = straight_pl;
        state = idle;
        run_target = off_pl;
        target_direction = straight;
        last_send_actual = 0;
        start_servo_move_time = 0;
        servo_settle_done_time = 0;
      }

  -- The two topics of a servo that is an MQTT device.
  abbrev pub set_topics : Option (Mqtt S) → Connection → DevicePin → M S (Unit {0})
  set_topics none conn pin = pure tt
  set_topics (some mqtt) conn pin = do
    mqtt.set_state_topic pin.index (conn.get_string_config ConfigKey.mqtt_state_topic)
    mqtt.set_command_topic pin.index (conn.get_string_config ConfigKey.mqtt_command_topic)

  abbrev with_phases : ServoSwitch S → Option (PhaseRelay S) → Option (PhaseRelay S) → ServoSwitch S
  with_phases sw straight_phase off_phase = record sw {
    servo = record sw.servo { phase_straight = straight_phase; phase_off = off_phase };
  }

module _ {S : Type 0} (device_by_id : Text → Option (Device S)) where
  unfoldable new_relay : Config → ConnectionName → Result (Relay S)
  new_relay config name = then_get (get_single_pin config name) λ found.
      then_get (or_invalid (get_gpio_for_pin device_by_id found.1))
        λ device. ok (relay_of found.0 found.1 device)

  unfoldable pub new_relay_switch : Config → Result (RelaySwitch S)
  unfolding new_relay
  new_relay_switch config = checked_type (is_relay_switch config.type) (
      then_get (new_relay config ConnectionName.straight_relay) λ straight_relay.
        then_get (new_relay config ConnectionName.off_relay) λ off_relay. ok (record {
          straight_relay = straight_relay;
          off_relay = off_relay;
          disable_all_needed = false;
          disable_all_time = 0;
          send_actual_needed = false;
          requested_direction = straight;
        }))

  unfoldable new_magnet_pin : Config → ConnectionName → Result (MagnetPin S)
  new_magnet_pin config name = then_get (or_invalid (get_single_pin config name)) λ found.
      then_get (or_invalid (get_gpio_for_pin device_by_id found.1)) λ device. ok (record {
        device = device;
        pin = found.1.index;
        invert = found.0.get_bool_config ConfigKey.invert;
      })

  unfoldable pub new_magnetic_switch : Config → Result (MagneticSwitch S)
  unfolding new_magnet_pin
  new_magnetic_switch config = checked_type (is_magnetic_switch config.type) (
      then_get (new_magnet_pin config ConnectionName.magnetic_straight_a) λ straight_a.
        then_get (new_magnet_pin config ConnectionName.magnetic_straight_b) λ straight_b.
          then_get (new_magnet_pin config ConnectionName.magnetic_off_a) λ off_a.
            then_get (new_magnet_pin config ConnectionName.magnetic_off_b) λ off_b. ok (record {
              straight_magnet = record {
                a = straight_a;
                b = straight_b;
                invert_pins = config.get_bool_config ObjectConfigKey.magnetic_straight_invert;
              };
              off_magnet = record {
                a = off_a;
                b = off_b;
                invert_pins = config.get_bool_config ObjectConfigKey.magnetic_off_invert;
              };
              always_enabled = config.get_bool_config ObjectConfigKey.magnetic_always_enabled;
              disable_all_needed = false;
              send_actual_needed = false;
              requested_direction = straight;
            }))

  abbrev phase_if : Config → ConnectionName → Option Connection → Result (Option (PhaseRelay S))
  phase_if config name none = ok none
  phase_if config name (some _) = then_get (get_single_pin config name) λ found.
      then_get (wrapped_error (get_gpio_for_pin device_by_id found.1))
        λ device. ok (some (phase_relay_of found.0 found.1 device))

  unfoldable new_phase_relay : Config → ConnectionName → Result (Option (PhaseRelay S))
  new_phase_relay config name = phase_if config name (config.connection_by_name name)

  -- The connection, the pin and the device of the servo.
  unfoldable find_servo : Config → Result (Connection × DevicePin × Pwm S)
  find_servo config = checked_type (is_servo_switch config.type) (
      then_get (get_single_pin config ConnectionName.servo) λ found.
        then_get (or_invalid (get_pwm_for_pin device_by_id found.1))
          λ device. ok (found.0, found.1, device))

  unfoldable pub new_servo_switch : Config → M S (ServoSwitch S)
  unfolding find_servo new_phase_relay
  new_servo_switch config = do
    (conn, pin, device) ← lift (find_servo config)
    set_topics device.mqtt conn pin
    straight_phase ← lift (new_phase_relay config ConnectionName.phase_straight_relay)
    off_phase ← lift (new_phase_relay config ConnectionName.phase_off_relay)
    pure (with_phases (switch_of conn pin device) straight_phase off_phase)
