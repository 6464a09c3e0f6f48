-- ===== src/Objects/BinarySensor.antt =====
-- pkg/service/objects/binary_sensor.go, and its readers binary_sensor_gpio_reader.go and
-- binary_sensor_adc_reader.go. Times are in nanoseconds.
pub mod Publishing
use local_worker.Common.{
  ℕ, ◌+◌, ◌-◌, ◌*◌, ltb, leb, ◌==◌, if◌then◌else◌, same_bool, Bool, true, false, not, ◌||◌, Option,
  none, some, M, Result, ok, err, pure, attempt, failed, ◌>>=◌, ◌>>◌,
}
use local_worker.Devices.{input}
use local_worker.Objects.{Gpio, Site, on_hardware, get_object, modify_object}

-- `binarySensorReader`
pub record Reader (S : Type 0) : Type 0 where
  pub configure : M S (Unit {0})
  pub read : M S Bool

-- `binarySensorGPIOReader`
unfoldable pub gpio_reader : {S : Type 0} → Gpio S → ℕ → Reader S
gpio_reader device pin = record {
  configure = device.set_direction pin input;
  read = device.get pin;
}

-- `binarySensorADCReader` over the `Get` of an ADC; what it remembers for its debug log is left out.
unfoldable pub adc_reader : {S : Type 0} → (ℕ → M S ℕ) → ℕ → ℕ → Reader S
adc_reader get pin threshold = record {
  configure = pure tt;
  read = (do analog ← get pin; pure (leb threshold analog));
}

-- From `last_value` on the fields are local variables of `Run`. `actual_value` is the value of the one
-- `SensorState` that all messages of the sensor point to: it is what a message says when it is sent.
pub record BinarySensor (S : Type 0) : Type 0 where
  pub reader : Reader S
  pub invert : Bool
  pub send_now : Bool
  pub last_power : Bool
  pub last_value : Bool
  pub changes : ℕ
  pub recent_errors : ℕ
  pub last_sent : ℕ
  pub actual_value : ℕ

abbrev last_sensor_sent_threshold : ℕ
last_sensor_sent_threshold = 15 * 1_000_000_000

-- The value of a round: a failed read counts as active.
abbrev pub sensed : Bool → Result Bool → Bool
sensed invert (ok v) = if invert then not v else v
sensed invert (err e) = true

abbrev count_errors : ℕ → Result Bool → ℕ
count_errors n (ok v) = 0
count_errors n (err e) = n + 1

-- `boolToInt32`
abbrev pub bool_to_int32 : Bool → ℕ
bool_to_int32 v = if v then 1 else 0

module _ {S : Type 0} where
  unfoldable pub configure : M (Site (BinarySensor S) S) (Unit {0})
  configure = do o ← get_object; on_hardware o.reader.configure

  -- What a round does with the value: `accepted` is what `PublishSensorActual` returns, if it is called.
  unfoldable pub report : ℕ → Bool → Bool → M (Site (BinarySensor S) S) Bool
  report now accepted value = do
    o ← get_object
    modify_object (λ o. record o { send_now = false })
    if o.send_now
          || not (same_bool o.last_value value)
          || o.changes == 0
          || ltb last_sensor_sent_threshold (now - o.last_sent)
        then (do
          modify_object (λ o. record o { actual_value = bool_to_int32 value })
          (if accepted
              then modify_object
                  (λ o. record o { last_value = value; changes = o.changes + 1; last_sent = now })
              else modify_object (λ o. record o { send_now = true }))
          pure true)
        else pure false

  -- One round of the loop of `Run`, and whether it calls `PublishSensorActual`.
  unfoldable pub run_step : ℕ → Bool → M (Site (BinarySensor S) S) Bool
  unfolding report
  run_step now accepted = do
    o ← get_object
    r ← attempt (on_hardware o.reader.read)
    modify_object (λ o. record o { recent_errors = count_errors o.recent_errors r })
    report now accepted (sensed o.invert r)

  unfoldable pub process_power_message : Bool → M (Site (BinarySensor S) S) (Unit {0})
  process_power_message enabled = modify_object λ o.
      if same_bool o.last_power enabled
      then o
      else (if enabled
          then record o { last_power = enabled; send_now = true }
          else record o { last_power = enabled })
