-- ===== src/Devices/Service/Creation.antt =====
-- `NewService` of pkg/service/devices/service.go: which constructor makes a device, for a worker with
-- hardware and for a virtual one. The constructors are parameters: each stands in a file of its own.
pub mod Created
pub mod Virtual
use local_worker.Common.{
  Bool, true, false, if◌then◌else◌, Option, none, some, List, [], ◌∷◌, Result, ok, err, Error,
}
use local_worker.Common.Texts.{Text}
use local_worker.Common.Maps.{Map, put}
use local_worker.Devices.{
  DeviceConfig, gpio, binky_car_sensor, ads1115, mcp23008, mcp23017, pca9685, pcf8574, mqtt_gpio,
  mqtt_servo, unsupported_type,
}
use local_worker.Devices.Service.{
  Status, unknown, online, Router, DeviceService, status_dev_id, router_status_device_id,
  default_mqtt_topic_prefix,
}

-- The constructors of the MQTT devices take the id, the id of the module and the prefix of topics.
pub record Constructors (D : Type 0) : Type 0 where
  pub new_local_gpio : DeviceConfig → Result D
  pub new_binky_car_sensor : DeviceConfig → Result D
  pub new_ads1115 : DeviceConfig → Result D
  pub new_mcp23008 : DeviceConfig → Result D
  pub new_mcp23017 : DeviceConfig → Result D
  pub new_pca9685 : DeviceConfig → Result D
  pub new_pcf8574 : DeviceConfig → Result D
  pub new_mqtt_gpio : Text → Text → Text → Result D
  pub new_mqtt_servo : Text → Text → Text → Result D
  pub new_mqtt_status_monitor : Text → Text → Text → Result D

abbrev pub after_ok : {A B : Type 0} → Result A → (A → Result B) → Result B
after_ok (ok a) f = f a
after_ok (err e) f = err e

module _ {D : Type 0} (make : Constructors D) (is_virtual : Bool) (module_id : Text) where
  abbrev mqtt_gpio_for : DeviceConfig → Result D
  mqtt_gpio_for c = make.new_mqtt_gpio c.id module_id (default_mqtt_topic_prefix module_id)

  abbrev mqtt_servo_for : DeviceConfig → Result D
  mqtt_servo_for c = make.new_mqtt_servo c.id module_id (default_mqtt_topic_prefix module_id)

  -- The switch on the type. A type that has no virtual implementation is an error there.
  unfoldable pub create_device : DeviceConfig → Result D
  create_device c = elim c.type [
    | gpio ↦ if is_virtual then err Error.unsupported else make.new_local_gpio c
    | binky_car_sensor ↦ if is_virtual then err Error.unsupported else make.new_binky_car_sensor c
    | ads1115 ↦ if is_virtual then err Error.unsupported else make.new_ads1115 c
    | mcp23008 ↦ if is_virtual then mqtt_gpio_for c else make.new_mcp23008 c
    | mcp23017 ↦ if is_virtual then mqtt_gpio_for c else make.new_mcp23017 c
    | pca9685 ↦ if is_virtual then mqtt_servo_for c else make.new_pca9685 c
    | pcf8574 ↦ if is_virtual then mqtt_gpio_for c else make.new_pcf8574 c
    | mqtt_gpio ↦ mqtt_gpio_for c
    | mqtt_servo ↦ mqtt_servo_for c
    | unsupported_type ↦ err Error.invalid_argument
  ]

  -- The loop over the configurations, which stops at the first error.
  unfoldable pub create_devices : List DeviceConfig → Map D → Result (Map D)
  unfolding create_device
  create_devices [] devices = ok devices
  create_devices (c ∷ cs) devices =
      after_ok (create_device c) (λ d. create_devices cs (put c.id d devices))

  abbrev pub monitor_for : Text → Text → Result D
  monitor_for id topic_module =
      make.new_mqtt_status_monitor id module_id (default_mqtt_topic_prefix topic_module)

  -- A status monitor for each router of a virtual worker.
  unfoldable pub create_monitors : List Router → Map D × Map Status → Result (Map D × Map Status)
  create_monitors [] made = ok made
  create_monitors (r ∷ rs) made =
      after_ok (monitor_for (router_status_device_id r.module_id) r.module_id) (λ d.
        create_monitors rs (
          put (router_status_device_id r.module_id) d made.0,
          put (router_status_device_id r.module_id) unknown made.1,
        ))

  -- Without routers the virtual worker monitors the status under its own module id; a worker with
  -- hardware is online.
  unfoldable pub create_status : List Router → Result (Map D × Map Status)
  unfolding create_monitors
  create_status routers = elim is_virtual [
    | false ↦ ok ([], (status_dev_id, online) ∷ [])
    | true ↦ elim routers [
      | [] ↦
          after_ok (monitor_for status_dev_id module_id)
            (λ d. ok ((status_dev_id, d) ∷ [], (status_dev_id, unknown) ∷ []))
      | r ∷ rs ↦ create_monitors (r ∷ rs) ([], [])
    ]
  ]

  abbrev service_of : List Router → Map Status → Map D → DeviceService D
  service_of routers statuses devices = record {
    module_id = module_id;
    routers = routers;
    devices = devices;
    configured_devices = [];
    last_statuses = statuses;
    last_uptime_seconds = [];
    last_ip_address = [];
  }

  unfoldable pub new_service : List Router → List DeviceConfig → Result (DeviceService D)
  unfolding create_status create_devices
  new_service routers configs = after_ok (create_status routers) (λ made.
      after_ok (create_devices configs made.0) (λ devices. ok (service_of routers made.1 devices)))
