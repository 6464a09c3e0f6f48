-- ===== src/Tests/Services.antt =====
-- The theorems on the device service, at a worker of three devices of which the second does not
-- configure, and at a virtual worker of two routers.
use mathlib.Core.List.{Perm}
use mathlib.Core.List.Perm
use local_worker.Common.{
  Bool, ℕ, ◌+◌, ◌==◌, if◌then◌else◌, true, false, none, some, List, [], ◌∷◌, ◌++◌, ok, err, Error,
  ◌≡◌, refl, arith,
}
use local_worker.Common.Texts.{Text}
use local_worker.Common.Maps.{find}
use local_worker.Registry.{configure_each}
use local_worker.Registry.Partition.{trace, succeeded}
use local_worker.Devices.{DeviceConfig, mcp23008, pca9685}
use local_worker.Devices.Service.{
  DeviceService, DeviceCalls, Router, online, offline, configure, device_by_id,
  get_configured_device_ids, get_unconfigured_device_ids, router_status_device_id,
}
use local_worker.Devices.Service.Configuring.{configure-Perm, device_by_id-configure}
use local_worker.Worker.{Parts, WorkerConfig, run}
use local_worker.Worker.Closing.{AllSafe, run-AllSafe}
use local_worker.Devices.Service.{status_dev_id}
use local_worker.Devices.Service.Creation.{
  Constructors, create_device, create_devices, create_status, new_service,
}
use local_worker.Devices.Service.Creation.Virtual.{new_service-virtual, with_hardware}

abbrev id_a : Text
id_a = b'a' ∷ []

abbrev id_b : Text
id_b = b'b' ∷ []

abbrev id_c : Text
id_c = b'c' ∷ []

-- A device is a number; 2 does not configure. The world counts the calls.
abbrev counting : DeviceCalls ℕ ℕ
counting = record {
  configure = λ d w. if d == 2 then (err (Error.reported w), w + 1) else (ok tt, w + 1);
  close = λ d w. (ok tt, w + 1);
}

abbrev router_x : Router
router_x = record { module_id = b'x' ∷ []; uptime = 5; ip_address = [] }

abbrev router_y : Router
router_y = record { module_id = b'y' ∷ []; uptime = 6; ip_address = [] }

abbrev three : DeviceService ℕ
three = record {
  module_id = b'm' ∷ [];
  routers = router_x ∷ router_y ∷ [];
  devices = (id_a, 1) ∷ (id_b, 2) ∷ (id_c, 3) ∷ [];
  configured_devices = [];
  last_statuses =
      (router_status_device_id (b'x' ∷ []), online)
      ∷ (router_status_device_id (b'y' ∷ []), offline)
      ∷ [];
  last_uptime_seconds = (router_status_device_id (b'x' ∷ []), 77) ∷ [];
  last_ip_address = [];
}

abbrev unsorted : List Text → List Text
unsorted l = l

configure-Perm_example :
    Perm
      (get_configured_device_ids unsorted (configure counting three 0).1
        ++ get_unconfigured_device_ids unsorted (configure counting three 0).1)
      (id_a ∷ id_b ∷ id_c ∷ [])
configure-Perm_example =
    configure-Perm counting unsorted (λ l. Perm.refl l) three 0 (refl, (refl, (refl, tt)))

device_by_id-configure_example :
    device_by_id id_c (configure counting three 0).1
    ≡ succeeded (find id_c (trace counting.configure three.devices 0))
device_by_id-configure_example =
    device_by_id-configure counting three 0 id_c (refl, (refl, (refl, tt)))

configure_run :
    ((configure counting three 0).0 ≡ Error.reported 1 ∷ [])
    × (device_by_id id_b (configure counting three 0).1 ≡ none)
    × (device_by_id id_c (configure counting three 0).1 ≡ some 3)
unfolding configure device_by_id configure_each
configure_run = (refl, refl, refl)

-- Each constructor makes a device of its own number, and the local pins cannot be made.
abbrev numbered : Constructors ℕ
numbered = record {
  new_local_gpio = λ c. err Error.invalid_argument;
  new_binky_car_sensor = λ c. ok 1;
  new_ads1115 = λ c. ok 2;
  new_mcp23008 = λ c. ok 3;
  new_mcp23017 = λ c. ok 4;
  new_pca9685 = λ c. ok 5;
  new_pcf8574 = λ c. ok 6;
  new_mqtt_gpio = λ id m p. ok 7;
  new_mqtt_servo = λ id m p. ok 8;
  new_mqtt_status_monitor = λ id m p. ok 9;
}

abbrev broken : Constructors ℕ
broken = record numbered {
  new_mcp23008 = λ c. err Error.unsupported;
  new_pca9685 = λ c. err Error.unsupported;
}

abbrev config_a : DeviceConfig
config_a = record { id = id_a; type = mcp23008; address = [] }

abbrev config_b : DeviceConfig
config_b = record { id = id_b; type = pca9685; address = [] }

new_service-virtual_example :
    new_service
      (with_hardware numbered (b'm' ∷ []) broken)
      true
      (b'm' ∷ [])
      (router_x ∷ [])
      (config_a ∷ config_b ∷ [])
    ≡ new_service numbered true (b'm' ∷ []) (router_x ∷ []) (config_a ∷ config_b ∷ [])
new_service-virtual_example =
    new_service-virtual numbered (b'm' ∷ []) broken (router_x ∷ []) (config_a ∷ config_b ∷ [])

-- The world tells which devices are closed.
abbrev closing : DeviceCalls ℕ (ℕ → Bool)
closing = record {
  configure = λ d w. (err Error.unsupported, w);
  close = λ d w. (err Error.unsupported, λ e. if e == d then true else w e);
}

abbrev failing_parts : Parts ℕ ℕ (ℕ → Bool)
failing_parts = record {
  open_bus = λ w. (ok tt, w);
  device_constructors = numbered;
  device_calls = closing;
  object_constructors = λ s. record {
    new_binary_sensor = λ c a. err Error.invalid_argument;
    new_binary_output = λ c a. err Error.invalid_argument;
    new_magnetic_switch = λ c a. err Error.invalid_argument;
    new_relay_switch = λ c a. err Error.invalid_argument;
    new_servo_switch = λ c a. err Error.invalid_argument;
    new_track_inverter = λ c a. err Error.invalid_argument;
  };
  addresses = record {
    join_module_local = λ m id. m ++ id;
    split_address = λ a. (a, []);
    global_module_id = [];
  };
  configure_object = λ o w. (ok tt, w);
  check_context = λ w. (ok tt, w);
  serve = λ devices objects w. (err Error.unsupported, w);
}

abbrev two_devices : WorkerConfig
two_devices = record {
  module_id = b'm' ∷ [];
  is_virtual = false;
  routers = [];
  device_configs = config_a ∷ config_b ∷ [];
  object_configs = [];
}

abbrev made_service : DeviceService ℕ
made_service = record {
  module_id = b'm' ∷ [];
  routers = [];
  devices = (id_a, 3) ∷ (id_b, 5) ∷ [];
  configured_devices = [];
  last_statuses = (status_dev_id, online) ∷ [];
  last_uptime_seconds = [];
  last_ip_address = [];
}

run-AllSafe_example :
    AllSafe (λ d w. w d ≡ true) made_service.devices (run failing_parts two_devices (λ d. false)).1
unfolding new_service create_status create_devices create_device
run-AllSafe_example =
    run-AllSafe failing_parts two_devices (λ d w. w d ≡ true) made_service (λ d. false) (λ d. false)
      (λ d x. ground arith) (λ d e x h. ground arith) refl refl
