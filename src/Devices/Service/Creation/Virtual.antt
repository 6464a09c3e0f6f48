-- ===== src/Devices/Service/Creation/Virtual.antt =====
-- A virtual worker of service.go and the devices that need hardware.
use local_worker.Common.{true, List, [], ◌∷◌, Result, ok, err, ◌≡◌, refl, ap, ◌∙◌}
use local_worker.Common.Maps.{Map, put}
use local_worker.Common.Texts.{Text}
use local_worker.Devices.{
  DeviceConfig, gpio, binky_car_sensor, ads1115, mcp23008, mcp23017, pca9685, pcf8574, mqtt_gpio,
  mqtt_servo, unsupported_type,
}
use local_worker.Devices.Service.{Status, Router, router_status_device_id}
use local_worker.Devices.Service.Creation.{
  Constructors, after_ok, create_device, create_devices, create_monitors, create_status,
  monitor_for, new_service,
}

after_ok-same :
    {A B : Type 0} (r r' : Result A) (f g : A → Result B)
    → r ≡ r'
    → ((a : A) → f a ≡ g a)
    → after_ok r f ≡ after_ok r' g
after_ok-same r (ok a) f g e h = ap (λ x. after_ok x f) e ∙ h a
after_ok-same r (err x) f g e h = ap (λ x. after_ok x f) e

module _ {D : Type 0} (make : Constructors D) (module_id : Text) where
  -- The constructors of another set for the devices that need hardware.
  abbrev pub with_hardware : Constructors D → Constructors D
  with_hardware hardware = record make {
    new_local_gpio = hardware.new_local_gpio;
    new_binky_car_sensor = hardware.new_binky_car_sensor;
    new_ads1115 = hardware.new_ads1115;
    new_mcp23008 = hardware.new_mcp23008;
    new_mcp23017 = hardware.new_mcp23017;
    new_pca9685 = hardware.new_pca9685;
    new_pcf8574 = hardware.new_pcf8574;
  }

  module _ (hardware : Constructors D) where
    create_device-virtual :
        (c : DeviceConfig)
        → create_device (with_hardware hardware) true module_id c
          ≡ create_device make true module_id c
    unfolding create_device
    create_device-virtual c = elim c.type [
      | gpio ↦ refl
      | binky_car_sensor ↦ refl
      | ads1115 ↦ refl
      | mcp23008 ↦ refl
      | mcp23017 ↦ refl
      | pca9685 ↦ refl
      | pcf8574 ↦ refl
      | mqtt_gpio ↦ refl
      | mqtt_servo ↦ refl
      | unsupported_type ↦ refl
    ]

    create_devices-virtual :
        (cs : List DeviceConfig) (m : Map D)
        → create_devices (with_hardware hardware) true module_id cs m
          ≡ create_devices make true module_id cs m
    unfolding create_devices
    create_devices-virtual [] m = refl
    create_devices-virtual (c ∷ cs) m =
        after_ok-same (create_device (with_hardware hardware) true module_id c)
          (create_device make true module_id c) _ _ (create_device-virtual c)
          (λ d. create_devices-virtual cs (put c.id d m))

    create_monitors-virtual :
        (rs : List Router) (out : Map D × Map Status)
        → create_monitors (with_hardware hardware) true module_id rs out
          ≡ create_monitors make true module_id rs out
    unfolding create_monitors
    create_monitors-virtual [] out = refl
    create_monitors-virtual (r ∷ rs) out =
        after_ok-same
          (monitor_for make true module_id (router_status_device_id r.module_id) r.module_id)
          (monitor_for make true module_id (router_status_device_id r.module_id) r.module_id) _ _
          refl (λ d. create_monitors-virtual rs _)

    create_status-virtual :
        (rs : List Router)
        → create_status (with_hardware hardware) true module_id rs
          ≡ create_status make true module_id rs
    unfolding create_status
    create_status-virtual [] = refl
    create_status-virtual (r ∷ rs) = create_monitors-virtual (r ∷ rs) ([], [])

    -- A virtual service calls no constructor of a device that needs hardware: with any others in
    -- their place, `NewService` makes the same service or returns the same error.
    pub new_service-virtual :
        (rs : List Router) (cs : List DeviceConfig)
        → new_service (with_hardware hardware) true module_id rs cs
          ≡ new_service make true module_id rs cs
    unfolding new_service
    new_service-virtual rs cs =
        after_ok-same (create_status (with_hardware hardware) true module_id rs)
          (create_status make true module_id rs) _ _ (create_status-virtual rs)
          (λ a.
            after_ok-same (create_devices (with_hardware hardware) true module_id cs a.0)
              (create_devices make true module_id cs a.0) _ _ (create_devices-virtual cs a.0)
              (λ m. refl))
