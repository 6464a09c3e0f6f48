-- ===== src/Worker.antt =====
-- pkg/service/worker/worker.go: what a worker does with its configuration, from the opening of the
-- bus to the closing of its devices. The running of both services, with the broadcast of the worker,
-- is one call here. Constructors of devices and objects and their calls are parameters.
pub mod Closing
use local_worker.Common.{Bool, List, [], ◌∷◌, M, Result, ok, err, Error}
use local_worker.Common.Texts.{Text}
use local_worker.Devices.{DeviceConfig}
use local_worker.Devices.Service as Devices
use local_worker.Devices.Service.{DeviceService, DeviceCalls, Router}
use local_worker.Devices.Service.Creation as Creation
use local_worker.Objects.Service as Objects
use local_worker.Objects.Service.{ObjectService, ObjectConfig, Addresses}

-- `serve` runs the services until the context ends or one of them fails.
pub record Parts (D O W : Type 0) : Type 0 where
  pub open_bus : M W (Unit {0})
  pub device_constructors : Creation.Constructors D
  pub device_calls : DeviceCalls D W
  pub object_constructors : DeviceService D → Objects.Constructors O
  pub addresses : Addresses
  pub configure_object : O → M W (Unit {0})
  pub check_context : M W (Unit {0})
  pub serve : DeviceService D → ObjectService O → M W (Unit {0})

pub record WorkerConfig : Type 0 where
  pub module_id : Text
  pub is_virtual : Bool
  pub routers : List Router
  pub device_configs : List DeviceConfig
  pub object_configs : List ObjectConfig

module _ {D O W : Type 0} (parts : Parts D O W) (config : WorkerConfig) where
  -- An error that is returned with a message around it.
  abbrev wrapped_result : Result (Unit {0}) × W → Result (Unit {0}) × W
  wrapped_result (ok u, w) = (ok u, w)
  wrapped_result (err e, w) = (err (Error.wrapped e), w)

  abbrev pub serve_if :
      DeviceService D → ObjectService O → Result (Unit {0}) × W → Result (Unit {0}) × W
  serve_if devices objects (ok u, w) = wrapped_result (parts.serve devices objects w)
  serve_if devices objects (err e, w) = (err e, w)

  -- From the creation of the objects on; errors of `Configure` are logged.
  abbrev with_objects : DeviceService D → W → Result (Unit {0}) × W
  with_objects devices w =
      let out =
        Objects.configure parts.configure_object
          (Objects.new_service (parts.object_constructors devices) parts.addresses config.module_id
            config.object_configs)
          w in
      serve_if devices out.1 (parts.check_context out.2)

  abbrev objects_if : DeviceService D → Result (Unit {0}) × W → Result (Unit {0}) × W
  objects_if devices (ok u, w) = with_objects devices w
  objects_if devices (err e, w) = (err e, w)

  abbrev pub with_devices : DeviceService D → W → Result (Unit {0}) × W
  with_devices devices w =
      let out = Devices.configure parts.device_calls devices w in
      objects_if out.1 (parts.check_context out.2)

  -- The deferred call, whose error is not looked at.
  abbrev pub closing : DeviceService D → Result (Unit {0}) × W → Result (Unit {0}) × W
  closing devices (r, w) = (r, (Devices.close parts.device_calls devices w).1)

  abbrev pub run_created : Result (DeviceService D) → W → Result (Unit {0}) × W
  run_created (ok devices) w = closing devices (with_devices devices w)
  run_created (err e) w = (err (Error.wrapped e), w)

  abbrev pub run_opened : Result (Unit {0}) × W → Result (Unit {0}) × W
  run_opened (ok u, w) =
      run_created
        (Creation.new_service parts.device_constructors config.is_virtual config.module_id
          config.routers config.device_configs)
        w
  run_opened (err e, w) = (err (Error.wrapped e), w)

  unfoldable pub run : M W (Unit {0})
  run w = run_opened (parts.open_bus w)
