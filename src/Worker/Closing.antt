-- ===== src/Worker/Closing.antt =====
-- However a worker of worker.go ends, its devices are closed last.
use local_worker.Common.{List, [], ◌∷◌, Result, ok, err, Error, ◌≡◌, refl, sym, ap, ◌∙◌, subst}
use local_worker.Common.Maps.{Map}
use local_worker.Devices.Service.{DeviceService, DeviceCalls, close, close_each, add_error}
use local_worker.Devices.Service.Creation as Creation
use local_worker.Worker.{Parts, WorkerConfig, run, run_opened, run_created, with_devices}

abbrev pub AllSafe : {D W : Type 0} → (D → W → Type 0) → Map D → W → Type 0
AllSafe Safe [] w = Unit
AllSafe Safe ((k, d) ∷ m) w = Safe d w × AllSafe Safe m w

module _ {D W : Type 0} (calls : DeviceCalls D W) (Safe : D → W → Type 0)
    (makes_safe : (d : D) (w : W) → Safe d (calls.close d w).1)
    (keeps_safe : (d e : D) (w : W) → Safe d w → Safe d (calls.close e w).1) where
  add_error-world : (r : Result (Unit {0})) (out : List Error × W) → (add_error r out).1 ≡ out.1
  add_error-world (ok u) out = refl
  add_error-world (err e) out = refl

  close_each-keeps : (m : Map D) (d : D) (w : W) → Safe d w → Safe d (close_each calls m w).1
  unfolding close_each
  close_each-keeps [] d w h = h
  close_each-keeps ((k, e) ∷ m) d w h =
      subst (Safe d)
        (sym (add_error-world (calls.close e w).0 (close_each calls m (calls.close e w).1)))
        (close_each-keeps m d (calls.close e w).1 (keeps_safe d e w h))

  close_each-AllSafe : (m : Map D) (w : W) → AllSafe Safe m (close_each calls m w).1
  unfolding close_each
  close_each-AllSafe [] w = tt
  close_each-AllSafe ((k, d) ∷ m) w =
      subst (AllSafe Safe ((k, d) ∷ m))
        (sym (add_error-world (calls.close d w).0 (close_each calls m (calls.close d w).1)))
        (
          close_each-keeps m d (calls.close d w).1 (makes_safe d w),
          close_each-AllSafe m (calls.close d w).1,
        )

module _ {D O W : Type 0} (parts : Parts D O W) (config : WorkerConfig)
    (Safe : D → W → Type 0) where
  -- When the `Close` of a device leaves it safe, and that of another device keeps it so: once the bus
  -- is open and the devices are created, the worker leaves all of its devices safe, whether it ends
  -- because its context has ended, because a service fails, or without an error, and whatever devices
  -- and objects could not be configured.
  pub run-AllSafe :
      (devices : DeviceService D) (w v : W)
      → ((d : D) (x : W) → Safe d (parts.device_calls.close d x).1)
      → ((d e : D) (x : W) → Safe d x → Safe d (parts.device_calls.close e x).1)
      → parts.open_bus w ≡ (ok tt, v)
      → Creation.new_service parts.device_constructors config.is_virtual config.module_id
          config.routers config.device_configs
        ≡ ok devices
      → AllSafe Safe devices.devices (run parts config w).1
  unfolding run close
  run-AllSafe devices w v makes keeps opened created =
      subst (λ x. AllSafe Safe devices.devices x.1)
        (sym (ap (run_opened parts config) opened ∙ ap (λ r. run_created parts config r v) created))
        (close_each-AllSafe parts.device_calls Safe makes keeps devices.devices
          (with_devices parts config devices v).1)
