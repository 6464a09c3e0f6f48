-- ===== src/Devices/Service/Configuring.antt =====
-- Configured and unconfigured devices of service.go.
use mathlib.Core.List.{Perm}
use mathlib.Core.List.Perm
use local_worker.Common.{◌+◌, List, ◌++◌, ◌≡◌, length}
use local_worker.Common.Texts.{Text}
use local_worker.Common.Maps.{find, keys, Distinct}
use local_worker.Registry.Partition.{
  configure_each-Perm, length-configure_each, find-configure_each, trace, succeeded,
}
use local_worker.Devices.Service.{
  DeviceService, DeviceCalls, configure, device_by_id, get_configured_device_ids,
  get_unconfigured_device_ids,
}

module _ {D W : Type 0} (calls : DeviceCalls D W) where
  module _ (sort : List Text → List Text) (sorted : (l : List Text) → Perm (sort l) l) where
    -- With distinct device ids, and a sort that only reorders: after `Configure`, the configured and
    -- the unconfigured ids are together the ids of all devices, each listed once.
    pub configure-Perm :
        (s : DeviceService D) (w : W)
        → Distinct s.devices
        → Perm
            (get_configured_device_ids sort (configure calls s w).1
              ++ get_unconfigured_device_ids sort (configure calls s w).1)
            (keys s.devices)
    unfolding configure get_configured_device_ids get_unconfigured_device_ids
    configure-Perm s w h =
        Perm.trans (Perm.append (sorted _) (sorted _))
          (configure_each-Perm calls.configure s.devices w h)

  -- With distinct device ids: after `Configure`, `DeviceByID` yields the device of an id exactly if
  -- the id is a device's and the `Configure` of that device succeeded; each device is called once,
  -- in turn, whatever the calls before it returned.
  pub device_by_id-configure :
      (s : DeviceService D) (w : W) (id : Text)
      → Distinct s.devices
      → device_by_id id (configure calls s w).1
        ≡ succeeded (find id (trace calls.configure s.devices w))
  unfolding configure device_by_id
  device_by_id-configure s w id h = find-configure_each calls.configure s.devices w id h

  -- `Configure` returns as many errors as there are devices that are not configured by it.
  length-configure :
      (s : DeviceService D) (w : W)
      → length (configure calls s w).1.configured_devices + length (configure calls s w).0
        ≡ length s.devices
  unfolding configure
  length-configure s w = length-configure_each calls.configure s.devices w
