-- ===== src/Devices/Service.antt =====
-- pkg/service/devices/service.go: the devices of a worker by their id, those that are configured,
-- the status of the routers that the virtual worker hears of, and the light that shows activity.
-- The calls of a device are a parameter; `sort.Strings` is too.
pub mod Creation
pub mod Statuses
pub mod Activity
pub mod Configuring
use local_worker.Common.{
  ℕ, suc, ◌+◌, ◌==◌, ltb, if◌then◌else◌, Bool, true, false, not, ◌||◌, Option, none, some, map,
  List, [], ◌∷◌, ◌++◌, M, Result, ok, err, Error, length,
}
use local_worker.Common.Texts.{Text, same_text, to_lower}
use local_worker.Common.Maps.{Map, find, find_or, put, keys}
use local_worker.Registry.{configure_each, missing_from}

pub data Status : Type 0 where
  unknown online offline : Status

abbrev pub is_status : Status → Status → Bool
is_status unknown unknown = true
is_status online online = true
is_status offline offline = true
is_status _ _ = false

-- `RouterInfo`, with the bit pattern of its uptime, an integer that a router sends. A service changes the routers that it was given in place.
pub record Router : Type 0 where
  pub module_id : Text
  pub uptime : ℕ
  pub ip_address : Text

-- `statusDevID` is "statmon".
abbrev pub status_dev_id : Text
status_dev_id = b's' ∷ b't' ∷ b'a' ∷ b't' ∷ b'm' ∷ b'o' ∷ b'n' ∷ []

abbrev pub router_status_device_id : Text → Text
router_status_device_id router_module_id = status_dev_id ++ (b'-' ∷ router_module_id)

-- "/binky/%s/"
abbrev pub default_mqtt_topic_prefix : Text → Text
default_mqtt_topic_prefix module_id =
    to_lower ((b'/' ∷ b'b' ∷ b'i' ∷ b'n' ∷ b'k' ∷ b'y' ∷ b'/' ∷ []) ++ module_id ++ (b'/' ∷ []))

pub record DeviceService (D : Type 0) : Type 0 where
  pub module_id : Text
  pub routers : List Router
  pub devices : Map D
  pub configured_devices : Map D
  pub last_statuses : Map Status
  pub last_uptime_seconds : Map ℕ
  pub last_ip_address : Map Text

-- What the service calls of a device.
pub record DeviceCalls (D W : Type 0) : Type 0 where
  pub configure : D → M W (Unit {0})
  pub close : D → M W (Unit {0})

abbrev pub add_error : {W : Type 0} → Result (Unit {0}) → List Error × W → List Error × W
add_error (ok u) out = out
add_error (err e) (errors, w) = (e ∷ errors, w)

module _ {D W : Type 0} (calls : DeviceCalls D W) where
  unfoldable pub close_each : Map D → W → List Error × W
  close_each [] w = ([], w)
  close_each ((k, d) ∷ m) w = add_error (calls.close d w).0 (close_each m (calls.close d w).1)

  -- The errors that are joined into one, and the service and the devices afterwards.
  unfoldable pub configure : DeviceService D → W → List Error × DeviceService D × W
  configure s w =
      let out = configure_each calls.configure s.devices w in
      (out.0.1, record s { configured_devices = out.0.0 }, out.1)

  unfoldable pub close : DeviceService D → W → List Error × W
  unfolding close_each
  close s w = close_each s.devices w

-- The step of the fold over all statuses.
abbrev pub combine : Status → Status → Status
combine a b =
    if is_status a online || is_status b online
    then online
    else (if is_status a offline || is_status b offline then offline else unknown)

abbrev pub reduce_statuses : Status → Map Status → Status
reduce_statuses acc [] = acc
reduce_statuses acc ((k, s) ∷ m) = reduce_statuses (combine acc s) m

abbrev pub status_of_all : Map Status → Status
status_of_all [] = unknown
status_of_all ((k, s) ∷ m) = reduce_statuses s ((k, s) ∷ m)

abbrev status_or_all : Map Status → Option Status → Status
status_or_all m (some s) = s
status_or_all m none = status_of_all m

abbrev is_empty : Text → Bool
is_empty [] = true
is_empty (x ∷ xs) = false

abbrev pub cleared : Router → Router
cleared r = record r { uptime = 0; ip_address = [] }

-- A walk over the routers: those that pass are changed and listed.
abbrev pub walk : (Router → Bool) → (Router → Router) → List Router → List Router × List Router
walk passes change [] = ([], [])
walk passes change (r ∷ rs) =
    let rest = walk passes change rs in
    if passes r then (change r ∷ rest.0, change r ∷ rest.1) else (rest.0, r ∷ rest.1)

module _ {D : Type 0} where
  unfoldable pub device_by_id : Text → DeviceService D → Option D
  device_by_id id s = find id s.configured_devices

  module _ (sort : List Text → List Text) where
    unfoldable pub get_configured_device_ids : DeviceService D → List Text
    get_configured_device_ids s = sort (keys s.configured_devices)

    unfoldable pub get_unconfigured_device_ids : DeviceService D → List Text
    get_unconfigured_device_ids s = sort (missing_from s.configured_devices s.devices)

  unfoldable pub get_status : Text → DeviceService D → Status
  get_status router_module_id s =
      if is_empty router_module_id
      then status_or_all s.last_statuses (find status_dev_id s.last_statuses)
      else find_or unknown (router_status_device_id router_module_id) s.last_statuses

  abbrev pub is_online : DeviceService D → Router → Bool
  is_online s r = is_status (get_status r.module_id s) online

  -- The router with the uptime and address last heard of.
  abbrev pub refreshed : DeviceService D → Router → Router
  refreshed s r = record r {
    uptime = find_or 0 (router_status_device_id r.module_id) s.last_uptime_seconds;
    ip_address = find_or [] (router_status_device_id r.module_id) s.last_ip_address;
  }

  unfoldable pub get_online_router_infos : DeviceService D → List Router × DeviceService D
  unfolding get_status
  get_online_router_infos s =
      let out = walk (is_online s) (refreshed s) s.routers in (out.0, record s { routers = out.1 })

  unfoldable pub get_offline_router_infos : DeviceService D → List Router × DeviceService D
  unfolding get_status
  get_offline_router_infos s =
      let out = walk (λ r. not (is_online s r)) cleared s.routers in
      (out.0, record s { routers = out.1 })

-- `DiscoverResult`
pub record DiscoverResult : Type 0 where
  pub id : Text
  pub addresses : List Text

abbrev report_to :
    {W : Type 0} → Option (DiscoverResult → M W (Unit {0})) → DiscoverResult → M W (Unit {0})
report_to none result w = (ok tt, w)
report_to (some send) result w = send result w

-- `detect` is `DetectSlaveAddresses` of the bus, `hex` the text of an address, and `client` the call of
-- the network master, if there is one.
unfoldable perform_device_discovery :
    {D W : Type 0}
    → (W → List ℕ × W)
    → (ℕ → Text)
    → Option (DiscoverResult → M W (Unit {0}))
    → DeviceService D
    → M W (Unit {0})
perform_device_discovery detect hex client s w =
    report_to client (record { id = s.module_id; addresses = map hex (detect w).0 }) (detect w).1

-- What the loop of `runActiveNotify` keeps, and what a tick makes it do with the red light.
pub record Notifier : Type 0 where
  pub last_active_count : ℕ
  pub count : ℕ

pub data Light : Type 0 where
  nothing blink off : Light

-- One tick, at which the counter of activity reads `active`.
unfoldable pub notify : ℕ → Notifier → Light × Notifier
notify active n =
    if active == n.last_active_count
    then (if ltb n.count 20
        then (nothing, record n { count = n.count + 1 })
        else (off, record n { count = 0 }))
    else (blink, record { last_active_count = active; count = 0 })
