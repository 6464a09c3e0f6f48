-- ===== src/Devices/Mqtt/StatusMonitor.antt =====
-- pkg/service/devices/mqtt-status-monitor.go: what a virtual worker hears of a router, and the
-- functions that service.go gives it to keep what it has heard. `strings.TrimSpace`, `strconv.Atoi`
-- and the suffixes of topics, which stand in the API of BinkyNet, are parameters.
pub mod Heard
use local_worker.Common.{
  ℕ, ◌==◌, if◌then◌else◌, Bool, true, false, not, Option, none, some, List, [], ◌∷◌, ◌++◌, M,
  Result, ok, err, Error, wrap, ◌>>=◌, ◌>>◌,
}
use local_worker.Common.Texts.{Text, same_text, has_suffix, trim_suffix}
use local_worker.Common.Maps.{Map, put}
use local_worker.Bridge.{Host, on_world, modify_driver, get_driver, on_active}
use local_worker.Devices.Mqtt.{MqttClient, hash}
use local_worker.Devices.Service.{Status, unknown, online, offline, is_status, DeviceService}

pub record StatusMonitor : Type 0 where
  pub topic_prefix : Text
  pub has_client : Bool
  pub last_status : Status
  pub last_ip_address : Text

pub record Parsing : Type 0 where
  pub trim_space : Text → Text
  pub atoi : Text → Result ℕ
  pub status_topic_suffix : Text
  pub uptime_topic_suffix : Text
  pub ip_address_topic_suffix : Text

-- A call of `onStatusChange`, `onUptimeSecondsChange` or `onIpAddressChange`.
pub data Change : Type 0 where
  status_change : Status → Change
  uptime_change : ℕ → Change
  ip_address_change : Text → Change

unfoldable new_status_monitor : Text → StatusMonitor
new_status_monitor prefix = record {
  topic_prefix = prefix;
  has_client = false;
  last_status = unknown;
  last_ip_address = [];
}

-- "online" and "offline"
abbrev online_text : Text
online_text = b'o' ∷ b'n' ∷ b'l' ∷ b'i' ∷ b'n' ∷ b'e' ∷ []

abbrev offline_text : Text
offline_text = b'o' ∷ b'f' ∷ b'f' ∷ b'l' ∷ b'i' ∷ b'n' ∷ b'e' ∷ []

abbrev pub status_of_text : Text → Option Status
status_of_text payload =
    if same_text payload online_text
    then some online
    else (if same_text payload offline_text then some offline else none)

abbrev pub new_status : Option Status → StatusMonitor → Option Change × StatusMonitor
new_status none d = (none, d)
new_status (some status) d =
    if is_status d.last_status status
    then (none, d)
    else (some (status_change status), record d { last_status = status })

unfoldable pub on_status_message : Text → StatusMonitor → Option Change × StatusMonitor
on_status_message payload d = new_status (status_of_text payload) d

abbrev pub new_uptime : Result ℕ → StatusMonitor → Option Change × StatusMonitor
new_uptime (ok seconds) d = (some (uptime_change seconds), d)
new_uptime (err e) d = (none, d)

unfoldable pub on_ip_address_message : Text → StatusMonitor → Option Change × StatusMonitor
on_ip_address_message payload d =
    if same_text d.last_ip_address payload
    then (none, d)
    else (some (ip_address_change payload), record d { last_ip_address = payload })

module _ (parsing : Parsing) where
  unfoldable pub on_uptime_message : Text → StatusMonitor → Option Change × StatusMonitor
  on_uptime_message payload d = new_uptime (parsing.atoi payload) d

  unfoldable pub on_message : Text → Text → StatusMonitor → Option Change × StatusMonitor
  unfolding on_status_message on_uptime_message on_ip_address_message
  on_message topic message d =
      if has_suffix topic parsing.status_topic_suffix
      then on_status_message (parsing.trim_space message) d
      else (if has_suffix topic parsing.uptime_topic_suffix
          then on_uptime_message (parsing.trim_space message) d
          else (if has_suffix topic parsing.ip_address_topic_suffix
              then on_ip_address_message (parsing.trim_space message) d
              else (none, d)))

-- What `NewService` of service.go gives the monitor of a device id to call.
unfoldable pub apply_change :
    {D : Type 0} → Text → Option Change → DeviceService D → DeviceService D
apply_change id none s = s
apply_change id (some (status_change x)) s = record s { last_statuses = put id x s.last_statuses }
apply_change id (some (uptime_change x)) s = record s {
  last_uptime_seconds = put id x s.last_uptime_seconds;
}
apply_change id (some (ip_address_change x)) s = record s {
  last_ip_address = put id x s.last_ip_address;
}

module _ {W : Type 0} (client : MqttClient W) where
  unfoldable pub configure : M (Host StatusMonitor W) (Unit {0})
  configure = modify_driver (λ d. record d { has_client = true }) >> wrap (on_world client.connect)

  abbrev pub disconnected : Bool → M (Host StatusMonitor W) (Unit {0})
  disconnected false s = (ok tt, s)
  disconnected true s = (
    ok tt,
    record s {
      driver = record (s.driver) { has_client = false };
      world = client.disconnect s.world;
    },
  )

  unfoldable pub close : M (Host StatusMonitor W) (Unit {0})
  close = do d ← get_driver; disconnected d.has_client; on_active

-- The topics that a monitor subscribes to.
abbrev topic_query : Text → Text
topic_query prefix = trim_suffix prefix (b'/' ∷ []) ++ (b'/' ∷ hash)
