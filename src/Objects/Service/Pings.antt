-- ===== src/Objects/Service/Pings.antt =====
-- pkg/service/objects/service.go, `sendPingMessages`: what the worker tells the network master of
-- itself. The time is that of the clock in a round, in nanoseconds; a round yields the message that it
-- sends, if it sends one, and the delay before the next.
pub mod Uptime
use local_worker.Common.{
  ℕ, ◌-◌, ◌*◌, ◌/◌, ltb, if◌then◌else◌, Bool, true, false, ◌&&◌, not, Option, none, some, List, [],
  ◌∷◌, failed, Result,
}
use local_worker.Common.Texts.{Text}
use local_worker.Devices.Service.{Router, Status, online, is_status}

abbrev pub second : ℕ
second = 1_000_000_000

abbrev ping_log_interval : ℕ
ping_log_interval = 60 * second

-- What stands in every message of the worker.
pub record Identity : Type 0 where
  pub id : Text
  pub version : Text
  pub metrics_port : ℕ
  pub ssh_port : ℕ
  pub local_worker_service_port : ℕ

-- `LocalWorkerInfo`, without the fields that are the same for every worker.
pub record WorkerInfo : Type 0 where
  pub identity : Identity
  pub uptime : ℕ
  configured_device_ids : List Text
  configured_object_ids : List Text
  unconfigured_device_ids : List Text
  unconfigured_object_ids : List Text
  online_routers : List Router
  offline_routers : List Router

-- What a round finds: the time, the status of the devices, and what the services list.
pub record Situation : Type 0 where
  pub now : ℕ
  pub status : Status
  pub device_ids : List Text
  pub object_ids : List Text
  pub missing_device_ids : List Text
  pub missing_object_ids : List Text
  pub routers_online : List Router
  pub routers_offline : List Router
  -- The result of `SetLocalWorkerActual`, and whether the context has ended by then.
  pub sending : Result (Unit {0})
  pub context_done : Bool

pub record Pinger : Type 0 where
  pub start_time : ℕ
  pub was_not_online : Bool
  pub last_ping_log : ℕ

-- `time.Since`, for a clock that does not go back.
abbrev since : ℕ → ℕ → ℕ
since now start = now - start

abbrev pub restarted : ℕ → Pinger → Pinger
restarted now p =
    if p.was_not_online then record p { start_time = now; was_not_online = false } else p

abbrev pub message : Identity → ℕ → Situation → WorkerInfo
message identity start_time s = record {
  identity = identity;
  uptime = since s.now start_time / second;
  configured_device_ids = s.device_ids;
  configured_object_ids = s.object_ids;
  unconfigured_device_ids = s.missing_device_ids;
  unconfigured_object_ids = s.missing_object_ids;
  online_routers = s.routers_online;
  offline_routers = s.routers_offline;
}

-- The delay behind a ping, and the note of its log.
abbrev pub after_ping : Situation → Pinger → ℕ × Pinger
after_ping s p = if failed s.sending && not s.context_done then (3 * second, p) else (
  5 * second,
  if ltb ping_log_interval (since s.now p.last_ping_log)
      then record p { last_ping_log = s.now }
      else p,
)

unfoldable pub ping_round : Identity → Situation → Pinger → Option WorkerInfo × ℕ × Pinger
ping_round identity s p =
    if is_status s.status online
    then (let q = restarted s.now p in
        let out = after_ping s q in (some (message identity q.start_time s), out.0, out.1))
    else (none, second, record p { was_not_online = true })

abbrev add_message : Option WorkerInfo → List WorkerInfo → List WorkerInfo
add_message none ms = ms
add_message (some m) ms = m ∷ ms

-- The messages of the rounds, one after another.
unfoldable pub ping_rounds : Identity → List Situation → Pinger → List WorkerInfo × Pinger
unfolding ping_round
ping_rounds identity [] p = ([], p)
ping_rounds identity (s ∷ ss) p =
    let out = ping_round identity s p in
    let rest = ping_rounds identity ss out.2 in (add_message out.0 rest.0, rest.1)
