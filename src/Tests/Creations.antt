-- ===== src/Tests/Creations.antt =====
-- The theorems on the id of the host, on a constructor, and on what the object service runs.
use mathlib.Core.List.{Perm, count, replicate}
use mathlib.Core.List.Perm
use native.Mathlib.Decide.{ℕ_discrete}
use local_worker.Common.{
  ℕ, if◌then◌else◌, Bool, true, false, Option, none, some, List, [], ◌∷◌, ◌++◌, map, ok, err, Error,
  ◌≡◌, refl, ap₂,
}
use local_worker.Common.Texts.{Text}
use local_worker.Devices.Service.{online, offline}
use local_worker.Main.HostId.{Interface, System, TextCalls, create_host_id}
use local_worker.Main.HostId.Order.{create_host_id-Perm}
use local_worker.Objects.Service.{ObjectType, ObjectService}
use local_worker.Objects.Service.Tasks.{TypeInstance, switch_type, output_type, run}
use local_worker.Objects.Service.Tasks.Once.{objects_of, times, has_type, run-each_once}
use local_worker.Objects.Service.Pings.{Identity, Situation, Pinger, message, ping_rounds}
use local_worker.Objects.Service.Pings.Uptime.{ping_rounds-since_online}
use local_worker.Objects.Creation.{get_single_pin, ConnectionName, Connection, Config, Device, pos}
use local_worker.Objects.Creation.Outputs.{
  find_gpio, new_inverter_relay, new_relays, new_track_inverter,
}
use local_worker.Objects.Creation.Created.{AllUsable, UsesAll, new_track_inverter-exact}
use local_worker.Objects.Creation.Bounds.{Yields}
use local_worker.Tests.Outputs.{Lines, line_pins}

Text-discrete : Discrete Text
Text-discrete = hlevel (ℕ_discrete)

-- A sort of texts that are either of two addresses, the first one first.
abbrev addr_a : Text
addr_a = b'a' ∷ []

abbrev addr_b : Text
addr_b = b'b' ∷ []

abbrev sort_two : List Text → List Text
sort_two l =
    replicate (count Text-discrete addr_a l) addr_a
    ++ replicate (count Text-discrete addr_b l) addr_b

sort_two-Perm : (xs ys : List Text) → Perm xs ys → sort_two xs ≡ sort_two ys
sort_two-Perm xs ys same =
    ap₂ (λ m n. replicate m addr_a ++ replicate n addr_b) (Perm.count-eq Text-discrete same addr_a)
      (Perm.count-eq Text-discrete same addr_b)

abbrev text_calls : TextCalls
text_calls = record { trim_space = λ t. t; sha1_hex = λ t. t; sort = sort_two }

abbrev port : Text → Interface
port addr = record { up = true; loopback = false; hardware_addr = addr }

abbrev host : System
host = record {
  machine_id = err Error.unsupported;
  interfaces = ok [];
  goos = b'l' ∷ [];
  goarch = b'r' ∷ [];
}

create_host_id-Perm_example :
    create_host_id text_calls (record host {
      machine_id = err Error.unsupported;
      interfaces = ok (port addr_a ∷ port addr_b ∷ []);
    })
    ≡ create_host_id text_calls (record host {
      machine_id = err Error.unsupported;
      interfaces = ok (port addr_b ∷ port addr_a ∷ []);
    })
create_host_id-Perm_example =
    create_host_id-Perm text_calls sort_two-Perm host Error.unsupported
      (port addr_a ∷ port addr_b ∷ []) (port addr_b ∷ port addr_a ∷ []) (Perm.swap _ _ [])

-- One device with the pins of the test lines, and a connection with the pin of its name.
abbrev lines_device : Device Lines
lines_device = record { gpio = some line_pins; pwm = none; adc = none }

abbrev connection_at : ℕ → Connection
connection_at n = record {
  pins = record { device_id = []; index = n } ∷ [];
  get_bool_config = λ k. false;
  get_int_config = λ k. pos 0;
  get_string_config = λ k. [];
}

abbrev relay_pin : ConnectionName → Option Connection
relay_pin ConnectionName.relay_out_a_in_a = some (connection_at 1)
relay_pin ConnectionName.relay_out_a_in_b = some (connection_at 2)
relay_pin ConnectionName.relay_out_b_in_a = some (connection_at 3)
relay_pin ConnectionName.relay_out_b_in_b = some (connection_at 4)
relay_pin _ = none

abbrev inverter_config : Config
inverter_config = record {
  type = ObjectType.track_inverter;
  connection_by_name = relay_pin;
  get_bool_config = λ k. false;
}

new_track_inverter-exact_example :
    Yields
      (UsesAll (λ id. some lines_device) inverter_config)
      (¬ AllUsable (λ id. some lines_device) inverter_config)
      (new_track_inverter (λ id. some lines_device) inverter_config)
new_track_inverter-exact_example =
    new_track_inverter-exact (λ id. some lines_device) inverter_config refl

-- Objects are their types.
abbrev three_objects : ObjectService TypeInstance
three_objects = record {
  module_id = [];
  objects = [];
  configured_objects = (addr_a, switch_type) ∷ (addr_b, output_type) ∷ ([], switch_type) ∷ [];
  has_requests = false;
}

run-each_once_example :
    (objects_of (run some three_objects).0 ≡ three_objects.configured_objects)
    × (times switch_type (run some three_objects).0
        ≡ (if has_type some switch_type three_objects.configured_objects then 1 else 0))
run-each_once_example = run-each_once some three_objects switch_type

abbrev worker_identity : Identity
worker_identity = record {
  id = addr_a;
  version = [];
  metrics_port = 7129;
  ssh_port = 22;
  local_worker_service_port = 7119;
}

abbrev situation_at : ℕ → Bool → Situation
situation_at now is_up = record {
  now = now;
  status = if is_up then online else offline;
  device_ids = [];
  object_ids = [];
  missing_device_ids = [];
  missing_object_ids = [];
  routers_online = [];
  routers_offline = [];
  sending = ok tt;
  context_done = false;
}

abbrev pinger : Pinger
pinger = record { start_time = 0; was_not_online = false; last_ping_log = 0 }

ping_rounds-since_online_example :
    (ping_rounds worker_identity
      (situation_at 1 false ∷ situation_at 5 true ∷ situation_at 9 true ∷ [])
      pinger).0
    ≡ map (message worker_identity 5) (situation_at 5 true ∷ situation_at 9 true ∷ [])
ping_rounds-since_online_example =
    ping_rounds-since_online worker_identity (situation_at 1 false) (situation_at 5 true)
      (situation_at 9 true ∷ []) pinger refl (refl, (refl, tt))

-- The constructor makes the inverter.
new_track_inverter_run :
    Yields (λ o. o.b_in_b.pin ≡ 4) ⊥ (new_track_inverter (λ id. some lines_device) inverter_config)
unfolding new_track_inverter new_relays new_inverter_relay find_gpio get_single_pin
new_track_inverter_run = refl
