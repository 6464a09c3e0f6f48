-- ===== src/Objects/Service/Tasks.antt =====
-- pkg/service/objects/service.go, `Run`: what the service starts for the objects that are configured,
-- and the requests that it hands on itself.
pub mod Once
use local_worker.Common.{
  ℕ, if◌then◌else◌, Bool, true, false, ◌||◌, Option, none, some, List, [], ◌∷◌, ◌++◌, M, Result, ok,
  err,
}
use local_worker.Common.Texts.{Text}
use local_worker.Common.Maps.{Map}
use local_worker.Objects.Service.{ObjectService}

-- `ObjectType`: the values that `Type` of an object returns.
pub data TypeInstance : Type 0 where
  switch_type output_type binary_sensor_type : TypeInstance

abbrev pub same_type : TypeInstance → TypeInstance → Bool
same_type switch_type switch_type = true
same_type output_type output_type = true
same_type binary_sensor_type binary_sensor_type = true
same_type _ _ = false

-- The goroutines of `Run`.
pub data Task (O : Type 0) : Type 0 where
  run_statuses send_ping_messages : Task O
  run_object : Text → O → Task O
  run_type : TypeInstance → Task O
  wait_for_objects : Task O

abbrev pub was_visited : TypeInstance → List TypeInstance → Bool
was_visited t [] = false
was_visited t (v ∷ vs) = same_type v t || was_visited t vs

abbrev has_some : {O : Type 0} → Map O → Bool
has_some [] = false
has_some (x ∷ xs) = true

module _ {O : Type 0} (type_of : O → Option TypeInstance) where
  abbrev pub type_task : Option TypeInstance → List TypeInstance → List (Task O)
  type_task none visited = []
  type_task (some t) visited = if was_visited t visited then [] else run_type t ∷ []

  abbrev pub visit : Option TypeInstance → List TypeInstance → List TypeInstance
  visit none visited = visited
  visit (some t) visited = if was_visited t visited then visited else t ∷ visited

  -- The loop over the objects, given the types that run already.
  unfoldable pub start_each : List TypeInstance → Map O → List (Task O)
  start_each visited [] = []
  start_each visited ((address, obj) ∷ objects) =
      run_object address obj
      ∷ (type_task (type_of obj) visited ++ start_each (visit (type_of obj) visited) objects)

  abbrev pub tasks_for : Map O → List (Task O)
  tasks_for [] = []
  tasks_for objects =
      run_statuses ∷ send_ping_messages ∷ (start_each [] objects ++ (wait_for_objects ∷ []))

  -- Without an object that is configured, nothing is started, and no request is taken.
  unfoldable pub run : ObjectService O → List (Task O) × ObjectService O
  unfolding start_each
  run s =
      (tasks_for s.configured_objects, record s { has_requests = has_some s.configured_objects })

-- `SetPowerRequest`: the message goes to every object that is configured, whose errors are logged.
module _ {O P W : Type 0} (process_power_message : O → P → M W (Unit {0})) where
  unfoldable power_each : P → Map O → W → W
  power_each msg [] w = w
  power_each msg ((address, obj) ∷ objects) w =
      power_each msg objects (process_power_message obj msg w).1

  unfoldable pub set_power_request : ObjectService O → P → M W (Unit {0})
  unfolding power_each
  set_power_request s msg w = (ok tt, power_each msg s.configured_objects w)
