-- ===== src/Objects/Service.antt =====
-- pkg/service/objects/service.go, with the callbacks of switch.go and output.go: the objects of a
-- worker by their address, those that are configured, and how a request finds the object that it is
-- for. Constructors and calls of objects are parameters, as are the functions on addresses, which
-- stand in the API of BinkyNet, and `sort.Strings`.
pub mod Lookup
pub mod Pings
pub mod Tasks
use local_worker.Common.{
  ℕ, if◌then◌else◌, Bool, true, false, Option, none, some, List, [], ◌∷◌, M, Result, ok, err, Error,
}
use local_worker.Common.Texts.{Text, same_text}
use local_worker.Common.Maps.{Map, find, put, keys}
use local_worker.Registry.{configure_each, missing_from}

pub data ObjectType : Type 0 where
  binary_sensor binary_output magnetic_switch relay_switch servo_switch track_inverter : ObjectType
  -- Any other text.
  unsupported_type : ObjectType

pub record ObjectConfig : Type 0 where
  pub id : Text
  pub type : ObjectType

-- `JoinModuleLocal`, `SplitAddress` (its error is not looked at) and `GlobalModuleID`.
pub record Addresses : Type 0 where
  pub join_module_local : Text → Text → Text
  pub split_address : Text → Text × Text
  pub global_module_id : Text

-- The constructors take the configuration and the address.
pub record Constructors (O : Type 0) : Type 0 where
  pub new_binary_sensor : ObjectConfig → Text → Result O
  pub new_binary_output : ObjectConfig → Text → Result O
  pub new_magnetic_switch : ObjectConfig → Text → Result O
  pub new_relay_switch : ObjectConfig → Text → Result O
  pub new_servo_switch : ObjectConfig → Text → Result O
  pub new_track_inverter : ObjectConfig → Text → Result O

-- `has_requests` is false while the field `requestService` is nil.
pub record ObjectService (O : Type 0) : Type 0 where
  pub module_id : Text
  pub objects : Map O
  pub configured_objects : Map O
  pub has_requests : Bool

module _ {O : Type 0} (make : Constructors O) where
  unfoldable pub create_object : ObjectConfig → Text → Result O
  create_object c address = elim c.type [
    | binary_sensor ↦ make.new_binary_sensor c address
    | binary_output ↦ make.new_binary_output c address
    | magnetic_switch ↦ make.new_magnetic_switch c address
    | relay_switch ↦ make.new_relay_switch c address
    | servo_switch ↦ make.new_servo_switch c address
    | track_inverter ↦ make.new_track_inverter c address
    | unsupported_type ↦ err Error.invalid_argument
  ]

  -- An object that cannot be made is logged and left out.
  abbrev pub add_object : Text → Result O → Map O → Map O
  add_object address (ok o) objects = put address o objects
  add_object address (err e) objects = objects

  unfoldable pub create_objects : (Text → Text) → List ObjectConfig → Map O → Map O
  unfolding create_object
  create_objects address_of [] objects = objects
  create_objects address_of (c ∷ cs) objects =
      create_objects address_of cs
        (add_object (address_of c.id) (create_object c (address_of c.id)) objects)

  unfoldable pub new_service : Addresses → Text → List ObjectConfig → ObjectService O
  unfolding create_objects
  new_service addresses module_id configs = record {
    module_id = module_id;
    objects = create_objects (addresses.join_module_local module_id) configs [];
    configured_objects = [];
    has_requests = false;
  }

module _ {O W : Type 0} (call_configure : O → M W (Unit {0})) where
  -- The errors that are joined into one, and the service and the objects afterwards.
  unfoldable pub configure : ObjectService O → W → List Error × ObjectService O × W
  configure s w =
      let out = configure_each call_configure s.objects w in
      (out.0.1, record s { configured_objects = out.0.0 }, out.1)

abbrev is_global : Addresses → Text → Bool
is_global addresses address =
    same_text (addresses.split_address address).0 addresses.global_module_id

module _ {O : Type 0} where
  module _ (sort : List Text → List Text) where
    unfoldable get_configured_object_ids : ObjectService O → List Text
    get_configured_object_ids s = sort (keys s.configured_objects)

    unfoldable get_unconfigured_object_ids : ObjectService O → List Text
    get_unconfigured_object_ids s = sort (missing_from s.configured_objects s.objects)

  abbrev pub or_else : Option O → Option O → Option O
  or_else (some o) other = some o
  or_else none other = other

  module _ (addresses : Addresses) where
    -- The second lookup, which only a global address is given.
    abbrev pub global_object : Text → ObjectService O → Option O
    global_object address s =
        if is_global addresses address
        then (find (addresses.join_module_local s.module_id (addresses.split_address address).1)
            s.configured_objects)
        else none

    -- The object, if it is found, and whether the address is global.
    unfoldable pub object_by_address : Text → ObjectService O → Option O × Bool
    object_by_address address s = (
      or_else (find address s.configured_objects) (global_object address s),
      is_global addresses address,
    )

    module _ {X W : Type 0} (process_message : O → Option (X → M W (Unit {0}))) where
      -- The type assertion fails where an object has no `ProcessMessage` of the kind.
      abbrev process_with : Option (X → M W (Unit {0})) → X → M W (Unit {0})
      process_with (some f) message w = f message w
      process_with none message w = (err Error.unsupported, w)

      abbrev pub process_on : Option O → X → M W (Unit {0})
      process_on (some o) message w = process_with (process_message o) message w
      process_on none message w = (ok tt, w)

      -- The callback of a switch or output request: one for another module is ignored.
      unfoldable pub on_request : ObjectService O → Text → X → M W (Unit {0})
      unfolding object_by_address
      on_request s address message = process_on (object_by_address address s).0 message

-- `SetSwitchRequest` and `SetOutputRequest`: `publish` hands the message to the receivers that are
-- registered, whose errors are logged.
unfoldable set_request : {O X W : Type 0} → (X → W → W) → ObjectService O → X → M W (Unit {0})
set_request publish s message w =
    if s.has_requests then (ok tt, publish message w) else (err Error.unsupported, w)
