-- ===== src/Main/Requests.antt =====
-- pkg/service/service_api.go: the requests that the process takes from the network, and how they come
-- to the services of the worker. `getRequestService` is the network control service while one runs;
-- its own field is the worker that runs last, and that one has an object service once it is created.
use local_worker.Common.{Option, none, some, M, Error, throw}

-- `RequestService` of pkg/service/intf: a call for each kind of request, with the message that it is
-- given.
pub record RequestService (P O S D W : Type 0) : Type 0 where
  pub set_power_request : P → M W (Unit {0})
  set_output_request : O → M W (Unit {0})
  set_switch_request : S → M W (Unit {0})
  set_device_discovery_request : D → M W (Unit {0})

-- A worker, with the object service that it has made.
pub record WorkerHandle (R : Type 0) : Type 0 where
  pub obj_service : Option R

-- `GetRequestService` of the worker.
abbrev request_service_of_worker : {R : Type 0} → WorkerHandle R → Option R
request_service_of_worker w = w.obj_service

pub record NcsHandle (R : Type 0) : Type 0 where
  pub getrequest_service : Option (WorkerHandle R)

-- `GetRequestService` of the network control service.
abbrev worker_request_service : {R : Type 0} → Option (WorkerHandle R) → Option R
worker_request_service none = none
worker_request_service (some w) = request_service_of_worker w

unfoldable pub request_service_of_ncs : {R : Type 0} → NcsHandle R → Option R
request_service_of_ncs ncs = worker_request_service ncs.getrequest_service

module _ {P O S D W : Type 0} where
  abbrev with_service :
      (RequestService P O S D W → M W (Unit {0}))
      → Option (RequestService P O S D W)
      → M W (Unit {0})
  with_service call none = throw Error.unsupported
  with_service call (some rs) = call rs

  -- What the four handlers do alike.
  abbrev pub forward :
      (RequestService P O S D W → M W (Unit {0}))
      → Option (NcsHandle (RequestService P O S D W))
      → M W (Unit {0})
  forward call none = throw Error.unsupported
  forward call (some ncs) = with_service call (request_service_of_ncs ncs)

  module _ (get_request_service : Option (NcsHandle (RequestService P O S D W))) where
    unfoldable pub set_power_request : P → M W (Unit {0})
    unfolding request_service_of_ncs
    set_power_request msg = forward (λ rs. rs.set_power_request msg) get_request_service

    unfoldable set_output_request : O → M W (Unit {0})
    unfolding request_service_of_ncs
    set_output_request msg = forward (λ rs. rs.set_output_request msg) get_request_service

    unfoldable set_switch_request : S → M W (Unit {0})
    unfolding request_service_of_ncs
    set_switch_request msg = forward (λ rs. rs.set_switch_request msg) get_request_service

    unfoldable set_device_discovery_request : D → M W (Unit {0})
    unfolding request_service_of_ncs
    set_device_discovery_request msg =
        forward (λ rs. rs.set_device_discovery_request msg) get_request_service

-- Requests for locs are not implemented.
unfoldable set_loc_request : {L W : Type 0} → L → M W (Unit {0})
set_loc_request msg = throw Error.unsupported
