-- ===== src/Objects/TrackInverter.antt =====
-- pkg/service/objects/track_inverter.go: four relays that connect the two outputs of a track to its
-- two inputs, straight (`default`) or crossed (`reverse`). The constructor leaves no relay nil. The
-- waits between the calls have no effect here.
pub mod Safety
use local_worker.Common.{
  ℕ, ◌==◌, if◌then◌else◌, Bool, true, false, not, ◌||◌, Option, none, some, M, pure, ignore, ◌>>=◌,
  ◌>>◌,
}
use local_worker.Objects.{Site, get_object, modify_object}
use local_worker.Objects.PhaseRelay
use local_worker.Objects.PhaseRelay.{PhaseRelay, zoom}

-- `TrackInverterState` of the API.
pub data TrackInverterState : Type 0 where
  default reverse : TrackInverterState
  other : ℕ → TrackInverterState

abbrev same_state : TrackInverterState → TrackInverterState → Bool
same_state default default = true
same_state reverse reverse = true
same_state (other j) (other k) = j == k
same_state _ _ = false

-- `initialized` is the local variable of `Run`.
pub record TrackInverter (S : Type 0) : Type 0 where
  pub a_in_a : PhaseRelay S
  pub a_in_b : PhaseRelay S
  pub b_in_a : PhaseRelay S
  pub b_in_b : PhaseRelay S
  pub target_state : TrackInverterState
  pub current_state : TrackInverterState
  pub send_actual_needed : Bool
  pub initialized : Bool

-- The message of `PublishOutputActual`.
pub record InverterActual : Type 0 where
  pub request : TrackInverterState
  pub actual : TrackInverterState

module _ {S : Type 0} where
  abbrev at_a_in_a : {A : Type 0} → M (Site (PhaseRelay S) S) A → M (Site (TrackInverter S) S) A
  at_a_in_a = zoom (λ o. o.a_in_a) (λ r o. record o { a_in_a = r })

  abbrev at_a_in_b : {A : Type 0} → M (Site (PhaseRelay S) S) A → M (Site (TrackInverter S) S) A
  at_a_in_b = zoom (λ o. o.a_in_b) (λ r o. record o { a_in_b = r })

  abbrev at_b_in_a : {A : Type 0} → M (Site (PhaseRelay S) S) A → M (Site (TrackInverter S) S) A
  at_b_in_a = zoom (λ o. o.b_in_a) (λ r o. record o { b_in_a = r })

  abbrev at_b_in_b : {A : Type 0} → M (Site (PhaseRelay S) S) A → M (Site (TrackInverter S) S) A
  at_b_in_b = zoom (λ o. o.b_in_b) (λ r o. record o { b_in_b = r })

  configure_once : M (Site (TrackInverter S) S) (Unit {0})
  configure_once = do
    at_a_in_a PhaseRelay.configure
    at_a_in_b PhaseRelay.configure
    at_b_in_a PhaseRelay.configure
    at_b_in_b PhaseRelay.configure

  unfoldable pub configure : M (Site (TrackInverter S) S) (Unit {0})
  unfolding configure_once
  configure = do configure_once; configure_once; configure_once; configure_once; configure_once

  -- Every relay is released; an error is logged and the next one is tried.
  unfoldable pub release_all : M (Site (TrackInverter S) S) (Unit {0})
  release_all = do
    ignore (at_a_in_a PhaseRelay.deactivate_relay)
    ignore (at_a_in_b PhaseRelay.deactivate_relay)
    ignore (at_b_in_a PhaseRelay.deactivate_relay)
    ignore (at_b_in_b PhaseRelay.deactivate_relay)

  unfoldable pub connect : TrackInverterState → M (Site (TrackInverter S) S) (Unit {0})
  connect default = do
    ignore (at_a_in_a PhaseRelay.activate_relay)
    ignore (at_b_in_b PhaseRelay.activate_relay)
  connect reverse = do
    ignore (at_a_in_b PhaseRelay.activate_relay)
    ignore (at_b_in_a PhaseRelay.activate_relay)
  connect (other _) = pure tt

  unfoldable pub process_message : TrackInverterState → M (Site (TrackInverter S) S) (Unit {0})
  process_message value =
      modify_object (λ o. record o { target_state = value; send_actual_needed = true })

  -- A request that comes in the meantime; requests share no lock with `Run`.
  abbrev pub request_comes : Option TrackInverterState → M (Site (TrackInverter S) S) (Unit {0})
  request_comes none = pure tt
  request_comes (some value) = process_message value

  -- The body of the `if`, with the requests that come before and after the tests of the target, which
  -- stand behind the release and its wait. The state that is noted is read again in the end.
  unfoldable pub move :
      Option TrackInverterState
      → Option TrackInverterState
      → M (Site (TrackInverter S) S) (Unit {0})
  unfolding release_all connect process_message
  move before behind = do
    release_all
    request_comes before
    o ← get_object
    connect o.target_state
    request_comes behind
    modify_object (λ o. record o { current_state = o.target_state; initialized = true })

  -- One round of the loop of `Run`, with the requests that come during a move, and with the message
  -- that it publishes.
  unfoldable run_step :
      Option TrackInverterState
      → Option TrackInverterState
      → M (Site (TrackInverter S) S) (Option InverterActual)
  run_step before behind = do
    o ← get_object
    (if not o.initialized || not (same_state o.target_state o.current_state)
        then move before behind
        else pure tt)
    o ← get_object
    if o.send_actual_needed
        then (do
          modify_object (λ o. record o { send_actual_needed = false })
          pure (some (record { request = o.target_state; actual = o.target_state })))
        else pure none

  unfoldable pub process_power_message : Bool → M (Site (TrackInverter S) S) (Unit {0})
  process_power_message enabled =
      if enabled then modify_object (λ o. record o { send_actual_needed = true }) else pure tt
