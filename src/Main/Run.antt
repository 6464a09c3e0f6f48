-- ===== src/Main/Run.antt =====
-- pkg/service/service.go: the loop of `Run` beside the listener that hears of network masters. The
-- listener calls `nwControlChanged` for one announcement after another; that cancels the network
-- control service and then waits until the loop takes the announcement from the channel. The
-- scheduler is a list of events; an event that is not possible changes nothing. `I` is what is
-- announced of a network master. The process is not virtual (Virtual is the loop of one that
-- is); leds and the log are left out.
pub mod Latest
pub mod Changes
pub mod Virtual
use local_worker.Common.{Bool, true, false, Option, none, some, List, [], ◌∷◌, if◌then◌else◌}

-- Where the loop is: at the `select`, with an announcement on the way to a connection, in `Run` of the
-- network control service with a connection or without one (after a failed dial), or at its end.
pub data Place (I : Type 0) : Type 0 where
  selecting : Place I
  dialing : I → Place I
  serving : I → Bool → Place I
  returned : Place I

-- `info` is the variable `nwControlInfo`; `has_cancel` says that `ncsCancel` is set, and `canceled`
-- that the context it belongs to is cancelled. `pending` is what the listener waits to send.
pub record Process (I : Type 0) : Type 0 where
  pub place : Place I
  pub info : Option I
  pub has_cancel : Bool
  pub canceled : Bool
  pub pending : Option I
  pub context_done : Bool

pub data Event (I : Type 0) : Type 0 where
  announced : I → Event I
  receives : Event I
  retries : Event I
  dials : Event I
  dial_fails : Event I
  -- `Run` of the network control service returns.
  service_ends : Event I
  -- The context ends, and the `select` takes that case.
  context_ends : Event I
  leaves : Event I

module _ {I : Type 0} where
  -- `nwControlChanged`, while the listener has nothing to send.
  abbrev pub announce_if : Option I → I → Process I → Process I
  announce_if none i p = record p {
    pending = some i;
    canceled = if p.has_cancel then true else p.canceled;
  }
  announce_if (some waiting) i p = p

  -- Behind the `select`: the loop starts again until it knows a network master.
  abbrev pub place_for : Option I → Place I
  place_for none = selecting
  place_for (some i) = dialing i

  abbrev pub receive_if : Place I → Option I → Process I → Process I
  receive_if selecting (some i) p = record p { place = dialing i; info = some i; pending = none }
  receive_if _ _ p = p

  abbrev pub retry_if : Place I → Process I → Process I
  retry_if selecting p = record p { place = place_for p.info }
  retry_if _ p = p

  -- The new context is made of that of the process.
  abbrev pub serve_if : Bool → Place I → Process I → Process I
  serve_if connected (dialing i) p = record p {
    place = serving i connected;
    info = if connected then p.info else none;
    has_cancel = true;
    canceled = p.context_done;
  }
  serve_if connected _ p = p

  -- Behind it the context is cancelled in any case.
  abbrev pub end_if : Place I → Process I → Process I
  end_if (serving i connected) p = record p {
    place = if p.context_done then returned else selecting;
    canceled = true;
  }
  end_if _ p = p

  abbrev pub leave_if : Place I → Bool → Process I → Process I
  leave_if selecting true p = record p { place = returned }
  leave_if _ _ p = p

  unfoldable pub step : Event I → Process I → Process I
  step (announced i) p = announce_if p.pending i p
  step receives p = receive_if p.place p.pending p
  step retries p = retry_if p.place p
  step dials p = serve_if true p.place p
  step dial_fails p = serve_if false p.place p
  step service_ends p = end_if p.place p
  step context_ends p = record p {
    canceled = if p.has_cancel then true else p.canceled;
    context_done = true;
  }
  step leaves p = leave_if p.place p.context_done p

  unfoldable pub run_events : List (Event I) → Process I → Process I
  unfolding step
  run_events [] p = p
  run_events (e ∷ es) p = run_events es (step e p)

  abbrev pub started : Process I
  started = record {
    place = selecting;
    info = none;
    has_cancel = false;
    canceled = false;
    pending = none;
    context_done = false;
  }
