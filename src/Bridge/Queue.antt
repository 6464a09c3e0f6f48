-- ===== src/Bridge/Queue.antt =====
-- The queue of pkg/service/bridge/i2c.go: `Execute` puts a request on a channel without a buffer, the
-- one goroutine of `queueProcessor` takes and runs them, and the caller waits for the result.
-- The calls of `Execute` are numbered in any way: `op i` is the `execute` of call `i`, with what it
-- does to the world. The scheduler is a list of events; an event that is not possible changes
-- nothing. The context of the processor never ends, and its channel is never closed.
pub mod Order
pub mod Sequential
use local_worker.Common.{
  ℕ, ◌==◌, if◌then◌else◌, Option, none, some, List, [], ◌∷◌, M, Result, err, Error,
}

-- A call at the `select`, which may not have begun yet; one whose request has been taken, with its
-- variables `result` and `done`; and one that has returned.
pub data Phase (A : Type 0) : Type 0 where
  sending : Phase A
  awaiting : Option (Result A) → Phase A
  returned : Result A → Phase A

-- `processor` is the call whose request runs.
pub record Queue (A W : Type 0) : Type 0 where
  pub phases : ℕ → Phase A
  pub processor : Option ℕ
  pub world : W

pub data Event : Type 0 where
  -- The processor receives the request of a call.
  takes : ℕ → Event
  -- The context of a call has ended with an error, and the `select` takes that case.
  cancels : ℕ → Error → Event
  -- The request that runs has stored its result.
  finishes : Event
  -- The loop of a call finds that its request is done.
  sees : ℕ → Event

abbrev pub put : {A : Type 0} → ℕ → Phase A → (ℕ → Phase A) → ℕ → Phase A
put i phase phases j = if i == j then phase else phases j

module _ {A W : Type 0} (op : ℕ → M W A) where
  abbrev pub take_if : ℕ → Option ℕ → Phase A → Queue A W → Queue A W
  take_if i none sending s = record s {
    phases = put i (awaiting none) s.phases;
    processor = some i;
  }
  take_if i _ _ s = s

  -- A call that has given its request away does not look at its context any more.
  abbrev pub cancel_if : ℕ → Error → Phase A → Queue A W → Queue A W
  cancel_if i e sending s = record s { phases = put i (returned (err e)) s.phases }
  cancel_if i e _ s = s

  -- Only the processor touches the bus, so that what it does in between is one step.
  abbrev pub finish_if : Option ℕ → Queue A W → Queue A W
  finish_if none s = s
  finish_if (some i) s = record s {
    phases = put i (awaiting (some (op i s.world).0)) s.phases;
    processor = none;
    world = (op i s.world).1;
  }

  abbrev pub see_if : ℕ → Phase A → Queue A W → Queue A W
  see_if i (awaiting (some r)) s = record s { phases = put i (returned r) s.phases }
  see_if i _ s = s

  unfoldable pub step : Event → Queue A W → Queue A W
  step (takes i) s = take_if i s.processor (s.phases i) s
  step (cancels i e) s = cancel_if i e (s.phases i) s
  step finishes s = finish_if s.processor s
  step (sees i) s = see_if i (s.phases i) s

  unfoldable pub run : List Event → Queue A W → Queue A W
  unfolding step
  run [] s = s
  run (e ∷ es) s = run es (step e s)

-- `NewI2CBus`: no call has been made, and the processor waits.
abbrev pub started : {A W : Type 0} → W → Queue A W
started w = record { phases = λ i. sending; processor = none; world = w }
