-- ===== src/Ncs/Runner.antt =====
-- pkg/service/ncs/worker_runner.go: the goroutines that `runWorkers` starts, around the semaphore that
-- lets one worker run at a time. The scheduler is a list of events. Goroutines stand in a list with
-- the newest first, and an event that names one takes it by its place there; an event that is not
-- possible changes nothing.
pub mod Units
pub mod Exclusive
pub mod Replaced
pub mod Attempts
use local_worker.Common.{
  ℕ, zero, suc, ◌+◌, ◌-◌, ◌%◌, ◌^◌, ltb, if◌then◌else◌, Bool, true, false, ◌&&◌, ◌||◌, Option, none,
  some, List, [], ◌∷◌, map,
}
use local_worker.Common.Texts.{Text}
use local_worker.Ncs.{Config, Worker, new_worker}

-- Where a goroutine is: before `Acquire` returns, before the check of the context, in
-- `runWorkerWithConfig`, behind its end, or in `log.Fatal`, which ends the process.
pub data Phase : Type 0 where
  waiting holding running ended fatal : Phase

abbrev pub is_waiting : Phase → Bool
is_waiting waiting = true
is_waiting _ = false

abbrev pub is_holding : Phase → Bool
is_holding holding = true
is_holding _ = false

abbrev pub is_running : Phase → Bool
is_running running = true
is_running _ = false

abbrev pub is_fatal : Phase → Bool
is_fatal fatal = true
is_fatal _ = false

-- Behind an error of `Acquire`: what follows if the context of the call has an error too, and else.
abbrev after_failure : Bool → Phase
after_failure context_error = if context_error then fatal else ended

pub record Goroutine (C : Type 0) : Type 0 where
  pub worker : Worker C
  pub canceled : Bool
  pub phase : Phase

-- `free` are the units of the semaphore, and `elsewhere` those that goroutines of services before
-- this one have.
pub record Runner (C : Type 0) : Type 0 where
  pub last_worker_id : ℕ
  pub free : ℕ
  pub elsewhere : ℕ
  pub goroutines : List (Goroutine C)
  pub context_done : Bool
  pub returned : Bool

pub data Event (C : Type 0) : Type 0 where
  -- A configuration comes out of the channel, or a nil.
  config_changed : Option (Config C) → Event C
  -- The context of the service ends; `runWorkers` sees it.
  context_ends : Event C
  runner_returns : Event C
  -- `Acquire` of a goroutine returns, without an error or with one, after its ten seconds or not.
  acquires : ℕ → Event C
  acquire_fails : ℕ → Bool → Event C
  -- It looks at its context; `runWorkerWithConfig` returns, or recovers from a panic.
  checks : ℕ → Event C
  finishes : ℕ → Bool → Event C
  released_elsewhere : Event C

module _ {C : Type 0} where
  abbrev pub canceling : Goroutine C → Goroutine C
  canceling g = record g { canceled = true }

  -- The variable `cancel` is that of the newest goroutine.
  abbrev pub cancel_newest : List (Goroutine C) → List (Goroutine C)
  cancel_newest [] = []
  cancel_newest (g ∷ gs) = canceling g ∷ gs

  abbrev pub acquire : ℕ → Goroutine C → ℕ × Goroutine C
  acquire free g =
      if is_waiting g.phase && ltb 0 free
      then (free - 1, record g { phase = holding })
      else (free, g)

  -- `Acquire` (of the package semaphore) returns an error only when its context has ended, which is
  -- cancelled with that of the goroutine or ends after its ten seconds.
  abbrev pub fail_acquire : Bool → ℕ → Goroutine C → ℕ × Goroutine C
  fail_acquire timed_out free g =
      if is_waiting g.phase && (g.canceled || timed_out)
      then (free, record g { phase = after_failure (g.canceled || timed_out) })
      else (free, g)

  abbrev pub check : ℕ → Goroutine C → ℕ × Goroutine C
  check free g =
      if is_holding g.phase
      then (if g.canceled
          then (free + 1, record g { phase = ended })
          else (free, record g { phase = running }))
      else (free, g)

  abbrev pub finish : Bool → ℕ → Goroutine C → ℕ × Goroutine C
  finish panicked free g =
      if is_running g.phase && (g.canceled || panicked)
      then (free + 1, record g { phase = ended })
      else (free, g)

  -- One goroutine takes a step, which may change the number of free units.
  unfoldable pub step_at :
      (ℕ → Goroutine C → ℕ × Goroutine C) → ℕ → ℕ → List (Goroutine C) → ℕ × List (Goroutine C)
  step_at f i free [] = (free, [])
  step_at f zero free (g ∷ gs) = ((f free g).0, (f free g).1 ∷ gs)
  step_at f (suc i) free (g ∷ gs) = let out = step_at f i free gs in (out.0, g ∷ out.1)

  abbrev pub with_goroutines : Runner C → ℕ × List (Goroutine C) → Runner C
  with_goroutines r (free, gs) = record r { free = free; goroutines = gs }

  abbrev pub has_exited : List (Goroutine C) → Bool
  has_exited [] = false
  has_exited (g ∷ gs) = is_fatal g.phase || has_exited gs

  -- At the start of `runWorkers`.
  abbrev pub new_runner : ℕ → ℕ → ℕ → Runner C
  new_runner last_worker_id free elsewhere = record {
    last_worker_id = last_worker_id;
    free = free;
    elsewhere = elsewhere;
    goroutines = [];
    context_done = false;
    returned = false;
  }

  module _ (host_id : Text) where
    -- A context that is made of one that has ended has ended.
    abbrev pub start_worker : Config C → Runner C → Runner C
    start_worker c r = record r {
      last_worker_id = (r.last_worker_id + 1) % 2 ^ 32;
      goroutines =
          record {
            worker = new_worker host_id r.last_worker_id c;
            canceled = r.context_done;
            phase = waiting;
          }
          ∷ cancel_newest r.goroutines;
    }

    abbrev pub react : Event C → Runner C → Runner C
    react (config_changed none) r = r
    react (config_changed (some c)) r = if r.returned then r else start_worker c r
    react context_ends r = record r { context_done = true; goroutines = map canceling r.goroutines }
    react runner_returns r = if r.context_done then record r { returned = true } else r
    react (acquires i) r = with_goroutines r (step_at acquire i r.free r.goroutines)
    react (acquire_fails i timed_out) r =
        with_goroutines r (step_at (fail_acquire timed_out) i r.free r.goroutines)
    react (checks i) r = with_goroutines r (step_at check i r.free r.goroutines)
    react (finishes i panicked) r =
        with_goroutines r (step_at (finish panicked) i r.free r.goroutines)
    react released_elsewhere r =
        if ltb 0 r.elsewhere then record r { free = r.free + 1; elsewhere = r.elsewhere - 1 } else r

    -- A process that has exited does nothing more.
    unfoldable pub step : Event C → Runner C → Runner C
    unfolding step_at
    step e r = if has_exited r.goroutines then r else react e r

    unfoldable pub run_events : List (Event C) → Runner C → Runner C
    unfolding step
    run_events [] r = r
    run_events (e ∷ es) r = run_events es (step e r)
