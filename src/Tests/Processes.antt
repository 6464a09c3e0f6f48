-- ===== src/Tests/Processes.antt =====
-- The theorems on goroutines: of workers, of the main loop and of blinking leds.
use local_worker.Common.{
  ℕ, ◌+◌, ◌≤◌, Bool, true, false, none, some, List, [], ◌∷◌, M, ok, Error, ◌≡◌, refl, ◌⊎◌,
}
use local_worker.Ncs.{Config}
use local_worker.Ncs.Runner.{
  waiting, Goroutine, Event, config_changed, acquires, acquire_fails, checks, finishes, has_exited,
  new_runner, run_events, step, step_at,
}
use local_worker.Ncs.Runner.Units.{running_workers, Current}
use local_worker.Ncs.Runner.Exclusive.{latest, run_events-one_worker}
use local_worker.Ncs.Runner.Replaced.{replaced_waiting-exits}
use local_worker.Main.Run as Main
use local_worker.Main.Run.{Process, dialing, serving, selecting}
use local_worker.Main.Run.Latest.{last_taken, run_events-latest}
use local_worker.Main.Run.Changes.{serving_old, announced_while_dialing}
use local_worker.Bridge.Queue as Queue
use local_worker.Bridge.Queue.Sequential.{order_of, IsSequential, run-IsSequential}
use local_worker.Bridge.Led as Led
use local_worker.Bridge.Led.Steady.{turns_of, unused, set-steady}

abbrev config_of : ℕ → Config ℕ
config_of n = record { hash = n ∷ []; unixtime = 0; alias = []; contents = n }

-- The first worker runs, the second waits until the first has ended, and runs then.
abbrev schedule : List (Event ℕ)
schedule =
    config_changed (some (config_of 1))
    ∷ acquires 0
    ∷ checks 0
    ∷ config_changed (some (config_of 2))
    ∷ acquires 0
    ∷ finishes 1 false
    ∷ acquires 0
    ∷ checks 0
    ∷ []

schedule_run : running_workers (run_events [] schedule (new_runner 0 1 0)).goroutines ≡ 1
unfolding run_events step step_at
schedule_run = refl

run_events-one_worker_example :
    (running_workers (run_events [] schedule (new_runner 0 1 0)).goroutines ≤ 1)
    × ((has_exited (run_events [] schedule (new_runner 0 1 0)).goroutines ≡ true)
        ⊎ Current (latest [] none schedule) (run_events [] schedule (new_runner 0 1 0)).goroutines)
run_events-one_worker_example = run_events-one_worker [] schedule 0 1 0 refl

-- The second worker waits for the first one when a third configuration comes.
abbrev replacing : List (Event ℕ)
replacing =
    config_changed (some (config_of 1))
    ∷ acquires 0
    ∷ checks 0
    ∷ config_changed (some (config_of 2))
    ∷ config_changed (some (config_of 3))
    ∷ []

abbrev late : Goroutine ℕ
late = record {
  worker = record { worker_id = 2; module_id = []; conf = config_of 2 };
  canceled = true;
  phase = waiting;
}

replaced_waiting-exits_example :
    has_exited
      (step [] (acquire_fails 1 false) (run_events [] replacing (new_runner 0 1 0))).goroutines
    ≡ true
unfolding run_events step step_at
replaced_waiting-exits_example =
    replaced_waiting-exits [] replacing 0 1 0 0 late refl refl refl refl

-- A master is announced and served; then another one is announced, and served in its place.
abbrev two_masters : List (Main.Event ℕ)
two_masters =
    Main.announced 1
    ∷ Main.receives
    ∷ Main.dials
    ∷ Main.announced 2
    ∷ Main.service_ends
    ∷ Main.receives
    ∷ Main.dials
    ∷ []

run_events-latest_example : last_taken two_masters Main.started none ≡ some 2
unfolding Main.run_events Main.step
run_events-latest_example = run_events-latest two_masters 2 refl refl

announced_while_dialing_example :
    Main.run_events
      (Main.announced 2 ∷ Main.dials ∷ Main.receives ∷ Main.retries ∷ [])
      (record (Main.started {I = ℕ}) { place = dialing 1; pending = none; context_done = false })
    ≡ serving_old 1 2 Main.started
announced_while_dialing_example =
    announced_while_dialing 1 2 Main.started (Main.receives ∷ Main.retries ∷ []) tt

-- A led shows what was written to it last; it blinks, and is then set.
abbrev show : Bool → M Bool (Unit {0})
show on w = (ok tt, on)

abbrev blinking : List (Led.Event show)
blinking = Led.blinks ∷ Led.turns 0 ∷ Led.turns 0 ∷ Led.blinks ∷ Led.turns 0 ∷ []

set-steady_example :
    let s = (Led.set show false (Led.run_events show blinking (unused show false))).1 in
    Led.run_events show (turns_of show (0 ∷ 1 ∷ 0 ∷ [])) s ≡ s
set-steady_example = set-steady show blinking false (0 ∷ 1 ∷ 0 ∷ []) false

-- Each call adds its number to the world and yields what it found.
abbrev add_call : ℕ → M ℕ ℕ
add_call i w = (ok w, w + i)

-- Two calls are made; the context of a third ends before its request is taken, and that of the second
-- while its request runs.
abbrev calls : List Queue.Event
calls =
    Queue.takes 2
    ∷ Queue.takes 1
    ∷ Queue.cancels 3 (Error.reported 1)
    ∷ Queue.cancels 2 (Error.reported 1)
    ∷ Queue.finishes
    ∷ Queue.takes 1
    ∷ Queue.sees 2
    ∷ Queue.finishes
    ∷ []

calls-in_order : order_of add_call calls (Queue.started 5) [] ≡ 2 ∷ 1 ∷ []
unfolding Queue.step
calls-in_order = refl

run-IsSequential_example :
    IsSequential add_call 5
      (order_of add_call calls (Queue.started 5) [])
      (Queue.run add_call calls (Queue.started 5))
run-IsSequential_example = run-IsSequential add_call calls 5
