-- ===== src/Tests/Network.antt =====
-- The theorems on requests, queues of actuals, configurations of the network master, locks and
-- retries.
use local_worker.Common.{
  ℕ, ◌+◌, ◌==◌, if◌then◌else◌, Option, none, some, List, [], ◌∷◌, ◌++◌, M, ok, err, Error, ◌≡◌,
  refl, arith,
}
use local_worker.Common.Texts.{Text}
use local_worker.Common.Maps.{find}
use local_worker.Registry.{configure_each}
use local_worker.Registry.Partition.{succeeded}
use local_worker.Objects.Service.{
  ObjectConfig, Addresses, Constructors, relay_switch, create_object, create_objects, new_service,
  configure, object_by_address, on_request, process_on,
}
use local_worker.Objects.Service.Lookup.{started, outcomes, on_request-global}
use local_worker.Objects.StatusService.Fifo.{
  Event, publish, turn, Trace, IsFifo, run, step, run-IsFifo,
}
use local_worker.Ncs.{Config, run_all, load_config_stream}
use local_worker.Ncs.Current.{current_hash, stream, load_config_stream-current}
use local_worker.Util.SpinLock.{try_lock}
use local_worker.Util.SpinLock.Exclusion.{
  Around, free, Reach, here, next, attempt, IsExclusive, Reach-IsExclusive,
}

-- An address is "module/id", with modules of one letter; the global one is "g".
abbrev split : Text → Text × Text
split [] = ([], [])
split (m ∷ []) = (m ∷ [], [])
split (m ∷ slash ∷ id) = (m ∷ [], id)

abbrev addresses : Addresses
addresses = record {
  join_module_local = λ m id. m ++ (b'/' ∷ id);
  split_address = split;
  global_module_id = b'g' ∷ [];
}

-- An object is the number that it adds to the world.
abbrev five : Constructors ℕ
five = record {
  new_binary_sensor = λ c a. err Error.invalid_argument;
  new_binary_output = λ c a. err Error.invalid_argument;
  new_magnetic_switch = λ c a. err Error.invalid_argument;
  new_relay_switch = λ c a. ok 5;
  new_servo_switch = λ c a. err Error.invalid_argument;
  new_track_inverter = λ c a. err Error.invalid_argument;
}

abbrev adding : ℕ → Option (ℕ → M ℕ (Unit {0}))
adding o = some (λ x w. (ok tt, o + x + w))

abbrev a_switch : List ObjectConfig
a_switch = record { id = b's' ∷ []; type = relay_switch } ∷ []

on_request-global_example :
    on_request addresses adding
      (started addresses five (λ o w. (ok tt, w)) adding (b'm' ∷ []) a_switch 0)
      (b'g' ∷ b'/' ∷ b's' ∷ [])
      7
      100
    ≡ process_on addresses adding
        (succeeded (
          find
            (b'm' ∷ b'/' ∷ b's' ∷ [])
            (outcomes addresses five (λ o w. (ok tt, w)) adding (b'm' ∷ []) a_switch 0)))
        7
        100
unfolding configure new_service configure_each create_objects create_object
on_request-global_example =
    on_request-global addresses five (λ o w. (ok tt, w)) adding (b'm' ∷ []) a_switch 0 100
      (b'g' ∷ b'/' ∷ b's' ∷ []) (b's' ∷ []) 7 refl refl

on_request_run :
    on_request addresses adding
      (started addresses five (λ o w. (ok tt, w)) adding (b'm' ∷ []) a_switch 0)
      (b'g' ∷ b'/' ∷ b's' ∷ [])
      7
      100
    ≡ (ok tt, 112)
unfolding on_request object_by_address configure new_service configure_each create_objects
    create_object
on_request_run = refl

-- The network takes odd messages only, and counts the calls.
abbrev odd_only : ℕ → M ℕ (Unit {0})
odd_only m w = (if m == 2 then err (Error.reported 9) else ok tt, w + 1)

abbrev quiet : Trace ℕ ℕ
quiet = record { channel = []; world = 0; accepted = []; taken = [] }

abbrev events : List (Event ℕ)
events = publish 1 ∷ publish 2 ∷ turn ∷ publish 3 ∷ turn ∷ turn ∷ turn ∷ []

run-IsFifo_example : IsFifo odd_only 0 (run odd_only events quiet)
run-IsFifo_example =
    run-IsFifo odd_only 0 events quiet (record { order = refl; sent = refl; bound = omega arith })

-- Message 2 is taken though its sending failed, and is not sent again.
run_loses : (run odd_only events quiet).taken ≡ 1 ∷ 2 ∷ 3 ∷ []
unfolding run step
run_loses = refl

abbrev config_of : ℕ → Option (Config ℕ)
config_of h = some (record { hash = h ∷ []; unixtime = 7; alias = []; contents = h })

load_config_stream-current_example :
    current_hash [] (
      run_all []
        (load_config_stream
          (stream [] (((1, config_of 4) ∷ (2, none) ∷ []) ++ ((3, config_of 5) ∷ [])))).0
        (record { last_worker_id = 0; current = none; canceled = [] }))
    ≡ 5 ∷ []
load_config_stream-current_example =
    load_config_stream-current [] ((1, config_of 4) ∷ (2, none) ∷ []) 3
      (record { hash = 5 ∷ []; unixtime = 7; alias = []; contents = 5 })
      (record { last_worker_id = 0; current = none; canceled = [] }) 5 [] refl

-- The first of two attempts takes the lock.
abbrev two_attempts : Around
two_attempts = record { lock = record { flags = 1 }; inside = 3 ∷ [] }

two_attempts-Reach : Reach free two_attempts
unfolding try_lock
two_attempts-Reach = next (next here (attempt free 3)) (attempt two_attempts 4)

Reach-IsExclusive_example : IsExclusive two_attempts
Reach-IsExclusive_example = Reach-IsExclusive two_attempts-Reach
