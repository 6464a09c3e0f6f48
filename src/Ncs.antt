-- ===== src/Ncs.antt =====
-- pkg/service/ncs: the configuration that the network master sends (config_loader.go) and the worker
-- that runs with it (worker_runner.go). The stream of the master is the list of what it yields; it
-- ends where the context does. Semaphores and the errors of a worker are left out.
pub mod Current
pub mod Restarts
pub mod Runner
pub mod Service
use local_worker.Common.{
  ℕ, zero, suc, ◌+◌, ◌-◌, ◌*◌, ◌%◌, ◌^◌, ◌==◌, ltb, if◌then◌else◌, Bool, true, false, Option, none,
  some, List, [], ◌∷◌, ◌++◌, Result, ok, err, Error,
}
use local_worker.Common.Texts.{Text, same_text}

-- What is read of a `LocalWorkerConfig`, with the rest of it. `unixtime` is a bit pattern.
pub record Config (C : Type 0) : Type 0 where
  pub hash : Text
  pub unixtime : ℕ
  pub alias : Text
  pub contents : C

-- `Recv` yields a configuration, which may be nil, the end of the stream or an error. The time is
-- that of the clock when it does.
pub data Received (C : Type 0) : Type 0 where
  config : ℕ → Option (Config C) → Received C
  closed : Received C
  failed : Received C

-- What is put into the two channels.
pub data Sent (C : Type 0) : Type 0 where
  time_offset : ℕ → Sent C
  config_changed : Option (Config C) → Sent C

abbrev pub offset : ℕ → ℕ → ℕ
offset unixtime now = (unixtime + 2 ^ 64 - now) % 2 ^ 64

module _ {C : Type 0} where
  -- The getters of a nil message yield zero values.
  abbrev pub hash_of : Option (Config C) → Text
  hash_of none = []
  hash_of (some c) = c.hash

  abbrev unixtime_of : Option (Config C) → ℕ
  unixtime_of none = 0
  unixtime_of (some c) = c.unixtime

  -- What a configuration with a new hash leads to.
  abbrev pub announce : ℕ → Option (Config C) → List (Sent C)
  announce now c =
      if unixtime_of c == 0
      then config_changed c ∷ []
      else time_offset (offset (unixtime_of c) now) ∷ config_changed c ∷ []

  abbrev pub announce_if_new : Text → ℕ → Option (Config C) → List (Sent C)
  announce_if_new last now c = if same_text (hash_of c) last then [] else announce now c

  -- `loadConfigStream`, from the hash that was read last.
  unfoldable pub load_from : Text → List (Received C) → List (Sent C) × Result (Unit {0})
  load_from last [] = ([], ok tt)
  load_from last (closed ∷ rest) = ([], ok tt)
  load_from last (failed ∷ rest) = ([], err (Error.reported 0))
  load_from last (config now c ∷ rest) =
      let out = load_from (if same_text (hash_of c) last then last else hash_of c) rest in
      (announce_if_new last now c ++ out.0, out.1)

  unfoldable pub load_config_stream : List (Received C) → List (Sent C) × Result (Unit {0})
  unfolding load_from
  load_config_stream received = load_from [] received

-- The loop of `runLoadConfig`: after more than ten errors in a row it stops, with `true` here. The
-- list has the results of the streams, until the context ends.
abbrev count_error : Result (Unit {0}) → ℕ → ℕ
count_error (ok u) recent_errors = 0
count_error (err e) recent_errors = recent_errors + 1

unfoldable pub retry_loading : ℕ → List (Result (Unit {0})) → Bool
retry_loading recent_errors [] = false
retry_loading recent_errors (r ∷ rs) =
    if ltb 10 (count_error r recent_errors)
    then true
    else retry_loading (count_error r recent_errors) rs

unfoldable pub run_load_config : List (Result (Unit {0})) → Bool
unfolding retry_loading
run_load_config rs = retry_loading 0 rs

-- `runWorkers`: the worker that is not cancelled, if any, with its id and the id of its module.
pub record Worker (C : Type 0) : Type 0 where
  pub worker_id : ℕ
  pub module_id : Text
  pub conf : Config C

pub record Workers (C : Type 0) : Type 0 where
  pub last_worker_id : ℕ
  pub current : Option (Worker C)
  pub canceled : List (Worker C)

abbrev or_host : Text → Text → Text
or_host host_id [] = host_id
or_host host_id (x ∷ xs) = x ∷ xs

abbrev cancel : {C : Type 0} → Option (Worker C) → List (Worker C) → List (Worker C)
cancel none canceled = canceled
cancel (some w) canceled = w ∷ canceled

module _ {C : Type 0} (host_id : Text) where
  abbrev pub new_worker : ℕ → Config C → Worker C
  new_worker id c = record {
    worker_id = (id + 1) % 2 ^ 32;
    module_id = or_host host_id c.alias;
    conf = c;
  }

  -- A nil configuration is ignored; another one replaces the worker.
  unfoldable pub run_workers : Sent C → Workers C → Workers C
  run_workers (time_offset n) ws = ws
  run_workers (config_changed none) ws = ws
  run_workers (config_changed (some c)) ws = record {
    last_worker_id = (ws.last_worker_id + 1) % 2 ^ 32;
    current = some (new_worker ws.last_worker_id c);
    canceled = cancel ws.current ws.canceled;
  }

  unfoldable pub run_all : List (Sent C) → Workers C → Workers C
  unfolding run_workers
  run_all [] ws = ws
  run_all (x ∷ xs) ws = run_all xs (run_workers x ws)
