-- ===== src/Ncs/Service.antt =====
-- pkg/service/ncs/ncservice.go, `Run`: from the semaphore that lets one network control service run
-- to its release. The loading of configurations and the workers, which run at the same time until the
-- first of them returns, are one call here; the calls of semaphore, context and board are parameters.
pub mod Release
use local_worker.Common.{Bool, true, false, M, Result, ok, err}

pub record ServiceCalls (W : Type 0) : Type 0 where
  pub acquire : M W (Unit {0})
  pub release : W → W
  pub check_context : M W (Unit {0})
  -- Their errors are not looked at.
  pub set_green_led : Bool → W → W
  pub set_red_led : Bool → W → W
  -- `Wait` of the group of both goroutines, with its error.
  pub wait : M W (Unit {0})

module _ {W : Type 0} (calls : ServiceCalls W) where
  -- The lights while it runs, and those of the deferred function.
  abbrev running_lights : W → W
  running_lights w = calls.set_red_led false (calls.set_green_led true w)

  abbrev stopped_lights : W → W
  stopped_lights w = calls.set_red_led true (calls.set_green_led false w)

  abbrev pub with_lights : Result (Unit {0}) × W → Result (Unit {0}) × W
  with_lights (ok u, w) = let out = calls.wait (running_lights w) in (out.0, stopped_lights out.1)
  with_lights (err e, w) = (err e, w)

  abbrev pub with_unit : Result (Unit {0}) × W → Result (Unit {0}) × W
  with_unit (ok u, w) =
      let out = with_lights (calls.check_context w) in (out.0, calls.release out.1)
  with_unit (err e, w) = (err e, w)

  unfoldable pub run : M W (Unit {0})
  run w = with_unit (calls.acquire w)
