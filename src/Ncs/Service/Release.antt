-- ===== src/Ncs/Service/Release.antt =====
-- The service gives back what it takes.
use local_worker.Common.{ℕ, ◌+◌, Bool, true, false, Result, ok, err, ◌≡◌, refl, ◌∙◌, Ends, arith}
use local_worker.Ncs.Service.{ServiceCalls, with_lights, with_unit, run}

-- `units w` are the free units of the semaphore. `Acquire` takes one, or none when it fails, `Release`
-- gives one, and no other call touches them.
pub record Counts {W : Type 0} (calls : ServiceCalls W) (units : W → ℕ) : Type 0 where
  pub acquires :
      (w : W) → Ends (λ _ t. units t + 1 ≡ units w) (λ t. units t ≡ units w) (calls.acquire w)
  pub releases : (w : W) → units (calls.release w) ≡ units w + 1
  pub checks : (w : W) → units (calls.check_context w).1 ≡ units w
  pub green : (on : Bool) (w : W) → units (calls.set_green_led on w) ≡ units w
  pub red : (on : Bool) (w : W) → units (calls.set_red_led on w) ≡ units w
  pub waits : (w : W) → units (calls.wait w).1 ≡ units w

module _ {W : Type 0} (calls : ServiceCalls W) (units : W → ℕ) (counts : Counts calls units) where
  with_lights-units : (out : Result (Unit {0}) × W) → units (with_lights calls out).1 ≡ units out.1
  with_lights-units (ok u, w) =
      counts.red true _
      ∙ counts.green false _
      ∙ counts.waits _
      ∙ counts.red false _
      ∙ counts.green true w
  with_lights-units (err e, w) = refl

  with_unit-units :
      (w : W) (out : Result (Unit {0}) × W)
      → Ends (λ _ t. units t + 1 ≡ units w) (λ t. units t ≡ units w) out
      → units (with_unit calls out).1 ≡ units w
  with_unit-units w (ok u, t) h = omega (
    arith,
    counts.releases (with_lights calls (calls.check_context t)).1,
    with_lights-units (calls.check_context t),
    counts.checks t,
  )
  with_unit-units w (err e, t) h = h

  -- However `Run` ends, because the semaphore is not given, the context has ended before the start, or
  -- one of its goroutines returns: the semaphore has as many free units as before.
  run-units : (w : W) → units (run calls w).1 ≡ units w
  unfolding run
  run-units w = with_unit-units w (calls.acquire w) (counts.acquires w)
