-- ===== src/Ncs/Runner/Replaced.antt =====
-- What becomes of a goroutine that waits for the semaphore when a newer one has taken its place.
use mathlib.Core.Option.{some-injective}
use local_worker.Common.{
  ℕ, zero, suc, ◌+◌, true, false, Option, none, some, List, [], ◌∷◌, get_elem?, ◌≡◌, refl, sym,
  subst, inr, arith,
}
use local_worker.Common.Texts.{Text}
use local_worker.Ncs.{Config}
use local_worker.Ncs.Runner.{
  waiting, Goroutine, Runner, Event, acquire_fails, fail_acquire, is_fatal, has_exited, step_at,
  new_runner, step, run_events,
}
use local_worker.Ncs.Runner.Units.{AllCanceled, Current}
use local_worker.Ncs.Runner.Exclusive.{fresh, latest, Holds, run_events-Holds}

module _ {C : Type 0} (host_id : Text) where
  all_of :
      (i : ℕ) (g : Goroutine C) (gs : List (Goroutine C))
      → AllCanceled gs
      → get_elem? gs i ≡ some g
      → g.canceled ≡ true
  all_of i g [] h e = cc
  all_of zero g (x ∷ gs) h e = subst (λ y. y.canceled ≡ true) (some-injective x g e) h.0
  all_of (suc i) g (x ∷ gs) h e = all_of i g gs h.1 e

  -- Behind the newest goroutine every one is cancelled.
  behind :
      (last : Option (Config C)) (i : ℕ) (g : Goroutine C) (gs : List (Goroutine C))
      → Current last gs
      → get_elem? gs (suc i) ≡ some g
      → g.canceled ≡ true
  behind last i g [] h e = cc
  behind last i g (x ∷ gs) h e = all_of i g gs h.1 e

  failed_goroutine :
      (free : ℕ) (g : Goroutine C)
      → g.phase ≡ waiting
      → g.canceled ≡ true
      → is_fatal (fail_acquire false free g).1.phase ≡ true
  failed_goroutine free g e h = rw (e, h) refl

  exits :
      (i free : ℕ) (g : Goroutine C) (gs : List (Goroutine C))
      → get_elem? gs i ≡ some g
      → g.phase ≡ waiting
      → g.canceled ≡ true
      → has_exited (step_at (fail_acquire false) i free gs).1 ≡ true
  unfolding step_at
  exits i free g [] e w h = cc
  exits zero free g (x ∷ gs) e w h =
      let f =
        failed_goroutine free x (subst (λ y. y.phase ≡ waiting) (sym (some-injective x g e)) w)
          (subst (λ y. y.canceled ≡ true) (sym (some-injective x g e)) h) in
      rw f refl
  exits (suc i) free g (x ∷ gs) e w h = rw (exits i free g gs e w h) (ground arith)

  exits_in :
      (last : Option (Config C)) (i : ℕ) (g : Goroutine C) (r : Runner C)
      → Holds host_id last r
      → has_exited r.goroutines ≡ false
      → get_elem? r.goroutines (suc i) ≡ some g
      → g.phase ≡ waiting
      → has_exited (step host_id (acquire_fails (suc i) false) r).goroutines ≡ true
  unfolding step
  exits_in last i g r (l, h, same) running at waits =
      rw running
        (exits (suc i) r.free g r.goroutines at waits (behind l i g r.goroutines h.current at))

  -- With one unit in the semaphore, wherever it is at the start: after any events, as long as the
  -- process has not exited, if `Acquire` of a waiting goroutine that is not the newest returns an
  -- error, the process exits, although the ten seconds of the goroutine are not over.
  pub replaced_waiting-exits :
      (es : List (Event C)) (id free elsewhere i : ℕ) (g : Goroutine C)
      → free + elsewhere ≡ 1
      → let r = run_events host_id es (new_runner id free elsewhere) in
        has_exited r.goroutines ≡ false
        → get_elem? r.goroutines (suc i) ≡ some g
        → g.phase ≡ waiting
        → has_exited (step host_id (acquire_fails (suc i) false) r).goroutines ≡ true
  replaced_waiting-exits es id free elsewhere i g one =
      exits_in (latest host_id none es) i g (run_events host_id es (new_runner id free elsewhere)) (
        run_events-Holds host_id es none (new_runner id free elsewhere)
          (none, fresh id free elsewhere one, inr refl))
