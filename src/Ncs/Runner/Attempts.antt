-- ===== src/Ncs/Runner/Attempts.antt =====
-- pkg/service/ncs/worker_runner.go, `runWorkerWithConfig`: the workers that are made for one
-- configuration, one after another, and the field `getrequestService`, which requests are handed to.
use mathlib.Core.Path.{fun_ext}
use local_worker.Common.{
  Option, none, some, List, [], ◌∷◌, ◌++◌, Result, ok, err, Bool, true, false, ◌≡◌, refl, sym, ap,
  ◌∙◌,
}

-- How `Run` of a worker comes back: with the context ended, by itself with an error or without one, or
-- by a panic.
pub data RunEnd : Type 0 where
  context_ended : RunEnd
  by_itself : Result (Unit {0}) → RunEnd
  panicked : RunEnd

-- What `NewService` returns, how the run of that worker ends, and whether the context ends in the
-- second of the wait behind it.
pub record Attempt (S : Type 0) : Type 0 where
  pub made : Result S
  pub run_end : RunEnd
  pub ends_in_wait : Bool

-- Whether the goroutine goes on, has seen the end of its context or has recovered from a panic.
pub data Ended : Type 0 where
  going_on returned recovered : Ended

module _ {S : Type 0} where
  abbrev after_run : S → RunEnd → Ended × Option S
  after_run w context_ended = (returned, some w)
  after_run w (by_itself r) = (going_on, none)
  after_run w panicked = (recovered, some w)

  -- An attempt, up to the wait.
  abbrev attempt_once : Attempt S → Option S → Ended × Option S
  attempt_once a s = elim a.made [ ok w ↦ after_run w a.run_end | err e ↦ (going_on, s) ]

  abbrev after_wait : Bool → Ended × Option S → Ended × Option S
  after_wait true (going_on, s) = (returned, s)
  after_wait false (going_on, s) = (going_on, s)
  after_wait b (returned, s) = (returned, s)
  after_wait b (recovered, s) = (recovered, s)

  abbrev go_on : (Option S → Ended × Option S) → Ended × Option S → Ended × Option S
  go_on rest (going_on, s) = rest s
  go_on rest (returned, s) = (returned, s)
  go_on rest (recovered, s) = (recovered, s)

  -- How the loop stands after the attempts that were made, with the field.
  unfoldable run_worker_with_config : List (Attempt S) → Option S → Ended × Option S
  run_worker_with_config [] s = (going_on, s)
  run_worker_with_config (a ∷ attempts) s =
      go_on (run_worker_with_config attempts) (after_wait a.ends_in_wait (attempt_once a s))

  go_on-go_on :
      (f g : Option S → Ended × Option S) (out : Ended × Option S)
      → go_on g (go_on f out) ≡ go_on (λ s. go_on g (f s)) out
  go_on-go_on f g (going_on, s) = refl
  go_on-go_on f g (returned, s) = refl
  go_on-go_on f g (recovered, s) = refl

  run_worker_with_config-append :
      (before after : List (Attempt S)) (s : Option S)
      → run_worker_with_config (before ++ after) s
        ≡ go_on (run_worker_with_config after) (run_worker_with_config before s)
  unfolding run_worker_with_config
  run_worker_with_config-append [] after s = refl
  run_worker_with_config-append (a ∷ before) after s =
      ap (λ f. go_on f (after_wait a.ends_in_wait (attempt_once a s)))
        (fun_ext (run_worker_with_config-append before after))
      ∙ sym (
          go_on-go_on (run_worker_with_config before) (run_worker_with_config after)
            (after_wait a.ends_in_wait (attempt_once a s)))

  -- While the loop goes on, a worker that panics is the last one: the loop has recovered and ended,
  -- whatever attempts could follow, and requests are still handed to that worker.
  panicked-is_last :
      (before after : List (Attempt S)) (s s' : Option S) (w : S) (b : Bool)
      → run_worker_with_config before s ≡ (going_on, s')
      → run_worker_with_config
          (before ++ (record { made = ok w; run_end = panicked; ends_in_wait = b } ∷ after))
          s
        ≡ (recovered, some w)
  unfolding run_worker_with_config
  panicked-is_last before after s s' w b h =
      run_worker_with_config-append before _ s ∙ ap (go_on _) h ∙ panic_ends after s' w b
    where
      panic_ends :
          (after : List (Attempt S)) (s : Option S) (w : S) (b : Bool)
          → run_worker_with_config
              (record { made = ok w; run_end = panicked; ends_in_wait = b } ∷ after)
              s
            ≡ (recovered, some w)
      panic_ends after s w true = refl
      panic_ends after s w false = refl
