-- ===== src/Ncs/Runner/Exclusive.antt =====
-- At most one worker runs, and it is the newest unless it has been told to stop.
use local_worker.Common.{
  ℕ, ◌+◌, ◌-◌, ◌≤◌, ltb, ltb→lt, true, false, if_cases, Option, none, some, List, [], ◌∷◌, map, ◌≡◌,
  refl, ◌∙◌, sym, subst, true≢false, ◌⊎◌, inl, inr, arith,
}
use local_worker.Common.Texts.{Text}
use local_worker.Ncs.{Config}
use local_worker.Ncs.Runner.{
  Goroutine, Runner, Event, config_changed, context_ends, runner_returns, acquires, acquire_fails,
  checks, finishes, released_elsewhere, canceling, acquire, fail_acquire, check, finish, step_at,
  with_goroutines, has_exited, start_worker, new_runner, react, step, run_events,
}
use local_worker.Ncs.Runner.Units.{
  held, running_workers, AllCanceled, Current, Moves, acquire-Moves, fail_acquire-Moves,
  check-Moves, finish-Moves, step_at-held, step_at-AllCanceled, step_at-Current,
  canceling-AllCanceled, canceling-held, cancel_newest-AllCanceled, cancel_newest-held,
  AllCanceled-Current, running-le-units,
}

module _ {C : Type 0} where
  -- One unit in all, a runner that returns only after its context, whose end all goroutines share.
  pub record IsOrderly (last : Option (Config C)) (r : Runner C) : Type 0 where
    one_unit : r.free + r.elsewhere + held r.goroutines ≡ 1
    pub current : Current last r.goroutines
    all_end : r.context_done ≡ true → AllCanceled r.goroutines
    return : r.returned ≡ true → r.context_done ≡ true

  abbrev newer : Event C → Option (Config C) → Option (Config C)
  newer (config_changed (some c)) last = some c
  newer _ last = last

  moves-IsOrderly :
      (f : ℕ → Goroutine C → ℕ × Goroutine C)
      → Moves f
      → (i : ℕ) (last : Option (Config C)) (r : Runner C) → IsOrderly last r
      → IsOrderly last (with_goroutines r (step_at f i r.free r.goroutines))
  moves-IsOrderly f moves i last r h = record {
    one_unit = omega (arith, step_at-held f moves i r.free r.goroutines, h.one_unit);
    current = step_at-Current f moves last i r.free r.goroutines h.current;
    all_end = λ e. step_at-AllCanceled f moves i r.free r.goroutines (h.all_end e);
    return = h.return;
  }

  pub fresh :
      (id free elsewhere : ℕ) → free + elsewhere ≡ 1 → IsOrderly none (new_runner id free elsewhere)
  fresh id free elsewhere one = record {
    one_unit = omega arith;
    current = tt;
    all_end = λ _. tt;
    return = λ e. absurd (true≢false (sym e));
  }

  running_workers-le-held : (gs : List (Goroutine C)) → running_workers gs ≤ held gs
  running_workers-le-held [] = omega arith
  running_workers-le-held (g ∷ gs) =
      omega (arith, running-le-units g.phase, running_workers-le-held gs)

  module _ (host_id : Text) where
    started :
        (c : Config C) (last : Option (Config C)) (r : Runner C)
        → IsOrderly last r
        → IsOrderly (some c) (start_worker host_id c r)
    started c last r h =
        let rest = cancel_newest-AllCanceled last r.goroutines h.current in
        record {
          one_unit = omega (arith, cancel_newest-held r.goroutines, h.one_unit);
          current = (inr refl, rest);
          all_end = λ e. (e, rest);
          return = h.return;
        }

    react-IsOrderly :
        (e : Event C) (last : Option (Config C)) (r : Runner C)
        → IsOrderly last r
        → IsOrderly (newer e last) (react host_id e r)
    react-IsOrderly (config_changed none) last r h = h
    react-IsOrderly (config_changed (some c)) last r h =
        if_cases (IsOrderly (some c)) r.returned r (start_worker host_id c r)
          (λ e. record {
            one_unit = h.one_unit;
            current = AllCanceled-Current (some c) r.goroutines (h.all_end (h.return e));
            all_end = h.all_end;
            return = h.return;
          })
          (λ e. started c last r h)
    react-IsOrderly context_ends last r h =
        let all = canceling-AllCanceled r.goroutines in
        record {
          one_unit = omega (arith, canceling-held r.goroutines, h.one_unit);
          current = AllCanceled-Current last (map canceling r.goroutines) all;
          all_end = λ _. all;
          return = λ _. refl;
        }
    react-IsOrderly runner_returns last r h =
        if_cases (IsOrderly last) r.context_done (record r { returned = true }) r
          (λ e. record {
            one_unit = h.one_unit;
            current = h.current;
            all_end = h.all_end;
            return = λ _. e;
          })
          (λ e. h)
    react-IsOrderly (acquires i) last r h = moves-IsOrderly acquire acquire-Moves i last r h
    react-IsOrderly (acquire_fails i timed_out) last r h =
        moves-IsOrderly (fail_acquire timed_out) (fail_acquire-Moves timed_out) i last r h
    react-IsOrderly (checks i) last r h = moves-IsOrderly check check-Moves i last r h
    react-IsOrderly (finishes i panicked) last r h =
        moves-IsOrderly (finish panicked) (finish-Moves panicked) i last r h
    react-IsOrderly released_elsewhere last r h =
        if_cases (IsOrderly last) (ltb 0 r.elsewhere)
          (record r { free = r.free + 1; elsewhere = r.elsewhere - 1 }) r
          (λ e. record {
            one_unit = omega (arith, ltb→lt 0 r.elsewhere e, h.one_unit);
            current = h.current;
            all_end = h.all_end;
            return = h.return;
          })
          (λ e. h)

    -- What holds while the process runs, with the configuration that came last.
    abbrev pub Holds : Option (Config C) → Runner C → Type 0
    Holds last r =
        (l : Option (Config C)) × IsOrderly l r × ((has_exited r.goroutines ≡ true) ⊎ (l ≡ last))

    step-Holds :
        (e : Event C) (last : Option (Config C)) (r : Runner C)
        → Holds last r
        → Holds (newer e last) (step host_id e r)
    unfolding step
    step-Holds e last r (l, h, same) =
        if_cases (Holds (newer e last)) (has_exited r.goroutines) r (react host_id e r)
          (λ x. (l, h, inl x))
          (λ x. (newer e last, react-IsOrderly e last r (agreed x same), inr refl))
      where
        agreed :
            has_exited r.goroutines ≡ false
            → (has_exited r.goroutines ≡ true) ⊎ (l ≡ last)
            → IsOrderly last r
        agreed x (inl y) = absurd (true≢false (sym y ∙ x))
        agreed x (inr y) = subst (λ z. IsOrderly z r) y h

    abbrev pub latest : Option (Config C) → List (Event C) → Option (Config C)
    latest last [] = last
    latest last (e ∷ es) = latest (newer e last) es

    pub run_events-Holds :
        (es : List (Event C)) (last : Option (Config C)) (r : Runner C)
        → Holds last r
        → Holds (latest last es) (run_events host_id es r)
    unfolding run_events
    run_events-Holds [] last r h = h
    run_events-Holds (e ∷ es) last r h =
        run_events-Holds es (newer e last) (step host_id e r) (step-Holds e last r h)

    -- With one unit in the semaphore, wherever it is at the start: however the goroutines, the
    -- configurations and the end of the context follow each other, at most one worker runs; every
    -- goroutine but the newest is cancelled, and so is the newest unless it has the configuration that
    -- came last, as long as the process has not exited.
    pub run_events-one_worker :
        (es : List (Event C)) (id free elsewhere : ℕ)
        → free + elsewhere ≡ 1
        → let r = run_events host_id es (new_runner id free elsewhere) in
          (running_workers r.goroutines ≤ 1)
          × ((has_exited r.goroutines ≡ true) ⊎ Current (latest none es) r.goroutines)
    run_events-one_worker es id free elsewhere one =
        outcome (run_events host_id es (new_runner id free elsewhere)) (
          run_events-Holds es none (new_runner id free elsewhere)
            (none, fresh id free elsewhere one, inr refl))
      where
        outcome :
            (r : Runner C)
            → Holds (latest none es) r
            → (running_workers r.goroutines ≤ 1)
              × ((has_exited r.goroutines ≡ true) ⊎ Current (latest none es) r.goroutines)
        outcome r (l, h, inl x) =
            (omega (arith, running_workers-le-held r.goroutines, h.one_unit), inl x)
        outcome r (l, h, inr x) = (
          omega (arith, running_workers-le-held r.goroutines, h.one_unit),
          inr (subst (λ z. Current z r.goroutines) x h.current),
        )
