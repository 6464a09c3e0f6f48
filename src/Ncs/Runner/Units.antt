-- ===== src/Ncs/Runner/Units.antt =====
-- What the steps of goroutines do to the units of the semaphore, and to contexts.
use local_worker.Common.{
  ℕ, zero, suc, ◌+◌, ◌≤◌, if◌then◌else◌, Bool, true, Option, some, List, [], ◌∷◌, map, ◌≡◌, refl,
  ap, ◌∙◌, ◌⊎◌, inl, inr, arith,
}
use local_worker.Ncs.{Config}
use local_worker.Ncs.Runner.{
  Phase, waiting, holding, running, Goroutine, is_waiting, is_holding, is_running, canceling,
  cancel_newest, acquire, fail_acquire, check, finish, step_at,
}

-- A goroutine holds a unit of the semaphore from `Acquire` to its end.
abbrev pub units : Phase → ℕ
units holding = 1
units running = 1
units _ = 0

units_waiting : (p : Phase) → is_waiting p ≡ true → units p ≡ 0
units_waiting waiting h = refl
units_waiting _ h = ground arith

units_holding : (p : Phase) → is_holding p ≡ true → units p ≡ 1
units_holding holding h = refl
units_holding _ h = ground arith

units_running : (p : Phase) → is_running p ≡ true → units p ≡ 1
units_running running h = refl
units_running _ h = ground arith

pub running-le-units : (p : Phase) → (if is_running p then 1 else 0) ≤ units p
running-le-units running = omega arith
running-le-units _ = omega arith

module _ {C : Type 0} where
  abbrev pub held : List (Goroutine C) → ℕ
  held [] = 0
  held (g ∷ gs) = units g.phase + held gs

  abbrev pub running_workers : List (Goroutine C) → ℕ
  running_workers [] = 0
  running_workers (g ∷ gs) = (if is_running g.phase then 1 else 0) + running_workers gs

  abbrev pub AllCanceled : List (Goroutine C) → Type 0
  AllCanceled [] = Unit
  AllCanceled (g ∷ gs) = (g.canceled ≡ true) × AllCanceled gs

  -- The newest goroutine has the configuration `last`, if it is not cancelled; the others are.
  abbrev pub Current : Option (Config C) → List (Goroutine C) → Type 0
  Current last [] = Unit
  Current last (g ∷ gs) = ((g.canceled ≡ true) ⊎ (some g.worker.conf ≡ last)) × AllCanceled gs

  -- What a step of a goroutine does to units, worker and context.
  abbrev pub Moves : (ℕ → Goroutine C → ℕ × Goroutine C) → Type 0
  Moves f =
      (free : ℕ) (g : Goroutine C)
      → ((f free g).0 + units (f free g).1.phase ≡ free + units g.phase)
        × ((f free g).1.worker ≡ g.worker)
        × ((f free g).1.canceled ≡ g.canceled)

  pub acquire-Moves : Moves acquire
  acquire-Moves free g = ground (arith, units_waiting g.phase)

  pub fail_acquire-Moves : (timed_out : Bool) → Moves (fail_acquire timed_out)
  fail_acquire-Moves timed_out free g = ground (arith, units_waiting g.phase)

  pub check-Moves : Moves check
  check-Moves free g = ground (arith, units_holding g.phase)

  pub finish-Moves : (panicked : Bool) → Moves (finish panicked)
  finish-Moves panicked free g = ground (arith, units_running g.phase)

  module _ (f : ℕ → Goroutine C → ℕ × Goroutine C) (moves : Moves f) where
    pub step_at-held :
        (i free : ℕ) (gs : List (Goroutine C))
        → (step_at f i free gs).0 + held (step_at f i free gs).1 ≡ free + held gs
    unfolding step_at
    step_at-held i free [] = refl
    step_at-held zero free (g ∷ gs) = omega (arith, (moves free g).0)
    step_at-held (suc i) free (g ∷ gs) = omega (arith, step_at-held i free gs)

    pub step_at-AllCanceled :
        (i free : ℕ) (gs : List (Goroutine C))
        → AllCanceled gs
        → AllCanceled (step_at f i free gs).1
    unfolding step_at
    step_at-AllCanceled i free [] h = tt
    step_at-AllCanceled zero free (g ∷ gs) h = (ground (arith, (moves free g).2, h.0), h.1)
    step_at-AllCanceled (suc i) free (g ∷ gs) h = (h.0, step_at-AllCanceled i free gs h.1)

    moved :
        (last : Option (Config C)) (free : ℕ) (g : Goroutine C)
        → (g.canceled ≡ true) ⊎ (some g.worker.conf ≡ last)
        → ((f free g).1.canceled ≡ true) ⊎ (some (f free g).1.worker.conf ≡ last)
    moved last free g (inl h) = inl ((moves free g).2 ∙ h)
    moved last free g (inr h) = inr (ap (λ w. some w.conf) (moves free g).1 ∙ h)

    pub step_at-Current :
        (last : Option (Config C)) (i free : ℕ) (gs : List (Goroutine C))
        → Current last gs
        → Current last (step_at f i free gs).1
    unfolding step_at
    step_at-Current last i free [] h = tt
    step_at-Current last zero free (g ∷ gs) h = (moved last free g h.0, h.1)
    step_at-Current last (suc i) free (g ∷ gs) h = (h.0, step_at-AllCanceled i free gs h.1)

  pub canceling-AllCanceled : (gs : List (Goroutine C)) → AllCanceled (map canceling gs)
  canceling-AllCanceled [] = tt
  canceling-AllCanceled (g ∷ gs) = (refl, canceling-AllCanceled gs)

  pub canceling-held : (gs : List (Goroutine C)) → held (map canceling gs) ≡ held gs
  canceling-held [] = refl
  canceling-held (g ∷ gs) = omega (arith, canceling-held gs)

  pub cancel_newest-AllCanceled :
      (last : Option (Config C)) (gs : List (Goroutine C))
      → Current last gs
      → AllCanceled (cancel_newest gs)
  cancel_newest-AllCanceled last [] h = tt
  cancel_newest-AllCanceled last (g ∷ gs) h = (refl, h.1)

  pub cancel_newest-held : (gs : List (Goroutine C)) → held (cancel_newest gs) ≡ held gs
  cancel_newest-held [] = refl
  cancel_newest-held (g ∷ gs) = refl

  pub AllCanceled-Current :
      (last : Option (Config C)) (gs : List (Goroutine C)) → AllCanceled gs → Current last gs
  AllCanceled-Current last [] h = tt
  AllCanceled-Current last (g ∷ gs) h = (inl h.0, h.1)
