-- ===== src/Main/Run/Changes.antt =====
-- What an announcement does at each place of the loop.
use local_worker.Common.{Bool, true, false, none, some, List, [], ◌∷◌, ◌≡◌, refl}
use local_worker.Main.Run.{
  dialing, serving, Process, Event, announced, receives, retries, dials, dial_fails, service_ends,
  context_ends, leaves, step, run_events,
}

module _ {I : Type 0} where
  -- Neither the network control service nor the context ends.
  abbrev Ongoing : List (Event I) → Type 0
  Ongoing [] = Unit
  Ongoing (service_ends ∷ es) = ⊥
  Ongoing (context_ends ∷ es) = ⊥
  Ongoing (_ ∷ es) = Ongoing es

  -- The loop serves `i`, while the listener waits with `j`.
  abbrev pub serving_old : I → I → Process I → Process I
  serving_old i j p = record p {
    place = serving i true;
    has_cancel = true;
    canceled = false;
    pending = some j;
    context_done = false;
  }

  stuck :
      (i j : I) (p : Process I) (es : List (Event I))
      → Ongoing es
      → run_events es (serving_old i j p) ≡ serving_old i j p
  unfolding run_events step
  stuck i j p [] h = refl
  stuck i j p (announced k ∷ es) h = stuck i j p es h
  stuck i j p (receives ∷ es) h = stuck i j p es h
  stuck i j p (retries ∷ es) h = stuck i j p es h
  stuck i j p (dials ∷ es) h = stuck i j p es h
  stuck i j p (dial_fails ∷ es) h = stuck i j p es h
  stuck i j p (leaves ∷ es) h = stuck i j p es h
  stuck i j p (service_ends ∷ es) h = elim h [ ]
  stuck i j p (context_ends ∷ es) h = elim h [ ]

  -- If a network master is announced after the loop has taken the one before and before it serves that
  -- one, the loop serves the old one with a context that is not cancelled, and the new announcement
  -- waits, whatever follows, until the service ends by itself or the context of the process ends.
  pub announced_while_dialing :
      (i j : I) (p : Process I) (es : List (Event I))
      → Ongoing es
      → run_events
          (announced j ∷ dials ∷ es)
          (record p { place = dialing i; pending = none; context_done = false })
        ≡ serving_old i j p
  unfolding run_events step
  announced_while_dialing i j p es h = stuck i j p es h

  -- A network master that is announced while the loop serves another one: the service is cancelled at
  -- once, and when it has ended and the connection is made, the loop serves the new one, with a
  -- context that is not cancelled.
  announced_while_serving :
      (i j : I) (connected : Bool) (p : Process I)
      → let q = record p {
        place = serving i connected;
        has_cancel = true;
        pending = none;
        context_done = false;
      } in
        ((step (announced j) q).canceled ≡ true)
        × (run_events (announced j ∷ service_ends ∷ receives ∷ dials ∷ []) q
            ≡ record q { place = serving j true; info = some j; canceled = false })
  unfolding run_events step
  announced_while_serving i j connected p = (refl, refl)
