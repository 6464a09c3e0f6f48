-- ===== src/Main/Run/Latest.antt =====
-- Which network master the process serves.
use local_worker.Common.{
  Bool, true, false, if_cases, Option, none, some, List, [], ◌∷◌, ◌≡◌, refl, sym, ◌∙◌, ◌⊎◌, inl,
  inr, subst,
}
use local_worker.Main.Run.{
  Place, selecting, dialing, serving, returned, Process, Event, announced, receives, retries, dials,
  dial_fails, service_ends, context_ends, leaves, announce_if, place_for, receive_if, retry_if,
  serve_if, end_if, leave_if, step, run_events, started,
}

module _ {I : Type 0} where
  -- The announcement that the listener has taken last.
  abbrev taken : Event I → Option I → Option I → Option I
  taken (announced i) none last = some i
  taken _ _ last = last

  abbrev pub last_taken : List (Event I) → Process I → Option I → Option I
  last_taken [] p last = last
  last_taken (e ∷ es) p last = last_taken es (step e p) (taken e p.pending last)

  -- At its place the loop has the announcement of `info`.
  abbrev AtPlace : Place I → Option I → Type 0
  AtPlace (dialing i) info = info ≡ some i
  AtPlace (serving i true) info = info ≡ some i
  AtPlace _ info = Unit

  -- The announcement that came last waits in the listener, or is that of `info`, unless a dial failed.
  abbrev Knows : Option I → Option I → Option I → Type 0
  Knows (some i) info last = last ≡ some i
  Knows none info last = (info ≡ last) ⊎ (info ≡ none)

  abbrev IsCurrent : Option I → Process I → Type 0
  IsCurrent last p = (Knows p.pending p.info last) × AtPlace p.place p.info

  announce-IsCurrent :
      (i : I) (last : Option I) (p : Process I) (pending : Option I)
      → p.pending ≡ pending
      → IsCurrent last p
      → IsCurrent (taken (announced i) pending last) (announce_if pending i p)
  announce-IsCurrent i last p none e h = (refl, h.1)
  announce-IsCurrent i last p (some j) e h = h

  receive-IsCurrent :
      (last : Option I) (p : Process I) (place : Place I) (pending : Option I)
      → Knows pending p.info last
      → IsCurrent last p
      → IsCurrent last (receive_if place pending p)
  receive-IsCurrent last p selecting (some i) k h = (inl (sym k), refl)
  receive-IsCurrent last p selecting none k h = h
  receive-IsCurrent last p (dialing i) x k h = h
  receive-IsCurrent last p (serving i b) x k h = h
  receive-IsCurrent last p returned x k h = h

  place_for-AtPlace : (info : Option I) → AtPlace (place_for info) info
  place_for-AtPlace none = tt
  place_for-AtPlace (some i) = refl

  retry-IsCurrent :
      (last : Option I) (p : Process I) (place : Place I)
      → IsCurrent last p
      → IsCurrent last (retry_if place p)
  retry-IsCurrent last p selecting h = (h.0, place_for-AtPlace p.info)
  retry-IsCurrent last p (dialing i) h = h
  retry-IsCurrent last p (serving i b) h = h
  retry-IsCurrent last p returned h = h

  forget : (pending info last : Option I) → Knows pending info last → Knows pending none last
  forget none info last h = inr refl
  forget (some i) info last h = h

  serve-IsCurrent :
      (connected : Bool) (last : Option I) (p : Process I) (place : Place I)
      → AtPlace place p.info
      → IsCurrent last p
      → IsCurrent last (serve_if connected place p)
  serve-IsCurrent true last p (dialing i) a h = (h.0, a)
  serve-IsCurrent false last p (dialing i) a h = (forget p.pending p.info last h.0, tt)
  serve-IsCurrent b last p selecting a h = h
  serve-IsCurrent b last p (serving i c) a h = h
  serve-IsCurrent b last p returned a h = h

  end-IsCurrent :
      (last : Option I) (p : Process I) (place : Place I)
      → IsCurrent last p
      → IsCurrent last (end_if place p)
  end-IsCurrent last p (serving i b) h =
      (h.0, if_cases (λ x. AtPlace x p.info) p.context_done returned selecting (λ _. tt) (λ _. tt))
  end-IsCurrent last p selecting h = h
  end-IsCurrent last p (dialing i) h = h
  end-IsCurrent last p returned h = h

  leave-IsCurrent :
      (last : Option I) (p : Process I) (place : Place I) (done : Bool)
      → IsCurrent last p
      → IsCurrent last (leave_if place done p)
  leave-IsCurrent last p selecting true h = (h.0, tt)
  leave-IsCurrent last p selecting false h = h
  leave-IsCurrent last p (dialing i) b h = h
  leave-IsCurrent last p (serving i c) b h = h
  leave-IsCurrent last p returned b h = h

  step-IsCurrent :
      (e : Event I) (last : Option I) (p : Process I)
      → IsCurrent last p
      → IsCurrent (taken e p.pending last) (step e p)
  unfolding step
  step-IsCurrent (announced i) last p h = announce-IsCurrent i last p p.pending refl h
  step-IsCurrent receives last p h = receive-IsCurrent last p p.place p.pending h.0 h
  step-IsCurrent retries last p h = retry-IsCurrent last p p.place h
  step-IsCurrent dials last p h = serve-IsCurrent true last p p.place h.1 h
  step-IsCurrent dial_fails last p h = serve-IsCurrent false last p p.place h.1 h
  step-IsCurrent service_ends last p h = end-IsCurrent last p p.place h
  step-IsCurrent context_ends last p h = h
  step-IsCurrent leaves last p h = leave-IsCurrent last p p.place p.context_done h

  run_events-IsCurrent :
      (es : List (Event I)) (last : Option I) (p : Process I)
      → IsCurrent last p
      → IsCurrent (last_taken es p last) (run_events es p)
  unfolding run_events
  run_events-IsCurrent [] last p h = h
  run_events-IsCurrent (e ∷ es) last p h =
      run_events-IsCurrent es (taken e p.pending last) (step e p) (step-IsCurrent e last p h)

  -- However announcements, dials and ends follow each other: while the process serves a network master
  -- over a connection and its listener waits with no announcement, that master is the one that was
  -- announced last.
  pub run_events-latest :
      (es : List (Event I)) (i : I)
      → (run_events es started).place ≡ serving i true
      → (run_events es started).pending ≡ none
      → last_taken es started none ≡ some i
  run_events-latest es i place pending =
      conclude (run_events es started) (run_events-IsCurrent es none started (inl refl, tt)) place
        pending
    where
      some≢none : {j : I} → some j ≡ none → ⊥
      some≢none e = cc

      conclude :
          (p : Process I)
          → IsCurrent (last_taken es started none) p
          → p.place ≡ serving i true
          → p.pending ≡ none
          → last_taken es started none ≡ some i
      conclude p h place pending =
          known (subst (λ x. Knows x p.info (last_taken es started none)) pending h.0)
            (subst (λ x. AtPlace x p.info) place h.1)
        where
          known :
              (p.info ≡ last_taken es started none) ⊎ (p.info ≡ none)
              → p.info ≡ some i
              → last_taken es started none ≡ some i
          known (inl a) b = sym a ∙ b
          known (inr a) b = absurd (some≢none (sym b ∙ a))
