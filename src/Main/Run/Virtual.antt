-- ===== src/Main/Run/Virtual.antt =====
-- The loop of `Run` of pkg/service/service.go in a virtual process, which has no listener: it takes
-- the network master of its configuration (`VirtualServiceInfo`) in place of the `select`.
use local_worker.Common.{
  if◌then◌else◌, Bool, true, false, Option, none, some, List, [], ◌∷◌, ◌≡◌, refl,
}
use local_worker.Main.Run.{
  Place, selecting, dialing, serving, returned, Process, Event, announced, receives, retries, dials,
  dial_fails, service_ends, context_ends, leaves, place_for, serve_if, end_if, step,
}

module _ {I : Type 0} (virtual_info : Option I) where
  abbrev take_virtual : Place I → Process I → Process I
  take_virtual selecting p = record p { place = place_for virtual_info; info = virtual_info }
  take_virtual _ p = p

  -- What listener and `select` do is not there.
  unfoldable virtual_step : Event I → Process I → Process I
  virtual_step (announced i) p = p
  virtual_step receives p = p
  virtual_step leaves p = p
  virtual_step retries p = take_virtual p.place p
  virtual_step dials p = step dials p
  virtual_step dial_fails p = step dial_fails p
  virtual_step service_ends p = step service_ends p
  virtual_step context_ends p = step context_ends p

  unfoldable virtual_run : List (Event I) → Process I → Process I
  unfolding virtual_step
  virtual_run [] p = p
  virtual_run (e ∷ es) p = virtual_run es (virtual_step e p)

  -- The loop is with the network master of the configuration, if it is with one.
  abbrev AtVirtual : Place I → Type 0
  AtVirtual (dialing i) = virtual_info ≡ some i
  AtVirtual (serving i connected) = virtual_info ≡ some i
  AtVirtual returned = ¬ (virtual_info ≡ none)
  AtVirtual selecting = Unit

  place_for-AtVirtual : (v : Option I) → virtual_info ≡ v → AtVirtual (place_for v)
  place_for-AtVirtual none e = tt
  place_for-AtVirtual (some i) e = e

  take-AtVirtual :
      (place : Place I) (p : Process I)
      → p.place ≡ place
      → AtVirtual p.place
      → AtVirtual (take_virtual place p).place
  take-AtVirtual selecting p e h = place_for-AtVirtual virtual_info refl
  take-AtVirtual (dialing i) p e h = h
  take-AtVirtual (serving i c) p e h = h
  take-AtVirtual returned p e h = h

  serve-AtVirtual :
      (connected : Bool) (place : Place I) (p : Process I)
      → AtVirtual place
      → AtVirtual p.place
      → AtVirtual (serve_if connected place p).place
  serve-AtVirtual connected (dialing i) p k h = k
  serve-AtVirtual connected selecting p k h = h
  serve-AtVirtual connected (serving i c) p k h = h
  serve-AtVirtual connected returned p k h = h

  ended :
      (i : I) (done : Bool)
      → virtual_info ≡ some i
      → AtVirtual (if done then returned else selecting)
  ended i true e = λ n. cc
  ended i false e = tt

  end-AtVirtual :
      (place : Place I) (p : Process I)
      → AtVirtual place
      → AtVirtual p.place
      → AtVirtual (end_if place p).place
  end-AtVirtual (serving i c) p k h = ended i p.context_done k
  end-AtVirtual selecting p k h = h
  end-AtVirtual (dialing i) p k h = h
  end-AtVirtual returned p k h = h

  step-AtVirtual :
      (e : Event I) (p : Process I) → AtVirtual p.place → AtVirtual (virtual_step e p).place
  unfolding virtual_step step
  step-AtVirtual (announced i) p h = h
  step-AtVirtual receives p h = h
  step-AtVirtual leaves p h = h
  step-AtVirtual retries p h = take-AtVirtual p.place p refl h
  step-AtVirtual dials p h = serve-AtVirtual true p.place p h h
  step-AtVirtual dial_fails p h = serve-AtVirtual false p.place p h h
  step-AtVirtual service_ends p h = end-AtVirtual p.place p h h
  step-AtVirtual context_ends p h = h

  -- However the events follow each other: a virtual process dials and serves no network master but
  -- that of its configuration; and without one it never returns, not even when its context has ended.
  virtual_run-AtVirtual :
      (es : List (Event I)) (p : Process I) → AtVirtual p.place → AtVirtual (virtual_run es p).place
  unfolding virtual_run
  virtual_run-AtVirtual [] p h = h
  virtual_run-AtVirtual (e ∷ es) p h =
      virtual_run-AtVirtual es (virtual_step e p) (step-AtVirtual e p h)
