-- ===== src/Objects/BinarySensor/Publishing.antt =====
-- What the network hears of a sensor. Rounds of `Run`, the loop that sends what is queued, power
-- messages and changes of the hardware follow each other in any order.
use mathlib.Core.Option.{some-injective}
use local_worker.Common.{
  ℕ, zero, suc, ◌<◌, if◌then◌else◌, Bool, true, false, ◌&&◌, Option, none, some, List, [], ◌∷◌,
  Result, ok, err, ◌≡◌, ◌≢◌, refl, sym, subst, ap, ◌∙◌, ◌⊎◌, inl, inr, arith,
}
use local_worker.Objects.{Site}
use local_worker.Objects.BinarySensor.{
  BinarySensor, sensed, bool_to_int32, report, run_step, process_power_message,
}

-- A sensor beside the queue of the status service: how many messages of the sensor are queued, the
-- values that were sent, newest first, and the value of the last round.
pub record Feed (S : Type 0) : Type 0 where
  pub site : Site (BinarySensor S) S
  pub queued : ℕ
  pub sent : List ℕ
  pub seen : Option Bool

pub data Event (S : Type 0) : Type 0 where
  -- A round at this time; the queue has room for a message or not.
  round : ℕ → Bool → Event S
  sends : Event S
  power : Bool → Event S
  hardware_changes : S → Event S

abbrev was_called : Result Bool → Bool
was_called (ok b) = b
was_called (err e) = false

abbrev newest : List ℕ → Option ℕ
newest [] = none
newest (x ∷ xs) = some x

module _ {S : Type 0} where
  -- The value of the round that starts in `s`.
  abbrev pub value_of : Site (BinarySensor S) S → Bool
  value_of s = sensed s.object.invert (s.object.reader.read s.hardware).0

  abbrev send_from : ℕ → Feed S → Feed S
  send_from zero f = f
  send_from (suc n) f = record f { queued = n; sent = f.site.object.actual_value ∷ f.sent }

  unfoldable pub step : Event S → Feed S → Feed S
  step (round now accepted) f =
      let out = run_step now accepted f.site in
      record {
        site = out.1;
        queued = if was_called out.0 && accepted then suc f.queued else f.queued;
        sent = f.sent;
        seen = some (value_of f.site);
      }
  step sends f = send_from f.queued f
  step (power enabled) f = record f { site = (process_power_message enabled f.site).1 }
  step (hardware_changes s) f = record f { site = record (f.site) { hardware = s } }

  unfoldable pub run : List (Event S) → Feed S → Feed S
  unfolding step
  run [] f = f
  run (e ∷ es) f = run es (step e f)

  -- A message is on its way, or the newest one that was sent has said this value.
  abbrev OnTheWay : ℕ → Feed S → Type 0
  OnTheWay v f = (0 < f.queued) ⊎ (newest f.sent ≡ some v)

  -- The messages say the value of the last round, which is the last that was published.
  abbrev IsFresh : Feed S → Type 0
  IsFresh f =
      (f.site.object.actual_value ≡ bool_to_int32 f.site.object.last_value)
      × (f.seen ≡ some f.site.object.last_value)
      × OnTheWay f.site.object.actual_value f

  abbrev Kept : Feed S → Type 0
  Kept f =
      (f.site.object.send_now ≡ true) ⊎ ((f.site.object.changes ≡ 0) × (f.seen ≡ none)) ⊎ IsFresh f

  -- The three ways a round can end: publishing is pending, the value was published, or it was the
  -- last published one and nothing has changed.
  abbrev Round : Bool → Site (BinarySensor S) S → Result Bool × Site (BinarySensor S) S → Type 0
  Round accepted s out =
      (out.1.object.send_now ≡ true)
      ⊎ ((was_called out.0 && accepted ≡ true)
          × (out.1.object.last_value ≡ value_of s)
          × (out.1.object.actual_value ≡ bool_to_int32 (value_of s)))
      ⊎ ((s.object.send_now ≡ false)
          × (s.object.changes ≢ 0)
          × (s.object.last_value ≡ value_of s)
          × (out.1.object.last_value ≡ value_of s)
          × (out.1.object.actual_value ≡ s.object.actual_value)
          × (was_called out.0 ≡ false))

  run_step-Round :
      (now : ℕ) (accepted : Bool) (s : Site (BinarySensor S) S)
      → Round accepted s (run_step now accepted s)
  unfolding run_step report
  run_step-Round now accepted s = ground arith

  after_round :
      (accepted : Bool) (f : Feed S) (out : Result Bool × Site (BinarySensor S) S)
      → Round accepted f.site out
      → Kept f
      → Kept (record {
        site = out.1;
        queued = if was_called out.0 && accepted then suc f.queued else f.queued;
        sent = f.sent;
        seen = some (value_of f.site);
      })
  after_round accepted f out (inl e) k = inl e
  after_round accepted f out (inr (inl (called, last, actual))) k =
      inr (inr (actual ∙ ap bool_to_int32 (sym last), ap some (sym last), inl (ground arith)))
  after_round accepted f out (inr (inr (now, some_changes, last, last', actual, called))) (inl e) =
      cc
  after_round accepted f out (inr (inr (now, some_changes, last, last', actual, called)))
        (inr (inl e)) =
      absurd (some_changes e.0)
  after_round accepted f out (inr (inr (now, some_changes, last, last', actual, called)))
        (inr (inr (told, seen, inl q))) =
      inr (
        inr (
          actual ∙ told ∙ ap bool_to_int32 (last ∙ sym last'),
          ap some (sym last'),
          inl (ground arith),
        ))
  after_round accepted f out (inr (inr (now, some_changes, last, last', actual, called)))
        (inr (inr (told, seen, inr n))) =
      inr (
        inr (
          actual ∙ told ∙ ap bool_to_int32 (last ∙ sym last'),
          ap some (sym last'),
          inr (n ∙ ap some (sym actual)),
        ))

  send_from-Kept : (n : ℕ) (f : Feed S) → Kept f → Kept (send_from n f)
  send_from-Kept zero f k = k
  send_from-Kept (suc n) f (inl e) = inl e
  send_from-Kept (suc n) f (inr (inl e)) = inr (inl e)
  send_from-Kept (suc n) f (inr (inr (told, seen, way))) = inr (inr (told, seen, inr refl))

  step-Kept : (e : Event S) (f : Feed S) → Kept f → Kept (step e f)
  unfolding step process_power_message
  step-Kept (round now accepted) f k =
      after_round accepted f (run_step now accepted f.site) (run_step-Round now accepted f.site) k
  step-Kept sends f k = send_from-Kept f.queued f k
  step-Kept (power enabled) f k = ground arith
  step-Kept (hardware_changes s) f k = k

  run-Kept : (es : List (Event S)) (f : Feed S) → Kept f → Kept (run es f)
  unfolding run
  run-Kept [] f k = k
  run-Kept (e ∷ es) f k = run-Kept es (step e f) (step-Kept e f k)

  -- After at least one round either the next round is made to publish whatever it reads, or every
  -- message that is sent before the next round says the value of the last round, and one is on its way
  -- or the newest one that was sent has said it.
  abbrev pub Told : Option Bool → Feed S → Type 0
  Told none f = Unit
  Told (some v) f =
      (f.site.object.send_now ≡ true)
      ⊎ ((f.site.object.actual_value ≡ bool_to_int32 v) × OnTheWay (bool_to_int32 v) f)

  Kept-Told : (seen : Option Bool) (f : Feed S) → f.seen ≡ seen → Kept f → Told seen f
  Kept-Told none f e k = tt
  Kept-Told (some v) f e (inl h) = inl h
  Kept-Told (some v) f e (inr (inl h)) = cc
  Kept-Told (some v) f e (inr (inr (told, seen, way))) =
      let same = some-injective f.site.object.last_value v (sym seen ∙ e) in
      let says = told ∙ ap bool_to_int32 same in inr (says, subst (λ x. OnTheWay x f) says way)

  -- For a sensor of which nothing has been published, however rounds of `Run`, sending, power messages
  -- and changes of the hardware follow each other, and whatever the queue accepts: after at least one
  -- round either the next round is made to publish whatever it reads, or the value that messages say
  -- is that of the last round, and a message is on its way or the newest one that was sent said it.
  pub no_lost_change :
      (es : List (Event S)) (f : Feed S)
      → f.site.object.changes ≡ 0
      → f.seen ≡ none
      → Told (run es f).seen (run es f)
  no_lost_change es f fresh unseen =
      Kept-Told (run es f).seen (run es f) refl (run-Kept es f (inr (inl (fresh, unseen))))
