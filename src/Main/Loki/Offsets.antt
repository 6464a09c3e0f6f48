-- ===== src/Main/Loki/Offsets.antt =====
-- The time offset of the logger that is written to.
use local_worker.Common.{
  ℕ, Bool-cases, Option, none, some, List, [], ◌∷◌, ◌≡◌, refl, sym, ◌∙◌, inl, inr, subst, Result,
  ok, err, Ends,
}
use local_worker.Common.Texts.{Text, same_text}
use local_worker.Main.Loki.{
  LokiLibrary, LokiLogger, ServiceInfo, Event, offset_changed, loki_changed, set_last, use_created,
  use_url, url_of, hear, step, run, started,
}

-- The offset that was received last.
abbrev last_offset : {O : Type 0} → List (Event O) → O → O
last_offset [] o = o
last_offset (offset_changed offset ∷ es) o = last_offset es offset
last_offset (loki_changed info ∷ es) o = last_offset es o

-- What the package loki does with offsets: a new logger has the one it is given, a logger that could
-- not be made changes none, and one that is set is the one of the logger.
pub record KeepsOffsets {L O W : Type 0} (lib : LokiLibrary L O W) (offset_of : L → W → O)
    : Type 0 where
  pub of_new :
      (url job : Text) (o : O) (w : W)
      → Ends
          (λ l t. offset_of l t ≡ o)
          (λ t. (l : L) → offset_of l t ≡ offset_of l w)
          (lib.new_loki_logger url job o w)
  pub of_set : (l : L) (o : O) (w : W) → offset_of l (lib.set_timeoffset l o w) ≡ o

-- The logger has the offset.
abbrev pub HasOffset : {L O W : Type 0} → (L → W → O) → O → W → Option L → Type 0
HasOffset offset_of o w none = Unit
HasOffset offset_of o w (some l) = offset_of l w ≡ o

module _ {L O W : Type 0} (lib : LokiLibrary L O W) (offset_of : L → W → O)
    (keeps : KeepsOffsets lib offset_of) (decimal : ℕ → Text) (job : Text) where
  abbrev InStep : O → LokiLogger L O W → Type 0
  InStep o s =
      (s.time_offset ≡ o)
      × (s.logger ≡ s.last_logger)
      × HasOffset offset_of s.time_offset s.world s.last_logger

  set_last-HasOffset : (l : Option L) (o : O) (w : W) → HasOffset offset_of o (set_last lib l o w) l
  set_last-HasOffset none o w = tt
  set_last-HasOffset (some l) o w = keeps.of_set l o w

  unchanged-HasOffset :
      (o : O) (v w : W) (l : Option L)
      → ((k : L) → offset_of k v ≡ offset_of k w)
      → HasOffset offset_of o w l
      → HasOffset offset_of o v l
  unchanged-HasOffset o v w none same h = tt
  unchanged-HasOffset o v w (some l) same h = same l ∙ h

  use_created-InStep :
      (o : O) (s : LokiLogger L O W) (out : Result L × W)
      → InStep o s
      → Ends
          (λ l t. offset_of l t ≡ s.time_offset)
          (λ t. (l : L) → offset_of l t ≡ offset_of l s.world)
          out
      → InStep o (use_created lib s out)
  use_created-InStep o s (ok l, t) (e, f, h) new = (e, refl, new)
  use_created-InStep o s (err x, t) (e, f, h) same =
      (e, f, unchanged-HasOffset s.time_offset t s.world s.last_logger same h)

  use_url-InStep :
      (o : O) (url : Text) (s : LokiLogger L O W)
      → InStep o s
      → InStep o (use_url lib decimal job url s)
  use_url-InStep o url s h = elim (Bool-cases (same_text url s.current_url)) [
    | inl e ↦ rw e h
    | inr e ↦ rw e (
        use_created-InStep o (record s { current_url = url }) _ h
          (keeps.of_new url job s.time_offset s.world))
  ]

  hear-InStep :
      (o : O) (address : Text) (info : ServiceInfo) (s : LokiLogger L O W)
      → InStep o s
      → InStep o (hear lib decimal job address info s)
  hear-InStep o [] info s h = h
  hear-InStep o (c ∷ cs) info s h = use_url-InStep o (url_of decimal info) s h

  run-InStep :
      (es : List (Event O)) (o : O) (s : LokiLogger L O W)
      → InStep o s
      → InStep (last_offset es o) (run lib decimal job es s)
  unfolding run step
  run-InStep [] o s h = h
  run-InStep (offset_changed x ∷ es) o s (e, f, h) =
      run-InStep es x (step lib decimal job (offset_changed x) s)
        (refl, f, set_last-HasOffset s.last_logger x s.world)
  run-InStep (loki_changed info ∷ es) o s h =
      run-InStep es o (step lib decimal job (loki_changed info) s)
        (hear-InStep o info.api_address info s h)

  -- Whatever offsets and Loki servers `Run` is told of, and whichever loggers could not be made: the
  -- logger that is written to, if there is one, has the offset that came last.
  pub run-HasOffset :
      (es : List (Event O)) (zero_offset : O) (w : W)
      → let s = run lib decimal job es (started lib zero_offset w) in
        HasOffset offset_of (last_offset es zero_offset) s.world s.logger
  run-HasOffset es zero_offset w =
      let s = run lib decimal job es (started lib zero_offset w) in
      let h = run-InStep es zero_offset (started lib zero_offset w) (refl, refl, tt) in
      subst (λ l. HasOffset offset_of (last_offset es zero_offset) s.world l) (sym h.1)
        (subst (λ o. HasOffset offset_of o s.world s.last_logger) h.0 h.2)
