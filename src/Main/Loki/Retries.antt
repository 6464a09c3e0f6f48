-- ===== src/Main/Loki/Retries.antt =====
-- A logger that could not be made.
use local_worker.Common.{
  ℕ, false, Option, none, some, List, [], ◌∷◌, ◌≡◌, refl, ap, ◌∙◌, Error, err,
}
use local_worker.Common.Texts.{Text, same_text, same_text_refl}
use local_worker.Main.Loki.{
  LokiLibrary, LokiLogger, ServiceInfo, Event, offset_changed, loki_changed, url_of, hear, step,
  run,
}

-- The same server is announced again and again, with changes of the offset in between.
abbrev repeats : {O : Type 0} → ServiceInfo → List (Option O) → List (Event O)
repeats info [] = []
repeats info (none ∷ xs) = loki_changed info ∷ repeats info xs
repeats info (some offset ∷ xs) = offset_changed offset ∷ repeats info xs

module _ {L O W : Type 0} (lib : LokiLibrary L O W) (decimal : ℕ → Text) (job : Text) where
  hear_same :
      (address : Text) (info : ServiceInfo) (s : LokiLogger L O W)
      → s.current_url ≡ url_of decimal info
      → hear lib decimal job address info s ≡ s
  hear_same [] info s e = refl
  hear_same (c ∷ cs) info s e = rw (e, same_text_refl (url_of decimal info)) refl

  repeats_unheard :
      (info : ServiceInfo) (xs : List (Option O)) (s : LokiLogger L O W)
      → s.current_url ≡ url_of decimal info
      → (run lib decimal job (repeats info xs) s).logger ≡ s.logger
  unfolding run step
  repeats_unheard info [] s e = refl
  repeats_unheard info (none ∷ xs) s e =
      ap (λ t. (run lib decimal job (repeats info xs) t).logger)
        (hear_same info.api_address info s e)
      ∙ repeats_unheard info xs s e
  repeats_unheard info (some o ∷ xs) s e =
      repeats_unheard info xs (step lib decimal job (offset_changed o) s) e

  heard_failed :
      (info : ServiceInfo) (c : ℕ) (cs : Text) (s : LokiLogger L O W) (e : Error) (w : W)
      → info.api_address ≡ c ∷ cs
      → same_text (url_of decimal info) s.current_url ≡ false
      → lib.new_loki_logger (url_of decimal info) job s.time_offset s.world ≡ (err e, w)
      → hear lib decimal job info.api_address info s
        ≡ record s { current_url = url_of decimal info; world = w }
  heard_failed info c cs s e w address new failed =
      ap (λ a. hear lib decimal job a info s) address ∙ rw (new, failed) refl

  -- If a server is announced with an address, its URL is not the current one, and no logger can be
  -- made for it, then none is made later, however often the same address and port are announced again
  -- and whatever offsets come in between: what is logged goes where it went before.
  pub failed-never_retried :
      (info : ServiceInfo) (c : ℕ) (cs : Text) (xs : List (Option O)) (s : LokiLogger L O W)
      (e : Error) (w : W)
      → info.api_address ≡ c ∷ cs
      → same_text (url_of decimal info) s.current_url ≡ false
      → lib.new_loki_logger (url_of decimal info) job s.time_offset s.world ≡ (err e, w)
      → (run lib decimal job (loki_changed info ∷ repeats info xs) s).logger ≡ s.logger
  unfolding run step
  failed-never_retried info c cs xs s e w address new failed =
      ap (λ t. (run lib decimal job (repeats info xs) t).logger)
        (heard_failed info c cs s e w address new failed)
      ∙ repeats_unheard info xs (record s { current_url = url_of decimal info; world = w }) refl
