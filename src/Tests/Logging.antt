-- ===== src/Tests/Logging.antt =====
-- The theorems on the logger of Loki.
use local_worker.Common.{
  ℕ, ◌+◌, Bool-cases, if◌then◌else◌, some, none, List, [], ◌∷◌, length, ok, err, Error, ◌≡◌, refl,
  inl, inr,
}
use local_worker.Common.Texts.{Text, same_text}
use local_worker.Main.Loki.{
  LokiLibrary, ServiceInfo, Event, offset_changed, loki_changed, url_of, run, step, started,
}
use local_worker.Main.Loki.Offsets.{KeepsOffsets, HasOffset, run-HasOffset}
use local_worker.Main.Loki.Retries.{failed-never_retried}

-- A port is printed as one digit.
abbrev digit : ℕ → Text
digit n = (b'0' + n) ∷ []

abbrev server : ℕ → ServiceInfo
server port = record { api_address = b'm' ∷ []; api_port = port }

-- Loggers are numbers, and the world holds the offset of the last one, which every logger has; none
-- can be made for port 0.
abbrev loki : LokiLibrary ℕ ℕ ℕ
loki = record {
  new_loki_logger = λ url job o w.
      if same_text url (url_of digit (server 0)) then (err (Error.reported 1), w) else (ok 1, o);
  set_timeoffset = λ l o w. o;
  write_level = λ l level p w. (ok (length p), w);
}

abbrev one_offset : ℕ → ℕ → ℕ
one_offset l w = w

loki-KeepsOffsets : KeepsOffsets loki one_offset
loki-KeepsOffsets = record {
  of_new = λ url job o w. elim (Bool-cases (same_text url (url_of digit (server 0)))) [
    | inl e ↦ rw e (λ l. refl)
    | inr e ↦ rw e refl
  ];
  of_set = λ l o w. refl;
}

-- A server, an offset, one for which no logger can be made, another offset.
abbrev heard : List (Event ℕ)
heard = loki_changed (server 3) ∷ offset_changed 5 ∷ loki_changed (server 0) ∷ offset_changed 8 ∷ []

run-HasOffset_example :
    HasOffset one_offset 8
      (run loki digit [] heard (started loki 0 0)).world
      (run loki digit [] heard (started loki 0 0)).logger
run-HasOffset_example = run-HasOffset loki one_offset loki-KeepsOffsets digit [] heard 0 0

heard-run : (run loki digit [] heard (started loki 0 0)).logger ≡ some 1
unfolding run step
heard-run = refl

failed-never_retried_example :
    (run loki digit []
      (loki_changed (server 0)
        ∷ loki_changed (server 0)
        ∷ offset_changed 5
        ∷ loki_changed (server 0)
        ∷ [])
      (started loki 0 0)).logger
    ≡ none
failed-never_retried_example =
    failed-never_retried loki digit [] (server 0) b'm' [] (none ∷ some 5 ∷ none ∷ [])
      (started loki 0 0) (Error.reported 1) 0 refl refl refl
