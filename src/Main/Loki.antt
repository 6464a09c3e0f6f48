-- ===== src/Main/Loki.antt =====
-- pkg/service/loki_logger.go: the logger that hands what is logged to a Loki server, once one has
-- been heard of. `Run` is a loop over what its two channels yield, until its context ends. The
-- package loki and the text of a port number are parameters; the log that `Run` writes is left out.
pub mod Offsets
pub mod Retries
use local_worker.Common.{
  ℕ, Bool, true, false, if◌then◌else◌, Option, none, some, List, [], ◌∷◌, ◌++◌, length, M, Result,
  ok, err,
}
use local_worker.Common.Texts.{Text, same_text}

-- What the code calls of the package loki: `L` is a logger of it, and `O` the type `int64`.
pub record LokiLibrary (L O W : Type 0) : Type 0 where
  pub new_loki_logger : Text → Text → O → M W L
  pub set_timeoffset : L → O → W → W
  pub write_level : L → ℕ → Text → M W ℕ

-- `api.ServiceInfo`, as far as it is read here.
pub record ServiceInfo : Type 0 where
  pub api_address : Text
  pub api_port : ℕ

-- The field `logger`, the variables of `Run`, and the world outside.
pub record LokiLogger (L O W : Type 0) : Type 0 where
  pub logger : Option L
  pub current_url : Text
  pub last_logger : Option L
  pub time_offset : O
  pub world : W

-- What a turn of the loop takes from a channel.
pub data Event (O : Type 0) : Type 0 where
  offset_changed : O → Event O
  loki_changed : ServiceInfo → Event O

-- `zerolog.InfoLevel`
abbrev info_level : ℕ
info_level = 1

-- `fmt.Sprintf("http://%s:%d", ...)`
abbrev pub url_of : (ℕ → Text) → ServiceInfo → Text
url_of decimal info =
    (b'h' ∷ b't' ∷ b't' ∷ b'p' ∷ b':' ∷ b'/' ∷ b'/' ∷ [])
    ++ info.api_address
    ++ (b':' ∷ [])
    ++ decimal info.api_port

module _ {L O W : Type 0} (lib : LokiLibrary L O W) where
  abbrev write_to : Option L → ℕ → Text → M W ℕ
  write_to none level p w = (ok (length p), w)
  write_to (some l) level p w = lib.write_level l level p w

  unfoldable pub write_level : LokiLogger L O W → ℕ → Text → M W ℕ
  write_level s level p = write_to s.logger level p

  unfoldable pub write : LokiLogger L O W → Text → M W ℕ
  unfolding write_level
  write s p = write_level s info_level p

  abbrev pub set_last : Option L → O → W → W
  set_last none offset w = w
  set_last (some l) offset w = lib.set_timeoffset l offset w

  -- An error leaves the logger as it was.
  abbrev pub use_created : LokiLogger L O W → Result L × W → LokiLogger L O W
  use_created s (ok l, w) = record s { last_logger = some l; logger = some l; world = w }
  use_created s (err e, w) = record s { world = w }

  module _ (decimal : ℕ → Text) (job : Text) where
    abbrev pub use_url : Text → LokiLogger L O W → LokiLogger L O W
    use_url url s =
        if same_text url s.current_url
        then s
        else use_created (record s { current_url = url })
            (lib.new_loki_logger url job s.time_offset s.world)

    abbrev pub hear : Text → ServiceInfo → LokiLogger L O W → LokiLogger L O W
    hear [] info s = s
    hear (c ∷ cs) info s = use_url (url_of decimal info) s

    unfoldable pub step : Event O → LokiLogger L O W → LokiLogger L O W
    step (offset_changed offset) s = record s {
      time_offset = offset;
      world = set_last s.last_logger offset s.world;
    }
    step (loki_changed info) s = hear info.api_address info s

    unfoldable pub run : List (Event O) → LokiLogger L O W → LokiLogger L O W
    unfolding step
    run [] s = s
    run (e ∷ es) s = run es (step e s)

  -- `NewLokiLogger`, and the start of `Run`.
  abbrev pub started : O → W → LokiLogger L O W
  started zero_offset w = record {
    logger = none;
    current_url = [];
    last_logger = none;
    time_offset = zero_offset;
    world = w;
  }
