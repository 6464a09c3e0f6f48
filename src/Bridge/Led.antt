-- ===== src/Bridge/Led.antt =====
-- pkg/service/bridge/rpi.go: a status led with the goroutines that blink it. `Set` and `Blink` take
-- the mutex of the led, and so does a blinker for each turn of its loop, so each of these is one step.
-- Blinkers stand in a list with the newest first; `cancelBlink`, if it is set, is that of the newest.
pub mod Steady
use local_worker.Common.{
  ℕ, zero, suc, if◌then◌else◌, Bool, true, false, not, List, [], ◌∷◌, M, Result, ok, wrapping,
}

-- The goroutine of a `Blink`, with the value that it writes next.
pub record Blinker : Type 0 where
  pub value : Bool
  pub canceled : Bool

pub record Led : Type 0 where
  pub has_cancel : Bool
  pub blinkers : List Blinker

-- A led beside the board.
pub record LedSite (W : Type 0) : Type 0 where
  pub led : Led
  pub world : W

abbrev pub cancel_newest : List Blinker → List Blinker
cancel_newest [] = []
cancel_newest (b ∷ bs) = record b { canceled = true } ∷ bs

-- `if cancel := l.cancelBlink; cancel != nil`
abbrev pub cancel_blink : Led → Led
cancel_blink l =
    if l.has_cancel then record { has_cancel = false; blinkers = cancel_newest l.blinkers } else l

module _ {W : Type 0} (write : Bool → M W (Unit {0})) where
  abbrev pub written : Led → Result (Unit {0}) × W → Result (Unit {0}) × LedSite W
  written l (r, w) = (r, record { led = l; world = w })

  unfoldable pub set : Bool → M (LedSite W) (Unit {0})
  set on s = wrapping (written (cancel_blink s.led) (write on s.world))

  unfoldable pub blink : M (LedSite W) (Unit {0})
  blink s =
      let l = cancel_blink s.led in
      (
        ok tt,
        record s {
          led = record {
            has_cancel = true;
            blinkers = record { value = true; canceled = false } ∷ l.blinkers;
          };
        },
      )

  -- A turn of a blinker: the error of the write is not looked at, and one that is cancelled does
  -- nothing.
  abbrev pub turn : Blinker → W → Blinker × W
  turn b w = if b.canceled then (b, w) else (record b { value = not b.value }, (write b.value w).1)

  unfoldable pub turn_at : ℕ → List Blinker → W → List Blinker × W
  turn_at i [] w = ([], w)
  turn_at zero (b ∷ bs) w = let out = turn b w in (out.0 ∷ bs, out.1)
  turn_at (suc i) (b ∷ bs) w = let out = turn_at i bs w in (b ∷ out.0, out.1)

  pub data Event : Type 0 where
    sets : Bool → Event
    blinks : Event
    turns : ℕ → Event

  unfoldable pub step : Event → LedSite W → LedSite W
  unfolding turn_at
  step (sets on) s = (set on s).1
  step blinks s = (blink s).1
  step (turns i) s =
      let out = turn_at i s.led.blinkers s.world in
      record { led = record s.led { blinkers = out.0 }; world = out.1 }

  unfoldable pub run_events : List Event → LedSite W → LedSite W
  unfolding step
  run_events [] s = s
  run_events (e ∷ es) s = run_events es (step e s)
