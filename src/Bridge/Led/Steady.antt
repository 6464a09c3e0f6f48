-- ===== src/Bridge/Led/Steady.antt =====
-- A led that has been set stays as it is.
use local_worker.Common.{
  ℕ, zero, suc, if_cases, Bool, true, false, true≢false, List, [], ◌∷◌, M, Result, ok, err,
  wrapping, ◌≡◌, refl, sym, ap, ◌∙◌, subst,
}
use local_worker.Bridge.Led.{
  Blinker, Led, LedSite, cancel_newest, cancel_blink, written, set, blink, turn, turn_at, Event,
  sets, blinks, turns, step, run_events,
}

abbrev AllCanceled : List Blinker → Type 0
AllCanceled [] = Unit
AllCanceled (b ∷ bs) = (b.canceled ≡ true) × AllCanceled bs

abbrev OlderCanceled : List Blinker → Type 0
OlderCanceled [] = Unit
OlderCanceled (b ∷ bs) = AllCanceled bs

-- Only the blinker whose `cancel` is kept can still write.
abbrev IsKept : Led → Type 0
IsKept l = (OlderCanceled l.blinkers) × (l.has_cancel ≡ false → AllCanceled l.blinkers)

AllCanceled-older : (bs : List Blinker) → AllCanceled bs → OlderCanceled bs
AllCanceled-older [] h = tt
AllCanceled-older (b ∷ bs) h = h.1

cancel_newest-AllCanceled : (bs : List Blinker) → OlderCanceled bs → AllCanceled (cancel_newest bs)
cancel_newest-AllCanceled [] h = tt
cancel_newest-AllCanceled (b ∷ bs) h = (refl, h)

cancel_blink-AllCanceled : (l : Led) → IsKept l → AllCanceled (cancel_blink l).blinkers
cancel_blink-AllCanceled l h =
    if_cases (λ k. AllCanceled k.blinkers) l.has_cancel
      (record { has_cancel = false; blinkers = cancel_newest l.blinkers }) l
      (λ e. cancel_newest-AllCanceled l.blinkers h.0) (λ e. h.1 e)

module _ {W : Type 0} (write : Bool → M W (Unit {0})) where
  turn_canceled : (b : Blinker) (w : W) → b.canceled ≡ true → turn write b w ≡ (b, w)
  turn_canceled b w e =
      if_cases (λ x. x ≡ (b, w)) b.canceled (b, w) _ (λ _. refl)
        (λ f. absurd (true≢false (sym e ∙ f)))

  turn_at-AllCanceled :
      (i : ℕ) (bs : List Blinker) (w : W) → AllCanceled bs → turn_at write i bs w ≡ (bs, w)
  unfolding turn_at
  turn_at-AllCanceled i [] w h = refl
  turn_at-AllCanceled zero (b ∷ bs) w h = ap (λ out. (out.0 ∷ bs, out.1)) (turn_canceled b w h.0)
  turn_at-AllCanceled (suc i) (b ∷ bs) w h =
      ap (λ out. (b ∷ out.0, out.1)) (turn_at-AllCanceled i bs w h.1)

  turn_at-OlderCanceled :
      (i : ℕ) (bs : List Blinker) (w : W)
      → OlderCanceled bs
      → OlderCanceled (turn_at write i bs w).0
  unfolding turn_at
  turn_at-OlderCanceled i [] w h = tt
  turn_at-OlderCanceled zero (b ∷ bs) w h = h
  turn_at-OlderCanceled (suc i) (b ∷ bs) w h =
      subst AllCanceled (sym (ap (λ out. out.0) (turn_at-AllCanceled i bs w h))) h

  written-led : (l : Led) (out : Result (Unit {0}) × W) → (wrapping (written write l out)).1.led ≡ l
  written-led l (ok u, w) = refl
  written-led l (err e, w) = refl

  set-AllCanceled :
      (on : Bool) (s : LedSite W) → IsKept s.led → AllCanceled (set write on s).1.led.blinkers
  unfolding set
  set-AllCanceled on s h =
      subst (λ l. AllCanceled l.blinkers)
        (sym (written-led (cancel_blink s.led) (write on s.world)))
        (cancel_blink-AllCanceled s.led h)

  step-IsKept : (e : Event write) (s : LedSite W) → IsKept s.led → IsKept (step write e s).led
  unfolding step blink
  step-IsKept (sets on) s h =
      let all = set-AllCanceled on s h in
      (AllCanceled-older (set write on s).1.led.blinkers all, λ _. all)
  step-IsKept blinks s h = (cancel_blink-AllCanceled s.led h, λ e. absurd (true≢false e))
  step-IsKept (turns i) s h = (
    turn_at-OlderCanceled i s.led.blinkers s.world h.0,
    λ e.
        subst AllCanceled
          (sym (ap (λ out. out.0) (turn_at-AllCanceled i s.led.blinkers s.world (h.1 e)))) (h.1 e),
  )

  run_events-IsKept :
      (es : List (Event write)) (s : LedSite W) → IsKept s.led → IsKept (run_events write es s).led
  unfolding run_events
  run_events-IsKept [] s h = h
  run_events-IsKept (e ∷ es) s h = run_events-IsKept es (step write e s) (step-IsKept e s h)

  abbrev pub turns_of : List ℕ → List (Event write)
  turns_of [] = []
  turns_of (i ∷ is) = turns i ∷ turns_of is

  turns-steady :
      (is : List ℕ) (s : LedSite W)
      → AllCanceled s.led.blinkers
      → run_events write (turns_of is) s ≡ s
  unfolding run_events step
  turns-steady [] s h = refl
  turns-steady (i ∷ is) s h =
      ap
        (λ out.
          run_events write (turns_of is)
            (record { led = record s.led { blinkers = out.0 }; world = out.1 }))
        (turn_at-AllCanceled i s.led.blinkers s.world h)
      ∙ turns-steady is s h

  abbrev pub unused : W → LedSite W
  unused w = record { led = record { has_cancel = false; blinkers = [] }; world = w }

  -- A led that no one has used yet, then whatever calls of `Set` and `Blink` and turns of blinkers:
  -- after a `Set`, whether its write succeeds or fails, no turn of any blinker changes the board or the
  -- led, however many follow, until the next call.
  pub set-steady :
      (es : List (Event write)) (on : Bool) (is : List ℕ) (w : W)
      → let s = (set write on (run_events write es (unused w))).1 in
        run_events write (turns_of is) s ≡ s
  set-steady es on is w =
      turns-steady is _ (set-AllCanceled on _ (run_events-IsKept es _ (tt, λ _. tt)))
