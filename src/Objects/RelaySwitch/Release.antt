-- ===== src/Objects/RelaySwitch/Release.antt =====
-- A relay switch notes that the release is done only when both relays are off.
use local_worker.Common.{
  ℕ, ◌<◌, ltb, Bool, true, false, ◌≡◌, ◌≢◌, sym, ◌∙◌, subst, and_then-pure, true≢false, Bool-cases,
  ltb→lt, inl, inr, ok, Ends, arith, ◌||◌, Result, err, failed,
}
use local_worker.Objects.{Site, pin_value}
use local_worker.Objects.Lines.{SameLines, LineSet}
use local_worker.Objects.RelaySwitch.{Relay, RelaySwitch, deactivate_relay, run_step, disable_all}
use local_worker.Objects.RelaySwitch.Safety.{energised, Wired}

module _ {S : Type 0} (Ready : S → Type 0) (line : S → ℕ → Bool) where
  released_second :
      (r x : Relay S) (m n : ℕ)
      → m ≢ n
      → (s t : S) → LineSet line m (pin_value r.invert false) s t
      → (out : Result (Unit {0}) × S)
      → Ends (λ _ u. Ready u × LineSet line n (pin_value x.invert false) t u) (SameLines line t) out
      → failed out.0 ≡ false
      → (energised line r m out.1 ≡ false) × (energised line x n out.1 ≡ false)
  released_second r x m n apart s t h (ok _, u) k e =
      (ground (arith, k.1 m, h m), ground (arith, k.1 n))
  released_second r x m n apart s t h (err _, u) k e = cc

  released :
      (r x : Relay S) (m n : ℕ)
      → m ≢ n
      → (f : S → Result (Unit {0}) × S) (s : S) (out : Result (Unit {0}) × S)
      → Ends (λ _ t. Ready t × LineSet line m (pin_value r.invert false) s t) (SameLines line s) out
      → ((t : S)
          → Ready t
          → Ends
              (λ _ u. Ready u × LineSet line n (pin_value x.invert false) t u)
              (SameLines line t)
              (f t))
      → (failed out.0 || failed (f out.1).0) ≡ false
      → (energised line r m (f out.1).1 ≡ false) × (energised line x n (f out.1).1 ≡ false)
  released r x m n apart f s (ok _, t) h k e =
      released_second r x m n apart s t h.1 (f t) (k t h.0) e
  released r x m n apart f s (err _, t) h k e = cc

  disable_all-releases :
      (s : Site (RelaySwitch S) S) (m n : ℕ)
      → Wired Ready line s.object m n
      → Ready s.hardware
      → s.object.disable_all_needed ≡ true
      → (disable_all s).1.object.disable_all_needed ≡ false
      → (energised line s.object.straight_relay m (disable_all s).1.hardware ≡ false)
        × (energised line s.object.off_relay n (disable_all s).1.hardware ≡ false)
  unfolding disable_all
  disable_all-releases s m n w ready needed cleared =
      let a = deactivate_relay s.object.straight_relay s.hardware in
      let b = deactivate_relay s.object.off_relay a.1 in
      elim (Bool-cases (failed a.0 || failed b.0)) [
        | inl e ↦ absurd (true≢false (sym needed ∙ (rw e at cleared)))
        | inr e ↦ rw e (
            released s.object.straight_relay s.object.off_relay m n w.apart
              (deactivate_relay s.object.off_relay) s.hardware a
              (w.straight_drives.set_meets (pin_value s.object.straight_relay.invert false)
                s.hardware ready)
              (λ t. w.off_drives.set_meets (pin_value s.object.off_relay.invert false) t) e)
      ]

  run_step_due :
      (now : ℕ) (s : Site (RelaySwitch S) S)
      → s.object.disable_all_needed ≡ true
      → ltb s.object.disable_all_time now ≡ true
      → (run_step now s).1 ≡ (disable_all s).1
  unfolding run_step
  run_step_due now s needed due = simp (needed, due) (and_then-pure _ (disable_all s))

  run_step_early :
      (now : ℕ) (s : Site (RelaySwitch S) S)
      → s.object.disable_all_needed ≡ true
      → ltb s.object.disable_all_time now ≡ false
      → (run_step now s).1 ≡ s
  unfolding run_step
  run_step_early now s needed early = simp (needed, early)

  -- If the devices drive two different lines and the release is needed, a round of `Run` that clears
  -- the note of it happens after the time of the release and leaves neither relay energised.
  pub run_step-releases :
      (now : ℕ) (s : Site (RelaySwitch S) S) (m n : ℕ)
      → Wired Ready line s.object m n
      → Ready s.hardware
      → s.object.disable_all_needed ≡ true
      → (run_step now s).1.object.disable_all_needed ≡ false
      → (s.object.disable_all_time < now)
        × (energised line s.object.straight_relay m (run_step now s).1.hardware ≡ false)
        × (energised line s.object.off_relay n (run_step now s).1.hardware ≡ false)
  run_step-releases now s m n w ready needed cleared =
      elim (Bool-cases (ltb s.object.disable_all_time now)) [
        | inl e ↦
            let due = run_step_due now s needed e in
            let r =
              disable_all-releases s m n w ready needed
                (subst (λ t. t.object.disable_all_needed ≡ false) due cleared) in
            (
              ltb→lt _ _ e,
              subst (λ t. energised line s.object.straight_relay m t.hardware ≡ false) (sym due)
                  r.0,
              subst (λ t. energised line s.object.off_relay n t.hardware ≡ false) (sym due) r.1,
            )
        | inr e ↦ absurd (
            true≢false (
              sym needed
              ∙ subst (λ t. t.object.disable_all_needed ≡ false) (run_step_early now s needed e)
                  cleared))
      ]
