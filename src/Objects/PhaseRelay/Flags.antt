-- ===== src/Objects/PhaseRelay/Flags.antt =====
-- What activating and deactivating a phase relay does to the lines, told from the flag that the
-- relay keeps.
use local_worker.Common.{
  ℕ, Bool, true, false, not, ◌≡◌, ◌≢◌, refl, sym, ap, subst, ◌∙◌, Result, ok, err, Ends, and_then,
  Bool-cases, inl, inr, arith, pure, ◌>>◌,
}
use local_worker.Objects.{pin_value, Site, lift_hardware, modify_object}
use local_worker.Objects.Lines.{SameLines, LineSet, Drives}
use local_worker.Objects.PhaseRelay.{PhaseRelay, activate_relay, deactivate_relay}

module _ {S : Type 0} (line : S → ℕ → Bool) where
  -- The relay's coil, on line `n`, is powered.
  abbrev pub powered : PhaseRelay S → ℕ → S → Bool
  powered r n s = pin_value r.invert (line s n)

-- `Set` of the relay's pin never fails while the device is ready.
abbrev pub NeverFails : {S : Type 0} → (S → Type 0) → PhaseRelay S → Type 0
NeverFails Ready r = (v : Bool) (s : _) → Ready s → (r.device.set r.pin v s).0 ≡ ok tt

-- Then the flag is what was asked for.
module _ {S : Type 0} (r : PhaseRelay S) (s : S) where
  pub deactivate_relay-flag :
      (r.device.set r.pin (pin_value r.invert false) s).0 ≡ ok tt
      → (deactivate_relay (record { object = r; hardware = s })).1.object.last_active ≡ false
  unfolding deactivate_relay
  deactivate_relay-flag e = ground arith

  pub activate_relay-flag :
      (r.device.set r.pin (pin_value r.invert true) s).0 ≡ ok tt
      → (activate_relay (record { object = r; hardware = s })).1.object.last_active ≡ true
  unfolding activate_relay
  activate_relay-flag e = ground arith

module _ {S : Type 0} (Ready : S → Type 0) (line : S → ℕ → Bool) (r : PhaseRelay S) (n : ℕ)
    (drives : Drives r.device Ready line r.pin n) (s : S) where
  -- The device answers, the coil is as `v` says, and the other lines are as before.
  abbrev pub Switched : Bool → S → Type 0
  Switched v t = Ready t × (powered line r n t ≡ v) × ((m : ℕ) → n ≢ m → line t m ≡ line s m)

  abbrev pub here : Site (PhaseRelay S) S
  here = record { object = r; hardware = s }

  -- The call of `Set` and the new flag, when the flag was the opposite.
  abbrev noted : Bool → Result (Unit {0}) × S → Result Bool × Site (PhaseRelay S) S
  noted v out =
      and_then (λ _. modify_object (λ r. record r { last_active = v }) >> pure true)
        (lift_hardware here out)

  noted-Switched :
      (v : Bool) (out : Result (Unit {0}) × S)
      → Ends (λ _ t. Ready t × LineSet line n (pin_value r.invert v) s t) (SameLines line s) out
      → r.last_active ≡ not v
      → (noted v out).1.object.last_active ≡ v
      → Switched v (noted v out).1.hardware
        × ((noted v out).1.object ≡ record r { last_active = v })
  noted-Switched v (ok x, t) h was now =
      ((h.0, ground (arith, h.1 n), λ m ne. ground (arith, h.1 m)), refl)
  noted-Switched v (err e, t) h was now = absurd (ground arith)

  set_to : Bool → Result (Unit {0}) × S
  set_to v = r.device.set r.pin (pin_value r.invert v) s

  deactivate_relay_on : r.last_active ≡ true → deactivate_relay here ≡ noted false (set_to false)
  unfolding deactivate_relay set_to
  deactivate_relay_on e = simp e

  deactivate_relay_off : r.last_active ≡ false → deactivate_relay here ≡ (ok false, here)
  unfolding deactivate_relay
  deactivate_relay_off e = simp e

  activate_relay_off : r.last_active ≡ false → activate_relay here ≡ noted true (set_to true)
  unfolding activate_relay set_to
  activate_relay_off e = simp e

  activate_relay_on : r.last_active ≡ true → activate_relay here ≡ (ok false, here)
  unfolding activate_relay
  activate_relay_on e = simp e

  -- If the flag that `out` leaves is `v`, the coil is as `v` says, and nothing but the flag has
  -- changed in the relay.
  abbrev Truthful : Bool → Result Bool × Site (PhaseRelay S) S → Type 0
  Truthful v out =
      out.1.object.last_active ≡ v
      → Switched v out.1.hardware × (out.1.object ≡ record r { last_active = v })

  unchanged :
      (v : Bool)
      → Ready s
      → powered line r n s ≡ r.last_active
      → r.last_active ≡ v
      → Truthful v (ok false, here)
  unchanged v ready known e now =
      ((ready, known ∙ e, λ m ne. refl), ap (λ b. record r { last_active = b }) e)

  module _ (ready : Ready s) (known : powered line r n s ≡ r.last_active) where
    set_to-Truthful : (v : Bool) → r.last_active ≡ not v → Truthful v (noted v (set_to v))
    unfolding set_to
    set_to-Truthful v e =
        noted-Switched v (set_to v) (drives.set_meets (pin_value r.invert v) s ready) e

    pub deactivate_relay-Truthful : Truthful false (deactivate_relay here)
    deactivate_relay-Truthful = elim (Bool-cases r.last_active) [
      | inl e ↦ subst (Truthful false) (sym (deactivate_relay_on e)) (set_to-Truthful false e)
      | inr e ↦
          subst (Truthful false) (sym (deactivate_relay_off e)) (unchanged false ready known e)
    ]

    pub activate_relay-Truthful : Truthful true (activate_relay here)
    activate_relay-Truthful = elim (Bool-cases r.last_active) [
      | inl e ↦ subst (Truthful true) (sym (activate_relay_on e)) (unchanged true ready known e)
      | inr e ↦ subst (Truthful true) (sym (activate_relay_off e)) (set_to-Truthful true e)
    ]
