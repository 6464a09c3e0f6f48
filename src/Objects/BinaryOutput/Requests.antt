-- ===== src/Objects/BinaryOutput/Requests.antt =====
-- Requests to a binary output, at any point of `Run`.
use local_worker.Common.{
  ℕ, zero, suc, Bool, true, false, ◌≡◌, ◌≢◌, refl, sym, subst, ap, ◌∙◌, arith,
}
use local_worker.Objects.{pin_value, Site}
use local_worker.Objects.BinaryOutput.{
  BinaryOutput, Place, testing, noting, publishing, int32_to_bool, run_set, run_note, run_publish,
  run_at, run_step, process_message,
}

abbrev is_noting : Place → Bool
is_noting noting = true
is_noting _ = false

module _ {S : Type 0} where
  -- The next `n` parts of `Run`, with no request in between.
  unfoldable pub parts : ℕ → Site (BinaryOutput S) S → Site (BinaryOutput S) S
  parts zero s = s
  parts (suc n) s = parts n (run_step s).1

  -- `Run` has noted the value `v`, and the hardware is `h`.
  record Noted (v : ℕ) (h : S) (s : Site (BinaryOutput S) S) : Type 0 where
    target : s.object.target_state ≡ v
    current : s.object.current_state ≡ v
    initialized : s.object.initialized ≡ true
    place : is_noting s.object.place ≡ false
    hardware : s.hardware ≡ h

  part-Noted :
      (v : ℕ) (h : S) (s : Site (BinaryOutput S) S) (p : Place)
      → s.object.place ≡ p
      → Noted v h s
      → Noted v h (run_at p s).1
  unfolding run_at run_set run_note run_publish
  part-Noted v h s testing e n = ground arith
  part-Noted v h s noting e n = ground arith
  part-Noted v h s publishing e n = ground arith

  parts-Noted :
      (n v : ℕ) (h : S) (s : Site (BinaryOutput S) S) → Noted v h s → Noted v h (parts n s)
  unfolding parts run_step
  parts-Noted zero v h s k = k
  parts-Noted (suc n) v h s k =
      parts-Noted n v h (run_step s).1 (part-Noted v h s s.object.place refl k)

  -- The hardware after `Set` of the pin with the level of `v`.
  abbrev set_to : ℕ → BinaryOutput S → S → S
  set_to v o h = (o.output_device.set o.pin (pin_value o.invert (int32_to_bool v)) h).1

  from_noting :
      (v : ℕ) (s : Site (BinaryOutput S) S)
      → s.object.place ≡ noting
      → s.object.target_state ≡ v
      → Noted v s.hardware (run_step s).1
  unfolding run_step run_at run_note
  from_noting v s e t =
      subst (λ p. Noted v s.hardware (run_at p s).1) (sym e)
        (record { target = t; current = t; initialized = refl; place = refl; hardware = refl })

  set_part :
      (v : ℕ) (s : Site (BinaryOutput S) S)
      → s.object.place ≡ testing
      → s.object.target_state ≡ v
      → v ≢ s.object.current_state
      → (run_step s).1 ≡ record {
        object = record (s.object) { place = noting };
        hardware = set_to v s.object s.hardware;
      }
  unfolding run_step run_at run_set
  set_part v s e t ne =
      ap (λ p. (run_at p s).1) e ∙ ground (arith, ap (λ x. set_to x s.object s.hardware) t)

  from_testing :
      (v : ℕ) (s : Site (BinaryOutput S) S)
      → s.object.place ≡ testing
      → s.object.target_state ≡ v
      → v ≢ s.object.current_state
      → Noted v (set_to v s.object s.hardware) (run_step (run_step s).1).1
  from_testing v s e t ne =
      subst (λ x. Noted v (set_to v s.object s.hardware) (run_step x).1) (sym (set_part v s e t ne))
        (from_noting v _ refl t)

  publish_part :
      (s : Site (BinaryOutput S) S)
      → s.object.place ≡ publishing
      → (run_step s).1 ≡ record {
        object = record (s.object) { send_actual_needed = false; place = testing };
        hardware = s.hardware;
      }
  unfolding run_step run_at run_publish
  publish_part s e = ap (λ p. (run_at p s).1) e

  from_publishing :
      (v : ℕ) (s : Site (BinaryOutput S) S)
      → s.object.place ≡ publishing
      → s.object.target_state ≡ v
      → v ≢ s.object.current_state
      → Noted v (set_to v s.object s.hardware) (run_step (run_step (run_step s).1).1).1
  from_publishing v s e t ne =
      subst (λ x. Noted v (set_to v s.object s.hardware) (run_step (run_step x).1).1)
        (sym (publish_part s e)) (from_testing v _ refl t ne)

  module _ (v : ℕ) (s : Site (BinaryOutput S) S) where
    -- What the hardware is in the end, when the request comes at this place.
    abbrev pub outcome : Place → S
    outcome testing = set_to v s.object s.hardware
    outcome noting = s.hardware
    outcome publishing = set_to v s.object s.hardware

    abbrev requested : Site (BinaryOutput S) S
    requested = (process_message v s).1

    noted :
        (p : Place)
        → s.object.place ≡ p
        → v ≢ s.object.current_state
        → Noted v (outcome p) (parts (suc (suc (suc zero))) requested)
    unfolding parts process_message
    noted testing e ne = parts-Noted 1 v (outcome testing) _ (from_testing v requested e refl ne)
    noted noting e ne = parts-Noted 2 v s.hardware _ (from_noting v requested e refl)
    noted publishing e ne = from_publishing v requested e refl ne

    -- A request for a value other than the current one comes at some place of `Run`, and no other one
    -- after it. From three parts of `Run` on, that value is the current state, and `Set` of the pin has
    -- been called once with its level, whether it failed or not; but if the request came between a call
    -- of `Set` and the note of it, then it has not been called at all. It is not called again either way.
    pub request-outcome :
        (n : ℕ)
        → v ≢ s.object.current_state
        → ((parts n (parts 3 requested)).object.current_state ≡ v)
          × ((parts n (parts 3 requested)).hardware ≡ outcome s.object.place)
    request-outcome n ne =
        let k =
          parts-Noted n v (outcome s.object.place) (parts 3 requested)
            (noted s.object.place refl ne) in
        (k.current, k.hardware)
