-- ===== src/Objects/BinaryOutput.antt =====
-- pkg/service/objects/binary_output.go: an output pin. A value is an `int32`, kept as its bit
-- pattern; any value but 0 stands for on.
pub mod Requests
use local_worker.Common.{
  ℕ, ◌==◌, if◌then◌else◌, Bool, true, false, not, ◌||◌, Option, none, some, M, pure, ignore, ◌>>=◌,
  ◌>>◌,
}
use local_worker.Devices.{output}
use local_worker.Objects.{Gpio, pin_value, Site, on_hardware, get_object, modify_object}

-- Where `Run` is: before the test of the two states, behind the call of `Set`, or behind the `if`.
pub data Place : Type 0 where
  testing noting publishing : Place

-- `initialized` is the local variable of `Run`.
pub record BinaryOutput (S : Type 0) : Type 0 where
  pub output_device : Gpio S
  pub pin : ℕ
  pub invert : Bool
  pub target_state : ℕ
  pub current_state : ℕ
  pub send_actual_needed : Bool
  pub initialized : Bool
  pub place : Place

-- The message of `PublishOutputActual`.
pub record OutputActual : Type 0 where
  pub request : ℕ
  pub actual : ℕ

-- `int32ToBool`
abbrev pub int32_to_bool : ℕ → Bool
int32_to_bool v = not (v == 0)

module _ {S : Type 0} where
  configure_once : M (Site (BinaryOutput S) S) (Unit {0})
  configure_once = do o ← get_object; on_hardware (o.output_device.set_direction o.pin output)

  unfoldable pub configure : M (Site (BinaryOutput S) S) (Unit {0})
  unfolding configure_once
  configure = do configure_once; configure_once; configure_once; configure_once; configure_once

  -- The `if` up to the end of `Set`, of which an error is logged. A request that comes later than the
  -- start of the call finds it as it is.
  unfoldable pub run_set : M (Site (BinaryOutput S) S) (Option OutputActual)
  run_set = do
    o ← get_object
    (if not o.initialized || not (o.target_state == o.current_state)
        then (do
          ignore (
              on_hardware
                (o.output_device.set o.pin (pin_value o.invert (int32_to_bool o.target_state))))
          modify_object (λ o. record o { place = noting }))
        else modify_object (λ o. record o { place = publishing }))
    pure none

  -- The two assignments behind it, which read the target again.
  unfoldable pub run_note : M (Site (BinaryOutput S) S) (Option OutputActual)
  run_note = do
    modify_object
        (λ o. record o { current_state = o.target_state; initialized = true; place = publishing })
    pure none

  -- The rest of the round, with the message that it publishes.
  unfoldable pub run_publish : M (Site (BinaryOutput S) S) (Option OutputActual)
  run_publish = do
    o ← get_object
    modify_object (λ o. record o { send_actual_needed = false; place = testing })
    pure (
        if o.send_actual_needed
        then some (record { request = o.current_state; actual = o.current_state })
        else none)

  unfoldable pub run_at : Place → M (Site (BinaryOutput S) S) (Option OutputActual)
  unfolding run_set run_note run_publish
  run_at testing = run_set
  run_at noting = run_note
  run_at publishing = run_publish

  -- The next part of a round of `Run`. Requests share no lock with it, and come between the parts.
  unfoldable pub run_step : M (Site (BinaryOutput S) S) (Option OutputActual)
  unfolding run_at
  run_step s = run_at s.object.place s

  unfoldable pub process_message : ℕ → M (Site (BinaryOutput S) S) (Unit {0})
  process_message value =
      modify_object (λ o. record o { target_state = value; send_actual_needed = true })

  unfoldable pub process_power_message : Bool → M (Site (BinaryOutput S) S) (Unit {0})
  process_power_message enabled = pure tt
