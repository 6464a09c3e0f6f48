-- ===== src/Devices/Mqtt/StatusMonitor/Heard.antt =====
-- The service holds what its status monitors have heard.
use local_worker.Common.{
  ℕ, if◌then◌else◌, Bool, true, false, Option, none, some, List, [], ◌∷◌, ◌≡◌, Result, ok, err,
}
use local_worker.Common.Texts.{Text, same_text, has_suffix}
use local_worker.Common.Maps.{find_or, find_or-put_self}
use local_worker.Devices.Service.{Status, unknown, is_status, DeviceService}
use local_worker.Devices.Mqtt.StatusMonitor.{
  StatusMonitor, Parsing, Change, status_change, ip_address_change, on_message, on_status_message,
  on_uptime_message, on_ip_address_message, apply_change, status_of_text, new_status, new_uptime,
}

-- The messages on topics, one after the other, with the functions that they lead to.
unfoldable pub hear :
    {D : Type 0}
    → Parsing
    → Text
    → List (Text × Text)
    → StatusMonitor × DeviceService D
    → StatusMonitor × DeviceService D
unfolding on_message apply_change
hear parsing id [] (d, s) = (d, s)
hear parsing id ((topic, payload) ∷ messages) (d, s) =
    let out = on_message parsing topic payload d in
    hear parsing id messages (out.1, apply_change id out.0 s)

module _ {D : Type 0} (parsing : Parsing) (id : Text) where
  abbrev pub InStep : StatusMonitor × DeviceService D → Type 0
  InStep x =
      (find_or unknown id x.1.last_statuses ≡ x.0.last_status)
      × (find_or [] id x.1.last_ip_address ≡ x.0.last_ip_address)

  module _ (d : StatusMonitor) (s : DeviceService D) (h : InStep (d, s)) where
    abbrev Stepped : Option Change × StatusMonitor → Type 0
    Stepped out = InStep (out.1, apply_change id out.0 s)

    either :
        (b : Bool) (x y : Option Change × StatusMonitor)
        → Stepped x
        → Stepped y
        → Stepped (if b then x else y)
    either true x y p q = p
    either false x y p q = q

    new_status-InStep : (o : Option Status) → Stepped (new_status o d)
    unfolding apply_change
    new_status-InStep none = h
    new_status-InStep (some x) =
        either (is_status d.last_status x) (none, d)
          (some (status_change x), record d { last_status = x }) h
          (find_or-put_self unknown id x s.last_statuses, h.1)

    new_uptime-InStep : (r : Result ℕ) → Stepped (new_uptime r d)
    unfolding apply_change
    new_uptime-InStep (ok n) = h
    new_uptime-InStep (err e) = h

    new_address-InStep : (payload : Text) → Stepped (on_ip_address_message payload d)
    unfolding apply_change on_ip_address_message
    new_address-InStep payload =
        either (same_text d.last_ip_address payload) (none, d)
          (some (ip_address_change payload), record d { last_ip_address = payload }) h
          (h.0, find_or-put_self [] id payload s.last_ip_address)

    step-InStep :
        (topic payload : Text)
        → InStep (
          (on_message parsing topic payload d).1,
          apply_change id (on_message parsing topic payload d).0 s,
        )
    unfolding on_message on_status_message on_uptime_message apply_change
    step-InStep topic payload =
        either (has_suffix topic parsing.status_topic_suffix) _ _
          (new_status-InStep (status_of_text (parsing.trim_space payload)))
          (either (has_suffix topic parsing.uptime_topic_suffix) _ _
            (new_uptime-InStep (parsing.atoi (parsing.trim_space payload)))
            (either (has_suffix topic parsing.ip_address_topic_suffix) _ _
              (new_address-InStep (parsing.trim_space payload)) h))

  -- Whatever messages a monitor hears: if the service holds the status and the address that the
  -- monitor has heard last, it holds them afterwards.
  pub hear-InStep :
      (messages : List (Text × Text)) (d : StatusMonitor) (s : DeviceService D)
      → InStep (d, s)
      → InStep (hear parsing id messages (d, s))
  unfolding hear
  hear-InStep [] d s h = h
  hear-InStep ((topic, payload) ∷ messages) d s h =
      hear-InStep messages (on_message parsing topic payload d).1
        (apply_change id (on_message parsing topic payload d).0 s) (step-InStep d s h topic payload)
