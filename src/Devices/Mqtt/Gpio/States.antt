-- ===== src/Devices/Mqtt/Gpio/States.antt =====
-- What a pin of mqtt-gpio.go reads after a message.
use local_worker.Common.{
  ℕ, if◌then◌else◌, Bool, true, false, none, some, ◌++◌, ◌≡◌, refl, sym, ap, ◌∙◌, arith, ◌∷◌, ok,
  [],
}
use local_worker.Common.Texts.{
  Text, same_text, trim_suffix, has_suffix-append, trim_prefix-append, trim_suffix-append,
}
use local_worker.Common.Maps.{Map, find, find_or, put, find-put_self, find-put_other}
use local_worker.Bridge.{Host}
use local_worker.Devices.Mqtt.{state_suffix, text_or_empty, parse_bool, format_bool}
use local_worker.Devices.Mqtt.Gpio.{MqttGpio, put_state, on_message, get}

-- What the source prints for a Boolean value is read back as that value.
parse_bool-format_bool : (v : Bool) → parse_bool (format_bool v) ≡ (v, none)
unfolding parse_bool format_bool
parse_bool-format_bool true = refl
parse_bool-format_bool false = refl

put_state-append :
    (key payload : Text) (d : MqttGpio)
    → put_state (key ++ state_suffix) payload d ≡ record d { states = put key payload d.states }
put_state-append key payload d =
    ap
      (λ b.
        if b
        then record d {
          states = put (trim_suffix (key ++ state_suffix) state_suffix) payload d.states;
        }
        else d)
      (has_suffix-append key state_suffix)
    ∙ ap (λ k. record d { states = put k payload d.states }) (trim_suffix-append key state_suffix)

find_or-of_find : (k p : Text) (m : Map Text) → find k m ≡ some p → find_or [] k m ≡ p
find_or-of_find k p [] h = ground arith
find_or-of_find k p ((k', d) ∷ m) h = ground (arith, find_or-of_find k p m)

find_or-same :
    (k : Text) (m m' : Map Text) → find k m ≡ find k m' → find_or [] k m ≡ find_or [] k m'
find_or-same k m m' h = or_empty m ∙ ap text_or_empty h ∙ sym (or_empty m')
  where
    or_empty : (l : Map Text) → find_or [] k l ≡ text_or_empty (find k l)
    or_empty [] = refl
    or_empty ((j, d) ∷ l) = ground (arith, or_empty l)

module _ {W : Type 0} where
  after_message : Text → Text → Host MqttGpio W → Host MqttGpio W
  after_message key payload s = record s {
    driver = record (s.driver) { states = put key payload s.driver.states };
  }

  on_message_lem :
      (key payload : Text) (s : Host MqttGpio W)
      → on_message (s.driver.topic_prefix ++ (key ++ state_suffix)) payload s
        ≡ (ok tt, after_message key payload s)
  unfolding on_message after_message
  on_message_lem key payload s =
      ap (λ d. (ok tt, record s { driver = d }))
        (ap (λ t. put_state t payload s.driver)
            (trim_prefix-append s.driver.topic_prefix (key ++ state_suffix))
          ∙ put_state-append key payload s.driver)

  get_lem :
      (pin : ℕ) (key : Text) (s : Host MqttGpio W)
      → s.driver.state_topics pin ≡ some (s.driver.topic_prefix ++ (key ++ state_suffix))
      → (get pin s).0 ≡ ok (parse_bool (find_or [] key s.driver.states)).0
  unfolding get
  get_lem pin key s e =
      rw
        (
          e,
          trim_prefix-append s.driver.topic_prefix (key ++ state_suffix),
          trim_suffix-append key state_suffix,
        )
        refl

  -- For a pin whose state topic is the prefix of the device, a key and "/state": after a message on
  -- that topic, whose payload is what the source prints for a Boolean value, `Get` of the pin yields
  -- that value. Any other pin of such a topic with another key reads what it read before.
  pub get-on_message :
      (pin : ℕ) (key : Text) (v : Bool) (s : Host MqttGpio W)
      → s.driver.state_topics pin ≡ some (s.driver.topic_prefix ++ (key ++ state_suffix))
      → (other : ℕ) (other_key : Text)
      → s.driver.state_topics other ≡ some (s.driver.topic_prefix ++ (other_key ++ state_suffix))
      → same_text key other_key ≡ false
      → let (r, t) =
          on_message (s.driver.topic_prefix ++ (key ++ state_suffix)) (format_bool v) s in
        ((get pin t).0 ≡ ok v) × ((get other t).0 ≡ (get other s).0)
  unfolding after_message
  get-on_message pin key v s e other other_key f apart = rw (on_message_lem key (format_bool v) s) (
    get_lem pin key (after_message key (format_bool v) s) e
        ∙ ap (λ x. ok (parse_bool x).0)
            (find_or-of_find key _ _ (find-put_self key (format_bool v) s.driver.states))
        ∙ ap (λ x. ok x.0) (parse_bool-format_bool v),
    get_lem other other_key (after_message key (format_bool v) s) f
        ∙ ap (λ x. ok (parse_bool x).0)
            (find_or-same other_key _ _
              (find-put_other key (format_bool v) s.driver.states other_key apart))
        ∙ sym (get_lem other other_key s f),
  )
