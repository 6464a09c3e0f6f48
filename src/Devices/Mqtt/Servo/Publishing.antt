-- ===== src/Devices/Mqtt/Servo/Publishing.antt =====
-- When `SetPWM` of mqtt-servo.go publishes.
use local_worker.Common.{
  ℕ, ◌+◌, ◌≤◌, if◌then◌else◌, Bool, true, false, not, ◌||◌, Option, none, some, ◌≡◌, refl, ap, ◌∙◌,
  arith,
}
use local_worker.Common.Texts.{Text, same_text, same_text_refl}
use local_worker.Common.Maps.{find, find-put_self}
use local_worker.Bridge.{Host}
use local_worker.Devices.Mqtt.{MqttClient, wait_timeout}
use local_worker.Devices.Mqtt.Servo.{
  MqttServo, PwmState, pwm_payload_expiration, is_expired, update_needed, is_publish_needed,
  command_key, qos_of, keep_if, after_publish, publish_if_needed, publish_state, set_pwm_of_topic,
  new_state, set_pwm,
}

expired_later :
    (now later : ℕ) (o : Option ℕ)
    → now ≤ later
    → is_expired now o ≡ true
    → is_expired later o ≡ true
expired_later now later none h e = refl
expired_later now later (some t) h e = ground arith

or_later : (a b c : Bool) → (b ≡ true → c ≡ true) → (a || b) ≡ true → (a || c) ≡ true
or_later true b c h e = refl
or_later false b c h e = h e

still_needed :
    (now later : ℕ) (payload : Text) (o : Option PwmState)
    → now ≤ later
    → is_publish_needed now payload o ≡ true
    → is_publish_needed later payload o ≡ true
still_needed now later payload none h n = refl
still_needed now later payload (some s) h n =
    or_later (not (same_text s.payload payload)) _ _ (expired_later now later s.last_payload_sent h)
      n

module _ {W : Type 0} (client : MqttClient W) (level_text : ℕ → Text) where
  set_pwm_lem :
      (now pin on off : ℕ) (enabled final : Bool) (s : Host MqttServo W) (topic : Text)
      (needed : Bool)
      → s.driver.command_topics pin ≡ some topic
      → is_publish_needed now
          (level_text off)
          (find (command_key s.driver.topic_prefix topic) s.driver.states)
        ≡ needed
      → set_pwm client level_text now pin on off enabled final s
        ≡ publish_if_needed client level_text now pin on off enabled final topic
            (command_key s.driver.topic_prefix topic)
            needed
            s
  unfolding set_pwm
  set_pwm_lem now pin on off enabled final s topic needed e f =
      ap (λ o. set_pwm_of_topic client level_text now pin on off enabled final o s) e
      ∙ ap
          (λ b.
            publish_if_needed client level_text now pin on off enabled final topic
              (command_key s.driver.topic_prefix topic) b s)
          f

  keep_if-world :
      (key : Text) (state : PwmState) (s : Host MqttServo W) (b : Bool) (w : W)
      → (keep_if client key state s b w).1.world ≡ w
  keep_if-world key state s true w = refl
  keep_if-world key state s false w = refl

  module _ (now later pin on off : ℕ) (enabled final : Bool) (topic : Text) where
    published :
        (at_time : ℕ) (s : Host MqttServo W)
        → s.driver.has_client ≡ true
        → s.driver.command_topics pin ≡ some topic
        → is_publish_needed at_time
            (level_text off)
            (find (command_key s.driver.topic_prefix topic) s.driver.states)
          ≡ true
        → set_pwm client level_text at_time pin on off enabled final s
          ≡ after_publish client
              (command_key s.driver.topic_prefix topic)
              (new_state client level_text at_time pin on off enabled final)
              s
              (client.publish topic (qos_of final) (level_text off) s.world)
    published at_time s c e n =
        set_pwm_lem at_time pin on off enabled final s topic true e n
        ∙ ap
            (λ b.
              publish_state client topic (command_key s.driver.topic_prefix topic) (qos_of final)
                (new_state client level_text at_time pin on off enabled final) b s)
            c

    second_world :
        (s : Host MqttServo W) (kept : Bool) (w : W)
        → now ≤ later
        → later ≤ now + pwm_payload_expiration
        → s.driver.has_client ≡ true
        → s.driver.command_topics pin ≡ some topic
        → is_publish_needed now
            (level_text off)
            (find (command_key s.driver.topic_prefix topic) s.driver.states)
          ≡ true
        → (set_pwm client level_text later pin on off enabled final
            (keep_if client
              (command_key s.driver.topic_prefix topic)
              (new_state client level_text now pin on off enabled final)
              s
              kept
              w).1).1.world
          ≡ (if kept then w else (client.publish topic (qos_of final) (level_text off) w).1)
    second_world s true w from until c e n =
        ap (λ x. x.1.world)
          (set_pwm_lem later pin on off enabled final _ topic false e (
            ap (is_publish_needed later (level_text off))
              (find-put_self (command_key s.driver.topic_prefix topic) _ s.driver.states)
            ∙ not_yet later until))
      where
        not_yet :
            (at_time : ℕ)
            → at_time ≤ now + pwm_payload_expiration
            → update_needed at_time
                (level_text off)
                (new_state client level_text now pin on off enabled final)
              ≡ false
        not_yet at_time h = rw (same_text_refl (level_text off)) (ground arith)
    second_world s false w from until c e n =
        ap (λ x. x.1.world)
          (published later (record s { world = w }) c e
            (still_needed now later (level_text off) _ from n))
        ∙ keep_if-world _ _ (record s { world = w }) _
            (client.publish topic (qos_of final) (level_text off) w).1

    -- A pin of a connected servo device has a command topic and a payload is due. When `SetPWM` is
    -- called twice with the same values, the second time not later than `pwm_payload_expiration` after
    -- the first: if the wait for the token of the first message did not time out, whether that message
    -- was sent or its token has completed with an error, nothing is published the second time;
    -- otherwise the same payload is published again.
    pub set_pwm-set_pwm :
        (s : Host MqttServo W)
        → now ≤ later
        → later ≤ now + pwm_payload_expiration
        → s.driver.has_client ≡ true
        → s.driver.command_topics pin ≡ some topic
        → is_publish_needed now
            (level_text off)
            (find (command_key s.driver.topic_prefix topic) s.driver.states)
          ≡ true
        → let first = client.publish topic (qos_of final) (level_text off) s.world in
          (set_pwm client level_text later pin on off enabled final
            (set_pwm client level_text now pin on off enabled final s).1).1.world
          ≡ (if wait_timeout first.0
              then first.1
              else (client.publish topic (qos_of final) (level_text off) first.1).1)
    set_pwm-set_pwm s from until c e n =
        ap (λ x. (set_pwm client level_text later pin on off enabled final x.1).1.world)
          (published now s c e n)
        ∙ second_world s
            (wait_timeout (client.publish topic (qos_of final) (level_text off) s.world).0)
            (client.publish topic (qos_of final) (level_text off) s.world).1 from until c e n
