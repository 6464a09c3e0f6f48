-- ===== src/Objects/StatusService/Fifo.antt =====
-- A channel of status_service.go under any interleaving of publishers and of the loop that sends.
use local_worker.Common.{
  ◌+◌, ◌≤◌, ltb, if◌then◌else◌, Bool-cases, List, [], ◌∷◌, ◌++◌, M, length, ◌≡◌, refl, sym, ap, ◌∙◌,
  inl, inr, arith,
}
use local_worker.Objects.StatusService.{channel_capacity, put_message, send_message}

pub data Event (A : Type 0) : Type 0 where
  publish : A → Event A
  turn : Event A

-- Beside the channel and the world: the messages that `Publish` has accepted, and those that the loop
-- has taken, from first to last.
pub record Trace (A W : Type 0) : Type 0 where
  pub channel : List A
  pub world : W
  pub accepted : List A
  pub taken : List A

abbrev pub first : {A : Type 0} → List A → List A
first [] = []
first (x ∷ xs) = x ∷ []

module _ {A W : Type 0} (send : A → M W (Unit {0})) where
  unfoldable pub step : Event A → Trace A W → Trace A W
  step (publish message) t =
      let out = put_message message t.channel in
      record t {
        channel = out.1;
        accepted = if out.0 then t.accepted ++ (message ∷ []) else t.accepted;
      }
  step turn t =
      let out = send_message send t.channel t.world in
      record t { channel = out.1; world = out.2; taken = t.taken ++ first t.channel }

  unfoldable pub run : List (Event A) → Trace A W → Trace A W
  unfolding step
  run [] t = t
  run (e ∷ es) t = run es (step e t)

  -- Each message of the list is sent once, in turn, whatever the calls before returned.
  abbrev send_all : List A → W → W
  send_all [] w = w
  send_all (x ∷ xs) w = send_all xs (send x w).1

  pub record IsFifo (first_world : W) (t : Trace A W) : Type 0 where
    pub order : t.accepted ≡ t.taken ++ t.channel
    pub sent : t.world ≡ send_all t.taken first_world
    pub bound : length t.channel ≤ channel_capacity

  append_assoc : (x y z : List A) → (x ++ y) ++ z ≡ x ++ (y ++ z)
  append_assoc [] y z = refl
  append_assoc (a ∷ x) y z = ap (λ l. a ∷ l) (append_assoc x y z)

  append_nil : (x : List A) → x ≡ x ++ []
  append_nil [] = refl
  append_nil (a ∷ x) = ap (λ l. a ∷ l) (append_nil x)

  length-snoc : (x : List A) (a : A) → length (x ++ (a ∷ [])) ≡ length x + 1
  length-snoc [] a = refl
  length-snoc (b ∷ x) a = omega (arith, length-snoc x a)

  send_all-snoc :
      (x : List A) (a : A) (w : W) → send_all (x ++ (a ∷ [])) w ≡ (send a (send_all x w)).1
  send_all-snoc [] a w = refl
  send_all-snoc (b ∷ x) a w = send_all-snoc x a (send b w).1

  publish-IsFifo : (w : W) (m : A) (t : Trace A W) → IsFifo w t → IsFifo w (step (publish m) t)
  unfolding step
  publish-IsFifo w m t h = elim (Bool-cases (ltb (length t.channel) channel_capacity)) [
    | inl e ↦ rw e (record {
      order = ap (λ l. l ++ (m ∷ [])) h.order ∙ append_assoc t.taken t.channel (m ∷ []);
      sent = h.sent;
      bound = ground (arith, length-snoc t.channel m);
    })
    | inr e ↦ rw e (record { order = h.order; sent = h.sent; bound = h.bound })
  ]

  taken-IsFifo :
      (w v : W) (channel accepted taken : List A)
      → accepted ≡ taken ++ channel
      → v ≡ send_all taken w
      → length channel ≤ channel_capacity
      → IsFifo w
          (step turn (record { channel = channel; world = v; accepted = accepted; taken = taken }))
  unfolding step
  taken-IsFifo w v [] accepted taken o s b = record {
    order = o ∙ append_nil (taken ++ []);
    sent = s ∙ ap (λ l. send_all l w) (append_nil taken);
    bound = b;
  }
  taken-IsFifo w v (x ∷ xs) accepted taken o s b = record {
    order = o ∙ sym (append_assoc taken (x ∷ []) xs);
    sent = ap (λ u. (send x u).1) s ∙ sym (send_all-snoc taken x w);
    bound = omega arith;
  }

  step-IsFifo : (w : W) (e : Event A) (t : Trace A W) → IsFifo w t → IsFifo w (step e t)
  step-IsFifo w (publish m) t h = publish-IsFifo w m t h
  step-IsFifo w turn t h =
      taken-IsFifo w t.world t.channel t.accepted t.taken h.order h.sent h.bound

  -- Whatever is published and whenever the loop takes a turn: the messages that were accepted are
  -- those that the loop took and then those in the channel, in the order in which they were accepted;
  -- each message taken was sent once, in that order, whether the sending succeeded or not; and the
  -- channel never holds more than eight.
  pub run-IsFifo : (w : W) (es : List (Event A)) (t : Trace A W) → IsFifo w t → IsFifo w (run es t)
  unfolding run
  run-IsFifo w [] t h = h
  run-IsFifo w (e ∷ es) t h = run-IsFifo w es (step e t) (step-IsFifo w e t h)
