-- ===== src/Objects/ServoSwitch/Run.antt =====
-- What the state machine of a servo switch keeps and reaches.
use local_worker.Common.{
  ℕ, zero, suc, ◌-◌, ◌*◌, ◌^◌, ◌≤◌, ◌<◌, ◌==◌, ==_iff, Bool, true, ◌≡◌, ◌≢◌, refl, sym, ap, ◌∙◌,
  subst, inl, inr, ok, Bool-cases, arith, none, and_then-pure,
}
use local_worker.Objects.{Pwm, Site, straight, off, other, SwitchDirection}
use local_worker.Objects.ServoSwitch.{
  RunState, idle, deactivate_relays, move_servo, servo_settle, disable_servo, activate_relays,
  ServoSwitch, IntSize, int_half, next_pl, dispatch, run_step, process_message, run_idle,
  run_deactivate_relays, run_move_servo, run_servo_settle, run_disable_servo, run_activate_relays,
}
use local_worker.Objects.ServoSwitch.Moves.{gap, next_pl-gap, next_pl-between}

-- Every pulse length that the switch works with lies between `lo` and `hi`.
pub record InRange {S : Type 0} (lo hi : ℕ) (o : ServoSwitch S) : Type 0 where
  pub word : hi < 2 ^ 32
  pub straight_low : lo ≤ o.servo.straight_pl
  pub straight_high : o.servo.straight_pl ≤ hi
  pub off_low : lo ≤ o.servo.off_pl
  pub off_high : o.servo.off_pl ≤ hi
  pub current_low : lo ≤ o.current_pl
  pub current_high : o.current_pl ≤ hi
  pub target_low : lo ≤ o.target_pl
  pub target_high : o.target_pl ≤ hi
  pub run_low : lo ≤ o.run_target
  pub run_high : o.run_target ≤ hi

module _ {S : Type 0} (size : IntSize) (lo hi : ℕ) where
  activated :
      (d : SwitchDirection) (s : Site (ServoSwitch S) S)
      → s.object.target_direction ≡ d
      → InRange lo hi s.object
      → InRange lo hi (run_activate_relays s).1.object
  unfolding run_activate_relays
  activated straight s e h = simp e (ground arith)
  activated off s e h = simp e (ground arith)
  activated (other k) s e h = simp e (ground arith)

  dispatch-InRange :
      (r : RunState) (now : ℕ) (s : Site (ServoSwitch S) S)
      → InRange lo hi s.object
      → InRange lo hi (dispatch size r now s).1.object
  unfolding dispatch run_idle run_deactivate_relays run_move_servo run_servo_settle
      run_disable_servo run_activate_relays
  dispatch-InRange idle now s h = ground arith
  dispatch-InRange deactivate_relays now s h = ground arith
  dispatch-InRange move_servo now s h =
      let kept =
        next_pl-between size s.object.servo.step_size s.object.run_target s.object.current_pl lo hi
          h.word h.run_low h.run_high h.current_low h.current_high in
      ground (arith, kept)
  dispatch-InRange servo_settle now s h = ground arith
  dispatch-InRange disable_servo now s h = ground arith
  dispatch-InRange activate_relays now s h =
      subst (λ t. InRange lo hi t.object) (sym (and_then-pure none (run_activate_relays s)))
        (activated s.object.target_direction s refl h)

  -- If all pulse lengths of a servo switch lie between two `uint32` bounds, they do so after a round of
  -- `Run`, in whichever state and whatever the devices return.
  pub run_step-InRange :
      (now : ℕ) (s : Site (ServoSwitch S) S)
      → InRange lo hi s.object
      → InRange lo hi (run_step size now s).1.object
  unfolding run_step
  run_step-InRange now s h = dispatch-InRange s.object.state now s h

  -- If all pulse lengths of a servo switch lie between two `uint32` bounds, they do so after
  -- `ProcessMessage`, for every direction.
  process_message-InRange :
      (d : SwitchDirection) (s : Site (ServoSwitch S) S)
      → InRange lo hi s.object
      → InRange lo hi (process_message d s).1.object
  unfolding process_message
  process_message-InRange straight s h = ground arith
  process_message-InRange off s h = ground arith
  process_message-InRange (other k) s h = h

module _ {S : Type 0} (size : IntSize) where
  unfoldable pub run_rounds : (clock : ℕ → ℕ) → ℕ → Site (ServoSwitch S) S → Site (ServoSwitch S) S
  run_rounds clock zero s = s
  run_rounds clock (suc n) s = run_rounds (λ k. clock (suc k)) n (run_step size (clock 0) s).1

  -- The PWM device never fails.
  abbrev Reliable : Pwm S → Type 0
  Reliable p = (i a b : ℕ) (e f : Bool) (h : S) → (p.set_pwm i a b e f h).0 ≡ ok tt

  moved_object :
      (now : ℕ) (s : Site (ServoSwitch S) S)
      → Reliable s.object.servo.device
      → s.object.run_target ≢ s.object.current_pl
      → (run_move_servo size now s).1.object ≡ record (s.object) {
        current_pl = next_pl size s.object.servo.step_size s.object.run_target s.object.current_pl;
      }
  unfolding run_move_servo
  moved_object now s reliable ne =
      let next = next_pl size s.object.servo.step_size s.object.run_target s.object.current_pl in
      ground
        (arith, reliable s.object.servo.index 0 next true (next == s.object.run_target) s.hardware)

  one_move :
      (now : ℕ) (o : ServoSwitch S) (s : Site (ServoSwitch S) S)
      → s.object ≡ o
      → Reliable o.servo.device
      → o.state ≡ move_servo
      → o.run_target ≢ o.current_pl
      → (run_step size now s).1.object
        ≡ record o { current_pl = next_pl size o.servo.step_size o.run_target o.current_pl }
  unfolding run_step dispatch
  one_move now o s e =
      subst
        (λ (o : ServoSwitch S).
          Reliable o.servo.device
          → o.state ≡ move_servo
          → o.run_target ≢ o.current_pl
          → (run_step size now s).1.object
            ≡ record o { current_pl = next_pl size o.servo.step_size o.run_target o.current_pl })
        e
        (λ reliable st ne.
          ap (λ r. (dispatch size r now s).1.object) st
          ∙ ap (λ t. t.object) (and_then-pure none (run_move_servo size now s))
          ∙ moved_object now s reliable ne)

  reach :
      (k : ℕ) (clock : ℕ → ℕ) (o : ServoSwitch S) (s : Site (ServoSwitch S) S)
      → s.object ≡ o
      → Reliable o.servo.device
      → o.state ≡ move_servo
      → o.run_target < 2 ^ 32
      → o.current_pl < 2 ^ 32
      → gap o.run_target o.current_pl < int_half size
      → gap o.run_target o.current_pl ≤ k * o.servo.step_size
      → (n : ℕ) × (n ≤ k) × ((run_rounds clock n s).object ≡ record o { current_pl = o.run_target })
  unfolding run_rounds
  reach zero clock o s e reliable st ht hc held d =
      let there : o.current_pl ≡ o.run_target = ground arith in
      (0, omega arith, e ∙ ap (λ x. record o { current_pl = x }) there)
  reach (suc k) clock o s e reliable st ht hc held d =
      elim (Bool-cases (o.run_target == o.current_pl)) [
        | inl t ↦
            (0, omega arith, e ∙ ap (λ x. record o { current_pl = x }) (sym ((==_iff _ _).0 t)))
        | inr t ↦
            let next = next_pl size o.servo.step_size o.run_target o.current_pl in
            let moved = next_pl-gap size o.servo.step_size o.run_target o.current_pl ht hc held in
            let word =
              next_pl-between size o.servo.step_size o.run_target o.current_pl 0 (2 ^ 32 - 1)
                (omega arith) (omega arith) (omega arith) (omega arith) (omega arith) in
            let rest =
              reach k (λ j. clock (suc j)) (record o { current_pl = next })
                (run_step size (clock 0) s).1 (one_move (clock 0) o s e reliable st (ground arith))
                reliable st ht (omega (arith, word.1)) (omega (arith, moved, held))
                (omega (arith, moved, d)) in
            (suc rest.0, omega (arith, rest.1), rest.2)
      ]

  -- For `uint32` pulse lengths and either size of `int`: a servo that is being moved, on a PWM device
  -- that never fails, stands at its target after at most `k` rounds of `Run`, if it is at most `k` steps
  -- away and `int` holds the difference, and for any clock; of the rest of the switch nothing has
  -- changed by then.
  pub moves_reach :
      (k : ℕ) (clock : ℕ → ℕ) (s : Site (ServoSwitch S) S)
      → Reliable s.object.servo.device
      → s.object.state ≡ move_servo
      → s.object.run_target < 2 ^ 32
      → s.object.current_pl < 2 ^ 32
      → gap s.object.run_target s.object.current_pl < int_half size
      → gap s.object.run_target s.object.current_pl ≤ k * s.object.servo.step_size
      → (n : ℕ) × (n ≤ k)
        × ((run_rounds clock n s).object ≡ record (s.object) { current_pl = s.object.run_target })
  moves_reach k clock s = reach k clock s.object s refl
