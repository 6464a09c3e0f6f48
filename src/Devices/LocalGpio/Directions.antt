-- ===== src/Devices/LocalGpio/Directions.antt =====
-- The directions of the pins of local-gpio.go.
use local_worker.Common.{
  ℕ, zero, suc, ◌-◌, ◌<◌, Option, none, some, List, ◌≡◌, ◌≢◌, refl, sym, ap, ◌∙◌, M, Result, ok,
  err, Error, length, get_elem?, get_elem?-set_self, get_elem?-set_other, get_elem?-in, subst, Ends,
  arith, and_then, lift,
}
use local_worker.Common.{set as set_at}
use local_worker.Bridge.{Host, lift_world, on_active}
use local_worker.Devices.{PinDirection, input, output}
use local_worker.Devices.LocalGpio.{
  Board, LocalGpio, element, or_panic, assign_input, assign_output, put_pin, set_direction,
  get_direction, direction_unless_input, direction_of,
}

module _ {I O W : Type 0} (board : Board I O W) where
  abbrev with_pin : ℕ → Option I → Option O → LocalGpio I O → LocalGpio I O
  with_pin k i o d = record {
    inputs = set_at d.inputs (suc k - 1) i;
    outputs = set_at d.outputs (suc k - 1) o;
  }

  put_pin_lem :
      (k : ℕ) (i : Option I) (o : Option O) (s : Host (LocalGpio I O) W)
      → k < length s.driver.inputs
      → length s.driver.inputs ≡ length s.driver.outputs
      → put_pin board (suc k) i o s ≡ (ok tt, record s { driver = with_pin k i o s.driver })
  put_pin_lem k i o s h e =
      ap
        (λ x.
          and_then (λ _ t. assign_output board (suc k) o (element (suc k) t.driver.outputs) t)
            (assign_input board (suc k) i x s))
        (get_elem?-in s.driver.inputs k h).1
      ∙ ap
          (λ x. assign_output board (suc k) o x (record s {
            driver = record (s.driver) { inputs = set_at s.driver.inputs (suc k - 1) i };
          }))
          (get_elem?-in s.driver.outputs k (subst (λ n. k < n) e h)).1

  direction_at : Option (Option I) → Option (Option O) → Result PinDirection
  direction_at none o = err Error.panic
  direction_at (some (some i)) o = ok input
  direction_at (some none) none = err Error.panic
  direction_at (some none) (some (some o)) = ok output
  direction_at (some none) (some none) = err Error.invalid_argument

  get_direction_lem :
      (pin : ℕ) (s : Host (LocalGpio I O) W) (x : Option (Option I)) (y : Option (Option O))
      → element pin s.driver.inputs ≡ x
      → element pin s.driver.outputs ≡ y
      → (get_direction board pin s).0 ≡ direction_at x y
  unfolding get_direction direction_at
  get_direction_lem pin s none y e f =
      ap (λ x. (and_then (direction_unless_input board pin) (or_panic x, s)).0) e
  get_direction_lem pin s (some (some i)) y e f =
      ap (λ x. (and_then (direction_unless_input board pin) (or_panic x, s)).0) e
  get_direction_lem pin s (some none) none e f =
      ap (λ x. (and_then (direction_unless_input board pin) (or_panic x, s)).0) e
      ∙ ap (λ y. (and_then (λ o. lift (direction_of board o)) (or_panic y, s)).0) f
  get_direction_lem pin s (some none) (some (some o)) e f =
      ap (λ x. (and_then (direction_unless_input board pin) (or_panic x, s)).0) e
      ∙ ap (λ y. (and_then (λ o. lift (direction_of board o)) (or_panic y, s)).0) f
  get_direction_lem pin s (some none) (some none) e f =
      ap (λ x. (and_then (direction_unless_input board pin) (or_panic x, s)).0) e
      ∙ ap (λ y. (and_then (λ o. lift (direction_of board o)) (or_panic y, s)).0) f

  one_less : (k : ℕ) → suc k - 1 ≡ k
  one_less k = omega arith

  set_self :
      {A : Type 0} (l : List A) (k : ℕ) (v : A)
      → k < length l
      → get_elem? (set_at l (suc k - 1) v) k ≡ some v
  set_self l k v h = ap (λ n. get_elem? (set_at l n v) k) (one_less k) ∙ get_elem?-set_self l k v h

  set_other :
      {A : Type 0} (l : List A) (k q : ℕ) (v : A)
      → suc k ≢ q
      → element q (set_at l (suc k - 1) v) ≡ element q l
  set_other l k zero v h = refl
  set_other l k (suc q) v h =
      ap (λ n. get_elem? (set_at l n v) q) (one_less k)
      ∙ get_elem?-set_other l k q v (λ e. h (ap suc e))

  -- The direction of a pin depends on the elements that stand for it only.
  direction_same :
      (q : ℕ) (s t : Host (LocalGpio I O) W)
      → element q t.driver.inputs ≡ element q s.driver.inputs
      → element q t.driver.outputs ≡ element q s.driver.outputs
      → (get_direction board q t).0 ≡ (get_direction board q s).0
  direction_same q s t e f =
      get_direction_lem q t (element q s.driver.inputs) (element q s.driver.outputs) e f
      ∙ sym
          (get_direction_lem q s (element q s.driver.inputs) (element q s.driver.outputs) refl refl)

  abbrev Directed : ℕ → PinDirection → Host (LocalGpio I O) W → Host (LocalGpio I O) W → Type 0
  Directed k p s t =
      ((get_direction board (suc k) t).0 ≡ ok p)
      × ((q : ℕ) → suc k ≢ q → (get_direction board q t).0 ≡ (get_direction board q s).0)

  put_pin-Directed :
      (k : ℕ) (i : Option I) (o : Option O) (p : PinDirection) (s t : Host (LocalGpio I O) W)
      → t.driver ≡ s.driver
      → k < length s.driver.inputs
      → length s.driver.inputs ≡ length s.driver.outputs
      → direction_at (some i) (some o) ≡ ok p
      → Ends (λ _. Directed k p s) (λ u. u.driver ≡ s.driver) (put_pin board (suc k) i o t)
  put_pin-Directed k i o p s t same h e d =
      subst (Ends (λ _. Directed k p s) (λ u. u.driver ≡ s.driver))
        (sym (
          put_pin_lem k i o t (subst (λ x. k < length x.inputs) (sym same) h)
            (subst (λ x. length x.inputs ≡ length x.outputs) (sym same) e)))
        (
          get_direction_lem (suc k) (record t { driver = with_pin k i o t.driver }) (some i)
                (some o)
                (set_self t.driver.inputs k i (subst (λ x. k < length x.inputs) (sym same) h))
                (set_self t.driver.outputs k o
                  (subst (λ x. k < length x.outputs) (sym same) (subst (λ n. k < n) e h)))
              ∙ d,
          λ q apart.
              direction_same q s (record t { driver = with_pin k i o t.driver })
                (set_other t.driver.inputs k q i apart ∙ ap (λ x. element q x.inputs) same)
                (set_other t.driver.outputs k q o apart ∙ ap (λ x. element q x.outputs) same),
        )

  after_board :
      {A : Type 0} (k : ℕ) (p : PinDirection) (s : Host (LocalGpio I O) W)
      (f : A → M (Host (LocalGpio I O) W) (Unit {0}))
      → ((a : A) (t : Host (LocalGpio I O) W)
          → t.driver ≡ s.driver
          → Ends (λ _. Directed k p s) (λ u. u.driver ≡ s.driver) (f a t))
      → (t : Host (LocalGpio I O) W) → t.driver ≡ s.driver
      → (out : Result A × W)
      → Ends (λ _. Directed k p s) (λ u. u.driver ≡ s.driver) (and_then f (lift_world t out))
  after_board k p s f h t same (ok a, w) = h a (record t { world = w }) same
  after_board k p s f h t same (err x, w) = same

  -- While the device is configured, so that both slices have the same length: `SetDirection` of a pin
  -- within them, if it succeeds, is what `GetDirection` of the pin yields next, and leaves the
  -- direction of every other pin; if it fails, no pin has changed.
  get_direction-set_direction :
      (k : ℕ) (p : PinDirection) (s : Host (LocalGpio I O) W)
      → k < length s.driver.inputs
      → length s.driver.inputs ≡ length s.driver.outputs
      → Ends
          (λ _ t.
            ((get_direction board (suc k) t).0 ≡ ok p)
            × ((q : ℕ) → suc k ≢ q → (get_direction board q t).0 ≡ (get_direction board q s).0))
          (λ t. t.driver ≡ s.driver)
          (set_direction board (suc k) p s)
  unfolding set_direction on_active direction_at
  get_direction-set_direction k input s h e =
      after_board k input s (λ i. put_pin board (suc k) (some i) none)
        (λ i t same. put_pin-Directed k (some i) none input s t same h e refl) (on_active s).1 refl
        (board.input (suc k) s.world)
  get_direction-set_direction k output s h e =
      after_board k output s (λ o. put_pin board (suc k) none (some o))
        (λ o t same. put_pin-Directed k none (some o) output s t same h e refl) (on_active s).1 refl
        (board.output (suc k) s.world)
