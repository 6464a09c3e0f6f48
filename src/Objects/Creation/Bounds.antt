-- ===== src/Objects/Creation/Bounds.antt =====
-- A constructor makes its object exactly if the configuration names pins that devices have.
use local_worker.Common.{
  ℕ, ◌≤◌, Bool, true, false, Option, none, some, List, [], ◌∷◌, Result, ok, err, ◌≡◌, refl, sym, ap,
  ◌∙◌, arith,
}
use local_worker.Common.Texts.{Text}
use local_worker.Objects.{Gpio}
use local_worker.Objects.PhaseRelay.{PhaseRelay}
use local_worker.Objects.Creation.{
  ConnectionName, DevicePin, Connection, Config, Device, required, then_get, single, out_of_range,
  in_range, get_single_pin,
}
use local_worker.Objects.Creation.Outputs.{inverter_relay_of, find_gpio, new_inverter_relay}

-- What a result yields, or that it is an error.
abbrev pub Yields : {A : Type 0} → (A → Type 0) → Type 0 → Result A → Type 0
Yields Good Bad (ok a) = Good a
Yields Good Bad (err e) = Bad

some_inj : {A : Type 0} {a b : A} → some a ≡ some b → a ≡ b
some_inj e = cc

head_inj : {A : Type 0} {a b : A} {xs ys : List A} → a ∷ xs ≡ b ∷ ys → a ≡ b
head_inj e = cc

some≢none : {A : Type 0} {a : A} → some a ≡ none → ⊥
some≢none e = cc

cons≢nil : {A : Type 0} {a : A} {xs : List A} → a ∷ xs ≡ [] → ⊥
cons≢nil e = cc

one≢more : {A : Type 0} {a b c : A} {xs : List A} → a ∷ [] ≡ b ∷ c ∷ xs → ⊥
one≢more e = cc

module _ {S : Type 0} (device_by_id : Text → Option (Device S)) (config : Config)
    (name : ConnectionName) where
  -- The connection has one pin, which is a pin of the GPIO device of its id.
  pub record Uses (pin : ℕ) (gpio : Gpio S) : Type 0 where
    pub conn : Connection
    device_pin : DevicePin
    pub device : Device S
    pub found : config.connection_by_name name ≡ some conn
    one_pin : conn.pins ≡ device_pin ∷ []
    pub known : device_by_id device_pin.device_id ≡ some device
    is_gpio : device.gpio ≡ some gpio
    pub index : device_pin.index ≡ pin
    pub low : 1 ≤ pin
    pub high : pin ≤ gpio.pin_count

  abbrev pub NoUse : Type 0
  NoUse = (pin : ℕ) (gpio : Gpio S) → ¬ Uses pin gpio

  abbrev Found : Connection × DevicePin × Gpio S → Type 0
  Found f = Uses f.1.index f.2

  -- Two uses are of the same pin.
  module _ (conn : Connection) (e1 : config.connection_by_name name ≡ some conn) where
    same_conn : (pin : ℕ) (gpio : Gpio S) (u : Uses pin gpio) → u.conn ≡ conn
    same_conn pin gpio u = some_inj (sym u.found ∙ e1)

    same_pins : (pin : ℕ) (gpio : Gpio S) (u : Uses pin gpio) → u.device_pin ∷ [] ≡ conn.pins
    same_pins pin gpio u = sym u.one_pin ∙ ap (λ c. c.pins) (same_conn pin gpio u)

    module _ (p : DevicePin) (e2 : conn.pins ≡ p ∷ []) where
      same_pin : (pin : ℕ) (gpio : Gpio S) (u : Uses pin gpio) → u.device_pin ≡ p
      same_pin pin gpio u = head_inj (same_pins pin gpio u ∙ e2)

      same_device :
          (pin : ℕ) (gpio : Gpio S) (u : Uses pin gpio) → some u.device ≡ device_by_id p.device_id
      same_device pin gpio u =
          sym u.known ∙ ap (λ q. device_by_id q.device_id) (same_pin pin gpio u)

      module _ (d : Device S) (e3 : device_by_id p.device_id ≡ some d) where
        same_gpio : (pin : ℕ) (gpio : Gpio S) → Uses pin gpio → some gpio ≡ d.gpio
        same_gpio pin gpio u =
            sym u.is_gpio ∙ ap (λ x. x.gpio) (some_inj (same_device pin gpio u ∙ e3))

        unused : (g : Gpio S) → d.gpio ≡ some g → out_of_range p.index g.pin_count ≡ true → NoUse
        unused g e4 out pin gpio u =
            let counts : gpio.pin_count ≡ g.pin_count =
              ap (λ x. x.pin_count) (some_inj (same_gpio pin gpio u ∙ e4)) in
            let indices : u.device_pin.index ≡ p.index = ap (λ x. x.index) (same_pin pin gpio u) in
            ground arith

        check_range :
            (g : Gpio S) (b : Bool)
            → d.gpio ≡ some g
            → out_of_range p.index g.pin_count ≡ b
            → Yields Found NoUse (in_range p.index g.pin_count (conn, p, g))
        check_range g true e4 e = rw e (unused g e4 e)
        check_range g false e4 e = rw e (record {
          conn = conn;
          device_pin = p;
          device = d;
          found = e1;
          one_pin = e2;
          known = e3;
          is_gpio = e4;
          index = refl;
          low = ground arith;
          high = ground arith;
        })

        check_gpio :
            (m : Option (Gpio S))
            → d.gpio ≡ m
            → Yields Found NoUse
                (then_get (required m) (λ g. in_range p.index g.pin_count (conn, p, g)))
        check_gpio none e4 = λ pin gpio u. some≢none (same_gpio pin gpio u ∙ e4)
        check_gpio (some g) e4 = check_range g (out_of_range p.index g.pin_count) e4 refl

      check_device :
          (m : Option (Device S))
          → device_by_id p.device_id ≡ m
          → Yields Found NoUse (
              then_get
                (required m)
                (λ d. then_get (required d.gpio) (λ g. in_range p.index g.pin_count (conn, p, g))))
      check_device none e3 = λ pin gpio u. some≢none (same_device pin gpio u ∙ e3)
      check_device (some d) e3 = check_gpio d e3 d.gpio refl

    abbrev from_pin : Connection × DevicePin → Result (Connection × DevicePin × Gpio S)
    from_pin f =
        then_get (required (device_by_id f.1.device_id))
          λ d. then_get (required d.gpio) λ g. in_range f.1.index g.pin_count (f.0, f.1, g)

    check_pins :
        (pins : List DevicePin)
        → conn.pins ≡ pins
        → Yields Found NoUse (then_get (single conn pins) from_pin)
    check_pins [] e2 = λ pin gpio u. cons≢nil (same_pins pin gpio u ∙ e2)
    check_pins (p ∷ []) e2 = check_device p e2 (device_by_id p.device_id) refl
    check_pins (p ∷ q ∷ ps) e2 = λ pin gpio u. one≢more (same_pins pin gpio u ∙ e2)

  check_connection :
      (m : Option Connection)
      → config.connection_by_name name ≡ m
      → Yields Found NoUse (
          then_get (then_get (required m) (λ conn. single conn conn.pins)) (λ f.
            then_get (required (device_by_id f.1.device_id)) (λ d.
              then_get (required d.gpio) (λ g. in_range f.1.index g.pin_count (f.0, f.1, g)))))
  check_connection none e1 = λ pin gpio u. some≢none (sym u.found ∙ e1)
  check_connection (some conn) e1 = check_pins conn e1 conn.pins refl

  find_gpio-exact : Yields Found NoUse (find_gpio device_by_id config name)
  unfolding find_gpio get_single_pin
  find_gpio-exact = check_connection (config.connection_by_name name) refl

  -- A relay with its pin, or no such pin.
  abbrev pub RelayUses : PhaseRelay S → Type 0
  RelayUses r = Uses r.pin r.device

  pub new_inverter_relay-exact :
      Yields RelayUses NoUse (new_inverter_relay device_by_id config name)
  unfolding new_inverter_relay
  new_inverter_relay-exact = from_found (find_gpio device_by_id config name) find_gpio-exact
    where
      from_found :
          (r : Result (Connection × DevicePin × Gpio S))
          → Yields Found NoUse r
          → Yields RelayUses NoUse (then_get r (λ f. ok (inverter_relay_of f.0 f.1 f.2)))
      from_found (ok f) h = h
      from_found (err e) h = h
