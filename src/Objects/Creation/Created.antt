-- ===== src/Objects/Creation/Created.antt =====
-- The track inverter that its constructor makes.
use local_worker.Common.{ℕ, Option, Result, ok, err, ◌≡◌, sym, subst}
use local_worker.Common.Texts.{Text}
use local_worker.Objects.{Gpio}
use local_worker.Objects.Service.{ObjectType}
use local_worker.Objects.PhaseRelay.{PhaseRelay}
use local_worker.Objects.TrackInverter.{TrackInverter}
use local_worker.Objects.Creation.{ConnectionName, Config, Device, then_get}
use local_worker.Objects.Creation.Bounds.{Yields, Uses, NoUse, RelayUses, new_inverter_relay-exact}
use local_worker.Objects.Creation.Outputs.{
  is_track_inverter, new_inverter_relay, inverter_of, with_one, with_two, with_three, new_relays,
  new_track_inverter,
}
use local_worker.Objects.Creation.Switches.{checked_type}

then_get-Yields :
    {A B : Type 0} (Good : A → Type 0) (Bad : Type 0) (Good' : B → Type 0) (Bad' : Type 0)
    (f : A → Result B) (r : Result A)
    → Yields Good Bad r
    → ((a : A) → Good a → Yields Good' Bad' (f a))
    → (Bad → Bad')
    → Yields Good' Bad' (then_get r f)
then_get-Yields G B G' B' f (ok a) h g b = g a h
then_get-Yields G B G' B' f (err e) h g b = b h

module _ {S : Type 0} (device_by_id : Text → Option (Device S)) (config : Config) where
  -- The connection has a pin that can be used.
  abbrev Usable : ConnectionName → Type 0
  Usable name = (pin : ℕ) × (gpio : Gpio S) × Uses device_by_id config name pin gpio

  abbrev pub AllUsable : Type 0
  AllUsable =
      Usable ConnectionName.relay_out_a_in_a
      × Usable ConnectionName.relay_out_a_in_b
      × Usable ConnectionName.relay_out_b_in_a
      × Usable ConnectionName.relay_out_b_in_b

  abbrev pub UsesAll : TrackInverter S → Type 0
  UsesAll o =
      RelayUses device_by_id config ConnectionName.relay_out_a_in_a o.a_in_a
      × RelayUses device_by_id config ConnectionName.relay_out_a_in_b o.a_in_b
      × RelayUses device_by_id config ConnectionName.relay_out_b_in_a o.b_in_a
      × RelayUses device_by_id config ConnectionName.relay_out_b_in_b o.b_in_b

  relay :
      (name : ConnectionName)
      → Yields
          (RelayUses device_by_id config name)
          (NoUse device_by_id config name)
          (new_inverter_relay device_by_id config name)
  relay name = new_inverter_relay-exact device_by_id config name

  abbrev AsConfigured : Result (TrackInverter S) → Type 0
  AsConfigured r = Yields UsesAll (¬ AllUsable) r

  fourth :
      (a_in_a a_in_b b_in_a : PhaseRelay S)
      → RelayUses device_by_id config ConnectionName.relay_out_a_in_a a_in_a
      → RelayUses device_by_id config ConnectionName.relay_out_a_in_b a_in_b
      → RelayUses device_by_id config ConnectionName.relay_out_b_in_a b_in_a
      → (r : Result (PhaseRelay S))
      → Yields
          (RelayUses device_by_id config ConnectionName.relay_out_b_in_b)
          (NoUse device_by_id config ConnectionName.relay_out_b_in_b)
          r
      → AsConfigured (then_get r (λ b_in_b. ok (inverter_of a_in_a a_in_b b_in_a b_in_b)))
  fourth a b c h1 h2 h3 (ok d) h4 = (h1, h2, h3, h4)
  fourth a b c h1 h2 h3 (err e) unused = λ all. unused all.3.0 all.3.1 all.3.2

  new_relays-exact : AsConfigured (new_relays device_by_id config)
  unfolding new_relays
  new_relays-exact =
      then_get-Yields _ _ UsesAll (¬ AllUsable) (with_one device_by_id config) _
        (relay ConnectionName.relay_out_a_in_a)
        (λ a_in_a h1.
          then_get-Yields _ _ UsesAll (¬ AllUsable) (with_two device_by_id config a_in_a) _
            (relay ConnectionName.relay_out_a_in_b)
            (λ a_in_b h2.
              then_get-Yields _ _ UsesAll (¬ AllUsable)
                (with_three device_by_id config a_in_a a_in_b) _
                (relay ConnectionName.relay_out_b_in_a)
                (λ b_in_a h3.
                  fourth a_in_a a_in_b b_in_a h1 h2 h3 _ (relay ConnectionName.relay_out_b_in_b))
                (λ unused all. unused all.2.0 all.2.1 all.2.2))
            (λ unused all. unused all.1.0 all.1.1 all.1.2))
        (λ unused all. unused all.0.0 all.0.1 all.0.2)

  -- For a configuration of a track inverter: if each of the four connections has exactly one pin, which
  -- names a configured GPIO device and is one of its pins, the constructor makes an inverter, each of
  -- whose relays has the pin and the device of its connection; otherwise it returns an error.
  pub new_track_inverter-exact :
      config.type ≡ ObjectType.track_inverter
      → Yields UsesAll (¬ AllUsable) (new_track_inverter device_by_id config)
  unfolding new_track_inverter
  new_track_inverter-exact e =
      subst
        (λ t. AsConfigured (checked_type (is_track_inverter t) (new_relays device_by_id config)))
        (sym e) new_relays-exact
