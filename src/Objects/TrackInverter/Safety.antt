-- ===== src/Objects/TrackInverter/Safety.antt =====
-- What the relays of a track inverter connect after a move in which no call of a device fails.
use local_worker.Common.{ℕ, Option, none, some, Bool, true, false, ◌≡◌, ◌≢◌}
use local_worker.Objects.Lines.{Drives}
use local_worker.Objects.PhaseRelay.{PhaseRelay}
use local_worker.Objects.PhaseRelay.Flags.{powered, NeverFails}
use local_worker.Objects.TrackInverter.{TrackInverterState, default, reverse, TrackInverter}

abbrev is_default : TrackInverterState → Bool
is_default default = true
is_default _ = false

abbrev is_reverse : TrackInverterState → Bool
is_reverse reverse = true
is_reverse _ = false

-- The lines of the four relays.
pub record Coils : Type 0 where
  pub aa : ℕ
  pub ab : ℕ
  pub ba : ℕ
  pub bb : ℕ

module _ {S : Type 0} (Ready : S → Type 0) (line : S → ℕ → Bool) (c : Coils) where
  pub record Wired (o : TrackInverter S) : Type 0 where
    pub aa_drives : Drives o.a_in_a.device Ready line o.a_in_a.pin c.aa
    pub ab_drives : Drives o.a_in_b.device Ready line o.a_in_b.pin c.ab
    pub ba_drives : Drives o.b_in_a.device Ready line o.b_in_a.pin c.ba
    pub bb_drives : Drives o.b_in_b.device Ready line o.b_in_b.pin c.bb
    pub aa_ab : c.aa ≢ c.ab
    pub aa_ba : c.aa ≢ c.ba
    pub aa_bb : c.aa ≢ c.bb
    pub ab_ba : c.ab ≢ c.ba
    pub ab_bb : c.ab ≢ c.bb
    pub ba_bb : c.ba ≢ c.bb

  -- No call of a relay's device fails.
  pub record Reliable (o : TrackInverter S) : Type 0 where
    pub aa_works : NeverFails Ready o.a_in_a
    pub ab_works : NeverFails Ready o.a_in_b
    pub ba_works : NeverFails Ready o.b_in_a
    pub bb_works : NeverFails Ready o.b_in_b

  -- The coils of the state are powered and no others: `default` connects A to A and B to B,
  -- `reverse` connects them crosswise.
  abbrev pub Connected : TrackInverterState → TrackInverter S → S → Type 0
  Connected d o s =
      (powered line o.a_in_a c.aa s ≡ is_default d)
      × (powered line o.a_in_b c.ab s ≡ is_reverse d)
      × (powered line o.b_in_a c.ba s ≡ is_reverse d)
      × (powered line o.b_in_b c.bb s ≡ is_default d)

  -- Each flag tells the truth of its coil.
  abbrev Known : TrackInverter S → S → Type 0
  Known o s =
      (powered line o.a_in_a c.aa s ≡ o.a_in_a.last_active)
      × (powered line o.a_in_b c.ab s ≡ o.a_in_b.last_active)
      × (powered line o.b_in_a c.ba s ≡ o.b_in_a.last_active)
      × (powered line o.b_in_b c.bb s ≡ o.b_in_b.last_active)

  abbrev released : TrackInverter S → TrackInverter S
  released o = record o {
    a_in_a = record (o.a_in_a) { last_active = false };
    a_in_b = record (o.a_in_b) { last_active = false };
    b_in_a = record (o.b_in_a) { last_active = false };
    b_in_b = record (o.b_in_b) { last_active = false };
  }

  -- The target after a request, if one comes.
  abbrev pub later : Option TrackInverterState → TrackInverterState → TrackInverterState
  later none d = d
  later (some v) d = v
