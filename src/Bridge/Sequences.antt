-- ===== src/Bridge/Sequences.antt =====
-- An operation that changes the driver's fields and then writes several registers in a row, and an
-- operation that reads one.
use local_worker.Common.{
  ℕ, ◌==◌, if◌then◌else◌, not, ◌&&◌, Bool, true, ◌≡◌, refl, ap, ◌∙◌, ◌⊎◌, inl, inr, List, [], ◌∷◌,
  M, Result, ok, err, subst, ◌>>=◌, ◌>>◌, Ends, Ends-mono, Ends-bind, arith,
}
use local_worker.Bridge.{Host, I2cDevice, I2cBus, on_world, modify_driver, get_driver, lift_world}
use local_worker.Bridge.Runs.{Runs-rule, RegisterChip, SameRegs, ChipOn}

-- Register `r` is given the value `p` of the driver's fields, and then those of the list theirs, from
-- first to last. The fields are read again before each write, as the drivers do.
abbrev pub write_regs :
    {D W : Type 0} → ℕ → (D → ℕ) → List (ℕ × (D → ℕ)) → I2cDevice W → M (Host D W) (Unit {0})
write_regs r p [] dev = get_driver >>= λ d. on_world (dev.write_byte_reg r (p d))
write_regs r p ((r', p') ∷ l) dev =
    (get_driver >>= λ d. on_world (dev.write_byte_reg r (p d))) >> write_regs r' p' l dev

abbrev values : {D : Type 0} → D → List (ℕ × (D → ℕ)) → List (ℕ × ℕ)
values d [] = []
values d ((r, p) ∷ l) = (r, p d) ∷ values d l

abbrev pub after : List (ℕ × ℕ) → (ℕ → ℕ) → ℕ → ℕ
after [] g q = g q
after ((r, v) ∷ l) g q = after l (λ x. if r == x then v else g x) q

abbrev outside : List (ℕ × ℕ) → ℕ → Bool
outside [] q = true
outside ((r, v) ∷ l) q = not (r == q) && outside l q

after-agree :
    (l : List (ℕ × ℕ)) (g g' : ℕ → ℕ)
    → ((x : ℕ) → outside l x ≡ true → g x ≡ g' x)
    → (q : ℕ) → after l g q ≡ after l g' q
after-agree [] g g' h q = h q refl
after-agree ((r, v) ∷ l) g g' h q = after-agree l _ _ (λ x o. ground (arith, h x)) q

after-outside : (l : List (ℕ × ℕ)) (g : ℕ → ℕ) (q : ℕ) → outside l q ≡ true → after l g q ≡ g q
after-outside [] g q h = refl
after-outside ((r, v) ∷ l) g q h =
    ground (arith, after-outside l (λ x. if r == x then v else g x) q)

module _ {D W : Type 0} (reg : W → ℕ → ℕ) (stored : ℕ → Bool) where
  abbrev SameOutside : List (ℕ × ℕ) → Host D W → Host D W → Type 0
  SameOutside l s t =
      (t.driver ≡ s.driver)
      × (t.active_count ≡ s.active_count)
      × ((q : ℕ) → outside l q ≡ true → reg t.world q ≡ reg s.world q)

  abbrev Written : List (ℕ × ℕ) → Host D W → Host D W → Type 0
  Written l s t =
      (t.driver ≡ s.driver)
      × (t.active_count ≡ s.active_count)
      × ((q : ℕ) → reg t.world q ≡ after l (reg s.world) q)

  one_write :
      (r v : ℕ) (s : Host D W) (out : Result (Unit {0}) × W)
      → Ends
          (λ _ w'. (q : ℕ) → reg w' q ≡ (if r == q then v else reg s.world q))
          (λ w'. (q : ℕ) → reg w' q ≡ reg s.world q)
          out
      → Ends (λ _. Written ((r, v) ∷ []) s) (SameOutside ((r, v) ∷ []) s) (lift_world s out)
  one_write r v s (ok x, w) h = (refl, refl, h)
  one_write r v s (err e, w) h = (refl, refl, λ q _. h q)

  Written-trans :
      (r v : ℕ) (l : List (ℕ × ℕ)) (s t u : Host D W)
      → Written ((r, v) ∷ []) s t
      → Written l t u
      → Written ((r, v) ∷ l) s u
  Written-trans r v l s t u h k =
      (k.0 ∙ h.0, k.1 ∙ h.1, λ q. k.2 q ∙ after-agree l (reg t.world) _ (λ x _. h.2 x) q)

  SameOutside-trans :
      (r v : ℕ) (l : List (ℕ × ℕ)) (s t u : Host D W)
      → Written ((r, v) ∷ []) s t
      → SameOutside l t u
      → SameOutside ((r, v) ∷ l) s u
  SameOutside-trans r v l s t u h k = (k.0 ∙ h.0, k.1 ∙ h.1, λ q o. ground (arith, k.2 q, h.2 q))

  write_field-Ends :
      (r : ℕ) (p : D → ℕ) (dev : I2cDevice W)
      → RegisterChip reg stored dev
      → (s : Host D W) (d : D) → s.driver ≡ d
      → Ends
          (λ _. Written ((r, p d) ∷ []) s)
          (SameOutside ((r, p d) ∷ []) s)
          (write_regs r p [] dev s)
  write_field-Ends r p dev c s d e =
      subst
        (λ v.
          Ends (λ _. Written ((r, v) ∷ []) s) (SameOutside ((r, v) ∷ []) s)
            (lift_world s (dev.write_byte_reg r (p s.driver) s.world)))
        (ap p e)
        (one_write r (p s.driver) s (dev.write_byte_reg r (p s.driver) s.world)
          (c.write r (p s.driver) s.world))

  write_regs-Ends :
      (r : ℕ) (p : D → ℕ) (l : List (ℕ × (D → ℕ))) (dev : I2cDevice W)
      → RegisterChip reg stored dev
      → (s : Host D W) (d : D) → s.driver ≡ d
      → Ends
          (λ _. Written ((r, p d) ∷ values d l) s)
          (SameOutside ((r, p d) ∷ values d l) s)
          (write_regs r p l dev s)
  write_regs-Ends r p [] dev c s d e = write_field-Ends r p dev c s d e
  write_regs-Ends r p ((r', p') ∷ l) dev c s d e =
      Ends-bind (λ _. Written ((r, p d) ∷ []) s) (SameOutside ((r, p d) ∷ []) s)
        (λ _. Written ((r, p d) ∷ rest) s) (SameOutside ((r, p d) ∷ rest) s)
        (λ _. write_regs r' p' l dev) (lift_world s (dev.write_byte_reg r (p s.driver) s.world))
        (write_field-Ends r p dev c s d e)
        (λ _ t h.
          Ends-mono (write_regs r' p' l dev t) (write_regs-Ends r' p' l dev c t d (h.0 ∙ e))
            (λ _ u. Written-trans r (p d) rest s t u h)
            (λ u. SameOutside-trans r (p d) rest s t u h))
        (λ t h. (h.0, h.1, λ q o. h.2 q (ground arith)))
    where
      rest : List (ℕ × ℕ)
      rest = (r', p' d) ∷ values d l

module _ {D W : Type 0} (reg : W → ℕ → ℕ) (f : D → D) (r : ℕ) (p : D → ℕ) (l : List (ℕ × (D → ℕ)))
    (s : Host D W) where
  abbrev given : List (ℕ × ℕ)
  given = (r, p (f s.driver)) ∷ values (f s.driver) l

  -- The driver has changed, and the registers of the list hold their values.
  pub record AllWritten (t : Host D W) : Type 0 where
    pub driver : t.driver ≡ f s.driver
    pub active : t.active_count ≡ s.active_count
    pub regs : (q : ℕ) → reg t.world q ≡ after given (reg s.world) q

  -- The driver may have changed, and of the registers only those of the list.
  pub record SomeWritten (t : Host D W) : Type 0 where
    pub driver : (t.driver ≡ s.driver) ⊎ (t.driver ≡ f s.driver)
    pub active : t.active_count ≡ s.active_count
    pub regs : (q : ℕ) → outside given q ≡ true → reg t.world q ≡ reg s.world q

  settled :
      f (f s.driver) ≡ f s.driver → (d : D) → (d ≡ s.driver) ⊎ (d ≡ f s.driver) → f d ≡ f s.driver
  settled twice d (inl e) = ap f e
  settled twice d (inr e) = ap f e ∙ twice

  pub write_all-Ends :
      {stored : ℕ → Bool} (bus : I2cBus D W) (a : ℕ)
      → ChipOn bus a reg stored
      → f (f s.driver) ≡ f s.driver
      → Ends
          (λ _. AllWritten)
          SomeWritten
          (bus.execute Unit a (λ dev. modify_driver f >> write_regs r p l dev) s)
  write_all-Ends {stored} bus a chip twice =
      Runs-rule SomeWritten (λ _. AllWritten)
        (λ t w same u. record {
          driver = u.driver;
          active = u.active;
          regs = λ q o. same q ∙ u.regs q o;
        })
        (λ dev t c u.
          Ends-mono (write_regs r p l dev (record t { driver = f t.driver }))
            (write_regs-Ends reg stored r p l dev c (record t { driver = f t.driver }) (f s.driver)
              (settled twice t.driver u.driver))
            (λ _ x h. record {
              driver = h.0 ∙ settled twice t.driver u.driver;
              active = h.1 ∙ u.active;
              regs = λ q. h.2 q ∙ after-agree given _ _ u.regs q;
            })
            (λ x h. record {
              driver = inr (h.0 ∙ settled twice t.driver u.driver);
              active = h.1 ∙ u.active;
              regs = λ q o. h.2 q o ∙ u.regs q o;
            }))
        (chip.runs Unit (λ dev. modify_driver f >> write_regs r p l dev) s)
        (record { driver = inl refl; active = refl; regs = λ q o. refl })

module _ {D W : Type 0} (reg : W → ℕ → ℕ) (r : ℕ) (s : Host D W) where
  -- The value read, the driver and the registers as they were.
  abbrev pub WasRead : (ℕ → Bool) → ℕ → Host D W → Type 0
  WasRead stored v t =
      (stored r ≡ true → v ≡ reg s.world r) × (t.driver ≡ s.driver) × SameRegs reg s.world t.world

  abbrev pub Unread : Host D W → Type 0
  Unread t = (t.driver ≡ s.driver) × SameRegs reg s.world t.world

  one_read :
      (stored : ℕ → Bool) (t : Host D W) (out : Result ℕ × W)
      → Unread t
      → Ends
          (λ v w'. (stored r ≡ true → v ≡ reg t.world r) × ((q : ℕ) → reg w' q ≡ reg t.world q))
          (λ w'. (q : ℕ) → reg w' q ≡ reg t.world q)
          out
      → Ends (WasRead stored) Unread (lift_world t out)
  one_read stored t (ok v, w) u h = (λ e. h.0 e ∙ u.1 r, u.0, λ q. h.1 q ∙ u.1 q)
  one_read stored t (err e, w) u h = (u.0, λ q. h q ∙ u.1 q)

  pub read_reg-Ends :
      {stored : ℕ → Bool} (bus : I2cBus D W) (a : ℕ)
      → ChipOn bus a reg stored
      → Ends (WasRead stored) Unread (bus.execute ℕ a (λ dev. on_world (dev.read_byte_reg r)) s)
  read_reg-Ends {stored} bus a chip =
      Runs-rule Unread (WasRead stored) (λ t w same u. (u.0, λ q. same q ∙ u.1 q))
        (λ dev t c u. one_read stored t (dev.read_byte_reg r t.world) u (c.read r t.world))
        (chip.runs ℕ (λ dev. on_world (dev.read_byte_reg r)) s) (refl, λ q. refl)

module _ {D W : Type 0} (reg : W → ℕ → ℕ) (stored : ℕ → Bool) (dev : I2cDevice W)
    (c : RegisterChip reg stored dev) (s : Host D W) where
  -- A read inside an operation, with what follows it.
  pub read_then :
      {B : Type 0} (r : ℕ) (Good : B → Host D W → Type 0) (Bad : Host D W → Type 0)
      (f : ℕ → M (Host D W) B) (t : Host D W)
      → Unread reg r s t
      → ((u : Host D W) → Unread reg r s u → Bad u)
      → ((v : ℕ) (u : Host D W)
          → (stored r ≡ true → v ≡ reg s.world r)
          → Unread reg r s u
          → Ends Good Bad (f v u))
      → Ends Good Bad ((on_world (dev.read_byte_reg r) >>= f) t)
  read_then r Good Bad f t i b g =
      Ends-bind (WasRead reg r s stored) (Unread reg r s) Good Bad f
        (lift_world t (dev.read_byte_reg r t.world))
        (one_read reg r s stored t (dev.read_byte_reg r t.world) i (c.read r t.world))
        (λ v u h. g v u h.0 (h.1, h.2)) b
