-- ===== src/Bridge/Runs.antt =====
-- What a client may rely on when it hands an operation to `Execute`: the operation is run at most
-- a bounded number of times, and between the runs only the bus itself changes.
use local_worker.Common.{
  ℕ, suc, ◌==◌, if◌then◌else◌, Bool, true, ◌≡◌, subst, M, Result, ok, err, Error, Ends,
}
use local_worker.Bridge.{Host, I2cDevice, I2cBus}

module _ {D W A : Type 0} (Same : W → W → Type 0) (Dev : I2cDevice W → Type 0)
    (op : I2cDevice W → M (Host D W) A) where
  -- `Runs n s out`: from `s`, at most `n` runs of the operation lead to the outcome `out`.
  pub data Runs : ℕ → Host D W → Result A × Host D W → Type 0 where
    refused :
        {n : ℕ} {s : Host D W} {w : W} {e : Error}
        → Same s.world w
        → Runs n s (err e, record s { world = w })
    done :
        {n : ℕ} {s t : Host D W} {w : W} {a : A} (dev : I2cDevice W)
        → Same s.world w
        → Dev dev
        → op dev (record s { world = w }) ≡ (ok a, t)
        → Runs (suc n) s (ok a, t)
    again :
        {n : ℕ} {s t : Host D W} {w : W} {e : Error} {out : Result A × Host D W} (dev : I2cDevice W)
        → Same s.world w
        → Dev dev
        → op dev (record s { world = w }) ≡ (err e, t)
        → Runs n t out
        → Runs (suc n) s out

module _ {D W A : Type 0} {Same : W → W → Type 0} {Dev : I2cDevice W → Type 0}
    {op : I2cDevice W → M (Host D W) A} (Inv : Host D W → Type 0)
    (Good : A → Host D W → Type 0) where
  -- An invariant that the bus keeps and a failing run restores holds after every failure, and what a
  -- successful run establishes holds after every success.
  pub Runs-rule :
      ((s : Host D W) (w : W) → Same s.world w → Inv s → Inv (record s { world = w }))
      → ((dev : I2cDevice W) (s : Host D W) → Dev dev → Inv s → Ends Good Inv (op dev s))
      → {n : ℕ} {s : Host D W} {out : Result A × Host D W} → Runs Same Dev op n s out
      → Inv s
      → Ends Good Inv out
  Runs-rule stable step (refused {s = s} {w = w} same) i = stable s w same i
  Runs-rule stable step (done {s = s} {w = w} dev same d e) i =
      subst (Ends Good Inv) e (step dev (record s { world = w }) d (stable s w same i))
  Runs-rule stable step (again {s = s} {w = w} dev same d e rest) i =
      Runs-rule stable step rest
        (subst (Ends Good Inv) e (step dev (record s { world = w }) d (stable s w same i)))

-- A chip with byte registers: `reg w r` is what register `r` was last given. A register that is
-- `stored` reads back as that.
pub record RegisterChip {W : Type 0} (reg : W → ℕ → ℕ) (stored : ℕ → Bool) (dev : I2cDevice W)
    : Type 0 where
  pub write :
      (r v : ℕ) (w : W)
      → Ends
          (λ _ w'. (q : ℕ) → reg w' q ≡ (if r == q then v else reg w q))
          (λ w'. (q : ℕ) → reg w' q ≡ reg w q)
          (dev.write_byte_reg r v w)
  pub read :
      (r : ℕ) (w : W)
      → Ends
          (λ v w'. (stored r ≡ true → v ≡ reg w r) × ((q : ℕ) → reg w' q ≡ reg w q))
          (λ w'. (q : ℕ) → reg w' q ≡ reg w q)
          (dev.read_byte_reg r w)

abbrev pub SameRegs : {W : Type 0} → (W → ℕ → ℕ) → W → W → Type 0
SameRegs reg w w' = (q : ℕ) → reg w' q ≡ reg w q

-- The chip with registers `reg` answers at address `a` of the bus, which makes two attempts.
pub record ChipOn {D W : Type 0} (bus : I2cBus D W) (a : ℕ) (reg : W → ℕ → ℕ) (stored : ℕ → Bool)
    : Type 1 where
  pub runs :
      (A : Type 0) (op : I2cDevice W → M (Host D W) A) (s : Host D W)
      → Runs (SameRegs reg) (RegisterChip reg stored) op 2 s (bus.execute A a op s)
