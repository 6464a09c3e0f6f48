-- ===== src/Objects/Lines.antt =====
-- The contract under which an object drives output pins: each pin has a line, and a call of `Set`
-- that succeeds puts the value on the line of its pin and on no other. After a failure the lines
-- are as they were, and nothing is promised of later calls.
use local_worker.Common.{ℕ, ◌==◌, if◌then◌else◌, Bool, ◌≡◌, Ends}
use local_worker.Objects.{Gpio}

abbrev pub SameLines : {S : Type 0} → (S → ℕ → Bool) → S → S → Type 0
SameLines line s t = (q : ℕ) → line t q ≡ line s q

abbrev pub LineSet : {S : Type 0} → (S → ℕ → Bool) → ℕ → Bool → S → S → Type 0
LineSet line n v s t = (q : ℕ) → line t q ≡ (if n == q then v else line s q)

pub record Drives {S : Type 0} (g : Gpio S) (Ready : S → Type 0) (line : S → ℕ → Bool) (pin n : ℕ)
    : Type 0 where
  pub set_meets :
      (v : Bool) (s : S)
      → Ready s
      → Ends (λ _ t. Ready t × LineSet line n v s t) (SameLines line s) (g.set pin v s)
