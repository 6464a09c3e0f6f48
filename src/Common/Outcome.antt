-- ===== src/Common/Outcome.antt =====
-- What a Go call leaves: a value or an error, and the state, which an error does not undo.
-- `M S A` is a Go function of result `(A, error)` over the state `S`.
use Prim.Native.Nat.{ℕ}
use mathlib.Core.Path.{◌≡◌, refl}
use mathlib.Core.Bool.{Bool, true, false}

-- The errors that the modelled code makes itself carry a name. `reported` is an error of code
-- that stands outside the repository, and `wrapped` is what `errors.Wrap` and `%w` put around one.
pub data Error : Type 0 where
  reported : ℕ → Error
  unsupported : Error
  short_transfer : ℕ → ℕ → Error
  invalid_pin : ℕ → Error
  invalid_direction : ℕ → Error
  invalid_argument : Error
  no_device : ℕ → Error
  wrapped : Error → Error
  -- A run-time panic of Go, such as an index out of range.
  panic : Error

pub data Result {ℓ} (A : Type ℓ) : Type ℓ where
  ok : A → Result A
  err : Error → Result A

abbrev pub map_ok : {A B : Type 0} → (A → B) → Result A → Result B
map_ok f (ok a) = ok (f a)
map_ok f (err e) = err e

abbrev pub M : Type 0 → Type 0 → Type 0
M S A = S → Result A × S

module _ {S : Type 0} where
  abbrev pub pure : {A : Type 0} → A → M S A
  pure a s = (ok a, s)

  abbrev pub throw : {A : Type 0} → Error → M S A
  throw e s = (err e, s)

  abbrev pub and_then : {A B : Type 0} → (A → M S B) → Result A × S → Result B × S
  and_then f (ok a, s) = f a s
  and_then f (err e, s) = (err e, s)

  infixl 5 ◌>>=◌ ◌>>◌
  abbrev pub ◌>>=◌ : {A B : Type 0} → M S A → (A → M S B) → M S B
  ◌>>=◌ m f s = and_then f (m s)

  abbrev pub ◌>>◌ : {B : Type 0} → M S (Unit {0}) → M S B → M S B
  ◌>>◌ m k s = and_then (λ _. k) (m s)

  abbrev pub get : M S S
  get s = (ok s, s)

  abbrev pub modify : (S → S) → M S (Unit {0})
  modify f s = (ok tt, f s)

  -- `if err := m(); err != nil { log }`: the error is seen and does not stop the caller.
  abbrev pub attempt : {A : Type 0} → M S A → M S (Result A)
  attempt m s = (ok (m s).0, (m s).1)

  -- A call whose error is not looked at.
  abbrev pub ignore : {A : Type 0} → M S A → M S (Unit {0})
  ignore m s = (ok tt, (m s).1)

  abbrev pub wrapping : {A : Type 0} → Result A × S → Result A × S
  wrapping (ok a, s) = (ok a, s)
  wrapping (err e, s) = (err (wrapped e), s)

  -- The error of `m`, wrapped with a message.
  abbrev pub wrap : {A : Type 0} → M S A → M S A
  wrap m s = wrapping (m s)

  -- A check that yields a value or an error and reads no state.
  abbrev pub lift : {A : Type 0} → Result A → M S A
  lift r s = (r, s)

-- What holds at the end of a call: `Good` of value and state, or `Bad` of the state of a failure.
abbrev pub Ends : {A S : Type 0} → (A → S → Type 0) → (S → Type 0) → Result A × S → Type 0
Ends Good Bad (ok a, s) = Good a s
Ends Good Bad (err e, s) = Bad s

abbrev pub failed : {A : Type 0} → Result A → Bool
failed (ok a) = false
failed (err e) = true

pub Ends-mono :
    {A S : Type 0} {Good Good' : A → S → Type 0} {Bad Bad' : S → Type 0} (out : Result A × S)
    → Ends Good Bad out
    → ((a : A) (s : S) → Good a s → Good' a s)
    → ((s : S) → Bad s → Bad' s)
    → Ends Good' Bad' out
Ends-mono (ok a, s) h g b = g a s h
Ends-mono (err e, s) h g b = b s h

-- The rule for a sequence of two calls.
pub Ends-bind :
    {A B S : Type 0} (Good : A → S → Type 0) (Bad : S → Type 0) (Good' : B → S → Type 0)
    (Bad' : S → Type 0) (f : A → M S B) (out : Result A × S)
    → Ends Good Bad out
    → ((a : A) (s : S) → Good a s → Ends Good' Bad' (f a s))
    → ((s : S) → Bad s → Bad' s)
    → Ends Good' Bad' (and_then f out)
Ends-bind G B G' B' f (ok a, s) h g b = g a s h
Ends-bind G B G' B' f (err e, s) h g b = b s h

-- A value put behind a call does not change the state that it leaves.
pub and_then-pure :
    {A B S : Type 0} (b : B) (out : Result A × S) → (and_then (λ _. pure b) out).1 ≡ out.1
and_then-pure b (ok a, s) = refl
and_then-pure b (err e, s) = refl
