-- ===== src/Common/Maps.antt =====
-- A Go map whose keys are texts, as the list of its entries: the first entry of a key counts, and an
-- assignment replaces it.
use mathlib.Core.Path.{◌≡◌, refl, subst, ◌∙◌}
use mathlib.Core.Logic.{inl, inr}
use mathlib.Core.Bool.{false}
use mathlib.Core.Option.{Option, none, some}
use mathlib.Core.List.{List, [], ◌∷◌}
use native.Mathlib.Omega.{arith}
use local_worker.Common.Tests.{if◌then◌else◌, Bool-cases}
use local_worker.Common.Texts.{Text, same_text, same_text_refl, same_text_sym, same_text→eq}

abbrev pub Map : Type 0 → Type 0
Map D = List (Text × D)

module _ {D : Type 0} where
  abbrev pub find : Text → Map D → Option D
  find k [] = none
  find k ((k', d) ∷ m) = if same_text k' k then some d else find k m

  abbrev pub put : Text → D → Map D → Map D
  put k d [] = (k, d) ∷ []
  put k d ((k', d') ∷ m) = if same_text k' k then (k, d) ∷ m else (k', d') ∷ put k d m

  abbrev pub keys : Map D → List Text
  keys [] = []
  keys ((k, d) ∷ m) = k ∷ keys m

  -- The value, or the zero value of its type.
  abbrev pub find_or : D → Text → Map D → D
  find_or z k [] = z
  find_or z k ((k', d) ∷ m) = if same_text k' k then d else find_or z k m

  -- No key occurs twice.
  abbrev pub Distinct : Map D → Type 0
  Distinct [] = Unit
  Distinct ((k, d) ∷ m) = (find k m ≡ none) × Distinct m

  pub find-put_self : (k : Text) (d : D) (m : Map D) → find k (put k d m) ≡ some d
  find-put_self k d [] = ground (arith, same_text_refl k)
  find-put_self k d ((k', d') ∷ m) = ground (arith, same_text_refl k, find-put_self k d m)

  put_other :
      (k k' : Text) (d d' : D) (m : Map D) (j : Text)
      → same_text k j ≡ false
      → find j (put k d m) ≡ find j m
      → find j (put k d ((k', d') ∷ m)) ≡ find j ((k', d') ∷ m)
  put_other k k' d d' m j h rest = elim (Bool-cases (same_text k' k)) [
    | inl e ↦ rw (same_text→eq k' k e) (ground (arith, same_text_refl k))
    | inr e ↦ ground (arith, rest)
  ]

  pub find-put_other :
      (k : Text) (d : D) (m : Map D) (j : Text)
      → same_text k j ≡ false
      → find j (put k d m) ≡ find j m
  find-put_other k d [] j h = ground arith
  find-put_other k d ((k', d') ∷ m) j h = put_other k k' d d' m j h (find-put_other k d m j h)

  put_step :
      (k k' : Text) (d d' : D) (m : Map D)
      → Distinct ((k', d') ∷ m)
      → Distinct (put k d m)
      → Distinct (put k d ((k', d') ∷ m))
  put_step k k' d d' m h rest = elim (Bool-cases (same_text k' k)) [
    | inl e ↦ rw e (subst (λ x. find x m ≡ none) (same_text→eq k' k e) h.0, h.1)
    | inr e ↦ rw e (find-put_other k d m k' (same_text_sym k' k e) ∙ h.0, rest)
  ]

  -- An assignment to a map keeps its keys distinct.
  pub put-Distinct : (k : Text) (d : D) (m : Map D) → Distinct m → Distinct (put k d m)
  put-Distinct k d [] h = (refl, tt)
  put-Distinct k d ((k', d') ∷ m) h = put_step k k' d d' m h (put-Distinct k d m h.1)

  pub find_or-put_self : (z : D) (k : Text) (d : D) (m : Map D) → find_or z k (put k d m) ≡ d
  find_or-put_self z k d [] = ground (arith, same_text_refl k)
  find_or-put_self z k d ((k', d') ∷ m) = ground (arith, same_text_refl k, find_or-put_self z k d m)
