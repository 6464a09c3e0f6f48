-- ===== src/Common/Texts.antt =====
-- Texts as lists of bytes: `==`, and what the source uses of the package strings.
use Prim.Native.Nat.{ℕ, zero, suc, ◌+◌, ◌-◌}
use mathlib.Core.Path.{◌≡◌, refl, sym, ap, ap₂, subst, ◌∙◌}
use mathlib.Core.Logic.{inl, inr}
use mathlib.Core.Bool.{Bool, true, false, ◌&&◌, false≢true}
use mathlib.Core.List.{List, [], ◌∷◌, ◌++◌, map}
use native.Mathlib.Omega.{arith}
use local_worker.Common.Tests.{◌==◌, leb, if◌then◌else◌, Bool-cases}
use local_worker.Common.Lists.{length}

abbrev pub Text : Type 0
Text = List ℕ

abbrev pub same_text : Text → Text → Bool
same_text [] [] = true
same_text [] (y ∷ ys) = false
same_text (x ∷ xs) [] = false
same_text (x ∷ xs) (y ∷ ys) = x == y && same_text xs ys

pub same_text_refl : (x : Text) → same_text x x ≡ true
same_text_refl [] = refl
same_text_refl (x ∷ xs) = ground (arith, same_text_refl xs)

pub same_text→eq : (x y : Text) → same_text x y ≡ true → x ≡ y
same_text→eq [] [] h = refl
same_text→eq [] (y ∷ ys) h = absurd (ground arith)
same_text→eq (x ∷ xs) [] h = absurd (ground arith)
same_text→eq (x ∷ xs) (y ∷ ys) h = ap₂ ◌∷◌ (ground arith) (same_text→eq xs ys (ground arith))

pub same_text_sym : (j k : Text) → same_text j k ≡ false → same_text k j ≡ false
same_text_sym j k h = elim (Bool-cases (same_text k j)) [
  | inl e ↦ absurd (
      false≢true
        (sym (subst (λ x. same_text j x ≡ false) (same_text→eq k j e) h) ∙ same_text_refl j))
  | inr e ↦ e
]

-- `strings.HasPrefix`
abbrev pub has_prefix : Text → Text → Bool
has_prefix text [] = true
has_prefix [] (p ∷ ps) = false
has_prefix (x ∷ xs) (p ∷ ps) = x == p && has_prefix xs ps

abbrev drop : ℕ → Text → Text
drop zero text = text
drop (suc n) [] = []
drop (suc n) (x ∷ xs) = drop n xs

abbrev pub take : ℕ → Text → Text
take zero text = []
take (suc n) [] = []
take (suc n) (x ∷ xs) = x ∷ take n xs

-- `strings.TrimPrefix`
abbrev pub trim_prefix : Text → Text → Text
trim_prefix text p = if has_prefix text p then drop (length p) text else text

-- `strings.HasSuffix`
abbrev pub has_suffix : Text → Text → Bool
has_suffix text s = leb (length s) (length text) && same_text (drop (length text - length s) text) s

-- `strings.TrimSuffix`
abbrev pub trim_suffix : Text → Text → Text
trim_suffix text s = if has_suffix text s then take (length text - length s) text else text

-- `strings.ToLower`, on ASCII letters
abbrev lower_byte : ℕ → ℕ
lower_byte b = if leb b'A' b && leb b b'Z' then b + 32 else b

abbrev pub to_lower : Text → Text
to_lower text = map lower_byte text

drop-length : (x y : Text) → drop (length x) (x ++ y) ≡ y
drop-length [] y = refl
drop-length (a ∷ x) y = drop-length x y

take-length : (x y : Text) → take (length x) (x ++ y) ≡ x
take-length [] y = refl
take-length (a ∷ x) y = ap (λ l. a ∷ l) (take-length x y)

length-append : (x y : Text) → length (x ++ y) ≡ length x + length y
length-append [] y = omega arith
length-append (a ∷ x) y = omega (arith, length-append x y)

has_prefix-append : (p x : Text) → has_prefix (p ++ x) p ≡ true
has_prefix-append [] x = refl
has_prefix-append (a ∷ p) x = ground (arith, has_prefix-append p x)

pub trim_prefix-append : (p x : Text) → trim_prefix (p ++ x) p ≡ x
trim_prefix-append p x = rw (has_prefix-append p x, drop-length p x) refl

suffix_length : (x s : Text) → length (x ++ s) - length s ≡ length x
suffix_length x s = omega (arith, length-append x s)

pub has_suffix-append : (x s : Text) → has_suffix (x ++ s) s ≡ true
has_suffix-append x s =
    rw (suffix_length x s, drop-length x s, same_text_refl s) (ground (arith, length-append x s))

pub trim_suffix-append : (x s : Text) → trim_suffix (x ++ s) s ≡ x
trim_suffix-append x s = rw (has_suffix-append x s, suffix_length x s, take-length x s) refl
