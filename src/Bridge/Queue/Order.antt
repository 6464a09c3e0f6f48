-- ===== src/Bridge/Queue/Order.antt =====
-- Operations made one by one: the world after them, and what each yields.
use local_worker.Common.{
  ℕ, ◌+◌, ◌==◌, if◌then◌else◌, Option, none, some, List, [], ◌∷◌, ◌++◌, M, Result, ◌≡◌, ◌≢◌, refl,
  arith,
}

-- How often a call is in the list.
abbrev pub times_in : ℕ → List ℕ → ℕ
times_in i [] = 0
times_in i (j ∷ js) = if j == i then times_in i js + 1 else times_in i js

pub times_in-other : (i j : ℕ) (xs : List ℕ) → i ≢ j → times_in j (xs ++ (i ∷ [])) ≡ times_in j xs
times_in-other i j [] ne = ground arith
times_in-other i j (x ∷ xs) ne = ground (arith, times_in-other i j xs ne)

pub times_in-last : (i : ℕ) (xs : List ℕ) → times_in i (xs ++ (i ∷ [])) ≡ times_in i xs + 1
times_in-last i [] = ground arith
times_in-last i (x ∷ xs) = ground (arith, times_in-last i xs)

module _ {A W : Type 0} (op : ℕ → M W A) where
  -- The world after the operations of the calls, one after the other.
  abbrev pub after : List ℕ → W → W
  after [] w = w
  after (i ∷ is) w = after is (op i w).1

  -- What the operation of a call yields when they are made in this order.
  abbrev pub result_in : ℕ → List ℕ → W → Option (Result A)
  result_in i [] w = none
  result_in i (j ∷ js) w = if j == i then some (op j w).0 else result_in i js (op j w).1

  pub after-append : (xs ys : List ℕ) (w : W) → after (xs ++ ys) w ≡ after ys (after xs w)
  after-append [] ys w = refl
  after-append (x ∷ xs) ys w = after-append xs ys (op x w).1

  -- A further call does not change the results of those before.
  pub result_in-kept :
      (i j : ℕ) (xs : List ℕ) (w : W) (r : Result A)
      → result_in i xs w ≡ some r
      → result_in i (xs ++ (j ∷ [])) w ≡ some r
  result_in-kept i j [] w r h = cc
  result_in-kept i j (x ∷ xs) w r h = ground (arith, result_in-kept i j xs (op x w).1 r)

  pub result_in-last :
      (i : ℕ) (xs : List ℕ) (w : W)
      → times_in i xs ≡ 0
      → result_in i (xs ++ (i ∷ [])) w ≡ some (op i (after xs w)).0
  result_in-last i [] w h = ground arith
  result_in-last i (x ∷ xs) w h = ground (arith, result_in-last i xs (op x w).1)
