-- ===== src/Ncs/Restarts.antt =====
-- When `runLoadConfig` gives up.
use local_worker.Common.{
  ℕ, ◌+◌, ◌≤◌, ltb, if◌then◌else◌, Bool-cases, List, [], ◌∷◌, Result, ok, err, ◌≡◌, inl, inr, arith,
}
use local_worker.Ncs.{retry_loading, run_load_config}

abbrev larger : ℕ → ℕ → ℕ
larger a b = if ltb a b then b else a

-- The most errors in a row among the results, where some came just before.
abbrev most_errors : ℕ → List (Result (Unit {0})) → ℕ
most_errors before [] = before
most_errors before (ok u ∷ rs) = larger before (most_errors 0 rs)
most_errors before (err e ∷ rs) = most_errors (before + 1) rs

most_errors_le : (before : ℕ) (rs : List (Result (Unit {0}))) → before ≤ most_errors before rs
most_errors_le before [] = omega arith
most_errors_le before (ok u ∷ rs) = ground arith
most_errors_le before (err e ∷ rs) = omega (arith, most_errors_le (before + 1) rs)

retry_loading_lem :
    (before : ℕ) (rs : List (Result (Unit {0})))
    → before ≤ 10
    → retry_loading before rs ≡ ltb 10 (most_errors before rs)
unfolding retry_loading
retry_loading_lem before [] h = ground arith
retry_loading_lem before (ok u ∷ rs) h = ground (arith, retry_loading_lem 0 rs)
retry_loading_lem before (err e ∷ rs) h = elim (Bool-cases (ltb 10 (before + 1))) [
  | inl f ↦ rw f (ground (arith, most_errors_le (before + 1) rs))
  | inr f ↦ rw f (retry_loading_lem (before + 1) rs (ground arith))
]

-- `runLoadConfig` stops before its context ends exactly if more than ten streams in a row end with an
-- error.
run_load_config-most_errors :
    (rs : List (Result (Unit {0}))) → run_load_config rs ≡ ltb 10 (most_errors 0 rs)
unfolding run_load_config
run_load_config-most_errors rs = retry_loading_lem 0 rs (omega arith)
