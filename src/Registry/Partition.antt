-- ===== src/Registry/Partition.antt =====
-- What is configured and what is not are a partition of all entries.
use mathlib.Core.List.{Perm, perm_middle}
use mathlib.Core.List.Perm
use local_worker.Common.{
  ℕ, suc, ◌+◌, length, true, false, Bool-cases, Option, none, some, ◌≡◌, refl, subst, inl, inr,
  List, [], ◌∷◌, ◌++◌, M, Result, ok, err, Error, arith,
}
use local_worker.Common.Texts.{Text, same_text, same_text_refl, same_text_sym, same_text→eq}
use local_worker.Common.Maps.{Map, find, keys, Distinct}
use local_worker.Registry.{add_outcome, configure_each, missing_from}

abbrev pub succeeded : {D : Type 0} → Option (D × Result (Unit {0})) → Option D
succeeded none = none
succeeded (some (d, ok u)) = some d
succeeded (some (d, err e)) = none

module _ {D W : Type 0} (setup : D → M W (Unit {0})) where
  abbrev configured : Map D → W → Map D
  configured m w = (configure_each setup m w).0.0

  abbrev errors : Map D → W → List Error
  errors m w = (configure_each setup m w).0.1

  outcome-none :
      (k j : Text) (d : D) (r : Result (Unit {0})) (out : (Map D × List Error) × W)
      → same_text k j ≡ false
      → find j out.0.0 ≡ none
      → find j (add_outcome k d r out).0.0 ≡ none
  outcome-none k j d (ok _) ((c, es), w) h e = ground arith
  outcome-none k j d (err x) ((c, es), w) h e = e

  configured-none :
      (m : Map D) (w : W) (j : Text) → find j m ≡ none → find j (configured m w) ≡ none
  unfolding configure_each
  configured-none [] w j h = refl
  configured-none ((k, d) ∷ m) w j h =
      outcome-none k j d (setup d w).0 (configure_each setup m (setup d w).1) (ground arith)
        (configured-none m (setup d w).1 j (ground arith))

  missing_fresh :
      (k : Text) (d : D) (c m : Map D)
      → find k m ≡ none
      → missing_from ((k, d) ∷ c) m ≡ missing_from c m
  unfolding missing_from
  missing_fresh k d c [] h = refl
  missing_fresh k d c ((k', d') ∷ m) h =
      rw (same_text_sym k' k (ground arith), missing_fresh k d c m (ground arith)) refl

  partition_step :
      (k : Text) (d : D) (m : Map D) (r : Result (Unit {0})) (out : (Map D × List Error) × W)
      → find k m ≡ none
      → find k out.0.0 ≡ none
      → Perm (keys out.0.0 ++ missing_from out.0.0 m) (keys m)
      → Perm
          (keys (add_outcome k d r out).0.0
            ++ missing_from (add_outcome k d r out).0.0 ((k, d) ∷ m))
          (k ∷ keys m)
  unfolding missing_from
  partition_step k d m (ok _) ((c, es), w) fresh none_yet p =
      rw (same_text_refl k, missing_fresh k d c m fresh) (Perm.cons k p)
  partition_step k d m (err e) ((c, es), w) fresh none_yet p =
      rw none_yet (Perm.trans (perm_middle (keys c) (missing_from c m)) (Perm.cons k p))

  -- With distinct keys: the keys configured and those that are missing are together the keys of the
  -- map, each as often as there.
  pub configure_each-Perm :
      (m : Map D) (w : W)
      → Distinct m
      → Perm (keys (configured m w) ++ missing_from (configured m w) m) (keys m)
  unfolding configure_each missing_from
  configure_each-Perm [] w h = Perm.nil
  configure_each-Perm ((k, d) ∷ m) w h =
      partition_step k d m (setup d w).0 (configure_each setup m (setup d w).1) h.0
        (configured-none m (setup d w).1 k h.0) (configure_each-Perm m (setup d w).1 h.1)

  count_step :
      (k : Text) (d : D) (n : ℕ) (r : Result (Unit {0})) (out : (Map D × List Error) × W)
      → length out.0.0 + length out.0.1 ≡ n
      → length (add_outcome k d r out).0.0 + length (add_outcome k d r out).0.1 ≡ suc n
  count_step k d n (ok _) ((c, es), w) h = omega arith
  count_step k d n (err e) ((c, es), w) h = omega arith

  -- Every entry is configured or has left an error.
  pub length-configure_each :
      (m : Map D) (w : W) → length (configured m w) + length (errors m w) ≡ length m
  unfolding configure_each
  length-configure_each [] w = refl
  length-configure_each ((k, d) ∷ m) w =
      count_step k d (length m) (setup d w).0 (configure_each setup m (setup d w).1)
        (length-configure_each m (setup d w).1)

  -- Each entry with the result of its `Configure`, which is called whatever the others returned.
  abbrev pub trace : Map D → W → Map (D × Result (Unit {0}))
  trace [] w = []
  trace ((k, d) ∷ m) w = (k, (d, (setup d w).0)) ∷ trace m (setup d w).1

  found_step :
      (k j : Text) (d : D) (r : Result (Unit {0})) (out : (Map D × List Error) × W)
      (l : Map (D × Result (Unit {0})))
      → (same_text k j ≡ true → find j out.0.0 ≡ none)
      → find j out.0.0 ≡ succeeded (find j l)
      → find j (add_outcome k d r out).0.0 ≡ succeeded (find j ((k, (d, r)) ∷ l))
  found_step k j d (ok u) ((c, es), w) l fresh rest = ground (arith, rest)
  found_step k j d (err e) ((c, es), w) l fresh rest = elim (Bool-cases (same_text k j)) [
    | inl h ↦ rw h (fresh h)
    | inr h ↦ rw h rest
  ]

  -- With distinct keys: the entry that a key finds afterwards is the one whose call succeeded.
  pub find-configure_each :
      (m : Map D) (w : W) (j : Text)
      → Distinct m
      → find j (configured m w) ≡ succeeded (find j (trace m w))
  unfolding configure_each
  find-configure_each [] w j h = refl
  find-configure_each ((k, d) ∷ m) w j h =
      found_step k j d (setup d w).0 (configure_each setup m (setup d w).1) (trace m (setup d w).1)
        (λ e.
          configured-none m (setup d w).1 j (subst (λ x. find x m ≡ none) (same_text→eq k j e) h.0))
        (find-configure_each m (setup d w).1 j h.1)
