-- ===== src/Ncs/Current.antt =====
-- The worker that runs has the configuration that was received last.
use local_worker.Common.{
  ℕ, ◌==◌, if◌then◌else◌, Bool, true, false, Bool-cases, Option, none, some, List, [], ◌∷◌, ◌++◌,
  ◌≡◌, ◌≢◌, true≢false, refl, sym, ap, ◌∙◌, ◌⊎◌, inl, inr, subst,
}
use local_worker.Common.Texts.{Text, same_text, same_text→eq}
use local_worker.Ncs.{
  Config, Received, config, Sent, hash_of, announce, announce_if_new, load_from, load_config_stream,
  Workers, Worker, run_workers, run_all,
}

abbrev is_nil : Text → Bool
is_nil [] = true
is_nil (x ∷ xs) = false

cons≢nil : (x : ℕ) (xs : Text) → x ∷ xs ≢ []
cons≢nil x xs e = true≢false (sym (ap is_nil e))

module _ {C : Type 0} (host_id : Text) where
  abbrev pub current_hash : Workers C → Text
  current_hash ws = hash_of_worker ws.current
    where
      hash_of_worker : Option (Worker C) → Text
      hash_of_worker none = []
      hash_of_worker (some w) = w.conf.hash

  run_all-append :
      (xs ys : List (Sent C)) (ws : Workers C)
      → run_all host_id (xs ++ ys) ws ≡ run_all host_id ys (run_all host_id xs ws)
  unfolding run_all
  run_all-append [] ys ws = refl
  run_all-append (x ∷ xs) ys ws = run_all-append xs ys (run_workers host_id x ws)

  -- The hash read last is empty, or that of the worker.
  abbrev InStep : Text → Workers C → Type 0
  InStep last ws = (last ≡ []) ⊎ (current_hash ws ≡ last)

  announce-InStep :
      (now : ℕ) (c : Option (Config C)) (ws : Workers C)
      → InStep (hash_of c) (run_all host_id (announce now c) ws)
  unfolding run_all run_workers
  announce-InStep now none ws = inl refl
  announce-InStep now (some c) ws = elim (Bool-cases (c.unixtime == 0)) [
    | inl e ↦ rw e (inr refl)
    | inr e ↦ rw e (inr refl)
  ]

  new_hash : Text → Option (Config C) → Text
  new_hash last c = if same_text (hash_of c) last then last else hash_of c

  new_hash_lem : (last : Text) (c : Option (Config C)) → new_hash last c ≡ hash_of c
  unfolding new_hash
  new_hash_lem last c = elim (Bool-cases (same_text (hash_of c) last)) [
    | inl e ↦ rw e (sym (same_text→eq (hash_of c) last e))
    | inr e ↦ rw e refl
  ]

  receive-InStep :
      (last : Text) (now : ℕ) (c : Option (Config C)) (ws : Workers C)
      → InStep last ws
      → InStep (hash_of c) (run_all host_id (announce_if_new last now c) ws)
  unfolding run_all
  receive-InStep last now c ws h = elim (Bool-cases (same_text (hash_of c) last)) [
    | inl e ↦ rw e (subst (λ x. InStep x ws) (sym (same_text→eq (hash_of c) last e)) h)
    | inr e ↦ rw e (announce-InStep now c ws)
  ]

  -- The configurations of a stream, received at their times.
  abbrev pub stream : List (ℕ × Option (Config C)) → List (Received C)
  stream [] = []
  stream ((now, c) ∷ cs) = config now c ∷ stream cs

  stream-InStep :
      (cs : List (ℕ × Option (Config C))) (now : ℕ) (c : Option (Config C)) (last : Text)
      (ws : Workers C)
      → InStep last ws
      → InStep (hash_of c) (run_all host_id (load_from last (stream (cs ++ ((now, c) ∷ [])))).0 ws)
  unfolding load_from run_all new_hash
  stream-InStep [] now c last ws h =
      subst (InStep (hash_of c)) (sym (run_all-append (announce_if_new last now c) [] ws))
        (receive-InStep last now c ws h)
  stream-InStep ((n, d) ∷ cs) now c last ws h =
      subst (InStep (hash_of c)) (sym (run_all-append (announce_if_new last n d) _ ws)) (
        stream-InStep cs now c (new_hash last d) (run_all host_id (announce_if_new last n d) ws) (
          subst (λ l. InStep l (run_all host_id (announce_if_new last n d) ws))
            (sym (new_hash_lem last d)) (receive-InStep last n d ws h)))

  of_nonempty :
      (h : Text) (ws : Workers C) (x : ℕ) (xs : Text)
      → h ≡ x ∷ xs
      → InStep h ws
      → current_hash ws ≡ h
  of_nonempty h ws x xs e (inl f) = absurd (cons≢nil x xs (sym e ∙ f))
  of_nonempty h ws x xs e (inr f) = f

  -- Whatever configurations a stream yields and whatever worker runs before: after a configuration
  -- whose hash is not empty, the worker that is not cancelled runs with a configuration of that hash.
  pub load_config_stream-current :
      (cs : List (ℕ × Option (Config C))) (now : ℕ) (c : Config C) (ws : Workers C) (x : ℕ)
      (xs : Text)
      → c.hash ≡ x ∷ xs
      → current_hash
          (run_all host_id (load_config_stream (stream (cs ++ ((now, some c) ∷ [])))).0 ws)
        ≡ c.hash
  unfolding load_config_stream
  load_config_stream-current cs now c ws x xs e =
      of_nonempty c.hash
        (run_all host_id (load_config_stream (stream (cs ++ ((now, some c) ∷ [])))).0 ws) x xs e
        (stream-InStep cs now (some c) [] ws (inl refl))
