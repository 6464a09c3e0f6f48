-- ===== src/Bridge/Queue/Sequential.antt =====
-- However calls of `Execute` meet, the bus does what it would do if they were made one by one.
use local_worker.Common.{
  ℕ, ◌+◌, ◌==◌, Bool, true, false, if_cases, Option, none, some, List, [], ◌∷◌, ◌++◌, M, Result,
  Error, err, failed, ◌≡◌, ◌≢◌, true≢false, refl, sym, ap, ◌∙◌, subst, ◌⊎◌, inl, inr, arith,
}
use local_worker.Bridge.Queue.{
  Phase, sending, awaiting, returned, Queue, Event, takes, cancels, finishes, sees, put, take_if,
  cancel_if, finish_if, see_if, step, run, started,
}
use local_worker.Bridge.Queue.Order.{
  times_in, after, result_in, after-append, result_in-kept, result_in-last, times_in-other,
  times_in-last,
}

put-all :
    {A : Type 0} (P : ℕ → Phase A → Type 0) (i : ℕ) (phase : Phase A) (phases : ℕ → Phase A)
    → P i phase
    → ((j : ℕ) → i ≢ j → P j (phases j))
    → (j : ℕ) → P j (put i phase phases j)
put-all P i phase phases h rest j =
    if_cases (P j) (i == j) phase (phases j) (λ e. subst (λ k. P k phase) (ground arith) h)
      (λ e. rest j (ground arith))

-- The call waits, and its request is not done.
abbrev is_undone : {A : Type 0} → Phase A → Bool
is_undone (awaiting none) = true
is_undone _ = false

-- The request that runs is that of a call that waits.
abbrev Busy : {A : Type 0} → Option ℕ → (ℕ → Phase A) → Type 0
Busy none phases = Unit
Busy (some i) phases = phases i ≡ awaiting none

put_self :
    {A : Type 0} (i : ℕ) (phase : Phase A) (phases : ℕ → Phase A) → put i phase phases i ≡ phase
put_self i phase phases = ground arith

put-Busy :
    {A : Type 0} (p : Option ℕ) (i : ℕ) (phase : Phase A) (phases : ℕ → Phase A)
    → is_undone (phases i) ≡ false
    → Busy p phases
    → Busy p (put i phase phases)
put-Busy none i phase phases e h = tt
put-Busy (some k) i phase phases e h =
    put-all (λ j x. phases j ≡ awaiting none → x ≡ awaiting none) i phase phases
      (λ waits. absurd (true≢false (sym (ap is_undone waits) ∙ e))) (λ j ne x. x) k h

module _ {A W : Type 0} (op : ℕ → M W A) where
  abbrev extend : Event → Option ℕ → List ℕ → List ℕ
  extend finishes (some i) order = order ++ (i ∷ [])
  extend _ _ order = order

  -- The calls in the order in which their requests were done, behind those of `order`.
  abbrev pub order_of : List Event → Queue A W → List ℕ → List ℕ
  order_of [] s order = order
  order_of (e ∷ es) s order = order_of es (step op e s) (extend e s.processor order)

  -- The call was made once, with this result.
  abbrev pub Made : W → List ℕ → ℕ → Result A → Type 0
  Made w order i r = (times_in i order ≡ 1) × (result_in op i order w ≡ some r)

  -- A call that has returned was made once and has the result of it, or was never made and has an
  -- error; one whose request has been taken was made once, or its request runs.
  abbrev Matches : W → List ℕ → Option ℕ → ℕ → Phase A → Type 0
  Matches w order p i sending = times_in i order ≡ 0
  Matches w order p i (awaiting none) = (times_in i order ≡ 0) × (p ≡ some i)
  Matches w order p i (awaiting (some r)) = Made w order i r
  Matches w order p i (returned r) = Made w order i r ⊎ ((times_in i order ≡ 0) × (failed r ≡ true))

  abbrev pub IsSequential : W → List ℕ → Queue A W → Type 0
  IsSequential w order s =
      (s.world ≡ after op order w)
      × Busy s.processor s.phases
      × ((i : ℕ) → Matches w order s.processor i (s.phases i))

  module _ (w : W) (order : List ℕ) where
    idle-Matches :
        (p : Option ℕ) (j : ℕ) (phase : Phase A)
        → Matches w order none j phase
        → Matches w order p j phase
    idle-Matches p j sending h = h
    idle-Matches p j (awaiting none) h = cc
    idle-Matches p j (awaiting (some r)) h = h
    idle-Matches p j (returned r) h = h

    Made-append :
        (i j : ℕ) (r : Result A) → i ≢ j → Made w order j r → Made w (order ++ (i ∷ [])) j r
    Made-append i j r ne (n, e) =
        (times_in-other i j order ne ∙ n, result_in-kept op j i order w r e)

    done-Matches :
        (i j : ℕ) (phase : Phase A)
        → i ≢ j
        → Matches w order (some i) j phase
        → Matches w (order ++ (i ∷ [])) none j phase
    done-Matches i j sending ne h = times_in-other i j order ne ∙ h
    done-Matches i j (awaiting none) ne (n, same) = absurd (ne cc)
    done-Matches i j (awaiting (some r)) ne h = Made-append i j r ne h
    done-Matches i j (returned r) ne (inl h) = inl (Made-append i j r ne h)
    done-Matches i j (returned r) ne (inr h) = inr (times_in-other i j order ne ∙ h.0, h.1)

    module _ (s : Queue A W) where
      take-IsSequential :
          (i : ℕ) (p : Option ℕ) (phase : Phase A)
          → s.processor ≡ p
          → s.phases i ≡ phase
          → IsSequential w order s
          → IsSequential w order (take_if op i p phase s)
      take-IsSequential i none sending e f (same, busy, all) = (
        same,
        put_self i (awaiting none) s.phases,
        put-all (Matches w order (some i)) i (awaiting none) s.phases
            (subst (Matches w order s.processor i) f (all i), refl)
            (λ j ne.
              idle-Matches (some i) j (s.phases j)
                (subst (λ q. Matches w order q j (s.phases j)) e (all j))),
      )
      take-IsSequential i none (awaiting x) e f h = h
      take-IsSequential i none (returned x) e f h = h
      take-IsSequential i (some k) phase e f h = h

      cancel-IsSequential :
          (i : ℕ) (x : Error) (phase : Phase A)
          → s.phases i ≡ phase
          → IsSequential w order s
          → IsSequential w order (cancel_if op i x phase s)
      cancel-IsSequential i x sending f (same, busy, all) = (
        same,
        put-Busy s.processor i (returned (err x)) s.phases (ap is_undone f) busy,
        put-all (Matches w order s.processor) i (returned (err x)) s.phases
            (inr (subst (Matches w order s.processor i) f (all i), refl)) (λ j ne. all j),
      )
      cancel-IsSequential i x (awaiting r) f h = h
      cancel-IsSequential i x (returned r) f h = h

      see-IsSequential :
          (i : ℕ) (phase : Phase A)
          → s.phases i ≡ phase
          → IsSequential w order s
          → IsSequential w order (see_if op i phase s)
      see-IsSequential i sending f h = h
      see-IsSequential i (awaiting none) f h = h
      see-IsSequential i (returned r) f h = h
      see-IsSequential i (awaiting (some r)) f (same, busy, all) = (
        same,
        put-Busy s.processor i (returned r) s.phases (ap is_undone f) busy,
        put-all (Matches w order s.processor) i (returned r) s.phases
            (inl (subst (Matches w order s.processor i) f (all i))) (λ j ne. all j),
      )

      finish-IsSequential :
          (p : Option ℕ)
          → s.processor ≡ p
          → IsSequential w order s
          → IsSequential w (extend finishes p order) (finish_if op p s)
      finish-IsSequential none e h = h
      finish-IsSequential (some i) e (same, busy, all) = (
        ap (λ v. (op i v).1) same ∙ sym (after-append op order (i ∷ []) w),
        tt,
        put-all (Matches w (order ++ (i ∷ [])) none) i _ s.phases
            (
              times_in-last i order ∙ ap (λ n. n + 1) never,
              result_in-last op i order w never ∙ ap (λ v. some (op i v).0) (sym same),
            )
            (λ j ne.
              done-Matches i j (s.phases j) ne
                (subst (λ q. Matches w order q j (s.phases j)) e (all j))),
      )
        where
          never : times_in i order ≡ 0
          never =
              (subst (Matches w order s.processor i) (subst (λ q. Busy q s.phases) e busy)
                (all i)).0

  step-IsSequential :
      (w : W) (order : List ℕ) (s : Queue A W) (e : Event)
      → IsSequential w order s
      → IsSequential w (extend e s.processor order) (step op e s)
  unfolding step
  step-IsSequential w order s (takes i) h =
      take-IsSequential w order s i s.processor (s.phases i) refl refl h
  step-IsSequential w order s (cancels i x) h =
      cancel-IsSequential w order s i x (s.phases i) refl h
  step-IsSequential w order s finishes h = finish-IsSequential w order s s.processor refl h
  step-IsSequential w order s (sees i) h = see-IsSequential w order s i (s.phases i) refl h

  run_from-IsSequential :
      (es : List Event) (w : W) (order : List ℕ) (s : Queue A W)
      → IsSequential w order s
      → IsSequential w (order_of es s order) (run op es s)
  unfolding run
  run_from-IsSequential [] w order s h = h
  run_from-IsSequential (e ∷ es) w order s h =
      run_from-IsSequential es w (extend e s.processor order) (step op e s)
        (step-IsSequential w order s e h)

  -- However the calls of `Execute`, the end of their contexts and the turns of the processor follow
  -- each other: the bus has done the operations of the calls whose requests were done, one after the
  -- other in that order. A call that has returned was made once, and has what its operation yields at
  -- its place in the order, or was never made and has an error; a call whose request is not done
  -- has not touched the bus, and once its request is taken, that is the one that runs.
  pub run-IsSequential :
      (es : List Event) (w : W)
      → IsSequential w (order_of es (started w) []) (run op es (started w))
  run-IsSequential es w = run_from-IsSequential es w [] (started w) (refl, tt, λ i. refl)
