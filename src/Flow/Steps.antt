-- ===== src/Flow/Steps.antt =====
-- flow/flow.go: what `runAction` and `Run` do.
use golang_core.Prelude.{
  ◌≡◌, ◌≢◌, refl, sym, ap, subst, ◌⊎◌, ◌∙◌, Bool, true, false, Option, none, some, List, [], ◌∷◌,
  ◌++◌, ok, arith, Option-cases, inl, inr,
}
use golang_core.Prelude.Exec.{Exec}
use golang_core.Prelude.Dict.{empty}
use golang_core.Flow.{
  Action, Error, Response, Runner, action_failed, count_true, options_of, choose, action_when,
  run_action, run_rounds, run_flow, keep_response, Responses,
}

choose_one :
    (bs : Bool) (cs : Bool) (ds : Bool) (es : Bool) (fs : Bool)
    → count_true (bs ∷ cs ∷ ds ∷ es ∷ fs ∷ []) ≡ 1
    → (r : Runner) × (choose (bs ∷ cs ∷ ds ∷ es ∷ fs ∷ []) ≡ some r)
choose_one true c d e f h = (_, refl)
choose_one false true d e f h = (_, refl)
choose_one false false true e f h = (_, refl)
choose_one false false false true f h = (_, refl)
choose_one false false false false true h = (_, refl)
choose_one false false false false false h = absurd (omega (arith, h))

empty_split : (xs : List Action) (x : Action) (ys : List Action) → [] ≢ xs ++ x ∷ ys
empty_split [] x ys = λ e. absurd cc
empty_split (z ∷ xs) x ys = λ e. absurd cc

module _ {W : Type 0} (evaluate_when : Action → Exec W Error Bool)
    (run : Runner → Action → W → (Option Response × Option Error) × W) where
  -- An action with exactly one option, whose condition is true, is run by the runner of the switch's
  -- case, on the world after the condition.
  pub run_action-run :
      (action : Action) (w w1 : W)
      → count_true (options_of action) ≡ 1
      → action_when evaluate_when run action w ≡ (ok true, w1)
      → (r : Runner) × (choose (options_of action) ≡ some r)
        × (run_action evaluate_when run action w ≡ run r action w1)
  unfolding run_action
  run_action-run action w w1 h k = let (r, q) = choose_one _ _ _ _ _ h in (r, q, rw (h, k, q) refl)

  abbrev rounds :
      List Action
      → Responses evaluate_when run
      → W
      → (Responses evaluate_when run × Option Error) × W
  rounds actions responses w = run_rounds evaluate_when run actions responses w

  rounds_done :
      (x : Action) (xs : List Action) (responses : Responses evaluate_when run) (w : W)
      → (run_action evaluate_when run x w).0.1 ≡ none
      → rounds (x ∷ xs) responses w
        ≡ rounds xs
            (keep_response evaluate_when run responses x (run_action evaluate_when run x w).0.0)
            (run_action evaluate_when run x w).1
  unfolding run_rounds
  rounds_done x xs responses w q = rw (q, run_rounds) refl

  rounds_failed :
      (x : Action) (xs : List Action) (responses : Responses evaluate_when run) (w : W) (e : Error)
      → (run_action evaluate_when run x w).0.1 ≡ some e
      → rounds (x ∷ xs) responses w ≡ (
        (
          keep_response evaluate_when run responses x (run_action evaluate_when run x w).0.0,
          some (action_failed x.name e),
        ),
        (run_action evaluate_when run x w).1,
      )
  unfolding run_rounds
  rounds_failed x xs responses w e q = rw (q, run_rounds) refl

  -- The first action that failed, `x`: the run of the actions before it had no error, and nothing ran after it.
  abbrev Stopped :
      List Action
      → Responses evaluate_when run
      → W
      → (Responses evaluate_when run × Option Error) × W
      → Type 0
  Stopped actions responses w out =
      (xs : List Action) × (x : Action) × (ys : List Action) × (responses1 : Responses evaluate_when
        run)
      × (w1 : W) × (response : Option Response) × (e : Error) × (w2 : W) × (actions ≡ xs ++ x ∷ ys)
      × (rounds xs responses w ≡ ((responses1, none), w1))
      × (run_action evaluate_when run x w1 ≡ ((response, some e), w2))
      × (out ≡ (
        (keep_response evaluate_when run responses1 x response, some (action_failed x.name e)),
        w2,
      ))

  -- Each action succeeds in the world that the run of those before it leaves.
  abbrev Finished : List Action → Responses evaluate_when run → W → Type 0
  Finished actions responses w =
      (xs : List Action) (x : Action) (ys : List Action)
      → actions ≡ xs ++ x ∷ ys
      → (run_action evaluate_when run x (rounds xs responses w).1).0.1 ≡ none

  abbrev pub Outcome :
      List Action
      → Responses evaluate_when run
      → W
      → (Responses evaluate_when run × Option Error) × W
      → Type 0
  Outcome actions responses w out =
      ((out.0.1 ≡ none) × Finished actions responses w) ⊎ Stopped actions responses w out

  Finished-more :
      (y : Action) (actions : List Action) (responses : Responses evaluate_when run) (w : W)
      → (run_action evaluate_when run y w).0.1 ≡ none
      → Finished actions
          (keep_response evaluate_when run responses y (run_action evaluate_when run y w).0.0)
          (run_action evaluate_when run y w).1
      → (xs : List Action) (x : Action) (ys : List Action) → y ∷ actions ≡ xs ++ x ∷ ys
      → (run_action evaluate_when run x (rounds xs responses w).1).0.1 ≡ none
  unfolding run_rounds
  Finished-more y actions responses w q h [] x ys e =
      let same : y ≡ x = cc in subst (λ z. (run_action evaluate_when run z w).0.1 ≡ none) same q
  Finished-more y actions responses w q h (z ∷ xs) x ys e =
      let same : y ≡ z = cc in
      let rest : actions ≡ xs ++ x ∷ ys = cc in
      subst (λ z. (run_action evaluate_when run x (rounds (z ∷ xs) responses w).1).0.1 ≡ none) same
        (subst (λ r. (run_action evaluate_when run x r.1).0.1 ≡ none)
          (sym (rounds_done y xs responses w q)) (h xs x ys rest))

  Outcome-more :
      (y : Action) (actions : List Action) (responses : Responses evaluate_when run) (w : W)
      → (run_action evaluate_when run y w).0.1 ≡ none
      → (out : (Responses evaluate_when run × Option Error) × W)
      → Outcome actions
          (keep_response evaluate_when run responses y (run_action evaluate_when run y w).0.0)
          (run_action evaluate_when run y w).1
          out
      → Outcome (y ∷ actions) responses w out
  Outcome-more y actions responses w q out (inl (n, f)) =
      inl (n, Finished-more y actions responses w q f)
  Outcome-more y actions responses w q out
        (inr (xs, x, ys, r1, w1, response, e, w2, split, before, fails, end)) =
      inr (
        y ∷ xs,
        x,
        ys,
        r1,
        w1,
        response,
        e,
        w2,
        ap (λ zs. y ∷ zs) split,
        rounds_done y xs responses w q ∙ before,
        fails,
        end,
      )

  rounds-Outcome :
      (actions : List Action) (responses : Responses evaluate_when run) (w : W)
      → Outcome actions responses w (rounds actions responses w)
  unfolding run_rounds
  rounds-Outcome [] responses w = inl (refl, λ xs x ys e. absurd (empty_split xs x ys e))
  rounds-Outcome (y ∷ actions) responses w =
      elim (Option-cases (run_action evaluate_when run y w).0.1) [
        | inl q ↦
            subst (Outcome (y ∷ actions) responses w) (sym (rounds_done y actions responses w q))
              (Outcome-more y actions responses w q _ (rounds-Outcome actions _ _))
        | inr (e, q) ↦
            let (answer, w2) = run_action evaluate_when run y w in
            inr (
              [],
              y,
              actions,
              responses,
              w,
              answer.0,
              e,
              w2,
              refl,
              refl,
              ap (λ x. ((answer.0, x), w2)) q,
              rounds_failed y actions responses w e q,
            )
      ]

  -- How a run of a flow ends. Either it returns no error, and then each action succeeded in the world that
  -- the run of the actions before it leaves; or an action is the first that fails: the run of the actions
  -- before it had no error, the run returns the error with the action's name, and neither the world nor the
  -- responses change after that action.
  pub run_flow-Outcome :
      (actions : List Action) (w : W)
      → Outcome actions empty w (run_flow evaluate_when run actions w)
  unfolding run_flow
  run_flow-Outcome actions w = rounds-Outcome actions empty w
