-- ===== src/Flow/Arguments.antt =====
-- flow/flow.go: the arguments of a command.
use golang_core.Prelude.{
  ◌≡◌, refl, subst, Bool, true, false, List, [], ◌∷◌, Result, ok, err, AllPass, ltb, if◌then◌else◌,
}
use golang_core.Prelude.Exec.{pure, fail, continue}
use golang_core.Flow.{Action, Error, action_args_too_many_options, is_text, count_true}
use golang_core.Flow.Evaluate.{Text, Drivers, has_items, filter_args, chosen_args, get_action_args}

filter_args-AllPass : (args : List Text) → AllPass is_text (filter_args args)
unfolding filter_args
filter_args-AllPass [] = tt
filter_args-AllPass ([] ∷ args) = filter_args-AllPass args
filter_args-AllPass ((c ∷ cs) ∷ args) = (refl, filter_args-AllPass args)

module _ {W V : Type 0} (drivers : Drivers W V) where
  filtered-AllPass :
      (r : Result Error (List Text) × W) (args : List Text)
      → (continue r (λ xs. pure (filter_args xs))).0 ≡ ok args
      → AllPass is_text args
  filtered-AllPass (ok xs, w) args q =
      let e : filter_args xs ≡ args = cc in subst (AllPass is_text) e (filter_args-AllPass xs)
  filtered-AllPass (err e, w) args q = absurd cc

  guarded-AllPass :
      (b : Bool) (action : Action) (w : W) (args : List Text)
      → ((if b
            then fail action_args_too_many_options
            else (λ u. continue (chosen_args drivers action u) (λ xs. pure (filter_args xs))))
          w).0
        ≡ ok args
      → (b ≡ false) × AllPass is_text args
  guarded-AllPass true action w args q = absurd cc
  guarded-AllPass false action w args q =
      (refl, filtered-AllPass (chosen_args drivers action w) args q)

  -- When the arguments of a command are found, at most one of the three ways to give them was used, and none
  -- of them is empty, whatever the templates and the scripts gave.
  pub get_action_args-AllPass :
      (action : Action) (w : W) (args : List Text)
      → (get_action_args drivers action w).0 ≡ ok args
      → (ltb 1 (
            count_true (
              has_items action.args
              ∷ is_text action.args_template
              ∷ is_text action.args_script
              ∷ []))
          ≡ false)
        × AllPass is_text args
  unfolding get_action_args
  get_action_args-AllPass action w args q =
      guarded-AllPass
        (ltb 1 (
          count_true (
            has_items action.args
            ∷ is_text action.args_template
            ∷ is_text action.args_script
            ∷ [])))
        action w args q
