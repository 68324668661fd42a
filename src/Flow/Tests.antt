-- ===== src/Flow/Tests.antt =====
-- Runs of flow/ with runners that count their calls; a script fails.
use golang_core.Prelude.{
  ℕ, suc, pos, ltb, AllPass, ◌≡◌, ◌≢◌, refl, Bool, true, false, Option, none, some, [], ◌∷◌, ◌++◌,
  All, ok, codes, ℕ_discrete, text_discrete,
}
use golang_core.Prelude.Exec.{Exec}
use golang_core.Flow.{
  Action, new_action, new_response, Error, failure, action_failed, Response, Runner, script_runner,
  validate_rounds, validate, action_when, run_action, run_rounds, run_flow, is_text, count_true,
}
use golang_core.Prelude.Dict.{empty}
use golang_core.Flow.Evaluate.{
  Drivers, has_items, eval_template, eval_args, filter_args, get_action_args,
}
use golang_core.Flow.Command.{Env, System}
use golang_core.Flow.Arguments.{get_action_args-AllPass}
use golang_core.Flow.Names.{Distinct, names_of, validate-Distinct}
use golang_core.Flow.Steps.{Outcome, run_flow-Outcome}

abbrev no_condition : Action → Exec ℕ Error Bool
no_condition action w = (ok true, w)

abbrev runner : Runner → Action → ℕ → (Option Response × Option Error) × ℕ
runner script_runner action w = ((none, some (failure 3)), suc w)
runner _ action w = ((some new_response, none), suc w)

abbrev build : Action
build = record (new_action (codes "build")) { command = codes "make" }

abbrev check : Action
check = record (new_action (codes "check")) { script = codes "1" }

accepted : validate (build ∷ check ∷ []) ≡ none
unfolding validate validate_rounds text_discrete ℕ_discrete
accepted = refl

validate-Distinct_example :
    All (λ n. n ≢ []) (names_of (build ∷ check ∷ [])) × Distinct (names_of (build ∷ check ∷ []))
validate-Distinct_example = validate-Distinct (build ∷ check ∷ []) accepted

runs : action_when no_condition runner build 0 ≡ (ok true, 0)
unfolding action_when
runs = refl

run_flow-Outcome_example :
    Outcome no_condition runner
      (build ∷ check ∷ build ∷ [])
      empty
      0
      (run_flow no_condition runner (build ∷ check ∷ build ∷ []) 0)
run_flow-Outcome_example = run_flow-Outcome no_condition runner (build ∷ check ∷ build ∷ []) 0

stops_there :
    (run_flow no_condition runner (build ∷ check ∷ build ∷ []) 0).0.1
    ≡ some (action_failed (codes "check") (failure 3))
unfolding run_flow run_rounds run_action action_when
stops_there = refl

-- No drivers: templates stand for themselves.
abbrev plain_drivers : Drivers ℕ ℕ
plain_drivers = record {
  template_driver = none;
  script_driver = none;
  yaml = record { strings = λ t. ok (t ∷ []); string = λ t. ok t; object = λ t. ok [] };
  trim_space = λ t. t;
  itoa = λ n. [];
}

abbrev with_args : Action
with_args = record (new_action (codes "build")) {
  command = codes "make";
  args = codes "all" ∷ [] ∷ [];
}

get_action_args-AllPass_example :
    (ltb 1 (
        count_true (
          has_items with_args.args
          ∷ is_text with_args.args_template
          ∷ is_text with_args.args_script
          ∷ []))
      ≡ false)
    × AllPass is_text (codes "all" ∷ [])
unfolding get_action_args eval_args eval_template filter_args
get_action_args-AllPass_example =
    get_action_args-AllPass plain_drivers with_args 0 (codes "all" ∷ []) refl

abbrev plain_system : System ℕ
plain_system = record {
  mkdir_all = λ t w. (none, w);
  open_append = λ t w. (none, w);
  close_log = λ t w. w;
  write_file = λ t x w. (none, suc w);
  exec =
      λ c args o w. ((record { exit_code = pos 0; stdout = codes "done"; stderr = [] }, none), w);
  path_join = λ a b. a ++ b;
  logs_dir = none;
  log_file_prefix = none;
}

abbrev no_env : Env
no_env = record { work_dir = []; env = empty }

abbrev printed : Response
printed = record new_response { stdout = codes "done" }
