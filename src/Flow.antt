-- ===== src/Flow.antt =====
-- flow/flow.go: a flow runs its actions one after another. Scripts, templates and triggers are outside
-- code, which changes a world in `W`; an error of theirs is a number. Here the runner of one action is an
-- argument, about which nothing is assumed; Flow.Runners has that of the code.
pub mod Names
pub mod Steps
pub mod Evaluate
pub mod Command
pub mod Runners
pub mod Arguments
pub mod Success
mod Tests
use golang_core.Prelude.{
  ℕ, ℤ, pos, zero, suc, ◌+◌, Bool, true, false, Option, none, some, List, [], ◌∷◌, ◌++◌, Result, ok,
  err, codes, ite, ltb, leb, if◌then◌else◌, text_discrete,
}
use golang_core.Prelude.Exec.{Exec, continue}
use golang_core.Prelude.Dict
use golang_core.Prelude.Dict.{Dict}

-- `ActionTrigger`; its data is a map of any values, which is here the text of the JSON object.
pub record Trigger : Type 0 where
  pub name : List ℕ
  pub payload : Option (List ℕ)
  pub payload_script : List ℕ
  pub is_async : Bool

-- `Action`; of a result only its script is there.
pub record Action : Type 0 where
  pub name : List ℕ
  pub trigger : Option Trigger
  pub result : Option (List ℕ)
  pub command : List ℕ
  pub work_dir : List ℕ
  pub env : Dict (List ℕ) (List ℕ)
  pub env_template : List ℕ
  pub env_script : List ℕ
  pub args : List (List ℕ)
  pub args_template : List ℕ
  pub args_script : List ℕ
  pub fail_if_non_zero_code : Option Bool
  pub stdout : List ℕ
  pub stderr : List ℕ
  pub script : List ℕ
  pub script_file : List ℕ
  pub when_script : List ℕ

-- `NewAction`
abbrev pub new_action : List ℕ → Action
new_action name = record {
  name = name;
  trigger = none;
  result = none;
  command = [];
  work_dir = [];
  env = Dict.empty;
  env_template = [];
  env_script = [];
  args = [];
  args_template = [];
  args_script = [];
  fail_if_non_zero_code = none;
  stdout = [];
  stderr = [];
  script = [];
  script_file = [];
  when_script = [];
}

pub data Error : Type 0 where
  action_no_name : ℕ → Error
  action_duplicate_name : List ℕ → ℕ → Error
  action_no_options action_too_many_options no_script_driver not_implemented : Error
  action_trigger_too_many_options action_env_too_many_options action_args_too_many_options : Error
  trigger_not_found trigger_failed command_failed unmarshal_result_object as_map_string_string :
      Error
  when_failed : Error → Error
  action_failed : List ℕ → Error → Error
  failure : ℕ → Error

pub record Response : Type 0 where
  pub skipped : Bool
  pub result : List ℕ
  pub exit_code : ℤ
  pub stdout : List ℕ
  pub stderr : List ℕ

-- `NewActionResponse`
abbrev pub new_response : Response
new_response = record { skipped = false; result = []; exit_code = pos 0; stdout = []; stderr = [] }

abbrev has_name : List ℕ → List (List ℕ) → Bool
has_name n [] = false
has_name n (m ∷ ms) = ite (text_discrete n m) true (has_name n ms)

-- The loop of `Validate`; the names so far stand in `names`.
unfoldable pub validate_rounds : ℕ → List (List ℕ) → List Action → Option Error
validate_rounds index names [] = none
validate_rounds index names (action ∷ actions) =
    let rest = validate_rounds (suc index) (action.name ∷ names) actions in
    ite (text_discrete action.name []) (some (action_no_name index))
      (if has_name action.name names then some (action_duplicate_name action.name index) else rest)

unfoldable pub validate : List Action → Option Error
unfolding validate_rounds
validate actions = validate_rounds 0 [] actions

pub data Runner : Type 0 where
  trigger_runner result_runner command_runner script_runner script_file_runner : Runner

abbrev pub is_text : List ℕ → Bool
is_text [] = false
is_text (c ∷ cs) = true

-- `util.SliceSum` with `boolInc`
abbrev pub count_true : List Bool → ℕ
count_true [] = 0
count_true (true ∷ bs) = suc (count_true bs)
count_true (false ∷ bs) = count_true bs

abbrev pub is_set : {A : Type 0} → Option A → Bool
is_set none = false
is_set (some a) = true

abbrev pub options_of : Action → List Bool
options_of action =
    is_set action.trigger
    ∷ is_set action.result
    ∷ is_text action.command
    ∷ is_text action.script
    ∷ is_text action.script_file
    ∷ []

-- The first runner whose option is set, as in the switch of `runAction`.
abbrev pub choose : List Bool → Option Runner
choose (true ∷ bs) = some trigger_runner
choose (false ∷ true ∷ bs) = some result_runner
choose (false ∷ false ∷ true ∷ bs) = some command_runner
choose (false ∷ false ∷ false ∷ true ∷ bs) = some script_runner
choose (false ∷ false ∷ false ∷ false ∷ true ∷ bs) = some script_file_runner
choose _ = none

module _ {W : Type 0} (evaluate_when : Action → Exec W Error Bool)
    (run : Runner → Action → W → (Option Response × Option Error) × W) where
  -- `actionWhen`: an action without a condition runs.
  unfoldable pub action_when : Action → Exec W Error Bool
  action_when action w = if is_text action.when_script then evaluate_when action w else (ok true, w)

  abbrev run_chosen : Option Runner → Action → W → (Option Response × Option Error) × W
  run_chosen none action w = ((none, some not_implemented), w)
  run_chosen (some runner) action w = run runner action w

  abbrev when_decided : Result Error Bool → Action → W → (Option Response × Option Error) × W
  when_decided (err e) action w = ((none, some (when_failed e)), w)
  when_decided (ok false) action w = ((some (record new_response { skipped = true }), none), w)
  when_decided (ok true) action w = run_chosen (choose (options_of action)) action w

  unfoldable pub run_action : Action → W → (Option Response × Option Error) × W
  unfolding action_when
  run_action action w =
      let sum = count_true (options_of action) in
      if leb sum 0
      then ((none, some action_no_options), w)
      else if ltb 1 sum
      then ((none, some action_too_many_options), w)
      else let (decided, w1) = action_when action w in when_decided decided action w1

  abbrev Responses : Type 0
  Responses = Dict (List ℕ) Response

  -- `result.ActionsResponses[action.Name] = response`; the times in it are left out.
  abbrev keep_response : Responses → Action → Option Response → Responses
  keep_response responses action none = responses
  keep_response responses action (some response) =
      Dict.put text_discrete responses action.name response

  -- The loop of `Run`. A runner that gives no response gives an error with it, as all of the code's do;
  -- without either, the code would panic, where this keeps no response.
  unfoldable pub run_rounds : List Action → Responses → W → (Responses × Option Error) × W
  run_rounds [] responses w = ((responses, none), w)
  run_rounds (action ∷ actions) responses w =
      let ((response, failed), w1) = run_action action w in
      let responses' = keep_response responses action response in
      let rest = run_rounds actions responses' w1 in
      elim failed [ some e ↦ ((responses', some (action_failed action.name e)), w1) | none ↦ rest ]

  unfoldable pub run_flow : List Action → W → (Responses × Option Error) × W
  unfolding run_rounds
  run_flow actions w = run_rounds actions Dict.empty w
