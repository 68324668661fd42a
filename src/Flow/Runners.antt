-- ===== src/Flow/Runners.antt =====
-- flow/flow.go: the other runners of an action. Triggers, files and goroutines are outside code on the world.
use golang_core.Prelude.{
  ℕ, false, Option, none, some, [], ◌∷◌, Result, ok, err, codes, ltb, if◌then◌else◌,
}
use golang_core.Prelude.Exec.{Exec, pure, fail, ◌>>=◌}
use golang_core.Flow.{
  Action, Trigger, Error, failure, action_trigger_too_many_options, trigger_not_found,
  trigger_failed, Response, new_response, is_text, is_set, count_true, Runner, trigger_runner,
  result_runner, command_runner, script_runner, script_file_runner,
}
use golang_core.Flow.Evaluate.{
  Text, Drivers, starts_with, failed, action_dot, eval_template, eval_script, converted,
}
use golang_core.Flow.Command.{Env, System, run_action_command}

-- `TriggerFunc` from the payload to the map that it returns, and its JSON text.
pub record Triggers (W : Type 0) : Type 0 where
  pub find : Text → Option (Text → W → Result ℕ Text × W)
  pub spawn : (W → Result ℕ Text × W) → W → W
  pub marshal : Text → Result ℕ Text

-- Files by a handle: those of the system, and those of the storage.
pub record Files (W : Type 0) : Type 0 where
  pub open_file : Text → W → Result ℕ ℕ × W
  pub read_storage : Text → W → Result ℕ ℕ × W
  pub read_all : ℕ → W → Result ℕ Text × W
  pub close_file : ℕ → W → W
  pub base : Text → Text

-- The world and the data of the flow's result.
pub record Run (W : Type 0) : Type 0 where
  pub payload : Option Text
  pub world : W

abbrev pub foreign : {W A : Type 0} → (W → Result ℕ A × W) → Exec W Error A
foreign f w = let (r, u) = f w in (failed r, u)

module _ {W V : Type 0} (system : System W) (drivers : Drivers W V) (triggers : Triggers W)
    (files : Files W) (env : Env) where
  abbrev pub with_result : Text → Response
  with_result t = record new_response { result = t }

  abbrev pub payload_of : Action → Text → Text → Exec W Error Text
  payload_of action name script =
      eval_script drivers (action_dot drivers action name) script >>= λ v.
      converted drivers (λ d. d.value_to_payload) v

  -- `runActionResult`: the response, and the data that it sets.
  unfoldable pub run_action_result : Action → Text → Exec W Error (Option Text)
  run_action_result action script =
      if is_text script
      then (payload_of action (codes "result.data_script") script >>= λ t. pure (some t))
      else pure none

  abbrev pub trigger_payload : Action → Trigger → Exec W Error Text
  trigger_payload action trigger = elim trigger.payload [
    | some t ↦ pure t
    | none ↦
        if is_text trigger.payload_script
        then payload_of action (codes "trigger.data_script") trigger.payload_script
        else pure (codes "{}")
  ]

  abbrev pub trigger_result : Result ℕ Text → Result Error Response
  trigger_result (err n) = err trigger_failed
  trigger_result (ok t) = elim (triggers.marshal t) [
    | ok m ↦ ok (with_result m)
    | err n ↦ err (failure n)
  ]

  abbrev pub call_trigger : Trigger → (Text → W → Result ℕ Text × W) → Text → Exec W Error Response
  call_trigger trigger f t w =
      if trigger.is_async
      then (ok new_response, triggers.spawn (f t) w)
      else let (r, u) = f t w in (trigger_result r, u)

  unfoldable pub run_action_trigger : Action → Trigger → Exec W Error Response
  run_action_trigger action trigger =
      if ltb 1 (count_true (is_set trigger.payload ∷ is_text trigger.payload_script ∷ []))
      then fail action_trigger_too_many_options
      else elim (triggers.find trigger.name) [
        | none ↦ fail trigger_not_found
        | some f ↦ trigger_payload action trigger >>= λ t. call_trigger trigger f t
      ]

  unfoldable pub run_action_script_code : Text → Text → Exec W Error Response
  run_action_script_code name code = eval_script drivers name code >>= λ v.
      converted drivers (λ d. d.value_to_string) v >>= λ t. pure (with_result t)

  unfoldable pub run_action_script : Action → Exec W Error Response
  unfolding run_action_script_code
  run_action_script action =
      run_action_script_code (action_dot drivers action (codes "script")) action.script

  abbrev pub opened : Text → Exec W Error ℕ
  opened file =
      if starts_with 47 file
      then foreign (files.open_file file)
      else foreign (files.read_storage (system.path_join env.work_dir file))

  abbrev pub closing : {A : Type 0} → ℕ → Exec W Error A → Exec W Error A
  closing handle m w = let (r, u) = m w in (r, files.close_file handle u)

  unfoldable pub run_action_script_file : Action → Exec W Error Response
  unfolding run_action_script_code
  run_action_script_file action =
      eval_template drivers (action_dot drivers action (codes "script_filename")) action.script_file
      >>= λ file. opened file >>= λ handle. closing handle (
          foreign (files.read_all handle) >>= λ code. run_action_script_code (files.base file) code)

  abbrev pub answered :
      Option Text → Result Error Response × W → (Option Response × Option Error) × Run W
  answered payload (ok r, w) = ((some r, none), record { payload = payload; world = w })
  answered payload (err e, w) = ((none, some e), record { payload = payload; world = w })

  abbrev pub result_answered :
      Option Text → Result Error (Option Text) × W → (Option Response × Option Error) × Run W
  result_answered payload (ok none, w) = answered payload (ok new_response, w)
  result_answered payload (ok (some t), w) = answered (some t) (ok new_response, w)
  result_answered payload (err e, w) = answered payload (err e, w)

  abbrev pub command_answered :
      Option Text
      → Result Error (Response × Option Error) × W
      → (Option Response × Option Error) × Run W
  command_answered payload (ok (r, e), w) = ((some r, e), record { payload = payload; world = w })
  command_answered payload (err e, w) = answered payload (err e, w)

  abbrev or_new : Option Trigger → Trigger
  or_new (some t) = t
  or_new none = record { name = []; payload = none; payload_script = []; is_async = false }

  abbrev or_no_script : Option Text → Text
  or_no_script (some t) = t
  or_no_script none = []

  -- The runner that `runAction` chooses; it takes the trigger or the result that is there.
  unfoldable pub run_runner : Runner → Action → Run W → (Option Response × Option Error) × Run W
  unfolding run_action_result run_action_trigger run_action_script run_action_script_file
  run_runner trigger_runner action s =
      answered s.payload (run_action_trigger action (or_new action.trigger) s.world)
  run_runner result_runner action s =
      result_answered s.payload (run_action_result action (or_no_script action.result) s.world)
  run_runner command_runner action s =
      command_answered s.payload (run_action_command system drivers env action s.world)
  run_runner script_runner action s = answered s.payload (run_action_script action s.world)
  run_runner script_file_runner action s =
      answered s.payload (run_action_script_file action s.world)
