-- ===== src/Flow/Evaluate.antt =====
-- flow/flow.go: templates and scripts, and the arguments and the environment of a command. The drivers, the
-- yaml parser, strings.TrimSpace and strconv.Itoa are outside code: functions on a world `W`, with errors as numbers.
use golang_core.Prelude.{
  ℕ, suc, Bool, true, false, Option, none, some, List, [], ◌∷◌, ◌++◌, Result, ok, err, codes, ltb,
  ◌==◌, if◌then◌else◌, text_discrete,
}
use golang_core.Prelude.Exec.{Exec, pure, fail, ◌>>=◌}
use golang_core.Prelude.Dict
use golang_core.Prelude.Dict.{Dict}
use golang_core.Flow.{
  Action, Error, no_script_driver, failure, action_env_too_many_options,
  action_args_too_many_options, unmarshal_result_object, as_map_string_string, is_text, count_true,
}

abbrev pub Text : Type 0
Text = List ℕ

abbrev pub TextMap : Type 0
TextMap = Dict Text Text

-- `ScriptDriver`, with the values of the scripts in `V`.
pub record ScriptDriver (W V : Type 0) : Type 0 where
  pub execute : Text → Text → W → Result ℕ V × W
  pub value_to_string : V → Result ℕ Text
  pub value_to_bool : V → Result ℕ Bool
  pub value_to_string_slice : V → Result ℕ (List Text)
  pub value_to_map_string_string : V → Result ℕ TextMap
  pub value_to_payload : V → Result ℕ Text

-- What the yaml parser makes of a text that stands for a list, for a string and for an object. A value of
-- the object that is no string is none.
pub record Yaml : Type 0 where
  pub strings : Text → Result ℕ (List Text)
  pub string : Text → Result ℕ Text
  pub object : Text → Result ℕ (List (Text × Option Text))

pub record Drivers (W V : Type 0) : Type 0 where
  pub template_driver : Option (Text → Text → W → Result ℕ Text × W)
  pub script_driver : Option (ScriptDriver W V)
  pub yaml : Yaml
  pub trim_space : Text → Text
  pub itoa : ℕ → Text

abbrev pub failed : {A : Type 0} → Result ℕ A → Result Error A
failed (ok a) = ok a
failed (err n) = err (failure n)

abbrev pub starts_with : ℕ → Text → Bool
starts_with c [] = false
starts_with c (x ∷ xs) = x == c

abbrev pub lifted : {W A : Type 0} → Result Error A → Exec W Error A
lifted (ok a) = pure a
lifted (err e) = fail e

-- `len(l) > 0`
abbrev pub has_items : {A : Type 0} → List A → Bool
has_items [] = false
has_items (x ∷ xs) = true

-- The arguments of a command without the empty ones.
unfoldable pub filter_args : List Text → List Text
filter_args [] = []
filter_args (arg ∷ args) = let rest = filter_args args in if is_text arg then arg ∷ rest else rest

-- `asMapStringString`, from the entries in the order in which Go goes through the map.
unfoldable pub as_string_map : List (Text × Option Text) → TextMap → Result Error TextMap
as_string_map [] m = ok m
as_string_map ((k, none) ∷ rest) m = err as_map_string_string
as_string_map ((k, some v) ∷ rest) m = as_string_map rest (Dict.put text_discrete m k v)

module _ {W V : Type 0} (drivers : Drivers W V) where
  unfoldable pub eval_template : Text → Text → Exec W Error Text
  eval_template name source w = elim drivers.template_driver [
    | none ↦ (ok source, w)
    | some execute ↦ let (r, u) = execute name source w in (failed r, u)
  ]

  unfoldable pub eval_script : Text → Text → Exec W Error V
  eval_script name source w = elim drivers.script_driver [
    | none ↦ (err no_script_driver, w)
    | some driver ↦ let (r, u) = driver.execute name source w in (failed r, u)
  ]

  -- A method of the script driver on a value that it gave.
  abbrev pub converted : {A : Type 0} → (ScriptDriver W V → V → Result ℕ A) → V → Exec W Error A
  converted method v w = elim drivers.script_driver [
    | none ↦ (err no_script_driver, w)
    | some driver ↦ (failed (method driver v), w)
  ]

  abbrev pub one_string : Result ℕ Text → Result Error (List Text)
  one_string (ok t) = ok (t ∷ [])
  one_string (err n) = err (failure n)

  -- The text is already trimmed.
  abbrev pub strings_of : Text → Result Error (List Text)
  strings_of t =
      if starts_with 91 t
      then failed (drivers.yaml.strings t)
      else if starts_with 34 t
      then one_string (drivers.yaml.string t)
      else ok (t ∷ [])

  unfoldable pub unmarshal_template_result_slice : Text → Result Error (List Text)
  unmarshal_template_result_slice t = strings_of (drivers.trim_space t)

  abbrev pub object_of : Text → Result Error (List (Text × Option Text))
  object_of t =
      if starts_with 123 t then failed (drivers.yaml.object t) else err unmarshal_result_object

  unfoldable pub unmarshal_template_result_object : Text → Result Error (List (Text × Option Text))
  unmarshal_template_result_object t = object_of (drivers.trim_space t)

  abbrev pub action_dot : Action → Text → Text
  action_dot action suffix = codes "action." ++ action.name ++ codes "." ++ suffix

  unfoldable pub eval_args : Action → ℕ → List Text → Exec W Error (List Text)
  unfolding eval_template
  eval_args action index [] = pure []
  eval_args action index (arg ∷ args) =
      eval_template (action_dot action (drivers.itoa index)) arg >>= λ text.
      eval_args action (suc index) args >>= λ rest. pure (drivers.trim_space text ∷ rest)

  abbrev pub chosen_args : Action → Exec W Error (List Text)
  chosen_args action =
      if has_items action.args
      then eval_args action 0 action.args
      else if is_text action.args_template
      then (eval_template (action_dot action (codes "args_template")) action.args_template
          >>= λ text. lifted (unmarshal_template_result_slice text))
      else if is_text action.args_script
      then (eval_script (action_dot action (codes "args_script")) action.args_script >>= λ v.
          converted (λ d. d.value_to_string_slice) v)
      else pure []

  unfoldable pub get_action_args : Action → Exec W Error (List Text)
  unfolding eval_args eval_script unmarshal_template_result_slice filter_args
  get_action_args action =
      if ltb 1 (
        count_true
          (has_items action.args ∷ is_text action.args_template ∷ is_text action.args_script ∷ []))
      then fail action_args_too_many_options
      else chosen_args action >>= λ args. pure (filter_args args)

  unfoldable pub eval_env : Action → List (Text × Text) → TextMap → Exec W Error TextMap
  unfolding eval_template
  eval_env action [] m = pure m
  eval_env action ((k, v) ∷ rest) m = eval_template (action_dot action k) v >>= λ text.
      eval_env action rest (Dict.put text_discrete m k text)

  abbrev pub chosen_env : Action → Exec W Error TextMap
  chosen_env action =
      if has_items action.env.entries
      then eval_env action action.env.entries Dict.empty
      else if is_text action.env_template
      then (eval_template (action_dot action (codes "env_template")) action.env_template >>= λ text.
          lifted (unmarshal_template_result_object text) >>= λ entries.
          lifted (as_string_map entries Dict.empty))
      else if is_text action.env_script
      then (eval_script (action_dot action (codes "env_script")) action.env_script >>= λ v.
          converted (λ d. d.value_to_map_string_string) v)
      else pure Dict.empty

  unfoldable pub get_action_env : Action → Exec W Error TextMap
  unfolding eval_env eval_script unmarshal_template_result_object as_string_map
  get_action_env action =
      if ltb 1 (
        count_true (
          has_items action.env.entries
          ∷ is_text action.env_template
          ∷ is_text action.env_script
          ∷ []))
      then fail action_env_too_many_options
      else chosen_env action
