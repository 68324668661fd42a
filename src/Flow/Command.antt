-- ===== src/Flow/Command.antt =====
-- flow/flow.go: `runActionCommand`. The operating system, the command line and the joining of paths are
-- outside code on the world `W`.
use golang_core.Prelude.{
  ℕ, zero, suc, ℤ, pos, negsuc, Bool, true, false, not, ◌&&◌, ◌||◌, Option, none, some, List, [],
  ◌∷◌, ◌++◌, ok, err, codes, if◌then◌else◌, text_discrete,
}
use golang_core.Prelude.Exec.{Exec, pure, ◌>>=◌, ◌>>◌}
use golang_core.Prelude.Dict
use golang_core.Prelude.Dict.{Dict}
use golang_core.Flow.{Action, Error, failure, command_failed, Response, new_response, is_text}
use golang_core.Flow.Evaluate.{
  Text, TextMap, Drivers, starts_with, has_items, action_dot, eval_template, get_action_args,
  get_action_env,
}

-- `Env`, of which this reads the directory and the variables.
pub record Env : Type 0 where
  pub work_dir : Text
  pub env : TextMap

pub record CmdResult : Type 0 where
  pub exit_code : ℤ
  pub stdout : Text
  pub stderr : Text

-- What a command is run with: its directory, its variables and the names of its log files.
pub record CliOptions : Type 0 where
  pub work_dir : Option Text
  pub envs : Option TextMap
  pub logs : Option (Text × Text)

pub record System (W : Type 0) : Type 0 where
  pub mkdir_all : Text → W → Option ℕ × W
  pub open_append : Text → W → Option ℕ × W
  pub close_log : Text → W → W
  pub write_file : Text → Text → W → Option ℕ × W
  pub exec : Text → List Text → CliOptions → W → (CmdResult × Option ℕ) × W
  pub path_join : Text → Text → Text
  pub logs_dir : Option Text
  pub log_file_prefix : Option Text

abbrev pub or_empty : Option Text → Text
or_empty none = []
or_empty (some t) = t

-- `maps.Copy(m, from)`
unfoldable pub copy_map : TextMap → List (Text × Text) → TextMap
copy_map m [] = m
copy_map m ((k, v) ∷ rest) = copy_map (Dict.put text_discrete m k v) rest

unfoldable pub merged_env : TextMap → TextMap → TextMap
unfolding copy_map
merged_env flow_env action_env = copy_map (copy_map Dict.empty flow_env.entries) action_env.entries

abbrev pub env_option : TextMap → TextMap → Option TextMap
env_option flow_env action_env =
    if has_items action_env.entries || has_items flow_env.entries
    then some (merged_env flow_env action_env)
    else none

abbrev pub is_zero_code : ℤ → Bool
is_zero_code (pos zero) = true
is_zero_code (pos (suc n)) = false
is_zero_code (negsuc n) = false

abbrev pub is_minus_one : ℤ → Bool
is_minus_one (negsuc zero) = true
is_minus_one (negsuc (suc n)) = false
is_minus_one (pos n) = false

abbrev pub or_true : Option Bool → Bool
or_true none = true
or_true (some b) = b

abbrev pub is_error : Option ℕ → Bool
is_error none = false
is_error (some n) = true

-- A call whose only result is an error.
abbrev pub checked : {W : Type 0} → (W → Option ℕ × W) → Exec W Error (Unit {0})
checked f w = let (e, u) = f w in (elim e [ none ↦ ok tt | some n ↦ err (failure n) ], u)

module _ {W V : Type 0} (system : System W) (drivers : Drivers W V) (env : Env) where
  abbrev pub eval_if : Text → Text → Exec W Error Text
  eval_if name source = if is_text source then eval_template drivers name source else pure []

  abbrev pub dir_of : Text → Text
  dir_of dir = if is_text dir then dir else env.work_dir

  abbrev pub under : Text → Text → Text
  under dir file =
      if is_text file && not (starts_with 47 file) then system.path_join dir file else file

  -- The names of the files that take what the command prints, with the directories made before.
  unfoldable pub open_logs : Action → Exec W Error (Option (Text × Text))
  open_logs action = elim system.logs_dir [
    | none ↦ pure none
    | some dir ↦
        let base = or_empty system.log_file_prefix ++ action.name in
        let out = system.path_join dir (base ++ codes ".stdout.log") in
        let errors = system.path_join dir (base ++ codes ".stderr.log") in
        checked (system.mkdir_all dir) >> checked (system.open_append out) >> (λ w.
          let (e, u) = system.open_append errors w in
          elim e [
            | none ↦ (ok (some (out, errors)), u)
            | some n ↦ (err (failure n), system.close_log out u)
          ])
  ]

  abbrev pub close_logs : Option (Text × Text) → W → W
  close_logs none w = w
  close_logs (some (out, errors)) w = system.close_log out (system.close_log errors w)

  -- The write of what was printed into a file of its own, if one is named: the response does not keep it.
  abbrev pub write_out : Text → Text → W → Option ℕ × W
  write_out file text w = if is_text file then system.write_file file text w else (none, w)

  abbrev pub kept : Text → Text → Text
  kept file text = if is_text file then [] else text

  abbrev pub code_error : Bool → ℤ → Option Error
  code_error fail_if_non_zero code =
      if fail_if_non_zero && not (is_zero_code code) then some command_failed else none

  -- What comes after the command.
  unfoldable pub command_done :
      Action → Text → Text → CmdResult × Option ℕ → W → (Response × Option Error) × W
  command_done action out errors (r, e) w =
      let response = record new_response {
        exit_code = r.exit_code;
        stdout = r.stdout;
        stderr = r.stderr;
      } in
      let response1 = record response { stdout = kept out r.stdout } in
      let response2 = record response1 { stderr = kept errors r.stderr } in
      let (e1, w1) = write_out out r.stdout w in
      let (e2, w2) = write_out errors r.stderr w1 in
      if is_error e && is_minus_one r.exit_code
      then ((response, some command_failed), w)
      else elim e1 [
        | some n ↦ ((response1, some (failure n)), w1)
        | none ↦ elim e2 [
          | some n ↦ ((response2, some (failure n)), w2)
          | none ↦ ((response2, code_error (or_true action.fail_if_non_zero_code) r.exit_code), w2)
        ]
      ]

  abbrev pub run_with :
      Action → Text → List Text → CliOptions → Text → Text → W → (Response × Option Error) × W
  run_with action command args options out errors w =
      let (done, w1) = system.exec command args options w in
      let (answer, w2) = command_done action out errors done w1 in
      (answer, close_logs options.logs w2)

  unfoldable pub run_action_command : Action → Exec W Error (Response × Option Error)
  unfolding open_logs command_done
  run_action_command action =
      eval_if (action_dot drivers action (codes "command")) action.command >>= λ command.
      eval_if (action_dot drivers action (codes "work_dir")) action.work_dir >>= λ own_dir.
      let dir = dir_of own_dir in
      (if is_text dir then checked (system.mkdir_all dir) else pure tt) >>= λ _.
      eval_if (action_dot drivers action (codes "stdout")) action.stdout >>= λ out.
      eval_if (action_dot drivers action (codes "stderr")) action.stderr >>= λ errors.
      get_action_args drivers action >>= λ args. get_action_env drivers action >>= λ envs.
      open_logs action >>= λ logs w.
      let options : CliOptions = record {
        work_dir = if is_text dir then some dir else none;
        envs = env_option env.env envs;
        logs = logs;
      } in
      let (answer, u) = run_with action command args options (under dir out) (under dir errors) w in
      (ok answer, u)
