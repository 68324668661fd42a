-- ===== src/Flow/Success.antt =====
-- flow/flow.go: what it means that a command is done without an error.
use golang_core.Prelude.{
  ℕ, ◌≡◌, ◌⊎◌, Bool, true, false, ◌&&◌, Option, none, some, List, ok, AllPass, if◌then◌else◌,
}
use golang_core.Flow.{Action, Error, failure, command_failed, Response, new_response, is_text}
use golang_core.Flow.Evaluate.{Text, Drivers, get_action_args}
use golang_core.Flow.Command.{
  Env, System, CmdResult, CliOptions, is_zero_code, is_minus_one, is_error, write_out, kept,
  close_logs,
}

module _ {W V : Type 0} (system : System W) (drivers : Drivers W V) (env : Env) where
  -- The command was run, what it printed was written to the files that are named, and its code is in order.
  abbrev pub Done :
      Action → Text → Text → CmdResult × Option ℕ → W → (Response × Option Error) × W → Type 0
  Done action out errors (r, e) w x =
      (is_error e && is_minus_one r.exit_code ≡ false)
      × ((is_zero_code r.exit_code ≡ true) ⊎ (action.fail_if_non_zero_code ≡ some false))
      × (w1 : W) × (w2 : W) × (write_out system drivers env out r.stdout w ≡ (none, w1))
      × (write_out system drivers env errors r.stderr w1 ≡ (none, w2))
      × (x ≡ (
        (
          record new_response {
            exit_code = r.exit_code;
            stdout = kept system drivers env out r.stdout;
            stderr = kept system drivers env errors r.stderr;
          },
          none,
        ),
        w2,
      ))

  -- The guards that come after the command, in the order of the code.
  abbrev guarded :
      Bool
      → Option ℕ
      → Option ℕ
      → Option Error
      → Response
      → Response
      → Response
      → W
      → W
      → W
      → (Response × Option Error) × W
  guarded b e1 e2 failed r0 r1 r2 w w1 w2 = if b then ((r0, some command_failed), w) else elim e1 [
    | some n ↦ ((r1, some (failure n)), w1)
    | none ↦ elim e2 [ some n ↦ ((r2, some (failure n)), w2) | none ↦ ((r2, failed), w2) ]
  ]

  -- A command was run on arguments that were found for the action, and then the logs were closed.
  abbrev pub Ran : Action → (Response × Option Error) × W → Type 0
  Ran action x =
      (command : Text) × (args : List Text) × (options : CliOptions) × (out : Text)
      × (errors : Text) × (done : CmdResult × Option ℕ) × (w1 : W) × (w2 : W) × (w3 : W) × (w4 : W)
      × (w5 : W) × (get_action_args drivers action w1 ≡ (ok args, w2))
      × AllPass is_text args
      × (system.exec command args options w3 ≡ (done, w4))
      × Done action out errors done w4 (x.0, w5)
      × (x.1 ≡ close_logs system drivers env options.logs w5)
