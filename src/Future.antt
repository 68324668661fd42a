-- ===== src/Future.antt =====
-- future/future.go: a promise that is settled by a function which an executor runs, once it gets to it.
pub mod Pending
pub mod Agreement
pub mod Laws
mod Tests
use golang_core.Prelude.{ℕ, ◌≡◌, Bool, true, false, Option, none, some, ok}
use golang_core.Prelude.Exec.{◌>>=◌, pure}
use golang_core.Promise.{World, Op, Error, resolve, reject, add_channel}
use golang_core.Promise.Channels.{update}
use golang_core.Promise.Getter.{Getter, Ready, calling, awaiting, get_step}
use golang_core.Promise.System.{System, init}

-- The error that the function given to the executor returns to it.
pub data RunError (E : Type 0) : Type 0 where
  future_reject : Error E → Error E → RunError E
  future_resolve : Error E → RunError E
  body_failed : Error E → RunError E

abbrev pub after_reject : {E : Type 0} → Error E → Option (Error E) → Option (RunError E)
after_reject e none = some (body_failed e)
after_reject e (some r) = some (future_reject r e)

abbrev pub after_resolve : {E : Type 0} → Option (Error E) → Option (RunError E)
after_resolve none = none
after_resolve (some r) = some (future_resolve r)

-- What has become of the function: the executor took it and will run it, it refused it with an error,
-- which is only logged, or the function has run and its body returned this.
pub data Task (T E : Type 0) : Type 0 where
  accepted : Task T E
  refused : Task T E
  finished : T → Option (Error E) → Task T E

-- The promise with its callers, and the function.
pub record Future (T E : Type 0) : Type 0 where
  pub system : System T E
  pub task : Task T E

module _ {T E : Type 0} where
  -- `run`, given what the body returns.
  unfoldable pub run : T → Option (Error E) → Op T E (Option (RunError E))
  run value (some e) = reject (some e) >>= λ r. pure (after_reject e r)
  run value none = resolve value >>= λ r. pure (after_resolve r)

  abbrev pub handed : Bool → Task T E
  handed true = accepted
  handed false = refused

  -- `New`: the promise, and the function as the executor's answer in `execute` leaves it.
  abbrev pub new_future : Bool → Future T E
  new_future takes = record { system = init; task = handed takes }

module _ {T E : Type 0} (zero_value : T) where
  -- The callers and the executor, in any order. The body may return anything.
  pub data Step (f : Future T E) : Future T E → Type 0 where
    gets :
        (i : ℕ) (r : Ready E) {p : Getter T E} {w : World T E}
        → get_step zero_value r (f.system.callers i) f.system.world ≡ (ok p, w)
        → Step f (record f { system = record { world = w; callers = update f.system.callers i p } })
    -- `Chan`, whose caller reads the channel when it likes.
    subscribes :
        (i c : ℕ) {w : World T E}
        → f.system.callers i ≡ calling
        → add_channel f.system.world ≡ (ok c, w)
        → Step f (record f {
          system = record { world = w; callers = update f.system.callers i (awaiting c) };
        })
    runs :
        (value : T) (e : Option (Error E)) {x : Option (RunError E)} {w : World T E}
        → f.task ≡ accepted
        → run value e f.system.world ≡ (ok x, w)
        → Step f (record { system = record f.system { world = w }; task = finished value e })

  -- The states that come after `f`.
  pub data Later (f : Future T E) : Future T E → Type 0 where
    now : Later f f
    later : {g h : Future T E} → Later f g → Step g h → Later f h
