-- ===== src/Retry.antt =====
-- retry/: calls that are made again after an error, with a pause in between. `T` is the value and `E` the
-- error of the call, which returns both, as in Go. What the clock, the context and the call itself
-- change is a state in `W`.
pub mod Attempts
pub mod Status
pub mod Success
mod Tests
use golang_core.Prelude.{
  ℕ, zero, suc, ◌+◌, ℤ, pos, negsuc, Bool, true, false, not, Option, none, some, ltb, leb,
  if◌then◌else◌, ◌&&◌,
}

-- `Policy`, with durations in nanoseconds. `backoff_of` stands for the product in floating point,
-- `InitialInterval * BackoffCoefficient ^ attempt`, as a duration.
pub record Policy : Type 0 where
  pub enabled : Bool
  pub max_attempts : ℤ
  pub max_interval : ℕ
  pub backoff_of : ℕ → ℕ
  pub retry_non_idempotent : Bool

unfoldable pub calculate_backoff : ℕ → Option Policy → ℕ
calculate_backoff attempt none = 0
calculate_backoff attempt (some policy) =
    let backoff = policy.backoff_of attempt in
    if ltb 0 policy.max_interval && ltb policy.max_interval backoff
    then policy.max_interval
    else backoff

-- A context: `done` is its error if it is done, `wait` is true if it is done before the time is over.
pub record Context (W E : Type 0) : Type 0 where
  pub done : W → Option E × W
  pub wait : ℕ → W → Bool × W

-- How many rounds the loop may have, when it is entered at all.
abbrev pub more_than_one : ℤ → Option ℕ
more_than_one (negsuc n) = none
more_than_one (pos zero) = none
more_than_one (pos (suc zero)) = none
more_than_one (pos (suc (suc n))) = some (suc (suc n))

abbrev pub attempts_of : Option Policy → Option ℕ
attempts_of none = none
attempts_of (some policy) = if policy.enabled then more_than_one policy.max_attempts else none

module _ {W T E : Type 0} (ctx : Context W E) (zero_value : T) (policy : Option Policy)
    (operation : W → (T × Option E) × W) (should_retry : T → Option E → Bool) where
  -- What is returned when the context is done at the start of a round.
  abbrev stopped : E → T × Option E → T × Option E
  stopped e (last_result, none) = (zero_value, some e)
  stopped e (last_result, some last_err) = (last_result, some last_err)

  -- The loop with `left` rounds left. The last of them returns what the call gave.
  unfoldable pub rounds : ℕ → ℕ → T × Option E → W → (T × Option E) × W
  unfolding calculate_backoff
  rounds zero attempt last w = (last, w)
  rounds (suc left) attempt last w =
      let (cause, w1) = ctx.done w in
      let (outcome, w2) = operation w1 in
      let (cancelled, w3) = ctx.wait (calculate_backoff attempt policy) w2 in
      let rest = rounds left (suc attempt) outcome w3 in
      elim cause [
        | some e ↦ (stopped e last, w1)
        | none ↦ if not (should_retry outcome.0 outcome.1) then (outcome, w2) else elim left [
          | zero ↦ (outcome, w2)
          | suc n ↦ if cancelled then (outcome, w3) else rest
        ]
      ]

  unfoldable pub do_with_condition : W → (T × Option E) × W
  unfolding rounds
  do_with_condition w = elim (attempts_of policy) [
    | none ↦ operation w
    | some max_attempts ↦ rounds max_attempts 0 (zero_value, none) w
  ]

abbrev pub has_error : {T E : Type 0} → T → Option E → Bool
has_error result none = false
has_error result (some e) = true

-- `Do` is the same loop, which goes on after any error.
unfoldable pub do_any :
    {W T E : Type 0}
    → Context W E
    → T
    → Option Policy
    → (W → (T × Option E) × W)
    → W
    → (T × Option E) × W
unfolding do_with_condition
do_any ctx zero_value policy operation w =
    do_with_condition ctx zero_value policy operation has_error w
