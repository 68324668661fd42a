-- ===== src/Storage/Retrying.antt =====
-- storage/retry_option.go: the operations of a storage under the retry policy of `WithRetry`.
mod Tests
use golang_core.Prelude.{ℕ, suc, ◌≡◌, refl, ap, ◌∙◌, Bool, true, false, not, Option, none, some}
use golang_core.Retry.{Policy, Context, attempts_of, do_with_condition}
use golang_core.Retry.Attempts.{do_with_condition-first}

-- The kinds of error that `defaultRetryable` tells apart: `errors.Is` and `errors.As` find them.
pub data Failure : Type 0 where
  cancelled deadline_exceeded network_error stream_error other_error : Failure

-- A deadline is a network error too, so the context's errors come first.
unfoldable pub default_retryable : Option Failure → Bool
default_retryable none = false
default_retryable (some cancelled) = false
default_retryable (some deadline_exceeded) = false
default_retryable (some network_error) = true
default_retryable (some stream_error) = true
default_retryable (some other_error) = false

-- The classifier of the storage, or the default.
abbrev pub classifier : Option (Option Failure → Bool) → Option Failure → Bool
classifier none failure = default_retryable failure
classifier (some retryable) failure = retryable failure

-- `err != nil && retryable(err)`
abbrev pub asks : Option (Option Failure → Bool) → Option Failure → Bool
asks retryable none = false
asks retryable (some failure) = classifier retryable (some failure)

module _ {W : Type 0} (ctx : Context W Failure) (retryable : Option (Option Failure → Bool)) where
  -- The operation with a value of no content, and the loop over it.
  abbrev pub with_unit : (W → Option Failure × W) → W → (Unit {0} × Option Failure) × W
  with_unit operation w = let (failure, w') = operation w in ((tt, failure), w')

  unfoldable pub with_retry : Option Policy → (W → Option Failure × W) → W → Option Failure × W
  unfolding do_with_condition
  with_retry none operation w = operation w
  with_retry (some policy) operation w =
      let (outcome, w') =
        do_with_condition ctx tt (some policy) (with_unit operation)
          (λ u failure. asks retryable failure) w in
      (outcome.1, w')

  -- Under a policy with more than one attempt, in a context that is not done, the first call's outcome is
  -- returned at once if it is a success or an error that is not retryable.
  pub with_retry-first :
      (policy : Policy) (operation : W → Option Failure × W) (w : W) (n : ℕ)
      → attempts_of (some policy) ≡ some (suc n)
      → (ctx.done w).0 ≡ none
      → asks retryable (operation (ctx.done w).1).0 ≡ false
      → with_retry (some policy) operation w ≡ operation (ctx.done w).1
  unfolding with_retry
  with_retry-first policy operation w n h d a =
      ap (λ r. (r.0.1, r.1))
        (do_with_condition-first ctx tt (some policy) (with_unit operation)
          (λ u failure. asks retryable failure) w n h d a)
