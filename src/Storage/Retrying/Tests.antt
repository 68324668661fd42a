-- ===== src/Storage/Retrying/Tests.antt =====
-- Runs of storage/retry_option.go on calls that are counted.
use golang_core.Prelude.{ℕ, suc, pos, ◌≡◌, refl, false, true, Option, none, some}
use golang_core.Retry.{Policy, Context, rounds, do_with_condition}
use golang_core.Storage.Retrying.{
  Failure, other_error, network_error, default_retryable, with_retry,
}

abbrev live : Context ℕ Failure
live = record { done = λ w. (none, w); wait = λ n w. (false, w) }

abbrev two : Policy
two = record {
  enabled = true;
  max_attempts = pos 2;
  max_interval = 0;
  backoff_of = λ n. 0;
  retry_non_idempotent = false;
}

abbrev missing : ℕ → Option Failure × ℕ
missing w = (some other_error, suc w)

abbrev unreachable : ℕ → Option Failure × ℕ
unreachable w = (some network_error, suc w)

called_twice : with_retry live none (some two) unreachable 0 ≡ (some network_error, 2)
unfolding with_retry do_with_condition rounds default_retryable
called_twice = refl

not_asked : default_retryable (some other_error) ≡ false
unfolding default_retryable
not_asked = refl
