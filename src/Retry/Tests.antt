-- ===== src/Retry/Tests.antt =====
-- Runs of retry/ on calls that are counted.
use golang_core.Prelude.{
  ℕ, zero, suc, ◌+◌, ◌*◌, ◌^◌, ◌≤◌, pos, ◌≡◌, refl, true, false, Option, none, some,
}
use golang_core.Retry.{Policy, Context, attempts_of, rounds, do_with_condition, has_error}
use golang_core.Retry.Attempts.{
  Counts, IsLive, allowed, do_with_condition-calls, do_with_condition-exhausted,
}

-- The state is the number of calls so far; the context is never done.
abbrev live : Context ℕ ℕ
live = record { done = λ w. (none, w); wait = λ n w. (false, w) }

-- It fails twice, with the number of the call as its error.
abbrev flaky : ℕ → (ℕ × Option ℕ) × ℕ
flaky zero = ((0, some 0), 1)
flaky (suc zero) = ((0, some 1), 2)
flaky (suc (suc k)) = ((7, none), suc (suc (suc k)))

abbrev broken : ℕ → (ℕ × Option ℕ) × ℕ
broken n = ((0, some n), n + 1)

abbrev three : Option Policy
three = some (record {
  enabled = true;
  max_attempts = pos 3;
  max_interval = 1000;
  backoff_of = λ n. 100 * 2 ^ n;
  retry_non_idempotent = false;
})

flaky_succeeds : do_with_condition live 0 three flaky has_error 0 ≡ ((7, none), 3)
unfolding do_with_condition rounds
flaky_succeeds = refl

broken-Counts : Counts live 0 three broken has_error (λ w. w)
broken-Counts = record {
  operation-calls = λ w. refl;
  done-calls = λ w. refl;
  wait-calls = λ n w. refl;
}

broken-IsLive : IsLive live 0 three broken has_error
broken-IsLive = record { done-none = λ w. refl; wait-false = λ n w. refl }

do_with_condition-calls_example :
    (do_with_condition live 0 three broken has_error 0).1
    ≤ 0 + allowed live 0 three broken has_error (λ w. w) broken-Counts (attempts_of three)
do_with_condition-calls_example =
    do_with_condition-calls live 0 three broken has_error (λ w. w) broken-Counts 0

broken_fails :
    has_error
      (do_with_condition live 0 three broken has_error 0).0.0
      (do_with_condition live 0 three broken has_error 0).0.1
    ≡ true
unfolding do_with_condition rounds
broken_fails = refl

do_with_condition-exhausted_example :
    (do_with_condition live 0 three broken has_error 0).1
    ≡ 0 + allowed live 0 three broken has_error (λ w. w) broken-Counts (attempts_of three)
do_with_condition-exhausted_example =
    do_with_condition-exhausted live 0 three broken has_error (λ w. w) broken-Counts broken-IsLive 0
      broken_fails

abbrev code : ℕ
code = 503
