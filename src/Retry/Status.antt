-- ===== src/Retry/Status.antt =====
-- retry/retry.go: which HTTP methods and status codes are tried again.
use golang_core.Prelude.{
  ℕ, ℤ, pos, negsuc, ◌≡◌, ◌≤◌, ◌<◌, ◌⊎◌, ◌↔◌, Bool, true, false, Option, none, some, List, [], ◌∷◌,
  ltb, leb, ◌-◌, ◌≢◌, ◌==◌, if◌then◌else◌, ◌&&◌, arith, codes, map, ite, text_discrete,
}
use golang_core.Retry.{Policy}

-- The kinds of error that `ShouldRetry` tells apart.
pub data Failure : Type 0 where
  context_error : Failure
  timeout operation_error other_error : Failure

-- A code above 0 that is neither 5xx nor 429 is final; without a code any error is tried again.
abbrev by_code : ℤ → Option Failure → Bool
by_code (negsuc n) failure = elim failure [ none ↦ false | some f ↦ true ]
by_code (pos n) failure =
    if leb 500 n && ltb n 600
    then true
    else if n == 429
    then true
    else if ltb 0 n
    then false
    else elim failure [ none ↦ false | some f ↦ true ]

unfoldable pub should_retry : ℤ → Option Failure → Bool
should_retry status_code (some context_error) = false
should_retry status_code (some timeout) = by_code status_code (some timeout)
should_retry status_code (some operation_error) = by_code status_code (some operation_error)
should_retry status_code (some other_error) = by_code status_code (some other_error)
should_retry status_code none = by_code status_code none

-- `strings.ToUpper` on ASCII
abbrev to_upper : ℕ → ℕ
to_upper c = if leb b'a' c && leb c b'z' then c - 32 else c

abbrev has_text : List ℕ → List (List ℕ) → Bool
has_text t [] = false
has_text t (u ∷ us) = ite (text_discrete t u) true (has_text t us)

abbrev idempotent_methods : List (List ℕ)
idempotent_methods =
    codes "GET" ∷ codes "HEAD" ∷ codes "PUT" ∷ codes "DELETE" ∷ codes "OPTIONS" ∷ codes "TRACE" ∷ []

unfoldable pub is_idempotent_method : List ℕ → Bool
is_idempotent_method [] = has_text (codes "GET") idempotent_methods
is_idempotent_method (c ∷ cs) = has_text (map to_upper (c ∷ cs)) idempotent_methods

unfoldable pub should_retry_method : List ℕ → Option Policy → Bool
unfolding is_idempotent_method
should_retry_method method none = is_idempotent_method method
should_retry_method method (some policy) =
    if policy.retry_non_idempotent then true else is_idempotent_method method

-- A response with a status code above 0 is tried again exactly when the code is 429 or 5xx and the
-- error, if any, is not one of the context.
pub should_retry_iff :
    (n : ℕ) (failure : Option Failure)
    → 0 < n
    → (should_retry (pos n) failure ≡ true)
      ↔ ((failure ≢ some context_error) × ((n ≡ 429) ⊎ ((500 ≤ n) × (n < 600))))
unfolding should_retry
should_retry_iff n failure h = ground arith
