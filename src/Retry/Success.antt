-- ===== src/Retry/Success.antt =====
-- retry/retry.go: what it means that the loop returns no error.
use golang_core.Prelude.{
  ℕ, zero, suc, ℤ, pos, negsuc, ◌≡◌, ◌≢◌, refl, ap, sym, ◌∙◌, Bool, true, false, not, Option, none,
  some, if◌then◌else◌,
}
use golang_core.Retry.{
  Policy, Context, rounds, do_with_condition, attempts_of, more_than_one, stopped,
  calculate_backoff,
}

more_than_one-Some : (z : ℤ) → more_than_one z ≢ some zero
more_than_one-Some (negsuc n) = λ p. absurd cc
more_than_one-Some (pos zero) = λ p. absurd cc
more_than_one-Some (pos (suc zero)) = λ p. absurd cc
more_than_one-Some (pos (suc (suc n))) = λ p. absurd cc

-- The loop is never entered for no rounds.
enabled-Some : (enabled : Bool) (z : ℤ) → (if enabled then more_than_one z else none) ≢ some zero
enabled-Some true z = more_than_one-Some z
enabled-Some false z = λ p. absurd cc

attempts_of-Some : (o : Option Policy) → attempts_of o ≢ some zero
attempts_of-Some none = λ p. absurd cc
attempts_of-Some (some policy) = enabled-Some policy.enabled policy.max_attempts

module _ {W T E : Type 0} (ctx : Context W E) (zero_value : T) (policy : Option Policy)
    (operation : W → (T × Option E) × W) (should_retry : T → Option E → Bool) where
  -- If there is no error, the answer and the state are those of a call, after which nothing happened.
  abbrev pub Good : (T × Option E) × W → Type 0
  Good x = x.0.1 ≡ none → (v : W) × (operation v ≡ x)

  abbrev Needed : ℕ → (T × Option E) × W → Type 0
  Needed zero x = Unit {0}
  Needed (suc n) x = Good x

  step-Good :
      ((r : T) → should_retry r none ≡ false)
      → (left : ℕ) (last outcome : T × Option E) (w1 w2 w3 : W) (rest : (T × Option E) × W)
      → (cause : Option E) (again cancelled : Bool) → operation w1 ≡ (outcome, w2)
      → should_retry outcome.0 outcome.1 ≡ again
      → Needed left rest
      → Good (elim cause [
        | some e ↦ (stopped ctx zero_value policy operation should_retry e last, w1)
        | none ↦ if not again then (outcome, w2) else elim left [
          | zero ↦ (outcome, w2)
          | suc n ↦ if cancelled then (outcome, w3) else rest
        ]
      ])
  step-Good h left (l, none) outcome w1 w2 w3 rest (some e) again cancelled o s n = λ q. absurd cc
  step-Good h left (l, some x) outcome w1 w2 w3 rest (some e) again cancelled o s n = λ q. absurd cc
  step-Good h left last outcome w1 w2 w3 rest none false cancelled o s n = λ q. (w1, o)
  step-Good h zero last outcome w1 w2 w3 rest none true cancelled o s n = λ q. (w1, o)
  step-Good h (suc left) last outcome w1 w2 w3 rest none true true o s n =
      λ q. absurd (apart (sym s ∙ ap (should_retry outcome.0) q ∙ h outcome.0))
    where
      apart : Path Bool true false → ⊥
      apart p = cc
  step-Good h (suc left) last outcome w1 w2 w3 rest none true false o s n = n

  needed :
      ((r : T) → should_retry r none ≡ false)
      → (left attempt : ℕ) (last : T × Option E) (w : W)
      → Needed left (rounds ctx zero_value policy operation should_retry left attempt last w)
  unfolding rounds
  needed h zero attempt last w = tt
  needed h (suc left) attempt last w =
      let w1 = (ctx.done w).1 in
      let w2 = (operation w1).1 in
      let w3 = (ctx.wait (calculate_backoff attempt policy) w2).1 in
      step-Good h left last (operation w1).0 w1 w2 w3
        (rounds ctx zero_value policy operation should_retry left (suc attempt) (operation w1).0 w3)
        (ctx.done w).0 (should_retry (operation w1).0.0 (operation w1).0.1)
        (ctx.wait (calculate_backoff attempt policy) w2).0 refl refl
        (needed h left (suc attempt) (operation w1).0 w3)

  attempts-Good :
      ((r : T) → should_retry r none ≡ false)
      → (o : Option ℕ) (w : W) → attempts_of policy ≡ o
      → Good (elim o [
        | none ↦ operation w
        | some max ↦ rounds ctx zero_value policy operation should_retry max 0 (zero_value, none) w
      ])
  attempts-Good h none w p = λ q. (w, refl)
  attempts-Good h (some zero) w p = λ q. absurd (attempts_of-Some policy p)
  attempts-Good h (some (suc n)) w p = needed h (suc n) 0 (zero_value, none) w

  pub do_with_condition-Good :
      ((r : T) → should_retry r none ≡ false)
      → (w : W) → Good (do_with_condition ctx zero_value policy operation should_retry w)
  unfolding do_with_condition
  do_with_condition-Good h w = attempts-Good h (attempts_of policy) w refl
