-- ===== src/Retry/Attempts.antt =====
-- retry/retry.go: how often the call is made.
use golang_core.Prelude.{
  ap, ℕ, zero, suc, ◌+◌, ◌≤◌, ◌≡◌, refl, sym, ◌∙◌, Bool, true, false, not, Option, none, some,
  arith, Bool-cases, Option-cases, inl, inr, subst,
}
use golang_core.Retry.{
  Policy, Context, calculate_backoff, attempts_of, stopped, rounds, do_with_condition,
}

apart : {E : Type 0} {e : E} → Path (Option E) none (some e) → ⊥
apart h = cc

module _ {W T E : Type 0} (ctx : Context W E) (zero_value : T) (policy : Option Policy)
    (operation : W → (T × Option E) × W) (should_retry : T → Option E → Bool) where
  -- The states within a round.
  abbrev asked : W → W
  asked w = (ctx.done w).1

  abbrev outcome : W → T × Option E
  outcome w = (operation (asked w)).0

  abbrev called : W → W
  called w = (operation (asked w)).1

  abbrev waited : ℕ → W → W
  waited attempt w = (ctx.wait (calculate_backoff attempt policy) (called w)).1

  abbrev pub retries : T × Option E → Bool
  retries r = should_retry r.0 r.1

  abbrev loop : ℕ → ℕ → T × Option E → W → (T × Option E) × W
  loop left attempt last w = rounds ctx zero_value policy operation should_retry left attempt last w

  -- The ways in which a round ends, with how many rounds were left and what it returns.
  data Round (attempt : ℕ) (last : T × Option E) (w : W) : ℕ → (T × Option E) × W → Type 0 where
    cut :
        (left : ℕ) (e : E) (r : T × Option E)
        → (ctx.done w).0 ≡ some e
        → Round attempt last w left (r, asked w)
    settled :
        (left : ℕ) → retries (outcome w) ≡ false → Round attempt last w left (outcome w, called w)
    exhausted : Round attempt last w 0 (outcome w, called w)
    cancelled :
        (left : ℕ)
        → (ctx.wait (calculate_backoff attempt policy) (called w)).0 ≡ true
        → Round attempt last w (suc left) (outcome w, waited attempt w)
    again :
        (left : ℕ)
        → retries (outcome w) ≡ true
        → Round attempt last w
            (suc left)
            (loop (suc left) (suc attempt) (outcome w) (waited attempt w))

  module _ (attempt : ℕ) (last : T × Option E) (w : W) where
    loop_cut :
        (left : ℕ) (e : E)
        → (ctx.done w).0 ≡ some e
        → loop (suc left) attempt last w
          ≡ (stopped ctx zero_value policy operation should_retry e last, asked w)
    unfolding rounds
    loop_cut left e q = rw (q, rounds) refl

    loop_settled :
        (left : ℕ)
        → (ctx.done w).0 ≡ none
        → not (retries (outcome w)) ≡ true
        → loop (suc left) attempt last w ≡ (outcome w, called w)
    unfolding rounds
    loop_settled left q y = rw (q, rounds, y) refl

    loop_exhausted :
        (ctx.done w).0 ≡ none
        → not (retries (outcome w)) ≡ false
        → loop 1 attempt last w ≡ (outcome w, called w)
    unfolding rounds
    loop_exhausted q n = rw (q, rounds, n) refl

    loop_cancelled :
        (left : ℕ)
        → (ctx.done w).0 ≡ none
        → not (retries (outcome w)) ≡ false
        → (ctx.wait (calculate_backoff attempt policy) (called w)).0 ≡ true
        → loop (suc (suc left)) attempt last w ≡ (outcome w, waited attempt w)
    unfolding rounds
    loop_cancelled left q n c = rw (q, rounds, n, c) refl

    loop_again :
        (left : ℕ)
        → (ctx.done w).0 ≡ none
        → not (retries (outcome w)) ≡ false
        → (ctx.wait (calculate_backoff attempt policy) (called w)).0 ≡ false
        → loop (suc (suc left)) attempt last w
          ≡ loop (suc left) (suc attempt) (outcome w) (waited attempt w)
    unfolding rounds
    loop_again left q n c = rw (q, rounds, n, c) refl

    negated : (b : Bool) → not b ≡ true → b ≡ false
    negated b h = ground arith

    not_negated : (b : Bool) → not b ≡ false → b ≡ true
    not_negated b h = ground arith

    Round-cases : (left : ℕ) → Round attempt last w left (loop (suc left) attempt last w)
    Round-cases left = elim (Option-cases (ctx.done w).0) [
      | inr (e, q) ↦ subst (Round attempt last w left) (sym (loop_cut left e q)) (cut left e _ q)
      | inl q ↦ elim (Bool-cases (not (retries (outcome w)))) [
        | inl y ↦
            subst (Round attempt last w left) (sym (loop_settled left q y))
              (settled left (negated _ y))
        | inr n ↦ more left q n
      ]
    ]
      where
        more :
            (left : ℕ)
            → (ctx.done w).0 ≡ none
            → not (retries (outcome w)) ≡ false
            → Round attempt last w left (loop (suc left) attempt last w)
        more zero q n = subst (Round attempt last w 0) (sym (loop_exhausted q n)) exhausted
        more (suc left) q n =
            elim (Bool-cases (ctx.wait (calculate_backoff attempt policy) (called w)).0) [
              | inl c ↦
                  subst (Round attempt last w (suc left)) (sym (loop_cancelled left q n c))
                    (cancelled left c)
              | inr c ↦
                  subst (Round attempt last w (suc left)) (sym (loop_again left q n c))
                    (again left (not_negated _ n))
            ]

  -- An outcome that asks for no other attempt is the first call's and is returned at once.
  pub do_with_condition-first :
      (w : W) (n : ℕ)
      → attempts_of policy ≡ some (suc n)
      → (ctx.done w).0 ≡ none
      → retries (outcome w) ≡ false
      → do_with_condition ctx zero_value policy operation should_retry w ≡ operation (asked w)
  unfolding do_with_condition
  do_with_condition-first w n h d a =
      ap
        (λ (o : Option ℕ). elim o as (λ x. (T × Option E) × W) [
          | none ↦ operation w
          | some m ↦ rounds ctx zero_value policy operation should_retry m 0 (zero_value, none) w
        ])
        h
      ∙ loop_settled 0 (zero_value, none) w n d (ap not a)

  -- `calls` counts the calls: the context and the clock leave it alone.
  pub record Counts (calls : W → ℕ) : Type 0 where
    pub operation-calls : (w : W) → calls (operation w).1 ≡ calls w + 1
    pub done-calls : (w : W) → calls (ctx.done w).1 ≡ calls w
    pub wait-calls : (n : ℕ) (w : W) → calls (ctx.wait n w).1 ≡ calls w

  -- The context is never done.
  pub record IsLive : Type 0 where
    pub done-none : (w : W) → (ctx.done w).0 ≡ none
    pub wait-false : (n : ℕ) (w : W) → (ctx.wait n w).0 ≡ false

  module _ (calls : W → ℕ) (c : Counts calls) where
    called-calls : (w : W) → calls (called w) ≡ calls w + 1
    called-calls w = omega (arith, c.operation-calls (asked w), c.done-calls w)

    waited-calls : (attempt : ℕ) (w : W) → calls (waited attempt w) ≡ calls w + 1
    waited-calls attempt w =
        c.wait-calls (calculate_backoff attempt policy) (called w) ∙ called-calls w

    -- At most one call in each round that is left.
    abbrev AtMost : ℕ → W → (T × Option E) × W → Type 0
    AtMost n w r = calls r.1 ≤ calls w + suc n

    abbrev AtMostAfter : ℕ → Type 0
    AtMostAfter zero = Unit
    AtMostAfter (suc n) =
        (attempt : ℕ) (last : T × Option E) (w : W) → AtMost n w (loop (suc n) attempt last w)

    bound_kept :
        (n attempt : ℕ) (last : T × Option E) (w : W) (r : (T × Option E) × W)
        → Round attempt last w n r
        → AtMostAfter n
        → AtMost n w r
    bound_kept n attempt last w r (cut l e x q) h = omega (arith, c.done-calls w)
    bound_kept n attempt last w r (settled l y) h = omega (arith, called-calls w)
    bound_kept n attempt last w r exhausted h = omega (arith, called-calls w)
    bound_kept n attempt last w r (cancelled l y) h = omega (arith, waited-calls attempt w)
    bound_kept n attempt last w r (again l y) h =
        omega (arith, waited-calls attempt w, h (suc attempt) (outcome w) (waited attempt w))

    rounds-AtMost :
        (n attempt : ℕ) (last : T × Option E) (w : W) → AtMost n w (loop (suc n) attempt last w)
    rounds-AtMost zero attempt last w =
        bound_kept 0 attempt last w _ (Round-cases attempt last w 0) tt
    rounds-AtMost (suc n) attempt last w =
        bound_kept (suc n) attempt last w _ (Round-cases attempt last w (suc n)) (rounds-AtMost n)

    -- In a context that is never done, an outcome that asks for another attempt is returned only when
    -- all rounds are used up.
    abbrev AllUsed : ℕ → W → (T × Option E) × W → Type 0
    AllUsed n w r = retries r.0 ≡ true → calls r.1 ≡ calls w + suc n

    abbrev AllUsedAfter : ℕ → Type 0
    AllUsedAfter zero = Unit
    AllUsedAfter (suc n) =
        (attempt : ℕ) (last : T × Option E) (w : W) → AllUsed n w (loop (suc n) attempt last w)

    not_both : {b : Bool} → b ≡ false → b ≡ true → ⊥
    not_both h k = cc

    spending_kept :
        IsLive
        → (n attempt : ℕ) (last : T × Option E) (w : W) (r : (T × Option E) × W)
        → Round attempt last w n r
        → AllUsedAfter n
        → AllUsed n w r
    spending_kept live n attempt last w r (cut l e x q) h =
        λ u. absurd (apart (sym (live.done-none w) ∙ q))
    spending_kept live n attempt last w r (settled l y) h = λ u. absurd (not_both y u)
    spending_kept live n attempt last w r exhausted h = λ u. called-calls w
    spending_kept live n attempt last w r (cancelled l y) h =
        λ u. absurd (not_both (live.wait-false _ (called w)) y)
    spending_kept live n attempt last w r (again l y) h =
        λ u. omega (arith, waited-calls attempt w, h (suc attempt) (outcome w) (waited attempt w) u)

    rounds-AllUsed :
        IsLive
        → (n attempt : ℕ) (last : T × Option E) (w : W) → AllUsed n w (loop (suc n) attempt last w)
    rounds-AllUsed live zero attempt last w =
        spending_kept live 0 attempt last w _ (Round-cases attempt last w 0) tt
    rounds-AllUsed live (suc n) attempt last w =
        spending_kept live (suc n) attempt last w _ (Round-cases attempt last w (suc n))
          (rounds-AllUsed live n)

    -- The greatest number of calls that a policy allows.
    abbrev pub allowed : Option ℕ → ℕ
    allowed none = 1
    allowed (some n) = n

    abbrev begin : Option ℕ → W → (T × Option E) × W
    begin o w = elim o [
      | none ↦ operation w
      | some n ↦ rounds ctx zero_value policy operation should_retry n 0 (zero_value, none) w
    ]

    begin-le : (o : Option ℕ) (w : W) → calls (begin o w).1 ≤ calls w + allowed o
    unfolding rounds
    begin-le none w = omega (arith, c.operation-calls w)
    begin-le (some zero) w = omega arith
    begin-le (some (suc n)) w = rounds-AtMost n 0 (zero_value, none) w

    begin-exhausted :
        IsLive
        → (o : Option ℕ) (w : W) → retries (begin o w).0 ≡ true
        → calls (begin o w).1 ≡ calls w + allowed o
    unfolding rounds
    begin-exhausted live none w h = c.operation-calls w
    begin-exhausted live (some zero) w h = omega arith
    begin-exhausted live (some (suc n)) w h = rounds-AllUsed live n 0 (zero_value, none) w h

    -- `DoWithCondition` makes no more calls than the policy allows: one without a policy, when it is
    -- disabled, or when it has fewer than two attempts, and otherwise the number of attempts. The
    -- context and the clock make no calls.
    pub do_with_condition-calls :
        (w : W)
        → calls (do_with_condition ctx zero_value policy operation should_retry w).1
          ≤ calls w + allowed (attempts_of policy)
    unfolding do_with_condition
    do_with_condition-calls w = begin-le (attempts_of policy) w

    -- In a context that is never done, an outcome for which the condition asks for another attempt is
    -- returned only after all the calls that the policy allows. The context and the clock make no
    -- calls.
    pub do_with_condition-exhausted :
        IsLive
        → (w : W)
        → retries (do_with_condition ctx zero_value policy operation should_retry w).0 ≡ true
        → calls (do_with_condition ctx zero_value policy operation should_retry w).1
          ≡ calls w + allowed (attempts_of policy)
    unfolding do_with_condition
    do_with_condition-exhausted live w h = begin-exhausted live (attempts_of policy) w h
