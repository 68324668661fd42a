-- ===== src/Future/Agreement.antt =====
-- future/future.go: the promise of a future holds what the function has left there.
use golang_core.Prelude.{
  ◌≡◌, refl, ap, sym, ◌∙◌, subst, Bool, true, false, Option, none, some, ok, if◌then◌else◌,
}
use golang_core.Prelude.Exec.{pure, continue-ok}
use golang_core.Promise.{Promise, World, Error, already_resolved, resolve, reject}
use golang_core.Promise.Effects.{WellFormed}
use golang_core.Promise.Effects.Settle.{
  settles_once, settled_with, resolve-Does, reject-Does, resolve-once, reject-once,
}
use golang_core.Future.{
  Task, accepted, refused, finished, RunError, future_reject, future_resolve, body_failed,
  after_reject, after_resolve, run,
}
use golang_core.Future.Pending.{Same, continue_state}

-- What the function returns to the executor: the body's error, or, with an error of the promise before it,
-- that it was settled already.
abbrev pub reports : {E : Type 0} → Bool → Option (Error E) → Option (RunError E)
reports false none = none
reports false (some e) = some (body_failed e)
reports true none = some (future_resolve already_resolved)
reports true (some e) = some (future_reject already_resolved e)

after_resolve-once :
    {E : Type 0} (b : Bool) → after_resolve (settles_once {E = E} b) ≡ reports b none
after_resolve-once true = refl
after_resolve-once false = refl

after_reject-once :
    {E : Type 0} (b : Bool) (e : Error E) → after_reject e (settles_once b) ≡ reports b (some e)
after_reject-once true e = refl
after_reject-once false e = refl

module _ {T E : Type 0} where
  -- The promise holds what the body returned, and nothing before that.
  abbrev pub Agrees : Task T E → Promise T E → Type 0
  Agrees accepted p = (p.value ≡ none) × (p.error ≡ none) × (p.resolved ≡ false)
  Agrees refused p = (p.value ≡ none) × (p.error ≡ none) × (p.resolved ≡ false)
  Agrees (finished v none) p = (p.value ≡ some v) × (p.error ≡ none) × (p.resolved ≡ true)
  Agrees (finished v (some e)) p = (p.value ≡ none) × (p.error ≡ some e) × (p.resolved ≡ true)

  pub Same-Agrees :
      (t : Task T E) (w u : World T E) → Same w u → Agrees t w.promise → Agrees t u.promise
  Same-Agrees accepted w u s (v, e, r) = (s.value ∙ v, s.error ∙ e, s.resolved ∙ r)
  Same-Agrees refused w u s (v, e, r) = (s.value ∙ v, s.error ∙ e, s.resolved ∙ r)
  Same-Agrees (finished x none) w u s (v, e, r) = (s.value ∙ v, s.error ∙ e, s.resolved ∙ r)
  Same-Agrees (finished x (some y)) w u s (v, e, r) = (s.value ∙ v, s.error ∙ e, s.resolved ∙ r)

  pub once-Agrees :
      (w : World T E) (v : T) (e : Option (Error E))
      → WellFormed w
      → Agrees accepted w.promise
      → Agrees (finished v e) (run v e w).1.promise
  unfolding run
  once-Agrees w v none wf (a, b, c) =
      subst (Agrees (finished v none))
        (sym (
          ap (λ (u : World T E). u.promise) (continue_state (resolve v w) after_resolve)
          ∙ resolve-once v w wf
          ∙ ap (λ x. if x then w.promise else settled_with (record w.promise { value = some v }))
              c))
        (refl, b, refl)
  once-Agrees w v (some e) wf (a, b, c) =
      subst (Agrees (finished v (some e)))
        (sym (
          ap (λ (u : World T E). u.promise) (continue_state (reject (some e) w) (after_reject e))
          ∙ reject-once e w wf
          ∙ ap (λ x. if x then w.promise else settled_with (record w.promise { error = some e }))
              c))
        (a, refl, refl)

  pub run-reports :
      (v : T) (e : Option (Error E)) (w : World T E)
      → WellFormed w
      → (run v e w).0 ≡ ok (reports w.promise.resolved e)
  unfolding run
  run-reports v none w wf =
      ap (λ r. r.0)
        (continue-ok (resolve v w) (λ r. pure (after_resolve r)) (resolve-Does v w 0 wf).value)
      ∙ ap ok (after_resolve-once w.promise.resolved)
  run-reports v (some e) w wf =
      ap (λ r. r.0)
        (continue-ok (reject (some e) w) (λ r. pure (after_reject e r))
          (reject-Does e w 0 wf).value)
      ∙ ap ok (after_reject-once w.promise.resolved e)

  pub holds_value :
      (t : Task T E) (p : Promise T E) (v : T) → Agrees t p → p.value ≡ some v → t ≡ finished v none
  holds_value accepted p v (a, b, c) q = absurd cc
  holds_value refused p v (a, b, c) q = absurd cc
  holds_value (finished u none) p v (a, b, c) q = cc
  holds_value (finished u (some e)) p v (a, b, c) q = absurd cc

  pub holds_error :
      (t : Task T E) (p : Promise T E) (x : Error E)
      → Agrees t p
      → p.error ≡ some x
      → (u : T) × (t ≡ finished u (some x))
  holds_error accepted p x (a, b, c) q = absurd cc
  holds_error refused p x (a, b, c) q = absurd cc
  holds_error (finished u none) p x (a, b, c) q = absurd cc
  holds_error (finished u (some e)) p x (a, b, c) q = (u, cc)

module _ {T E : Type 0} where
  -- Only an executor that did not take the function has refused it.
  abbrev pub is_refused : Task T E → Bool
  is_refused accepted = false
  is_refused refused = true
  is_refused (finished v e) = false
