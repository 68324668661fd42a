-- ===== src/Future/Laws.antt =====
-- future/future.go: what callers of a future can rely on.
use golang_core.Prelude.{
  ℕ, ◌≡◌, refl, ap, sym, ◌∙◌, subst, Bool, true, false, not, Option, none, some, ok, inl, inr, ◌⊎◌,
}
use golang_core.Promise.{Promise, World, Error, other, resolve, reject}
use golang_core.Promise.Effects.Settle.{resolve-Does, reject-Does}
use golang_core.Promise.Getter.{
  Getter, calling, first_look, selecting, second_look, leaving, awaiting, returned,
}
use golang_core.Promise.Invariant.Reachable.{Reach-Inv}
use golang_core.Promise.Laws.{get_answers}
use golang_core.Promise.System
use golang_core.Promise.System.{Reach}
use golang_core.Future.{
  Future, Task, finished, after_reject, after_resolve, run, new_future, Step, gets, subscribes,
  runs, Later, now, later,
}
use golang_core.Future.Pending.{Same, get_step-Same, add_channel-Same, continue_state}
use golang_core.Future.Agreement.{
  Agrees, reports, is_refused, Same-Agrees, once-Agrees, run-reports, holds_value, holds_error,
}

pair_eq : {A B : Type 0} (x : A × B) {a : A} {b : B} → x.0 ≡ a → x.1 ≡ b → x ≡ (a, b)
pair_eq x p q = λ i. (p i, q i)

module _ {T E : Type 0} (zero_value : T) where
  -- What a call of `Get` that has returned may have returned: the error of its context, or what the body
  -- returned.
  abbrev pub Answers : Task T E → Getter T E → Type 0
  Answers t (returned v e) =
      ((x : E) × (e ≡ some (other x)) × (v ≡ zero_value))
      ⊎ ((t ≡ finished v none) × (e ≡ none))
      ⊎ ((u : T) × (x : Error E) × (t ≡ finished u (some x)) × (e ≡ some x) × (v ≡ zero_value))
  Answers t p = Unit {0}

  returned-Answers :
      (t : Task T E) (p : Promise T E)
      → Agrees t p
      → (c : Getter T E)
      → ((v : T) (e : Option (Error E))
          → c ≡ returned v e
          → ((x : E) × (e ≡ some (other x)) × (v ≡ zero_value))
            ⊎ ((p.value ≡ some v) × (e ≡ none))
            ⊎ ((x : Error E) × (e ≡ some x) × (p.error ≡ some x) × (v ≡ zero_value)))
      → Answers t c
  returned-Answers t p a calling h = tt
  returned-Answers t p a (first_look c) h = tt
  returned-Answers t p a (selecting c) h = tt
  returned-Answers t p a (second_look c e) h = tt
  returned-Answers t p a (leaving c e) h = tt
  returned-Answers t p a (awaiting c) h = tt
  returned-Answers t p a (returned v e) h = elim (h v e refl) [
    | inl x ↦ inl x
    | inr (inl (q, n)) ↦ inr (inl (holds_value t p v a q, n))
    | inr (inr (x, n, q, z)) ↦ let (u, m) = holds_error t p x a q in inr (inr (u, x, m, n, z))
  ]

  Step-Reach :
      {f g : Future T E}
      → Step zero_value f g
      → Reach zero_value f.system
      → Reach zero_value g.system
  unfolding run
  Step-Reach (gets i r e) s = System.later s (System.gets i r e)
  Step-Reach (subscribes i c q e) s = System.later s (System.subscribes i c q e)
  Step-Reach {f} (runs v none q e) s =
      let w = f.system.world in
      System.later s (
        System.resolves v (
          pair_eq (resolve v w) (resolve-Does v w 0 (Reach-Inv zero_value s).world).value
            (sym (continue_state (resolve v w) after_resolve) ∙ ap (λ x. x.1) e)))
  Step-Reach {f} (runs v (some y) q e) s =
      let w = f.system.world in
      System.later s (
        System.rejects (some y) (
          pair_eq (reject (some y) w) (reject-Does y w 0 (Reach-Inv zero_value s).world).value
            (sym (continue_state (reject (some y) w) (after_reject y)) ∙ ap (λ x. x.1) e)))

  Step-Agrees :
      {f g : Future T E}
      → Step zero_value f g
      → Reach zero_value f.system
      → Agrees f.task f.system.world.promise
      → Agrees g.task g.system.world.promise
  Step-Agrees {f} (gets i r {p} {w} e) s a =
      Same-Agrees f.task f.system.world w
        (subst (Same f.system.world) (ap (λ x. x.1) e)
          (get_step-Same zero_value r (f.system.callers i) f.system.world))
        a
  Step-Agrees {f} (subscribes i c {w} q e) s a =
      Same-Agrees f.task f.system.world w
        (subst (Same f.system.world) (ap (λ x. x.1) e) (add_channel-Same f.system.world)) a
  Step-Agrees {f} (runs v e q h) s a =
      subst (λ (u : World T E). Agrees (finished v e) u.promise) (ap (λ x. x.1) h)
        (once-Agrees f.system.world v e (Reach-Inv zero_value s).world
          (subst (λ t. Agrees t f.system.world.promise) q a))

  abbrev Kept : Bool → Future T E → Type 0
  Kept takes f =
      Reach zero_value f.system
      × Agrees f.task f.system.world.promise
      × (is_refused f.task ≡ not takes)

  Step-is_refused : {f g : Future T E} → Step zero_value f g → is_refused g.task ≡ is_refused f.task
  Step-is_refused (gets i r e) = refl
  Step-is_refused (subscribes i c q e) = refl
  Step-is_refused (runs v e q h) = sym (ap is_refused q)

  new-Kept : (takes : Bool) → Kept takes (new_future takes)
  new-Kept true = (System.now, (refl, refl, refl), refl)
  new-Kept false = (System.now, (refl, refl, refl), refl)

  Later-Kept :
      (takes : Bool) {f g : Future T E} → Later zero_value f g → Kept takes f → Kept takes g
  Later-Kept takes now k = k
  Later-Kept takes (later l s) k =
      let (r, a, b) = Later-Kept takes l k in
      (Step-Reach s r, Step-Agrees s r a, Step-is_refused s ∙ b)

  -- In every state of a future, whether the executor takes its function or refuses it, and whatever the
  -- body returns: the function is refused just if the executor refused it in `New`. Until it has run, the
  -- promise is pending, and then it holds the value of the body, or its error if it returned one. A call of
  -- `Get` that has returned gave the error of its context with the zero value, or the value of the body,
  -- or the error of the body with the zero value. If the function is run in that state it comes to its
  -- end, and returns to the executor the body's error, if any, when the promise is pending, and
  -- ErrAlreadyResolved when it is settled.
  pub future_settles :
      {f : Future T E} (takes : Bool)
      → Later zero_value (new_future takes) f
      → (i : ℕ) (v : T) (e : Option (Error E))
      → (is_refused f.task ≡ not takes)
        × Agrees f.task f.system.world.promise
        × Answers f.task (f.system.callers i)
        × ((run v e f.system.world).0 ≡ ok (reports f.system.world.promise.resolved e))
  future_settles {f} takes l i v e =
      let (r, a, b) = Later-Kept takes l (new-Kept takes) in
      (
        b,
        a,
        returned-Answers f.task f.system.world.promise a (f.system.callers i)
            (get_answers zero_value r i),
        run-reports v e f.system.world (Reach-Inv zero_value r).world,
      )
