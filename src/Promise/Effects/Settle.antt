-- ===== src/Promise/Effects/Settle.antt =====
-- promise/promise.go: `Resolve` and `Reject`.
use golang_core.Prelude.{
  ℕ, [], ◌≡◌, refl, ap, sym, ◌∙◌, subst, Bool, Bool-cases, true, false, Option, none, some, Result,
  ok, inl, inr, if◌then◌else◌,
}
use golang_core.Prelude.Exec.{continue, continue-ok, pure}
use golang_core.Promise.{
  Promise, World, Error, already_resolved, nil_error, complete, resolve, reject, answer,
}
use golang_core.Promise.Entries.{occurs, Distinct}
use golang_core.Promise.Channels.{Fault}
use golang_core.Promise.Effects.{
  Settled, WellFormed, Effect, Completes, same-Effect, complete-Completes, completed-Effect,
}

-- The answer of `Resolve` and of `Reject` for an error.
abbrev pub settles_once : {E : Type 0} → Bool → Option (Error E)
settles_once true = some already_resolved
settles_once false = none

module _ {T E : Type 0} where
  -- A call that holds the mutex does what it should: it returns `a`, and the channel `c` is the only one whose owner may
  -- find it changed.
  pub record Does {A : Type 0} (c : ℕ) (w : World T E) (a : A) (r : Result Fault A × World T E)
      : Type 0 where
    pub value : r.0 ≡ ok a
    pub effect : Effect c w r.1

  answered-Does :
      (w : World T E) (p : Promise T E) (c : ℕ) (r : Result Fault (Unit {0}) × World T E)
      → WellFormed w
      → w.promise.resolved ≡ false
      → p.channels ≡ w.promise.channels
      → Settled p
      → Completes (record w { promise = p }) r
      → Does {A = Option (Error E)} c w none (continue r (λ _. pure none))
  answered-Does w p c r wf q same s h =
      subst (Does {A = Option (Error E)} c w none) (sym (continue-ok r (λ _. pure none) h.value))
        (record { value = refl; effect = completed-Effect w p r c wf q same s h })

  sets-Does :
      (p : Promise T E) (w : World T E) (c : ℕ)
      → WellFormed w
      → w.promise.resolved ≡ false
      → p.channels ≡ w.promise.channels
      → Settled p
      → Does c w none (answer none complete (record w { promise = p }))
  sets-Does p w c wf q same s =
      answered-Does w p c (complete (record w { promise = p })) wf q same s (
        complete-Completes (record w { promise = p }) (subst Distinct (sym same) wf.distinct)
          (λ j t. wf.open_ j (sym (ap (occurs j) same) ∙ t)))

  refused-Does :
      (w : World T E) (c : ℕ) (e : Option (Error E)) → WellFormed w → Does c w e (pure e w)
  refused-Does w c e wf = record { value = refl; effect = same-Effect w c wf }

  chooses-Does :
      (p : Promise T E) (w : World T E) (c : ℕ) (b : Bool)
      → w.promise.resolved ≡ b
      → WellFormed w
      → p.channels ≡ w.promise.channels
      → (b ≡ false → Settled p)
      → Does c w (settles_once b) (
          if b
          then pure (some already_resolved) w
          else answer none complete (record w { promise = p }))
  chooses-Does p w c true q wf same s = refused-Does w c (some already_resolved) wf
  chooses-Does p w c false q wf same s = sets-Does p w c wf q same (s refl)

  pub resolve-Does :
      (v : T) (w : World T E) (c : ℕ)
      → WellFormed w
      → Does c w (settles_once w.promise.resolved) (resolve v w)
  unfolding resolve
  resolve-Does v w c wf =
      chooses-Does (record w.promise { value = some v }) w c w.promise.resolved refl wf refl
        (λ q. inl (v, refl, (wf.pending q).1))

  pub reject-Does :
      (e : Error E) (w : World T E) (c : ℕ)
      → WellFormed w
      → Does c w (settles_once w.promise.resolved) (reject (some e) w)
  unfolding reject
  reject-Does e w c wf =
      chooses-Does (record w.promise { error = some e }) w c w.promise.resolved refl wf refl
        (λ q. inr (e, (wf.pending q).0, refl))

  pub reject_nil-Does :
      (w : World T E) (c : ℕ) → WellFormed w → Does c w (some nil_error) (reject none w)
  unfolding reject
  reject_nil-Does w c wf = refused-Does w c (some nil_error) wf

  abbrev pub settled_with : Promise T E → Promise T E
  settled_with p = record p { channels = []; resolved = true }

  completed_promise :
      (w : World T E) (r : Result Fault (Unit {0}) × World T E) (a : Option (Error E))
      → Completes w r
      → (continue {B = Option (Error E)} r (λ _. pure a)).1.promise ≡ settled_with w.promise
  completed_promise w r a h =
      ap (λ (x : Result Fault (Option (Error E)) × World T E). x.1.promise)
        (continue-ok r (λ _. pure a) h.value)
      ∙ h.promise

  chooses_promise :
      (p : Promise T E) (w : World T E) (b : Bool)
      → b ≡ false
      → WellFormed w
      → p.channels ≡ w.promise.channels
      → (if b
          then pure (some already_resolved) w
          else answer none complete (record w { promise = p })).1.promise
        ≡ settled_with p
  chooses_promise p w true q wf same = absurd cc
  chooses_promise p w false q wf same =
      completed_promise (record w { promise = p }) (complete (record w { promise = p })) none
        (complete-Completes (record w { promise = p }) (subst Distinct (sym same) wf.distinct)
          (λ j t. wf.open_ j (sym (ap (occurs j) same) ∙ t)))

  -- A pending promise gets what it is given.
  pub resolve_settles :
      (v : T) (w : World T E)
      → WellFormed w
      → w.promise.resolved ≡ false
      → (resolve v w).1.promise ≡ settled_with (record w.promise { value = some v })
  unfolding resolve
  resolve_settles v w wf q =
      chooses_promise (record w.promise { value = some v }) w w.promise.resolved q wf refl

  pub reject_settles :
      (e : Error E) (w : World T E)
      → WellFormed w
      → w.promise.resolved ≡ false
      → (reject (some e) w).1.promise ≡ settled_with (record w.promise { error = some e })
  unfolding reject
  reject_settles e w wf q =
      chooses_promise (record w.promise { error = some e }) w w.promise.resolved q wf refl

  -- The promise after a call that settles it with `p` if it is pending.
  abbrev pub once : Promise T E → Promise T E → Promise T E
  once old p = if old.resolved then old else settled_with p

  pub resolve-once :
      (v : T) (w : World T E)
      → WellFormed w
      → (resolve v w).1.promise ≡ once w.promise (record w.promise { value = some v })
  resolve-once v w wf = elim (Bool-cases w.promise.resolved) [
    | inl t ↦
        (resolve-Does v w 0 wf).effect.stable t
        ∙ ap (λ b. if b then w.promise else settled_with (record w.promise { value = some v }))
            (sym t)
    | inr f ↦
        resolve_settles v w wf f
        ∙ ap (λ b. if b then w.promise else settled_with (record w.promise { value = some v }))
            (sym f)
  ]

  pub reject-once :
      (e : Error E) (w : World T E)
      → WellFormed w
      → (reject (some e) w).1.promise ≡ once w.promise (record w.promise { error = some e })
  reject-once e w wf = elim (Bool-cases w.promise.resolved) [
    | inl t ↦
        (reject-Does e w 0 wf).effect.stable t
        ∙ ap (λ b. if b then w.promise else settled_with (record w.promise { error = some e }))
            (sym t)
    | inr f ↦
        reject_settles e w wf f
        ∙ ap (λ b. if b then w.promise else settled_with (record w.promise { error = some e }))
            (sym f)
  ]
