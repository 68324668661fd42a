-- ===== src/Promise/Laws.antt =====
-- promise/promise.go: what callers can rely on, in every state that a promise may come to.
use golang_core.Prelude.{
  ℕ, arith, ◌≡◌, ◌≤◌, ◌-◌, refl, ap, sym, ◌∙◌, subst, true, false, Option, none, some, Result, ok,
  err, inl, inr, ◌⊎◌,
}
use golang_core.Promise.{
  Promise, World, Error, other, outcome, read_result, resolve, reject, add_channel,
}
use golang_core.Promise.Channels.{Fault, blocks}
use golang_core.Promise.Getter.{
  Getter, Ready, calling, first_look, selecting, second_look, leaving, awaiting, returned, get_step,
}
use golang_core.Promise.System.{System, Later, Reach}
use golang_core.Promise.Effects.Settle.{
  settles_once, once, resolve-Does, reject-Does, resolve-once, reject-once,
}
use golang_core.Promise.Effects.Channels.{add_channel-Adds}
use golang_core.Promise.Invariant.{Goes, goes, waits, rank, is_waiting, Answered, get_step-Goes}
use golang_core.Promise.Invariant.Reachable.{Reach-Inv, Later-stable}

module _ {T E : Type 0} (zero_value : T) where
  read_value :
      (p : Promise T E) (v : T)
      → p.value ≡ some v
      → read_result zero_value (some (outcome p)) ≡ (v, none)
  read_value p v q = ground arith

  read_error :
      (p : Promise T E) (e : Error E)
      → p.value ≡ none
      → p.error ≡ some e
      → read_result zero_value (some (outcome p)) ≡ (zero_value, some e)
  read_error p e q r = ground arith

  rank_bound : (p : Getter T E) → rank p ≤ 2
  rank_bound calling = omega arith
  rank_bound (first_look c) = omega arith
  rank_bound (selecting c) = omega arith
  rank_bound (second_look c e) = omega arith
  rank_bound (leaving c e) = omega arith
  rank_bound (awaiting c) = omega arith
  rank_bound (returned v e) = omega arith

  sooner :
      {c : ℕ} {w : World T E} {q : Getter T E} {r : Result Fault (Getter T E) × World T E}
      → w.promise.resolved ≡ true
      → Goes zero_value c w q r
      → (p : Getter T E) × (u : World T E) × (r ≡ (ok p, u)) × (rank p ≤ rank q - 1)
  sooner t (goes {p} {u} g less) = (p, u, refl, less t)
  sooner t (waits i f) = absurd cc

  steps :
      {c : ℕ} {w : World T E} {q : Getter T E} {r : Result Fault (Getter T E) × World T E}
      → Goes zero_value c w q r
      → ((p : Getter T E) × (u : World T E) × (r ≡ (ok p, u)))
        ⊎ ((is_waiting q ≡ true) × (w.promise.resolved ≡ false) × (r.0 ≡ err blocks))
  steps (goes {p} {u} g less) = inl (p, u, refl)
  steps (waits i f) = inr (i, f, refl)

module _ {T E : Type 0} (zero_value : T) {s : System T E} where
  -- In every state that is reached, `Resolve`, `Reject` of an error and `addChannel` come to their end: no
  -- send and no close of a closed channel, and no send that waits. If the promise is pending, `Resolve` and
  -- `Reject` return no error and settle it with the value or the error that they are given; if it is
  -- settled, they return ErrAlreadyResolved and leave it as it is. `addChannel` returns a new channel. Each
  -- step of a call of `Get` succeeds too, but for a receive on a promise that is pending, which waits.
  pub calls_end :
      Reach zero_value s
      → (v : T) (x : Error E) (i : ℕ) (r : Ready E)
      → ((resolve v s.world).0 ≡ ok (settles_once s.world.promise.resolved))
        × ((resolve v s.world).1.promise
            ≡ once s.world.promise (record s.world.promise { value = some v }))
        × ((reject (some x) s.world).0 ≡ ok (settles_once s.world.promise.resolved))
        × ((reject (some x) s.world).1.promise
            ≡ once s.world.promise (record s.world.promise { error = some x }))
        × ((add_channel s.world).0 ≡ ok s.world.next)
        × (((p : Getter T E) × (u : World T E) × (get_step zero_value r (s.callers i) s.world
                ≡ (ok p, u)))
            ⊎ ((is_waiting (s.callers i) ≡ true)
                × (s.world.promise.resolved ≡ false)
                × ((get_step zero_value r (s.callers i) s.world).0 ≡ err blocks)))
  calls_end r v x i k =
      let inv = Reach-Inv zero_value r in
      (
        (resolve-Does v s.world 0 inv.world).value,
        resolve-once v s.world inv.world,
        (reject-Does x s.world 0 inv.world).value,
        reject-once x s.world inv.world,
        (add_channel-Adds s.world inv.world).does.value,
        steps zero_value (
            get_step-Goes zero_value k (s.callers i) s.world inv.world (inv.owns i)
              (inv.answers i)),
      )

  -- What a call of `Get` returns: the error of its context with the zero value, or the value that the
  -- promise was resolved with and no error, or the error that it was rejected with and the zero value.
  pub get_answers :
      Reach zero_value s
      → (i : ℕ) (v : T) (e : Option (Error E)) → s.callers i ≡ returned v e
      → ((x : E) × (e ≡ some (other x)) × (v ≡ zero_value))
        ⊎ ((s.world.promise.value ≡ some v) × (e ≡ none))
        ⊎ ((x : Error E) × (e ≡ some x) × (s.world.promise.error ≡ some x) × (v ≡ zero_value))
  get_answers r i v e q =
      let inv = Reach-Inv zero_value r in
      elim (subst (Answered zero_value s.world) q (inv.answers i)) [
        | inl a ↦ inl a
        | inr (t, a) ↦ inr (elim (inv.world.settled t) [
          | inl (x, h, n) ↦
              let b = sym (read_value zero_value s.world.promise x h) ∙ a in
              inl (
                h ∙ ap {A = T × Option (Error E)} (λ y. some y.0) b,
                ap {A = T × Option (Error E)} (λ y. y.1) (sym b),
              )
          | inr (x, n, h) ↦
              let b = sym (read_error zero_value s.world.promise x n h) ∙ a in
              inr (
                x,
                ap {A = T × Option (Error E)} (λ y. y.1) (sym b),
                h,
                ap {A = T × Option (Error E)} (λ y. y.0) (sym b),
              )
        ])
      ]

  -- A settled promise stays as it is, whatever is called afterwards.
  pub settled_stays :
      {t : System T E}
      → Reach zero_value s
      → s.world.promise.resolved ≡ true
      → Later zero_value s t
      → t.world.promise ≡ s.world.promise
  settled_stays r q l = Later-stable zero_value (Reach-Inv zero_value r) q l

  -- Once the promise is settled, no call of `Get` waits any more, whichever case its `select` takes: each
  -- step of it succeeds and brings it nearer to its return, from which it is two steps away at most.
  pub settled_returns :
      Reach zero_value s
      → s.world.promise.resolved ≡ true
      → (i : ℕ) (r : Ready E)
      → (rank (s.callers i) ≤ 2)
        × ((p : Getter T E) × (u : World T E) × (get_step zero_value r (s.callers i) s.world
              ≡ (ok p, u))
            × (rank p ≤ rank (s.callers i) - 1))
  settled_returns r q i k =
      let inv = Reach-Inv zero_value r in
      let (p, u, e, less) =
        sooner zero_value q (
          get_step-Goes zero_value k (s.callers i) s.world inv.world (inv.owns i)
            (inv.answers i)) in
      (rank_bound zero_value (s.callers i), (p, u, e, less))
