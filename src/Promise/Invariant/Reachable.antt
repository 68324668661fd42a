-- ===== src/Promise/Invariant/Reachable.antt =====
-- promise/promise.go: the invariant of the whole system, true at the start and kept by every step.
use golang_core.Prelude.{
  ℕ, ◌≡◌, ◌≢◌, refl, ap, sym, ◌∙◌, subst, true, Option, none, some, Result, ok, err, inl, inr,
  ℕ_discrete, arith,
}
use golang_core.Promise.{World, Error, new_world, outcome, read_result, reject}
use golang_core.Promise.Channels.{Fault, update}
use golang_core.Promise.Entries.{not_in_empty, Distinct, update_self, update_ne}
use golang_core.Promise.Getter.{
  Getter, calling, first_look, selecting, second_look, leaving, awaiting, returned,
}
use golang_core.Promise.System.{
  System, Step, gets, subscribes, resolves, rejects, Later, now, later, Reach, init,
}
use golang_core.Promise.Effects.{WellFormed, Effect}
use golang_core.Promise.Effects.Settle.{resolve-Does, reject-Does, reject_nil-Does}
use golang_core.Promise.Effects.Channels.{add_channel-Adds}
use golang_core.Promise.Invariant.{
  channel_of, used, Owns, Answered, Progress, Goes, goes, waits, get_step-Goes, subscribe-Goes,
}
use golang_core.Prelude.Exec.{continue, pure}
use mathlib.Core.List.{[]}

pub new-WellFormed : {T E : Type 0} → WellFormed {T = T} {E = E} new_world
unfolding Distinct
new-WellFormed = record {
  pending = λ q. (refl, refl);
  settled = λ q. absurd cc;
  emptied = λ q. absurd cc;
  open_ = λ c q. refl;
  below = λ c q. absurd (not_in_empty c [] refl q);
  distinct = tt;
}

updated :
    {A : Type 0} (P : ℕ → A → Type 0) (f : ℕ → A) (i : ℕ) (a : A)
    → P i a
    → ((j : ℕ) → j ≢ i → P j (f j))
    → (j : ℕ) → P j (update f i a j)
updated P f i a p h j = elim (ℕ_discrete j i) [
  | yes e ↦ subst (λ k. P k (update f i a k)) (sym e) (subst (P i) (sym (update_self f i a)) p)
  | no n ↦ subst (P j) (sym (update_ne f i a n)) (h j n)
]

module _ {T E : Type 0} (zero_value : T) where
  pub record Inv (s : System T E) : Type 0 where
    pub world : WellFormed s.world
    pub owns : (i : ℕ) → Owns s.world (s.callers i)
    pub answers : (i : ℕ) → Answered zero_value s.world (s.callers i)
    pub unique :
        (i j c : ℕ) → channel_of (s.callers i) ≡ some c → channel_of (s.callers j) ≡ some c → i ≡ j

  Effect-Answered :
      {c : ℕ} {w u : World T E}
      → Effect c w u
      → (p : Getter T E) → Answered zero_value w p
      → Answered zero_value u p
  Effect-Answered f calling a = tt
  Effect-Answered f (first_look c) a = tt
  Effect-Answered f (selecting c) a = tt
  Effect-Answered f (second_look c e) a = tt
  Effect-Answered f (leaving c e) a = tt
  Effect-Answered f (awaiting c) a = tt
  Effect-Answered f (returned v e) (inl a) = inl a
  Effect-Answered f (returned v e) (inr (q, r)) = inr (
    ap (λ p. p.resolved) (f.stable q) ∙ q,
    ap (λ p. read_result zero_value (some (outcome p))) (f.stable q) ∙ r,
  )

  not_next :
      {s : System T E} → Inv s → (j d : ℕ) → channel_of (s.callers j) ≡ some d → d ≢ s.world.next
  not_next inv j d q e = omega (arith, (inv.owns j d q).below)

  not_used :
      {s : System T E}
      → Inv s
      → (i j d : ℕ) (o : Option ℕ) → channel_of (s.callers i) ≡ o
      → j ≢ i
      → channel_of (s.callers j) ≡ some d
      → d ≢ (elim o [ some c ↦ c | none ↦ s.world.next ])
  not_used inv i j d none q n r e = not_next inv j d r e
  not_used inv i j d (some c) q n r e = n (inv.unique j i d r (q ∙ ap some (sym e)))

  -- A step of the caller `i`.
  move-Inv :
      {s : System T E} (i : ℕ) {p : Getter T E} {u : World T E}
      → Inv s
      → Progress zero_value (used (s.callers i) s.world) s.world p u
      → Inv (record { world = u; callers = update s.callers i p })
  move-Inv {s} i {p} {u} inv g = record {
    world = g.effect.world;
    owns =
        updated (λ j. Owns u) s.callers i p (λ d q. (g.mine d q).1)
          (λ j n d q. g.effect.owned d (differs j n d q) (inv.owns j d q));
    answers =
        updated (λ j. Answered zero_value u) s.callers i p g.answer
          (λ j n. Effect-Answered g.effect (s.callers j) (inv.answers j));
    unique =
        updated
          (λ j x.
            (k c : ℕ)
            → channel_of x ≡ some c
            → channel_of (update s.callers i p k) ≡ some c
            → j ≡ k)
          s.callers i p
          (updated (λ k y. (c : ℕ) → channel_of p ≡ some c → channel_of y ≡ some c → i ≡ k)
            s.callers i p (λ c q r. refl) (λ k n c q r. absurd (differs k n c r (g.mine c q).0)))
          (λ j n.
            updated
              (λ k y. (c : ℕ) → channel_of (s.callers j) ≡ some c → channel_of y ≡ some c → j ≡ k)
              s.callers i p (λ c q r. absurd (differs j n c q (g.mine c r).0))
              (λ k m c q r. inv.unique j k c q r));
  }
    where
      differs :
          (j : ℕ)
          → j ≢ i
          → (d : ℕ) → channel_of (s.callers j) ≡ some d
          → d ≢ used (s.callers i) s.world
      differs j n d q = not_used inv i j d (channel_of (s.callers i)) refl n q

  -- A step that is not of a caller.
  settle-Inv :
      {s : System T E} {u : World T E}
      → Inv s
      → Effect s.world.next s.world u
      → Inv (record s { world = u })
  settle-Inv {s} inv f = record {
    world = f.world;
    owns = λ j d q. f.owned d (not_next inv j d q) (inv.owns j d q);
    answers = λ j. Effect-Answered f (s.callers j) (inv.answers j);
    unique = inv.unique;
  }

  reject-Effect :
      (x : Option (Error E)) (w : World T E) → WellFormed w → Effect w.next w (reject x w).1
  reject-Effect none w wf = (reject_nil-Does w w.next wf).effect
  reject-Effect (some e) w wf = (reject-Does e w w.next wf).effect

  abbrev Progresses : ℕ → World T E → Result Fault (Getter T E) × World T E → Type 0
  Progresses c w (ok p, u) = Progress zero_value c w p u
  Progresses c w (err f, u) = Unit {0}

  Goes-Progresses :
      {c : ℕ} {w : World T E} {q : Getter T E} {r : Result Fault (Getter T E) × World T E}
      → Goes zero_value c w q r
      → Progresses c w r
  Goes-Progresses (goes g less) = g
  Goes-Progresses (waits i f) = tt

  pub Step-Inv : {s t : System T E} → Step zero_value s t → Inv s → Inv t
  Step-Inv {s} (gets i r e) inv =
      let g =
        get_step-Goes zero_value r (s.callers i) s.world inv.world (inv.owns i) (inv.answers i) in
      move-Inv i inv (subst (Progresses (used (s.callers i) s.world) s.world) e (Goes-Progresses g))
  Step-Inv {s} (subscribes i c {w} q e) inv =
      let g = Goes-Progresses (subscribe-Goes zero_value s.world inv.world) in
      move-Inv i inv (
        subst (λ x. Progress zero_value (used x s.world) s.world (awaiting c) w) (sym q)
          (subst (λ r. Progresses s.world.next s.world (continue r (λ c. pure (awaiting c)))) e g))
  Step-Inv {s} (resolves v e) inv = settle-Inv inv (
      subst (Effect s.world.next s.world) (ap (λ x. x.1) e)
        (resolve-Does v s.world s.world.next inv.world).effect)
  Step-Inv {s} (rejects x e) inv =
      settle-Inv inv
        (subst (Effect s.world.next s.world) (ap (λ x. x.1) e) (reject-Effect x s.world inv.world))

  Step-Effect :
      {s t : System T E} → Step zero_value s t → Inv s → (c : ℕ) × Effect c s.world t.world
  Step-Effect {s} (gets i r e) inv =
      let g =
        get_step-Goes zero_value r (s.callers i) s.world inv.world (inv.owns i) (inv.answers i) in
      let p = subst (Progresses (used (s.callers i) s.world) s.world) e (Goes-Progresses g) in
      (used (s.callers i) s.world, p.effect)
  Step-Effect {s} (subscribes i c q e) inv = (
    s.world.next,
    subst (Effect s.world.next s.world) (ap (λ x. x.1) e)
        (add_channel-Adds s.world inv.world).does.effect,
  )
  Step-Effect {s} (resolves v e) inv = (
    s.world.next,
    subst (Effect s.world.next s.world) (ap (λ x. x.1) e)
        (resolve-Does v s.world s.world.next inv.world).effect,
  )
  Step-Effect {s} (rejects x e) inv = (
    s.world.next,
    subst (Effect s.world.next s.world) (ap (λ x. x.1) e) (reject-Effect x s.world inv.world),
  )

  pub Later-Inv : {s t : System T E} → Inv s → Later zero_value s t → Inv t
  Later-Inv inv now = inv
  Later-Inv inv (later r st) = Step-Inv st (Later-Inv inv r)

  pub Later-stable :
      {s t : System T E}
      → Inv s
      → s.world.promise.resolved ≡ true
      → Later zero_value s t
      → t.world.promise ≡ s.world.promise
  Later-stable inv q now = refl
  Later-stable {s} inv q (later {t} r st) =
      let same = Later-stable inv q r in
      let (c, f) = Step-Effect st (Later-Inv inv r) in
      f.stable (ap (λ p. p.resolved) same ∙ q) ∙ same

  init-Inv : Inv init
  init-Inv = record {
    world = new-WellFormed;
    owns = λ i d q. absurd cc;
    answers = λ i. tt;
    unique = λ i j c q. absurd cc;
  }

  pub Reach-Inv : {s : System T E} → Reach zero_value s → Inv s
  Reach-Inv r = Later-Inv init-Inv r
