-- ===== src/Promise/Invariant.antt =====
-- promise/promise.go: what holds in every state, and that each step of a call of `Get` keeps it.
pub mod Reachable
use golang_core.Prelude.{
  ℕ, arith, ◌≤◌, ◌-◌, ◌≡◌, refl, ap, sym, ◌∙◌, subst, Bool, true, false, not, Bool-cases, Option,
  none, some, Result, ok, err, ◌⊎◌, inl, inr,
}
use golang_core.Prelude.Exec.{continue, continue-ok, pure}
use golang_core.Promise.{
  World, Error, Item, other, outcome, read_result, add_channel, remove_channel, receive,
}
use golang_core.Promise.Channels.{Chan, Fault, blocks, make_chan, drained, update, take_item}
use golang_core.Promise.Getter.{
  Getter, Ready, calling, first_look, selecting, second_look, leaving, awaiting, returned,
  by_channel, by_context, get_step, return_result, try_read_result, looked, after_removal,
}
use golang_core.Promise.Effects.{WellFormed, Owned, Effect, same-Effect}
use golang_core.Promise.Effects.Settle.{Does}
use golang_core.Promise.Effects.Channels.{Adds, add_channel-Adds}
use golang_core.Promise.Effects.Reads.{
  remove_channel-Does, remove_channel-Owned, drained-Effect, take_full, take_empty, receive-Does,
}

module _ {T E : Type 0} where
  -- The channel that a caller has not read.
  abbrev pub channel_of : Getter T E → Option ℕ
  channel_of calling = none
  channel_of (first_look c) = some c
  channel_of (selecting c) = some c
  channel_of (second_look c e) = some c
  channel_of (leaving c e) = some c
  channel_of (awaiting c) = some c
  channel_of (returned v e) = none

  -- The channel that its next step uses.
  abbrev pub used : Getter T E → World T E → ℕ
  used p w = elim (channel_of p) [ some c ↦ c | none ↦ w.next ]

  -- Whether a caller is in a receive that waits.
  abbrev pub is_waiting : Getter T E → Bool
  is_waiting (selecting c) = true
  is_waiting (awaiting c) = true
  is_waiting p = false

  -- How many steps a call has left at most, once the promise is settled.
  abbrev pub rank : Getter T E → ℕ
  rank calling = 2
  rank (first_look c) = 1
  rank (selecting c) = 2
  rank (second_look c e) = 1
  rank (leaving c e) = 2
  rank (awaiting c) = 1
  rank (returned v e) = 0

  abbrev pub Owns : World T E → Getter T E → Type 0
  Owns w p = (d : ℕ) → channel_of p ≡ some d → Owned w d

module _ {T E : Type 0} (zero_value : T) where
  -- What a call that has returned may have returned: the error of its context, or the result.
  abbrev pub Answered : World T E → Getter T E → Type 0
  Answered w (returned v e) =
      ((x : E) × (e ≡ some (other x)) × (v ≡ zero_value))
      ⊎ ((w.promise.resolved ≡ true) × (read_result zero_value (some (outcome w.promise)) ≡ (v, e)))
  Answered w p = Unit {0}

  -- The caller that made the step is now at `p`, in the state `u`.
  pub record Progress (c : ℕ) (w : World T E) (p : Getter T E) (u : World T E) : Type 0 where
    pub effect : Effect c w u
    pub mine : (d : ℕ) → channel_of p ≡ some d → (d ≡ c) × Owned u d
    pub answer : Answered u p

  -- A step goes on, or it waits for a promise that is pending.
  pub data Goes (c : ℕ) (w : World T E) (q : Getter T E)
      : Result Fault (Getter T E) × World T E → Type 0 where
    goes :
        {p : Getter T E} {u : World T E}
        → Progress c w p u
        → (w.promise.resolved ≡ true → rank p ≤ rank q - 1)
        → Goes c w q (ok p, u)
    waits :
        {u : World T E}
        → is_waiting q ≡ true
        → w.promise.resolved ≡ false
        → Goes c w q (err blocks, u)

  own_here : (c : ℕ) (u : World T E) → Owned u c → (d : ℕ) → some c ≡ some d → (d ≡ c) × Owned u d
  own_here c u o d e = let q : c ≡ d = cc in (sym q, subst (Owned u) q o)

  Does-Goes :
      {A : Type 0} {c : ℕ} {w : World T E} {q : Getter T E} {a : A} {r : Result Fault A × World T E}
      (f : A → Getter T E)
      → Does c w a r
      → Progress c w (f a) r.1
      → (w.promise.resolved ≡ true → rank (f a) ≤ rank q - 1)
      → Goes c w q (continue r (λ x. pure (f x)))
  Does-Goes {c = c} {w = w} {q = q} {r = r} f d p less =
      subst (Goes c w q) (sym (continue-ok r (λ x. pure (f x)) d.value)) (goes p less)

  -- What was in the channel is returned.
  took-Progress :
      (c : ℕ) (w : World T E)
      → WellFormed w
      → w.promise.resolved ≡ true
      → Progress c w
          (return_result zero_value (some (outcome w.promise)))
          (record w { heap = update w.heap c drained })
  took-Progress c w wf q = record {
    effect = drained-Effect c w wf q;
    mine = λ d e. absurd cc;
    answer = inr (q, refl);
  }

  stays-Progress :
      (c : ℕ) (w : World T E) (p : Getter T E)
      → WellFormed w
      → Owned w c
      → channel_of p ≡ some c
      → Answered w p
      → Progress c w p w
  stays-Progress c w p wf o e a = record {
    effect = same-Effect w c wf;
    mine = λ d q. own_here c w o d (sym e ∙ q);
    answer = a;
  }

  looks-Goes :
      (c : ℕ) (w : World T E) (p q : Getter T E)
      → WellFormed w
      → Owned w c
      → channel_of p ≡ some c
      → Answered w p
      → Goes c w q (try_read_result zero_value c p w)
  looks-Goes c w p q wf o e a = elim (Bool-cases w.promise.resolved) [
    | inl t ↦
        subst (λ x. Goes c w q (looked zero_value w c p x)) (sym (take_full c w o t))
          (goes (took-Progress c w wf t) (λ x. omega arith))
    | inr f ↦
        subst (λ x. Goes c w q (looked zero_value w c p x)) (sym (take_empty c w wf o f))
          (goes (stays-Progress c w p wf o e a) (λ x. cc))
  ]

  receives-Goes :
      (c : ℕ) (w : World T E) (q : Getter T E)
      → is_waiting q ≡ true
      → WellFormed w
      → Owned w c
      → Goes c w q (continue (receive c w) (λ x. pure (return_result zero_value x)))
  receives-Goes c w q i wf o = elim (Bool-cases w.promise.resolved) [
    | inl t ↦
        subst (λ x. Goes c w q (received x)) (sym (take_full c w o t))
          (goes (took-Progress c w wf t) (λ x. omega arith))
    | inr f ↦ subst (λ x. Goes c w q (received x)) (sym (take_empty c w wf o f)) (waits i f)
  ]
    where
      received :
          Result Fault (Option (Item T E)) × Chan (Item T E) → Result Fault (Getter T E) × World T E
      received x =
          continue (x.0, record w { heap = update w.heap c x.1 })
            (λ y. pure (return_result zero_value y))

  leaves-Progress :
      (c : ℕ) (e : E) (w u : World T E) (b : Bool)
      → (b ≡ true → Owned u c)
      → Effect c w u
      → Progress c w (after_removal zero_value c e (not b)) u
  leaves-Progress c e w u true o f = record {
    effect = f;
    mine = own_here c u (o refl);
    answer = tt;
  }
  leaves-Progress c e w u false o f = record {
    effect = f;
    mine = λ d q. absurd cc;
    answer = inl (e, refl, refl);
  }

  rank_removal : (c : ℕ) (e : E) (b : Bool) → rank (after_removal zero_value c e (not b)) ≤ 1
  rank_removal c e true = omega arith
  rank_removal c e false = omega arith

  adds-Goes :
      (f : ℕ → Getter T E) (w : World T E)
      → WellFormed w
      → channel_of (f w.next) ≡ some w.next
      → Answered (add_channel w).1 (f w.next)
      → rank (f w.next) ≡ 1
      → Goes w.next w calling (continue (add_channel w) (λ c. pure (f c)))
  adds-Goes f w wf e a m =
      let adds = add_channel-Adds w wf in
      Does-Goes f adds.does
        (record {
          effect = adds.does.effect;
          mine = λ d q. own_here w.next (add_channel w).1 adds.mine d (sym e ∙ q);
          answer = a;
        })
        (λ x. omega (arith, m))

  pub subscribe-Goes :
      (w : World T E)
      → WellFormed w
      → Goes w.next w calling (continue (add_channel w) (λ c. pure (awaiting c)))
  subscribe-Goes w wf = adds-Goes awaiting w wf refl tt refl

  pub get_step-Goes :
      (r : Ready E) (p : Getter T E) (w : World T E)
      → WellFormed w
      → Owns w p
      → Answered w p
      → Goes (used p w) w p (get_step zero_value r p w)
  get_step-Goes r calling w wf o a = adds-Goes first_look w wf refl tt refl
  get_step-Goes r (first_look c) w wf o a =
      looks-Goes c w (selecting c) (first_look c) wf (o c refl) refl tt
  get_step-Goes by_channel (selecting c) w wf o a =
      receives-Goes c w (selecting c) refl wf (o c refl)
  get_step-Goes (by_context e) (selecting c) w wf o a =
      goes (stays-Progress c w (second_look c e) wf (o c refl) refl tt) (λ x. omega arith)
  get_step-Goes r (second_look c e) w wf o a =
      looks-Goes c w (leaving c e) (second_look c e) wf (o c refl) refl tt
  get_step-Goes r (leaving c e) w wf o a =
      let does = remove_channel-Does c w wf (o c refl) in
      Does-Goes (after_removal zero_value c e) does
        (leaves-Progress c e w (remove_channel c w).1 w.promise.resolved
          (λ t. remove_channel-Owned c w t (o c refl)) does.effect)
        (λ t. rank_removal c e w.promise.resolved)
  get_step-Goes r (awaiting c) w wf o a = receives-Goes c w (awaiting c) refl wf (o c refl)
  get_step-Goes r (returned v e) w wf o a =
      goes (record { effect = same-Effect w w.next wf; mine = λ d q. absurd cc; answer = a })
        (λ x. omega arith)
