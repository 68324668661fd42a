-- ===== src/Promise/Effects/Reads.antt =====
-- promise/promise.go: a channel is read or given up by its owner.
use golang_core.Prelude.{
  ℕ, ◌≡◌, refl, ap, sym, ◌∙◌, subst, Bool, true, false, not, Option, some, List, ok, err, ◌≢◌,
  if◌then◌else◌,
}
use golang_core.Prelude.Exec.{continue, pure}
use golang_core.Promise.{World, outcome, without, deregister, remove_channel, receive}
use golang_core.Promise.Channels.{blocks, make_chan, drained, update, take_item, shut}
use golang_core.Promise.Entries.{occurs, not_in_empty, Removes, without-Removes, update_ne}
use golang_core.Promise.Effects.{WellFormed, Owned, Effect, same-Effect}
use golang_core.Promise.Effects.Settle.{Does}

module _ {T E : Type 0} where
  -- `close c`, when nothing is in it and it is no longer registered.
  abbrev removed : ℕ → List ℕ → World T E → World T E
  removed c ys w = record w {
    promise = record w.promise { channels = ys };
    heap = update w.heap c drained;
  }

  removed-Effect :
      (c : ℕ) (ys : List ℕ) (w : World T E)
      → WellFormed w
      → w.promise.resolved ≡ false
      → Removes c w.promise.channels ys
      → Effect c w (removed c ys w)
  removed-Effect c ys w wf q r = record {
    world = record {
      pending = wf.pending;
      settled = wf.settled;
      emptied = λ t. cc;
      open_ = λ j t.
          let n = other j t in update_ne w.heap c drained n ∙ wf.open_ j (sym (r.kept j n) ∙ t);
      below = λ j t. wf.below j (sym (r.kept j (other j t)) ∙ t);
      distinct = r.distinct;
    };
    owned =
        λ j n o. record { below = o.below; waits = λ t. r.kept j n ∙ o.waits t; holds = λ t. cc };
    stable = λ t. cc;
  }
    where
      other : (j : ℕ) → occurs j ys ≡ true → j ≢ c
      other j t e = absurd (cc (t, r.gone, e))

  gives_up-Does :
      (c : ℕ) (w : World T E) (x : Option (List ℕ))
      → WellFormed w
      → Owned w c
      → w.promise.resolved ≡ false
      → ((ys : List ℕ) × (x ≡ some ys) × Removes c w.promise.channels ys)
      → Does c w true (deregister c x w)
  gives_up-Does c w x wf o q (ys, e, r) =
      subst (λ x. Does c w true (deregister c x w)) (sym e)
        (subst
          (λ ch. Does c w true (
            let (r, y) = shut ch in
            continue
              (
                r,
                record w { promise = record w.promise { channels = ys }; heap = update w.heap c y },
              )
              (λ _. pure true)))
          (sym (wf.open_ c (o.waits q)))
          (record { value = refl; effect = removed-Effect c ys w wf q r }))

  chooses_removal-Does :
      (c : ℕ) (w : World T E) (b : Bool)
      → w.promise.resolved ≡ b
      → WellFormed w
      → Owned w c
      → Does c w (not b) (if b then pure false w else deregister c (without c w.promise.channels) w)
  chooses_removal-Does c w true q wf o = record { value = refl; effect = same-Effect w c wf }
  chooses_removal-Does c w false q wf o =
      gives_up-Does c w (without c w.promise.channels) wf o q
        (without-Removes c w.promise.channels wf.distinct (o.waits q))

  pub remove_channel-Does :
      (c : ℕ) (w : World T E)
      → WellFormed w
      → Owned w c
      → Does c w (not w.promise.resolved) (remove_channel c w)
  unfolding remove_channel
  remove_channel-Does c w wf o = chooses_removal-Does c w w.promise.resolved refl wf o

  keeps_late :
      (c : ℕ) (w : World T E) (b : Bool)
      → b ≡ true
      → Owned w c
      → Owned (if b then pure false w else deregister c (without c w.promise.channels) w).1 c
  keeps_late c w true q o = o
  keeps_late c w false q o = absurd cc

  -- After the result is there, a channel is not given up.
  pub remove_channel-Owned :
      (c : ℕ) (w : World T E)
      → w.promise.resolved ≡ true
      → Owned w c
      → Owned (remove_channel c w).1 c
  unfolding remove_channel
  remove_channel-Owned c w q o = keeps_late c w w.promise.resolved q o

  pub drained-Effect :
      (c : ℕ) (w : World T E)
      → WellFormed w
      → w.promise.resolved ≡ true
      → Effect c w (record w { heap = update w.heap c drained })
  drained-Effect c w wf q = record {
    world = record {
      pending = wf.pending;
      settled = wf.settled;
      emptied = wf.emptied;
      open_ = λ j t. absurd (not_in_empty j w.promise.channels (wf.emptied q) t);
      below = λ j t. absurd (not_in_empty j w.promise.channels (wf.emptied q) t);
      distinct = wf.distinct;
    };
    owned = λ j n o. record {
      below = o.below;
      waits = o.waits;
      holds = λ t. update_ne w.heap c drained n ∙ o.holds t;
    };
    stable = λ t. refl;
  }

  -- A channel whose owner has not read it gives the result once there is one.
  pub take_full :
      (c : ℕ) (w : World T E)
      → Owned w c
      → w.promise.resolved ≡ true
      → take_item (w.heap c) ≡ (ok (some (outcome w.promise)), drained)
  take_full c w o q = ap take_item (o.holds q)

  pub take_empty :
      (c : ℕ) (w : World T E)
      → WellFormed w
      → Owned w c
      → w.promise.resolved ≡ false
      → take_item (w.heap c) ≡ (err blocks, make_chan)
  take_empty c w wf o q = ap take_item (wf.open_ c (o.waits q))

  pub receive-Does :
      (c : ℕ) (w : World T E)
      → WellFormed w
      → Owned w c
      → w.promise.resolved ≡ true
      → Does c w (some (outcome w.promise)) (receive c w)
  receive-Does c w wf o q =
      subst
        (λ x. Does c w (some (outcome w.promise)) (x.0, record w { heap = update w.heap c x.1 }))
        (sym (take_full c w o q)) (record { value = refl; effect = drained-Effect c w wf q })
