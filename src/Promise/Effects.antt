-- ===== src/Promise/Effects.antt =====
-- promise/promise.go: what each operation does to the promise and to the channels that callers own.
pub mod Settle
pub mod Channels
pub mod Reads
use golang_core.Prelude.{
  ℕ, suc, ◌<◌, ◌≡◌, refl, ap, sym, ◌∙◌, subst, Bool, true, false, Bool-cases, Option, none, some,
  List, [], ◌∷◌, ◌++◌, Result, ok, err, ite, if_pos, ℕ_discrete, arith, ◌⊎◌, inl, inr, ◌≢◌,
}
use golang_core.Prelude.Exec.{◌>>◌, continue, continue-ok}
use golang_core.Promise.{
  Promise, World, Item, Error, Op, already_resolved, send_all, complete, resolve, reject, outcome,
  without, add_channel, remove_channel, receive, drop_channels, left_of, right_of,
  get_resolved_value, promise_resolved, close, allocate, register, answer,
}
use golang_core.Promise.Channels.{Chan, Fault, blocks, make_chan, full, drained, update}
use golang_core.Promise.Entries.{occurs, Distinct, not_in_empty}
use golang_core.Promise.Complete.{Sends, send_all-Sends, send_close, filled_world}

module _ {T E : Type 0} where
  -- Exactly one of the value and the error is set.
  abbrev pub Settled : Promise T E → Type 0
  Settled p =
      ((v : T) × (p.value ≡ some v) × (p.error ≡ none))
      ⊎ ((e : Error E) × (p.value ≡ none) × (p.error ≡ some e))

  pub record WellFormed (w : World T E) : Type 0 where
    pub pending : w.promise.resolved ≡ false → (w.promise.value ≡ none) × (w.promise.error ≡ none)
    pub settled : w.promise.resolved ≡ true → Settled w.promise
    pub emptied : w.promise.resolved ≡ true → w.promise.channels ≡ []
    pub open_ : (c : ℕ) → occurs c w.promise.channels ≡ true → w.heap c ≡ make_chan
    pub below : (c : ℕ) → occurs c w.promise.channels ≡ true → c < w.next
    pub distinct : Distinct w.promise.channels

  -- The channel of a caller that has not read it: registered as long as the promise is pending, and
  -- full of its result from then on.
  pub record Owned (w : World T E) (c : ℕ) : Type 0 where
    pub below : c < w.next
    pub waits : w.promise.resolved ≡ false → occurs c w.promise.channels ≡ true
    pub holds : w.promise.resolved ≡ true → w.heap c ≡ full (outcome w.promise)

  -- What a step does that uses no channel but `c`.
  pub record Effect (c : ℕ) (w u : World T E) : Type 0 where
    pub world : WellFormed u
    pub owned : (j : ℕ) → j ≢ c → Owned w j → Owned u j
    pub stable : w.promise.resolved ≡ true → u.promise ≡ w.promise

  pub same-Effect : (w : World T E) (c : ℕ) → WellFormed w → Effect c w w
  same-Effect w c wf = record { world = wf; owned = λ j n o. o; stable = λ q. refl }

  -- `complete`, when the value or the error has just been set.
  pub record Completes (w : World T E) (r : Result Fault (Unit {0}) × World T E) : Type 0 where
    pub value : r.0 ≡ ok tt
    pub promise : r.1.promise ≡ record w.promise { channels = []; resolved = true }
    pub next : r.1.next ≡ w.next
    pub filled :
        (c : ℕ) → occurs c w.promise.channels ≡ true → r.1.heap c ≡ full (outcome w.promise)

  dropped-Completes :
      (w : World T E) (r : Result Fault (Unit {0}) × World T E)
      → Sends
          (outcome w.promise)
          w.promise.channels
          (record w { promise = record w.promise { resolved = true } })
          r
      → Completes w (continue r (λ _. drop_channels))
  dropped-Completes w r s =
      subst (Completes w) (sym (continue-ok r (λ _. drop_channels) s.value)) (record {
        value = refl;
        promise = ap {A = Promise T E} (λ p. record p { channels = [] }) s.promise;
        next = s.next;
        filled = s.filled;
      })

  pub complete-Completes :
      (w : World T E)
      → Distinct w.promise.channels
      → ((c : ℕ) → occurs c w.promise.channels ≡ true → w.heap c ≡ make_chan)
      → Completes w (complete w)
  unfolding complete
  complete-Completes w d h =
      dropped-Completes w
        (send_all (outcome w.promise) w.promise.channels
          (record w { promise = record w.promise { resolved = true } }))
        (send_all-Sends (outcome w.promise) w.promise.channels
          (record w { promise = record w.promise { resolved = true } }) d h)

  -- A promise that is pending gets its value or its error, and is completed.
  pub completed-Effect :
      (w : World T E) (p : Promise T E) (r : Result Fault (Unit {0}) × World T E) (c : ℕ)
      → WellFormed w
      → w.promise.resolved ≡ false
      → p.channels ≡ w.promise.channels
      → Settled p
      → Completes (record w { promise = p }) r
      → Effect c w r.1
  unfolding Distinct
  completed-Effect w p r c wf q same s h = record {
    world = record {
      pending = λ t. absurd (now-pending t);
      settled = λ t. subst Settled (sym h.promise) s;
      emptied = λ t. channels;
      open_ = λ j t. absurd (not_in_empty j r.1.promise.channels channels t);
      below = λ j t. absurd (not_in_empty j r.1.promise.channels channels t);
      distinct = subst Distinct (sym channels) tt;
    };
    owned = λ j n o. record {
      below = subst (◌<◌ j) (sym h.next) o.below;
      waits = λ t. absurd (now-pending t);
      holds = λ t.
          h.filled j (ap (occurs j) same ∙ o.waits q) ∙ ap (λ x. full (outcome x)) (sym h.promise);
    };
    stable = λ t. cc;
  }
    where
      resolved : r.1.promise.resolved ≡ true
      resolved = ap (λ x. x.resolved) h.promise

      channels : r.1.promise.channels ≡ []
      channels = ap (λ x. x.channels) h.promise

      now-pending : r.1.promise.resolved ≢ false
      now-pending t = cc
