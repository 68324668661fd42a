-- ===== src/Promise/Effects/Channels.antt =====
-- promise/promise.go: `addChannel`, `removeChannel` and the reads of a channel.
use golang_core.Prelude.{
  ℕ, ◌≡◌, refl, ap, sym, ◌∙◌, subst, Bool, true, false, Bool-cases, some, Result, ok, ℕ_discrete,
  arith, inl, inr, ◌≢◌, if◌then◌else◌,
}
use golang_core.Prelude.Exec.{◌>>◌, continue, pure}
use golang_core.Promise.{
  World, Item, outcome, left_of, not_resolved, add_channel, send, close, allocate, register,
}
use golang_core.Promise.Channels.{Chan, Fault, make_chan, full, update}
use golang_core.Promise.Entries.{
  occurs, not_in_empty, occurs-append, occurs-append_self, append-Distinct, update_self, update_ne,
}
use golang_core.Promise.Complete.{send_close, filled_world, holding}
use golang_core.Promise.Effects.{WellFormed, Owned}
use golang_core.Promise.Effects.Settle.{Does}

module _ {T E : Type 0} where
  -- What a new channel is: its caller owns it.
  pub record Adds (w : World T E) (r : Result Fault ℕ × World T E) : Type 0 where
    pub does : Does w.next w w.next r
    pub mine : Owned r.1 w.next

  untouched :
      (f : ℕ → Chan (Item T E)) (c : ℕ) (x y z : Chan (Item T E)) {j : ℕ}
      → j ≢ c
      → update (update (update f c x) c y) c z j ≡ f j
  untouched f c x y z n =
      update_ne (update (update f c x) c y) c z n
      ∙ update_ne (update f c x) c y n
      ∙ update_ne f c x n

  fresh : (w : World T E) → WellFormed w → occurs w.next w.promise.channels ≡ false
  fresh w wf = elim (Bool-cases (occurs w.next w.promise.channels)) [
    | inl t ↦ absurd (omega (arith, wf.below w.next t))
    | inr n ↦ n
  ]

  filled-Adds :
      (w : World T E)
      → WellFormed w
      → w.promise.resolved ≡ true
      → Adds w (ok w.next, filled_world (outcome w.promise) w.next (allocate w))
  filled-Adds w wf q = record {
    does = record {
      value = refl;
      effect = record {
        world = record {
          pending = wf.pending;
          settled = wf.settled;
          emptied = wf.emptied;
          open_ = λ j t. absurd (not_in_empty j w.promise.channels (wf.emptied q) t);
          below = λ j t. absurd (not_in_empty j w.promise.channels (wf.emptied q) t);
          distinct = wf.distinct;
        };
        owned = λ j n o. record {
          below = omega (arith, o.below);
          waits = o.waits;
          holds = λ t.
              untouched w.heap w.next make_chan (holding (outcome w.promise))
                (full (outcome w.promise)) n
              ∙ o.holds t;
        };
        stable = λ t. refl;
      };
    };
    mine = record {
      below = omega arith;
      waits = λ t. cc;
      holds = λ t.
          update_self (update (update w.heap w.next make_chan) w.next (holding (outcome w.promise)))
            w.next (full (outcome w.promise));
    };
  }

  registered-Adds :
      (w : World T E)
      → WellFormed w
      → w.promise.resolved ≡ false
      → Adds w (ok w.next, register w.next (allocate w))
  registered-Adds w wf q = record {
    does = record {
      value = refl;
      effect = record {
        world = record {
          pending = wf.pending;
          settled = wf.settled;
          emptied = λ t. cc;
          open_ = λ j t. elim (ℕ_discrete j w.next) [
            | yes e ↦ ap (update w.heap w.next make_chan) e ∙ update_self w.heap w.next make_chan
            | no n ↦
                update_ne w.heap w.next make_chan n
                ∙ wf.open_ j (sym (occurs-append j w.next w.promise.channels n) ∙ t)
          ];
          below = λ j t. elim (ℕ_discrete j w.next) [
            | yes e ↦ omega (arith, e)
            | no n ↦
                omega (arith, wf.below j (sym (occurs-append j w.next w.promise.channels n) ∙ t))
          ];
          distinct = append-Distinct w.next w.promise.channels wf.distinct (fresh w wf);
        };
        owned = λ j n o. record {
          below = omega (arith, o.below);
          waits = λ t. occurs-append j w.next w.promise.channels n ∙ o.waits t;
          holds = λ t. cc;
        };
        stable = λ t. cc;
      };
    };
    mine = record {
      below = omega arith;
      waits = λ t. occurs-append_self w.next w.promise.channels;
      holds = λ t. cc;
    };
  }

  adds : World T E → Bool → Result Fault ℕ × World T E
  adds w b =
      if b
      then (send w.next (if b then outcome w.promise else left_of (some not_resolved))
            >> close w.next
            >> pure w.next)
          (allocate w)
      else pure w.next (register w.next (allocate w))

  chooses-Adds :
      (w : World T E) (b : Bool) → w.promise.resolved ≡ b → WellFormed w → Adds w (adds w b)
  unfolding adds
  chooses-Adds w true q wf =
      subst (Adds w)
        (sym (
          ap (λ r. continue r (λ _. pure w.next))
            (send_close (outcome w.promise) w.next (allocate w)
              (update_self w.heap w.next make_chan))))
        (filled-Adds w wf q)
  chooses-Adds w false q wf = registered-Adds w wf q

  pub add_channel-Adds : (w : World T E) → WellFormed w → Adds w (add_channel w)
  unfolding add_channel adds
  add_channel-Adds w wf = chooses-Adds w w.promise.resolved refl wf
