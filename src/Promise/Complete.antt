-- ===== src/Promise/Complete.antt =====
-- promise/promise.go: `complete` gives the result to every channel that waits.
use golang_core.Prelude.{
  ℕ, ◌≡◌, refl, true, false, List, [], ◌∷◌, Result, ok, arith, some, subst, ap, ◌∙◌, sym,
  Bool-cases, inl, inr,
}
use golang_core.Prelude.Exec.{◌>>◌, continue}
use golang_core.Promise.{World, Item, send, close, send_all}
use golang_core.Promise.Entries.{occurs, Distinct, update_self}
use golang_core.Promise.Channels.{Chan, Fault, make_chan, full, update, put_item, shut}

module _ {T E : Type 0} where
  pub record Sends (item : Item T E) (cs : List ℕ) (w : World T E)
      (r : Result Fault (Unit {0}) × World T E) : Type 0 where
    pub value : r.0 ≡ ok tt
    pub promise : r.1.promise ≡ w.promise
    pub next : r.1.next ≡ w.next
    pub filled : (c : ℕ) → occurs c cs ≡ true → r.1.heap c ≡ full item
    pub kept : (c : ℕ) → occurs c cs ≡ false → r.1.heap c ≡ w.heap c

  abbrev pub holding : Item T E → Chan (Item T E)
  holding item = record { buffer = some item; closed = false }

  abbrev pub filled_world : Item T E → ℕ → World T E → World T E
  filled_world item c w = record w { heap = update (update w.heap c (holding item)) c (full item) }

  close_held :
      (item : Item T E) (c : ℕ) (w : World T E)
      → close c (record w { heap = update w.heap c (holding item) })
        ≡ (ok tt, filled_world item c w)
  close_held item c w =
      ap
        (λ ch.
          let (r, x) = shut ch in
          (r, record w { heap = update (update w.heap c (holding item)) c x }))
        (update_self w.heap c (holding item))

  -- The send and the close of an empty open channel.
  pub send_close :
      (item : Item T E) (c : ℕ) (w : World T E)
      → w.heap c ≡ make_chan
      → (send c item >> close c) w ≡ (ok tt, filled_world item c w)
  send_close item c w h =
      ap
        (λ ch.
          let (r, x) = put_item item ch in
          continue (r, record w { heap = update w.heap c x }) (λ _. close c))
        h
      ∙ close_held item c w

  cons-Sends :
      (item : Item T E) (c : ℕ) (cs : List ℕ) (w : World T E)
      (r : Result Fault (Unit {0}) × World T E)
      → occurs c cs ≡ false
      → Sends item cs (filled_world item c w) r
      → Sends item (c ∷ cs) w r
  unfolding occurs
  cons-Sends item c cs w r d s = record {
    value = s.value;
    promise = s.promise;
    next = s.next;
    filled = λ j q. elim (Bool-cases (occurs j cs)) [
      | inl t ↦ s.filled j t
      | inr n ↦ s.kept j n ∙ ground arith
    ];
    kept = λ j q. s.kept j (ground arith) ∙ ground arith;
  }

  pub send_all-Sends :
      (item : Item T E) (cs : List ℕ) (w : World T E)
      → Distinct cs
      → ((c : ℕ) → occurs c cs ≡ true → w.heap c ≡ make_chan)
      → Sends item cs w (send_all item cs w)
  unfolding send_all occurs Distinct
  send_all-Sends item [] w d h = record {
    value = refl;
    promise = refl;
    next = refl;
    filled = λ c q. cc;
    kept = λ c q. refl;
  }
  send_all-Sends item (c ∷ cs) w d h =
      subst (Sends item (c ∷ cs) w)
        (sym
          (ap (λ r. continue r (λ _. send_all item cs)) (send_close item c w (h c (ground arith)))))
        (cons-Sends item c cs w (send_all item cs (filled_world item c w)) d.0
          (send_all-Sends item cs (filled_world item c w) d.1 (λ j q. ground (arith, h j))))
