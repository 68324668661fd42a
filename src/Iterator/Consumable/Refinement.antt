-- ===== src/Iterator/Consumable/Refinement.antt =====
-- iterator/consumable.go against its abstract view: the list of the items that are still to come.
use golang_core.Prelude.{
  ℕ, zero, suc, ◌-◌, ◌≤◌, ◌<◌, pos, ◌≡◌, refl, sym, ap, ◌∙◌, true, false, Option, none, some, List,
  [], ◌∷◌, ◌++◌, append_assoc, ok, err, length, length-append, take, drop, take-append_of_le,
  drop-append_of_le, arith, if◌then◌else◌, leb,
}
use golang_core.Prelude.Exec.{Returns, Fails, bind-Returns, stop-Fails}
use golang_core.Iterator.{Error, not_enough_items, Iterator, Delivers}
use golang_core.Iterator.Consumable.{
  Consumable, fill_rounds, report, fill_buffer, fill, peek_n, peek, peek2, consume_n, consume,
}

module _ {S A : Type 0} where
  report-none : (r : Option Error × Consumable S A) → r.0 ≡ none → (report r).0 ≡ ok tt
  report-none r e = ground arith

  report-some :
      (r : Option Error × Consumable S A) {e : Error} → r.0 ≡ some e → (report r).0 ≡ err e
  report-some r e = ground arith

  report_state : (r : Option Error × Consumable S A) → (report r).1 ≡ r.1
  report_state (none, c) = refl
  report_state (some e, c) = refl

module _ {S A : Type 0} (it : Iterator S A) (d : Delivers it) where
  open d use {IsReady, contents}

  -- The buffered items, and then those of the iterator.
  pub record Holds (xs : List A) (c : Consumable S A) : Type 0 where
    pub inner : S
    pub has_inner : c.iterator ≡ some inner
    pub ready : IsReady inner
    pub no_error : c.err ≡ none
    pub pending : c.buffer ++ contents inner ≡ xs

  -- What the loop of `fillBuffer` comes to: enough items are buffered, or all there are.
  pub record Fills (num : ℕ) (xs : List A) (r : Option Error × Consumable S A) : Type 0 where
    pub holds : Holds xs r.1
    pub outcome :
        r.0 ≡ (if leb num (length xs) then none else some (not_enough_items num (length xs)))
    pub enough : num ≤ length xs → num ≤ length r.1.buffer

  -- One round of the loop, when the iterator is empty and when it is not.
  fill_rounds_stop :
      (rounds num : ℕ) (s : S) (buffer : List A)
      → (it.has_next s).0 ≡ false
      → it.error (it.has_next s).1 ≡ none
      → fill_rounds it (suc rounds) num s buffer ≡ (
        some (not_enough_items num (length buffer)),
        record { iterator = some (it.has_next s).1; buffer = buffer; err = none },
      )
  unfolding fill_rounds
  fill_rounds_stop rounds num s buffer h e = rw (h, e)

  fill_rounds_more :
      (rounds num : ℕ) (s : S) (buffer : List A) (x : A)
      → (it.has_next s).0 ≡ true
      → (it.next (it.has_next s).1).0 ≡ x
      → it.error (it.next (it.has_next s).1).1 ≡ none
      → fill_rounds it (suc rounds) num s buffer
        ≡ fill_rounds it rounds num (it.next (it.has_next s).1).1 (buffer ++ x ∷ [])
  unfolding fill_rounds
  fill_rounds_more rounds num s buffer x h hx e = rw (h, e, hx)

  fill_rounds-Fills :
      (rounds num : ℕ) (s : S) (buffer xs ys : List A)
      → IsReady s
      → contents s ≡ ys
      → buffer ++ ys ≡ xs
      → rounds ≡ num - length buffer
      → Fills num xs (fill_rounds it rounds num s buffer)
  unfolding fill_rounds
  fill_rounds-Fills zero num s buffer xs ys v c e h = record {
    holds = record { inner = s; has_inner = refl; ready = v; no_error = refl; pending = rw c e };
    outcome = ground (arith, ap length e, length-append buffer ys);
    enough = λ _. omega arith;
  }
  fill_rounds-Fills (suc rounds) num s buffer xs [] v c e h =
      rw
        (fill_rounds_stop rounds num s buffer (d.has_next_empty s v c)
          (d.ready_error _ (d.has_next-IsReady s v)))
        (record {
          holds = record {
            inner = (it.has_next s).1;
            has_inner = refl;
            ready = d.has_next-IsReady s v;
            no_error = refl;
            pending = rw (d.has_next-contents s v, c) e;
          };
          outcome = ground (arith, ap length e, length-append buffer []);
          enough = λ p. absurd (omega (arith, ap length e, length-append buffer []));
        })
  fill_rounds-Fills (suc rounds) num s buffer xs (y ∷ ys) v c e h =
      rw
        (fill_rounds_more rounds num s buffer y (d.has_next_more s y ys v c)
          (d.next_item _ y ys ready c') (d.ready_error _ (d.next-IsReady _ y ys ready c')))
        (fill_rounds-Fills rounds num _ (buffer ++ y ∷ []) xs ys (d.next-IsReady _ y ys ready c')
          (d.next-contents _ y ys ready c') (append_assoc buffer (y ∷ []) ys ∙ e)
          (omega (arith, length-append buffer (y ∷ []))))
    where
      ready : IsReady (it.has_next s).1
      ready = d.has_next-IsReady s v

      c' : contents (it.has_next s).1 ≡ y ∷ ys
      c' = d.has_next-contents s v ∙ c

  -- Over an iterator that delivers a finite list, `fillBuffer` with a count that is not negative keeps
  -- the items that are to come and their order. It succeeds exactly when there are enough, and
  -- otherwise reports how many there are.
  pub fill_buffer-Fills :
      (n : ℕ) (xs : List A) (c : Consumable S A)
      → Holds xs c
      → Fills n xs (fill_buffer it (pos n) c)
  unfolding fill_buffer
  fill_buffer-Fills zero xs c v = record {
    holds = v;
    outcome = ground arith;
    enough = λ _. omega arith;
  }
  fill_buffer-Fills (suc n) xs c v =
      rw (v.no_error, v.has_inner)
        (fill_rounds-Fills (suc n - length c.buffer) (suc n) v.inner c.buffer xs (contents v.inner)
          v.ready refl v.pending refl)

  -- Enough items are buffered for a request of `n`.
  record Buffers (n : ℕ) (xs : List A) (c : Consumable S A) : Type 0 where
    holds : Holds xs c
    enough : n ≤ length c.buffer

  fill-Returns :
      (n : ℕ) (xs : List A) (c : Consumable S A)
      → Holds xs c
      → n ≤ length xs
      → Returns (Buffers n xs) tt (fill it (pos n) c)
  fill-Returns n xs c v h =
      let f : Fills n xs (fill_buffer it (pos n) c) = fill_buffer-Fills n xs c v in
      record {
        value = report-none _ (f.outcome ∙ ground arith);
        state =
            rw (report_state (fill_buffer it (pos n) c))
              (record { holds = f.holds; enough = f.enough h });
      }

  fill-Fails :
      (n : ℕ) (xs : List A) (c : Consumable S A)
      → Holds xs c
      → length xs < n
      → Fails (Holds xs) (not_enough_items n (length xs)) (fill it (pos n) c)
  fill-Fails n xs c v h =
      let f : Fills n xs (fill_buffer it (pos n) c) = fill_buffer-Fills n xs c v in
      record {
        value = report-some _ (f.outcome ∙ ground arith);
        state = rw (report_state (fill_buffer it (pos n) c)) f.holds;
      }

  -- Over an iterator that delivers a finite list, `PeekN` of no more items than are to come returns
  -- the first ones and takes none of them away.
  pub peek_n-Returns :
      (n : ℕ) (xs : List A) (c : Consumable S A)
      → Holds xs c
      → n ≤ length xs
      → Returns (Holds xs) (take n xs) (peek_n it (pos n) c)
  unfolding peek_n
  peek_n-Returns n xs c v h = bind-Returns _ (fill-Returns n xs c v h) λ c' b. record {
    value = ap ok (sym (take-append_of_le n c'.buffer _ b.enough) ∙ ap (take n) b.holds.pending);
    state = b.holds;
  }

  -- Over an iterator that delivers a finite list, `PeekN` of more items than are to come reports how
  -- many were asked for and how many there are, and takes none away.
  pub peek_n-Fails :
      (n : ℕ) (xs : List A) (c : Consumable S A)
      → Holds xs c
      → length xs < n
      → Fails (Holds xs) (not_enough_items n (length xs)) (peek_n it (pos n) c)
  unfolding peek_n
  peek_n-Fails n xs c v h = stop-Fails _ (fill-Fails n xs c v h)

  -- Over an iterator that delivers a finite list, `ConsumeN` of no more items than are to come takes
  -- exactly the first ones away.
  pub consume_n-Returns :
      (n : ℕ) (xs : List A) (c : Consumable S A)
      → Holds xs c
      → n ≤ length xs
      → Returns (Holds (drop n xs)) tt (consume_n it (pos n) c)
  unfolding consume_n
  consume_n-Returns n xs c v h = bind-Returns _ (fill-Returns n xs c v h) λ c' b. record {
    value = refl;
    state = record {
      inner = b.holds.inner;
      has_inner = b.holds.has_inner;
      ready = b.holds.ready;
      no_error = b.holds.no_error;
      pending = sym (drop-append_of_le n c'.buffer _ b.enough) ∙ ap (drop n) b.holds.pending;
    };
  }

  pub consume_n-Fails :
      (n : ℕ) (xs : List A) (c : Consumable S A)
      → Holds xs c
      → length xs < n
      → Fails (Holds xs) (not_enough_items n (length xs)) (consume_n it (pos n) c)
  unfolding consume_n
  consume_n-Fails n xs c v h = stop-Fails _ (fill-Fails n xs c v h)

  pub peek-Returns :
      (x : A) (xs : List A) (c : Consumable S A)
      → Holds (x ∷ xs) c
      → Returns (Holds (x ∷ xs)) x (peek it c)
  unfolding peek
  peek-Returns x xs c v =
      bind-Returns _ (peek_n-Returns 1 (x ∷ xs) c v (omega arith))
        λ c' h. record { value = refl; state = h }

  pub peek-Fails :
      (c : Consumable S A) → Holds [] c → Fails (Holds []) (not_enough_items 1 0) (peek it c)
  unfolding peek
  peek-Fails c v = stop-Fails _ (peek_n-Fails 1 [] c v (omega arith))

  pub peek2-Returns :
      (x y : A) (xs : List A) (c : Consumable S A)
      → Holds (x ∷ y ∷ xs) c
      → Returns (Holds (x ∷ y ∷ xs)) (x, y) (peek2 it c)
  unfolding peek2
  peek2-Returns x y xs c v =
      bind-Returns _ (peek_n-Returns 2 (x ∷ y ∷ xs) c v (omega arith))
        λ c' h. record { value = refl; state = h }

  pub peek2-Fails :
      (xs : List A) (c : Consumable S A)
      → Holds xs c
      → length xs < 2
      → Fails (Holds xs) (not_enough_items 2 (length xs)) (peek2 it c)
  unfolding peek2
  peek2-Fails xs c v h = stop-Fails _ (peek_n-Fails 2 xs c v h)

  pub consume-Returns :
      (x : A) (xs : List A) (c : Consumable S A)
      → Holds (x ∷ xs) c
      → Returns (Holds xs) tt (consume it c)
  unfolding consume
  consume-Returns x xs c v = consume_n-Returns 1 (x ∷ xs) c v (omega arith)
