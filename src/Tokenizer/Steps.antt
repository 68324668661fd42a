-- ===== src/Tokenizer/Steps.antt =====
-- tokenizer/state.go: the steps of the parsers against the bytes that are still to come, for a source
-- that ends by the end of file.
use golang_core.Prelude.{
  ℕ, zero, suc, ◌+◌, ◌<◌, u64, ◌≡◌, refl, ap, subst, Bool, none, none, some, Option, Bool, false,
  ◌&&◌, List, [], ◌∷◌, ◌++◌, append_assoc, append-nil, ok, if◌then◌else◌, ◌==◌, length, span,
  span_pass, span_stop, arith, Bool-cases, inl, inr,
}
use golang_core.Prelude.Exec.{
  Exec, pure, Returns, Fails, bind-Returns, stop-Fails, attempt-Returns, attempt-Fails,
}
use golang_core.Iterator.{Error, not_enough_items}
use golang_core.Iterator.Reader.{ReaderIterator, reader_iterator}
use golang_core.Iterator.Reader.Delivery.{reader_delivers}
use golang_core.Iterator.Consumable
use golang_core.Iterator.Consumable.{Consumable}
use golang_core.Iterator.Consumable.Refinement.{
  Holds, peek-Returns, peek-Fails, peek2-Returns, peek2-Fails, consume-Returns,
}
use golang_core.Tokenizer.{
  State, position, on_iterator, peek, peek2, advance, read, or_end, peek_or_end, scan,
}
use golang_core.Tokenizer.Token.{Position, newline, is_digit}
use golang_core.Tokenizer.Parse.{fraction, has_float_fraction, peek2_or_end}

abbrev Pending : List ℕ → Consumable ReaderIterator ℕ → Type 0
Pending = Holds reader_iterator reader_delivers

-- The state has `xs` still to read, stands at `p` and has stored no error.
pub record Stands (xs : List ℕ) (p : Position) (s : State) : Type 0 where
  pub pending : Holds reader_iterator reader_delivers xs s.iterator
  pub place : position s ≡ p
  pub no_error : s.err ≡ none

abbrev pub step : Position → ℕ → Position
step p x = record {
  offset = u64 (p.offset + 1);
  column = if x == newline then 0 else u64 (p.column + 1);
  line = if x == newline then u64 (p.line + 1) else p.line;
}

-- The position behind the bytes, from the position in front of them.
abbrev pub after : Position → List ℕ → Position
after p [] = p
after p (x ∷ xs) = after (step p x) xs

pub after-append : (p : Position) (xs ys : List ℕ) → after p (xs ++ ys) ≡ after (after p xs) ys
after-append p [] ys = refl
after-append p (x ∷ xs) ys = after-append (step p x) xs ys

on_iterator-Returns :
    {A : Type 0} {xs ys : List ℕ} {p : Position} {a : A}
    (m : Exec (Consumable ReaderIterator ℕ) Error A) (s : State)
    → Stands xs p s
    → Returns (Pending ys) a (m s.iterator)
    → Returns (Stands ys p) a (on_iterator m s)
on_iterator-Returns m s v h = record {
  value = h.value;
  state = record { pending = h.state; place = v.place; no_error = v.no_error };
}

on_iterator-Fails :
    {A : Type 0} {xs ys : List ℕ} {p : Position} {e : Error}
    (m : Exec (Consumable ReaderIterator ℕ) Error A) (s : State)
    → Stands xs p s
    → Fails (Pending ys) e (m s.iterator)
    → Fails (Stands ys p) e (on_iterator m s)
on_iterator-Fails m s v h = record {
  value = h.value;
  state = record { pending = h.state; place = v.place; no_error = v.no_error };
}

-- Does the text start with a point and a digit behind it?
abbrev pub has_point : List ℕ → Bool
has_point [] = false
has_point (a ∷ []) = false
has_point (a ∷ b ∷ r) = a == b'.' && is_digit b

abbrev pub first_pair : List ℕ → Option (ℕ × ℕ)
first_pair [] = none
first_pair (a ∷ []) = none
first_pair (a ∷ b ∷ r) = some (a, b)

module _ (p : Position) (s : State) where
  pub peek-some :
      (x : ℕ) (xs : List ℕ) → Stands (x ∷ xs) p s → Returns (Stands (x ∷ xs) p) x (peek s)
  unfolding peek
  peek-some x xs v =
      on_iterator-Returns (Consumable.peek reader_iterator) s v
        (peek-Returns _ _ x xs s.iterator v.pending)

  pub peek-none : Stands [] p s → Fails (Stands [] p) (not_enough_items 1 0) (peek s)
  unfolding peek
  peek-none v =
      on_iterator-Fails (Consumable.peek reader_iterator) s v (peek-Fails _ _ s.iterator v.pending)

  pub peek2-some :
      (x y : ℕ) (xs : List ℕ)
      → Stands (x ∷ y ∷ xs) p s
      → Returns (Stands (x ∷ y ∷ xs) p) (x, y) (peek2 s)
  unfolding peek2
  peek2-some x y xs v =
      on_iterator-Returns (Consumable.peek2 reader_iterator) s v
        (peek2-Returns _ _ x y xs s.iterator v.pending)

  pub peek2-none :
      (xs : List ℕ)
      → length xs < 2
      → Stands xs p s
      → Fails (Stands xs p) (not_enough_items 2 (length xs)) (peek2 s)
  unfolding peek2
  peek2-none xs h v =
      on_iterator-Fails (Consumable.peek2 reader_iterator) s v
        (peek2-Fails _ _ xs s.iterator v.pending h)

  pub peek_or_end-some :
      (x : ℕ) (xs : List ℕ)
      → Stands (x ∷ xs) p s
      → Returns (Stands (x ∷ xs) p) (some x) (peek_or_end s)
  peek_or_end-some x xs v =
      bind-Returns or_end (attempt-Returns (peek-some x xs v))
        λ s' w. record { value = refl; state = w }

  pub peek_or_end-none : Stands [] p s → Returns (Stands [] p) none (peek_or_end s)
  peek_or_end-none v =
      bind-Returns or_end (attempt-Fails (peek-none v)) λ s' w. record { value = refl; state = w }

pub has_float_fraction-Returns :
    (p : Position) (s : State) (xs : List ℕ)
    → Stands xs p s
    → Returns (Stands xs p) (has_point xs) (has_float_fraction s)
unfolding has_float_fraction
has_float_fraction-Returns p s [] v =
    bind-Returns (λ found. pure (fraction found))
      (attempt-Fails (peek2-none p s [] (omega arith) v)) λ s' w. record { value = refl; state = w }
has_float_fraction-Returns p s (a ∷ []) v =
    bind-Returns (λ found. pure (fraction found))
      (attempt-Fails (peek2-none p s (a ∷ []) (omega arith) v))
      λ s' w. record { value = refl; state = w }
has_float_fraction-Returns p s (a ∷ b ∷ r) v =
    bind-Returns (λ found. pure (fraction found)) (attempt-Returns (peek2-some p s a b r v))
      λ s' w. record { value = refl; state = w }

pub peek2_or_end-Returns :
    (p : Position) (s : State) (xs : List ℕ)
    → Stands xs p s
    → Returns (Stands xs p) (first_pair xs) (peek2_or_end s)
peek2_or_end-Returns p s [] v =
    bind-Returns or_end (attempt-Fails (peek2-none p s [] (omega arith) v))
      λ s' w. record { value = refl; state = w }
peek2_or_end-Returns p s (a ∷ []) v =
    bind-Returns or_end (attempt-Fails (peek2-none p s (a ∷ []) (omega arith) v))
      λ s' w. record { value = refl; state = w }
peek2_or_end-Returns p s (a ∷ b ∷ r) v =
    bind-Returns or_end (attempt-Returns (peek2-some p s a b r v))
      λ s' w. record { value = refl; state = w }

advance-Stands :
    (x : ℕ) (xs : List ℕ) (p : Position) (s : State)
    → Stands xs p s
    → Stands xs (step p x) (advance x s)
unfolding advance
advance-Stands x xs p s v = record {
  pending = subst (Pending xs) (ground arith) v.pending;
  place = ground arith;
  no_error = ground arith;
}

pub read-some :
    (p : Position) (s : State) (x : ℕ) (xs : List ℕ)
    → Stands (x ∷ xs) p s
    → Returns (Stands xs (step p x)) (p, x) (read s)
unfolding read
read-some p s x xs v = bind-Returns _ (peek-some p s x xs v) λ s1 v1.
    bind-Returns _
      (on_iterator-Returns (Consumable.consume reader_iterator) s1 v1
        (consume-Returns _ _ x xs s1.iterator v1.pending))
      λ s2 v2. record { value = ap (λ q. ok (q, x)) v.place; state = advance-Stands x xs p s2 v2 }

pub read-none :
    (p : Position) (s : State) → Stands [] p s → Fails (Stands [] p) (not_enough_items 1 0) (read s)
unfolding read
read-none p s v = stop-Fails _ (peek-none p s v)

-- The loop takes exactly the longest prefix that passes the test, if the fuel is above the number of
-- bytes to come. A position is kept as that behind the content, from the start of the token.
pub scan-Returns :
    (fuel : ℕ) (test : ℕ → Bool) (start : Position) (content xs : List ℕ) (s : State)
    → length xs < fuel
    → Stands xs (after start content) s
    → let (ys, zs) = span test xs in
      Returns (Stands zs (after start (content ++ ys))) (content ++ ys) (scan fuel test content s)
unfolding scan span peek
scan-Returns zero test start content xs s h v = elim h [ ]
scan-Returns (suc fuel) test start content [] s h v =
    rw append-nil
      (bind-Returns _ (peek_or_end-none _ s v) λ s' w. record { value = refl; state = w })
scan-Returns (suc fuel) test start content (x ∷ xs) s h v =
    bind-Returns _ (peek_or_end-some _ s x xs v) λ s1 v1. elim (Bool-cases (test x)) [
      | inl pass ↦
          rw (pass, span_pass test x xs pass)
            (bind-Returns _ (read-some _ s1 x xs v1) λ s2 v2.
              subst
                (λ c.
                  Returns (Stands (span test xs).1 (after start c)) c
                    (scan fuel test (content ++ x ∷ []) s2))
                (append_assoc content (x ∷ []) (span test xs).0)
                (scan-Returns fuel test start (content ++ x ∷ []) xs s2 (omega arith)
                  (rw after-append v2)))
      | inr stop ↦
          rw (stop, span_stop test x xs stop, append-nil) (record { value = refl; state = v1 })
    ]
