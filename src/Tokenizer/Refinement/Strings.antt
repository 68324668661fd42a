-- ===== src/Tokenizer/Refinement/Strings.antt =====
-- tokenizer/state.go: `parseQuotedString` reads up to the closing quote, or fails if there is none.
use golang_core.Prelude.{
  ℕ, zero, suc, ◌<◌, ◌≡◌, refl, subst, Bool, true, false, Option, none, some, List, [], ◌∷◌, ◌++◌,
  append_assoc, Result, ok, err, ◌==◌, ◌&&◌, length, arith, Bool-cases, inl, inr,
}
use golang_core.Prelude.Exec.{Returns, Fails}
use golang_core.Iterator.{Error, not_enough_items, unknown_token}
use golang_core.Tokenizer.{State, read}
use golang_core.Tokenizer.Token.{Position}
use golang_core.Tokenizer.Parse.{scan_quoted}
use golang_core.Tokenizer.Spec.{put, quoted_of}
use golang_core.Tokenizer.Steps.{Stands, after, after-append, read-some, read-none}

-- What the loop comes to, by what the grammar finds behind the bytes of `content`.
abbrev pub Quotes :
    Position → List ℕ → Option (List ℕ × List ℕ) → Result Error (List ℕ) × State → Type 0
Quotes start content none r = Fails (λ s. (p : Position) × Stands [] p s) unknown_token r
Quotes start content (some (ys, zs)) r =
    Returns (Stands zs (after start (content ++ ys))) (content ++ ys) r

-- One more byte of content is one more in front of what the grammar finds.
Quotes-put :
    (start : Position) (content : List ℕ) (x : ℕ) (o : Option (List ℕ × List ℕ))
    (r : Result Error (List ℕ) × State)
    → Quotes start (content ++ x ∷ []) o r
    → Quotes start content (put x o) r
unfolding put
Quotes-put start content x none r h = h
Quotes-put start content x (some (ys, zs)) r h =
    subst (λ c. Returns (Stands zs (after start c)) c r) (append_assoc content (x ∷ []) ys) h

-- The rounds of the loop, by what `read` gives.
module _ (quote : ℕ) (allow escaped : Bool) (fuel : ℕ) (content : List ℕ) (s : State) where
  round_end :
      {n m : ℕ}
      → (read s).0 ≡ err (not_enough_items n m)
      → scan_quoted (suc fuel) quote allow escaped content s ≡ (err unknown_token, (read s).1)
  unfolding scan_quoted
  round_end e = rw e

  module _ (p : Position) (x : ℕ) (e : (read s).0 ≡ ok (p, x)) where
    round_escaped :
        (allow && escaped) ≡ true
        → scan_quoted (suc fuel) quote allow escaped content s
          ≡ scan_quoted fuel quote allow false (content ++ x ∷ []) (read s).1
    unfolding scan_quoted
    round_escaped h = rw (e, h)

    round_backslash :
        (allow && escaped) ≡ false
        → (allow && x == b'\\') ≡ true
        → scan_quoted (suc fuel) quote allow escaped content s
          ≡ scan_quoted fuel quote allow true (content ++ x ∷ []) (read s).1
    unfolding scan_quoted
    round_backslash h k = ground arith

    round_close :
        (allow && escaped) ≡ false
        → (allow && x == b'\\') ≡ false
        → (x == quote) ≡ true
        → scan_quoted (suc fuel) quote allow escaped content s
          ≡ (ok (content ++ x ∷ []), (read s).1)
    unfolding scan_quoted
    round_close h k l = ground arith

    round_plain :
        (allow && escaped) ≡ false
        → (allow && x == b'\\') ≡ false
        → (x == quote) ≡ false
        → scan_quoted (suc fuel) quote allow escaped content s
          ≡ scan_quoted fuel quote allow escaped (content ++ x ∷ []) (read s).1
    unfolding scan_quoted
    round_plain h k l = ground arith

-- The grammar's own rounds.
module _ (quote : ℕ) (allow : Bool) where
  quoted_nil : quoted_of quote allow [] ≡ none
  unfolding quoted_of
  quoted_nil = refl

  module _ (x : ℕ) where
    quoted_back_end : (allow && x == b'\\') ≡ true → quoted_of quote allow (x ∷ []) ≡ put x none
    unfolding quoted_of
    quoted_back_end h = ground arith

    quoted_close_end :
        (allow && x == b'\\') ≡ false
        → (x == quote) ≡ true
        → quoted_of quote allow (x ∷ []) ≡ some (x ∷ [], [])
    unfolding quoted_of
    quoted_close_end h k = ground arith

    quoted_plain_end :
        (allow && x == b'\\') ≡ false
        → (x == quote) ≡ false
        → quoted_of quote allow (x ∷ []) ≡ put x none
    unfolding quoted_of
    quoted_plain_end h k = ground arith

    module _ (y : ℕ) (r : List ℕ) where
      quoted_back :
          (allow && x == b'\\') ≡ true
          → quoted_of quote allow (x ∷ y ∷ r) ≡ put x (put y (quoted_of quote allow r))
      unfolding quoted_of
      quoted_back h = rw (h, quoted_of)

      quoted_close :
          (allow && x == b'\\') ≡ false
          → (x == quote) ≡ true
          → quoted_of quote allow (x ∷ y ∷ r) ≡ some (x ∷ [], y ∷ r)
      unfolding quoted_of
      quoted_close h k = ground arith

      quoted_plain :
          (allow && x == b'\\') ≡ false
          → (x == quote) ≡ false
          → quoted_of quote allow (x ∷ y ∷ r) ≡ put x (quoted_of quote allow (y ∷ r))
      unfolding quoted_of
      quoted_plain h k = ground arith

and_false : (b : Bool) → (b && false) ≡ false
and_false b = ground arith

and_left : (b c : Bool) → (b && c) ≡ true → (b && true) ≡ true
and_left b c h = ground arith

module _ (start : Position) (quote : ℕ) (allow : Bool) where
  end-Quotes :
      (fuel : ℕ) (escaped : Bool) (content : List ℕ) (s : State)
      → Stands [] (after start content) s
      → Quotes start content none (scan_quoted (suc fuel) quote allow escaped content s)
  end-Quotes fuel escaped content s v =
      let h : Fails (Stands [] (after start content)) (not_enough_items 1 0) (read s) =
        read-none _ s v in
      rw (round_end quote allow escaped fuel content s h.value)
        (record { value = refl; state = (after start content, h.state) })

  module _ (fuel : ℕ) (content : List ℕ) (x : ℕ) (xs : List ℕ) (o : Option (List ℕ × List ℕ))
      (s : State) where
    back-Quotes :
        (allow && x == b'\\') ≡ true
        → Stands (x ∷ xs) (after start content) s
        → ((s' : State)
            → Stands xs (after start (content ++ x ∷ [])) s'
            → Quotes start
                (content ++ x ∷ [])
                o
                (scan_quoted fuel quote allow true (content ++ x ∷ []) s'))
        → Quotes start content (put x o) (scan_quoted (suc fuel) quote allow false content s)
    back-Quotes k v rest =
        let h : Returns (Stands xs (after (after start content) (x ∷ []))) (after start content, x)
            (read s) =
          read-some _ s x xs v in
        rw (round_backslash quote allow false fuel content s _ x h.value (and_false allow) k)
          (Quotes-put start content x o _ (rest _ (rw after-append h.state)))

    plain-Quotes :
        (allow && x == b'\\') ≡ false
        → (x == quote) ≡ false
        → Stands (x ∷ xs) (after start content) s
        → ((s' : State)
            → Stands xs (after start (content ++ x ∷ [])) s'
            → Quotes start
                (content ++ x ∷ [])
                o
                (scan_quoted fuel quote allow false (content ++ x ∷ []) s'))
        → Quotes start content (put x o) (scan_quoted (suc fuel) quote allow false content s)
    plain-Quotes k l v rest =
        let h : Returns (Stands xs (after (after start content) (x ∷ []))) (after start content, x)
            (read s) =
          read-some _ s x xs v in
        rw (round_plain quote allow false fuel content s _ x h.value (and_false allow) k l)
          (Quotes-put start content x o _ (rest _ (rw after-append h.state)))

    escaped-Quotes :
        (allow && true) ≡ true
        → Stands (x ∷ xs) (after start content) s
        → ((s' : State)
            → Stands xs (after start (content ++ x ∷ [])) s'
            → Quotes start
                (content ++ x ∷ [])
                o
                (scan_quoted fuel quote allow false (content ++ x ∷ []) s'))
        → Quotes start content (put x o) (scan_quoted (suc fuel) quote allow true content s)
    escaped-Quotes k v rest =
        let h : Returns (Stands xs (after (after start content) (x ∷ []))) (after start content, x)
            (read s) =
          read-some _ s x xs v in
        rw (round_escaped quote allow true fuel content s _ x h.value k)
          (Quotes-put start content x o _ (rest _ (rw after-append h.state)))

  close-Quotes :
      (fuel : ℕ) (content : List ℕ) (x : ℕ) (xs : List ℕ) (s : State)
      → (allow && x == b'\\') ≡ false
      → (x == quote) ≡ true
      → Stands (x ∷ xs) (after start content) s
      → Quotes start content
          (some (x ∷ [], xs))
          (scan_quoted (suc fuel) quote allow false content s)
  close-Quotes fuel content x xs s k l v =
      let h : Returns (Stands xs (after (after start content) (x ∷ []))) (after start content, x)
          (read s) =
        read-some _ s x xs v in
      rw (round_close quote allow false fuel content s _ x h.value (and_false allow) k l)
        (record { value = refl; state = rw after-append h.state })

  pub quoted-Quotes :
      (fuel : ℕ) (content xs : List ℕ) (s : State)
      → length xs < fuel
      → Stands xs (after start content) s
      → Quotes start content
          (quoted_of quote allow xs)
          (scan_quoted fuel quote allow false content s)
  quoted-Quotes zero content xs s h v = elim h [ ]
  quoted-Quotes (suc fuel) content [] s h v =
      rw (quoted_nil quote allow) (end-Quotes fuel false content s v)
  quoted-Quotes (suc zero) content (x ∷ []) s h v = absurd (omega arith)
  quoted-Quotes (suc (suc fuel)) content (x ∷ []) s h v = elim (Bool-cases (allow && x == b'\\')) [
    | inl back ↦ rw (quoted_back_end quote allow x back) (
        back-Quotes (suc fuel) content x [] none s back v
          λ s' w. end-Quotes fuel true (content ++ x ∷ []) s' w)
    | inr plain ↦ elim (Bool-cases (x == quote)) [
      | inl close ↦
          rw (quoted_close_end quote allow x plain close)
            (close-Quotes (suc fuel) content x [] s plain close v)
      | inr other ↦ rw (quoted_plain_end quote allow x plain other) (
          plain-Quotes (suc fuel) content x [] none s plain other v
            λ s' w. end-Quotes fuel false (content ++ x ∷ []) s' w)
    ]
  ]
  quoted-Quotes (suc zero) content (x ∷ y ∷ r) s h v = absurd (omega arith)
  quoted-Quotes (suc (suc fuel)) content (x ∷ y ∷ r) s h v =
      elim (Bool-cases (allow && x == b'\\')) [
        | inl back ↦ rw (quoted_back quote allow x y r back) (
            back-Quotes (suc fuel) content x (y ∷ r) _ s back v λ s' w.
              escaped-Quotes fuel (content ++ x ∷ []) y r _ s' (and_left allow _ back) w
                λ s2 w2. quoted-Quotes fuel (content ++ x ∷ [] ++ y ∷ []) r s2 (omega arith) w2)
        | inr plain ↦ elim (Bool-cases (x == quote)) [
          | inl close ↦
              rw (quoted_close quote allow x y r plain close)
                (close-Quotes (suc fuel) content x (y ∷ r) s plain close v)
          | inr other ↦ rw (quoted_plain quote allow x y r plain other) (
              plain-Quotes (suc fuel) content x (y ∷ r) _ s plain other v
                λ s' w. quoted-Quotes (suc fuel) (content ++ x ∷ []) (y ∷ r) s' (omega arith) w)
        ]
      ]
