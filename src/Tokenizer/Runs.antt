-- ===== src/Tokenizer/Runs.antt =====
-- tokenizer/tokenizer.go and iterator/iterator.go: `Materialize` over the tokens of a whole source.
pub mod Whole
pub mod Places
use golang_core.Prelude.{
  ℕ, zero, suc, ◌+◌, ◌≤◌, ◌<◌, ◌≡◌, refl, sym, ap, subst, ◌∙◌, Bool, true, false, Option, none,
  some, List, [], ◌∷◌, ◌++◌, append_assoc, append-nil, Result, ok, err, length, length-append,
  arith, Result-cases, inl, inr,
}
use golang_core.Prelude.Exec.{Returns, Fails}
use golang_core.Iterator.{Error, not_enough_items, unknown_token, collect, materialize}
use golang_core.Iterator.Collect.{collect_stop, collect_more}
use golang_core.Iterator.Reader.{Source, reader_iterator}
use golang_core.Iterator.Reader.Delivery.{reader_delivers}
use golang_core.Tokenizer.{State, new_state, peek}
use golang_core.Tokenizer.Token.{Position, Token}
use golang_core.Tokenizer.Parse.{parse_token}
use golang_core.Tokenizer.Stream.{tokens, look, settle, has_next, next, error}
use golang_core.Tokenizer.Spec.{Lexeme, lexeme_of}
use golang_core.Tokenizer.Grammar.{Extends, lexeme-prefix, lexeme-shorter, lexeme_error}
use golang_core.Tokenizer.Steps.{Stands, after, peek-some, peek-none}
use golang_core.Tokenizer.Refinement.{Lexes}
use golang_core.Tokenizer.Refinement.Tokens.{Parses, token-Parses}

-- The tokens of a text that starts at a position, and the error behind them. A nil token stands in
-- the place of a lexeme that the grammar refuses, and nothing follows it.
pub data Lexed : Position → List ℕ → List (Option Token) → Option Error → Type 0 where
  finished : {p : Position} → Lexed p [] [] none
  token :
      {p : Position} {c : ℕ} {xs : List ℕ} {ts : List (Option Token)} {e : Option Error}
      (l : Lexeme)
      → lexeme_of (c ∷ xs) ≡ ok l
      → Lexed (after p l.text) l.rest ts e
      → Lexed p
          (c ∷ xs)
          (some (record { token_type = l.kind; position = p; content = l.text }) ∷ ts)
          e
  refused :
      {p : Position} {c : ℕ} {xs : List ℕ} {e : Error}
      → lexeme_of (c ∷ xs) ≡ err e
      → Lexed p (c ∷ xs) (none ∷ []) (some e)

look_ok : (r : Result Error ℕ × State) {x : ℕ} → r.0 ≡ ok x → look r ≡ (true, r.1)
unfolding look
look_ok (r, s) e = ap (λ q. look (q, s)) e

look_end :
    (r : Result Error ℕ × State) {n m : ℕ}
    → r.0 ≡ err (not_enough_items n m)
    → look r ≡ (false, r.1)
unfolding look
look_end (r, s) e = ap (λ q. look (q, s)) e

settle_ok : (r : Result Error Token × State) {t : Token} → r.0 ≡ ok t → settle r ≡ (some t, r.1)
unfolding settle
settle_ok (r, s) e = ap (λ q. settle (q, s)) e

settle_err :
    (r : Result Error Token × State) {e : Error}
    → r.0 ≡ err e
    → settle r ≡ (none, record r.1 { err = some e })
unfolding settle
settle_err (r, s) e = ap (λ q. settle (q, s)) e

has_next-peek : (s : State) → s.err ≡ none → has_next s ≡ look (peek s)
unfolding has_next
has_next-peek s e = ground arith

has_next-some :
    (p : Position) (c : ℕ) (xs : List ℕ) (s : State)
    → Stands (c ∷ xs) p s
    → (s' : State) × (has_next s ≡ (true, s')) × Stands (c ∷ xs) p s'
has_next-some p c xs s v =
    let h : Returns (Stands (c ∷ xs) p) c (peek s) = peek-some p s c xs v in
    ((peek s).1, has_next-peek s v.no_error ∙ look_ok (peek s) h.value, h.state)

has_next-none :
    (p : Position) (s : State)
    → Stands [] p s
    → (s' : State) × (has_next s ≡ (false, s')) × Stands [] p s'
has_next-none p s v =
    let h : Fails (Stands [] p) (not_enough_items 1 0) (peek s) = peek-none p s v in
    ((peek s).1, has_next-peek s v.no_error ∙ look_end (peek s) h.value, h.state)

Stands-error : {xs : List ℕ} {p : Position} {s : State} → Stands xs p s → error s ≡ none
unfolding error
Stands-error v = ground arith

-- A stored error ends the tokens.
stored-has_next : (s : State) {e : Error} → s.err ≡ some e → has_next s ≡ (false, s)
unfolding has_next
stored-has_next s e = ground arith

stored-error : (s : State) {e : Error} → s.err ≡ some e → error s ≡ some e
unfolding error
stored-error s e = ground arith

module _ (fuel : ℕ) where
  next-token :
      (p : Position) (xs : List ℕ) (l : Lexeme) (s : State)
      → length xs ≤ fuel
      → Stands xs p s
      → lexeme_of xs ≡ ok l
      → (s' : State) × (next fuel s
          ≡ (some (record { token_type = l.kind; position = p; content = l.text }), s'))
        × Stands l.rest (after p l.text) s'
  unfolding next
  next-token p xs l s k v made =
      let h : Lexes p l (parse_token fuel s) =
        subst (λ o. Parses p o (parse_token fuel s)) made
          (token-Parses fuel p xs s (omega arith) v) in
      ((parse_token fuel s).1, settle_ok (parse_token fuel s) h.value, h.state)

  next-refused :
      (p : Position) (xs : List ℕ) (e : Error) (s : State)
      → length xs ≤ fuel
      → Stands xs p s
      → lexeme_of xs ≡ err e
      → (s' : State) × (next fuel s ≡ (none, s')) × (s'.err ≡ some e)
  unfolding next
  next-refused p xs e s k v failed =
      let h : Parses p (err e) (parse_token fuel s) =
        subst (λ o. Parses p o (parse_token fuel s)) failed
          (token-Parses fuel p xs s (omega arith) v) in
      (
        record (parse_token fuel s).1 { err = some e },
        settle_err (parse_token fuel s) h.value,
        refl,
      )

  -- The loop ends, with the tokens of the text behind the earlier result.
  pub record Runs (p : Position) (xs : List ℕ) (result : List (Option Token))
      (r : Option ((List (Option Token) × Option Error) × State)) : Type 0 where
    pub items : List (Option Token)
    pub ending : Option Error
    pub final : State
    pub outcome : r ≡ some ((result ++ items, ending), final)
    pub lexed : Lexed p xs items ending

  -- The loop after a token that parsed, and after one that did not.
  token-Runs :
      (p : Position) (c : ℕ) (xs : List ℕ) (l : Lexeme) (result : List (Option Token))
      (r : Option ((List (Option Token) × Option Error) × State))
      → lexeme_of (c ∷ xs) ≡ ok l
      → Runs
          (after p l.text)
          l.rest
          (result ++ some (record { token_type = l.kind; position = p; content = l.text }) ∷ [])
          r
      → Runs p (c ∷ xs) result r
  token-Runs p c xs l result r h k = record {
    items = some (record { token_type = l.kind; position = p; content = l.text }) ∷ k.items;
    ending = k.ending;
    final = k.final;
    outcome =
        k.outcome
        ∙ ap (λ ts. some ((ts, k.ending), k.final)) (append_assoc result (_ ∷ []) k.items);
    lexed = token l h k.lexed;
  }

  refused-Runs :
      (p : Position) (c : ℕ) (xs : List ℕ) (e : Error) (rounds : ℕ) (result : List (Option Token))
      (s : State)
      → lexeme_of (c ∷ xs) ≡ err e
      → s.err ≡ some e
      → Runs p (c ∷ xs) result (collect (tokens fuel) (suc rounds) (result ++ none ∷ []) s)
  refused-Runs p c xs e rounds result s h k = record {
    items = none ∷ [];
    ending = some e;
    final = s;
    outcome =
        collect_stop (tokens fuel) rounds (result ++ none ∷ []) (stored-has_next s k)
        ∙ ap (λ o. some ((result ++ none ∷ [], o), s)) (stored-error s k);
    lexed = refused h;
  }

  pub collect-Runs :
      (rounds : ℕ) (result : List (Option Token)) (p : Position) (xs : List ℕ) (s : State)
      → length xs + 1 < rounds
      → length xs ≤ fuel
      → Stands xs p s
      → Runs p xs result (collect (tokens fuel) rounds result s)
  collect-Runs zero result p xs s h k v = absurd (omega arith)
  collect-Runs (suc rounds) result p [] s h k v =
      let (s', e, w) = has_next-none p s v in
      record {
        items = [];
        ending = none;
        final = s';
        outcome =
            collect_stop (tokens fuel) rounds result e
            ∙ ap (λ o. some ((result, o), s')) (Stands-error w)
            ∙ ap (λ ts. some ((ts, none), s')) (sym (append-nil result));
        lexed = finished;
      }
  collect-Runs (suc zero) result p (c ∷ xs) s h k v = absurd (omega arith)
  collect-Runs (suc (suc rounds)) result p (c ∷ xs) s h k v =
      let (s', e, w) = has_next-some p c xs s v in
      rw (collect_more (tokens fuel) (suc rounds) result e (Stands-error w))
        (elim (Result-cases (lexeme_of (c ∷ xs))) [
          | inl (l, made) ↦
              let (s2, e2, w2) = next-token p (c ∷ xs) l s' k w made in
              let shorter : length l.rest ≤ length xs = lexeme-shorter c xs l made in
              token-Runs p c xs l result _ made (
                rw e2 (
                  collect-Runs (suc rounds) _ (after p l.text) l.rest s2 (omega arith) (omega arith)
                    w2))
          | inr (e, failed) ↦
              let (s2, e2, w2) = next-refused p (c ∷ xs) e s' k w failed in
              rw e2 (refused-Runs p c xs e rounds result s2 failed w2)
        ])
