-- ===== src/Tokenizer/Refinement/Tokens.antt =====
-- tokenizer/state.go: `parseToken` computes the first lexeme of the text, for every text.
use golang_core.Prelude.{
  ℕ, suc, ◌<◌, ◌≡◌, refl, subst, Bool, true, false, Option, none, some, List, [], ◌∷◌, Result, ok,
  err, ◌==◌, ==_iff, length, arith, Bool-cases, inl, inr,
}
use golang_core.Prelude.Exec.{Returns, Fails, bind-Returns, stop-Fails, continue-ok, continue-err}
use golang_core.Iterator.{Error, not_enough_items}
use golang_core.Tokenizer.{State, read}
use golang_core.Tokenizer.Token.{
  Position, Token, TokenType, single_quote_string, double_quote_string, diagonal_quote_string, word,
  is_word_char, is_digit, is_alpha, is_whitespace, newline,
}
use golang_core.Tokenizer.Parse.{
  parse_char, parse_token, parse_quoted_string, parse_word, parse_number, scan_quoted,
}
use golang_core.Tokenizer.Spec.{Lexeme, run_of, lexeme_of, string_of, one, minus_of}
use golang_core.Tokenizer.Steps.{Stands, after, read-some, read-none}
use golang_core.Tokenizer.Refinement.{Lexes, run-Lexes, minus-Lexes, number-Lexes}
use golang_core.Tokenizer.Refinement.Strings.{Quotes, quoted-Quotes}

-- The call returns the token of the lexeme or the grammar's error. Behind an error the source ends.
abbrev pub Parses : Position → Result Error Lexeme → Result Error Token × State → Type 0
Parses start (ok l) r = Lexes start l r
Parses start (err e) r = Fails (λ s. (p : Position) × Stands [] p s) e r

lexeme_nil : lexeme_of [] ≡ err (not_enough_items 1 0)
unfolding lexeme_of
lexeme_nil = refl

module _ (fuel : ℕ) (start : Position) where
  string-Parses :
      (kind : TokenType) (quote : ℕ) (allow : Bool) (o : Option (List ℕ × List ℕ)) (s : State)
      → Quotes start (quote ∷ []) o (scan_quoted fuel quote allow false (quote ∷ []) s)
      → Parses start (string_of kind quote o) (parse_quoted_string fuel kind start quote allow s)
  unfolding string_of parse_quoted_string
  string-Parses kind quote allow none s h = stop-Fails _ h
  string-Parses kind quote allow (some (ys, zs)) s h =
      bind-Returns _ h λ s' w. record { value = refl; state = w }

  word-Lexes :
      (c : ℕ) (xs : List ℕ) (s : State)
      → length xs < fuel
      → Stands xs (after start (c ∷ [])) s
      → Lexes start (run_of word is_word_char (c ∷ []) xs) (parse_word fuel start c s)
  unfolding parse_word
  word-Lexes c xs s h v = run-Lexes fuel start word is_word_char (c ∷ []) xs s h v

  minus-Parses :
      (c : ℕ) (xs : List ℕ) (s : State)
      → c ≡ b'-'
      → length xs < fuel
      → Stands xs (after start (c ∷ [])) s
      → Lexes start (minus_of xs) (parse_number fuel start c s)
  minus-Parses c xs s e h v =
      rw e (minus-Lexes fuel start xs s h (subst (λ d. Stands xs (after start (d ∷ [])) s) e v))

  char-Parses :
      (c : ℕ) (xs : List ℕ) (s : State)
      → length xs < fuel
      → Stands xs (after start (c ∷ [])) s
      → Parses start (lexeme_of (c ∷ xs)) (parse_char fuel start c s)
  unfolding lexeme_of parse_char is_whitespace one
  char-Parses c xs s h v = elim (Bool-cases (c == b' ')) [
    | inl y0 ↦ rw (y0, Parses) (record { value = refl; state = v })
    | inr n0 ↦
        rw (n0, Parses)
          (elim (Bool-cases (c == 9)) [
            | inl y1 ↦ rw (y1, Parses) (record { value = refl; state = v })
            | inr n1 ↦
                rw (n1, Parses)
                  (elim (Bool-cases (c == 13)) [
                    | inl y2 ↦ rw (y2, Parses) (record { value = refl; state = v })
                    | inr n2 ↦
                        rw (n2, Parses)
                          (elim (Bool-cases (c == newline)) [
                            | inl y3 ↦ rw (y3, Parses) (record { value = refl; state = v })
                            | inr n3 ↦
                                rw (n3, Parses)
                                  (elim (Bool-cases (c == b'-')) [
                                    | inl y4 ↦
                                        rw (y4, Parses)
                                          (minus-Parses c xs s ((==_iff c b'-').0 y4) h v)
                                    | inr n4 ↦
                                        rw (n4, Parses)
                                          (elim (Bool-cases (is_digit c)) [
                                            | inl y5 ↦
                                                rw (y5, Parses)
                                                  (number-Lexes fuel start c xs s n4 h v)
                                            | inr n5 ↦
                                                rw (n5, Parses)
                                                  (elim (Bool-cases (is_alpha c)) [
                                                    | inl y6 ↦
                                                        rw (y6, Parses) (word-Lexes c xs s h v)
                                                    | inr n6 ↦
                                                        rw (n6, Parses)
                                                          (elim (Bool-cases (c == b'\'')) [
                                                            | inl y7 ↦
                                                              rw (y7, Parses)
                                                              (string-Parses single_quote_string c
                                                              true _ s
                                                              (quoted-Quotes start c true fuel
                                                              (c ∷ []) xs s h v))
                                                            | inr n7 ↦
                                                              rw (n7, Parses)
                                                              (elim (Bool-cases (c == b'"')) [
                                                                | inl y8 ↦
                                                                  rw (y8, Parses)
                                                                  (string-Parses double_quote_string
                                                                  c true _ s
                                                                  (quoted-Quotes start c true fuel
                                                                  (c ∷ []) xs s h v))
                                                                | inr n8 ↦
                                                                  rw (n8, Parses)
                                                                  (elim (Bool-cases (c == b'`')) [
                                                                    | inl y9 ↦
                                                                      rw (y9, Parses)
                                                                      (string-Parses
                                                                      diagonal_quote_string c false
                                                                      _ s
                                                                      (quoted-Quotes start c false
                                                                      fuel (c ∷ []) xs s h v))
                                                                    | inr n9 ↦
                                                                      rw (n9, Parses)
                                                                      (record {
                                                                      value = refl;
                                                                      state = v;
                                                                      })
                                                                  ])
                                                              ])
                                                          ])
                                                  ])
                                          ])
                                  ])
                          ])
                  ])
          ])
  ]

  -- In a state without a stored error, at any text behind which the file ends, `parseToken` returns
  -- the first lexeme of the grammar as a token at the current position and leaves the state in front
  -- of the rest; or it returns the grammar's error and leaves the source at its end. The fuel is at
  -- least the length of the text.
  pub token-Parses :
      (xs : List ℕ) (s : State)
      → length xs < suc fuel
      → Stands xs start s
      → Parses start (lexeme_of xs) (parse_token fuel s)
  unfolding parse_token
  token-Parses [] s h v =
      let e : Fails (Stands [] start) (not_enough_items 1 0) (read s) = read-none start s v in
      rw (lexeme_nil, continue-err (read s) _ e.value)
        (record { value = refl; state = (start, e.state) })
  token-Parses (c ∷ xs) s h v =
      let e : Returns (Stands xs (after start (c ∷ []))) (start, c) (read s) =
        read-some start s c xs v in
      rw (continue-ok (read s) _ e.value) (char-Parses c xs (read s).1 (omega arith) e.state)
