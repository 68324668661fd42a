-- ===== src/Tokenizer/Grammar.antt =====
-- The lexical grammar of tokenizer/state.go: a lexeme is a nonempty prefix of the text.
use golang_core.Prelude.{
  ℕ, ◌≤◌, ◌≡◌, refl, sym, ap, subst, ◌∙◌, Bool, true, false, Option, none, some, List, [], ◌∷◌,
  ◌++◌, append_assoc, append-nil, Result, ok, err, ◌==◌, ==_iff, ◌&&◌, ◌||◌, length, length-append,
  span, span-append, arith, Bool-cases, inl, inr,
}
use golang_core.Iterator.{Error, unknown_token}
use golang_core.Tokenizer.Token.{
  TokenType, space, tab, carriage_return, new_line, number, float, hex_decimal, binary,
  single_quote_string, double_quote_string, diagonal_quote_string, word, symbol, newline,
  is_word_char, is_digit, is_alpha, is_hex_digit, is_binary_digit,
}
use golang_core.Tokenizer.Spec.{
  Lexeme, run_of, fraction_of, decimal_of, zero_of, unsigned_of, minus_of, put, quoted_of,
  string_of, one, lexeme_of,
}

-- The lexeme takes a part of `xs` behind `lead`, and the rest of it is left.
pub record Extends (lead xs : List ℕ) (l : Lexeme) : Type 0 where
  pub taken : List ℕ
  pub text : l.text ≡ lead ++ taken
  pub rest : taken ++ l.rest ≡ xs

run-Extends :
    (kind : TokenType) (test : ℕ → Bool) (lead xs : List ℕ)
    → Extends lead xs (run_of kind test lead xs)
run-Extends kind test lead xs = record {
  taken = (span test xs).0;
  text = refl;
  rest = span-append test xs;
}

-- What extends a longer lead extends the shorter one too.
shift-Extends :
    (lead ys xs : List ℕ) (l : Lexeme) → Extends (lead ++ ys) xs l → Extends lead (ys ++ xs) l
shift-Extends lead ys xs l e = record {
  taken = ys ++ e.taken;
  text = e.text ∙ append_assoc lead ys e.taken;
  rest = append_assoc ys e.taken l.rest ∙ ap (◌++◌ ys) e.rest;
}

none-Extends :
    (kind : TokenType) (lead xs : List ℕ)
    → Extends lead xs (record { kind = kind; text = lead; rest = xs })
none-Extends kind lead xs = record { taken = []; text = sym (append-nil lead); rest = refl }

fraction-Extends : (lead xs : List ℕ) → Extends lead xs (fraction_of lead xs)
unfolding fraction_of
fraction-Extends lead [] = none-Extends number lead []
fraction-Extends lead (a ∷ []) = none-Extends number lead (a ∷ [])
fraction-Extends lead (a ∷ b ∷ r) = elim (Bool-cases (a == b'.' && is_digit b)) [
  | inl y ↦ rw y (shift-Extends lead (a ∷ []) (b ∷ r) _ (run-Extends float is_digit _ (b ∷ r)))
  | inr n ↦ rw n (none-Extends number lead (a ∷ b ∷ r))
]

decimal-Extends : (lead xs : List ℕ) → Extends lead xs (decimal_of lead xs)
unfolding decimal_of
decimal-Extends lead xs =
    subst (λ t. Extends lead t (fraction_of (lead ++ (span is_digit xs).0) (span is_digit xs).1))
      (span-append is_digit xs)
      (shift-Extends lead (span is_digit xs).0 (span is_digit xs).1 _
        (fraction-Extends (lead ++ (span is_digit xs).0) (span is_digit xs).1))

zero-Extends : (lead xs : List ℕ) → Extends lead xs (zero_of lead xs)
unfolding zero_of
zero-Extends lead [] = decimal-Extends lead []
zero-Extends lead (a ∷ []) = decimal-Extends lead (a ∷ [])
zero-Extends lead (a ∷ b ∷ r) = elim (Bool-cases ((a == b'x' || a == b'X') && is_hex_digit b)) [
  | inl y ↦
      rw y (shift-Extends lead (a ∷ []) (b ∷ r) _ (run-Extends hex_decimal is_hex_digit _ (b ∷ r)))
  | inr n ↦ rw n (elim (Bool-cases ((a == b'b' || a == b'B') && is_binary_digit b)) [
    | inl y ↦
        rw y (shift-Extends lead (a ∷ []) (b ∷ r) _ (run-Extends binary is_binary_digit _ (b ∷ r)))
    | inr m ↦ rw m (decimal-Extends lead (a ∷ b ∷ r))
  ])
]

unsigned-Extends :
    (sign : List ℕ) (d : ℕ) (xs : List ℕ) → Extends (sign ++ d ∷ []) xs (unsigned_of sign d xs)
unfolding unsigned_of
unsigned-Extends sign d xs = elim (Bool-cases (d == b'0')) [
  | inl y ↦ rw y (zero-Extends (sign ++ d ∷ []) xs)
  | inr n ↦ rw n (decimal-Extends (sign ++ d ∷ []) xs)
]

minus-Extends : (xs : List ℕ) → Extends (b'-' ∷ []) xs (minus_of xs)
unfolding minus_of
minus-Extends [] = none-Extends symbol (b'-' ∷ []) []
minus-Extends (d ∷ r) = elim (Bool-cases (is_digit d)) [
  | inl y ↦ rw y (shift-Extends (b'-' ∷ []) (d ∷ []) r _ (unsigned-Extends (b'-' ∷ []) d r))
  | inr n ↦ rw n (none-Extends symbol (b'-' ∷ []) (d ∷ r))
]

-- What stands in front of a closing quote, the quote included, and the rest make the text.
abbrev Splits : List ℕ → Option (List ℕ × List ℕ) → Type 0
Splits xs none = Unit {0}
Splits xs (some (ys, zs)) = ys ++ zs ≡ xs

put-Splits :
    (x : ℕ) (xs : List ℕ) (o : Option (List ℕ × List ℕ)) → Splits xs o → Splits (x ∷ xs) (put x o)
unfolding put
put-Splits x xs none h = tt
put-Splits x xs (some (ys, zs)) h = ap (◌∷◌ x) h

quoted-Splits : (quote : ℕ) (allow : Bool) (xs : List ℕ) → Splits xs (quoted_of quote allow xs)
unfolding quoted_of
quoted-Splits quote allow [] = tt
quoted-Splits quote allow (x ∷ []) = elim (Bool-cases (allow && x == b'\\')) [
  | inl y ↦ rw (y, Splits) tt
  | inr n ↦
      rw (n, Splits)
        (elim (Bool-cases (x == quote)) [ inl y ↦ rw (y, Splits) refl | inr m ↦ rw (m, Splits) tt ])
]
quoted-Splits quote allow (x ∷ y ∷ r) = elim (Bool-cases (allow && x == b'\\')) [
  | inl b ↦ rw (b, Splits) (put-Splits x (y ∷ r) _ (put-Splits y r _ (quoted-Splits quote allow r)))
  | inr n ↦
      rw (n, Splits)
        (elim (Bool-cases (x == quote)) [
          | inl c ↦ rw (c, Splits) refl
          | inr m ↦ rw (m, Splits) (put-Splits x (y ∷ r) _ (quoted-Splits quote allow (y ∷ r)))
        ])
]

-- A lexeme starts with the first byte; the only error is `unknown_token`.
abbrev Begins : ℕ → List ℕ → Result Error Lexeme → Type 0
Begins c xs (ok l) = Extends (c ∷ []) xs l
Begins c xs (err e) = e ≡ unknown_token

string-Begins :
    (kind : TokenType) (c : ℕ) (xs : List ℕ) (o : Option (List ℕ × List ℕ))
    → Splits xs o
    → Begins c xs (string_of kind c o)
unfolding string_of
string-Begins kind c xs none h = refl
string-Begins kind c xs (some (ys, zs)) h = record { taken = ys; text = refl; rest = h }

lexeme-Begins : (c : ℕ) (xs : List ℕ) → Begins c xs (lexeme_of (c ∷ xs))
unfolding lexeme_of one
lexeme-Begins c xs = elim (Bool-cases (c == b' ')) [
  | inl y0 ↦ rw (y0, Begins) (none-Extends space (c ∷ []) xs)
  | inr n0 ↦
      rw (n0, Begins)
        (elim (Bool-cases (c == 9)) [
          | inl y1 ↦ rw (y1, Begins) (none-Extends tab (c ∷ []) xs)
          | inr n1 ↦
              rw (n1, Begins)
                (elim (Bool-cases (c == 13)) [
                  | inl y2 ↦ rw (y2, Begins) (none-Extends carriage_return (c ∷ []) xs)
                  | inr n2 ↦
                      rw (n2, Begins)
                        (elim (Bool-cases (c == newline)) [
                          | inl y3 ↦ rw (y3, Begins) (none-Extends new_line (c ∷ []) xs)
                          | inr n3 ↦
                              rw (n3, Begins)
                                (elim (Bool-cases (c == b'-')) [
                                  | inl y4 ↦
                                      rw (y4, Begins)
                                        (subst (λ d. Extends (d ∷ []) xs (minus_of xs))
                                          (sym ((==_iff c b'-').0 y4)) (minus-Extends xs))
                                  | inr n4 ↦
                                      rw (n4, Begins)
                                        (elim (Bool-cases (is_digit c)) [
                                          | inl y5 ↦ rw (y5, Begins) (unsigned-Extends [] c xs)
                                          | inr n5 ↦
                                              rw (n5, Begins)
                                                (elim (Bool-cases (is_alpha c)) [
                                                  | inl y6 ↦
                                                      rw (y6, Begins)
                                                        (run-Extends word is_word_char (c ∷ []) xs)
                                                  | inr n6 ↦
                                                      rw (n6, Begins)
                                                        (elim (Bool-cases (c == b'\'')) [
                                                          | inl y7 ↦
                                                            rw (y7, Begins)
                                                            (string-Begins single_quote_string c xs
                                                            _ (quoted-Splits c true xs))
                                                          | inr n7 ↦
                                                            rw (n7, Begins)
                                                            (elim (Bool-cases (c == b'"')) [
                                                              | inl y8 ↦
                                                                rw (y8, Begins)
                                                                (string-Begins double_quote_string c
                                                                xs _ (quoted-Splits c true xs))
                                                              | inr n8 ↦
                                                                rw (n8, Begins)
                                                                (elim (Bool-cases (c == b'`')) [
                                                                  | inl y9 ↦
                                                                    rw (y9, Begins)
                                                                    (string-Begins
                                                                    diagonal_quote_string c xs _
                                                                    (quoted-Splits c false xs))
                                                                  | inr n9 ↦
                                                                    rw (n9, Begins)
                                                                    (none-Extends symbol (c ∷ [])
                                                                    xs)
                                                                ])
                                                            ])
                                                        ])
                                                ])
                                        ])
                                ])
                        ])
                ])
        ])
]

-- The first lexeme of a text is a nonempty prefix of it.
pub lexeme-prefix :
    (c : ℕ) (xs : List ℕ) (l : Lexeme) → lexeme_of (c ∷ xs) ≡ ok l → Extends (c ∷ []) xs l
lexeme-prefix c xs l h = subst (Begins c xs) h (lexeme-Begins c xs)

pub lexeme_error :
    (c : ℕ) (xs : List ℕ) (e : Error) → lexeme_of (c ∷ xs) ≡ err e → e ≡ unknown_token
lexeme_error c xs e h = subst (Begins c xs) h (lexeme-Begins c xs)

pub lexeme-shorter :
    (c : ℕ) (xs : List ℕ) (l : Lexeme) → lexeme_of (c ∷ xs) ≡ ok l → length l.rest ≤ length xs
lexeme-shorter c xs l h =
    let e : Extends (c ∷ []) xs l = lexeme-prefix c xs l h in
    omega (arith, ap length e.rest, length-append e.taken l.rest)
