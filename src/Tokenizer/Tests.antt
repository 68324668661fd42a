-- ===== src/Tokenizer/Tests.antt =====
-- Runs of tokenizer/.
use golang_core.Prelude.{
  ℕ, ◌+◌, ◌≡◌, refl, Option, some, List, [], codes, arith, Result, ok, err, span,
}
use golang_core.Iterator.{Error, unknown_token, materialize}
use golang_core.Tokenizer.{State}
use golang_core.Tokenizer.Token.{
  Token, TokenType, number, float, hex_decimal, single_quote_string, is_digit, is_alpha,
  is_hex_digit, is_binary_digit,
}
use golang_core.Tokenizer.Parse.{parse_token}
use golang_core.Tokenizer.Stream.{tokens, tokenize}
use golang_core.Tokenizer.Spec.{
  Lexeme, lexeme_of, minus_of, unsigned_of, zero_of, decimal_of, fraction_of, string_of, quoted_of,
  put,
}
use golang_core.Tokenizer.Refinement.Tokens.{Parses, token-Parses}
use golang_core.Tokenizer.Runs.{Lexed}
use golang_core.Tokenizer.Runs.Whole.{
  file, start, Covers, tokenize-Stands, materialize-Lexed, materialize_lossless,
}
use golang_core.Tokenizer.Runs.Places.{Placed, materialize_places}

abbrev lexeme : TokenType → List ℕ → List ℕ → Result Error Lexeme
lexeme kind text rest = ok (record { kind = kind; text = text; rest = rest })

lex_float : lexeme_of (codes "-1.5.") ≡ lexeme float (codes "-1.5") (codes ".")
unfolding lexeme_of minus_of unsigned_of decimal_of fraction_of span is_digit
lex_float = refl

lex_hexadecimal : lexeme_of (codes "-0x1Fg") ≡ lexeme hex_decimal (codes "-0x1F") (codes "g")
unfolding lexeme_of minus_of unsigned_of zero_of span is_digit is_hex_digit
lex_hexadecimal = refl

lex_prefix_alone : lexeme_of (codes "0xg") ≡ lexeme number (codes "0") (codes "xg")
unfolding lexeme_of unsigned_of zero_of decimal_of fraction_of span is_digit is_hex_digit
    is_binary_digit
lex_prefix_alone = refl

lex_escape : lexeme_of (codes "'a\\'b'c") ≡ lexeme single_quote_string (codes "'a\\'b'") (codes "c")
unfolding lexeme_of string_of quoted_of put is_digit is_alpha
lex_escape = refl

lex_unterminated : lexeme_of (codes "'ab") ≡ err unknown_token
unfolding lexeme_of string_of quoted_of put is_digit is_alpha
lex_unterminated = refl

abbrev sample : List ℕ
sample = codes "a 7"

token-Parses_example : Parses start (lexeme_of sample) (parse_token 4 (tokenize (file sample)))
token-Parses_example =
    token-Parses 4 start sample (tokenize (file sample)) (omega arith) (tokenize-Stands sample)

materialize-Lexed_example :
    (ts : List (Option Token)) × (e : Option Error) × (s : State) × (materialize
        (tokens 4)
        (4 + 2)
        (tokenize (file sample))
      ≡ some ((ts, e), s))
    × Lexed start sample ts e
materialize-Lexed_example = materialize-Lexed 4 sample (omega arith)

materialize_lossless_example :
    (ts : List (Option Token)) × (e : Option Error) × (s : State) × (materialize
        (tokens 4)
        (4 + 2)
        (tokenize (file sample))
      ≡ some ((ts, e), s))
    × Covers sample ts e
materialize_lossless_example = materialize_lossless 4 sample (omega arith)

materialize_places_example :
    (ts : List (Option Token)) × (e : Option Error) × (s : State) × (materialize
        (tokens 4)
        (4 + 2)
        (tokenize (file sample))
      ≡ some ((ts, e), s))
    × Placed [] ts
materialize_places_example = materialize_places 4 sample (omega arith)
