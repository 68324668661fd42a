-- ===== src/Tokenizer/Parse.antt =====
-- tokenizer/state.go: `parseToken` and the parsers that it chooses from.
use golang_core.Prelude.{
  ℕ, zero, suc, Bool, true, false, Option, none, some, List, [], ◌∷◌, ◌++◌, Result, ok, err,
  if◌then◌else◌, ◌==◌, ◌&&◌, ◌||◌,
}
use golang_core.Prelude.Exec.{Exec, pure, fail, attempt, ◌>>=◌}
use golang_core.Iterator.{Error, not_enough_items, unknown_token, out_of_fuel}
use golang_core.Tokenizer.{State, peek2, read, or_end, peek_or_end, scan}
use golang_core.Tokenizer.Token.{
  TokenType, Position, Token, new_token, newline, space, tab, carriage_return, new_line, number,
  float, hex_decimal, binary, single_quote_string, double_quote_string, diagonal_quote_string, word,
  symbol, is_whitespace, is_digit, is_alpha, is_word_char, is_hex_digit, is_binary_digit,
}

unfoldable pub parse_whitespace : Position → ℕ → Exec State Error Token
unfolding new_token
parse_whitespace start char =
    if char == b' '
    then pure (new_token space start (char ∷ []))
    else if char == 9
    then pure (new_token tab start (char ∷ []))
    else if char == 13
    then pure (new_token carriage_return start (char ∷ []))
    else if char == newline
    then pure (new_token new_line start (char ∷ []))
    else fail unknown_token

unfoldable pub parse_symbol : Position → List ℕ → Exec State Error Token
unfolding new_token
parse_symbol start chars = pure (new_token symbol start chars)

unfoldable pub parse_word : ℕ → Position → ℕ → Exec State Error Token
unfolding new_token
parse_word fuel start char = do
  content ← scan fuel is_word_char (char ∷ [])
  pure (new_token word start content)

abbrev pub peek2_or_end : Exec State Error (Option (ℕ × ℕ))
peek2_or_end = do found ← attempt peek2; or_end found

-- Does `.` with a digit behind it come next? An error of the reader counts as no.
unfoldable pub fraction : Result Error (ℕ × ℕ) → Bool
unfolding is_digit
fraction (ok (first, second)) = first == b'.' && is_digit second
fraction (err e) = false

unfoldable pub has_float_fraction : Exec State Error Bool
unfolding fraction
has_float_fraction = do found ← attempt peek2; pure (fraction found)

-- The token type and the test of the digits that a prefix such as `x` or `B` stands for.
unfoldable pub base_of : ℕ → ℕ → Option (TokenType × (ℕ → Bool))
base_of prefix digit =
    if (prefix == b'x' || prefix == b'X') && is_hex_digit digit
    then some (hex_decimal, is_hex_digit)
    else if (prefix == b'b' || prefix == b'B') && is_binary_digit digit
    then some (binary, is_binary_digit)
    else none

unfoldable pub scan_base :
    ℕ → List ℕ → Option (TokenType × (ℕ → Bool)) → Exec State Error (Option (TokenType × List ℕ))
scan_base fuel content none = pure none
scan_base fuel content (some (token_type, digit_check)) = do
  (_, prefix) ← read
  whole ← scan fuel digit_check (content ++ prefix ∷ [])
  pure (some (token_type, whole))

-- The token type and the content with the prefix and its digits, or `none` if there is no prefix.
unfoldable pub parse_base_prefix : ℕ → List ℕ → Exec State Error (Option (TokenType × List ℕ))
unfolding scan_base
parse_base_prefix fuel content = do
  ahead ← peek2_or_end
  elim ahead [
    | none ↦ pure none
    | some (prefix, digit) ↦ scan_base fuel content (base_of prefix digit)
  ]

-- `0` and `-0` may start a number with a base prefix.
unfoldable pub is_zero : List ℕ → Bool
is_zero [] = false
is_zero (a ∷ []) = a == b'0'
is_zero (a ∷ b ∷ []) = a == b'-' && b == b'0'
is_zero (a ∷ b ∷ c ∷ r) = false

-- The part of a number from the point on, if there is one.
unfoldable pub parse_fraction : ℕ → Position → List ℕ → Exec State Error Token
unfolding new_token
parse_fraction fuel start content = do
  dotted ← has_float_fraction
  elim dotted [
    | true ↦ do
      (_, dot) ← read
      all ← scan fuel is_digit (content ++ dot ∷ [])
      pure (new_token float start all)
    | false ↦ pure (new_token number start content)
  ]

unfoldable pub parse_decimal : ℕ → Position → List ℕ → Exec State Error Token
unfolding parse_fraction
parse_decimal fuel start content = do
  whole ← scan fuel is_digit content
  parse_fraction fuel start whole

unfoldable pub parse_zero : ℕ → Position → List ℕ → Exec State Error Token
unfolding new_token
parse_zero fuel start content = do
  based ← parse_base_prefix fuel content
  elim based [
    | none ↦ parse_decimal fuel start content
    | some (token_type, whole) ↦ pure (new_token token_type start whole)
  ]

unfoldable pub parse_unsigned : ℕ → Position → List ℕ → Exec State Error Token
unfolding is_zero
parse_unsigned fuel start content =
    if is_zero content then parse_zero fuel start content else parse_decimal fuel start content

unfoldable pub parse_number : ℕ → Position → ℕ → Exec State Error Token
unfolding parse_symbol parse_unsigned
parse_number fuel start char =
    if char == b'-'
    then (do
      found ← peek_or_end
      elim found [
        | none ↦ parse_symbol start (char ∷ [])
        | some next ↦
            if is_digit next
            then (do (_, digit) ← read; parse_unsigned fuel start (char ∷ digit ∷ []))
            else parse_symbol start (char ∷ [])
      ])
    else parse_unsigned fuel start (char ∷ [])

abbrev pub or_unterminated : Result Error (Position × ℕ) → Exec State Error ℕ
or_unterminated (ok (_, next)) = pure next
or_unterminated (err (not_enough_items n m)) = fail unknown_token
or_unterminated (err e) = fail e

-- The loop of `parseQuotedString`.
unfoldable pub scan_quoted : ℕ → ℕ → Bool → Bool → List ℕ → Exec State Error (List ℕ)
scan_quoted zero quote allow_escapes escaped content = fail out_of_fuel
scan_quoted (suc fuel) quote allow_escapes escaped content = do
  found ← attempt read
  next ← or_unterminated found
  let content' = content ++ next ∷ []
  elim (allow_escapes && escaped) [
    | true ↦ scan_quoted fuel quote allow_escapes false content'
    | false ↦ elim (allow_escapes && next == b'\\') [
      | true ↦ scan_quoted fuel quote allow_escapes true content'
      | false ↦ elim (next == quote) [
        | true ↦ pure content'
        | false ↦ scan_quoted fuel quote allow_escapes escaped content'
      ]
    ]
  ]

unfoldable pub parse_quoted_string : ℕ → TokenType → Position → ℕ → Bool → Exec State Error Token
unfolding new_token
parse_quoted_string fuel token_type start quote allow_escapes = do
  content ← scan_quoted fuel quote allow_escapes false (quote ∷ [])
  pure (new_token token_type start content)

-- The `switch` of `parseToken`.
unfoldable pub parse_char : ℕ → Position → ℕ → Exec State Error Token
unfolding parse_whitespace parse_symbol
parse_char fuel start char =
    if is_whitespace char
    then parse_whitespace start char
    else if char == b'-' || is_digit char
    then parse_number fuel start char
    else if is_alpha char
    then parse_word fuel start char
    else if char == b'\''
    then parse_quoted_string fuel single_quote_string start char true
    else if char == b'"'
    then parse_quoted_string fuel double_quote_string start char true
    else if char == b'`'
    then parse_quoted_string fuel diagonal_quote_string start char false
    else parse_symbol start (char ∷ [])

unfoldable pub parse_token : ℕ → Exec State Error Token
unfolding parse_char
parse_token fuel = do (start, char) ← read; parse_char fuel start char
