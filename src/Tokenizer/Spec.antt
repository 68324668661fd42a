-- ===== src/Tokenizer/Spec.antt =====
-- The lexical grammar that tokenizer/state.go means, over plain lists: the longest prefix that makes
-- one lexeme, its type, and the rest. There is no state, no lookahead and no fuel here.
use golang_core.Prelude.{
  ℕ, Bool, true, false, Option, none, some, List, [], ◌∷◌, ◌++◌, Result, ok, err, if◌then◌else◌,
  ◌==◌, ◌&&◌, ◌||◌, span,
}
use golang_core.Iterator.{Error, not_enough_items, unknown_token}
use golang_core.Tokenizer.Token.{
  TokenType, newline, space, tab, carriage_return, new_line, number, float, hex_decimal, binary,
  single_quote_string, double_quote_string, diagonal_quote_string, word, symbol, is_digit, is_alpha,
  is_word_char, is_hex_digit, is_binary_digit,
}

pub record Lexeme : Type 0 where
  pub kind : TokenType
  pub text : List ℕ
  pub rest : List ℕ

-- `lead` is what is read already; all bytes that pass the test belong to the lexeme.
abbrev pub run_of : TokenType → (ℕ → Bool) → List ℕ → List ℕ → Lexeme
run_of kind test lead xs =
    let (ys, zs) = span test xs in record { kind = kind; text = lead ++ ys; rest = zs }

unfoldable pub fraction_of : List ℕ → List ℕ → Lexeme
fraction_of lead (a ∷ b ∷ r) =
    if a == b'.' && is_digit b
    then run_of float is_digit (lead ++ a ∷ []) (b ∷ r)
    else record { kind = number; text = lead; rest = a ∷ b ∷ r }
fraction_of lead (a ∷ []) = record { kind = number; text = lead; rest = a ∷ [] }
fraction_of lead [] = record { kind = number; text = lead; rest = [] }

unfoldable pub decimal_of : List ℕ → List ℕ → Lexeme
decimal_of lead xs = let (ys, zs) = span is_digit xs in fraction_of (lead ++ ys) zs

-- A number that starts with 0 may have a base prefix.
unfoldable pub zero_of : List ℕ → List ℕ → Lexeme
zero_of lead (a ∷ b ∷ r) =
    if (a == b'x' || a == b'X') && is_hex_digit b
    then run_of hex_decimal is_hex_digit (lead ++ a ∷ []) (b ∷ r)
    else if (a == b'b' || a == b'B') && is_binary_digit b
    then run_of binary is_binary_digit (lead ++ a ∷ []) (b ∷ r)
    else decimal_of lead (a ∷ b ∷ r)
zero_of lead (a ∷ []) = decimal_of lead (a ∷ [])
zero_of lead [] = decimal_of lead []

-- The digit `d` starts the number, behind the sign in `sign`.
unfoldable pub unsigned_of : List ℕ → ℕ → List ℕ → Lexeme
unsigned_of sign d xs =
    if d == b'0' then zero_of (sign ++ d ∷ []) xs else decimal_of (sign ++ d ∷ []) xs

unfoldable pub minus_of : List ℕ → Lexeme
minus_of [] = record { kind = symbol; text = b'-' ∷ []; rest = [] }
minus_of (d ∷ r) =
    if is_digit d
    then unsigned_of (b'-' ∷ []) d r
    else record { kind = symbol; text = b'-' ∷ []; rest = d ∷ r }

unfoldable pub put : ℕ → Option (List ℕ × List ℕ) → Option (List ℕ × List ℕ)
put x none = none
put x (some (ys, zs)) = some (x ∷ ys, zs)

-- What follows an opening quote, up to the closing one, and the rest; `none` if nothing closes it.
-- Where escapes are allowed, a backslash takes the byte behind it along, whatever that is.
unfoldable pub quoted_of : ℕ → Bool → List ℕ → Option (List ℕ × List ℕ)
unfolding put
quoted_of quote allow_escapes [] = none
quoted_of quote allow_escapes (x ∷ []) =
    if allow_escapes && x == b'\\' then none else if x == quote then some (x ∷ [], []) else none
quoted_of quote allow_escapes (x ∷ y ∷ r) = elim (allow_escapes && x == b'\\') [
  | true ↦ put x (put y (quoted_of quote allow_escapes r))
  | false ↦ elim (x == quote) [
    | true ↦ some (x ∷ [], y ∷ r)
    | false ↦ put x (quoted_of quote allow_escapes (y ∷ r))
  ]
]

unfoldable pub string_of : TokenType → ℕ → Option (List ℕ × List ℕ) → Result Error Lexeme
string_of kind quote none = err unknown_token
string_of kind quote (some (ys, zs)) = ok (record { kind = kind; text = quote ∷ ys; rest = zs })

unfoldable pub one : TokenType → ℕ → List ℕ → Result Error Lexeme
one kind c xs = ok (record { kind = kind; text = c ∷ []; rest = xs })

-- The first lexeme of a text. Only a string that nothing closes makes none.
unfoldable pub lexeme_of : List ℕ → Result Error Lexeme
unfolding string_of one
lexeme_of [] = err (not_enough_items 1 0)
lexeme_of (c ∷ xs) =
    if c == b' '
    then one space c xs
    else if c == 9
    then one tab c xs
    else if c == 13
    then one carriage_return c xs
    else if c == newline
    then one new_line c xs
    else if c == b'-'
    then ok (minus_of xs)
    else if is_digit c
    then ok (unsigned_of [] c xs)
    else if is_alpha c
    then ok (run_of word is_word_char (c ∷ []) xs)
    else if c == b'\''
    then string_of single_quote_string c (quoted_of c true xs)
    else if c == b'"'
    then string_of double_quote_string c (quoted_of c true xs)
    else if c == b'`'
    then string_of diagonal_quote_string c (quoted_of c false xs)
    else one symbol c xs
