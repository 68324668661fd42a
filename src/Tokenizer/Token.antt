-- ===== src/Tokenizer/Token.antt =====
-- tokenizer/token.go, tokenizer/position.go and the character classes of tokenizer/state.go.
use golang_core.Prelude.{ℕ, Bool, List, leb, ◌==◌, ◌&&◌, ◌||◌}

pub data TokenType : Type 0 where
  space tab carriage_return new_line : TokenType
  number float hex_decimal binary : TokenType
  single_quote_string double_quote_string diagonal_quote_string : TokenType
  word symbol : TokenType

pub record Position : Type 0 where
  pub offset : ℕ  -- uint64
  pub column : ℕ  -- uint64
  pub line : ℕ  -- uint64

pub record Token : Type 0 where
  pub token_type : TokenType
  pub position : Position
  pub content : List ℕ

unfoldable pub new_token : TokenType → Position → List ℕ → Token
new_token token_type position content = record {
  token_type = token_type;
  position = position;
  content = content;
}

abbrev pub newline : ℕ
newline = 10

unfoldable pub is_whitespace : ℕ → Bool
is_whitespace char = char == b' ' || char == 9 || char == 13 || char == newline

unfoldable pub is_digit : ℕ → Bool
is_digit char = leb b'0' char && leb char b'9'

unfoldable pub is_alpha : ℕ → Bool
is_alpha char = leb b'a' char && leb char b'z' || leb b'A' char && leb char b'Z'

unfoldable pub is_word_char : ℕ → Bool
unfolding is_alpha is_digit
is_word_char char = is_alpha char || is_digit char || char == b'_'

unfoldable pub is_hex_digit : ℕ → Bool
unfolding is_digit
is_hex_digit char =
    is_digit char || leb b'a' char && leb char b'f' || leb b'A' char && leb char b'F'

unfoldable pub is_binary_digit : ℕ → Bool
is_binary_digit char = char == b'0' || char == b'1'
