-- ===== src/Tokenizer/Stream.antt =====
-- tokenizer/state.go and tokenizer.go: the tokenizer as an iterator over its tokens.
use golang_core.Prelude.{ℕ, Bool, true, false, Option, none, some, Result, ok, err}
use golang_core.Iterator.{Error, not_enough_items, Iterator}
use golang_core.Iterator.Reader.{Source}
use golang_core.Tokenizer.{State, new_state, peek}
use golang_core.Tokenizer.Token.{Token}
use golang_core.Tokenizer.Parse.{parse_token}

unfoldable pub look : Result Error ℕ × State → Bool × State
look (ok x, s) = (true, s)
look (err (not_enough_items n m), s) = (false, s)
look (err e, s) = (false, record s { err = some e })

unfoldable pub has_next : State → Bool × State
unfolding look
has_next s = elim s.err [ some e ↦ (false, s) | none ↦ look (peek s) ]

-- `Next` returns nil, the Token `none`, when it stores an error.
unfoldable pub settle : Result Error Token × State → Option Token × State
settle (ok token, s) = (some token, s)
settle (err e, s) = (none, record s { err = some e })

unfoldable pub next : ℕ → State → Option Token × State
unfolding settle
next fuel s = settle (parse_token fuel s)

unfoldable pub error : State → Option Error
error s = elim s.err [ some e ↦ some e | none ↦ s.iterator.err ]

-- `State` implements `Iterator[Token]`.
abbrev pub tokens : ℕ → Iterator State (Option Token)
tokens fuel = record { has_next = has_next; next = next fuel; error = error }

unfoldable pub tokenize : Source → State
tokenize source = new_state source
