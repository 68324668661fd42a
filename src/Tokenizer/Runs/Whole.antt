-- ===== src/Tokenizer/Runs/Whole.antt =====
-- tokenizer/tokenizer.go: the tokens of a whole source that ends by the end of file.
use golang_core.Prelude.{
  ℕ, ◌+◌, ◌≤◌, ◌≡◌, refl, ap, ◌∙◌, Option, none, some, List, [], ◌∷◌, ◌++◌, append_assoc, err,
  length, arith,
}
use golang_core.Iterator.{Error, unknown_token, collect, materialize}
use golang_core.Iterator.Reader.{Source, new_reader_iterator}
use golang_core.Tokenizer.{State, new_state}
use golang_core.Tokenizer.Token.{Position, Token, new_token}
use golang_core.Tokenizer.Stream.{tokens, tokenize}
use golang_core.Tokenizer.Spec.{Lexeme, lexeme_of}
use golang_core.Tokenizer.Grammar.{Extends, lexeme-prefix, lexeme_error}
use golang_core.Tokenizer.Steps.{Stands}
use golang_core.Tokenizer.Runs.{Lexed, finished, token, refused, Runs, collect-Runs}

abbrev pub file : List ℕ → Source
file bytes = record { bytes = bytes; ending = none }

abbrev pub start : Position
start = record { offset = 0; column = 0; line = 1 }

pub tokenize-Stands : (bytes : List ℕ) → Stands bytes start (tokenize (file bytes))
unfolding tokenize new_state
tokenize-Stands bytes = record {
  pending = record {
    inner = new_reader_iterator (file bytes);
    has_inner = refl;
    ready = record { no_error = refl; ends_well = refl };
    no_error = refl;
    pending = refl;
  };
  place = refl;
  no_error = refl;
}

-- Collecting the tokens of a file ends, and gives the tokens of the grammar at their positions and
-- the grammar's error, whatever the bytes, if the fuel is at least their number.
pub materialize-Lexed :
    (fuel : ℕ) (bytes : List ℕ)
    → length bytes ≤ fuel
    → (ts : List (Option Token)) × (e : Option Error) × (s : State) × (materialize
          (tokens fuel)
          (fuel + 2)
          (tokenize (file bytes))
        ≡ some ((ts, e), s))
      × Lexed start bytes ts e
unfolding materialize
materialize-Lexed fuel bytes h =
    let r : Runs fuel start bytes [] (collect (tokens fuel) (fuel + 2) [] (tokenize (file bytes))) =
      collect-Runs fuel (fuel + 2) [] start bytes _ (omega arith) h (tokenize-Stands bytes) in
    (r.items, r.ending, r.final, r.outcome, r.lexed)

-- The contents of the tokens, one behind the other.
abbrev pub texts : List (Option Token) → List ℕ
texts [] = []
texts (none ∷ ts) = texts ts
texts (some t ∷ ts) = t.content ++ texts ts

-- The tokens cover the text. Behind an error they cover it up to the lexeme that the grammar refuses.
abbrev pub Covers : List ℕ → List (Option Token) → Option Error → Type 0
Covers xs ts none = texts ts ≡ xs
Covers xs ts (some e) =
    (e ≡ unknown_token)
    × (c : ℕ) × (rest : List ℕ) × (lexeme_of (c ∷ rest) ≡ err e)
    × (texts ts ++ c ∷ rest ≡ xs)

Covers-token :
    (xs ys : List ℕ) (t : Token) (ts : List (Option Token)) (e : Option Error)
    → t.content ++ ys ≡ xs
    → Covers ys ts e
    → Covers xs (some t ∷ ts) e
Covers-token xs ys t ts none h c = ap (◌++◌ t.content) c ∙ h
Covers-token xs ys t ts (some e) h k = (
  k.0,
  k.1,
  k.2,
  k.3,
  append_assoc t.content (texts ts) (k.1 ∷ k.2) ∙ ap (◌++◌ t.content) k.4 ∙ h,
)

Extends-whole :
    (c : ℕ) (xs : List ℕ) (l : Lexeme) → Extends (c ∷ []) xs l → l.text ++ l.rest ≡ c ∷ xs
Extends-whole c xs l e = rw e.text (ap (◌∷◌ c) e.rest)

Lexed-Covers :
    {p : Position} {xs : List ℕ} {ts : List (Option Token)} {e : Option Error}
    → Lexed p xs ts e
    → Covers xs ts e
unfolding new_token
Lexed-Covers finished = refl
Lexed-Covers (token {p = p} {c = c} {xs = xs} {ts = ts} {e = e} l made rest) =
    Covers-token (c ∷ xs) l.rest (new_token l.kind p l.text) ts e
      (Extends-whole c xs l (lexeme-prefix c xs l made)) (Lexed-Covers rest)
Lexed-Covers (refused {c = c} {xs = xs} failed) = (lexeme_error c xs _ failed, c, xs, failed, refl)

-- Nothing of a file is lost: the contents of its tokens make the file again, or, if collecting them
-- ends with an error, the part of it in front of a lexeme that the grammar refuses, and the error is
-- `ErrUnknownToken`. The fuel is at least the length.
pub materialize_lossless :
    (fuel : ℕ) (bytes : List ℕ)
    → length bytes ≤ fuel
    → (ts : List (Option Token)) × (e : Option Error) × (s : State) × (materialize
          (tokens fuel)
          (fuel + 2)
          (tokenize (file bytes))
        ≡ some ((ts, e), s))
      × Covers bytes ts e
materialize_lossless fuel bytes h =
    let (ts, e, s, run, lexed) = materialize-Lexed fuel bytes h in
    (ts, e, s, run, Lexed-Covers lexed)
