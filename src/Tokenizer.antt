-- ===== src/Tokenizer.antt =====
-- tokenizer/state.go: the state of the tokenizer and its readers. A method of `State` that returns
-- an error is an `Exec State Error`. Each loop over the source takes fuel.
pub mod Token
pub mod Parse
pub mod Stream
pub mod Spec
pub mod Steps
pub mod Refinement
pub mod Grammar
pub mod Runs
mod Tests
use golang_core.Prelude.{
  ℕ, zero, suc, ◌+◌, u64, Bool, true, false, Option, none, some, List, [], ◌∷◌, ◌++◌, Result, ok,
  err, if◌then◌else◌, ◌==◌, ◌&&◌,
}
use golang_core.Prelude.Exec.{Exec, pure, fail, attempt, ◌>>=◌, ◌>>◌}
use golang_core.Iterator.{Error, not_enough_items, out_of_fuel}
use golang_core.Iterator.Reader.{Source, ReaderIterator, new_reader_iterator, reader_iterator}
use golang_core.Iterator.Consumable
use golang_core.Iterator.Consumable.{Consumable, new_consumable}
use Token.{Position, newline}

pub record State : Type 0 where
  pub iterator : Consumable ReaderIterator ℕ
  pub err : Option Error
  pub offset : ℕ  -- uint64
  pub column : ℕ  -- uint64
  pub line : ℕ  -- uint64

unfoldable pub new_state : Source → State
unfolding new_consumable new_reader_iterator
new_state source = record {
  iterator = new_consumable (some (new_reader_iterator source));
  err = none;
  offset = 0;
  column = 0;
  line = 1;
}

abbrev pub position : State → Position
position s = record { offset = s.offset; column = s.column; line = s.line }

-- A call of the iterator's method on the iterator of the state.
abbrev pub on_iterator :
    {A : Type 0} → Exec (Consumable ReaderIterator ℕ) Error A → Exec State Error A
on_iterator m s = let (r, c) = m s.iterator in (r, record s { iterator = c })

unfoldable pub peek : Exec State Error ℕ
peek = on_iterator (Consumable.peek reader_iterator)

unfoldable pub peek2 : Exec State Error (ℕ × ℕ)
peek2 = on_iterator (Consumable.peek2 reader_iterator)

unfoldable pub advance : ℕ → State → State
advance char s =
    let s' = record s { offset = u64 (s.offset + 1) } in
    if char == newline
    then record s' { line = u64 (s'.line + 1); column = 0 }
    else record s' { column = u64 (s'.column + 1) }

unfoldable pub read : Exec State Error (Position × ℕ)
unfolding peek
read s =
    let start = position s in
    (do
      char ← peek
      on_iterator (Consumable.consume reader_iterator)
      (λ s'. (ok (start, char), advance char s')))
      s

-- `errors.Is(err, ErrNotEnoughItems)` ends a loop, any other error is returned.
abbrev pub or_end : {A : Type 0} → Result Error A → Exec State Error (Option A)
or_end (ok x) = pure (some x)
or_end (err (not_enough_items n m)) = pure none
or_end (err e) = fail e

abbrev pub peek_or_end : Exec State Error (Option ℕ)
peek_or_end = do found ← attempt peek; or_end found

-- The loop that appends to `content` while the next byte passes the test.
unfoldable pub scan : ℕ → (ℕ → Bool) → List ℕ → Exec State Error (List ℕ)
scan zero test content = fail out_of_fuel
scan (suc fuel) test content = do
  found ← peek_or_end
  elim found [
    | none ↦ pure content
    | some next ↦ elim (test next) [
      | false ↦ pure content
      | true ↦ do (_, byte) ← read; scan fuel test (content ++ byte ∷ [])
    ]
  ]
