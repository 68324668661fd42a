-- ===== src/Iterator/Reader.antt =====
-- iterator/reader.go: `ReaderIterator`, an iterator over an `io.Reader` with one byte of lookahead.
pub mod Delivery
use golang_core.Prelude.{ℕ, Bool, true, false, Option, none, some, List, [], ◌∷◌, if◌then◌else◌}
use golang_core.Iterator.{Error, failure, Iterator}

-- An `io.Reader` by what its reads give: bytes, and then the end of file (`none`) or an error.
pub record Source : Type 0 where
  pub bytes : List ℕ
  pub ending : Option ℕ

-- The result of `io.ReadFull` on a buffer of one byte.
pub data Read : Type 0 where
  byte : ℕ → Read
  eof : Read
  broken : ℕ → Read

read_ending : Option ℕ → Read
read_ending none = eof
read_ending (some e) = broken e

read_bytes : List ℕ → Source → Read × Source
unfolding read_ending
read_bytes [] s = (read_ending s.ending, s)
read_bytes (b ∷ bs) s = (byte b, record s { bytes = bs })

unfoldable pub read_full : Source → Read × Source
unfolding read_bytes
read_full s = read_bytes s.bytes s

pub record ReaderIterator : Type 0 where
  pub buffer : ℕ
  pub reader : Source
  pub has_buffer : Bool
  pub done : Bool
  pub err : Option Error

unfoldable pub new_reader_iterator : Source → ReaderIterator
new_reader_iterator reader = record {
  buffer = 0;
  reader = reader;
  has_buffer = false;
  done = false;
  err = none;
}

store_read : ReaderIterator → Read × Source → Bool × ReaderIterator
store_read i (byte b, r) = (true, record i { reader = r; buffer = b; has_buffer = true })
store_read i (eof, r) = (false, record i { reader = r; done = true })
store_read i (broken e, r) = (false, record i { reader = r; done = true; err = some (failure e) })

unfoldable pub read_next : ReaderIterator → Bool × ReaderIterator
unfolding store_read read_full
read_next i = store_read i (read_full i.reader)

unfoldable pub has_next : ReaderIterator → Bool × ReaderIterator
unfolding read_next
has_next i = if i.has_buffer then (true, i) else if i.done then (false, i) else read_next i

unfoldable pub next : ReaderIterator → ℕ × ReaderIterator
unfolding has_next
next i =
    let (more, i') = has_next i in
    if more then (i'.buffer, record i' { has_buffer = false }) else (0, i')

abbrev pub reader_iterator : Iterator ReaderIterator ℕ
reader_iterator = record { has_next = has_next; next = next; error = λ i. i.err }
