-- ===== src/Iterator/Reader/Delivery.antt =====
-- iterator/reader.go: a reader that ends by the end of file hands out its bytes in order.
use golang_core.Prelude.{ℕ, ◌≡◌, Bool, true, false, none, List, [], ◌∷◌, arith}
use golang_core.Iterator.{Delivers}
use golang_core.Iterator.Reader.{ReaderIterator, has_next, next, reader_iterator}

-- The bytes that are still to come.
abbrev unread : Bool → ℕ → Bool → List ℕ → List ℕ
unread true b true bs = b ∷ []
unread true b false bs = b ∷ bs
unread false b true bs = []
unread false b false bs = bs

abbrev pub remaining : ReaderIterator → List ℕ
remaining i = unread i.has_buffer i.buffer i.done i.reader.bytes

-- No read has failed, and none will.
pub record IsClean (i : ReaderIterator) : Type 0 where
  pub no_error : i.err ≡ none
  pub ends_well : i.reader.ending ≡ none

pub has_next-IsClean : (i : ReaderIterator) → IsClean i → IsClean (has_next i).1
unfolding has_next
has_next-IsClean i v = ground arith

pub has_next-remaining : (i : ReaderIterator) → IsClean i → remaining (has_next i).1 ≡ remaining i
unfolding has_next
has_next-remaining i v = ground arith

pub has_next_empty : (i : ReaderIterator) → IsClean i → remaining i ≡ [] → (has_next i).0 ≡ false
unfolding has_next
has_next_empty i v e = ground arith

pub has_next_more :
    (i : ReaderIterator) (x : ℕ) (xs : List ℕ)
    → IsClean i
    → remaining i ≡ x ∷ xs
    → (has_next i).0 ≡ true
unfolding has_next
has_next_more i x xs v e = ground arith

pub next-IsClean :
    (i : ReaderIterator) (x : ℕ) (xs : List ℕ)
    → IsClean i
    → remaining i ≡ x ∷ xs
    → IsClean (next i).1
unfolding next
next-IsClean i x xs v e = ground arith

pub next-remaining :
    (i : ReaderIterator) (x : ℕ) (xs : List ℕ)
    → IsClean i
    → remaining i ≡ x ∷ xs
    → remaining (next i).1 ≡ xs
unfolding next
next-remaining i x xs v e = ground arith

pub next_item :
    (i : ReaderIterator) (x : ℕ) (xs : List ℕ) → IsClean i → remaining i ≡ x ∷ xs → (next i).0 ≡ x
unfolding next
next_item i x xs v e = ground arith

-- The reader's iterator keeps the promise of the interface.
abbrev pub reader_delivers : Delivers reader_iterator
reader_delivers = record {
  IsReady = IsClean;
  contents = remaining;
  ready_error = λ i v. v.no_error;
  has_next-IsReady = has_next-IsClean;
  has_next-contents = has_next-remaining;
  has_next_empty = has_next_empty;
  has_next_more = has_next_more;
  next-IsReady = next-IsClean;
  next-contents = next-remaining;
  next_item = next_item;
}
