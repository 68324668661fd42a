-- ===== src/Iterator/Tests.antt =====
-- Runs of iterator/ on the bytes of two letters.
use golang_core.Prelude.{ℕ, pos, ◌≡◌, refl, none, some, List, [], ◌∷◌, ok, arith}
use golang_core.Prelude.Exec.{Returns}
use golang_core.Iterator.Reader.{ReaderIterator, new_reader_iterator, reader_iterator}
use golang_core.Iterator.Reader.Delivery.{reader_delivers}
use golang_core.Iterator.Consumable.{
  Consumable, new_consumable, fill_buffer, peek_n, consume_n, peek, next,
}
use golang_core.Iterator.Consumable.Refinement.{
  Holds, Fills, fill_buffer-Fills, peek_n-Returns, consume_n-Returns,
}
use golang_core.Iterator.Consumable.Bypass.{next-peek}

abbrev hi : List ℕ
hi = b'h' ∷ b'i' ∷ []

abbrev reading : ReaderIterator
unfolding new_reader_iterator
reading = new_reader_iterator (record { bytes = hi; ending = none })

abbrev consumer : Consumable ReaderIterator ℕ
unfolding new_consumable
consumer = new_consumable (some reading)

consumer-Holds : Holds reader_iterator reader_delivers hi consumer
unfolding consumer reading
consumer-Holds = record {
  inner = reading;
  has_inner = refl;
  ready = record { no_error = refl; ends_well = refl };
  no_error = refl;
  pending = refl;
}

fill_buffer-Fills_example :
    Fills reader_iterator reader_delivers 3 hi (fill_buffer reader_iterator (pos 3) consumer)
fill_buffer-Fills_example =
    fill_buffer-Fills reader_iterator reader_delivers 3 hi consumer consumer-Holds

peek_n-Returns_example :
    Returns
      (Holds reader_iterator reader_delivers hi)
      (b'h' ∷ [])
      (peek_n reader_iterator (pos 1) consumer)
peek_n-Returns_example =
    peek_n-Returns reader_iterator reader_delivers 1 hi consumer consumer-Holds (omega arith)

consume_n-Returns_example :
    Returns
      (Holds reader_iterator reader_delivers (b'i' ∷ []))
      tt
      (consume_n reader_iterator (pos 1) consumer)
consume_n-Returns_example =
    consume_n-Returns reader_iterator reader_delivers 1 hi consumer consumer-Holds (omega arith)

next-peek_example :
    (c c' : Consumable ReaderIterator ℕ) × (peek reader_iterator (new_consumable (some reading))
      ≡ (ok b'h', c))
    × (next reader_iterator c ≡ some (b'i', c'))
    × (peek reader_iterator c' ≡ (ok b'h', c'))
unfolding reading
next-peek_example =
    next-peek reader_iterator reader_delivers reading b'h' b'i' []
      (record { no_error = refl; ends_well = refl }) refl
