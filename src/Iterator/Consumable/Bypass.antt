-- ===== src/Iterator/Consumable/Bypass.antt =====
-- iterator/consumable.go, `HasNext` and `Next`, which do not look at the buffer of `Peek`.
use golang_core.Prelude.{◌≡◌, ok, none, some, false, List, [], ◌∷◌, refl, ap, ◌∙◌}
use golang_core.Iterator.{Iterator, Delivers}
use golang_core.Iterator.Consumable.{
  Consumable, new_consumable, fill_rounds, fill_buffer, peek_n, peek, has_next, next,
}

module _ {S A : Type 0} (it : Iterator S A) (d : Delivers it) where
  abbrev with_buffer : S → List A → Consumable S A
  with_buffer s buffer = record { iterator = some s; buffer = buffer; err = none }

  -- The wrapped iterator after it has handed out one item.
  abbrev moved : S → S
  moved s = (it.next (it.has_next s).1).1

  moved-IsReady :
      (s : S) (x : A) (xs : List A) → d.IsReady s → d.contents s ≡ x ∷ xs → d.IsReady (moved s)
  moved-IsReady s x xs v c =
      d.next-IsReady _ x xs (d.has_next-IsReady s v) (d.has_next-contents s v ∙ c)

  moved-contents :
      (s : S) (x : A) (xs : List A)
      → d.IsReady s
      → d.contents s ≡ x ∷ xs
      → d.contents (moved s) ≡ xs
  moved-contents s x xs v c =
      d.next-contents _ x xs (d.has_next-IsReady s v) (d.has_next-contents s v ∙ c)

  peek-new :
      (s : S) (x : A) (xs : List A)
      → d.IsReady s
      → d.contents s ≡ x ∷ xs
      → peek it (new_consumable (some s)) ≡ (ok x, with_buffer (moved s) (x ∷ []))
  unfolding peek peek_n fill_buffer fill_rounds new_consumable
  peek-new s x xs v c =
      rw
        (
          d.has_next_more s x xs v c,
          d.ready_error _ (moved-IsReady s x xs v c),
          d.next_item _ x xs (d.has_next-IsReady s v) (d.has_next-contents s v ∙ c),
        )
        refl

  peek_buffered :
      (s : S) (x : A) → peek it (with_buffer s (x ∷ [])) ≡ (ok x, with_buffer s (x ∷ []))
  unfolding peek peek_n fill_buffer fill_rounds
  peek_buffered s x = refl

  -- Over a new iterator that delivers two items or more, after a peek at the first item `Next` hands
  -- out the second, and the peek after that still gives the first.
  pub next-peek :
      (s : S) (x y : A) (xs : List A)
      → d.IsReady s
      → d.contents s ≡ x ∷ y ∷ xs
      → (c c' : Consumable S A) × (peek it (new_consumable (some s)) ≡ (ok x, c))
        × (next it c ≡ some (y, c'))
        × (peek it c' ≡ (ok x, c'))
  unfolding next
  next-peek s x y xs v c = (
    with_buffer (moved s) (x ∷ []),
    with_buffer (it.next (moved s)).1 (x ∷ []),
    peek-new s x (y ∷ xs) v c,
    ap (λ z. some (z, with_buffer (it.next (moved s)).1 (x ∷ [])))
        (d.next_item _ y xs (moved-IsReady s x (y ∷ xs) v c) (moved-contents s x (y ∷ xs) v c)),
    peek_buffered _ x,
  )

  -- After a peek at the only item, `HasNext` says that there is none.
  pub has_next-peek :
      (s : S) (x : A)
      → d.IsReady s
      → d.contents s ≡ x ∷ []
      → (c c' : Consumable S A) × (peek it (new_consumable (some s)) ≡ (ok x, c))
        × (has_next it c ≡ some (false, c'))
  unfolding has_next
  has_next-peek s x v c = (
    with_buffer (moved s) (x ∷ []),
    with_buffer (it.has_next (moved s)).1 (x ∷ []),
    peek-new s x [] v c,
    ap (λ b. some (b, with_buffer (it.has_next (moved s)).1 (x ∷ [])))
        (d.has_next_empty _ (moved-IsReady s x [] v c) (moved-contents s x [] v c)),
  )
