-- ===== src/Iterator/Consumable.antt =====
-- iterator/consumable.go: `PeekableConsumableImpl`, an iterator with a buffer for lookahead.
pub mod Refinement
pub mod Bypass
use golang_core.Prelude.{
  ℕ, zero, suc, ◌-◌, ℤ, pos, negsuc, Bool, Option, none, some, List, [], ◌∷◌, ◌++◌, Result, ok, err,
  length, take, drop, if◌then◌else◌,
}
use golang_core.Prelude.Exec.{Exec, pure, fail, ◌>>=◌, ◌>>◌}
use golang_core.Iterator.{
  Error, not_enough_items, negative_count, nil_iterator, out_of_range, Iterator,
}

pub record Consumable (S A : Type 0) : Type 0 where
  pub iterator : Option S
  pub buffer : List A
  pub err : Option Error

unfoldable pub new_consumable : {S A : Type 0} → Option S → Consumable S A
new_consumable iterator = record { iterator = iterator; buffer = []; err = none }

-- `values[0]`
abbrev pub first : {S A : Type 0} → List A → Exec S Error A
first [] = fail out_of_range
first (x ∷ xs) = pure x

-- `values[0], values[1]`
abbrev pub first_two : {S A : Type 0} → List A → Exec S Error (A × A)
first_two [] = fail out_of_range
first_two (x ∷ []) = fail out_of_range
first_two (x ∷ y ∷ xs) = pure (x, y)

-- `values[0], values[1], values[2]`
abbrev pub first_three : {S A : Type 0} → List A → Exec S Error (A × A × A)
first_three [] = fail out_of_range
first_three (x ∷ []) = fail out_of_range
first_three (x ∷ y ∷ []) = fail out_of_range
first_three (x ∷ y ∷ z ∷ xs) = pure (x, y, z)

abbrev pub report :
    {S A : Type 0} → Option Error × Consumable S A → Result Error Unit × Consumable S A
report (none, c) = (ok tt, c)
report (some e, c) = (err e, c)

module _ {S A : Type 0} (it : Iterator S A) where
  -- The loop `for len(i.buffer) < num`: each round adds one item, so it takes `num - len` rounds.
  unfoldable pub fill_rounds : ℕ → ℕ → S → List A → Option Error × Consumable S A
  fill_rounds zero num s buffer = (none, record { iterator = some s; buffer = buffer; err = none })
  fill_rounds (suc rounds) num s buffer =
      let (more, s1) = it.has_next s in
      let (x, s2) = it.next s1 in
      if more
      then elim (it.error s2) [
        | some e ↦ (some e, record { iterator = some s2; buffer = buffer ++ x ∷ []; err = some e })
        | none ↦ fill_rounds rounds num s2 (buffer ++ x ∷ [])
      ]
      else elim (it.error s1) [
        | some e ↦ (some e, record { iterator = some s1; buffer = buffer; err = some e })
        | none ↦ (
          some (not_enough_items num (length buffer)),
          record { iterator = some s1; buffer = buffer; err = none },
        )
      ]

  unfoldable pub fill_buffer : ℤ → Consumable S A → Option Error × Consumable S A
  unfolding fill_rounds
  fill_buffer (negsuc n) c = (some (negative_count (suc n)), c)
  fill_buffer (pos zero) c = (none, c)
  fill_buffer (pos (suc n)) c = elim c.err [
    | some e ↦ (some e, c)
    | none ↦ elim c.iterator [
      | none ↦ (some nil_iterator, c)
      | some s ↦ fill_rounds (suc n - length c.buffer) (suc n) s c.buffer
    ]
  ]

  abbrev pub fill : ℤ → Exec (Consumable S A) Error (Unit {0})
  fill num c = report (fill_buffer num c)

  abbrev count : ℤ → ℕ
  count (pos n) = n
  count (negsuc n) = 0

  unfoldable pub peek_n : ℤ → Exec (Consumable S A) Error (List A)
  unfolding fill_buffer
  peek_n num = do fill num; (λ c. (ok (take (count num) c.buffer), c))

  unfoldable pub peek : Exec (Consumable S A) Error A
  unfolding peek_n
  peek = do values ← peek_n (pos 1); first values

  unfoldable pub peek2 : Exec (Consumable S A) Error (A × A)
  unfolding peek_n
  peek2 = do values ← peek_n (pos 2); first_two values

  unfoldable pub peek3 : Exec (Consumable S A) Error (A × A × A)
  unfolding peek_n
  peek3 = do values ← peek_n (pos 3); first_three values

  -- The slots that are given up are set to zero first, which nothing reads again.
  unfoldable pub consume_n : ℤ → Exec (Consumable S A) Error (Unit {0})
  unfolding fill_buffer
  consume_n num = do fill num; (λ c. (ok tt, record c { buffer = drop (count num) c.buffer }))

  unfoldable pub consume : Exec (Consumable S A) Error (Unit {0})
  unfolding consume_n
  consume = consume_n (pos 1)

  unfoldable pub consume2 : Exec (Consumable S A) Error (Unit {0})
  unfolding consume_n
  consume2 = consume_n (pos 2)

  unfoldable pub consume3 : Exec (Consumable S A) Error (Unit {0})
  unfolding consume_n
  consume3 = consume_n (pos 3)

  -- `HasNext` and `Next` of the wrapper ask the wrapped iterator and do not look at the buffer. Both
  -- panic, here `none`, without one.
  unfoldable pub has_next : Consumable S A → Option (Bool × Consumable S A)
  has_next c = elim c.iterator [
    | none ↦ none
    | some s ↦ let (more, s') = it.has_next s in some (more, record c { iterator = some s' })
  ]

  unfoldable pub next : Consumable S A → Option (A × Consumable S A)
  next c = elim c.iterator [
    | none ↦ none
    | some s ↦ let (x, s') = it.next s in some (x, record c { iterator = some s' })
  ]
