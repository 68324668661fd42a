-- ===== src/Iterator.antt =====
-- iterator/iterator.go: the interface, its errors, and `Materialize`.
pub mod Reader
pub mod Consumable
pub mod Collect
mod Tests
use golang_core.Prelude.{
  ℕ, zero, suc, ℤ, ◌≡◌, Bool, true, false, Option, none, some, List, [], ◌∷◌, ◌++◌,
}

-- The errors of the package, with the numbers that they carry. `failure` stands for an error of the
-- underlying reader; `out_of_range` is the panic of an index and `out_of_fuel` no error of the code.
pub data Error : Type 0 where
  not_enough_items : ℕ → ℕ → Error
  negative_count : ℕ → Error
  nil_iterator : Error
  unknown_token : Error
  failure : ℕ → Error
  out_of_range : Error
  out_of_fuel : Error

-- `Iterator[T]`: an implementation keeps its state in `S`.
pub record Iterator (S A : Type 0) : Type 0 where
  pub has_next : S → Bool × S
  pub next : S → A × S
  pub error : S → Option Error

module _ {S A : Type 0} (it : Iterator S A) where
  -- One round of the loop of `Materialize` for each unit of fuel; `none` when the fuel runs out.
  unfoldable pub collect : ℕ → List A → S → Option ((List A × Option Error) × S)
  collect zero result s = none
  collect (suc fuel) result s =
      let (more, s1) = it.has_next s in
      elim more [
        | false ↦ some ((result, it.error s1), s1)
        | true ↦ elim (it.error s1) [
          | some e ↦ some ((result, some e), s1)
          | none ↦ let (x, s2) = it.next s1 in collect fuel (result ++ x ∷ []) s2
        ]
      ]

  unfoldable pub materialize : ℕ → S → Option ((List A × Option Error) × S)
  unfolding collect
  materialize fuel s = collect fuel [] s

-- What an iterator promises: it hands out the items of a finite list in order, and then stops
-- without an error. `IsReady` is the implementation's own invariant.
pub record Delivers {S A : Type 0} (it : Iterator S A) : Type 1 where
  pub IsReady : S → Type 0
  pub contents : S → List A
  pub ready_error : (s : S) → IsReady s → it.error s ≡ none
  pub has_next-IsReady : (s : S) → IsReady s → IsReady (it.has_next s).1
  pub has_next-contents : (s : S) → IsReady s → contents (it.has_next s).1 ≡ contents s
  pub has_next_empty : (s : S) → IsReady s → contents s ≡ [] → (it.has_next s).0 ≡ false
  pub has_next_more :
      (s : S) (x : A) (xs : List A) → IsReady s → contents s ≡ x ∷ xs → (it.has_next s).0 ≡ true
  pub next-IsReady :
      (s : S) (x : A) (xs : List A) → IsReady s → contents s ≡ x ∷ xs → IsReady (it.next s).1
  pub next-contents :
      (s : S) (x : A) (xs : List A) → IsReady s → contents s ≡ x ∷ xs → contents (it.next s).1 ≡ xs
  pub next_item :
      (s : S) (x : A) (xs : List A) → IsReady s → contents s ≡ x ∷ xs → (it.next s).0 ≡ x
