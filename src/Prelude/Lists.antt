-- ===== src/Prelude/Lists.antt =====
-- Lists over the native numbers, and splitting a list by a test.
use Prim.Native.Nat.{ℕ, zero, suc, ◌+◌, ◌-◌, ◌≤◌, ◌<◌, min}
use mathlib.Core.Path.{◌≡◌, refl, ap, ◌∙◌}
use mathlib.Core.List.{List, [], ◌∷◌, ◌++◌, map}
use mathlib.Core.Bool.{Bool, true, false}
use mathlib.Core.Option.{Option, none, some}
use native.Mathlib.Omega.{arith}

module _ {ℓ} {A : Type ℓ} where
  abbrev pub length : List A → ℕ
  length [] = 0
  length (x ∷ xs) = suc (length xs)

  abbrev pub get_elem? : List A → ℕ → Option A
  get_elem? [] i = none
  get_elem? (x ∷ xs) zero = some x
  get_elem? (x ∷ xs) (suc i) = get_elem? xs i

  pub get_elem?_lt : (xs : List A) (i : ℕ) → i < length xs → (x : A) × (get_elem? xs i ≡ some x)
  get_elem?_lt [] i h = absurd (omega arith)
  get_elem?_lt (x ∷ xs) zero h = (x, refl)
  get_elem?_lt (x ∷ xs) (suc i) h = get_elem?_lt xs i (omega arith)

  -- A write out of bounds changes nothing.
  abbrev pub set : List A → ℕ → A → List A
  set [] i v = []
  set (x ∷ xs) zero v = v ∷ xs
  set (x ∷ xs) (suc i) v = x ∷ set xs i v

  pub length-append : (xs ys : List A) → length (xs ++ ys) ≡ length xs + length ys
  length-append [] ys = omega arith
  length-append (x ∷ xs) ys = omega (arith, length-append xs ys)

module _ {ℓ} {A : Type ℓ} where
  abbrev pub get_or : List A → ℕ → A → A
  get_or [] i d = d
  get_or (x ∷ xs) zero d = x
  get_or (x ∷ xs) (suc i) d = get_or xs i d

  abbrev pub take : ℕ → List A → List A
  take zero xs = []
  take (suc n) [] = []
  take (suc n) (x ∷ xs) = x ∷ take n xs

  abbrev pub drop : ℕ → List A → List A
  drop zero xs = xs
  drop (suc n) [] = []
  drop (suc n) (x ∷ xs) = drop n xs

  pub take-append-drop : (n : ℕ) (xs : List A) → take n xs ++ drop n xs ≡ xs
  take-append-drop zero xs = refl
  take-append-drop (suc n) [] = refl
  take-append-drop (suc n) (x ∷ xs) = rw (take-append-drop n xs)

  pub length-take : (n : ℕ) (xs : List A) → length (take n xs) ≡ min n (length xs)
  length-take zero xs = omega arith
  length-take (suc n) [] = omega arith
  length-take (suc n) (x ∷ xs) = omega (arith, length-take n xs)

  pub length-drop : (n : ℕ) (xs : List A) → length (drop n xs) ≡ length xs - n
  length-drop zero xs = omega arith
  length-drop (suc n) [] = omega arith
  length-drop (suc n) (x ∷ xs) = omega (arith, length-drop n xs)

  pub length-map {κ} : {B : Type κ} (xs : List A) (f : A → B) → length (map f xs) ≡ length xs
  length-map [] f = refl
  length-map (x ∷ xs) f = ap suc (length-map xs f)

module _ {ℓ} {A : Type ℓ} where
  abbrev pub is_empty : List A → Bool
  is_empty [] = true
  is_empty (x ∷ xs) = false

  -- The longest prefix whose items pass the test, and the rest.
  unfoldable pub span : (A → Bool) → List A → List A × List A
  span p [] = ([], [])
  span p (x ∷ xs) =
      let (ys, zs) = span p xs in elim (p x) [ true ↦ (x ∷ ys, zs) | false ↦ ([], x ∷ xs) ]

  -- Every item passes the test.
  abbrev pub AllPass : (A → Bool) → List A → Type 0
  AllPass p [] = Unit {0}
  AllPass p (x ∷ xs) = (p x ≡ true) × AllPass p xs

  -- The list is empty or its first item fails the test.
  abbrev pub Stops : (A → Bool) → List A → Type 0
  Stops p [] = Unit {0}
  Stops p (x ∷ xs) = p x ≡ false

  pub span_pass :
      (p : A → Bool) (x : A) (xs : List A)
      → p x ≡ true
      → span p (x ∷ xs) ≡ (x ∷ (span p xs).0, (span p xs).1)
  unfolding span
  span_pass p x xs h = rw (h, span)

  pub span_stop :
      (p : A → Bool) (x : A) (xs : List A) → p x ≡ false → span p (x ∷ xs) ≡ ([], x ∷ xs)
  unfolding span
  span_stop p x xs h = rw (h, span)

  pub span_all :
      (p : A → Bool) (y : A) (ys xs : List A)
      → AllPass p xs
      → p y ≡ false
      → span p (xs ++ y ∷ ys) ≡ (xs, y ∷ ys)
  span_all p y ys [] hs h = span_stop p y ys h
  span_all p y ys (x ∷ xs) hs h =
      span_pass p x (xs ++ y ∷ ys) hs.0 ∙ ap (λ r. (x ∷ r.0, r.1)) (span_all p y ys xs hs.1 h)

  pub span-append : (p : A → Bool) (xs : List A) → (span p xs).0 ++ (span p xs).1 ≡ xs
  unfolding span
  span-append p [] = refl
  span-append p (x ∷ xs) = ground (arith, span-append p xs)

  pub span-AllPass : (p : A → Bool) (xs : List A) → AllPass p (span p xs).0
  unfolding span
  span-AllPass p [] = tt
  span-AllPass p (x ∷ xs) = ground (arith, span-AllPass p xs)

  pub span-Stops : (p : A → Bool) (xs : List A) → Stops p (span p xs).1
  unfolding span
  span-Stops p [] = tt
  span-Stops p (x ∷ xs) = ground (arith, span-Stops p xs)

  pub length-span-le : (p : A → Bool) (xs : List A) → length (span p xs).1 ≤ length xs
  unfolding span
  length-span-le p [] = omega arith
  length-span-le p (x ∷ xs) = ground (arith, length-span-le p xs)

module _ {ℓ} {A : Type ℓ} where
  pub take-append_of_le : (n : ℕ) (xs ys : List A) → n ≤ length xs → take n (xs ++ ys) ≡ take n xs
  take-append_of_le zero xs ys h = refl
  take-append_of_le (suc n) [] ys h = absurd (omega arith)
  take-append_of_le (suc n) (x ∷ xs) ys h = ap (◌∷◌ x) (take-append_of_le n xs ys (omega arith))

  pub drop-append_of_le :
      (n : ℕ) (xs ys : List A) → n ≤ length xs → drop n (xs ++ ys) ≡ drop n xs ++ ys
  drop-append_of_le zero xs ys h = refl
  drop-append_of_le (suc n) [] ys h = absurd (omega arith)
  drop-append_of_le (suc n) (x ∷ xs) ys h = drop-append_of_le n xs ys (omega arith)
