-- ===== src/Prelude/Pointwise.antt =====
-- Predicates and relations on the items of lists.
use mathlib.Core.List.{List, [], ◌∷◌, ◌++◌}

module _ {ℓ} {A : Type ℓ} where
  abbrev pub All : (A → Type 0) → List A → Type 0
  All P [] = Unit
  All P (x ∷ xs) = P x × All P xs

  abbrev pub All2 : (A → A → Type 0) → List A → List A → Type 0
  All2 R [] [] = Unit
  All2 R [] (y ∷ ys) = ⊥
  All2 R (x ∷ xs) [] = ⊥
  All2 R (x ∷ xs) (y ∷ ys) = R x y × All2 R xs ys

  module _ (P : A → Type 0) where
    pub All-append : (xs ys : List A) → All P xs → All P ys → All P (xs ++ ys)
    All-append [] ys h k = k
    All-append (x ∷ xs) ys h k = (h.0, All-append xs ys h.1 k)

  module _ (R : A → A → Type 0) where
    pub All2-append :
        (xs ys us vs : List A) → All2 R xs us → All2 R ys vs → All2 R (xs ++ ys) (us ++ vs)
    All2-append [] ys [] vs h k = k
    All2-append [] ys (u ∷ us) vs h k = absurd h
    All2-append (x ∷ xs) ys [] vs h k = absurd h
    All2-append (x ∷ xs) ys (u ∷ us) vs h k = (h.0, All2-append xs ys us vs h.1 k)

    pub All2-self : ((x : A) → R x x) → (xs : List A) → All2 R xs xs
    All2-self r [] = tt
    All2-self r (x ∷ xs) = (r x, All2-self r xs)

  pub All2-compose :
      (Q R T : A → A → Type 0)
      → ((x y z : A) → Q x y → R y z → T x z)
      → (xs ys zs : List A) → All2 Q xs ys
      → All2 R ys zs
      → All2 T xs zs
  All2-compose Q R T c [] [] [] h k = tt
  All2-compose Q R T c [] [] (z ∷ zs) h k = absurd k
  All2-compose Q R T c [] (y ∷ ys) zs h k = absurd h
  All2-compose Q R T c (x ∷ xs) [] zs h k = absurd h
  All2-compose Q R T c (x ∷ xs) (y ∷ ys) [] h k = absurd k
  All2-compose Q R T c (x ∷ xs) (y ∷ ys) (z ∷ zs) h k =
      (c x y z h.0 k.0, All2-compose Q R T c xs ys zs h.1 k.1)
