-- ===== src/Promise/Entries.antt =====
-- promise/promise.go: lists of channels without repetition.
use golang_core.Prelude.{
  ℕ, ◌≡◌, refl, ◌≢◌, Bool, true, false, Option, none, some, List, [], ◌∷◌, ◌++◌, ite, ℕ_discrete,
  arith, if_pos, if_neg, sym, ap, ◌∙◌, subst,
}
use golang_core.Promise.{without}
use golang_core.Promise.Channels.{update}

unfoldable pub occurs : ℕ → List ℕ → Bool
occurs c [] = false
occurs c (x ∷ xs) = ite (ℕ_discrete x c) true (occurs c xs)

unfoldable pub Distinct : List ℕ → Type 0
unfolding occurs
Distinct [] = Unit {0}
Distinct (x ∷ xs) = (occurs x xs ≡ false) × Distinct xs

pub not_in_empty : (j : ℕ) (cs : List ℕ) → cs ≡ [] → occurs j cs ≢ true
unfolding occurs
not_in_empty j cs e t = cc

pub occurs-append : (j c : ℕ) (cs : List ℕ) → j ≢ c → occurs j (cs ++ c ∷ []) ≡ occurs j cs
unfolding occurs
occurs-append j c [] n = ground arith
occurs-append j c (x ∷ cs) n = ground (arith, occurs-append j c cs)

pub occurs-append_self : (c : ℕ) (cs : List ℕ) → occurs c (cs ++ c ∷ []) ≡ true
unfolding occurs
occurs-append_self c [] = ground arith
occurs-append_self c (x ∷ cs) = ground (arith, occurs-append_self c cs)

pub append-Distinct :
    (c : ℕ) (cs : List ℕ) → Distinct cs → occurs c cs ≡ false → Distinct (cs ++ c ∷ [])
unfolding occurs Distinct
append-Distinct c [] d n = (refl, tt)
append-Distinct c (x ∷ cs) d n =
    (ground (arith, occurs-append x c cs, d), append-Distinct c cs d.1 (ground arith))

-- `ys` is `cs` without `c`.
pub record Removes (c : ℕ) (cs ys : List ℕ) : Type 0 where
  pub gone : occurs c ys ≡ false
  pub kept : (j : ℕ) → j ≢ c → occurs j ys ≡ occurs j cs
  pub distinct : Distinct ys

cons-Removes :
    (c x : ℕ) (cs ys : List ℕ)
    → x ≢ c
    → Distinct (x ∷ cs)
    → Removes c cs ys
    → Removes c (x ∷ cs) (x ∷ ys)
unfolding occurs Distinct
cons-Removes c x cs ys n d r = record {
  gone = ground (arith, r.gone);
  kept = λ j m. ground (arith, r.kept j);
  distinct = (r.kept x n ∙ d.0, r.distinct);
}

abbrev cons_some : ℕ → Option (List ℕ) → Option (List ℕ)
cons_some x o = elim o [ some ys ↦ some (x ∷ ys) | none ↦ none ]

pub without-Removes :
    (c : ℕ) (cs : List ℕ)
    → Distinct cs
    → occurs c cs ≡ true
    → (ys : List ℕ) × (without c cs ≡ some ys) × Removes c cs ys
unfolding occurs Distinct without
without-Removes c [] d t = absurd cc
without-Removes c (x ∷ cs) d t = elim (ℕ_discrete x c) [
  | yes e ↦ (
    cs,
    if_pos (ℕ_discrete x c) e _ _,
    record {
      gone = subst (λ k. occurs k cs ≡ false) e d.0;
      kept = λ j n. sym (if_neg (ℕ_discrete x j) (λ p. n (sym p ∙ e)) true (occurs j cs));
      distinct = d.1;
    },
  )
  | no n ↦
      let (ys, q, r) = without-Removes c cs d.1 (ground arith) in
      (x ∷ ys, if_neg (ℕ_discrete x c) n _ _ ∙ ap (cons_some x) q, cons-Removes c x cs ys n d r)
]

module _ {ℓ} {A : Type ℓ} where
  pub update_self : (f : ℕ → A) (c : ℕ) (a : A) → update f c a c ≡ a
  update_self f c a = if_pos (ℕ_discrete c c) refl a (f c)

  pub update_ne : (f : ℕ → A) (c : ℕ) (a : A) {j : ℕ} → j ≢ c → update f c a j ≡ f j
  update_ne f c a {j} n = if_neg (ℕ_discrete c j) (λ e. n (sym e)) a (f j)
