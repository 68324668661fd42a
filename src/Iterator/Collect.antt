-- ===== src/Iterator/Collect.antt =====
-- iterator/iterator.go: the rounds of the loop of `Materialize`.
use golang_core.Prelude.{ℕ, suc, ◌≡◌, true, false, none, some, List, [], ◌∷◌, ◌++◌, arith}
use golang_core.Iterator.{Iterator, collect}

module _ {S A : Type 0} (it : Iterator S A) (rounds : ℕ) (result : List A) {s s' : S} where
  pub collect_stop :
      it.has_next s ≡ (false, s')
      → collect it (suc rounds) result s ≡ some ((result, it.error s'), s')
  unfolding collect
  collect_stop h = ground arith

  pub collect_more :
      it.has_next s ≡ (true, s')
      → it.error s' ≡ none
      → collect it (suc rounds) result s
        ≡ collect it rounds (result ++ (it.next s').0 ∷ []) (it.next s').1
  unfolding collect
  collect_more h e = ground arith
