-- ===== src/Flow/Names.antt =====
-- flow/flow.go, `Validate`: the names of the actions.
use golang_core.Prelude.{ℕ, suc, ◌≡◌, ◌≢◌, sym, false, none, List, [], ◌∷◌, All, arith}
use golang_core.Flow.{Action, has_name, validate_rounds, validate}

-- No name is empty, and no name comes again.
abbrev pub Distinct : List (List ℕ) → Type 0
Distinct [] = Unit
Distinct (n ∷ ns) = All (λ m. n ≢ m) ns × Distinct ns

abbrev pub names_of : List Action → List (List ℕ)
names_of [] = []
names_of (a ∷ actions) = a.name ∷ names_of actions

has_name-false : (n : List ℕ) (ms : List (List ℕ)) → has_name n ms ≡ false → All (λ m. n ≢ m) ms
has_name-false n [] h = tt
has_name-false n (m ∷ ms) h = ground (arith, has_name-false n ms, h)

All-map :
    {A : Type 0} (P Q : A → Type 0) → ((x : A) → P x → Q x) → (xs : List A) → All P xs → All Q xs
All-map P Q f [] h = tt
All-map P Q f (x ∷ xs) h = (f x h.0, All-map P Q f xs h.1)

validate_cons :
    (a : Action) (actions : List Action) (index : ℕ) (seen : List (List ℕ))
    → validate_rounds index seen (a ∷ actions) ≡ none
    → (a.name ≢ [])
      × (has_name a.name seen ≡ false)
      × (validate_rounds (suc index) (a.name ∷ seen) actions ≡ none)
unfolding validate_rounds
validate_cons a actions index seen h = ground (arith, h)

-- The names are not empty, differ from each other and from those that were seen before.
abbrev Apart : List (List ℕ) → List (List ℕ) → Type 0
Apart seen ns = All (λ n. n ≢ []) ns × (Distinct ns × All (λ m. All (λ n. m ≢ n) seen) ns)

rounds-Apart :
    (actions : List Action) (index : ℕ) (seen : List (List ℕ))
    → validate_rounds index seen actions ≡ none
    → Apart seen (names_of actions)
unfolding validate_rounds
rounds-Apart [] index seen h = (tt, (tt, tt))
rounds-Apart (a ∷ actions) index seen h =
    let (full, fresh, rest) = validate_cons a actions index seen h in
    let (alls, (distinct, others)) = rounds-Apart actions (suc index) (a.name ∷ seen) rest in
    (
      (full, alls),
      (
        (
          All-map (λ m. All (λ n. m ≢ n) (a.name ∷ seen)) (λ m. a.name ≢ m) (λ m x e. x.0 (sym e))
              (names_of actions) others,
          distinct,
        ),
        (
          has_name-false a.name seen fresh,
          All-map (λ m. All (λ n. m ≢ n) (a.name ∷ seen)) (λ m. All (λ n. m ≢ n) seen) (λ m x. x.1)
              (names_of actions) others,
        ),
      ),
    )

-- A flow that `Validate` accepts has no action without a name and no two actions of the same name.
pub validate-Distinct :
    (actions : List Action)
    → validate actions ≡ none
    → All (λ n. n ≢ []) (names_of actions) × Distinct (names_of actions)
unfolding validate
validate-Distinct actions h =
    let (alls, (distinct, others)) = rounds-Apart actions 0 [] h in (alls, distinct)
