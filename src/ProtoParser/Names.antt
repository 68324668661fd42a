-- ===== src/ProtoParser/Names.antt =====
-- proto_parser/parser.go: which models a file leaves behind.
use golang_core.Prelude.{
  ℕ, ◌≡◌, refl, ap, ◌∙◌, Bool, true, false, ◌||◌, Option, none, some, List, [], ◌∷◌, ◌++◌, Result,
  ok, err, if◌then◌else◌, text_discrete, ite,
}
use golang_core.Prelude.Exec.{pure, continue}
use golang_core.Prelude.Dict.{get}
use golang_core.ProtoParser.{Elements, message, nil, cons, Error, State, full_name}
use golang_core.ProtoParser.Messages.{Run, wrapped, lift}

abbrev pub same_text : List ℕ → List ℕ → Bool
same_text x y = ite (text_discrete x y) true false

abbrev pub is_some : {A : Type 0} → Option A → Bool
is_some none = false
is_some (some a) = true

-- Whether `k` is the full name of a message that the elements of the message `name` declare, at any
-- depth. What stands in an extension is not counted.
unfoldable pub declares : List ℕ → List ℕ → List (List ℕ) → List ℕ → Elements → Bool
declares sep k path name nil = false
declares sep k path name (cons (message n is_extend inner) es) =
    (if is_extend
      then false
      else (declares sep k (path ++ name ∷ []) n inner
          || same_text (full_name sep (path ++ name ∷ []) n) k))
    || declares sep k path name es
declares sep k path name (cons e es) = declares sep k path name es

-- The same for a file.
unfoldable pub file_declares : List ℕ → List ℕ → Elements → Bool
unfolding declares
file_declares sep k nil = false
file_declares sep k (cons (message n is_extend inner) es) =
    (if is_extend then false else (declares sep k [] n inner || same_text (full_name sep [] n) k))
    || file_declares sep k es
file_declares sep k (cons e es) = file_declares sep k es

unfoldable pub has_model : List ℕ → State → Bool
has_model k s = is_some (get text_discrete s.models k)

module _ (k : List ℕ) where
  -- A call that succeeds leaves a model under `k` if there was one, or if `b` holds, and only then.
  abbrev pub Gains : {A : Type 0} → Bool → State → Result Error A × State → Type 0
  Gains b s (ok a, t) = has_model k t ≡ (b || has_model k s)
  Gains b s (err e, t) = Unit {0}

  or_order : (b c x : Bool) → c || (b || x) ≡ (b || c) || x
  or_order false c x = refl
  or_order true false x = refl
  or_order true true x = refl

  Gains-trans :
      {A : Type 0} (b c : Bool) (s t : State) (r : Result Error A × State)
      → has_model k t ≡ b || has_model k s
      → Gains c t r
      → Gains (b || c) s r
  Gains-trans b c s t (ok a, u) g h = h ∙ ap (λ x. c || x) g ∙ or_order b c (has_model k s)
  Gains-trans b c s t (err e, u) g h = tt

  pub bind-Gains :
      {A B : Type 0} (b c : Bool) (s : State) (r : Result Error A × State) (f : A → Run B)
      → Gains b s r
      → ((a : A) (t : State) → Gains c t (f a t))
      → Gains (b || c) s (continue r f)
  bind-Gains b c s (ok a, t) f g h = Gains-trans b c s t (f a t) g (h a t)
  bind-Gains b c s (err e, t) f g h = tt

  pub Gains-ok :
      {A : Type 0} (b : Bool) (s : State) (r : Result Error A × State) (a : A)
      → r.0 ≡ ok a
      → Gains b s r
      → has_model k r.1 ≡ b || has_model k s
  Gains-ok b s (ok x, t) a q g = g
  Gains-ok b s (err e, t) a q g = absurd cc

  pub wrapped-Gains :
      {A : Type 0} (b : Bool) (s : State) (w : Error → Error) (r : Result Error A × State)
      → Gains b s r
      → Gains b s (wrapped w r)
  wrapped-Gains b s w (ok a, t) g = g
  wrapped-Gains b s w (err e, t) g = tt

  pub map-Gains :
      {A B : Type 0} (b : Bool) (s : State) (r : Result Error A × State) (f : A → B)
      → Gains b s r
      → Gains b s (continue r (λ a. pure (f a)))
  map-Gains b s (ok a, t) f g = g
  map-Gains b s (err e, t) f g = tt

  pub lift-Gains : {A : Type 0} (s : State) (r : Result Error A) → Gains false s (lift r s)
  lift-Gains s (ok a) = refl
  lift-Gains s (err e) = tt
