-- ===== src/Prelude/Exec.antt =====
-- Methods that change their receiver and may return an error. What was written before the error
-- stays written, so the state comes back beside the error too.
use mathlib.Core.Path.{◌≡◌, refl, ap, sym, subst}
use golang_core.Prelude.Results.{Result, ok, err}

abbrev pub Exec {ℓ} : Type ℓ → Type ℓ → Type ℓ → Type ℓ
Exec S E A = S → Result E A × S

module _ {ℓ} {S E A : Type ℓ} where
  abbrev pub pure : A → Exec S E A
  pure a s = (ok a, s)

  abbrev pub fail : E → Exec S E A
  fail e s = (err e, s)

  -- Both outcomes as a value: `x, err := m()` where the code goes on with either.
  abbrev pub attempt : Exec S E A → Exec S E (Result E A)
  attempt m s = let (r, s') = m s in (ok r, s')

module _ {ℓ} {S E A B : Type ℓ} where
  abbrev pub continue : Result E A × S → (A → Exec S E B) → Result E B × S
  continue (ok a, s) f = f a s
  continue (err e, s) f = (err e, s)

  infixl 10 ◌>>=◌ ◌>>◌
  abbrev pub ◌>>=◌ : Exec S E A → (A → Exec S E B) → Exec S E B
  ◌>>=◌ m f s = continue (m s) f

  abbrev pub ◌>>◌ : Exec S E A → Exec S E B → Exec S E B
  m >> n = m >>= λ _. n

-- The call returns `a`, and the state after it satisfies `Q`.
pub record Returns {ℓ} {S E A : Type ℓ} (Q : S → Type ℓ) (a : A) (r : Result E A × S) : Type ℓ where
  pub value : r.0 ≡ ok a
  pub state : Q r.1

-- The call returns the error `e`, and the state after it satisfies `Q`.
pub record Fails {ℓ} {S E A : Type ℓ} (Q : S → Type ℓ) (e : E) (r : Result E A × S) : Type ℓ where
  pub value : r.0 ≡ err e
  pub state : Q r.1

module _ {ℓ} {S E A B : Type ℓ} where
  pub continue-ok :
      (r : Result E A × S) (f : A → Exec S E B) {a : A} → r.0 ≡ ok a → continue r f ≡ f a r.1
  continue-ok (r, s) f e = ap (λ (x : Result E A). continue (x, s) f) e

  pub continue-err :
      (r : Result E A × S) (f : A → Exec S E B) {e : E} → r.0 ≡ err e → continue r f ≡ (err e, r.1)
  continue-err (r, s) f e = ap (λ (x : Result E A). continue (x, s) f) e

  -- What returns `b` in `t` has had both its parts return.
  pub data Continued (r : Result E A × S) (f : A → Exec S E B) (b : B) (t : S) : Type ℓ where
    continued : (a : A) (s : S) → r ≡ (ok a, s) → f a s ≡ (ok b, t) → Continued r f b t

  pub continue-Continued :
      (r : Result E A × S) (f : A → Exec S E B) {b : B} {t : S}
      → continue r f ≡ (ok b, t)
      → Continued r f b t
  continue-Continued (ok a, s) f h = continued a s refl h
  continue-Continued (err e, s) f h = absurd cc

  pub bind-Returns :
      {Q R : S → Type ℓ} {a : A} {b : B} {r : Result E A × S} (f : A → Exec S E B)
      → Returns Q a r
      → ((s : S) → Q s → Returns R b (f a s))
      → Returns R b (continue r f)
  bind-Returns {R = R} {b = b} {r = r} f h k =
      subst (Returns R b) (sym (continue-ok r f h.value)) (k r.1 h.state)

  pub bind-Fails :
      {Q R : S → Type ℓ} {a : A} {e : E} {r : Result E A × S} (f : A → Exec S E B)
      → Returns Q a r
      → ((s : S) → Q s → Fails R e (f a s))
      → Fails R e (continue r f)
  bind-Fails {R = R} {e = e} {r = r} f h k =
      subst (Fails R e) (sym (continue-ok r f h.value)) (k r.1 h.state)

  pub stop-Fails :
      {Q : S → Type ℓ} {e : E} {r : Result E A × S} (f : A → Exec S E B)
      → Fails Q e r
      → Fails Q e (continue r f)
  stop-Fails {Q} {e} {r} f h =
      subst (Fails Q e) (sym (continue-err r f h.value)) (record { value = refl; state = h.state })

module _ {ℓ} {S E A : Type ℓ} {Q : S → Type ℓ} {r : Result E A × S} where
  -- Both are about `attempt m s` where `r` is `m s`.
  pub attempt-Returns : {a : A} → Returns Q a r → Returns {E = E} Q (ok a) (ok r.0, r.1)
  attempt-Returns h = record { value = ap ok h.value; state = h.state }

  pub attempt-Fails : {e : E} → Fails Q e r → Returns {E = E} Q (err e) (ok r.0, r.1)
  attempt-Fails h = record { value = ap ok h.value; state = h.state }
