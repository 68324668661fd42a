-- ===== src/Prelude/Dict.antt =====
-- Go's `map[K]V` as an association list with one entry for a key.
use mathlib.Core.Path.{◌≡◌, refl, ◌∙◌}
use mathlib.Core.Logic.{◌≢◌, ite, if_pos, if_neg}
use mathlib.Core.List.{List, [], ◌∷◌}
use mathlib.Core.Option.{Option, none, some}
use native.Mathlib.Omega.{arith}

pub record Dict (K V : Type 0) : Type 0 where
  pub entries : List (K × V)

module _ {K V : Type 0} where
  abbrev pub empty : Dict K V
  empty = record { entries = [] }

module _ {K V : Type 0} (dec : Discrete K) where
  unfoldable pub find : K → List (K × V) → Option V
  find k [] = none
  find k ((j, v) ∷ es) = ite (dec j k) (some v) (find k es)

  unfoldable pub store : K → V → List (K × V) → List (K × V)
  store k v [] = (k, v) ∷ []
  store k v ((j, w) ∷ es) = ite (dec j k) ((k, v) ∷ es) ((j, w) ∷ store k v es)

  unfoldable pub drop_key : K → List (K × V) → List (K × V)
  drop_key k [] = []
  drop_key k ((j, w) ∷ es) = ite (dec j k) (drop_key k es) ((j, w) ∷ drop_key k es)

  -- m[k], and whether it is there
  unfoldable pub get : Dict K V → K → Option V
  unfolding find
  get d k = find k d.entries

  -- m[k] = v
  unfoldable pub put : Dict K V → K → V → Dict K V
  unfolding store
  put d k v = record { entries = store k v d.entries }

  -- delete(m, k)
  unfoldable pub remove : Dict K V → K → Dict K V
  unfolding drop_key
  remove d k = record { entries = drop_key k d.entries }

  find-store :
      (k j : K) (v : V) (es : List (K × V))
      → find j (store k v es) ≡ ite (dec k j) (some v) (find j es)
  unfolding find store
  find-store k j v [] = refl
  find-store k j v ((i, w) ∷ es) = ground (arith, find-store k j v es)

  find-drop :
      (k j : K) (es : List (K × V)) → find j (drop_key k es) ≡ ite (dec k j) none (find j es)
  unfolding find drop_key
  find-drop k j [] = ground arith
  find-drop k j ((i, w) ∷ es) = ground (arith, find-drop k j es)

  pub get-put :
      (d : Dict K V) (k j : K) (v : V) → get (put d k v) j ≡ ite (dec k j) (some v) (get d j)
  unfolding get put
  get-put d k j v = find-store k j v d.entries

  pub get-remove : (d : Dict K V) (k j : K) → get (remove d k) j ≡ ite (dec k j) none (get d j)
  unfolding get remove
  get-remove d k j = find-drop k j d.entries

  pub get-put_self : (d : Dict K V) (k : K) (v : V) → get (put d k v) k ≡ some v
  get-put_self d k v = get-put d k k v ∙ if_pos (dec k k) refl (some v) (get d k)

  pub get-put_ne : (d : Dict K V) {k j : K} (v : V) → k ≢ j → get (put d k v) j ≡ get d j
  get-put_ne d {k} {j} v h = get-put d k j v ∙ if_neg (dec k j) h (some v) (get d j)

  pub get-remove_self : (d : Dict K V) (k : K) → get (remove d k) k ≡ none
  get-remove_self d k = get-remove d k k ∙ if_pos (dec k k) refl none (get d k)

  pub get-remove_ne : (d : Dict K V) {k j : K} → k ≢ j → get (remove d k) j ≡ get d j
  get-remove_ne d {k} {j} h = get-remove d k j ∙ if_neg (dec k j) h none (get d j)

pub get-empty : {K V : Type 0} (dec : Discrete K) (k : K) → get {V = V} dec empty k ≡ none
unfolding get
get-empty dec k = refl
