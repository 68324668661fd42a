-- ===== src/Cache/Memory/Laws.antt =====
-- cache/provider/memory.go: what the calls of the map give one after another.
use golang_core.Prelude.{
  text_discrete, ℕ, ◌+◌, ◌≤◌, ◌<◌, ◌≡◌, ◌≢◌, refl, sym, ap, ◌∙◌, true, false, Option, none, some,
  List, ok, err, arith, not, ◌==◌, ◌++◌, ◌∷◌, append_assoc, AllPass, span, span_all, drop, Bool,
}
use golang_core.Prelude.Dict
use golang_core.Cache.{no_such_key}
use golang_core.Cache.Memory.{Entry, Memory, key_of, is_some, answer, has, get, set, delete}

-- What the map holds under a composite key.
abbrev pub holds : Memory → List ℕ → Option Entry
holds p k = Dict.get text_discrete p.storage k

abbrev pub entry_of : List ℕ → ℕ → Entry
entry_of value expires_at = record { value = value; expires_at = expires_at }

answer-fresh :
    (now : ℕ) (k value : List ℕ) (t : ℕ) (p : Memory)
    → now ≤ t
    → answer now k (some (entry_of value t)) p ≡ (ok value, p)
unfolding answer
answer-fresh now k value t p h = ground arith

answer-expired :
    (now : ℕ) (k value : List ℕ) (t : ℕ) (p : Memory)
    → t < now
    → answer now k (some (entry_of value t)) p
      ≡ (err (no_such_key k), record p { storage = Dict.remove text_discrete p.storage k })
unfolding answer
answer-expired now k value t p h = ground arith

-- The outcome does not read the map beyond the entry it is given.
answer-outcome :
    (now : ℕ) (k : List ℕ) (o : Option Entry) (p q : Memory)
    → (answer now k o p).0 ≡ (answer now k o q).0
unfolding answer
answer-outcome now k none p q = refl
answer-outcome now k (some entry) p q = ground arith

get_ext :
    (now : ℕ) (group key : List ℕ) (p q : Memory)
    → holds p (key_of group key) ≡ holds q (key_of group key)
    → (get now group key p).0 ≡ (get now group key q).0
unfolding get
get_ext now group key p q h =
    answer-outcome now (key_of group key) (holds p (key_of group key)) p q
    ∙ ap (λ o. (answer now (key_of group key) o q).0) h

module _ (group key value : List ℕ) (now ttl : ℕ) (p : Memory) where
  abbrev pub after_set : Memory
  after_set = (set now group key value ttl p).1

  holds-set : holds after_set (key_of group key) ≡ some (entry_of value (now + ttl))
  unfolding set
  holds-set =
      Dict.get-put_self text_discrete p.storage (key_of group key) (entry_of value (now + ttl))

  -- A value that was set is read back until its time to live is over, and the read changes nothing.
  pub get-set : (now' : ℕ) → now' ≤ now + ttl → get now' group key after_set ≡ (ok value, after_set)
  unfolding get
  get-set now' h =
      ap (λ o. answer now' (key_of group key) o after_set) holds-set
      ∙ answer-fresh now' (key_of group key) value (now + ttl) after_set h

  -- After the time to live of a value that was set, `Has` still says that the key is there, while
  -- `Get` fails with `ErrProviderNoSuchKey` and deletes the entry.
  pub get-set_expired :
      (now' : ℕ)
      → now + ttl < now'
      → has group key after_set ≡ (ok true, after_set)
        × (get now' group key after_set ≡ (
          err (no_such_key (key_of group key)),
          record after_set {
            storage = Dict.remove text_discrete after_set.storage (key_of group key);
          },
        ))
  unfolding get has
  get-set_expired now' h = (
    ap (λ o. (ok (is_some o), after_set)) holds-set,
    ap (λ o. answer now' (key_of group key) o after_set) holds-set
        ∙ answer-expired now' (key_of group key) value (now + ttl) after_set h,
  )

  -- What `Get` returns under another composite key is the same before and after `Set`.
  pub get-set_ne :
      (group' key' : List ℕ)
      → key_of group key ≢ key_of group' key'
      → (now' : ℕ) → (get now' group' key' after_set).0 ≡ (get now' group' key' p).0
  unfolding set
  get-set_ne group' key' h now' =
      get_ext now' group' key' after_set p
        (Dict.get-put_ne text_discrete p.storage (entry_of value (now + ttl)) h)

module _ (group key : List ℕ) (p : Memory) where
  abbrev pub after_delete : Memory
  unfolding delete
  after_delete = (delete group key p).1

  -- After `Delete`, `Has` says no and `Get` fails with `ErrProviderNoSuchKey`; both change nothing.
  pub get-delete :
      (now : ℕ)
      → has group key after_delete ≡ (ok false, after_delete)
        × (get now group key after_delete ≡ (err (no_such_key (key_of group key)), after_delete))
  unfolding get has delete answer
  get-delete now = (
    ap (λ o. (ok (is_some o), after_delete))
        (Dict.get-remove_self text_discrete p.storage (key_of group key)),
    ap (λ o. answer now (key_of group key) o after_delete)
        (Dict.get-remove_self text_discrete p.storage (key_of group key)),
  )

abbrev pub not_colon : ℕ → Bool
not_colon c = not (c == b':')

-- Two equal composite keys have the same group and the same key, if neither group holds a colon.
key_of-injective :
    (g h k j : List ℕ)
    → AllPass not_colon g
    → AllPass not_colon h
    → key_of g k ≡ key_of h j
    → (g ≡ h) × (k ≡ j)
unfolding key_of
key_of-injective g h k j gs hs e =
    let same : Path (List ℕ × List ℕ) (g, b':' ∷ k) (h, b':' ∷ j) =
      sym (span_all not_colon b':' k g gs refl)
      ∙ ap (span not_colon) e
      ∙ span_all not_colon b':' j h hs refl in
    (ap (λ p. p.0) same, ap (λ p. drop 1 p.1) same)

pub key_of-collides : (g h k : List ℕ) → key_of (g ++ b':' ∷ h) k ≡ key_of g (h ++ b':' ∷ k)
unfolding key_of
key_of-collides g h k = append_assoc g (b':' ∷ h) (b':' ∷ k)
