-- ===== src/Cache/Memory.antt =====
-- cache/provider/memory.go: a map from group and key to a value with its time of expiry. A method holds
-- the mutex throughout, so a call is one step.
pub mod Laws
use golang_core.Prelude.{
  ℕ, ◌+◌, Bool, true, false, Option, none, some, List, ◌∷◌, ◌++◌, ok, err, ltb, if◌then◌else◌,
  text_discrete,
}
use golang_core.Prelude.Exec.{Exec}
use golang_core.Prelude.Dict
use golang_core.Prelude.Dict.{Dict}
use golang_core.Cache.{Error, no_such_key, Provider}

pub record Entry : Type 0 where
  pub value : List ℕ
  pub expires_at : ℕ

pub record Memory : Type 0 where
  pub storage : Dict (List ℕ) Entry

abbrev pub new_memory : Memory
new_memory = record { storage = Dict.empty }

-- string(group) + ":" + key
unfoldable pub key_of : List ℕ → List ℕ → List ℕ
key_of group key = group ++ b':' ∷ key

abbrev pub is_some : {A : Type 0} → Option A → Bool
is_some none = false
is_some (some a) = true

unfoldable pub has : List ℕ → List ℕ → Exec Memory Error Bool
has group key p = (ok (is_some (Dict.get text_discrete p.storage (key_of group key))), p)

-- `Get` on what the map holds under the key: an entry that has expired is deleted.
answer : ℕ → List ℕ → Option Entry → Exec Memory Error (List ℕ)
answer now group_key none p = (err (no_such_key group_key), p)
answer now group_key (some entry) p =
    if ltb entry.expires_at now
    then (
      err (no_such_key group_key),
      record p { storage = Dict.remove text_discrete p.storage group_key },
    )
    else (ok entry.value, p)

unfoldable pub get : ℕ → List ℕ → List ℕ → Exec Memory Error (List ℕ)
unfolding answer
get now group key p =
    answer now (key_of group key) (Dict.get text_discrete p.storage (key_of group key)) p

unfoldable pub set : ℕ → List ℕ → List ℕ → List ℕ → ℕ → Exec Memory Error (Unit {0})
set now group key value ttl p =
    let entry : Entry = record { value = value; expires_at = now + ttl } in
    (ok tt, record p { storage = Dict.put text_discrete p.storage (key_of group key) entry })

unfoldable pub delete : List ℕ → List ℕ → Exec Memory Error (Unit {0})
delete group key p =
    (ok tt, record p { storage = Dict.remove text_discrete p.storage (key_of group key) })

abbrev pub memory_provider : Provider Memory
memory_provider = record { has = has; get = get; set = set; delete = delete }
