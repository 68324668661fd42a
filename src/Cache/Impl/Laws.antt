-- ===== src/Cache/Impl/Laws.antt =====
-- cache/impl.go over the map of cache/provider/memory.go.
use golang_core.Prelude.{text_discrete, ℕ, ◌+◌, ◌≤◌, ◌<◌, ◌≡◌, List, ok}
use golang_core.Prelude.Dict
use golang_core.Cache.Memory.{Memory, key_of, memory_provider}
use golang_core.Cache.Memory
use golang_core.Cache.Memory.Laws.{after_set, get-set, get-set_expired}
use golang_core.Cache.Impl.{Cache, Marshaller, found, decode, is_no_such_key, set, get}

-- A cache over the map: its group, marshaller, default value and time to live.
abbrev pub over_memory : {V : Type 0} → List ℕ → Marshaller V → V → ℕ → Cache Memory V
over_memory group marshaller default_value ttl = record {
  group = group;
  marshaller = marshaller;
  provider = memory_provider;
  default_value = default_value;
  ttl = ttl;
}

-- The values whose bytes are read back as the value, `bytes` being what they are written as.
pub record IsReadBack {V : Type 0} (m : Marshaller V) (v : V) (bytes : List ℕ) : Type 0 where
  pub written : m.marshal v ≡ ok bytes
  pub read : m.unmarshal bytes ≡ ok v

module _ {V : Type 0} (group : List ℕ) (m : Marshaller V) (d : V) (ttl : ℕ) (key : List ℕ) where
  abbrev pub c : Cache Memory V
  c = over_memory group m d ttl

  module _ (v : V) (bytes : List ℕ) (h : IsReadBack m v bytes) (now : ℕ) (p : Memory) where
    abbrev pub stored : Memory
    stored = after_set group key bytes now ttl p

    pub set-stored : set c now key v p ≡ (ok tt, stored)
    unfolding set Memory.set
    set-stored = rw h.written

    pub get-stored : (now' : ℕ) → now' ≤ now + ttl → get c now' key stored ≡ (ok v, stored)
    unfolding get found decode
    get-stored now' le = rw (get-set group key bytes now ttl p now' le, h.read)

    pub get-expired :
        (now' : ℕ)
        → now + ttl < now'
        → get c now' key stored ≡ (
          ok d,
          record stored { storage = Dict.remove text_discrete stored.storage (key_of group key) },
        )
    unfolding get found is_no_such_key
    get-expired now' lt = rw (get-set_expired group key bytes now ttl p now' lt).1
