-- ===== src/Cache/Proxy/Laws.antt =====
-- cache/proxy.go over a cache in the map of cache/provider/memory.go.
use golang_core.Prelude.{text_discrete, ℕ, ◌+◌, ◌≤◌, ◌<◌, ◌≡◌, ap, true, none, List, ok, err}
use golang_core.Prelude.Exec.{Exec}
use golang_core.Prelude.Dict
use golang_core.Cache.{Error}
use golang_core.Cache.Memory.{Memory, key_of, is_some}
use golang_core.Cache.Memory
use golang_core.Cache.Memory.Laws.{holds}
use golang_core.Cache.Impl.{Cache, Marshaller}
use golang_core.Cache.Impl
use golang_core.Cache.Impl.Laws.{
  over_memory, IsReadBack, stored, set-stored, get-stored, get-expired,
}
use golang_core.Cache.Proxy.{fetch, get}

module _ {G V : Type 0} (getter : List ℕ → Exec G Error V) (group : List ℕ) (m : Marshaller V)
    (d : V) (ttl : ℕ) (key : List ℕ) where
  abbrev c : Cache Memory V
  c = over_memory group m d ttl

  module _ (v : V) (bytes : List ℕ) (h : IsReadBack m v bytes) (now : ℕ) (p : Memory)
      (g g' : G) where
    abbrev stored_p : Memory
    stored_p = stored group m d ttl key v bytes h now p

    get-miss :
        getter key g ≡ (ok v, g')
        → holds p (key_of group key) ≡ none
        → get c getter now key (p, g) ≡ (ok v, (stored_p, g'))
    unfolding get fetch Impl.has Memory.has
    get-miss e n = rw (n, e, set-stored group m d ttl key v bytes h now p)

    has_stored : Memory.has group key stored_p ≡ (ok true, stored_p)
    unfolding Memory.has Memory.set
    has_stored =
        ap (λ o. (ok (is_some o), stored_p))
          (Dict.get-put_self text_discrete p.storage (key_of group key)
            (record { value = bytes; expires_at = now + ttl }))

    get-hit :
        (g : G) (now' : ℕ)
        → now' ≤ now + ttl
        → get c getter now' key (stored_p, g) ≡ (ok v, (stored_p, g))
    unfolding get Impl.has
    get-hit g now' le = rw (has_stored, get-stored group m d ttl key v bytes h now p now' le)

    -- Over a cache in the map, for a value whose bytes the marshaller reads back: a read of a key that
    -- the map does not hold calls the getter, gives its value and stores it; a read after that, in the
    -- entry's time to live, gives the value and leaves the getter's state alone.
    pub get-get :
        getter key g ≡ (ok v, g')
        → holds p (key_of group key) ≡ none
        → (now' : ℕ) → now' ≤ now + ttl
        → (get c getter now key (p, g) ≡ (ok v, (stored_p, g')))
          × (get c getter now' key (stored_p, g') ≡ (ok v, (stored_p, g')))
    get-get e n now' le = (get-miss e n, get-hit g' now' le)

    -- Over a cache in the map, a read after the time to live of an entry that was stored gives the
    -- default value of the cache with no error, and the getter's state is left alone; the entry is
    -- deleted. The marshaller is taken to have given bytes for the stored value from which it reads that
    -- value back.
    pub get_stale :
        (now' : ℕ)
        → now + ttl < now'
        → get c getter now' key (stored_p, g) ≡ (
          ok d,
          (
            record stored_p {
              storage = Dict.remove text_discrete stored_p.storage (key_of group key);
            },
            g,
          ),
        )
    unfolding get Impl.has
    get_stale now' lt = rw (has_stored, get-expired group m d ttl key v bytes h now p now' lt)

  -- Over a cache in the map, when the key is not there and the getter fails, its error comes back and
  -- nothing is stored.
  pub get_getter_fails :
      (e : Error) (now : ℕ) (p : Memory) (g g' : G)
      → getter key g ≡ (err e, g')
      → holds p (key_of group key) ≡ none
      → get c getter now key (p, g) ≡ (err e, (p, g'))
  unfolding get fetch Impl.has Memory.has
  get_getter_fails e now p g g' f n = rw (n, f)
