-- ===== src/Cache/Proxy.antt =====
-- cache/proxy.go: a read through the cache. On an error Go returns the cache's default beside it.
pub mod Laws
use golang_core.Prelude.{ℕ, List, Bool, true, false, Result, ok, err}
use golang_core.Prelude.Exec.{Exec, pure, ◌>>=◌, ◌>>◌}
use golang_core.Cache.{Error}
use golang_core.Cache.Impl
use golang_core.Cache.Impl.{Cache}

-- The cache's provider and the getter change states of their own.
abbrev pub on_cache : {P G A : Type 0} → Exec P Error A → Exec (P × G) Error A
on_cache m (p, g) = let (r, p') = m p in (r, (p', g))

abbrev pub on_getter : {P G A : Type 0} → Exec G Error A → Exec (P × G) Error A
on_getter m (p, g) = let (r, g') = m g in (r, (p, g'))

module _ {P G V : Type 0} (c : Cache P V) (getter : List ℕ → Exec G Error V) where
  fetch : ℕ → List ℕ → Exec (P × G) Error V
  fetch now key = do value ← on_getter (getter key); on_cache (Impl.set c now key value); pure value

  unfoldable pub get : ℕ → List ℕ → Exec (P × G) Error V
  unfolding fetch
  get now key = do
    there ← on_cache (Impl.has c key)
    elim there [ true ↦ on_cache (Impl.get c now key) | false ↦ fetch now key ]
