-- ===== src/Cache.antt =====
-- cache/: a cache over a provider of bytes and a marshaller, and a proxy that fills it.
pub mod Memory
pub mod Impl
pub mod Proxy
mod Tests
use golang_core.Prelude.{ℕ, Bool, List}
use golang_core.Prelude.Exec.{Exec}

-- The errors. `errors.Join(ErrProviderGet, err)` keeps both, which the argument stands for.
pub data Error : Type 0 where
  no_such_key : List ℕ → Error
  provider_get provider_set provider_delete marshal_failed unmarshal_failed : Error → Error
  failure : ℕ → Error

-- `Provider`, with its state in `P`. The clock of the context is the argument `now` of the calls that
-- read it; times and durations are in nanoseconds.
pub record Provider (P : Type 0) : Type 0 where
  pub has : List ℕ → List ℕ → Exec P Error Bool
  pub get : ℕ → List ℕ → List ℕ → Exec P Error (List ℕ)
  pub set : ℕ → List ℕ → List ℕ → List ℕ → ℕ → Exec P Error (Unit {0})
  pub delete : List ℕ → List ℕ → Exec P Error (Unit {0})
