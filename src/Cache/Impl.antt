-- ===== src/Cache/Impl.antt =====
-- cache/impl.go: typed values over a provider of bytes. `Impl` holds its settings in a record.
pub mod Laws
use golang_core.Prelude.{ℕ, List, Bool, true, false, Result, ok, err, if◌then◌else◌}
use golang_core.Prelude.Exec.{Exec, pure, fail, attempt, ◌>>=◌}
use golang_core.Cache.{
  Error, no_such_key, provider_get, provider_set, provider_delete, marshal_failed, unmarshal_failed,
  failure, Provider,
}

-- `Marshaller`, for the values of one type.
pub record Marshaller (V : Type 0) : Type 0 where
  pub marshal : V → Result Error (List ℕ)
  pub unmarshal : List ℕ → Result Error V

pub record Cache (P V : Type 0) : Type 0 where
  pub group : List ℕ
  pub marshaller : Marshaller V
  pub provider : Provider P
  pub default_value : V
  pub ttl : ℕ

-- What a read or a write returns beside its error, and the error joined to the call's own.
abbrev or_error : {P A : Type 0} → (Error → Error) → Result Error A → Exec P Error A
or_error wrap (ok a) = pure a
or_error wrap (err e) = fail (wrap e)

-- errors.Is(err, ErrProviderNoSuchKey), which looks through joined errors
unfoldable pub is_no_such_key : Error → Bool
is_no_such_key (no_such_key k) = true
is_no_such_key (provider_get e) = is_no_such_key e
is_no_such_key (provider_set e) = is_no_such_key e
is_no_such_key (provider_delete e) = is_no_such_key e
is_no_such_key (marshal_failed e) = is_no_such_key e
is_no_such_key (unmarshal_failed e) = is_no_such_key e
is_no_such_key (failure n) = false

module _ {P V : Type 0} (c : Cache P V) where
  unfoldable pub has : List ℕ → Exec P Error Bool
  has key = c.provider.has c.group key

  decode : Result Error V → Exec P Error V
  decode r = or_error unmarshal_failed r

  -- The cases of the switch on the provider's error, then what it read.
  found : Result Error (List ℕ) → Exec P Error V
  unfolding decode is_no_such_key
  found (ok bytes) s = decode (c.marshaller.unmarshal bytes) s
  found (err e) s = if is_no_such_key e then (ok c.default_value, s) else (err (provider_get e), s)

  unfoldable pub get : ℕ → List ℕ → Exec P Error V
  unfolding found
  get now key = do r ← attempt (c.provider.get now c.group key); found r

  unfoldable pub set : ℕ → List ℕ → V → Exec P Error (Unit {0})
  set now key value = do
    bytes ← or_error marshal_failed (c.marshaller.marshal value)
    r ← attempt (c.provider.set now c.group key bytes c.ttl)
    or_error provider_set r

  unfoldable pub delete : List ℕ → Exec P Error (Unit {0})
  delete key = do r ← attempt (c.provider.delete c.group key); or_error provider_delete r
