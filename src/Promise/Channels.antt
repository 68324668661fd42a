-- ===== src/Promise/Channels.antt =====
-- promise/promise.go: what Go's channels with a buffer of one item do.
use golang_core.Prelude.{
  ℕ, Bool, true, false, Option, none, some, ok, err, ite, ℕ_discrete, if◌then◌else◌,
}
use golang_core.Prelude.Exec.{Exec}

pub record Chan (A : Type 0) : Type 0 where
  pub buffer : Option A
  pub closed : Bool

pub data Fault : Type 0 where
  panics : Fault
  blocks : Fault

abbrev pub make_chan : {A : Type 0} → Chan A
make_chan = record { buffer = none; closed = false }

abbrev pub full : {A : Type 0} → A → Chan A
full a = record { buffer = some a; closed = true }

abbrev pub drained : {A : Type 0} → Chan A
drained = record { buffer = none; closed = true }

-- A send, which panics on a closed channel and waits on a full one.
abbrev pub put_item : {A : Type 0} → A → Exec (Chan A) Fault (Unit {0})
put_item a ch = if ch.closed then (err panics, ch) else elim ch.buffer [
  | some b ↦ (err blocks, ch)
  | none ↦ (ok tt, record ch { buffer = some a })
]

abbrev pub shut : {A : Type 0} → Exec (Chan A) Fault (Unit {0})
shut ch = if ch.closed then (err panics, ch) else (ok tt, record ch { closed = true })

-- A receive gives what is in the buffer, then none if the channel is closed, and waits if it is not.
abbrev pub take_item : {A : Type 0} → Exec (Chan A) Fault (Option A)
take_item ch = elim ch.buffer [
  | some a ↦ (ok (some a), record ch { buffer = none })
  | none ↦ if ch.closed then (ok none, ch) else (err blocks, ch)
]

abbrev pub update {ℓ} : {A : Type ℓ} → (ℕ → A) → ℕ → A → ℕ → A
update f i a j = ite (ℕ_discrete i j) a (f j)
