-- ===== src/Promise.antt =====
-- promise/promise.go and either/: a value that is set once, and the channels of those who wait for it.
-- A channel is a number that a heap maps to its buffer of one item, as `make(chan ..., 1)` gives it.
-- `T` is the type of the value with Go's zero value `zero_value`, `E` that of the errors of others.
pub mod Channels
pub mod Getter
pub mod System
pub mod Entries
pub mod Complete
pub mod Effects
pub mod Invariant
pub mod Laws
mod Tests
use golang_core.Prelude.{
  ℕ, zero, suc, ◌+◌, Bool, true, false, Option, none, some, List, [], ◌∷◌, ◌++◌, ite, ℕ_discrete,
  if◌then◌else◌,
}
use golang_core.Prelude.Exec.{Exec, pure, ◌>>=◌, ◌>>◌}
use golang_core.Promise.Channels.{Chan, Fault, make_chan, update, put_item, shut, take_item}

-- `error`, with the errors of the package and those of others.
pub data Error (E : Type 0) : Type 0 where
  already_resolved : Error E
  not_resolved : Error E
  channel_closed : Error E
  nil_error : Error E
  promise_resolved : Error E
  other : E → Error E

pub record Either (L R : Type 0) : Type 0 where
  pub left : Option L
  pub right : Option R

module _ {L R : Type 0} where
  abbrev pub left_of : L → Either L R
  left_of l = record { left = some l; right = none }

  abbrev pub right_of : R → Either L R
  right_of r = record { left = none; right = some r }

  -- `Value`, given the zero values of both types.
  abbrev pub either_value : R → L → Either L R → R × L
  either_value r0 l0 e = elim e.left [
    | some l ↦ (r0, l)
    | none ↦ elim e.right [ some r ↦ (r, l0) | none ↦ (r0, l0) ]
  ]

-- `Impl`; the pointers are options.
pub record Promise (T E : Type 0) : Type 0 where
  pub value : Option T
  pub error : Option (Error E)
  pub channels : List ℕ
  pub resolved : Bool

abbrev pub Item : Type 0 → Type 0 → Type 0
Item T E = Either (Option (Error E)) T

-- A promise and the channels that exist, which are the numbers below `next`.
pub record World (T E : Type 0) : Type 0 where
  pub promise : Promise T E
  pub heap : ℕ → Chan (Item T E)
  pub next : ℕ

abbrev pub new_promise : {T E : Type 0} → Promise T E
new_promise = record { value = none; error = none; channels = []; resolved = false }

abbrev pub new_world : {T E : Type 0} → World T E
new_world = record { promise = new_promise; heap = λ c. make_chan; next = 0 }

-- The list without the first entry that is the channel, if there is one.
unfoldable pub without : ℕ → List ℕ → Option (List ℕ)
without c [] = none
without c (x ∷ xs) =
    let rest = without c xs in
    ite (ℕ_discrete x c) (some xs) (elim rest [ some ys ↦ some (x ∷ ys) | none ↦ none ])

-- A state in which the operation may go wrong: a send or a close of a closed channel panics, and a
-- send into a full channel waits for ever, with the mutex held.
abbrev pub Op : Type 0 → Type 0 → Type 0 → Type 0
Op T E A = Exec (World T E) Fault A

module _ {T E : Type 0} where
  abbrev pub send : ℕ → Item T E → Op T E (Unit {0})
  send c item w =
      let (r, ch) = put_item item (w.heap c) in (r, record w { heap = update w.heap c ch })

  abbrev pub close : ℕ → Op T E (Unit {0})
  close c w = let (r, ch) = shut (w.heap c) in (r, record w { heap = update w.heap c ch })

  -- `eith, ok := <-ch`: none is a closed channel, and a fault an empty one that is still open.
  abbrev pub receive : ℕ → Op T E (Option (Item T E))
  receive c w = let (r, ch) = take_item (w.heap c) in (r, record w { heap = update w.heap c ch })

  abbrev pub outcome : Promise T E → Item T E
  outcome p = elim p.value [
    | some v ↦ right_of v
    | none ↦ elim p.error [ some e ↦ left_of (some e) | none ↦ left_of (some promise_resolved) ]
  ]

  abbrev pub get_resolved_value : Bool → Promise T E → Item T E
  get_resolved_value false p = outcome p
  get_resolved_value true p = if p.resolved then outcome p else left_of (some not_resolved)

  unfoldable pub send_all : Item T E → List ℕ → Op T E (Unit {0})
  send_all item [] = pure tt
  send_all item (c ∷ cs) = send c item >> close c >> send_all item cs

  abbrev pub drop_channels : Op T E (Unit {0})
  drop_channels w = (pure tt) (record w { promise = record w.promise { channels = [] } })

  unfoldable pub complete : Op T E (Unit {0})
  unfolding send_all
  complete w =
      let p = record w.promise { resolved = true } in
      (send_all (get_resolved_value false p) p.channels >> drop_channels) (record w { promise = p })

  abbrev pub answer : Option (Error E) → Op T E (Unit {0}) → Op T E (Option (Error E))
  answer e m = m >>= λ _. pure e

  unfoldable pub resolve : T → Op T E (Option (Error E))
  unfolding complete
  resolve v w =
      if w.promise.resolved
      then pure (some already_resolved) w
      else answer none complete (record w { promise = record w.promise { value = some v } })

  unfoldable pub reject : Option (Error E) → Op T E (Option (Error E))
  unfolding complete
  reject none w = pure (some nil_error) w
  reject (some e) w =
      if w.promise.resolved
      then pure (some already_resolved) w
      else answer none complete (record w { promise = record w.promise { error = some e } })

  -- The new channel is the number `next`.
  abbrev pub allocate : World T E → World T E
  allocate w = record w { heap = update w.heap w.next make_chan; next = suc w.next }

  abbrev pub register : ℕ → World T E → World T E
  register c w = record w { promise = record w.promise { channels = w.promise.channels ++ c ∷ [] } }

  unfoldable pub add_channel : Op T E ℕ
  add_channel w =
      let c = w.next in
      if w.promise.resolved
      then (send c (get_resolved_value true w.promise) >> close c >> pure c) (allocate w)
      else pure c (register c (allocate w))

  abbrev pub deregister : ℕ → Option (List ℕ) → Op T E Bool
  deregister c none w = pure true w
  deregister c (some cs) w =
      (close c >> pure true) (record w { promise = record w.promise { channels = cs } })

  unfoldable pub remove_channel : ℕ → Op T E Bool
  unfolding without
  remove_channel c w =
      if w.promise.resolved then pure false w else deregister c (without c w.promise.channels) w

  abbrev pub read_result : T → Option (Item T E) → T × Option (Error E)
  read_result zero_value none = (zero_value, some channel_closed)
  read_result zero_value (some item) =
      let (v, e) = either_value zero_value none item in
      elim e [ some x ↦ (zero_value, some x) | none ↦ (v, none) ]
