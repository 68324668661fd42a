-- ===== src/Promise/Getter.antt =====
-- promise/promise.go: `Get` as the steps that it takes between two moments at which others may act.
use golang_core.Prelude.{ℕ, Bool, true, false, Option, some, Result, ok, err}
use golang_core.Prelude.Exec.{pure, ◌>>=◌}
use golang_core.Promise.{
  Error, other, World, Op, Item, add_channel, remove_channel, receive, read_result,
}
use golang_core.Promise.Channels.{Chan, Fault, take_item, update}

-- Where a call of `Get` stands, with its channel and, when the context is done, its error.
pub data Getter (T E : Type 0) : Type 0 where
  calling : Getter T E
  first_look : ℕ → Getter T E
  selecting : ℕ → Getter T E
  second_look : ℕ → E → Getter T E
  leaving : ℕ → E → Getter T E
  awaiting : ℕ → Getter T E
  returned : T → Option (Error E) → Getter T E

-- Which case of the `select` is taken.
pub data Ready (E : Type 0) : Type 0 where
  by_channel : Ready E
  by_context : E → Ready E

module _ {T E : Type 0} (zero_value : T) where
  abbrev pub return_result : Option (Item T E) → Getter T E
  return_result x = let (v, e) = read_result zero_value x in returned v e

  -- `tryReadResult` and the return after it: where the channel would block, the call goes on.
  abbrev pub looked :
      World T E
      → ℕ
      → Getter T E
      → Result Fault (Option (Item T E)) × Chan (Item T E)
      → Result Fault (Getter T E) × World T E
  looked w c p (ok x, ch) = (ok (return_result x), record w { heap = update w.heap c ch })
  looked w c p (err f, ch) = (ok p, w)

  abbrev pub try_read_result : ℕ → Getter T E → Op T E (Getter T E)
  try_read_result c p w = looked w c p (take_item (w.heap c))

  abbrev pub after_removal : ℕ → E → Bool → Getter T E
  after_removal c e true = returned zero_value (some (other e))
  after_removal c e false = awaiting c

  abbrev pub get_step : Ready E → Getter T E → Op T E (Getter T E)
  get_step r calling = add_channel >>= λ c. pure (first_look c)
  get_step r (first_look c) = try_read_result c (selecting c)
  get_step by_channel (selecting c) = receive c >>= λ x. pure (return_result x)
  get_step (by_context e) (selecting c) = pure (second_look c e)
  get_step r (second_look c e) = try_read_result c (leaving c e)
  get_step r (leaving c e) = remove_channel c >>= λ b. pure (after_removal c e b)
  get_step r (awaiting c) = receive c >>= λ x. pure (return_result x)
  get_step r (returned v e) = pure (returned v e)
