-- ===== src/Pool.antt =====
-- pool/pool.go: workers that take tasks from a channel without a buffer. A call of `Start` or `Stop` holds the
-- mutex throughout and is one step; `ExecuteTask` holds it while it hands its tasks over one by one.
pub mod System
pub mod Invariant
pub mod Laws
mod Tests
use golang_core.Prelude.{
  ℕ, zero, suc, Bool, true, false, Option, none, some, List, [], ◌∷◌, ◌++◌, Result, ok, err, set,
  ite, ℕ_discrete, if◌then◌else◌,
}

pub data Error : Type 0 where
  not_started : Error
  already_started : Error
  already_stopped : Error

-- A close of a closed channel, or a send into one.
pub data Fault : Type 0 where
  panics : Fault

-- A worker, with the channel that it was started with.
pub data Worker (A : Type 0) : Type 0 where
  waiting : ℕ → Worker A
  running : ℕ → A → Worker A
  gone : Worker A

-- `Impl`, with the channels that were made, which are the numbers below `next`, and the workers of all of
-- them. `sending` are the tasks that the call of `ExecuteTask` which holds the mutex has left.
pub record Pool (A : Type 0) : Type 0 where
  pub size : ℕ
  pub started : Bool
  pub channel : ℕ
  pub next : ℕ
  pub closed : ℕ → Bool
  pub workers : List (Worker A)
  pub sending : Option (List A)

abbrev pub new_pool : {A : Type 0} → ℕ → Pool A
new_pool size = record {
  size = size;
  started = false;
  channel = 0;
  next = 0;
  closed = λ c. false;
  workers = [];
  sending = none;
}

abbrev pub update : (ℕ → Bool) → ℕ → Bool → ℕ → Bool
update f i b j = ite (ℕ_discrete i j) b (f j)

module _ {A : Type 0} where
  -- The workers that `Start` adds.
  unfoldable pub waiting_workers : ℕ → ℕ → List (Worker A)
  waiting_workers zero c = []
  waiting_workers (suc n) c = waiting c ∷ waiting_workers n c

  abbrev pub started_pool : Pool A → Pool A
  started_pool p = record p {
    started = true;
    channel = p.next;
    next = suc p.next;
    closed = update p.closed p.next false;
    workers = p.workers ++ waiting_workers p.size p.next;
  }

  abbrev pub start : Pool A → Option Error × Pool A
  start p = if p.started then (some already_started, p) else (none, started_pool p)

  abbrev pub stopped_pool : Pool A → Pool A
  stopped_pool p = record p { started = false; closed = update p.closed p.channel true }

  abbrev pub stop : Pool A → Result Fault (Option Error) × Pool A
  stop p =
      if p.started
      then (if p.closed p.channel then (err panics, p) else (ok none, stopped_pool p))
      else (ok (some already_stopped), p)

  -- `ExecuteTask` up to its loop.
  abbrev pub execute_task : List A → Pool A → Option Error × Pool A
  execute_task tasks p =
      if p.started then (none, record p { sending = some tasks }) else (some not_started, p)

  -- One send of the loop, to the worker `i`: it takes the task if it waits on this channel.
  abbrev pub hand_over : A → List A → ℕ → Pool A → Result Fault (Pool A)
  hand_over task rest i p =
      if p.closed p.channel
      then err panics
      else ok (record p { workers = set p.workers i (running p.channel task); sending = some rest })
