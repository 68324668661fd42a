-- ===== src/Pool/System.antt =====
-- pool/pool.go: the pool and its callers, interleaved in any order.
use golang_core.Prelude.{ℕ, ◌≡◌, Option, none, some, List, [], ◌∷◌, ◌++◌, ok, get_elem?, set}
use golang_core.Pool.{
  Pool, waiting, running, gone, Error, start, stop, execute_task, hand_over, new_pool,
}

-- `accepted` are the tasks of the calls of `ExecuteTask` that were not refused, `taken` those that workers
-- took, both in their order.
pub record System (A : Type 0) : Type 0 where
  pub pool : Pool A
  pub accepted : List A
  pub taken : List A

module _ {A : Type 0} where
  abbrev pub init : ℕ → System A
  init size = record { pool = new_pool size; accepted = []; taken = [] }

  abbrev pub left_over : Option (List A) → List A
  left_over none = []
  left_over (some ts) = ts

  pub data Step (s : System A) : System A → Type 0 where
    starts : s.pool.sending ≡ none → Step s (record s { pool = (start s.pool).1 })
    stops :
        {e : Option Error} {p : Pool A}
        → s.pool.sending ≡ none
        → stop s.pool ≡ (ok e, p)
        → Step s (record s { pool = p })
    executes :
        (tasks : List A) {p : Pool A}
        → s.pool.sending ≡ none
        → execute_task tasks s.pool ≡ (none, p)
        → Step s (record s { pool = p; accepted = s.accepted ++ tasks })
    -- A worker that waits on the channel takes the task.
    hands_over :
        (task : A) (rest : List A) (i : ℕ) {p : Pool A}
        → s.pool.sending ≡ some (task ∷ rest)
        → get_elem? s.pool.workers i ≡ some (waiting s.pool.channel)
        → hand_over task rest i s.pool ≡ ok p
        → Step s (record s { pool = p; taken = s.taken ++ task ∷ [] })
    -- `ExecuteTask` returns and gives the mutex back.
    returns :
        s.pool.sending ≡ some [] → Step s (record s { pool = record s.pool { sending = none } })
    -- The task is done, or its context is.
    finishes :
        (i c : ℕ) (task : A)
        → get_elem? s.pool.workers i ≡ some (running c task)
        → Step s (record s { pool = record s.pool { workers = set s.pool.workers i (waiting c) } })
    -- The channel is closed and has nothing, or the context of the pool is done.
    leaves :
        (i : ℕ) → Step s (record s { pool = record s.pool { workers = set s.pool.workers i gone } })

  pub data Later (s : System A) : System A → Type 0 where
    now : Later s s
    later : {t u : System A} → Later s t → Step t u → Later s u
