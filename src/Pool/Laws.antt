-- ===== src/Pool/Laws.antt =====
-- pool/pool.go: what callers of the pool can rely on, and what they cannot.
use golang_core.Prelude.{
  ℕ, zero, suc, ◌≡◌, refl, ap, sym, ◌∙◌, Bool, true, false, Option, some, List, [], ◌∷◌, ◌++◌, ok,
  get_elem?, set, AllPass,
}
use golang_core.Pool.{Pool, Worker, waiting, running, gone, Error, stop, hand_over}
use golang_core.Pool.System.{
  System, Step, starts, stops, executes, hands_over, returns, finishes, leaves, Later, now, later,
  init, left_over,
}
use golang_core.Pool.Invariant.{Later-Inv, init-Inv, stop_ends, handed, hand_over_open}

module _ {A : Type 0} where
  -- In every state that is reached, no send and no close panics, and no task is lost, taken twice or
  -- overtaken: the tasks that workers took are the first ones of those accepted, in their order, and the
  -- others are those that the call which holds the mutex still has.
  pub tasks_kept :
      {size : ℕ} {s : System A}
      → Later (init size) s
      → ((e : Option Error) × (p : Pool A) × (stop s.pool ≡ (ok e, p)))
        × ((task : A) (rest : List A) (i : ℕ)
            → s.pool.sending ≡ some (task ∷ rest)
            → hand_over task rest i s.pool ≡ ok (handed task rest i s.pool))
        × (s.accepted ≡ s.taken ++ left_over s.pool.sending)
  tasks_kept {size} {s} r =
      let inv = Later-Inv r (init-Inv size) in
      (
        stop_ends s inv,
        (λ task rest i q.
            hand_over_open task rest i s.pool (inv.open_ (inv.sends (task ∷ rest) q))),
        inv.kept,
      )

  abbrev pub is_gone : Worker A → Bool
  is_gone (waiting c) = false
  is_gone (running c a) = false
  is_gone gone = true

  set-AllPass :
      (ws : List (Worker A)) (i : ℕ) → AllPass is_gone ws → AllPass is_gone (set ws i gone)
  set-AllPass [] i h = tt
  set-AllPass (w ∷ ws) zero h = (refl, h.1)
  set-AllPass (w ∷ ws) (suc i) h = (h.0, set-AllPass ws i h.1)

  get_elem?-gone :
      (ws : List (Worker A)) (i : ℕ) (w : Worker A)
      → AllPass is_gone ws
      → get_elem? ws i ≡ some w
      → is_gone w ≡ true
  get_elem?-gone [] i w h q = absurd cc
  get_elem?-gone (v ∷ ws) zero w h q = let e : v ≡ w = cc in ap is_gone (sym e) ∙ h.0
  get_elem?-gone (v ∷ ws) (suc i) w h q = get_elem?-gone ws i w h.1 q

  -- All workers have left, and a call of `ExecuteTask` has a task to hand over.
  pub record Abandoned (task : A) (rest taken accepted : List A) (s : System A) : Type 0 where
    pub left : AllPass is_gone s.pool.workers
    pub holds : s.pool.sending ≡ some (task ∷ rest)
    pub same_taken : s.taken ≡ taken
    pub same_accepted : s.accepted ≡ accepted

  Step-Abandoned :
      {task : A} {rest xs ys : List A} {s t : System A}
      → Step s t
      → Abandoned task rest xs ys s
      → Abandoned task rest xs ys t
  Step-Abandoned (starts q) h = absurd (cc (q, h.holds))
  Step-Abandoned (stops q r) h = absurd (cc (q, h.holds))
  Step-Abandoned (executes ts q r) h = absurd (cc (q, h.holds))
  Step-Abandoned {s = s} (hands_over a as_ i q w r) h =
      absurd (cc (get_elem?-gone s.pool.workers i (waiting s.pool.channel) h.left w))
  Step-Abandoned (returns q) h = absurd (cc (q, h.holds))
  Step-Abandoned {s = s} (finishes i c a w) h =
      absurd (cc (get_elem?-gone s.pool.workers i (running c a) h.left w))
  Step-Abandoned {s = s} (leaves i) h = record {
    left = set-AllPass s.pool.workers i h.left;
    holds = h.holds;
    same_taken = h.same_taken;
    same_accepted = h.same_accepted;
  }

  Later-Abandoned :
      {task : A} {rest xs ys : List A} {s t : System A}
      → Abandoned task rest xs ys s
      → Later s t
      → Abandoned task rest xs ys t
  Later-Abandoned h now = h
  Later-Abandoned h (later r st) = Step-Abandoned st (Later-Abandoned h r)

  -- When all workers have left, because the context given to `Start` is done or the pool has size 0, a call of
  -- `ExecuteTask` that has a task to hand over keeps the mutex for ever: neither `Start` nor `Stop` nor
  -- another `ExecuteTask` gets a turn, and the task is never taken.
  pub abandoned_blocks :
      {task : A} {rest : List A} {s t : System A}
      → AllPass is_gone s.pool.workers
      → s.pool.sending ≡ some (task ∷ rest)
      → Later s t
      → (t.pool.sending ≡ some (task ∷ rest)) × (t.taken ≡ s.taken) × (t.accepted ≡ s.accepted)
  abandoned_blocks {task} {rest} {s} g q r =
      let h =
        Later-Abandoned
          (record {
            left = g;
            holds = q;
            same_taken = refl {a = s.taken};
            same_accepted = refl {a = s.accepted};
          })
          r in
      (h.holds, h.same_taken, h.same_accepted)
