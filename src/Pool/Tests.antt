-- ===== src/Pool/Tests.antt =====
-- pool/pool.go: the theorems on concrete runs.
use golang_core.Prelude.{ℕ, ◌≡◌, refl, ℕ_discrete, Option, some, List, [], ◌∷◌, ◌++◌, ok}
use golang_core.Pool.{Pool, Error, stop, hand_over, waiting_workers}
use golang_core.Pool.System.{
  System, init, starts, executes, hands_over, leaves, now, later, Later, left_over,
}
use golang_core.Pool.Invariant.{handed}
use golang_core.Pool.Laws.{tasks_kept, abandoned_blocks}

-- One worker takes the first of two tasks.
abbrev half_done : (s : System ℕ) × Later (init 1) s
unfolding waiting_workers ℕ_discrete
half_done = (
  _,
  later (later (later now (starts refl)) (executes (7 ∷ 8 ∷ []) refl refl))
      (hands_over 7 (8 ∷ []) 0 refl refl refl),
)

tasks_kept_example :
    ((e : Option Error) × (p : Pool ℕ) × (stop half_done.0.pool ≡ (ok e, p)))
    × ((task : ℕ) (rest : List ℕ) (i : ℕ)
        → half_done.0.pool.sending ≡ some (task ∷ rest)
        → hand_over task rest i half_done.0.pool ≡ ok (handed task rest i half_done.0.pool))
    × (half_done.0.accepted ≡ half_done.0.taken ++ left_over half_done.0.pool.sending)
tasks_kept_example = tasks_kept half_done.1

-- The worker leaves before the second task.
abbrev without_workers : (s : System ℕ) × Later (init 1) s
unfolding half_done waiting_workers ℕ_discrete
without_workers = (_, later half_done.1 (leaves 0))

abandoned_blocks_example :
    (without_workers.0.pool.sending ≡ some (8 ∷ []))
    × (without_workers.0.taken ≡ without_workers.0.taken)
    × (without_workers.0.accepted ≡ without_workers.0.accepted)
unfolding without_workers half_done waiting_workers ℕ_discrete
abandoned_blocks_example =
    abandoned_blocks {s = without_workers.0} (refl, tt) refl (later now (leaves 0))
