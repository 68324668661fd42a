-- ===== src/Future/Tests.antt =====
-- future/future.go: the theorem on a concrete run.
use golang_core.Prelude.{ℕ, ◌≡◌, refl, true, not, none, some, ok, ℕ_discrete}
use golang_core.Promise.{other, send_all, complete, reject, add_channel}
use golang_core.Promise.Getter.{by_channel}
use golang_core.Future.{Future, new_future, run, finished, Later, now, later, gets, runs}
use golang_core.Future.Agreement.{is_refused, Agrees, reports}
use golang_core.Future.Laws.{Answers, future_settles}

-- A caller waits, and then the body returns the error 8.
abbrev awaited : (f : Future ℕ ℕ) × Later 0 (new_future true) f
unfolding add_channel ℕ_discrete run reject complete send_all
awaited = (
  _,
  later
      (later (later (later now (gets 0 by_channel refl)) (gets 0 by_channel refl))
        (runs 3 (some (other 8)) refl refl))
      (gets 0 by_channel refl),
)

future_settles_example :
    (is_refused awaited.0.task ≡ not true)
    × Agrees awaited.0.task awaited.0.system.world.promise
    × Answers 0 awaited.0.task (awaited.0.system.callers 0)
    × ((run 4 none awaited.0.system.world).0
        ≡ ok (reports awaited.0.system.world.promise.resolved none))
future_settles_example = future_settles 0 true awaited.1 0 4 none

given_up : awaited.0.task ≡ finished 3 (some (other 8))
unfolding awaited add_channel ℕ_discrete run reject complete send_all
given_up = refl
