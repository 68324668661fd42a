-- ===== src/Promise/Tests.antt =====
-- promise/promise.go: the theorems on concrete runs.
use golang_core.Prelude.{
  ℕ, ◌≡◌, ◌≤◌, ◌-◌, ◌⊎◌, refl, ℕ_discrete, true, false, Option, none, some, ok, err,
}
use golang_core.Promise.{
  World, Error, other, without, send_all, complete, resolve, reject, add_channel, remove_channel,
}
use golang_core.Promise.Getter.{Getter, by_channel, by_context, get_step}
use golang_core.Promise.System.{System, gets, resolves, now, later, Reach}
use golang_core.Promise.Effects.Settle.{settles_once, once}
use golang_core.Promise.Invariant.{rank, is_waiting}
use golang_core.Promise.Channels.{blocks}
use golang_core.Promise.Laws.{calls_end, get_answers, settled_stays, settled_returns}

-- The caller 0 waits, its context is done with the error 5, and it is about to give up its channel.
abbrev gives_up : (s : System ℕ ℕ) × Reach 0 s
unfolding add_channel ℕ_discrete
gives_up = (
  _,
  later
      (later (later (later now (gets 0 by_channel refl)) (gets 0 by_channel refl))
        (gets 0 (by_context 5) refl))
      (gets 0 by_channel refl),
)

calls_end_example :
    ((resolve 7 gives_up.0.world).0 ≡ ok (settles_once gives_up.0.world.promise.resolved))
    × ((resolve 7 gives_up.0.world).1.promise
        ≡ once gives_up.0.world.promise (record gives_up.0.world.promise { value = some 7 }))
    × ((reject (some (other 4)) gives_up.0.world).0
        ≡ ok (settles_once gives_up.0.world.promise.resolved))
    × ((reject (some (other 4)) gives_up.0.world).1.promise
        ≡ once gives_up.0.world.promise
            (record gives_up.0.world.promise { error = some (other 4) }))
    × ((add_channel gives_up.0.world).0 ≡ ok gives_up.0.world.next)
    × (((p : Getter ℕ ℕ) × (u : World ℕ ℕ) × (get_step 0 by_channel
              (gives_up.0.callers 0)
              gives_up.0.world
            ≡ (ok p, u)))
        ⊎ ((is_waiting (gives_up.0.callers 0) ≡ true)
            × (gives_up.0.world.promise.resolved ≡ false)
            × ((get_step 0 by_channel (gives_up.0.callers 0) gives_up.0.world).0 ≡ err blocks)))
calls_end_example = calls_end 0 gives_up.1 7 (other 4) 0 by_channel

-- Now the promise is resolved with 7, and the caller gets it after all.
abbrev settled_now : (s : System ℕ ℕ) × Reach 0 s
unfolding gives_up add_channel ℕ_discrete resolve complete send_all
settled_now = (_, later gives_up.1 (resolves 7 refl))

abbrev answered : (s : System ℕ ℕ) × Reach 0 s
unfolding settled_now gives_up add_channel ℕ_discrete resolve complete send_all remove_channel
    without
answered = (_, later (later settled_now.1 (gets 0 by_channel refl)) (gets 0 by_channel refl))

get_answers_example :
    ((x : ℕ) × (◌≡◌ {A = Option (Error ℕ)} none (some (other x))) × (◌≡◌ {A = ℕ} 7 0))
    ⊎ ((answered.0.world.promise.value ≡ some 7) × (◌≡◌ {A = Option (Error ℕ)} none none))
    ⊎ ((x : Error ℕ) × (◌≡◌ {A = Option (Error ℕ)} none (some x))
        × (answered.0.world.promise.error ≡ some x)
        × (◌≡◌ {A = ℕ} 7 0))
unfolding answered settled_now gives_up add_channel ℕ_discrete resolve complete send_all
    remove_channel without
get_answers_example = get_answers 0 answered.1 0 7 none refl

settled_stays_example : answered.0.world.promise ≡ settled_now.0.world.promise
unfolding answered settled_now gives_up add_channel ℕ_discrete resolve complete send_all
    remove_channel without
settled_stays_example =
    settled_stays 0 settled_now.1 refl
      (later (later now (gets 0 by_channel refl)) (gets 0 by_channel refl))

settled_returns_example :
    (rank (settled_now.0.callers 0) ≤ 2)
    × ((p : Getter ℕ ℕ) × (u : World ℕ ℕ) × (get_step 0 by_channel
            (settled_now.0.callers 0)
            settled_now.0.world
          ≡ (ok p, u))
        × (rank p ≤ rank (settled_now.0.callers 0) - 1))
unfolding settled_now gives_up add_channel ℕ_discrete resolve complete send_all
settled_returns_example = settled_returns 0 settled_now.1 refl 0 by_channel
