-- ===== src/Cache/Tests.antt =====
-- Runs of cache/ over the map: the bytes of a value are the value itself.
use golang_core.Prelude.{
  text_discrete, ℕ, ◌+◌, ◌≡◌, refl, none, ◌≢◌, ap, drop, List, [], ◌∷◌, ok, err, codes, arith,
}
use golang_core.Prelude.Exec.{Exec}
use golang_core.Prelude.Dict
use golang_core.Cache.{Error, failure}
use golang_core.Cache.Memory.{new_memory, key_of, get}
use golang_core.Cache.Memory.Laws.{after_set, holds, get-set}
use golang_core.Cache.Impl.{Marshaller}
use golang_core.Cache.Impl.Laws.{over_memory, IsReadBack, stored}
use golang_core.Cache.Proxy
use golang_core.Cache.Proxy.Laws.{get-get, get_stale}

abbrev users : List ℕ
users = codes "users"

abbrev ann : List ℕ
ann = codes "ann"

abbrev bob : List ℕ
bob = codes "bob"

get-set_example :
    get 15 users ann (after_set users ann bob 10 5 new_memory)
    ≡ (ok bob, after_set users ann bob 10 5 new_memory)
get-set_example = get-set users ann bob 10 5 new_memory 15 (omega arith)

abbrev bytes_marshaller : Marshaller (List ℕ)
bytes_marshaller = record { marshal = λ v. ok v; unmarshal = λ b. ok b }

bob-IsReadBack : IsReadBack bytes_marshaller bob bob
bob-IsReadBack = record { written = refl; read = refl }

-- It counts its calls.
abbrev getter : List ℕ → Exec ℕ Error (List ℕ)
getter key n = (ok bob, n + 1)

abbrev broken_getter : List ℕ → Exec ℕ Error (List ℕ)
broken_getter key n = (err (failure 7), n + 1)

nothing : holds new_memory (key_of users ann) ≡ none
unfolding Dict.get
nothing = refl

ann_or_bob : key_of users ann ≢ key_of users bob
unfolding key_of
ann_or_bob e = absurd (omega (arith, ap (λ k. get_byte (drop 6 k)) e))
  where
    get_byte : List ℕ → ℕ
    get_byte [] = 0
    get_byte (x ∷ xs) = x

get-get_example :
    (Proxy.get (over_memory users bytes_marshaller [] 5) getter 10 ann (new_memory, 0)
      ≡ (ok bob, (stored users bytes_marshaller [] 5 ann bob bob bob-IsReadBack 10 new_memory, 1)))
    × (Proxy.get
          (over_memory users bytes_marshaller [] 5)
          getter
          12
          ann
          (stored users bytes_marshaller [] 5 ann bob bob bob-IsReadBack 10 new_memory, 1)
        ≡ (
          ok bob,
          (stored users bytes_marshaller [] 5 ann bob bob bob-IsReadBack 10 new_memory, 1),
        ))
get-get_example =
    get-get getter users bytes_marshaller [] 5 ann bob bob bob-IsReadBack 10 new_memory 0 1 refl
      nothing 12 (omega arith)

get_stale_example :
    Proxy.get
      (over_memory users bytes_marshaller [] 5)
      getter
      16
      ann
      (stored users bytes_marshaller [] 5 ann bob bob bob-IsReadBack 10 new_memory, 1)
    ≡ (
      ok [],
      (
        record {
          storage =
              Dict.remove text_discrete
                (stored users bytes_marshaller [] 5 ann bob bob bob-IsReadBack 10
                  new_memory).storage
                (key_of users ann);
        },
        1,
      ),
    )
get_stale_example =
    get_stale getter users bytes_marshaller [] 5 ann bob bob bob-IsReadBack 10 new_memory 1 2 16
      (omega arith)
