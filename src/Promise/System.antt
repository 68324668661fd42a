-- ===== src/Promise/System.antt =====
-- promise/promise.go: a promise with any number of callers, interleaved in any order. A call that holds
-- the mutex throughout is one step.
use golang_core.Prelude.{ℕ, ◌≡◌, Option, ok}
use golang_core.Promise.{Error, World, new_world, add_channel, resolve, reject}
use golang_core.Promise.Channels.{update}
use golang_core.Promise.Getter.{Getter, Ready, calling, awaiting, get_step}

-- A caller is a number; `callers` says where its call of `Get` or its use of `Chan` stands.
pub record System (T E : Type 0) : Type 0 where
  pub world : World T E
  pub callers : ℕ → Getter T E

abbrev pub init : {T E : Type 0} → System T E
init = record { world = new_world; callers = λ i. calling }

module _ {T E : Type 0} (zero_value : T) where
  pub data Step (s : System T E) : System T E → Type 0 where
    gets :
        (i : ℕ) (r : Ready E) {p : Getter T E} {w : World T E}
        → get_step zero_value r (s.callers i) s.world ≡ (ok p, w)
        → Step s (record { world = w; callers = update s.callers i p })
    -- `Chan`, whose caller reads the channel when it likes.
    subscribes :
        (i c : ℕ) {w : World T E}
        → s.callers i ≡ calling
        → add_channel s.world ≡ (ok c, w)
        → Step s (record { world = w; callers = update s.callers i (awaiting c) })
    resolves :
        (v : T) {e : Option (Error E)} {w : World T E}
        → resolve v s.world ≡ (ok e, w)
        → Step s (record s { world = w })
    rejects :
        (x : Option (Error E)) {e : Option (Error E)} {w : World T E}
        → reject x s.world ≡ (ok e, w)
        → Step s (record s { world = w })

  -- The states that come after `s`.
  pub data Later (s : System T E) : System T E → Type 0 where
    now : Later s s
    later : {t u : System T E} → Later s t → Step t u → Later s u

  abbrev pub Reach : System T E → Type 0
  Reach = Later init
