-- ===== src/Pool/Invariant.antt =====
-- pool/pool.go: what holds in every state of the pool.
use golang_core.Prelude.{
  ℕ, ◌≡◌, refl, ap, sym, ◌∙◌, subst, arith, Bool, true, false, Bool-cases, Option, none, some, List,
  [], ◌∷◌, ◌++◌, Result, ok, inl, inr, set, append_assoc, append-nil, if_pos, ℕ_discrete,
  if◌then◌else◌,
}
use golang_core.Pool.{
  already_started, already_stopped, not_started, Pool, running, Error, Fault, stop, execute_task,
  hand_over, started_pool, stopped_pool,
}
use golang_core.Pool.System.{
  System, Step, starts, stops, executes, hands_over, returns, finishes, leaves, Later, now, later,
  init, left_over,
}

ok_inj : {X : Type 0} {a b : X} → Path (Result Fault X) (ok a) (ok b) → a ≡ b
ok_inj h = cc

refused : {X : Type 0} {p q : X} {e : Error} → Path (Option Error × X) (some e, p) (none, q) → ⊥
refused h = cc

module _ {A : Type 0} where
  -- `start` for a pool whose flag is `b`.
  abbrev chosen : Bool → Pool A → Option Error × Pool A
  chosen b p = if b then (some already_started, p) else (none, started_pool p)

  pub record Inv (s : System A) : Type 0 where
    -- A pool that is started has an open channel, and only such a pool has a sender.
    pub open_ : s.pool.started ≡ true → s.pool.closed s.pool.channel ≡ false
    pub sends : (ts : List A) → s.pool.sending ≡ some ts → s.pool.started ≡ true
    -- The tasks that were accepted are those that were taken and those that the sender has left.
    pub kept : s.accepted ≡ s.taken ++ left_over s.pool.sending

  start-Inv :
      (s : System A) (b : Bool)
      → Inv s
      → s.pool.sending ≡ none
      → Inv (record s { pool = (chosen b s.pool).1 })
  start-Inv s true inv q = inv
  start-Inv s false inv q = record {
    open_ = λ t. if_pos (ℕ_discrete s.pool.next s.pool.next) refl false (s.pool.closed s.pool.next);
    sends = λ ts e. refl;
    kept = inv.kept;
  }

  stop_running :
      (p : Pool A)
      → p.started ≡ true
      → p.closed p.channel ≡ false
      → stop p ≡ (ok none, stopped_pool p)
  stop_running p t o = ground arith

  stop_idle : (p : Pool A) → p.started ≡ false → stop p ≡ (ok (some already_stopped), p)
  stop_idle p f = ground arith

  execute_running :
      (tasks : List A) (p : Pool A)
      → p.started ≡ true
      → execute_task tasks p ≡ (none, record p { sending = some tasks })
  execute_running tasks p t = ground arith

  execute_idle :
      (tasks : List A) (p : Pool A)
      → p.started ≡ false
      → execute_task tasks p ≡ (some not_started, p)
  execute_idle tasks p f = ground arith

  abbrev pub handed : A → List A → ℕ → Pool A → Pool A
  handed task rest i p = record p {
    workers = set p.workers i (running p.channel task);
    sending = some rest;
  }

  pub hand_over_open :
      (task : A) (rest : List A) (i : ℕ) (p : Pool A)
      → p.closed p.channel ≡ false
      → hand_over task rest i p ≡ ok (handed task rest i p)
  hand_over_open task rest i p o = ground arith

  pub stop_ends :
      (s : System A) → Inv s → (e : Option Error) × (p : Pool A) × (stop s.pool ≡ (ok e, p))
  stop_ends s inv = elim (Bool-cases s.pool.started) [
    | inl t ↦ (none, stopped_pool s.pool, stop_running s.pool t (inv.open_ t))
    | inr f ↦ (some already_stopped, s.pool, stop_idle s.pool f)
  ]

  stop-Inv :
      (s : System A) {e : Option Error} {p : Pool A}
      → Inv s
      → s.pool.sending ≡ none
      → stop s.pool ≡ (ok e, p)
      → Inv (record s { pool = p })
  stop-Inv s {e} {p} inv q r = elim (Bool-cases s.pool.started) [
    | inl t ↦
        subst (λ p. Inv (record s { pool = p })) (closes t)
          (record { open_ = λ x. absurd cc; sends = λ ts x. absurd cc; kept = inv.kept })
    | inr f ↦ subst (λ p. Inv (record s { pool = p })) (stays f) inv
  ]
    where
      closes : s.pool.started ≡ true → stopped_pool s.pool ≡ p
      closes t =
          ap (λ (x : Result Fault (Option Error) × Pool A). x.1)
            (sym (stop_running s.pool t (inv.open_ t)) ∙ r)

      stays : s.pool.started ≡ false → s.pool ≡ p
      stays f =
          ap (λ (x : Result Fault (Option Error) × Pool A). x.1) (sym (stop_idle s.pool f) ∙ r)

  execute-Inv :
      (s : System A) (tasks : List A) {p : Pool A}
      → Inv s
      → s.pool.sending ≡ none
      → execute_task tasks s.pool ≡ (none, p)
      → Inv (record s { pool = p; accepted = s.accepted ++ tasks })
  execute-Inv s tasks {p} inv q r = elim (Bool-cases s.pool.started) [
    | inl t ↦
        subst (λ p. Inv (record s { pool = p; accepted = s.accepted ++ tasks }))
          (ap (λ (x : Option Error × Pool A). x.1) (sym (execute_running tasks s.pool t) ∙ r))
          (record {
            open_ = inv.open_;
            sends = λ ts x. t;
            kept =
                ap (λ x. x ++ tasks)
                  (inv.kept ∙ ap (λ x. s.taken ++ left_over x) q ∙ append-nil s.taken);
          })
    | inr f ↦ absurd (refused (sym (execute_idle tasks s.pool f) ∙ r))
  ]

  hand_over-Inv :
      (s : System A) (task : A) (rest : List A) (i : ℕ) {p : Pool A}
      → Inv s
      → s.pool.sending ≡ some (task ∷ rest)
      → hand_over task rest i s.pool ≡ ok p
      → Inv (record s { pool = p; taken = s.taken ++ task ∷ [] })
  hand_over-Inv s task rest i {p} inv q r =
      subst (λ p. Inv (record s { pool = p; taken = s.taken ++ task ∷ [] }))
        (ok_inj
          (sym (hand_over_open task rest i s.pool (inv.open_ (inv.sends (task ∷ rest) q))) ∙ r))
        (record {
          open_ = inv.open_;
          sends = λ ts x. inv.sends (task ∷ rest) q;
          kept =
              inv.kept
              ∙ ap (λ x. s.taken ++ left_over x) q
              ∙ sym (append_assoc s.taken (task ∷ []) rest);
        })

  pub Step-Inv : {s t : System A} → Step s t → Inv s → Inv t
  Step-Inv {s} (starts q) inv = start-Inv s s.pool.started inv q
  Step-Inv {s} (stops q r) inv = stop-Inv s inv q r
  Step-Inv {s} (executes tasks q r) inv = execute-Inv s tasks inv q r
  Step-Inv {s} (hands_over task rest i q w r) inv = hand_over-Inv s task rest i inv q r
  Step-Inv {s} (returns q) inv = record {
    open_ = inv.open_;
    sends = λ ts x. absurd cc;
    kept = inv.kept ∙ ap (λ x. s.taken ++ left_over x) q;
  }
  Step-Inv {s} (finishes i c task w) inv = record {
    open_ = inv.open_;
    sends = inv.sends;
    kept = inv.kept;
  }
  Step-Inv {s} (leaves i) inv = record { open_ = inv.open_; sends = inv.sends; kept = inv.kept }

  pub Later-Inv : {s t : System A} → Later s t → Inv s → Inv t
  Later-Inv now inv = inv
  Later-Inv (later r st) inv = Step-Inv st (Later-Inv r inv)

  pub init-Inv : (size : ℕ) → Inv (init size)
  init-Inv size = record { open_ = λ q. absurd cc; sends = λ ts q. absurd cc; kept = refl }
