-- ===== src/Storage/Sync/Write/Outcomes.antt =====
-- storage/providers/sync.go, `Write`: how each way to end leaves the storages.
use golang_core.Prelude.{
  ℕ, ◌≡◌, refl, sym, ap, ◌∙◌, some, List, [], ◌∷◌, ◌++◌, append_assoc, append-nil, Result, ok, err,
  All2, All2-append, Result-cases, inl, inr, subst,
}
use golang_core.Storage.{Storage}
use golang_core.Storage.Sync.{
  Error, failed, no_storages, creating_temp, opening_spool, writing_file, closing_reader,
  each_anyway, spooling_source, syncing_spool, closing_spool, Action,
}
use golang_core.Storage.Sync.Laws.{Promises, RolledBack, err_ok, each_anyway-gone}
use golang_core.Storage.Sync.Write.{Spool, spooled, write_rounds, write}
use golang_core.Storage.Sync.Write.Rounds.{
  closed, stored, not_opened, not_written, not_closed, goes_on, Round-cases,
}
use golang_core.Storage.Sync.Write.Laws.{Keeps, closed-keeps, spooled-content}

-- The steps in front of the loop.
abbrev pub IsEarly : Action → Type 0
IsEarly creating_temp = Unit
IsEarly spooling_source = Unit
IsEarly syncing_spool = Unit
IsEarly closing_spool = Unit
IsEarly _ = ⊥

abbrev pub IsRolledBack : Action → Type 0
IsRolledBack writing_file = Unit
IsRolledBack closing_reader = Unit
IsRolledBack _ = ⊥

module _ {S U C : Type 0} (storage : Storage S U C) (d : Promises storage)
    (path bytes : List ℕ) where
  abbrev pub Now : List S → List S → Type 0
  Now = All2 (λ s s'. d.content s' path ≡ some bytes)

  -- The outcome of `Write` and the storages after it, for those before it.
  pub data Settled : List S → Result Error (Unit {0}) → List S → Type 0 where
    -- Every storage has the file.
    succeeded : {before after : List S} → Now before after → Settled before (ok tt) after
    no_storage : Settled [] (err no_storages) []
    -- No storage was called.
    untouched :
        {before : List S} (action : Action) (e : ℕ)
        → IsEarly action
        → Settled before (err (failed action e)) before
    -- The files that were written are deleted again.
    rolled_back :
        {before after : List S} (action : Action) (e : ℕ)
        → IsRolledBack action
        → RolledBack storage d path path before after
        → Settled before (err (failed action e)) after
    -- The temporary file could not be opened: the storages before that one keep the file.
    left_behind :
        (olds done rest : List S) (e : ℕ)
        → Now olds done
        → Settled (olds ++ rest) (err (failed opening_spool e)) (done ++ rest)

module _ {S U C O F : Type 0} (spool : Spool O F) (storage : Storage S U C) (path : List ℕ)
    (d : Promises storage) (k : Keeps spool)
    (deletes : (s : S) → (storage.delete_file path s).0 ≡ ok tt) (file : F) where
  rounds-Settled :
      (rest ss written : List S) (o : O)
      → k.content o ≡ k.source file
      → Now storage d path (k.source file) ss written
      → Settled storage d path
          (k.source file)
          (ss ++ rest)
          (write_rounds spool storage path written rest o).0
          (write_rounds spool storage path written rest o).1.0
  unfolding write_rounds
  rounds-Settled [] ss written o v h =
      succeeded
        (subst (λ xs. Now storage d path (k.source file) xs written) (sym (append-nil ss)) h)
  rounds-Settled (entry ∷ rest) ss written o v h =
      elim (Round-cases spool storage path entry rest written o)
        as (λ r x. Settled storage d path (k.source file) (ss ++ entry ∷ rest) r.0 r.1.0) [
          | not_opened e q ↦ left_behind ss written (entry ∷ rest) e h
          | not_written bytes e q w ↦ rolled_back writing_file e tt (record {
            olds = ss;
            old = entry;
            rest = rest;
            gone = each_anyway (storage.delete_file path) written;
            entry = stored spool storage path bytes entry;
            was = refl;
            is = refl;
            deleted = each_anyway-gone storage d path path ss written _ deletes h;
          })
          | not_closed bytes e q w ↦ rolled_back closing_reader e tt (record {
            olds = ss;
            old = entry;
            rest = rest;
            gone = each_anyway (storage.delete_file path) written;
            entry = (storage.delete_file path (stored spool storage path bytes entry)).1;
            was = refl;
            is = refl;
            deleted = each_anyway-gone storage d path path ss written _ deletes h;
          })
          | goes_on bytes q w ↦
              subst
                (λ xs.
                  Settled storage d path (k.source file) xs
                    (write_rounds spool storage path
                      (written ++ stored spool storage path bytes entry ∷ []) rest
                      (closed spool storage path o)).0
                    (write_rounds spool storage path
                      (written ++ stored spool storage path bytes entry ∷ []) rest
                      (closed spool storage path o)).1.0)
                (append_assoc ss (entry ∷ []) rest)
                (rounds-Settled rest (ss ++ entry ∷ [])
                  (written ++ stored spool storage path bytes entry ∷ [])
                  (closed spool storage path o) (closed-keeps spool storage path d k file o v)
                  (All2-append _ ss (entry ∷ []) written _ h (
                    d.write-ok path bytes entry w ∙ ap some (k.open_file-reads o bytes q ∙ v),
                    tt,
                  )))
        ]

  early-Settled :
      (ss : List S) (o : O) {e : Error}
      → (spooled spool file o).0 ≡ err e
      → Settled storage d path (k.source file) ss (err e) ss
  unfolding spooled
  early-Settled ss o {e} = elim (Result-cases (spool.fill file o).0) [
    | inr (n, q) ↦ rw (q, spooled) (early spooling_source n tt)
    | inl (a, q) ↦ elim (Result-cases (spool.sync (spool.fill file o).1).0) [
      | inr (n, w) ↦ rw (q, spooled, w) (early syncing_spool n tt)
      | inl (b, w) ↦ elim (Result-cases (spool.close (spool.sync (spool.fill file o).1).1).0) [
        | inr (n, c) ↦ rw (q, spooled, w, c) (early closing_spool n tt)
        | inl (a, c) ↦ rw (q, spooled, w, c) λ u. absurd (err_ok (sym u))
      ]
    ]
  ]
    where
      early :
          (action : Action) (n : ℕ)
          → IsEarly action
          → Path (Result Error (Unit {0})) (err (failed action n)) (err e)
          → Settled storage d path (k.source file) ss (err e) ss
      early action n v u =
          subst (λ r. Settled storage d path (k.source file) ss r ss) u (untouched action n v)

  -- Every way for `Write` to end, if the storages and the temporary file keep their promises and
  -- deletions succeed: every storage has the source's bytes; or no storage was called; or the files
  -- that were written before a write or a close that failed are deleted again; or, when the temporary
  -- file cannot be opened, the storages before that one keep the file.
  pub write-Settled :
      (ss : List S) (o : O)
      → Settled storage d path
          (k.source file)
          ss
          (write spool storage path file (ss, o)).0
          (write spool storage path file (ss, o)).1.0
  unfolding write
  write-Settled [] o = no_storage
  write-Settled (s ∷ ss) o = elim (Result-cases (spool.create o).0) [
    | inr (e, q) ↦ rw (q, write) (untouched creating_temp e tt)
    | inl (a, q) ↦ elim (Result-cases (spooled spool file (spool.create o).1).0) [
      | inr (e, w) ↦ rw (q, write, w) (early-Settled (s ∷ ss) (spool.create o).1 w)
      | inl (b, w) ↦
          rw (q, write, w)
            (rounds-Settled (s ∷ ss) [] [] _ (spooled-content spool storage path d k file _ w) tt)
    ]
  ]
