-- ===== src/Storage/Sync/Write/Rounds.antt =====
-- storage/providers/sync.go: the rounds of the loop of `Write`.
use golang_core.Prelude.{
  ℕ, ◌≡◌, refl, sym, List, [], ◌∷◌, ◌++◌, Result, ok, err, Result-cases, inl, inr, subst,
}
use golang_core.Storage.{Storage}
use golang_core.Storage.Sync.{
  Error, failed, opening_spool, writing_file, closing_reader, each_anyway,
}
use golang_core.Storage.Sync.Write.{Spool, write_rounds}

module _ {S U C O F : Type 0} (spool : Spool O F) (storage : Storage S U C) (path : List ℕ) where
  abbrev pub Outcome : Type 0
  Outcome = Result Error (Unit {0}) × (List S × O)

  -- The system after the file is opened and after the reader is closed, and the storage after the write.
  abbrev pub opened : O → O
  opened o = (spool.open_file o).1

  abbrev pub closed : O → O
  closed o = (spool.close_reader (opened o)).1

  abbrev pub stored : List ℕ → S → S
  stored bytes s = (storage.write path bytes s).1

  -- The four ways in which a round ends.
  pub data Round (entry : S) (rest written : List S) (o : O) : Outcome → Type 0 where
    not_opened :
        (e : ℕ)
        → (spool.open_file o).0 ≡ err e
        → Round entry rest written o
            (err (failed opening_spool e), (written ++ entry ∷ rest, opened o))
    not_written :
        (bytes : List ℕ) (e : ℕ)
        → (spool.open_file o).0 ≡ ok bytes
        → (storage.write path bytes entry).0 ≡ err e
        → Round entry rest written o (
          err (failed writing_file e),
          (each_anyway (storage.delete_file path) written ++ stored bytes entry ∷ rest, closed o),
        )
    not_closed :
        (bytes : List ℕ) (e : ℕ)
        → (spool.open_file o).0 ≡ ok bytes
        → (storage.write path bytes entry).0 ≡ ok tt
        → Round entry rest written o (
          err (failed closing_reader e),
          (
            each_anyway (storage.delete_file path) written
                ++ (storage.delete_file path (stored bytes entry)).1 ∷ rest,
            closed o,
          ),
        )
    goes_on :
        (bytes : List ℕ)
        → (spool.open_file o).0 ≡ ok bytes
        → (storage.write path bytes entry).0 ≡ ok tt
        → Round entry rest written o
            (write_rounds spool storage path (written ++ stored bytes entry ∷ []) rest (closed o))

  module _ (entry : S) (rest written : List S) (o : O) where
    rounds_not_opened :
        (e : ℕ)
        → (spool.open_file o).0 ≡ err e
        → write_rounds spool storage path written (entry ∷ rest) o
          ≡ (err (failed opening_spool e), (written ++ entry ∷ rest, opened o))
    unfolding write_rounds
    rounds_not_opened e q = rw (q, write_rounds) refl

    rounds_not_written :
        (bytes : List ℕ) (e : ℕ)
        → (spool.open_file o).0 ≡ ok bytes
        → (storage.write path bytes entry).0 ≡ err e
        → write_rounds spool storage path written (entry ∷ rest) o ≡ (
          err (failed writing_file e),
          (each_anyway (storage.delete_file path) written ++ stored bytes entry ∷ rest, closed o),
        )
    unfolding write_rounds
    rounds_not_written bytes e q w = rw (q, write_rounds, w) refl

    rounds_not_closed :
        (bytes : List ℕ) (e : ℕ)
        → (spool.open_file o).0 ≡ ok bytes
        → (storage.write path bytes entry).0 ≡ ok tt
        → (spool.close_reader (opened o)).0 ≡ err e
        → write_rounds spool storage path written (entry ∷ rest) o ≡ (
          err (failed closing_reader e),
          (
            each_anyway (storage.delete_file path) written
                ++ (storage.delete_file path (stored bytes entry)).1 ∷ rest,
            closed o,
          ),
        )
    unfolding write_rounds
    rounds_not_closed bytes e q w c = rw (q, write_rounds, w, c) refl

    rounds_go_on :
        (bytes : List ℕ)
        → (spool.open_file o).0 ≡ ok bytes
        → (storage.write path bytes entry).0 ≡ ok tt
        → (spool.close_reader (opened o)).0 ≡ ok tt
        → write_rounds spool storage path written (entry ∷ rest) o
          ≡ write_rounds spool storage path (written ++ stored bytes entry ∷ []) rest (closed o)
    unfolding write_rounds
    rounds_go_on bytes q w c = rw (q, write_rounds, w, c) refl

    pub Round-cases :
        Round entry rest written o (write_rounds spool storage path written (entry ∷ rest) o)
    Round-cases = elim (Result-cases (spool.open_file o).0) [
      | inr (e, q) ↦
          subst (Round entry rest written o) (sym (rounds_not_opened e q)) (not_opened e q)
      | inl (bytes, q) ↦ elim (Result-cases (storage.write path bytes entry).0) [
        | inr (e, w) ↦
            subst (Round entry rest written o) (sym (rounds_not_written bytes e q w))
              (not_written bytes e q w)
        | inl (a, w) ↦ elim (Result-cases (spool.close_reader (opened o)).0) [
          | inr (e, c) ↦
              subst (Round entry rest written o) (sym (rounds_not_closed bytes e q w c))
                (not_closed bytes e q w)
          | inl (b, c) ↦
              subst (Round entry rest written o) (sym (rounds_go_on bytes q w c))
                (goes_on bytes q w)
        ]
      ]
    ]
