-- ===== src/Storage/Sync/Write/Laws.antt =====
-- storage/providers/sync.go: what the storages hold after `Write`.
use golang_core.Prelude.{
  ℕ, ◌≡◌, ◌≢◌, refl, sym, ap, ◌∙◌, some, List, [], ◌∷◌, ◌++◌, append_assoc, append-nil, ok, All,
  All-append, All2-append, All2-self, Result-cases, inl, inr, subst,
}
use golang_core.Storage.{Storage}
use golang_core.Storage.Sync.Laws.{Promises, Agree, each_anyway-Agree, err_ok}
use golang_core.Storage.Sync.Write.Rounds.{
  opened, closed, stored, not_opened, not_written, not_closed, goes_on, Round-cases,
}
use golang_core.Storage.Sync.Write.{Spool, spooled, write_rounds, write}

-- What the operating system promises: `content` is what the temporary file holds, and `source` what a
-- source gives until it ends.
pub record Keeps {O F : Type 0} (spool : Spool O F) : Type 0 where
  pub content : O → List ℕ
  pub source : F → List ℕ
  pub fill-ok :
      (file : F) (o : O)
      → (spool.fill file o).0 ≡ ok tt
      → content (spool.fill file o).1 ≡ source file
  pub sync-keeps : (o : O) → content (spool.sync o).1 ≡ content o
  pub close-keeps : (o : O) → content (spool.close o).1 ≡ content o
  pub open_file-keeps : (o : O) → content (spool.open_file o).1 ≡ content o
  pub open_file-reads : (o : O) (b : List ℕ) → (spool.open_file o).0 ≡ ok b → b ≡ content o
  pub close_reader-keeps : (o : O) → content (spool.close_reader o).1 ≡ content o

module _ {S U C O F : Type 0} (spool : Spool O F) (storage : Storage S U C) (path : List ℕ)
    (d : Promises storage) (k : Keeps spool) where
  pub closed-keeps :
      (file : F) (o : O)
      → k.content o ≡ k.source file
      → k.content (closed spool storage path o) ≡ k.source file
  closed-keeps file o v =
      k.close_reader-keeps (opened spool storage path o) ∙ k.open_file-keeps o ∙ v

  rounds-Agree :
      (p : List ℕ)
      → p ≢ path
      → (rest ss written : List S) (o : O) → Agree storage d p ss written
      → Agree storage d p (ss ++ rest) (write_rounds spool storage path written rest o).1.0
  unfolding write_rounds
  rounds-Agree p n [] ss written o h =
      subst (λ xs. Agree storage d p xs written) (sym (append-nil ss)) h
  rounds-Agree p n (entry ∷ rest) ss written o h =
      elim (Round-cases spool storage path entry rest written o)
        as (λ r x. Agree storage d p (ss ++ entry ∷ rest) r.1.0) [
          | not_opened e q ↦
              All2-append _ ss (entry ∷ rest) written (entry ∷ rest) h
                (All2-self _ (λ s. refl) (entry ∷ rest))
          | not_written bytes e q w ↦
              All2-append _ ss (entry ∷ rest) _ (stored spool storage path bytes entry ∷ rest)
                (each_anyway-Agree storage d path p ss written n h)
                (d.write-other path bytes p entry n, All2-self _ (λ s. refl) rest)
          | not_closed bytes e q w ↦
              All2-append _ ss (entry ∷ rest) _
                ((storage.delete_file path (stored spool storage path bytes entry)).1 ∷ rest)
                (each_anyway-Agree storage d path p ss written n h)
                (
                  d.delete_file-other path p (stored spool storage path bytes entry) n
                      ∙ d.write-other path bytes p entry n,
                  All2-self _ (λ s. refl) rest,
                )
          | goes_on bytes q w ↦
              subst
                (λ xs.
                  Agree storage d p xs
                    (write_rounds spool storage path
                      (written ++ stored spool storage path bytes entry ∷ []) rest
                      (closed spool storage path o)).1.0)
                (append_assoc ss (entry ∷ []) rest)
                (rounds-Agree p n rest (ss ++ entry ∷ [])
                  (written ++ stored spool storage path bytes entry ∷ [])
                  (closed spool storage path o)
                  (All2-append _ ss (entry ∷ []) written
                    (stored spool storage path bytes entry ∷ []) h
                    (d.write-other path bytes p entry n, tt)))
        ]

  -- A predicate of a storage's file at the path, that every write establishes.
  abbrev pub Has : List ℕ → List S → Type 0
  Has bytes = All (λ s. d.content s path ≡ some bytes)

  rounds-Has :
      (file : F) (rest written : List S) (o : O)
      → k.content o ≡ k.source file
      → Has (k.source file) written
      → (write_rounds spool storage path written rest o).0 ≡ ok tt
      → Has (k.source file) (write_rounds spool storage path written rest o).1.0
  unfolding write_rounds
  rounds-Has file [] written o v h = λ u. h
  rounds-Has file (entry ∷ rest) written o v h =
      elim (Round-cases spool storage path entry rest written o)
        as (λ r x. r.0 ≡ ok tt → Has (k.source file) r.1.0) [
          | not_opened e q ↦ λ u. absurd (err_ok u)
          | not_written b e q w ↦ λ u. absurd (err_ok u)
          | not_closed b e q w ↦ λ u. absurd (err_ok u)
          | goes_on b q w ↦ λ u.
              rounds-Has file rest (written ++ stored spool storage path b entry ∷ [])
                (closed spool storage path o) (closed-keeps file o v)
                (All-append _ written (stored spool storage path b entry ∷ []) h
                  (d.write-ok path b entry w ∙ ap some (k.open_file-reads o b q ∙ v), tt))
                u
        ]

  pub spooled-content :
      (file : F) (o : O)
      → (spooled spool file o).0 ≡ ok tt
      → k.content (spooled spool file o).1 ≡ k.source file
  unfolding spooled
  spooled-content file o = elim (Result-cases (spool.fill file o).0) [
    | inr (e, q) ↦ rw (q, spooled) λ u. absurd (err_ok u)
    | inl (a, q) ↦ elim (Result-cases (spool.sync (spool.fill file o).1).0) [
      | inr (e, w) ↦ rw (q, spooled, w) λ u. absurd (err_ok u)
      | inl (b, w) ↦ elim (Result-cases (spool.close (spool.sync (spool.fill file o).1).1).0) [
        | inr (e, c) ↦ rw (q, spooled, w, c) λ u. absurd (err_ok u)
        | inl (a, c) ↦
            rw (q, spooled, w, c) λ u. k.close-keeps _ ∙ k.sync-keeps _ ∙ k.fill-ok file o q
      ]
    ]
  ]

  -- Whatever `Write` returns, every storage holds the files at other paths as before, if the storages keep
  -- their promises and the operating system's calls on the temporary file do what the record Keeps says.
  pub write-Agree :
      (p : List ℕ) (file : F) (ss : List S) (o : O)
      → p ≢ path
      → Agree storage d p ss (write spool storage path file (ss, o)).1.0
  unfolding write
  write-Agree p file [] o n = tt
  write-Agree p file (s ∷ ss) o n = elim (Result-cases (spool.create o).0) [
    | inr (e, q) ↦ rw (q, write) (All2-self _ (λ s. refl) (s ∷ ss))
    | inl (a, q) ↦ elim (Result-cases (spooled spool file (spool.create o).1).0) [
      | inr (e, w) ↦ rw (q, write, w) (All2-self _ (λ s. refl) (s ∷ ss))
      | inl (b, w) ↦ rw (q, write, w) (rounds-Agree p n (s ∷ ss) [] [] _ tt)
    ]
  ]

  -- When `Write` succeeds, every storage holds the bytes of the source at the path.
  pub write-Has :
      (file : F) (ss : List S) (o : O)
      → (write spool storage path file (ss, o)).0 ≡ ok tt
      → Has (k.source file) (write spool storage path file (ss, o)).1.0
  unfolding write
  write-Has file [] o = λ u. absurd (err_ok u)
  write-Has file (s ∷ ss) o = elim (Result-cases (spool.create o).0) [
    | inr (e, q) ↦ rw (q, write) λ u. absurd (err_ok u)
    | inl (a, q) ↦ elim (Result-cases (spooled spool file (spool.create o).1).0) [
      | inr (e, w) ↦ rw (q, write, w) λ u. absurd (err_ok u)
      | inl (b, w) ↦ rw (q, write, w) (rounds-Has file (s ∷ ss) [] _ (spooled-content file _ w) tt)
    ]
  ]
