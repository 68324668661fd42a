-- ===== src/Storage/Sync/Write.antt =====
-- storage/providers/sync.go, `Write`: the source is spooled to a temporary file first, which each
-- storage then reads.
pub mod Rounds
pub mod Laws
pub mod Outcomes
use golang_core.Prelude.{ℕ, List, [], ◌∷◌, ◌++◌, Result, ok, err}
use golang_core.Prelude.Exec.{Exec, continue}
use golang_core.Storage.{Storage}
use golang_core.Storage.Sync.{
  Error, no_storages, failed, Action, creating_temp, spooling_source, syncing_spool, closing_spool,
  opening_spool, writing_file, closing_reader, each_anyway,
}

-- The calls of the operating system on the temporary file, with the state of the system in `O` and
-- the source in `F`. `fill` is `io.Copy` from the source, `open` gives the bytes of the file.
pub record Spool (O F : Type 0) : Type 0 where
  pub create : Exec O ℕ (Unit {0})
  pub fill : F → Exec O ℕ (Unit {0})
  pub sync : Exec O ℕ (Unit {0})
  pub close : Exec O ℕ (Unit {0})
  pub open_file : Exec O ℕ (List ℕ)
  pub close_reader : Exec O ℕ (Unit {0})
  pub remove : Exec O ℕ (Unit {0})

-- One of the calls, with its error wrapped.
abbrev pub tried : {O A : Type 0} → Action → Result ℕ A × O → Result Error A × O
tried action (ok a, o) = (ok a, o)
tried action (err e, o) = (err (failed action e), o)

module _ {O F : Type 0} (spool : Spool O F) where
  -- What is done after the temporary file is there, up to the loop. When the copy or the sync fails,
  -- the file is closed, and an error of that is logged only.
  unfoldable pub spooled : F → Exec O Error (Unit {0})
  spooled file o =
      let (copied, o1) = spool.fill file o in
      elim copied [
        | err e ↦ (err (failed spooling_source e), (spool.close o1).1)
        | ok _ ↦
            let (synced, o2) = spool.sync o1 in
            elim synced [
              | err e ↦ (err (failed syncing_spool e), (spool.close o2).1)
              | ok _ ↦ tried closing_spool (spool.close o2)
            ]
      ]

  module _ {S U C : Type 0} (storage : Storage S U C) where
    -- The storages in `written` have the file; `entry` is next.
    unfoldable pub write_rounds :
        List ℕ → List S → List S → O → Result Error (Unit {0}) × (List S × O)
    unfolding each_anyway
    write_rounds path written [] o = (ok tt, (written, o))
    write_rounds path written (entry ∷ rest) o =
        let (opened, o1) = spool.open_file o in
        elim opened [
          | err e ↦ (err (failed opening_spool e), (written ++ entry ∷ rest, o1))
          | ok bytes ↦
              let (wrote, entry') = storage.write path bytes entry in
              let (closed, o2) = spool.close_reader o1 in
              elim wrote [
                | err e ↦ (
                  err (failed writing_file e),
                  (each_anyway (storage.delete_file path) written ++ entry' ∷ rest, o2),
                )
                | ok _ ↦ elim closed [
                  | err e ↦ (
                    err (failed closing_reader e),
                    (
                      each_anyway (storage.delete_file path) written
                          ++ (storage.delete_file path entry').1 ∷ rest,
                      o2,
                    ),
                  )
                  | ok _ ↦ write_rounds path (written ++ entry' ∷ []) rest o2
                ]
              ]
        ]

    abbrev removing :
        Result Error (Unit {0}) × (List S × O) → Result Error (Unit {0}) × (List S × O)
    removing (r, (ss, o)) = (r, (ss, (spool.remove o).1))

    -- The file is removed when the method returns.
    unfoldable pub write : List ℕ → F → Exec (List S × O) Error (Unit {0})
    unfolding spooled write_rounds
    write path file ([], o) = (err no_storages, ([], o))
    write path file (s ∷ ss, o) =
        let (created, o1) = spool.create o in
        elim created [
          | err e ↦ (err (failed creating_temp e), (s ∷ ss, o1))
          | ok _ ↦
              let (ready, o2) = spooled file o1 in
              elim ready [
                | err e ↦ removing (err e, (s ∷ ss, o2))
                | ok _ ↦ removing (write_rounds path [] (s ∷ ss) o2)
              ]
        ]
