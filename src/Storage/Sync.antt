-- ===== src/Storage/Sync.antt =====
-- storage/providers/sync.go: `SyncImpl`, the same files in several storages. The states of the storages
-- stand in a list, in their order. Logging changes nothing and is left out.
pub mod Write
pub mod Multipart
pub mod Laws
pub mod Moves
mod Tests
use golang_core.Prelude.{
  ℕ, Bool, true, false, List, [], ◌∷◌, ◌++◌, Result, ok, err, if◌then◌else◌, text_discrete, ite,
}
use golang_core.Prelude.Exec.{Exec, continue, ◌>>=◌, ◌>>◌}
use golang_core.Storage.{Storage}

-- What an error says was tried: each value is one of the messages.
pub data Action : Type 0 where
  checking_file deleting_file deleting_dir creating_dir writing_file closing_storage : Action
  creating_temp spooling_source syncing_spool closing_spool opening_spool closing_reader : Action
  copying_file deleting_source creating_multipart uploading_chunk completing_multipart
        aborting_multipart :
      Action
  reading_file : Action

-- `ErrStorageFailed` with what it wraps.
pub data Error : Type 0 where
  no_storages : Error
  failed : Action → ℕ → Error
  all_failed : Action → List ℕ → Error
  wrong_upload : Error
  wrong_chunk : Error
  -- the panic of an index
  out_of_range : Error

module _ {S : Type 0} where
  -- The loop that calls each storage and returns at the first error.
  unfoldable pub each : Action → Exec S ℕ (Unit {0}) → Exec (List S) Error (Unit {0})
  each action call [] = (ok tt, [])
  each action call (s ∷ ss) =
      let (r, s') = call s in
      let (rest, ss') = each action call ss in
      elim r [ err e ↦ (err (failed action e), s' ∷ ss) | ok _ ↦ (rest, s' ∷ ss') ]

  -- The loop that goes on after an error, as a rollback does.
  unfoldable pub each_anyway : Exec S ℕ (Unit {0}) → List S → List S
  each_anyway call [] = []
  each_anyway call (s ∷ ss) = (call s).1 ∷ each_anyway call ss

module _ {S U C : Type 0} (storage : Storage S U C) where
  exists_rounds : List ℕ → Exec (List S) Error Bool
  exists_rounds path [] = (ok true, [])
  exists_rounds path (s ∷ ss) =
      let (found, s') = storage.file_exists path s in
      let (rest, ss') = exists_rounds path ss in
      elim found [
        | err e ↦ (err (failed checking_file e), s' ∷ ss)
        | ok there ↦ if there then (rest, s' ∷ ss') else (ok false, s' ∷ ss)
      ]

  unfoldable pub file_exists : List ℕ → Exec (List S) Error Bool
  unfolding exists_rounds
  file_exists path [] = (err no_storages, [])
  file_exists path (s ∷ ss) = exists_rounds path (s ∷ ss)

  unfoldable pub delete_file : List ℕ → Exec (List S) Error (Unit {0})
  unfolding each
  delete_file path = each deleting_file (storage.delete_file path)

  unfoldable pub delete_dir : List ℕ → Exec (List S) Error (Unit {0})
  unfolding each
  delete_dir path = each deleting_dir (storage.delete_dir path)

  unfoldable pub mk_dir : List ℕ → Exec (List S) Error (Unit {0})
  unfolding each
  mk_dir path = each creating_dir (storage.mk_dir path)

  unfoldable pub close : Exec (List S) Error (Unit {0})
  unfolding each
  close = each closing_storage storage.close

  -- `errs` holds the errors so far.
  read_rounds : List ℕ → List ℕ → Exec (List S) Error (List ℕ)
  read_rounds path errs [] = (err (all_failed reading_file errs), [])
  read_rounds path errs (s ∷ ss) =
      let (r, s') = storage.read_file path s in
      elim r [
        | ok bytes ↦ (ok bytes, s' ∷ ss)
        | err e ↦ let (rest, ss') = read_rounds path (errs ++ e ∷ []) ss in (rest, s' ∷ ss')
      ]

  unfoldable pub read_file : List ℕ → Exec (List S) Error (List ℕ)
  unfolding read_rounds
  read_file path [] = (err no_storages, [])
  read_file path (s ∷ ss) = read_rounds path [] (s ∷ ss)

  -- The storages in `copied` have the copy; `entry` is next.
  copy_rounds : List ℕ → List ℕ → List S → Exec (List S) Error (Unit {0})
  unfolding each_anyway
  copy_rounds src_path dst_path copied [] = (ok tt, copied)
  copy_rounds src_path dst_path copied (entry ∷ rest) =
      let (r, entry') = storage.copy src_path dst_path entry in
      elim r [
        | ok _ ↦ copy_rounds src_path dst_path (copied ++ entry' ∷ []) rest
        | err e ↦ (
          err (failed copying_file e),
          each_anyway (storage.delete_file dst_path) copied ++ entry' ∷ rest,
        )
      ]

  unfoldable pub copy : List ℕ → List ℕ → Exec (List S) Error (Unit {0})
  unfolding copy_rounds
  copy src_path dst_path [] = (err no_storages, [])
  copy src_path dst_path (s ∷ ss) = copy_rounds src_path dst_path [] (s ∷ ss)

  unfoldable pub move : List ℕ → List ℕ → Exec (List S) Error (Unit {0})
  unfolding each
  move src_path dst_path ss =
      ite (text_discrete src_path dst_path) (ok tt, ss)
        (continue (copy src_path dst_path ss)
          λ _. each deleting_source (storage.delete_file src_path))
