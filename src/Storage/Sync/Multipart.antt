-- ===== src/Storage/Sync/Multipart.antt =====
-- storage/providers/sync.go: multipart uploads in several storages. An upload or a chunk that comes from
-- elsewhere is `foreign`.
pub mod Lengths
use golang_core.Prelude.{
  ℕ, zero, suc, Option, none, some, List, [], ◌∷◌, ◌++◌, Result, ok, err, length, get_elem?,
  if◌then◌else◌, ◌==◌, Bool, true, false,
}
use golang_core.Prelude.Exec.{Exec, continue}
use golang_core.Storage.{Storage}
use golang_core.Storage.Sync.{
  Error, no_storages, failed, all_failed, wrong_upload, wrong_chunk, out_of_range,
  creating_multipart, uploading_chunk, completing_multipart, aborting_multipart, creating_temp,
  opening_spool, closing_reader,
}
use golang_core.Storage.Sync.Write.{Spool, spooled}

pub data Upload (U : Type 0) : Type 0 where
  sync_upload : List U → Upload U
  foreign : Upload U

pub data Chunk (C : Type 0) : Type 0 where
  sync_chunk : ℕ → List C → Chunk C
  foreign : ℕ → Chunk C

-- `castUpload`, for `num` storages
unfoldable pub cast_upload : {U : Type 0} → ℕ → Upload U → Result Error (List U)
cast_upload num foreign = err wrong_upload
cast_upload num (sync_upload uploads) =
    if length uploads == num then ok uploads else err wrong_upload

module _ {S U C : Type 0} (storage : Storage S U C) where
  -- The rollback of `CreateMultipartUpload`: each storage aborts its own upload.
  unfoldable pub abort_each : List ℕ → List S → List U → List S
  abort_each path [] uploads = []
  abort_each path (s ∷ ss) [] = s ∷ ss
  abort_each path (s ∷ ss) (u ∷ us) =
      (storage.abort_multipart_upload path u s).1 ∷ abort_each path ss us

  unfoldable pub create_rounds :
      List ℕ → List U → List S → List S → Result Error (Upload U) × List S
  unfolding abort_each
  create_rounds path uploads created [] = (ok (sync_upload uploads), created)
  create_rounds path uploads created (entry ∷ rest) =
      let (r, entry') = storage.create_multipart_upload path entry in
      elim r [
        | err e ↦
            (err (failed creating_multipart e), abort_each path created uploads ++ entry' ∷ rest)
        | ok upload ↦ create_rounds path (uploads ++ upload ∷ []) (created ++ entry' ∷ []) rest
      ]

  unfoldable pub create_multipart_upload : List ℕ → Exec (List S) Error (Upload U)
  unfolding create_rounds
  create_multipart_upload path [] = (err no_storages, [])
  create_multipart_upload path (s ∷ ss) = create_rounds path [] [] (s ∷ ss)

  module _ {O F : Type 0} (spool : Spool O F) where
    -- The loop over the storages, with the uploads of those that are left.
    unfoldable pub upload_rounds :
        List ℕ → ℕ → List C → List U → List S → List S → O → Result Error (Chunk C) × (List S × O)
    upload_rounds path number chunks uploads done [] o = (ok (sync_chunk number chunks), (done, o))
    upload_rounds path number chunks [] done (entry ∷ rest) o =
        (err out_of_range, (done ++ entry ∷ rest, o))
    upload_rounds path number chunks (upload ∷ uploads) done (entry ∷ rest) o =
        let (opened, o1) = spool.open_file o in
        elim opened [
          | err e ↦ (err (failed opening_spool e), (done ++ entry ∷ rest, o1))
          | ok body ↦
              let (sent, entry') = storage.upload_multipart_chunk path upload number body entry in
              let (closed, o2) = spool.close_reader o1 in
              elim sent [
                | err e ↦ (err (failed uploading_chunk e), (done ++ entry' ∷ rest, o2))
                | ok chunk ↦ elim closed [
                  | err e ↦ (err (failed closing_reader e), (done ++ entry' ∷ rest, o2))
                  | ok _ ↦
                      upload_rounds path number (chunks ++ chunk ∷ []) uploads (done ++ entry' ∷ [])
                        rest o2
                ]
              ]
        ]

    abbrev removing : {A : Type 0} → A × (List S × O) → A × (List S × O)
    removing (r, (ss, o)) = (r, (ss, (spool.remove o).1))

    upload_spooled : List ℕ → ℕ → F → List U → List S → O → Result Error (Chunk C) × (List S × O)
    unfolding spooled upload_rounds
    upload_spooled path number body uploads ss o =
        let (created, o1) = spool.create o in
        elim created [
          | err e ↦ (err (failed creating_temp e), (ss, o1))
          | ok _ ↦
              let (ready, o2) = spooled spool body o1 in
              elim ready [
                | err e ↦ removing (err e, (ss, o2))
                | ok _ ↦ removing (upload_rounds path number [] uploads [] ss o2)
              ]
        ]

    unfoldable pub upload_multipart_chunk :
        List ℕ → Upload U → ℕ → F → Exec (List S × O) Error (Chunk C)
    unfolding upload_spooled cast_upload
    upload_multipart_chunk path upload number body ([], o) = (err no_storages, ([], o))
    upload_multipart_chunk path upload number body (s ∷ ss, o) =
        elim (cast_upload (length (s ∷ ss)) upload) [
          | err e ↦ (err e, (s ∷ ss, o))
          | ok uploads ↦ upload_spooled path number body uploads (s ∷ ss) o
        ]

  -- What storage `i` of `num` is told of the chunks.
  unfoldable pub child_chunks : ℕ → ℕ → List (Chunk C) → Result Error (List C)
  child_chunks num i [] = ok []
  child_chunks num i (foreign number ∷ chunks) = err wrong_chunk
  child_chunks num i (sync_chunk number parts ∷ chunks) =
      let rest = child_chunks num i chunks in
      if length parts == num
      then elim (get_elem? parts i) [
        | none ↦ err out_of_range
        | some part ↦ elim rest [ err e ↦ err e | ok ps ↦ ok (part ∷ ps) ]
      ]
      else err wrong_chunk

  unfoldable pub complete_rounds :
      List ℕ → ℕ → List (Chunk C) → ℕ → List U → Exec (List S) Error (Unit {0})
  unfolding child_chunks
  complete_rounds path num chunks i uploads [] = (ok tt, [])
  complete_rounds path num chunks i [] (entry ∷ rest) = (err out_of_range, entry ∷ rest)
  complete_rounds path num chunks i (upload ∷ uploads) (entry ∷ rest) =
      let (r', rest') = complete_rounds path num chunks (suc i) uploads rest in
      elim (child_chunks num i chunks) [
        | err e ↦ (err e, entry ∷ rest)
        | ok parts ↦
            let (r, entry') = storage.complete_multipart_upload path upload parts entry in
            elim r [
              | err e ↦ (err (failed completing_multipart e), entry' ∷ rest)
              | ok _ ↦ (r', entry' ∷ rest')
            ]
      ]

  unfoldable pub complete_multipart_upload :
      List ℕ → Upload U → List (Chunk C) → Exec (List S) Error (Unit {0})
  unfolding complete_rounds cast_upload
  complete_multipart_upload path upload chunks ss = elim (cast_upload (length ss) upload) [
    | err e ↦ (err e, ss)
    | ok uploads ↦ complete_rounds path (length ss) chunks 0 uploads ss
  ]

  -- The errors of the storages, and the storages after they have all been called.
  unfoldable pub abort_rounds : List ℕ → List U → List S → Result Error (List ℕ) × List S
  abort_rounds path uploads [] = (ok [], [])
  abort_rounds path [] (s ∷ ss) = (err out_of_range, s ∷ ss)
  abort_rounds path (u ∷ us) (s ∷ ss) =
      let (r, s') = storage.abort_multipart_upload path u s in
      let (rest, ss') = abort_rounds path us ss in
      elim r [
        | ok _ ↦ (rest, s' ∷ ss')
        | err e ↦ (elim rest [ err x ↦ err x | ok es ↦ ok (e ∷ es) ], s' ∷ ss')
      ]

  abbrev aborted : Result Error (List ℕ) → Result Error (Unit {0})
  aborted (ok []) = ok tt
  aborted (ok (e ∷ es)) = err (all_failed aborting_multipart (e ∷ es))
  aborted (err x) = err x

  unfoldable pub abort_multipart_upload : List ℕ → Upload U → Exec (List S) Error (Unit {0})
  unfolding abort_rounds cast_upload
  abort_multipart_upload path upload ss = elim (cast_upload (length ss) upload) [
    | err e ↦ (err e, ss)
    | ok uploads ↦ let (r, ss') = abort_rounds path uploads ss in (aborted r, ss')
  ]
