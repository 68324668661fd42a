-- ===== src/Storage/Sync/Multipart/Lengths.antt =====
-- storage/providers/sync.go: the slices of multipart uploads are never indexed out of range.
use golang_core.Prelude.{
  ℕ, suc, ◌+◌, ◌<◌, ◌≡◌, refl, List, [], ◌∷◌, ◌++◌, Result, ok, err, length, length-append,
  get_elem?_lt, arith, Bool-cases, Result-cases, inl, inr, ◌==◌, subst,
}
use golang_core.Storage.{Storage}
use golang_core.Storage.Sync.{Error, out_of_range}
use golang_core.Storage.Sync.Multipart.{
  Upload, sync_upload, Upload, Chunk, sync_chunk, cast_upload, create_rounds,
  create_multipart_upload, child_chunks, complete_rounds, complete_multipart_upload,
}

-- The code has not panicked.
abbrev IsKnown : Error → Type 0
IsKnown out_of_range = ⊥
IsKnown e = Unit

abbrev pub InRange : {A : Type 0} → Result Error A → Type 0
InRange (ok a) = Unit
InRange (err e) = IsKnown e

cast_upload-Length :
    {U : Type 0} (num : ℕ) (u : Upload U) {us : List U}
    → cast_upload num u ≡ ok us
    → length us ≡ num
unfolding cast_upload
cast_upload-Length num u h = ground arith

cast_upload-InRange : {U : Type 0} (num : ℕ) (u : Upload U) → InRange (cast_upload num u)
unfolding cast_upload
cast_upload-InRange num Upload.foreign = tt
cast_upload-InRange num (sync_upload us) = elim (Bool-cases (length us == num)) [
  | inl y ↦ rw (y, InRange) tt
  | inr n ↦ rw (n, InRange) tt
]

InRange-err : {A : Type 0} (r : Result Error A) {e : Error} → InRange r → r ≡ err e → IsKnown e
InRange-err r v h = subst InRange h v

module _ {S U C : Type 0} (storage : Storage S U C) where
  child_chunks-InRange :
      (num i : ℕ) (chunks : List (Chunk C)) → i < num → InRange (child_chunks storage num i chunks)
  unfolding child_chunks
  child_chunks-InRange num i [] h = tt
  child_chunks-InRange num i (Chunk.foreign n ∷ chunks) h = tt
  child_chunks-InRange num i (sync_chunk n parts ∷ chunks) h =
      elim (Bool-cases (length parts == num)) [
        | inl y ↦
            let (part, there) = get_elem?_lt parts i (ground (arith, y, h)) in
            elim (Result-cases (child_chunks storage num i chunks)) [
              | inl (ps, q) ↦ rw (y, there, q, InRange) tt
              | inr (e, q) ↦
                  rw (y, there, q, InRange) (InRange-err _ (child_chunks-InRange num i chunks h) q)
            ]
        | inr m ↦ rw (m, InRange) tt
      ]

  complete_rounds-InRange :
      (path : List ℕ) (num : ℕ) (chunks : List (Chunk C)) (ss : List S) (us : List U) (i : ℕ)
      → length us ≡ length ss
      → i + length ss ≡ num
      → InRange (complete_rounds storage path num chunks i us ss).0
  unfolding complete_rounds
  complete_rounds-InRange path num chunks [] us i h k = tt
  complete_rounds-InRange path num chunks (s ∷ ss) [] i h k = absurd (omega (arith, h))
  complete_rounds-InRange path num chunks (s ∷ ss) (u ∷ us) i h k =
      elim (Result-cases (child_chunks storage num i chunks)) [
        | inr (e, q) ↦
            rw (q, InRange) (InRange-err _ (child_chunks-InRange num i chunks (omega arith)) q)
        | inl (parts, q) ↦
            elim (Result-cases (storage.complete_multipart_upload path u parts s).0) [
              | inr (e, w) ↦ rw (q, complete_rounds, w, InRange) tt
              | inl (a, w) ↦
                  rw (q, complete_rounds, w)
                    (complete_rounds-InRange path num chunks ss us (suc i) (omega arith)
                      (omega arith))
            ]
      ]

  -- `CompleteMultipartUpload` never indexes the uploads or a chunk's parts out of range, whatever
  -- upload and chunks it is given.
  pub complete-InRange :
      (path : List ℕ) (upload : Upload U) (chunks : List (Chunk C)) (ss : List S)
      → InRange (complete_multipart_upload storage path upload chunks ss).0
  unfolding complete_multipart_upload
  complete-InRange path upload chunks ss = elim (Result-cases (cast_upload (length ss) upload)) [
    | inr (e, q) ↦ rw (q, InRange) (InRange-err _ (cast_upload-InRange (length ss) upload) q)
    | inl (us, q) ↦
        rw (q, complete_multipart_upload)
          (complete_rounds-InRange path (length ss) chunks ss us 0
            (cast_upload-Length (length ss) upload q) (omega arith))
  ]

  -- The upload holds one entry for each of `num` storages.
  abbrev Accepted : ℕ → Result Error (Upload U) → Type 0
  Accepted num (ok (sync_upload us)) = length us ≡ num
  Accepted num (ok Upload.foreign) = ⊥
  Accepted num (err e) = Unit

  create_rounds-Accepted :
      (path : List ℕ) (num : ℕ) (rest created : List S) (uploads : List U)
      → length uploads ≡ length created
      → length created + length rest ≡ num
      → Accepted num (create_rounds storage path uploads created rest).0
  unfolding create_rounds
  create_rounds-Accepted path num [] created uploads h k = omega (arith, h, k)
  create_rounds-Accepted path num (s ∷ rest) created uploads h k =
      elim (Result-cases (storage.create_multipart_upload path s).0) [
        | inr (e, w) ↦ rw (w, create_rounds) tt
        | inl (u, w) ↦
            rw (w, create_rounds)
              (create_rounds-Accepted path num rest
                (created ++ (storage.create_multipart_upload path s).1 ∷ []) (uploads ++ u ∷ [])
                (omega (
                  arith,
                  h,
                  length-append created ((storage.create_multipart_upload path s).1 ∷ []),
                  length-append uploads (u ∷ []),
                ))
                (omega (
                  arith,
                  k,
                  length-append created ((storage.create_multipart_upload path s).1 ∷ []),
                )))
      ]

  cast-Accepted :
      (num : ℕ) (u : Upload U) → Accepted num (ok u) → (us : List U) × (cast_upload num u ≡ ok us)
  unfolding cast_upload
  cast-Accepted num (sync_upload us) h = (us, ground (arith, h))
  cast-Accepted num Upload.foreign h = absurd h

  -- An upload that `CreateMultipartUpload` returns is accepted by the other calls of the same provider.
  pub cast-create :
      (path : List ℕ) (ss : List S) (u : Upload U)
      → (create_multipart_upload storage path ss).0 ≡ ok u
      → (us : List U) × (cast_upload (length ss) u ≡ ok us)
  unfolding create_multipart_upload
  cast-create path [] u h = cast-Accepted 0 u (subst (Accepted 0) h tt)
  cast-create path (s ∷ ss) u h = cast-Accepted (length (s ∷ ss)) u (
      subst (Accepted (length (s ∷ ss))) h
        (create_rounds-Accepted path (length (s ∷ ss)) (s ∷ ss) [] [] refl (omega arith)))
