-- ===== src/Storage.antt =====
-- storage/: the interface that the providers implement, and the provider over several storages.
pub mod Sync
pub mod Retrying
pub mod Impl
use golang_core.Prelude.{ℕ, Bool, List}
use golang_core.Prelude.Exec.{Exec}

-- The operations of `Storage` that the sync provider calls, on an implementation with its state in
-- `S`. A file is read to its end, so a reader stands for its bytes; an error is a number.
pub record Storage (S U C : Type 0) : Type 0 where
  pub file_exists : List ℕ → Exec S ℕ Bool
  pub delete_file : List ℕ → Exec S ℕ (Unit {0})
  pub delete_dir : List ℕ → Exec S ℕ (Unit {0})
  pub write : List ℕ → List ℕ → Exec S ℕ (Unit {0})
  pub read_file : List ℕ → Exec S ℕ (List ℕ)
  pub mk_dir : List ℕ → Exec S ℕ (Unit {0})
  pub copy : List ℕ → List ℕ → Exec S ℕ (Unit {0})
  pub create_multipart_upload : List ℕ → Exec S ℕ U
  pub upload_multipart_chunk : List ℕ → U → ℕ → List ℕ → Exec S ℕ C
  pub complete_multipart_upload : List ℕ → U → List C → Exec S ℕ (Unit {0})
  pub abort_multipart_upload : List ℕ → U → Exec S ℕ (Unit {0})
  pub close : Exec S ℕ (Unit {0})
