-- ===== src/Storage/Sync/Tests.antt =====
-- Runs of the sync provider over storages that are maps from paths to bytes.
use golang_core.Prelude.{
  ℕ, ◌≡◌, ◌≢◌, refl, sym, ap, true, false, Bool, Option, none, some, List, [], ◌∷◌, Result, ok, err,
  text_discrete, ℕ_discrete, arith,
}
use golang_core.Prelude.Exec.{Exec}
use golang_core.Prelude.Dict
use golang_core.Prelude.Dict.{Dict}
use golang_core.Storage.{Storage}
use golang_core.Storage.Sync.{failed, copying_file, copy, move, each, copy_rounds}
use golang_core.Storage.Sync.Laws.{
  Promises, Agree, Copied, RolledBack, copy-Agree, copy-Copied, copy-RolledBack,
}
use golang_core.Storage.Sync.Moves.{Moved, move-Moved}
use golang_core.Storage.Sync.Write.{Spool, write}
use golang_core.Storage.Sync.Write.Laws.{Keeps, write-Agree}
use golang_core.Storage.Sync.Write.Outcomes.{Settled, write-Settled}
use golang_core.Storage.Sync.Multipart.{
  sync_upload, Chunk, cast_upload, create_multipart_upload, create_rounds,
  complete_multipart_upload,
}
use golang_core.Storage.Sync.Multipart.Lengths.{InRange, complete-InRange, cast-create}

abbrev Files : Type 0
Files = Dict (List ℕ) (List ℕ)

abbrev look : List ℕ → Files → Option (List ℕ)
look path d = Dict.get text_discrete d path

abbrev keep : List ℕ → List ℕ → Files → Files
keep path bytes d = Dict.put text_discrete d path bytes

abbrev copy_found : List ℕ → Option (List ℕ) → Exec Files ℕ (Unit {0})
copy_found dst_path none d = (err 404, d)
copy_found dst_path (some bytes) d = (ok tt, keep dst_path bytes d)

abbrev or_missing : Option (List ℕ) → Exec Files ℕ (List ℕ)
or_missing none d = (err 404, d)
or_missing (some bytes) d = (ok bytes, d)

abbrev there : Option (List ℕ) → Bool
there none = false
there (some b) = true

abbrev files : Storage Files ℕ ℕ
files = record {
  file_exists = λ path d. (ok (there (look path d)), d);
  delete_file = λ path d. (ok tt, Dict.remove text_discrete d path);
  delete_dir = λ path d. (ok tt, d);
  write = λ path bytes d. (ok tt, keep path bytes d);
  read_file = λ path d. or_missing (look path d) d;
  mk_dir = λ path d. (ok tt, d);
  copy = λ src_path dst_path d. copy_found dst_path (look src_path d) d;
  create_multipart_upload = λ path d. (ok 1, d);
  upload_multipart_chunk = λ path u n b d. (ok n, d);
  complete_multipart_upload = λ path u cs d. (ok tt, d);
  abort_multipart_upload = λ path u d. (ok tt, d);
  close = λ d. (ok tt, d);
}

copy_found-ok :
    (dst_path : List ℕ) (o : Option (List ℕ)) (d : Files)
    → (copy_found dst_path o d).0 ≡ ok tt
    → look dst_path (copy_found dst_path o d).1 ≡ o
copy_found-ok dst_path none d h = absurd (cc)
copy_found-ok dst_path (some bytes) d h = Dict.get-put_self text_discrete d dst_path bytes

copy_found-other :
    (dst_path p : List ℕ) (o : Option (List ℕ)) (d : Files)
    → dst_path ≢ p
    → look p (copy_found dst_path o d).1 ≡ look p d
copy_found-other dst_path p none d n = refl
copy_found-other dst_path p (some bytes) d n = Dict.get-put_ne text_discrete d bytes n

files-Promises : Promises files
files-Promises = record {
  content = λ d path. look path d;
  write-ok = λ path bytes d h. Dict.get-put_self text_discrete d path bytes;
  write-other = λ path bytes p d n. Dict.get-put_ne text_discrete d bytes (λ e. n (sym e));
  copy-ok = λ src_path dst_path d h. copy_found-ok dst_path (look src_path d) d h;
  copy-other =
      λ src_path dst_path p d n. copy_found-other dst_path p (look src_path d) d (λ e. n (sym e));
  delete_file-ok = λ path d h. Dict.get-remove_self text_discrete d path;
  delete_file-other = λ path p d n. Dict.get-remove_ne text_discrete d (λ e. n (sym e));
}

-- A file system whose temporary file is the list of its bytes.
abbrev spool : Spool (List ℕ) (List ℕ)
spool = record {
  create = λ o. (ok tt, []);
  fill = λ file o. (ok tt, file);
  sync = λ o. (ok tt, o);
  close = λ o. (ok tt, o);
  open_file = λ o. (ok o, o);
  close_reader = λ o. (ok tt, o);
  remove = λ o. (ok tt, []);
}

ok_inj : {b c : List ℕ} → Path (Result ℕ (List ℕ)) (ok b) (ok c) → c ≡ b
ok_inj h = cc

spool-Keeps : Keeps spool
spool-Keeps = record {
  content = λ o. o;
  source = λ f. f;
  fill-ok = λ file o h. refl;
  sync-keeps = λ o. refl;
  close-keeps = λ o. refl;
  open_file-keeps = λ o. refl;
  open_file-reads = λ o b h. ok_inj h;
  close_reader-keeps = λ o. refl;
}

abbrev a_path : List ℕ
a_path = b'a' ∷ []

abbrev b_path : List ℕ
b_path = b'b' ∷ []

a_b : a_path ≢ b_path
a_b e = absurd (omega (arith, ap (λ p. head p) e))
  where
    head : List ℕ → ℕ
    head [] = 0
    head (x ∷ xs) = x

-- One storage has the file, the other has nothing.
abbrev full : Files
full = keep a_path (1 ∷ []) Dict.empty

abbrev both : List Files
both = full ∷ full ∷ []

abbrev uneven : List Files
uneven = full ∷ Dict.empty ∷ []

both_copied : (copy files a_path b_path both).0 ≡ ok tt
unfolding copy copy_rounds Dict.get Dict.put Dict.find Dict.store text_discrete ℕ_discrete
both_copied = refl

uneven_not_copied : (copy files a_path b_path uneven).0 ≡ err (failed copying_file 404)
unfolding copy copy_rounds Dict.get Dict.put Dict.find Dict.store text_discrete ℕ_discrete
uneven_not_copied = refl

both_moved : (move files a_path b_path both).0 ≡ ok tt
unfolding move copy copy_rounds each Dict.get Dict.put Dict.find Dict.store text_discrete ℕ_discrete
both_moved = refl

copy-Agree_example : Agree files files-Promises a_path uneven (copy files a_path b_path uneven).1
copy-Agree_example = copy-Agree files files-Promises a_path b_path a_path uneven a_b

copy-Copied_example :
    Copied files files-Promises a_path b_path both (copy files a_path b_path both).1
copy-Copied_example = copy-Copied files files-Promises a_path b_path both both_copied

copy-RolledBack_example :
    RolledBack files files-Promises a_path b_path uneven (copy files a_path b_path uneven).1
copy-RolledBack_example =
    copy-RolledBack files files-Promises a_path b_path (λ s. refl) (failed copying_file 404) full
      (Dict.empty ∷ []) uneven_not_copied

move-Moved_example : Moved files files-Promises a_path b_path both (move files a_path b_path both).1
move-Moved_example = move-Moved files files-Promises a_path b_path both a_b both_moved

write-Agree_example :
    Agree files files-Promises a_path uneven (write spool files b_path (7 ∷ []) (uneven, [])).1.0
write-Agree_example =
    write-Agree spool files b_path files-Promises spool-Keeps a_path (7 ∷ []) uneven [] a_b

write-Settled_example :
    Settled files files-Promises b_path
      (spool-Keeps.source (7 ∷ []))
      uneven
      (write spool files b_path (7 ∷ []) (uneven, [])).0
      (write spool files b_path (7 ∷ []) (uneven, [])).1.0
write-Settled_example =
    write-Settled spool files b_path files-Promises spool-Keeps (λ s. refl) (7 ∷ []) uneven []

complete-InRange_example :
    InRange
      (complete_multipart_upload files a_path (sync_upload (5 ∷ [])) (Chunk.foreign 3 ∷ []) both).0
complete-InRange_example =
    complete-InRange files a_path (sync_upload (5 ∷ [])) (Chunk.foreign 3 ∷ []) both

created : (create_multipart_upload files a_path both).0 ≡ ok (sync_upload (1 ∷ 1 ∷ []))
unfolding create_multipart_upload create_rounds
created = refl

cast-create_example : (us : List ℕ) × (cast_upload 2 (sync_upload (1 ∷ 1 ∷ [])) ≡ ok us)
cast-create_example = cast-create files a_path both (sync_upload (1 ∷ 1 ∷ [])) created
