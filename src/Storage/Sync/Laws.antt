-- ===== src/Storage/Sync/Laws.antt =====
-- storage/providers/sync.go: what the storages hold after `Copy` and `Move`.
use golang_core.Prelude.{
  ℕ, ◌≡◌, ◌≢◌, refl, sym, ap, ◌∙◌, Option, none, some, List, [], ◌∷◌, ◌++◌, append_assoc,
  append-nil, Result, ok, err, All2, All2-append, All2-self, Result-cases, inl, inr, subst,
}
use golang_core.Prelude.Exec.{Exec}
use golang_core.Storage.{Storage}
use golang_core.Storage.Sync.{
  Action, Error, failed, copying_file, each, each_anyway, copy_rounds, copy,
}

-- What an implementation of `Storage` promises: `content` is the file at a path, `none` if there is
-- none. A call that fails leaves the files at other paths alone too.
pub record Promises {S U C : Type 0} (storage : Storage S U C) : Type 0 where
  pub content : S → List ℕ → Option (List ℕ)
  pub write-ok :
      (path bytes : List ℕ) (s : S)
      → (storage.write path bytes s).0 ≡ ok tt
      → content (storage.write path bytes s).1 path ≡ some bytes
  pub write-other :
      (path bytes p : List ℕ) (s : S)
      → p ≢ path
      → content (storage.write path bytes s).1 p ≡ content s p
  pub copy-ok :
      (src_path dst_path : List ℕ) (s : S)
      → (storage.copy src_path dst_path s).0 ≡ ok tt
      → content (storage.copy src_path dst_path s).1 dst_path ≡ content s src_path
  pub copy-other :
      (src_path dst_path p : List ℕ) (s : S)
      → p ≢ dst_path
      → content (storage.copy src_path dst_path s).1 p ≡ content s p
  pub delete_file-ok :
      (path : List ℕ) (s : S)
      → (storage.delete_file path s).0 ≡ ok tt
      → content (storage.delete_file path s).1 path ≡ none
  pub delete_file-other :
      (path p : List ℕ) (s : S) → p ≢ path → content (storage.delete_file path s).1 p ≡ content s p

pub err_ok : {e : Error} → Path (Result Error (Unit {0})) (err e) (ok tt) → ⊥
err_ok h = cc

module _ {S : Type 0} (action : Action) (call : Exec S ℕ (Unit {0})) (s : S) (ss : List S) where
  pub each_ok :
      (call s).0 ≡ ok tt
      → each action call (s ∷ ss) ≡ ((each action call ss).0, (call s).1 ∷ (each action call ss).1)
  unfolding each
  each_ok h = rw (h, each) refl

  pub each_err :
      (e : ℕ)
      → (call s).0 ≡ err e
      → each action call (s ∷ ss) ≡ (err (failed action e), (call s).1 ∷ ss)
  unfolding each
  each_err e h = rw (h, each) refl

module _ {S U C : Type 0} (storage : Storage S U C) (d : Promises storage) where
  -- The storages hold the same file at `p`, one by one.
  abbrev pub Agree : List ℕ → List S → List S → Type 0
  Agree p = All2 (λ s s'. d.content s' p ≡ d.content s p)

  pub each_anyway-Agree :
      (path p : List ℕ) (ss ts : List S)
      → p ≢ path
      → Agree p ss ts
      → Agree p ss (each_anyway (storage.delete_file path) ts)
  unfolding each_anyway
  each_anyway-Agree path p [] [] n h = tt
  each_anyway-Agree path p [] (t ∷ ts) n h = absurd h
  each_anyway-Agree path p (s ∷ ss) [] n h = absurd h
  each_anyway-Agree path p (s ∷ ss) (t ∷ ts) n h =
      (d.delete_file-other path p t n ∙ h.0, each_anyway-Agree path p ss ts n h.1)

  module _ (src_path dst_path : List ℕ) where
    abbrev copied : S → S
    copied s = (storage.copy src_path dst_path s).1

    copy_rounds_ok :
        (entry : S) (rest ts : List S)
        → (storage.copy src_path dst_path entry).0 ≡ ok tt
        → copy_rounds storage src_path dst_path ts (entry ∷ rest)
          ≡ copy_rounds storage src_path dst_path (ts ++ copied entry ∷ []) rest
    unfolding copy_rounds
    copy_rounds_ok entry rest ts h = rw (h, copy_rounds) refl

    copy_rounds_err :
        (entry : S) (rest ts : List S) (e : ℕ)
        → (storage.copy src_path dst_path entry).0 ≡ err e
        → copy_rounds storage src_path dst_path ts (entry ∷ rest) ≡ (
          err (failed copying_file e),
          each_anyway (storage.delete_file dst_path) ts ++ copied entry ∷ rest,
        )
    unfolding copy_rounds
    copy_rounds_err entry rest ts e h = rw (h, copy_rounds) refl

    copy_rounds-Agree :
        (p : List ℕ)
        → p ≢ dst_path
        → (rest ss ts : List S) → Agree p ss ts
        → Agree p (ss ++ rest) (copy_rounds storage src_path dst_path ts rest).1
    unfolding copy_rounds
    copy_rounds-Agree p n [] ss ts h = subst (λ xs. Agree p xs ts) (sym (append-nil ss)) h
    copy_rounds-Agree p n (entry ∷ rest) ss ts h =
        elim (Result-cases (storage.copy src_path dst_path entry).0) [
          | inl (a, e) ↦
              subst (λ r. Agree p (ss ++ entry ∷ rest) r.1) (sym (copy_rounds_ok entry rest ts e))
                (subst
                  (λ xs.
                    Agree p xs
                      (copy_rounds storage src_path dst_path (ts ++ copied entry ∷ []) rest).1)
                  (append_assoc ss (entry ∷ []) rest)
                  (copy_rounds-Agree p n rest (ss ++ entry ∷ []) (ts ++ copied entry ∷ []) (
                    All2-append _ ss (entry ∷ []) ts (copied entry ∷ []) h
                      (d.copy-other src_path dst_path p entry n, tt))))
          | inr (e, q) ↦
              subst (λ r. Agree p (ss ++ entry ∷ rest) r.1)
                (sym (copy_rounds_err entry rest ts e q))
                (All2-append _ ss (entry ∷ rest) _ (copied entry ∷ rest)
                  (each_anyway-Agree dst_path p ss ts n h)
                  (d.copy-other src_path dst_path p entry n, All2-self _ (λ s. refl) rest))
        ]

    -- Whatever `Copy` returns, every storage holds the files at other paths as before, if the storages
    -- keep their promises.
    pub copy-Agree :
        (p : List ℕ) (ss : List S) → p ≢ dst_path → Agree p ss (copy storage src_path dst_path ss).1
    unfolding copy
    copy-Agree p [] n = tt
    copy-Agree p (s ∷ ss) n = copy_rounds-Agree p n (s ∷ ss) [] [] tt

    -- The file at the destination is the one that was at the source.
    abbrev pub Copied : List S → List S → Type 0
    Copied = All2 (λ s s'. d.content s' dst_path ≡ d.content s src_path)

    copy_rounds-Copied :
        (rest ss ts : List S)
        → Copied ss ts
        → (copy_rounds storage src_path dst_path ts rest).0 ≡ ok tt
        → Copied (ss ++ rest) (copy_rounds storage src_path dst_path ts rest).1
    unfolding copy_rounds
    copy_rounds-Copied [] ss ts h k = subst (λ xs. Copied xs ts) (sym (append-nil ss)) h
    copy_rounds-Copied (entry ∷ rest) ss ts h k =
        elim (Result-cases (storage.copy src_path dst_path entry).0) [
          | inl (a, e) ↦
              subst (λ r. Copied (ss ++ entry ∷ rest) r.1) (sym (copy_rounds_ok entry rest ts e))
                (subst
                  (λ xs.
                    Copied xs
                      (copy_rounds storage src_path dst_path (ts ++ copied entry ∷ []) rest).1)
                  (append_assoc ss (entry ∷ []) rest)
                  (copy_rounds-Copied rest (ss ++ entry ∷ []) (ts ++ copied entry ∷ [])
                    (All2-append _ ss (entry ∷ []) ts (copied entry ∷ []) h
                      (d.copy-ok src_path dst_path entry e, tt))
                    (sym (ap (λ r. r.0) (copy_rounds_ok entry rest ts e)) ∙ k)))
          | inr (e, q) ↦
              absurd (err_ok (sym (ap (λ r. r.0) (copy_rounds_err entry rest ts e q)) ∙ k))
        ]

    -- When `Copy` succeeds, every storage holds at the destination what it held at the source, if the
    -- storages keep their promises.
    pub copy-Copied :
        (ss : List S)
        → (copy storage src_path dst_path ss).0 ≡ ok tt
        → Copied ss (copy storage src_path dst_path ss).1
    unfolding copy
    copy-Copied [] h = tt
    copy-Copied (s ∷ ss) h = copy_rounds-Copied (s ∷ ss) [] [] tt h

    -- What a failed `Copy` leaves: `done` storages from which the copy was deleted again, the one that
    -- failed, and the rest, which were not called.
    pub record RolledBack (before after : List S) : Type 0 where
      pub olds : List S
      pub old : S
      pub rest : List S
      pub gone : List S
      pub entry : S
      pub was : before ≡ olds ++ old ∷ rest
      pub is : after ≡ gone ++ entry ∷ rest
      pub deleted : All2 (λ s s'. d.content s' dst_path ≡ none) olds gone

    pub each_anyway-gone :
        (ss ts : List S) (R : S → S → Type 0)
        → ((s : S) → (storage.delete_file dst_path s).0 ≡ ok tt)
        → All2 R ss ts
        → All2
            (λ s s'. d.content s' dst_path ≡ none)
            ss
            (each_anyway (storage.delete_file dst_path) ts)
    unfolding each_anyway
    each_anyway-gone [] [] R k h = tt
    each_anyway-gone [] (t ∷ ts) R k h = absurd h
    each_anyway-gone (s ∷ ss) [] R k h = absurd h
    each_anyway-gone (s ∷ ss) (t ∷ ts) R k h =
        (d.delete_file-ok dst_path t (k t), each_anyway-gone ss ts R k h.1)

    copy_rounds-RolledBack :
        ((s : S) → (storage.delete_file dst_path s).0 ≡ ok tt)
        → (e : Error) (rest ss ts : List S) → All2 (λ s s'. Unit) ss ts
        → (copy_rounds storage src_path dst_path ts rest).0 ≡ err e
        → RolledBack (ss ++ rest) (copy_rounds storage src_path dst_path ts rest).1
    unfolding copy_rounds
    copy_rounds-RolledBack k e [] ss ts h q = absurd (err_ok (sym q))
    copy_rounds-RolledBack k e (entry ∷ rest) ss ts h q =
        elim (Result-cases (storage.copy src_path dst_path entry).0) [
          | inl (a, f) ↦
              subst (λ r. RolledBack (ss ++ entry ∷ rest) r.1)
                (sym (copy_rounds_ok entry rest ts f))
                (subst
                  (λ xs.
                    RolledBack xs
                      (copy_rounds storage src_path dst_path (ts ++ copied entry ∷ []) rest).1)
                  (append_assoc ss (entry ∷ []) rest)
                  (copy_rounds-RolledBack k e rest (ss ++ entry ∷ []) (ts ++ copied entry ∷ [])
                    (All2-append _ ss (entry ∷ []) ts (copied entry ∷ []) h (tt, tt))
                    (sym (ap (λ r. r.0) (copy_rounds_ok entry rest ts f)) ∙ q)))
          | inr (e', f) ↦
              subst (λ r. RolledBack (ss ++ entry ∷ rest) r.1)
                (sym (copy_rounds_err entry rest ts e' f))
                (record {
                  olds = ss;
                  old = entry;
                  rest = rest;
                  gone = each_anyway (storage.delete_file dst_path) ts;
                  entry = copied entry;
                  was = refl;
                  is = refl;
                  deleted = each_anyway-gone ss ts _ k h;
                })
        ]

    -- When `Copy` over at least one storage fails, the copies that were made are deleted again and the
    -- storages behind the one that failed were not called, if the storages keep their promises and
    -- deletions succeed.
    pub copy-RolledBack :
        ((s : S) → (storage.delete_file dst_path s).0 ≡ ok tt)
        → (e : Error) (s : S) (ss : List S) → (copy storage src_path dst_path (s ∷ ss)).0 ≡ err e
        → RolledBack (s ∷ ss) (copy storage src_path dst_path (s ∷ ss)).1
    unfolding copy
    copy-RolledBack k e s ss h = copy_rounds-RolledBack k e (s ∷ ss) [] [] tt h
