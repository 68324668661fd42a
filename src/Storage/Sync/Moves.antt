-- ===== src/Storage/Sync/Moves.antt =====
-- storage/providers/sync.go: what the storages hold after `Move`.
use golang_core.Prelude.{
  ℕ, ◌≡◌, ◌≢◌, refl, sym, ap, ◌∙◌, none, List, [], ◌∷◌, Result, ok, err, All2, All2-compose,
  Result-cases, inl, inr, subst, if_neg, text_discrete,
}
use golang_core.Prelude.Exec.{continue, continue-err, continue-ok}
use golang_core.Storage.{Storage}
use golang_core.Storage.Sync.{Error, deleting_source, each, copy, move}
use golang_core.Storage.Sync.Laws.{
  Promises, Agree, copy-Agree, copy-Copied, err_ok, each_ok, each_err,
}

module _ {S U C : Type 0} (storage : Storage S U C) (d : Promises storage)
    (src_path dst_path : List ℕ) where
  -- The source is gone and the file at the destination is as before.
  abbrev Deleted : List S → List S → Type 0
  Deleted =
      All2 (λ s s'. (d.content s' src_path ≡ none) × (d.content s' dst_path ≡ d.content s dst_path))

  delete_sources : List S → Result Error (Unit {0}) × List S
  delete_sources = each deleting_source (storage.delete_file src_path)

  each-Deleted :
      (ss : List S)
      → dst_path ≢ src_path
      → (delete_sources ss).0 ≡ ok tt
      → Deleted ss (delete_sources ss).1
  unfolding delete_sources each
  each-Deleted [] n h = tt
  each-Deleted (s ∷ ss) n h = elim (Result-cases (storage.delete_file src_path s).0) [
    | inl (a, e) ↦
        subst (λ r. Deleted (s ∷ ss) r.1)
          (sym (each_ok deleting_source (storage.delete_file src_path) s ss e))
          (
            (d.delete_file-ok src_path s e, d.delete_file-other src_path dst_path s n),
            each-Deleted ss n (
                sym (ap (λ r. r.0) (each_ok deleting_source (storage.delete_file src_path) s ss e))
                ∙ h),
          )
    | inr (e, q) ↦ absurd (
        err_ok (
          sym (ap (λ r. r.0) (each_err deleting_source (storage.delete_file src_path) s ss e q))
          ∙ h))
  ]

  move_apart :
      (ss : List S)
      → src_path ≢ dst_path
      → move storage src_path dst_path ss
        ≡ continue (copy storage src_path dst_path ss) λ _. delete_sources
  unfolding move delete_sources
  move_apart ss n = if_neg (text_discrete src_path dst_path) n _ _

  abbrev pub Moved : List S → List S → Type 0
  Moved =
      All2 (λ s s'. (d.content s' dst_path ≡ d.content s src_path) × (d.content s' src_path ≡ none))

  -- When `Move` succeeds between two different paths, every storage holds at the destination what it
  -- held at the source, and nothing at the source, if the storages keep their promises.
  pub move-Moved :
      (ss : List S)
      → src_path ≢ dst_path
      → (move storage src_path dst_path ss).0 ≡ ok tt
      → Moved ss (move storage src_path dst_path ss).1
  move-Moved ss n h = elim (Result-cases (copy storage src_path dst_path ss).0) [
    | inl (a, e) ↦
        let q : move storage src_path dst_path ss
            ≡ delete_sources (copy storage src_path dst_path ss).1 =
          move_apart ss n ∙ continue-ok (copy storage src_path dst_path ss) _ e in
        subst (λ r. Moved ss r.1) (sym q)
          (All2-compose _ _ _ (λ s t u x y. (y.1 ∙ x, y.0)) ss (copy storage src_path dst_path ss).1
            _ (copy-Copied storage d src_path dst_path ss e)
            (each-Deleted _ (λ g. n (sym g)) (sym (ap (λ r. r.0) q) ∙ h)))
    | inr (e, q) ↦ absurd (
        err_ok (
          sym
            (ap (λ r. r.0) (move_apart ss n ∙ continue-err (copy storage src_path dst_path ss) _ q))
          ∙ h))
  ]

  -- When the copying of `Move` between two different paths fails, `Move` returns that error and every
  -- storage holds its source as before, if the storages keep their promises.
  move_copy_fails :
      (ss : List S) (e : Error)
      → src_path ≢ dst_path
      → (copy storage src_path dst_path ss).0 ≡ err e
      → ((move storage src_path dst_path ss).0 ≡ err e)
        × Agree storage d src_path ss (move storage src_path dst_path ss).1
  move_copy_fails ss e n h =
      rw (move_apart ss n ∙ continue-err (copy storage src_path dst_path ss) _ h)
        (refl, copy-Agree storage d src_path dst_path src_path ss n)
