-- ===== src/Storage/Impl/Tests.antt =====
-- storage/impl.go: a provider that cannot be reached at its first call, under a policy of two attempts.
use golang_core.Prelude.{
  ℕ, zero, suc, pos, ◌≡◌, refl, false, true, Option, none, some, List, [], ◌∷◌, Result, ok, err,
}
use golang_core.Retry.{Policy, Context, rounds, do_with_condition}
use golang_core.Storage.Retrying.{Failure, network_error, default_retryable, with_retry}
use golang_core.Storage.Impl.{
  FilePath, Provider, Files, Opened, opened, failed, retrying_value, download_file,
}
use golang_core.Storage.Impl.Laws.{Downloaded, retrying_value-Ok, download_file-Downloaded}

-- The state counts the calls.
abbrev live : Context ℕ Failure
live = record { done = λ w. (none, w); wait = λ n w. (false, w) }

abbrev two : Policy
two = record {
  enabled = true;
  max_attempts = pos 2;
  max_interval = 0;
  backoff_of = λ n. 0;
  retry_non_idempotent = false;
}

abbrev path : FilePath
path = 7 ∷ []

abbrev entries : ℕ → Result Failure (List FilePath) × ℕ
entries zero = (err network_error, 1)
entries (suc w) = (ok (path ∷ []), suc (suc w))

abbrev stream : ℕ → Opened × ℕ
stream zero = (failed none network_error, 1)
stream (suc w) = (opened 5, suc (suc w))

abbrev succeed : ℕ → Option Failure × ℕ
succeed w = (none, suc w)

abbrev late : Provider ℕ
late = record {
  file_exists = λ p w. (ok true, suc w);
  delete_file = λ p w. succeed w;
  delete_dir = λ p w. succeed w;
  write = λ p s w. succeed w;
  read_file = λ p w. stream w;
  read_dir = λ p w. entries w;
  mk_dir = λ p w. succeed w;
  copy = λ p q w. succeed w;
  move = λ p q w. succeed w;
  get_public_url = λ p w. (ok [], suc w);
  close = λ w. succeed w;
}

abbrev disk : Files ℕ
disk = record {
  open_file = λ p w. (ok 3, suc w);
  create = λ p w. (ok 4, suc w);
  copy_all = λ d s w. succeed w;
  close_file = λ f w. succeed w;
  close_stream = λ s w. suc w;
}

downloaded : download_file late disk live (some two) none path (8 ∷ []) 0 ≡ (none, 6)
unfolding download_file with_retry do_with_condition rounds default_retryable
downloaded = refl

listed : retrying_value late disk live (some two) none [] entries 0 ≡ (ok (path ∷ []), 2)
unfolding retrying_value with_retry do_with_condition rounds default_retryable
listed = refl

download_file-Downloaded_example :
    (v : ℕ) × Downloaded late disk live (some two) none path (8 ∷ []) v 6
download_file-Downloaded_example =
    download_file-Downloaded late disk live (some two) none path (8 ∷ []) 0 6 downloaded

retrying_value-Ok_example : (v : ℕ) × (entries v ≡ (ok (path ∷ []), 2))
retrying_value-Ok_example =
    retrying_value-Ok late disk live (some two) none [] entries 0 2 (path ∷ []) listed
