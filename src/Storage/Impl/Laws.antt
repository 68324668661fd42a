-- ===== src/Storage/Impl/Laws.antt =====
-- storage/impl.go: what it means that an operation under the retry policy returns no error.
use golang_core.Prelude.{ℕ, ◌≡◌, refl, ap, ◌∙◌, Bool, Option, none, some, Result, ok, err}
use golang_core.Retry.{Policy, Context}
use golang_core.Retry.Success.{do_with_condition-Good}
use golang_core.Storage.Retrying.{Failure, asks, with_retry, with_unit}
use golang_core.Storage.Impl.{
  FilePath, Provider, Files, Held, Opened, opened, failed, lift_context, assign, assigned, released,
  retrying_value, download_file, download_once, download_from, download_into, copied,
}

-- A call of the operation without an error, after which nothing happened.
with_retry-Good :
    {W : Type 0} (ctx : Context W Failure) (retryable : Option (Option Failure → Bool))
    → (policy : Option Policy) (operation : W → Option Failure × W) (w : W)
    → (with_retry ctx retryable policy operation w).0 ≡ none
    → (v : W) × (operation v ≡ with_retry ctx retryable policy operation w)
unfolding with_retry
with_retry-Good ctx retryable none operation w h = (w, refl)
with_retry-Good ctx retryable (some policy) operation w h =
    let (v, p) =
      do_with_condition-Good ctx tt (some policy) (with_unit ctx retryable operation)
        (λ u failure. asks retryable failure) (λ r. refl) w h in
    (v, ap (λ r. (r.0.1, r.1)) p)

module _ {A W : Type 0} where
  assigned-Ok :
      (h h' : Held A W) (x : Result Failure A × W)
      → assigned h x ≡ (none, h')
      → x ≡ (ok h'.held, h'.world)
  assigned-Ok h h' (ok a, w) p = ap (λ x. (ok x.1.held, x.1.world)) p
  assigned-Ok h h' (err e, w) p = absurd cc

  released-Ok :
      (op : W → Result Failure A × W) (x : Option Failure × Held A W) (a : A) (w : W)
      → (x.0 ≡ none → (v : Held A W) × (assign op v ≡ x))
      → released x ≡ (ok a, w)
      → (v : W) × (op v ≡ (ok a, w))
  released-Ok op (none, h) a w good p =
      let (v, q) = good refl in (v.world, assigned-Ok v h (op v.world) q ∙ p)
  released-Ok op (some e, h) a w good p = absurd cc

module _ {W : Type 0} (provider : Provider W) (files : Files W) (ctx : Context W Failure)
    (policy : Option Policy) (retryable : Option (Option Failure → Bool)) where
  -- If an operation with a value, as FileExists, ReadFile, ReadDir and GetPublicUrl are, succeeds under the
  -- retry policy, then its value and the state after it are those of one call of the operation.
  pub retrying_value-Ok :
      {A : Type 0} (zero_value : A) (op : W → Result Failure A × W) (w u : W) (a : A)
      → retrying_value provider files ctx policy retryable zero_value op w ≡ (ok a, u)
      → (v : W) × (op v ≡ (ok a, u))
  unfolding retrying_value
  retrying_value-Ok zero_value op w u a h =
      released-Ok op
        (with_retry (lift_context ctx) retryable policy (assign op)
          (record { held = zero_value; world = w }))
        a u
        (with_retry-Good (lift_context ctx) retryable policy (assign op)
          (record { held = zero_value; world = w }))
        h

  -- The destination was created, all of the stream copied to it, and it was closed, all without an error.
  abbrev pub Stored : FilePath → ℕ → W → W → Type 0
  Stored filename stream w u =
      (dest : ℕ) × (w1 : W) × (w2 : W) × (files.create filename w ≡ (ok dest, w1))
      × (files.copy_all dest stream w1 ≡ (none, w2))
      × (files.close_file dest w2 ≡ (none, u))

  -- A stream of the provider was stored and then closed.
  abbrev pub Downloaded : FilePath → FilePath → W → W → Type 0
  Downloaded path filename v u =
      (stream : ℕ) × (w1 : W) × (w2 : W) × (provider.read_file path v ≡ (opened stream, w1))
      × Stored filename stream w1 w2
      × (files.close_stream stream w2 ≡ u)

  copied-Closed :
      (dest stream : ℕ) (w u : W) (x : Option Failure × W)
      → files.copy_all dest stream w ≡ x
      → copied provider files ctx policy retryable dest x ≡ (none, u)
      → (v : W) × (files.copy_all dest stream w ≡ (none, v)) × (files.close_file dest v ≡ (none, u))
  copied-Closed dest stream w u (none, v) q h = (v, q, h)
  copied-Closed dest stream w u (some e, v) q h = absurd cc

  download_into-Stored :
      (filename : FilePath) (stream : ℕ) (w u : W) (x : Result Failure ℕ × W)
      → files.create filename w ≡ x
      → download_into provider files ctx policy retryable stream x ≡ (none, u)
      → Stored filename stream w u
  download_into-Stored filename stream w u (err e, v) q h = absurd cc
  download_into-Stored filename stream w u (ok dest, v) q h =
      let (v', copy, close) = copied-Closed dest stream v u (files.copy_all dest stream v) refl h in
      (dest, v, v', q, copy, close)

  download_from-Downloaded :
      (path filename : FilePath) (v u : W) (x : Opened × W)
      → provider.read_file path v ≡ x
      → download_from provider files ctx policy retryable filename x ≡ (none, u)
      → Downloaded path filename v u
  download_from-Downloaded path filename v u (failed stream e, w) q h = absurd cc
  download_from-Downloaded path filename v u (opened stream, w) q h =
      let into =
        download_into provider files ctx policy retryable stream (files.create filename w) in
      let stored =
        download_into-Stored filename stream w into.1 (files.create filename w) refl
          (ap (λ e. (e, into.1)) (ap (λ y. y.0) h)) in
      (stream, w, into.1, q, stored, ap (λ y. y.1) h)

  -- If `DownloadFile` returns no error, then in one attempt, after which nothing else happened, the provider
  -- opened the stream, the destination was created, all of the stream was copied, the destination was closed
  -- without an error, and last the stream was closed.
  pub download_file-Downloaded :
      (path filename : FilePath) (w u : W)
      → download_file provider files ctx policy retryable path filename w ≡ (none, u)
      → (v : W) × Downloaded path filename v u
  unfolding download_file
  download_file-Downloaded path filename w u h =
      let once = download_once provider files ctx policy retryable path filename in
      let (v, q) = with_retry-Good ctx retryable policy once w (ap (λ y. y.0) h) in
      (v, download_from-Downloaded path filename v u (provider.read_file path v) refl (q ∙ h))
