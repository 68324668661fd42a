-- ===== src/Storage/Impl.antt =====
-- storage/impl.go: a storage over a provider, with the operations that may be repeated under the retry policy.
-- The provider, the operating system and the context are functions on a world `W`.
pub mod Laws
mod Tests
use golang_core.Prelude.{ℕ, Bool, true, false, Option, none, some, List, [], Result, ok, err}
use golang_core.Retry.{Policy, Context}
use golang_core.Storage.Retrying.{Failure, with_retry}

abbrev pub FilePath : Type 0
FilePath = List ℕ

-- What `ReadFile` of a provider gives: a stream, or an error, with which a stream may come too.
pub data Opened : Type 0 where
  opened : ℕ → Opened
  failed : Option ℕ → Failure → Opened

-- Streams and files are handles. `get_public_url` is the `UrlProvider`'s. An error is its kind, which
-- wrapping it with `%w` keeps.
pub record Provider (W : Type 0) : Type 0 where
  pub file_exists : FilePath → W → Result Failure Bool × W
  pub delete_file : FilePath → W → Option Failure × W
  pub delete_dir : FilePath → W → Option Failure × W
  pub write : FilePath → ℕ → W → Option Failure × W
  pub read_file : FilePath → W → Opened × W
  pub read_dir : FilePath → W → Result Failure (List FilePath) × W
  pub mk_dir : FilePath → W → Option Failure × W
  pub copy : FilePath → FilePath → W → Option Failure × W
  pub move : FilePath → FilePath → W → Option Failure × W
  pub get_public_url : FilePath → W → Result Failure (List ℕ) × W
  pub close : W → Option Failure × W

-- `os.Open`, `os.Create`, `io.Copy`, and the two kinds of Close.
pub record Files (W : Type 0) : Type 0 where
  pub open_file : FilePath → W → Result Failure ℕ × W
  pub create : FilePath → W → Result Failure ℕ × W
  pub copy_all : ℕ → ℕ → W → Option Failure × W
  pub close_file : ℕ → W → Option Failure × W
  pub close_stream : ℕ → W → W

-- The world and the variable that an operation under `withRetry` assigns.
pub record Held (A W : Type 0) : Type 0 where
  pub held : A
  pub world : W

module _ {A W : Type 0} where
  abbrev pub lift_context : Context W Failure → Context (Held A W) Failure
  lift_context ctx = record {
    done = λ h. let (e, w) = ctx.done h.world in (e, record h { world = w });
    wait = λ t h. let (b, w) = ctx.wait t h.world in (b, record h { world = w });
  }

  abbrev pub assigned : Held A W → Result Failure A × W → Option Failure × Held A W
  assigned h (ok a, w) = (none, record { held = a; world = w })
  assigned h (err e, w) = (some e, record h { world = w })

  abbrev pub assign : (W → Result Failure A × W) → Held A W → Option Failure × Held A W
  assign op h = assigned h (op h.world)

  abbrev pub released : Option Failure × Held A W → Result Failure A × W
  released (none, h) = (ok h.held, h.world)
  released (some e, h) = (err e, h.world)

module _ {W : Type 0} (provider : Provider W) (files : Files W) (ctx : Context W Failure)
    (policy : Option Policy) (retryable : Option (Option Failure → Bool)) where
  abbrev pub retrying : (W → Option Failure × W) → W → Option Failure × W
  retrying op w = with_retry ctx retryable policy op w

  -- The variable starts with the zero value of its type.
  unfoldable pub retrying_value :
      {A : Type 0} → A → (W → Result Failure A × W) → W → Result Failure A × W
  unfolding with_retry
  retrying_value zero_value op w = released (
      with_retry (lift_context ctx) retryable policy (assign op)
        (record { held = zero_value; world = w }))

  unfoldable pub file_exists : FilePath → W → Result Failure Bool × W
  unfolding retrying_value
  file_exists path = retrying_value false (provider.file_exists path)

  unfoldable pub delete_file : FilePath → W → Option Failure × W
  unfolding with_retry
  delete_file path = retrying (provider.delete_file path)

  unfoldable pub delete_dir : FilePath → W → Option Failure × W
  unfolding with_retry
  delete_dir path = retrying (provider.delete_dir path)

  -- A stream is used up by one attempt, so it is not tried again.
  unfoldable pub write : FilePath → ℕ → W → Option Failure × W
  write path stream w = provider.write path stream w

  abbrev pub closing_stream : ℕ → Option Failure × W → Option Failure × W
  closing_stream handle (e, w) = (e, files.close_stream handle w)

  abbrev pub write_opened : FilePath → Result Failure ℕ × W → Option Failure × W
  write_opened path (err e, w) = (some e, w)
  write_opened path (ok file, w) = closing_stream file (provider.write path file w)

  unfoldable pub write_file : FilePath → FilePath → W → Option Failure × W
  unfolding with_retry
  write_file path filename = retrying (λ w. write_opened path (files.open_file filename w))

  -- The stream, or the error after a stream that came with it is closed.
  abbrev pub stream_of : Opened × W → Result Failure (Option ℕ) × W
  stream_of (opened stream, w) = (ok (some stream), w)
  stream_of (failed none e, w) = (err e, w)
  stream_of (failed (some stream) e, w) = (err e, files.close_stream stream w)

  unfoldable pub read_file : FilePath → W → Result Failure (Option ℕ) × W
  unfolding retrying_value
  read_file path = retrying_value none (λ w. stream_of (provider.read_file path w))

  abbrev pub copied : ℕ → Option Failure × W → Option Failure × W
  copied dest (none, w) = files.close_file dest w
  copied dest (some e, w) = let (ignored, u) = files.close_file dest w in (some e, u)

  abbrev pub download_into : ℕ → Result Failure ℕ × W → Option Failure × W
  download_into stream (err e, w) = (some e, w)
  download_into stream (ok dest, w) = copied dest (files.copy_all dest stream w)

  abbrev pub download_from : FilePath → Opened × W → Option Failure × W
  download_from filename (failed stream e, w) = (some e, w)
  download_from filename (opened stream, w) =
      closing_stream stream (download_into stream (files.create filename w))

  abbrev pub download_once : FilePath → FilePath → W → Option Failure × W
  download_once path filename w = download_from filename (provider.read_file path w)

  unfoldable pub download_file : FilePath → FilePath → W → Option Failure × W
  unfolding with_retry
  download_file path filename = retrying (download_once path filename)

  unfoldable pub read_dir : FilePath → W → Result Failure (List FilePath) × W
  unfolding retrying_value
  read_dir path = retrying_value [] (provider.read_dir path)

  unfoldable pub mk_dir : FilePath → W → Option Failure × W
  unfolding with_retry
  mk_dir path = retrying (provider.mk_dir path)

  unfoldable pub copy : FilePath → FilePath → W → Option Failure × W
  unfolding with_retry
  copy src_path dst_path = retrying (provider.copy src_path dst_path)

  unfoldable pub move : FilePath → FilePath → W → Option Failure × W
  unfolding with_retry
  move src_path dst_path = retrying (provider.move src_path dst_path)

  unfoldable pub get_public_url : FilePath → W → Result Failure (List ℕ) × W
  unfolding retrying_value
  get_public_url path = retrying_value [] (provider.get_public_url path)

  unfoldable pub close : W → Option Failure × W
  close w = provider.close w
