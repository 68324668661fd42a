-- ===== src/Kafka/Tests.antt =====
-- kafka/consumer.go: the theorems on concrete runs.
use golang_core.Prelude.{
  ℕ, ◌<◌, pos, Bool, Option, ◌≡◌, refl, arith, true, false, none, some, List, [], ◌∷◌, ok,
  ℕ_discrete, text_discrete, if◌then◌else◌, ◌==◌,
}
use golang_core.Prelude.Dict.{empty, get, put, remove, find, store, drop_key}
use golang_core.Retry.{Context, do_any, do_with_condition, rounds}
use golang_core.Kafka.{
  Setup, Consumer, Record, tp_discrete, tpo_discrete, place_of, process_record, process_rounds,
  handle_failed_record, attempt_handler, before_retry, auto_commit_record,
}
use golang_core.Kafka.Batch.{is_failed, mark_failed, each_record}
use golang_core.Kafka.Records.{process_record_forgets, process_record_counts}
use golang_core.Kafka.Partitions.{others, Finishes, stop_skips_partition, each_record-Finishes}

abbrev running : Context (List ℕ) ℕ
running = record { done = λ w. (none, w); wait = λ t w. (false, w) }

-- The handler fails for the offset 1; the world is the list of the offsets committed.
abbrev example_setup : Setup (List ℕ) (List ℕ) ℕ
example_setup = record {
  context = running;
  auto_commit = true;
  retry_policy = none;
  max_processing_attempts = pos 2;
  decode = λ bytes w. (ok bytes, w);
  decode_error_handler = none;
  failed_message_handler = some (λ r e w. (some e, w));
  handler = λ m w. (if m.offset == 1 then some 9 else none, w);
  commit = λ r w. (none, r.offset ∷ w);
  commit_uncommitted = λ w. (none, w);
  connect = λ w. (none, w);
  close = λ w. w;
  poll = λ w. ([], w);
}

abbrev at_offset : ℕ → Record
at_offset n = record {
  key = [];
  value = 65 ∷ [];
  topic = 84 ∷ [];
  partition = 0;
  offset = n;
  timestamp = 0;
  headers = [];
}

abbrev fresh_consumer : Consumer (List ℕ)
fresh_consumer = record { attempts = empty; connected = true; world = [] }

abbrev example_batch : List Record
example_batch = at_offset 2 ∷ []

stop_skips_partition_example :
    each_record example_setup 2 (at_offset 1 ∷ example_batch) empty fresh_consumer
    ≡ each_record example_setup 2
        (others (at_offset 1) example_batch)
        (mark_failed empty (at_offset 1))
        fresh_consumer
unfolding process_record process_rounds handle_failed_record attempt_handler before_retry
    auto_commit_record do_any do_with_condition rounds get put remove find store drop_key
    tpo_discrete tp_discrete text_discrete ℕ_discrete is_failed
stop_skips_partition_example =
    stop_skips_partition example_setup 2 (at_offset 1) example_batch empty fresh_consumer
      fresh_consumer refl refl

each_record-Finishes_example :
    Finishes (each_record example_setup 2 (at_offset 1 ∷ example_batch) empty fresh_consumer)
each_record-Finishes_example =
    each_record-Finishes example_setup 2 refl (omega arith) (at_offset 1 ∷ example_batch) empty
      fresh_consumer

process_record_forgets_example :
    get tpo_discrete
      (process_record example_setup 2 (at_offset 5) fresh_consumer).1.attempts
      (place_of (at_offset 5))
    ≡ none
unfolding process_record process_rounds handle_failed_record attempt_handler before_retry
    auto_commit_record do_any do_with_condition rounds get put remove find store drop_key
    tpo_discrete text_discrete ℕ_discrete
process_record_forgets_example =
    process_record_forgets example_setup 2 (at_offset 5) (65 ∷ []) fresh_consumer refl refl

-- The context is done when the second attempt is to wait, or to begin.
abbrev cut_setup : Setup (List ℕ) (List ℕ) ℕ
cut_setup = record example_setup {
  context = record { done = λ w. (some 6, w); wait = λ t w. (true, w) };
  max_processing_attempts = pos 3;
}

abbrev cut_record : Option Bool × Consumer (List ℕ)
cut_record = process_record cut_setup 3 (at_offset 1) fresh_consumer

process_record_counts_example : (0 < 1) × (1 < 3)
unfolding process_record process_rounds handle_failed_record attempt_handler before_retry
    auto_commit_record do_any do_with_condition rounds get put remove find store drop_key
    tpo_discrete text_discrete ℕ_discrete
process_record_counts_example =
    process_record_counts cut_setup 3 (at_offset 1) (65 ∷ []) fresh_consumer refl (omega arith) refl
      1 refl
