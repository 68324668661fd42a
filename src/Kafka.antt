-- ===== src/Kafka.antt =====
-- kafka/consumer.go: the loop over the records of a topic. The client, the protocol, the handlers and the
-- clock are third-party or given by the caller: they are functions on a world `W`, with errors in `E`.
pub mod Failures
pub mod Rounds
pub mod Attempts
pub mod Records
pub mod Batch
pub mod Partitions
mod Tests
use golang_core.Prelude.{
  ℕ, zero, suc, ◌+◌, ℤ, pos, negsuc, Bool, true, false, Option, none, some, List, [], ◌∷◌, Result,
  ok, err, ltb, if◌then◌else◌, text_discrete, ℕ_discrete,
}
use golang_core.Prelude.Dict.{Dict, empty, get, put, remove}
use golang_core.Retry.{Policy, Context, do_any}

-- `kgo.Record`
pub record Record : Type 0 where
  pub key : List ℕ
  pub value : List ℕ
  pub topic : List ℕ
  pub partition : ℕ
  pub offset : ℕ
  pub timestamp : ℕ
  pub headers : List (List ℕ × List ℕ)

pub record Message (T : Type 0) : Type 0 where
  pub value : T
  pub key : List ℕ
  pub topic : List ℕ
  pub partition : ℕ
  pub offset : ℕ
  pub timestamp : ℕ
  pub headers : List (List ℕ × List ℕ)

abbrev pub new_message : {T : Type 0} → T → Record → Message T
new_message value r = record {
  value = value;
  key = r.key;
  topic = r.topic;
  partition = r.partition;
  offset = r.offset;
  timestamp = r.timestamp;
  headers = r.headers;
}

pub data ProcessAction : Type 0 where
  action_retry : ProcessAction
  action_stop : ProcessAction
  action_skip : ProcessAction

abbrev pub TopicPartition : Type 0
TopicPartition = List ℕ × ℕ

abbrev pub TopicPartitionOffset : Type 0
TopicPartitionOffset = List ℕ × (ℕ × ℕ)

unfoldable pub tp_discrete : Discrete TopicPartition
tp_discrete = hlevel (text_discrete, ℕ_discrete)

unfoldable pub tpo_discrete : Discrete TopicPartitionOffset
tpo_discrete = hlevel (text_discrete, ℕ_discrete)

abbrev pub part_of : Record → TopicPartition
part_of r = (r.topic, r.partition)

abbrev pub place_of : Record → TopicPartitionOffset
place_of r = (r.topic, (r.partition, r.offset))

-- What the consumer is given: the settings, the functions of the caller and of the protocol, and the
-- client. `commit` is the client's CommitRecords; a message's own Commit is part of the handler's world.
pub record Setup (W T E : Type 0) : Type 0 where
  pub context : Context W E
  pub auto_commit : Bool
  pub retry_policy : Option Policy
  pub max_processing_attempts : ℤ
  pub decode : List ℕ → W → Result E T × W
  pub decode_error_handler : Option (Record → E → W → Option E × W)
  pub failed_message_handler : Option (Record → E → W → Option E × W)
  pub handler : Message T → W → Option E × W
  pub commit : Record → W → Option E × W
  pub commit_uncommitted : W → Option E × W
  -- A new client that answers a ping, made through the circuit breaker, and its end.
  pub connect : W → Option E × W
  pub close : W → W
  pub poll : W → List Record × W

-- The consumer: how often each message was tried, and whether the client is there.
pub record Consumer (W : Type 0) : Type 0 where
  pub attempts : Dict TopicPartitionOffset ℕ
  pub connected : Bool
  pub world : W

-- One second, in nanoseconds.
abbrev pub default_retry_delay : ℕ
default_retry_delay = 1000000000

abbrev pub positive : ℤ → Option ℕ
positive (negsuc n) = none
positive (pos zero) = none
positive (pos (suc n)) = some (suc n)

-- The number that the map has for a key, 0 if there is none.
abbrev pub or_zero : Option ℕ → ℕ
or_zero none = 0
or_zero (some n) = n

module _ {W T E : Type 0} (setup : Setup W T E) where
  abbrev pub ensure_connected : Consumer W → Option E × Consumer W
  ensure_connected c =
      let (failure, w) = setup.connect c.world in
      if c.connected then (none, c) else elim failure [
        | some e ↦ (some e, record c { world = w })
        | none ↦ (none, record c { connected = true; world = w })
      ]

  abbrev pub stop : Consumer W → Consumer W
  stop c = if c.connected then record c { connected = false; world = setup.close c.world } else c

  -- `commitRecord` under AutoCommit; its error is only logged.
  unfoldable pub auto_commit_record : Record → Consumer W → Consumer W
  auto_commit_record r c =
      if setup.auto_commit
      then (if c.connected then record c { world = (setup.commit r c.world).1 } else c)
      else c

  abbrev pub count : Record → Consumer W → ℕ
  count r c = suc (or_zero (get tpo_discrete c.attempts (place_of r)))

  abbrev pub counted : Record → Consumer W → Consumer W
  counted r c = record c { attempts = put tpo_discrete c.attempts (place_of r) (count r c) }

  abbrev pub forget : Record → Consumer W → Consumer W
  forget r c = record c { attempts = remove tpo_discrete c.attempts (place_of r) }

  -- The end of `handleFailedRecord`, for what the failed message handler returned, and the deferred delete.
  abbrev pub give_up : Record → Option E × W → Consumer W → ProcessAction × Consumer W
  give_up r (some e, w) c = (action_stop, forget r (record c { world = w }))
  give_up r (none, w) c = (action_skip, forget r (auto_commit_record r (record c { world = w })))

  abbrev pub rejected : Record → E → W → Option E × W
  rejected r e w = elim setup.failed_message_handler [ none ↦ (none, w) | some f ↦ f r e w ]

  unfoldable pub handle_failed_record : Record → E → Consumer W → ProcessAction × Consumer W
  unfolding auto_commit_record
  handle_failed_record r e c = elim (positive setup.max_processing_attempts) [
    | none ↦ (action_retry, c)
    | some max ↦
        if ltb (count r c) max
        then (action_retry, counted r c)
        else give_up r (rejected r e c.world) (counted r c)
  ]

  -- The handler, run by `retry.Do`.
  unfoldable pub attempt_handler : Message T → W → Option E × W
  attempt_handler message w =
      let (outcome, u) =
        do_any setup.context tt setup.retry_policy
          (λ v. let (e, x) = setup.handler message v in ((tt {0}, e), x)) w in
      (outcome.1, u)

  abbrev pub finish : Record → Consumer W → Bool × Consumer W
  finish r c = (false, auto_commit_record r (forget r c))

  -- What comes after `actionRetry`: none if the handler is tried again.
  unfoldable pub before_retry : W → Option Bool × W
  before_retry w =
      let (cause, w1) = setup.context.done w in
      let (cancelled, w2) = setup.context.wait default_retry_delay w1 in
      elim cause [
        | some e ↦ (some true, w1)
        | none ↦ elim setup.retry_policy [
          | some policy ↦ (none, w1)
          | none ↦ if cancelled then (some true, w2) else (none, w2)
        ]
      ]

  -- The endless loop of `processRecord`, with fuel; none is no answer within it.
  unfoldable pub process_rounds : ℕ → Record → Message T → Consumer W → Option Bool × Consumer W
  unfolding handle_failed_record attempt_handler before_retry auto_commit_record
  process_rounds zero r message c = (none, c)
  process_rounds (suc fuel) r message c =
      let (failure, w1) = attempt_handler message c.world in
      let c1 = record c { world = w1 } in
      elim failure [
        | none ↦ let (stop, c2) = finish r c1 in (some stop, c2)
        | some e ↦
            let (action, c2) = handle_failed_record r e c1 in
            let (stop, w3) = before_retry c2.world in
            let c3 = record c2 { world = w3 } in
            let rest = process_rounds fuel r message c3 in
            elim action [
              | action_stop ↦ (some true, c2)
              | action_skip ↦ (some false, c2)
              | action_retry ↦ elim stop [ some b ↦ (some b, c3) | none ↦ rest ]
            ]
      ]

  abbrev pub decode_failed : Record → E → W → Option E × W
  decode_failed r e w = elim setup.decode_error_handler [ none ↦ (none, w) | some f ↦ f r e w ]

  abbrev pub skip_record : Record → Option E × W → Consumer W → Bool × Consumer W
  skip_record r (some e, w) c = (true, record c { world = w })
  skip_record r (none, w) c = (false, auto_commit_record r (record c { world = w }))

  unfoldable pub process_record : ℕ → Record → Consumer W → Option Bool × Consumer W
  unfolding process_rounds
  process_record fuel r c =
      let (decoded, w) = setup.decode r.value c.world in
      elim decoded [
        | err e ↦
            let (stop, c2) = skip_record r (decode_failed r e w) (record c { world = w }) in
            (some stop, c2)
        | ok value ↦ process_rounds fuel r (new_message value r) (record c { world = w })
      ]
