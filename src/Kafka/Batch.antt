-- ===== src/Kafka/Batch.antt =====
-- kafka/consumer.go: `Consume`, the records of one poll and the loop over the polls.
use golang_core.Prelude.{
  ℕ, zero, suc, Bool, true, false, Option, none, some, List, [], ◌∷◌, if◌then◌else◌,
}
use golang_core.Prelude.Dict.{Dict, empty, get, put}
use golang_core.Kafka.{
  Setup, Consumer, Record, TopicPartition, tp_discrete, part_of, process_record, ensure_connected,
}

-- The entry of a map of Booleans, false if there is none.
abbrev pub or_false : Option Bool → Bool
or_false none = false
or_false (some b) = b

abbrev pub Failed : Type 0
Failed = Dict TopicPartition Bool

unfoldable pub is_failed : Failed → Record → Bool
is_failed failed r = or_false (get tp_discrete failed (part_of r))

unfoldable pub mark_failed : Failed → Record → Failed
mark_failed failed r = put tp_discrete failed (part_of r) true

module _ {W T E : Type 0} (setup : Setup W T E) (fuel : ℕ) where
  -- `EachRecord`; none is a record whose loop has run out of fuel.
  unfoldable pub each_record : List Record → Failed → Consumer W → Option Failed × Consumer W
  unfolding is_failed mark_failed
  each_record [] failed c = (some failed, c)
  each_record (r ∷ rs) failed c = elim (is_failed failed r) [
    | true ↦ each_record rs failed c
    | false ↦
        let (answer, d) = process_record setup fuel r c in
        elim answer [
          | none ↦ (none, d)
          | some stop ↦ each_record rs (if stop then mark_failed failed r else failed) d
        ]
  ]

  abbrev pub flush_offsets : Consumer W → Consumer W
  flush_offsets c =
      if setup.auto_commit then record c { world = (setup.commit_uncommitted c.world).1 } else c

  -- The loop of `Consume`, with `polls` as its fuel.
  unfoldable pub poll_rounds : ℕ → Consumer W → Option E × Consumer W
  unfolding each_record
  poll_rounds zero c = (none, c)
  poll_rounds (suc polls) c =
      let (cause, w1) = setup.context.done c.world in
      let (records, w2) = setup.poll w1 in
      let (cut, w3) = setup.context.done w2 in
      let (failed, d) = each_record records empty (record c { world = w3 }) in
      let rest = poll_rounds polls d in
      elim cause [
        | some e ↦ (some e, flush_offsets (record c { world = w1 }))
        | none ↦ elim cut [
          | some e ↦ (some e, flush_offsets (record c { world = w3 }))
          | none ↦ elim failed [ none ↦ (none, d) | some f ↦ rest ]
        ]
      ]

  unfoldable pub consume : ℕ → Consumer W → Option E × Consumer W
  unfolding poll_rounds
  consume polls c =
      let (failure, d) = ensure_connected setup c in
      elim failure [ some e ↦ (some e, d) | none ↦ poll_rounds polls d ]
