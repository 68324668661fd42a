-- ===== src/Kafka/Rounds.antt =====
-- kafka/consumer.go: the rounds of the loop of `processRecord`.
use golang_core.Prelude.{
  ℕ, suc, ◌<◌, ◌≡◌, refl, sym, subst, arith, Bool, true, false, Option, none, some,
}
use golang_core.Prelude.Dict.{get}
use golang_core.Kafka.{
  Setup, Consumer, Record, Message, ProcessAction, action_retry, action_stop, action_skip,
  tpo_discrete, place_of, positive, count, counted, forget, finish, handle_failed_record,
  attempt_handler, before_retry, process_rounds, or_zero,
}
use golang_core.Kafka.Failures.{
  Failure, unlimited, counts, stops, skips, handle-Failure, attempts-auto_commit_record,
}

module _ {W T E : Type 0} (setup : Setup W T E) (r : Record) (message : Message T) where
  -- How often the record was tried so far.
  abbrev pub tried : Consumer W → ℕ
  tried c = or_zero (get tpo_discrete c.attempts (place_of r))

  -- The attempts are those of `c`, or one more for this record, which is not the last.
  pub data Kept (c d : Consumer W) : Type 0 where
    unchanged : positive setup.max_processing_attempts ≡ none → d.attempts ≡ c.attempts → Kept c d
    one_more :
        (max : ℕ)
        → positive setup.max_processing_attempts ≡ some max
        → count setup r c < max
        → d.attempts ≡ (counted setup r c).attempts
        → Kept c d

  -- The ways in which a round with `fuel` rounds behind it ends.
  pub data Round (fuel : ℕ) (c : Consumer W) : Option Bool × Consumer W → Type 0 where
    handled :
        (d : Consumer W) → d.attempts ≡ (forget setup r c).attempts → Round fuel c (some false, d)
    gave_up :
        (b : Bool) (d : Consumer W)
        → d.attempts ≡ (forget setup r (counted setup r c)).attempts
        → Round fuel c (some b, d)
    cut : (d : Consumer W) → Kept c d → Round fuel c (some true, d)
    again : (d : Consumer W) → Kept c d → Round fuel c (process_rounds setup fuel r message d)

  abbrev tail_of : ℕ → ProcessAction × Consumer W → Option Bool × Consumer W
  tail_of fuel (action, c2) =
      let (stop, w3) = before_retry setup c2.world in
      let c3 = record c2 { world = w3 } in
      let rest = process_rounds setup fuel r message c3 in
      elim action [
        | action_stop ↦ (some true, c2)
        | action_skip ↦ (some false, c2)
        | action_retry ↦ elim stop [ some b ↦ (some b, c3) | none ↦ rest ]
      ]

  before_retry-stops : (w : W) (b : Bool) → (before_retry setup w).0 ≡ some b → b ≡ true
  unfolding before_retry
  before_retry-stops w b q = ground arith

  with_world-Kept : (c d : Consumer W) (w : W) → Kept c d → Kept c (record d { world = w })
  with_world-Kept c d w (unchanged q e) = unchanged q e
  with_world-Kept c d w (one_more max q h e) = one_more max q h e

  stopped-Round :
      (fuel : ℕ) (c d : Consumer W) (x : Option Bool) (w : W)
      → ((b : Bool) → x ≡ some b → b ≡ true)
      → Kept c (record d { world = w })
      → Round fuel c (elim x [
        | some b ↦ (some b, record d { world = w })
        | none ↦ process_rounds setup fuel r message (record d { world = w })
      ])
  stopped-Round fuel c d none w t k = again (record d { world = w }) k
  stopped-Round fuel c d (some b) w t k =
      subst (λ b. Round fuel c (some b, record d { world = w })) (sym (t b refl))
        (cut (record d { world = w }) k)

  retried-Round :
      (fuel : ℕ) (c d : Consumer W) → Kept c d → Round fuel c (tail_of fuel (action_retry, d))
  retried-Round fuel c d k =
      stopped-Round fuel c d (before_retry setup d.world).0 (before_retry setup d.world).1
        (before_retry-stops d.world) (with_world-Kept c d (before_retry setup d.world).1 k)

  tail-Round :
      (fuel : ℕ) (c : Consumer W) (w : W) (x : ProcessAction × Consumer W)
      → Failure setup r (record c { world = w }) x
      → Round fuel c (tail_of fuel x)
  tail-Round fuel c w x (unlimited q) =
      retried-Round fuel c (record c { world = w }) (unchanged q refl)
  tail-Round fuel c w x (counts max q h) =
      retried-Round fuel c (counted setup r (record c { world = w })) (one_more max q h refl)
  tail-Round fuel c w x (stops max d q h e) = gave_up true d e
  tail-Round fuel c w x (skips max d q h e) = gave_up false d e

  started-Round :
      (fuel : ℕ) (c : Consumer W) (w : W) (failure : Option E)
      → Round fuel c (elim failure [
        | none ↦ let (stop, c2) = finish setup r (record c { world = w }) in (some stop, c2)
        | some e ↦ tail_of fuel (handle_failed_record setup r e (record c { world = w }))
      ])
  started-Round fuel c w none =
      handled (finish setup r (record c { world = w })).1
        (attempts-auto_commit_record setup r (forget setup r (record c { world = w })))
  started-Round fuel c w (some e) =
      tail-Round fuel c w (handle_failed_record setup r e (record c { world = w }))
        (handle-Failure setup r e (record c { world = w }))

  pub process-Round :
      (fuel : ℕ) (c : Consumer W) → Round fuel c (process_rounds setup (suc fuel) r message c)
  unfolding process_rounds
  process-Round fuel c =
      started-Round fuel c (attempt_handler setup message c.world).1
        (attempt_handler setup message c.world).0
