-- ===== src/Kafka/Failures.antt =====
-- kafka/consumer.go: the ways in which `handleFailedRecord` ends.
use golang_core.Prelude.{
  ℕ, ◌<◌, ◌≤◌, ◌≡◌, refl, ap, arith, Bool, true, false, Option, none, some, ltb, if◌then◌else◌,
}
use golang_core.Prelude.Dict.{remove}
use golang_core.Kafka.{
  Setup, Consumer, Record, ProcessAction, action_retry, action_stop, action_skip, tpo_discrete,
  place_of, positive, count, counted, forget, give_up, rejected, auto_commit_record,
  handle_failed_record,
}

module _ {W T E : Type 0} (setup : Setup W T E) where
  -- The action, and what the map of the attempts then is.
  pub data Failure (r : Record) (c : Consumer W) : ProcessAction × Consumer W → Type 0 where
    unlimited : positive setup.max_processing_attempts ≡ none → Failure r c (action_retry, c)
    counts :
        (max : ℕ)
        → positive setup.max_processing_attempts ≡ some max
        → count setup r c < max
        → Failure r c (action_retry, counted setup r c)
    stops :
        (max : ℕ) (d : Consumer W)
        → positive setup.max_processing_attempts ≡ some max
        → max ≤ count setup r c
        → d.attempts ≡ (forget setup r (counted setup r c)).attempts
        → Failure r c (action_stop, d)
    skips :
        (max : ℕ) (d : Consumer W)
        → positive setup.max_processing_attempts ≡ some max
        → max ≤ count setup r c
        → d.attempts ≡ (forget setup r (counted setup r c)).attempts
        → Failure r c (action_skip, d)

  pub attempts-auto_commit_record :
      (r : Record) (c : Consumer W) → (auto_commit_record setup r c).attempts ≡ c.attempts
  unfolding auto_commit_record
  attempts-auto_commit_record r c = ground arith

  give_up-Failure :
      (r : Record) (c : Consumer W) (x : Option E × W) (max : ℕ)
      → positive setup.max_processing_attempts ≡ some max
      → max ≤ count setup r c
      → Failure r c (give_up setup r x (counted setup r c))
  give_up-Failure r c (some e, w) max q h =
      stops max (forget setup r (record (counted setup r c) { world = w })) q h refl
  give_up-Failure r c (none, w) max q h =
      skips max
        (forget setup r (auto_commit_record setup r (record (counted setup r c) { world = w }))) q h
        (ap (λ a. remove tpo_discrete a (place_of r))
          (attempts-auto_commit_record r (record (counted setup r c) { world = w })))

  chosen-Failure :
      (r : Record) (e : E) (c : Consumer W) (max : ℕ) (b : Bool)
      → positive setup.max_processing_attempts ≡ some max
      → ltb (count setup r c) max ≡ b
      → Failure r c (
          if b
          then (action_retry, counted setup r c)
          else give_up setup r (rejected setup r e c.world) (counted setup r c))
  chosen-Failure r e c max true q h = counts max q (ground arith)
  chosen-Failure r e c max false q h =
      give_up-Failure r c (rejected setup r e c.world) max q (ground arith)

  limited-Failure :
      (r : Record) (e : E) (c : Consumer W) (o : Option ℕ)
      → positive setup.max_processing_attempts ≡ o
      → Failure r c (elim o [
        | none ↦ (action_retry, c)
        | some max ↦
            if ltb (count setup r c) max
            then (action_retry, counted setup r c)
            else give_up setup r (rejected setup r e c.world) (counted setup r c)
      ])
  limited-Failure r e c none q = unlimited q
  limited-Failure r e c (some max) q = chosen-Failure r e c max (ltb (count setup r c) max) q refl

  pub handle-Failure :
      (r : Record) (e : E) (c : Consumer W) → Failure r c (handle_failed_record setup r e c)
  unfolding handle_failed_record
  handle-Failure r e c = limited-Failure r e c (positive setup.max_processing_attempts) refl
