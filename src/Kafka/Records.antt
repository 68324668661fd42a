-- ===== src/Kafka/Records.antt =====
-- kafka/consumer.go: laws of `processRecord`, the decoding included.
use golang_core.Prelude.{
  ℕ, zero, suc, ℤ, pos, negsuc, ◌<◌, ◌≤◌, ◌≡◌, refl, arith, Bool, false, Option, none, some, Result,
  ok, err,
}
use golang_core.Prelude.Dict.{get}
use golang_core.Kafka.{
  Setup, Consumer, Record, tpo_discrete, place_of, positive, or_zero, process_rounds,
  process_record, new_message, skip_record, decode_failed,
}
use golang_core.Kafka.Failures.{attempts-auto_commit_record}
use golang_core.Kafka.Attempts.{Ends, rounds-Ends, rounds-Forgotten, rounds-Counted}

positive_le : (z : ℤ) (m : ℕ) → positive z ≡ some m → 1 ≤ m
positive_le (negsuc n) m q = absurd cc
positive_le (pos zero) m q = absurd cc
positive_le (pos (suc n)) m q = let e : suc n ≡ m = cc in omega (arith, e)

module _ {W T E : Type 0} (setup : Setup W T E) (fuel : ℕ) (r : Record) where
  -- A record that cannot be decoded leaves the counts as they are; any other one enters the loop.
  data Decoded (c : Consumer W) : Option Bool × Consumer W → Type 0 where
    skipped :
        (e : E) (stop : Bool) (d : Consumer W)
        → (setup.decode r.value c.world).0 ≡ err e
        → d.attempts ≡ c.attempts
        → Decoded c (some stop, d)
    entered :
        (v : T) (w : W)
        → Decoded c (process_rounds setup fuel r (new_message v r) (record c { world = w }))

  attempts-skip_record :
      (x : Option E × W) (c : Consumer W) → (skip_record setup r x c).1.attempts ≡ c.attempts
  attempts-skip_record (some e, w) c = refl
  attempts-skip_record (none, w) c = attempts-auto_commit_record setup r (record c { world = w })

  decoding-Decoded :
      (c : Consumer W) (x : Result E T) (w : W)
      → (setup.decode r.value c.world).0 ≡ x
      → Decoded c (elim x [
        | err e ↦
            let (stop, c2) =
              skip_record setup r (decode_failed setup r e w) (record c { world = w }) in
            (some stop, c2)
        | ok value ↦ process_rounds setup fuel r (new_message value r) (record c { world = w })
      ])
  decoding-Decoded c (err e) w q =
      let (stop, d) = skip_record setup r (decode_failed setup r e w) (record c { world = w }) in
      skipped e stop d q (attempts-skip_record (decode_failed setup r e w) (record c { world = w }))
  decoding-Decoded c (ok v) w q = entered v w

  process_record-Decoded : (c : Consumer W) → Decoded c (process_record setup fuel r c)
  unfolding process_record
  process_record-Decoded c =
      decoding-Decoded c (setup.decode r.value c.world).0 (setup.decode r.value c.world).1 refl

  Decoded-Ends :
      {m : ℕ} (c : Consumer W) (x : Option Bool × Consumer W)
      → positive setup.max_processing_attempts ≡ some m
      → m ≤ fuel
      → Decoded c x
      → Ends setup x
  Decoded-Ends c x top h (skipped e stop d q a) = (stop, d, refl)
  Decoded-Ends {m} c x top h (entered v w) =
      rounds-Ends setup r (new_message v r) m top fuel (record c { world = w }) (omega (arith, h))
        (omega (arith, h, positive_le setup.max_processing_attempts m top))

  -- With as many rounds as there are attempts, the loop comes to its end.
  pub process_record-Ends :
      {m : ℕ} (c : Consumer W)
      → positive setup.max_processing_attempts ≡ some m
      → m ≤ fuel
      → Ends setup (process_record setup fuel r c)
  process_record-Ends c top h =
      Decoded-Ends c (process_record setup fuel r c) top h (process_record-Decoded c)

  Decoded-forgets :
      (v : T) (c : Consumer W) (x : Option Bool × Consumer W)
      → Decoded c x
      → (setup.decode r.value c.world).0 ≡ ok v
      → x.0 ≡ some false
      → get tpo_discrete x.1.attempts (place_of r) ≡ none
  Decoded-forgets v c x (skipped e stop d q a) p s = absurd cc
  Decoded-forgets v c x (entered u w) p s =
      rounds-Forgotten setup r (new_message u r) fuel (record c { world = w }) s

  -- When a record was decoded and its partition goes on, whether the handler succeeded in the end or all
  -- its attempts were used up, no count of its attempts is left in the map.
  pub process_record_forgets :
      (v : T) (c : Consumer W)
      → (setup.decode r.value c.world).0 ≡ ok v
      → (process_record setup fuel r c).0 ≡ some false
      → get tpo_discrete (process_record setup fuel r c).1.attempts (place_of r) ≡ none
  process_record_forgets v c p s =
      Decoded-forgets v c (process_record setup fuel r c) (process_record-Decoded c) p s

  Decoded-counts :
      {m : ℕ} (v : T) (c : Consumer W) (x : Option Bool × Consumer W)
      → positive setup.max_processing_attempts ≡ some m
      → m ≤ fuel
      → Decoded c x
      → (setup.decode r.value c.world).0 ≡ ok v
      → (n : ℕ) → get tpo_discrete x.1.attempts (place_of r) ≡ some n
      → (or_zero (get tpo_discrete c.attempts (place_of r)) < n) × (n < m)
  Decoded-counts v c x top h (skipped e stop d q a) p = absurd cc
  Decoded-counts {m} v c x top h (entered u w) p =
      rounds-Counted setup r (new_message u r) m top fuel (record c { world = w })
        (omega (arith, h)) (omega (arith, h, positive_le setup.max_processing_attempts m top))

  -- Where the number of attempts is limited to `m` and the loop has that many rounds: if a count of a
  -- decoded record is left in the map after `processRecord`, then that count is more than the one before
  -- it and less than `m`.
  pub process_record_counts :
      {m : ℕ} (v : T) (c : Consumer W)
      → positive setup.max_processing_attempts ≡ some m
      → m ≤ fuel
      → (setup.decode r.value c.world).0 ≡ ok v
      → (n : ℕ) → get tpo_discrete (process_record setup fuel r c).1.attempts (place_of r) ≡ some n
      → (or_zero (get tpo_discrete c.attempts (place_of r)) < n) × (n < m)
  process_record_counts v c top h p =
      Decoded-counts v c (process_record setup fuel r c) top h (process_record-Decoded c) p
