-- ===== src/Kafka/Attempts.antt =====
-- kafka/consumer.go: how often a record is tried, and what is kept of it.
use golang_core.Prelude.{
  ℕ, zero, suc, ◌+◌, ◌<◌, ◌≤◌, ◌≡◌, refl, ap, sym, ◌∙◌, subst, arith, Bool, true, false, Option,
  none, some,
}
use golang_core.Prelude.Dict.{Dict, get, remove, get-put_self, get-remove_self}
use golang_core.Kafka.{
  Setup, Consumer, Record, Message, TopicPartitionOffset, tpo_discrete, place_of, positive, or_zero,
  count, counted, process_rounds,
}
use golang_core.Kafka.Rounds.{
  Round, handled, gave_up, cut, again, Kept, unchanged, one_more, tried, process-Round,
}

apart : {A : Type 0} {a : A} → Path (Option A) none (some a) → ⊥
apart h = cc

some_inj : {A : Type 0} {a b : A} → Path (Option A) (some a) (some b) → a ≡ b
some_inj h = cc

module _ {W T E : Type 0} (setup : Setup W T E) where
  -- It comes back with an answer.
  abbrev pub Ends : Option Bool × Consumer W → Type 0
  Ends x = (b : Bool) × (d : Consumer W) × (x ≡ (some b, d))

module _ {W T E : Type 0} (setup : Setup W T E) (r : Record) (message : Message T) where
  Round-Ends :
      (fuel : ℕ) (c : Consumer W) (x : Option Bool × Consumer W)
      → Round setup r message fuel c x
      → ((d : Consumer W)
          → Kept setup r message c d
          → Ends setup (process_rounds setup fuel r message d))
      → Ends setup x
  Round-Ends fuel c x (handled d e) h = (false, d, refl)
  Round-Ends fuel c x (gave_up b d e) h = (b, d, refl)
  Round-Ends fuel c x (cut d k) h = (true, d, refl)
  Round-Ends fuel c x (again d k) h = h d k

  -- A round that is not the last has counted one more try.
  Kept-tried :
      (max : ℕ)
      → positive setup.max_processing_attempts ≡ some max
      → (c d : Consumer W) → Kept setup r message c d
      → (tried setup r message d ≡ suc (tried setup r message c))
        × (suc (tried setup r message c) < max)
  Kept-tried max p c d (unchanged q e) = absurd (apart (sym q ∙ p))
  Kept-tried max p c d (one_more top q less e) = (
    ap or_zero (
        ap (λ x. get tpo_discrete x (place_of r)) e
        ∙ get-put_self tpo_discrete c.attempts (place_of r) (count setup r c)),
    subst (λ m. count setup r c < m) (some_inj (sym q ∙ p)) less,
  )

  pub rounds-Ends :
      (max : ℕ)
      → positive setup.max_processing_attempts ≡ some max
      → (fuel : ℕ) (c : Consumer W) → max ≤ tried setup r message c + fuel
      → 1 ≤ fuel
      → Ends setup (process_rounds setup fuel r message c)
  rounds-Ends max p zero c h one = absurd (omega arith)
  rounds-Ends max p (suc fuel) c h one =
      Round-Ends fuel c (process_rounds setup (suc fuel) r message c)
        (process-Round setup r message fuel c)
        (λ d k.
          let (e, less) = Kept-tried max p c d k in
          rounds-Ends max p fuel d (omega (arith, e, less, h)) (omega (arith, e, less, h)))

  -- Where the partition goes on, nothing is kept of the record.
  abbrev Forgotten : Option Bool × Consumer W → Type 0
  Forgotten x = x.0 ≡ some false → get tpo_discrete x.1.attempts (place_of r) ≡ none

  Round-Forgotten :
      (fuel : ℕ) (c : Consumer W) (x : Option Bool × Consumer W)
      → Round setup r message fuel c x
      → ((d : Consumer W) → Forgotten (process_rounds setup fuel r message d))
      → Forgotten x
  Round-Forgotten fuel c x (handled d e) h q =
      ap (λ a. get tpo_discrete a (place_of r)) e
      ∙ get-remove_self tpo_discrete c.attempts (place_of r)
  Round-Forgotten fuel c x (gave_up b d e) h q =
      ap (λ a. get tpo_discrete a (place_of r)) e
      ∙ get-remove_self tpo_discrete (counted setup r c).attempts (place_of r)
  Round-Forgotten fuel c x (cut d k) h q = absurd cc
  Round-Forgotten fuel c x (again d k) h q = h d q

  pub rounds-Forgotten :
      (fuel : ℕ) (c : Consumer W) → Forgotten (process_rounds setup fuel r message c)
  unfolding process_rounds
  rounds-Forgotten zero c = λ q. absurd cc
  rounds-Forgotten (suc fuel) c =
      Round-Forgotten fuel c (process_rounds setup (suc fuel) r message c)
        (process-Round setup r message fuel c) (rounds-Forgotten fuel)

  -- A count of this record that is left is more than the one before, and below the limit.
  abbrev pub Counted : ℕ → ℕ → Option Bool × Consumer W → Type 0
  Counted max before x =
      (n : ℕ) → get tpo_discrete x.1.attempts (place_of r) ≡ some n → (before < n) × (n < max)

  Kept-Counted :
      (max : ℕ)
      → positive setup.max_processing_attempts ≡ some max
      → (c d : Consumer W) (b : Option Bool) → Kept setup r message c d
      → Counted max (tried setup r message c) (b, d)
  Kept-Counted max p c d b k n g =
      let (e, less) = Kept-tried max p c d k in
      let same : tried setup r message d ≡ n = ap or_zero g in
      (omega (arith, e, less, same), omega (arith, e, less, same))

  gone-Counted :
      (max before : ℕ) (x : Option Bool × Consumer W) (a : Dict TopicPartitionOffset ℕ)
      → x.1.attempts ≡ remove tpo_discrete a (place_of r)
      → Counted max before x
  gone-Counted max before x a e n g = absurd (
      apart (
        sym (get-remove_self tpo_discrete a (place_of r))
        ∙ ap (λ y. get tpo_discrete y (place_of r)) (sym e)
        ∙ g))

  Round-Counted :
      (max : ℕ)
      → positive setup.max_processing_attempts ≡ some max
      → (fuel : ℕ) (c : Consumer W) (x : Option Bool × Consumer W) → Round setup r message fuel c x
      → ((d : Consumer W)
          → Kept setup r message c d
          → Counted max (tried setup r message d) (process_rounds setup fuel r message d))
      → Counted max (tried setup r message c) x
  Round-Counted max p fuel c x (handled d e) h =
      gone-Counted max (tried setup r message c) (some false, d) c.attempts e
  Round-Counted max p fuel c x (gave_up b d e) h =
      gone-Counted max (tried setup r message c) (some b, d) (counted setup r c).attempts e
  Round-Counted max p fuel c x (cut d k) h = Kept-Counted max p c d (some true) k
  Round-Counted max p fuel c x (again d k) h = λ n g.
      let (e, less) = Kept-tried max p c d k in
      let (more, top) = h d k n g in (omega (arith, e, more), top)

  pub rounds-Counted :
      (max : ℕ)
      → positive setup.max_processing_attempts ≡ some max
      → (fuel : ℕ) (c : Consumer W) → max ≤ tried setup r message c + fuel
      → 1 ≤ fuel
      → Counted max (tried setup r message c) (process_rounds setup fuel r message c)
  rounds-Counted max p zero c h one = absurd (omega arith)
  rounds-Counted max p (suc fuel) c h one =
      Round-Counted max p fuel c (process_rounds setup (suc fuel) r message c)
        (process-Round setup r message fuel c)
        (λ d k.
          let (e, less) = Kept-tried max p c d k in
          rounds-Counted max p fuel d (omega (arith, e, less, h)) (omega (arith, e, less, h)))
