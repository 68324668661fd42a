-- ===== src/Kafka/Partitions.antt =====
-- kafka/consumer.go: what a poll does with the records of its partitions.
use golang_core.Prelude.{
  ℕ, ◌≤◌, ◌≡◌, refl, ap, sym, ◌∙◌, subst, arith, Bool, true, false, Bool-cases, Option, none, some,
  inl, inr, if_pos, if_neg, List, [], ◌∷◌, ite, if◌then◌else◌,
}
use golang_core.Prelude.Dict.{get, get-put_self, get-put}
use golang_core.Kafka.{Setup, Consumer, Record, tp_discrete, part_of, positive, process_record}
use golang_core.Kafka.Batch.{Failed, is_failed, mark_failed, each_record, or_false}
use golang_core.Kafka.Attempts.{Ends}
use golang_core.Kafka.Records.{process_record-Ends}

-- The records that are not of the partition of `r`.
unfoldable pub others : Record → List Record → List Record
others r [] = []
others r (x ∷ xs) = ite (tp_discrete (part_of r) (part_of x)) (others r xs) (x ∷ others r xs)

is_failed-mark :
    (failed : Failed) (r x : Record)
    → is_failed failed x ≡ true
    → is_failed (mark_failed failed r) x ≡ true
unfolding is_failed mark_failed
is_failed-mark failed r x h =
    ap or_false (get-put tp_discrete failed (part_of r) (part_of x) true) ∙ ground arith

is_failed-mark_self : (failed : Failed) (r : Record) → is_failed (mark_failed failed r) r ≡ true
unfolding is_failed mark_failed
is_failed-mark_self failed r = ap or_false (get-put_self tp_discrete failed (part_of r) true)

is_failed-part :
    (failed : Failed) (r x : Record)
    → part_of r ≡ part_of x
    → is_failed failed r ≡ true
    → is_failed failed x ≡ true
unfolding is_failed
is_failed-part failed r x e h = ap (λ k. or_false (get tp_discrete failed k)) (sym e) ∙ h

-- The batch is done.
abbrev pub Finishes : {W : Type 0} → Option Failed × Consumer W → Type 0
Finishes {W} x = (f : Failed) × (d : Consumer W) × (x ≡ (some f, d))

module _ {W T E : Type 0} (setup : Setup W T E) (fuel : ℕ) where
  -- What `each_record` does with one record, before `k`.
  abbrev settle :
      Record
      → Failed
      → (Failed → Consumer W → Option Failed × Consumer W)
      → Option Bool × Consumer W
      → Option Failed × Consumer W
  settle x failed k y =
      let (answer, d) = y in
      elim answer [
        | none ↦ (none, d)
        | some stop ↦ k (if stop then mark_failed failed x else failed) d
      ]

  skips :
      (x : Record) (xs : List Record) (failed : Failed) (c : Consumer W)
      → is_failed failed x ≡ true
      → each_record setup fuel (x ∷ xs) failed c ≡ each_record setup fuel xs failed c
  unfolding each_record
  skips x xs failed c h = rw (h, each_record) refl

  takes :
      (x : Record) (xs : List Record) (failed : Failed) (c : Consumer W)
      → is_failed failed x ≡ false
      → each_record setup fuel (x ∷ xs) failed c
        ≡ settle x failed (each_record setup fuel xs) (process_record setup fuel x c)
  unfolding each_record
  takes x xs failed c h = rw (h, each_record) refl

  settle-cong :
      (r x : Record) (failed : Failed) (k l : Failed → Consumer W → Option Failed × Consumer W)
      → is_failed failed r ≡ true
      → ((f : Failed) (d : Consumer W) → is_failed f r ≡ true → k f d ≡ l f d)
      → (y : Option Bool × Consumer W) → settle x failed k y ≡ settle x failed l y
  settle-cong r x failed k l h same (none, d) = refl
  settle-cong r x failed k l h same (some true, d) =
      same (mark_failed failed x) d (is_failed-mark failed x r h)
  settle-cong r x failed k l h same (some false, d) = same failed d h

  -- Once a partition has failed, the rest of the batch is handled as if its records were not there.
  each_record-others :
      (r : Record) (rs : List Record) (failed : Failed) (c : Consumer W)
      → is_failed failed r ≡ true
      → each_record setup fuel rs failed c ≡ each_record setup fuel (others r rs) failed c
  unfolding others
  each_record-others r [] failed c h = refl
  each_record-others r (x ∷ xs) failed c h = elim (tp_discrete (part_of r) (part_of x)) [
    | yes e ↦
        skips x xs failed c (is_failed-part failed r x e h)
        ∙ each_record-others r xs failed c h
        ∙ ap (λ ys. each_record setup fuel ys failed c)
            (sym (if_pos (tp_discrete (part_of r) (part_of x)) e (others r xs) (x ∷ others r xs)))
    | no n ↦
        elim (Bool-cases (is_failed failed x)) [
          | inl t ↦
              skips x xs failed c t
              ∙ each_record-others r xs failed c h
              ∙ sym (skips x (others r xs) failed c t)
          | inr f ↦
              takes x xs failed c f
              ∙ settle-cong r x failed (each_record setup fuel xs)
                  (each_record setup fuel (others r xs)) h (λ g d t. each_record-others r xs g d t)
                  (process_record setup fuel x c)
              ∙ sym (takes x (others r xs) failed c f)
        ]
        ∙ ap (λ ys. each_record setup fuel ys failed c)
            (sym (if_neg (tp_discrete (part_of r) (part_of x)) n (others r xs) (x ∷ others r xs)))
  ]

  -- When a record stops its partition, the batch goes on as if the later records of that partition were
  -- not in it: none of them is decoded, handled or committed.
  pub stop_skips_partition :
      (r : Record) (rs : List Record) (failed : Failed) (c d : Consumer W)
      → is_failed failed r ≡ false
      → process_record setup fuel r c ≡ (some true, d)
      → each_record setup fuel (r ∷ rs) failed c
        ≡ each_record setup fuel (others r rs) (mark_failed failed r) d
  stop_skips_partition r rs failed c d h q =
      takes r rs failed c h
      ∙ ap (settle r failed (each_record setup fuel rs)) q
      ∙ each_record-others r rs (mark_failed failed r) d (is_failed-mark_self failed r)

  settled-Ends :
      (x : Record) (rs : List Record) (failed : Failed)
      → ((f : Failed) (d : Consumer W) → Finishes (each_record setup fuel rs f d))
      → (y : Option Bool × Consumer W) → Ends setup y
      → Finishes (settle x failed (each_record setup fuel rs) y)
  settled-Ends x rs failed h y (b, d, q) =
      subst (λ y. Finishes (settle x failed (each_record setup fuel rs) y)) (sym q)
        (h (if b then mark_failed failed x else failed) d)

  -- Where the number of attempts is limited, a poll comes to its end with that many rounds for each record.
  pub each_record-Finishes :
      {m : ℕ}
      → positive setup.max_processing_attempts ≡ some m
      → m ≤ fuel
      → (rs : List Record) (failed : Failed) (c : Consumer W)
      → Finishes (each_record setup fuel rs failed c)
  unfolding each_record
  each_record-Finishes top h [] failed c = (failed, c, refl)
  each_record-Finishes top h (x ∷ rs) failed c = elim (Bool-cases (is_failed failed x)) [
    | inl t ↦ subst Finishes (sym (skips x rs failed c t)) (each_record-Finishes top h rs failed c)
    | inr f ↦ subst Finishes (sym (takes x rs failed c f)) (
        settled-Ends x rs failed (each_record-Finishes top h rs) (process_record setup fuel x c)
          (process_record-Ends setup fuel x c top h))
  ]
