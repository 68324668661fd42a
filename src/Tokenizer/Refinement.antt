-- ===== src/Tokenizer/Refinement.antt =====
-- tokenizer/state.go: the parsers of numbers and symbols compute the lexemes of the grammar.
pub mod Strings
pub mod Tokens
use golang_core.Prelude.{
  ℕ, suc, ◌<◌, ◌≡◌, refl, sym, ap, subst, ◌∙◌, Bool, true, false, none, some, List, [], ◌∷◌, ◌++◌,
  append_assoc, append-nil, Result, ok, err, if◌then◌else◌, ◌==◌, ◌&&◌, ◌||◌, length, span,
  length-span-le, arith, Bool-cases, inl, inr,
}
use golang_core.Prelude.Exec.{
  continue, Returns, Fails, bind-Returns, bind-Fails, stop-Fails, attempt-Returns, attempt-Fails,
  pure,
}
use golang_core.Iterator.{Error, unknown_token}
use golang_core.Tokenizer.{State, or_end, scan}
use golang_core.Tokenizer.Token.{
  Position, Token, new_token, is_digit, is_hex_digit, is_binary_digit, is_word_char, TokenType,
  float, hex_decimal, binary,
}
use golang_core.Tokenizer.Parse.{
  fraction, parse_fraction, parse_decimal, parse_base_prefix, scan_base, base_of, is_zero,
  parse_zero, parse_unsigned, parse_number, parse_symbol, has_float_fraction,
}
use golang_core.Tokenizer.Spec.{
  Lexeme, run_of, fraction_of, decimal_of, zero_of, unsigned_of, minus_of,
}
use golang_core.Tokenizer.Steps.{
  Stands, after, after-append, has_float_fraction-Returns, peek2_or_end-Returns, peek_or_end-some,
  peek_or_end-none, read-some, scan-Returns, first_pair,
}

-- The call returns the token of the lexeme, and leaves the rest of the text.
abbrev pub Lexes : Position → Lexeme → Result Error Token × State → Type 0
Lexes start l =
    Returns (Stands l.rest (after start l.text))
      (record { token_type = l.kind; position = start; content = l.text })

module _ (fuel : ℕ) (start : Position) where
  pub run-Lexes :
      (kind : TokenType) (test : ℕ → Bool) (lead xs : List ℕ) (s : State)
      → length xs < fuel
      → Stands xs (after start lead) s
      → Lexes start
          (run_of kind test lead xs)
          (continue (scan fuel test lead s) (λ content. pure (new_token kind start content)))
  unfolding new_token
  run-Lexes kind test lead xs s h v =
      bind-Returns _ (scan-Returns fuel test start lead xs s h v)
        λ s' w. record { value = refl; state = w }

  fraction-Lexes :
      (lead xs : List ℕ) (s : State)
      → length xs < fuel
      → Stands xs (after start lead) s
      → Lexes start (fraction_of lead xs) (parse_fraction fuel start lead s)
  unfolding parse_fraction fraction_of
  fraction-Lexes lead [] s h v =
      bind-Returns _ (has_float_fraction-Returns _ s [] v)
        λ s' w. record { value = refl; state = w }
  fraction-Lexes lead (a ∷ []) s h v =
      bind-Returns _ (has_float_fraction-Returns _ s (a ∷ []) v)
        λ s' w. record { value = refl; state = w }
  fraction-Lexes lead (a ∷ b ∷ r) s h v =
      bind-Returns _ (has_float_fraction-Returns _ s (a ∷ b ∷ r) v) λ s1 v1.
        elim (Bool-cases (a == b'.' && is_digit b)) [
          | inl point ↦ rw point (
              bind-Returns _ (read-some _ s1 a (b ∷ r) v1) λ s2 v2.
                run-Lexes float is_digit (lead ++ a ∷ []) (b ∷ r) s2 (omega arith)
                  (rw after-append v2))
          | inr no_point ↦ rw no_point (record { value = refl; state = v1 })
        ]

  decimal-Lexes :
      (lead xs : List ℕ) (s : State)
      → length xs < fuel
      → Stands xs (after start lead) s
      → Lexes start (decimal_of lead xs) (parse_decimal fuel start lead s)
  unfolding parse_decimal decimal_of
  decimal-Lexes lead xs s h v =
      bind-Returns _ (scan-Returns fuel is_digit start lead xs s h v) λ s1 v1.
        fraction-Lexes (lead ++ (span is_digit xs).0) (span is_digit xs).1 s1
          (omega (arith, length-span-le is_digit xs)) v1

  -- A base prefix is read with all its digits.
  scan_base-Returns :
      (kind : TokenType) (test : ℕ → Bool) (lead : List ℕ) (a : ℕ) (xs : List ℕ) (s : State)
      → length xs < fuel
      → Stands (a ∷ xs) (after start lead) s
      → let l = run_of kind test (lead ++ a ∷ []) xs in
        Returns
          (Stands l.rest (after start l.text))
          (some (kind, l.text))
          (scan_base fuel lead (some (kind, test)) s)
  unfolding scan_base
  scan_base-Returns kind test lead a xs s h v = bind-Returns _ (read-some _ s a xs v) λ s1 v1.
      bind-Returns _ (scan-Returns fuel test start (lead ++ a ∷ []) xs s1 h (rw after-append v1))
        λ s2 v2. record { value = refl; state = v2 }

  -- With no digits behind it, the zero has no prefix.
  no_base-Returns :
      (lead xs : List ℕ) (s : State)
      → first_pair xs ≡ none
      → Stands xs (after start lead) s
      → Returns (Stands xs (after start lead)) none (parse_base_prefix fuel lead s)
  unfolding parse_base_prefix
  no_base-Returns lead xs s e v =
      bind-Returns _ (peek2_or_end-Returns _ s xs v)
        λ s1 v1. rw e (record { value = refl; state = v1 })

  base-Returns :
      (kind : TokenType) (test : ℕ → Bool) (lead : List ℕ) (a b : ℕ) (r : List ℕ) (s : State)
      → base_of a b ≡ some (kind, test)
      → length (b ∷ r) < fuel
      → Stands (a ∷ b ∷ r) (after start lead) s
      → let l = run_of kind test (lead ++ a ∷ []) (b ∷ r) in
        Returns
          (Stands l.rest (after start l.text))
          (some (kind, l.text))
          (parse_base_prefix fuel lead s)
  unfolding parse_base_prefix
  base-Returns kind test lead a b r s e h v =
      bind-Returns _ (peek2_or_end-Returns _ s (a ∷ b ∷ r) v)
        λ s1 v1. rw e (scan_base-Returns kind test lead a (b ∷ r) s1 h v1)

  based-Lexes :
      (kind : TokenType) (test : ℕ → Bool) (lead : List ℕ) (a b : ℕ) (r : List ℕ) (s : State)
      → base_of a b ≡ some (kind, test)
      → length (b ∷ r) < fuel
      → Stands (a ∷ b ∷ r) (after start lead) s
      → Lexes start (run_of kind test (lead ++ a ∷ []) (b ∷ r)) (parse_zero fuel start lead s)
  unfolding parse_zero
  based-Lexes kind test lead a b r s e h v =
      bind-Returns _ (base-Returns kind test lead a b r s e h v)
        λ s2 v2. record { value = refl; state = v2 }

  other_base-Returns :
      (lead : List ℕ) (a b : ℕ) (r : List ℕ)
      → base_of a b ≡ none
      → (s : State) → Stands (a ∷ b ∷ r) (after start lead) s
      → Returns (Stands (a ∷ b ∷ r) (after start lead)) none (parse_base_prefix fuel lead s)
  unfolding parse_base_prefix scan_base
  other_base-Returns lead a b r e s v =
      bind-Returns _ (peek2_or_end-Returns _ s (a ∷ b ∷ r) v)
        λ s1 v1. rw e (record { value = refl; state = v1 })

  unbased-Lexes :
      (lead xs : List ℕ) (s : State)
      → length xs < fuel
      → ((s' : State)
          → Stands xs (after start lead) s'
          → Returns (Stands xs (after start lead)) none (parse_base_prefix fuel lead s'))
      → Stands xs (after start lead) s
      → Lexes start (decimal_of lead xs) (parse_zero fuel start lead s)
  unfolding parse_zero
  unbased-Lexes lead xs s h k v = bind-Returns _ (k s v) λ s1 v1. decimal-Lexes lead xs s1 h v1

  zero-Lexes :
      (lead xs : List ℕ) (s : State)
      → length xs < fuel
      → Stands xs (after start lead) s
      → Lexes start (zero_of lead xs) (parse_zero fuel start lead s)
  unfolding zero_of base_of
  zero-Lexes lead [] s h v = unbased-Lexes lead [] s h (λ s'. no_base-Returns lead [] s' refl) v
  zero-Lexes lead (a ∷ []) s h v =
      unbased-Lexes lead (a ∷ []) s h (λ s'. no_base-Returns lead (a ∷ []) s' refl) v
  zero-Lexes lead (a ∷ b ∷ r) s h v =
      elim (Bool-cases ((a == b'x' || a == b'X') && is_hex_digit b)) [
        | inl x ↦ rw x (based-Lexes hex_decimal is_hex_digit lead a b r s (rw x) (omega arith) v)
        | inr no_x ↦ rw no_x (elim (Bool-cases ((a == b'b' || a == b'B') && is_binary_digit b)) [
          | inl y ↦
              rw y (based-Lexes binary is_binary_digit lead a b r s (rw (no_x, y)) (omega arith) v)
          | inr no_y ↦ rw no_y (
              unbased-Lexes lead (a ∷ b ∷ r) s h (other_base-Returns lead a b r (rw (no_x, no_y)))
                v)
        ])
      ]

  pub unsigned-Lexes :
      (sign : List ℕ) (d : ℕ) (xs : List ℕ) (s : State)
      → is_zero (sign ++ d ∷ []) ≡ (d == b'0')
      → length xs < fuel
      → Stands xs (after start (sign ++ d ∷ [])) s
      → Lexes start (unsigned_of sign d xs) (parse_unsigned fuel start (sign ++ d ∷ []) s)
  unfolding unsigned_of parse_unsigned
  unsigned-Lexes sign d xs s e h v = rw e (elim (Bool-cases (d == b'0')) [
    | inl z ↦ rw z (zero-Lexes (sign ++ d ∷ []) xs s h v)
    | inr n ↦ rw n (decimal-Lexes (sign ++ d ∷ []) xs s h v)
  ])

  pub minus-Lexes :
      (xs : List ℕ) (s : State)
      → length xs < fuel
      → Stands xs (after start (b'-' ∷ [])) s
      → Lexes start (minus_of xs) (parse_number fuel start b'-' s)
  unfolding minus_of parse_number is_zero
  minus-Lexes [] s h v =
      bind-Returns _ (peek_or_end-none _ s v) λ s1 v1. record { value = refl; state = v1 }
  minus-Lexes (d ∷ r) s h v = bind-Returns _ (peek_or_end-some _ s d r v) λ s1 v1.
      elim (Bool-cases (is_digit d)) [
        | inl digit ↦ rw digit (
            bind-Returns _ (read-some _ s1 d r v1)
              λ s2 v2. unsigned-Lexes (b'-' ∷ []) d r s2 refl (omega arith) v2)
        | inr other ↦ rw other (record { value = refl; state = v1 })
      ]

  pub number-Lexes :
      (c : ℕ) (xs : List ℕ) (s : State)
      → (c == b'-') ≡ false
      → length xs < fuel
      → Stands xs (after start (c ∷ [])) s
      → Lexes start (unsigned_of [] c xs) (parse_number fuel start c s)
  unfolding parse_number is_zero
  number-Lexes c xs s e h v = rw e (unsigned-Lexes [] c xs s refl h v)
