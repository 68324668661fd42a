-- ===== src/Tokenizer/Runs/Places.antt =====
-- tokenizer/state.go, `advance`: the offset, line and column of each token.
use golang_core.Prelude.{
  ℕ, suc, ◌+◌, ◌≤◌, u64, ◌≡◌, refl, sym, ap, ◌∙◌, Option, none, some, List, [], ◌∷◌, ◌++◌, length,
  arith, if◌then◌else◌, ◌==◌,
}
use golang_core.Iterator.{Error, materialize}
use golang_core.Tokenizer.{State}
use golang_core.Tokenizer.Token.{Position, Token, new_token, newline}
use golang_core.Tokenizer.Stream.{tokens, tokenize}
use golang_core.Tokenizer.Steps.{step, after, after-append}
use golang_core.Tokenizer.Runs.{Lexed, finished, token, refused}
use golang_core.Tokenizer.Runs.Whole.{file, start, materialize-Lexed}

abbrev pub newlines : List ℕ → ℕ
newlines [] = 0
newlines (x ∷ xs) = if x == newline then suc (newlines xs) else newlines xs

-- How many bytes stand behind the last newline of `xs`, where `k` stand in front of `xs`.
abbrev pub width : ℕ → List ℕ → ℕ
width k [] = k
width k (x ∷ xs) = width (if x == newline then 0 else k + 1) xs

after-offset :
    (p : Position) (xs : List ℕ)
    → p.offset ≡ u64 p.offset
    → (after p xs).offset ≡ u64 (p.offset + length xs)
after-offset p [] h = omega arith
after-offset p (x ∷ xs) h = after-offset (step p x) xs (omega arith) ∙ omega arith

after-line :
    (p : Position) (xs : List ℕ)
    → p.line ≡ u64 p.line
    → (after p xs).line ≡ u64 (p.line + newlines xs)
after-line p [] h = omega arith
after-line p (x ∷ xs) h = after-line (step p x) xs (ground arith) ∙ ground arith

width-mod : (xs : List ℕ) (j k : ℕ) → u64 j ≡ u64 k → u64 (width j xs) ≡ u64 (width k xs)
width-mod [] j k h = h
width-mod (x ∷ xs) j k h =
    width-mod xs (if x == newline then 0 else j + 1) (if x == newline then 0 else k + 1)
      (ground arith)

after-column :
    (p : Position) (xs : List ℕ)
    → p.column ≡ u64 p.column
    → (after p xs).column ≡ u64 (width p.column xs)
after-column p [] h = h
after-column p (x ∷ xs) h =
    after-column (step p x) xs (ground arith)
    ∙ width-mod xs (if x == newline then 0 else u64 (p.column + 1))
        (if x == newline then 0 else p.column + 1) (ground arith)

-- The place of a byte in a file, by the bytes in front of it: uint64 numbers, which wrap.
abbrev pub place_of : List ℕ → Position
place_of before = record {
  offset = u64 (length before);
  column = u64 (width 0 before);
  line = u64 (1 + newlines before);
}

after-place : (xs : List ℕ) → after start xs ≡ place_of xs
after-place xs =
    let offset : (after start xs).offset ≡ u64 (length xs) =
      omega (arith, after-offset start xs refl) in
    λ i. record {
      offset = offset i;
      column = after-column start xs refl i;
      line = after-line start xs refl i;
    }

-- Each token stands where the contents of the tokens before it end, behind the bytes `before`.
abbrev pub Placed : List ℕ → List (Option Token) → Type 0
Placed before [] = Unit
Placed before (none ∷ ts) = Placed before ts
Placed before (some t ∷ ts) = (t.position ≡ place_of before) × Placed (before ++ t.content) ts

Lexed-Placed :
    {p : Position} {xs : List ℕ} {ts : List (Option Token)} {e : Option Error} (before : List ℕ)
    → Lexed p xs ts e
    → p ≡ after start before
    → Placed before ts
unfolding new_token
Lexed-Placed before finished h = tt
Lexed-Placed before (token {p = p} l made rest) h = (
  h ∙ after-place before,
  Lexed-Placed (before ++ l.text) rest
      (ap (λ q. after q l.text) h ∙ sym (after-append start before l.text)),
)
Lexed-Placed before (refused failed) h = tt

-- Tokenizing a file of any bytes ends, if the fuel is at least their number, and every token carries
-- the offset, line and column at which its content stands.
pub materialize_places :
    (fuel : ℕ) (bytes : List ℕ)
    → length bytes ≤ fuel
    → (ts : List (Option Token)) × (e : Option Error) × (s : State) × (materialize
          (tokens fuel)
          (fuel + 2)
          (tokenize (file bytes))
        ≡ some ((ts, e), s))
      × Placed [] ts
materialize_places fuel bytes h =
    let (ts, e, s, run, lexed) = materialize-Lexed fuel bytes h in
    (ts, e, s, run, Lexed-Placed [] lexed refl)
