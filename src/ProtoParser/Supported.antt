-- ===== src/ProtoParser/Supported.antt =====
-- proto_parser/parser.go: which files are accepted.
use golang_core.Prelude.{
  ℕ, ◌≡◌, refl, ap, ◌∙◌, Bool, true, false, ◌&&◌, ◌||◌, List, Result, ok, err,
}
use golang_core.Prelude.Exec.{continue}
use golang_core.ProtoParser.{
  Element, Elements, syntax, package_line, option, imports, comment, reserved, extensions, unknown,
  message, enum, enum_field, map_field, normal_field, one_of_field, one_of, nil, cons, Error, Field,
  Fields, EnumEntry, State,
}
use golang_core.ProtoParser.Convert.{
  proto_to_field, one_of_fields, enum_entries, in_one_of, one_of_result, add_entry, comment_text,
}
use golang_core.ProtoParser.Messages.{Run, wrapped}

-- The elements that may stand for a field, in a message or, with `true`, in a oneof.
unfoldable mutual
  pub supports_field : Element → Bool → Bool
  supports_field (map_field d t) inside = true
  supports_field (normal_field d o r) inside = true
  supports_field (one_of_field d) inside = inside
  supports_field (one_of n es) inside = supports_one_of es
  supports_field e inside = false

  pub supports_one_of : Elements → Bool
  supports_one_of nil = true
  supports_one_of (cons comment es) = supports_one_of es
  supports_one_of (cons option es) = supports_one_of es
  supports_one_of (cons e es) = supports_field e true && supports_one_of es

unfoldable pub supports_enum : Elements → Bool
supports_enum nil = true
supports_enum (cons comment es) = supports_enum es
supports_enum (cons option es) = supports_enum es
supports_enum (cons reserved es) = supports_enum es
supports_enum (cons (enum_field n v c) es) = supports_enum es
supports_enum (cons e es) = false

unfoldable pub supports_message : Elements → Bool
unfolding supports_field supports_enum
supports_message nil = true
supports_message (cons (message n is_extend inner) es) =
    (is_extend || supports_message inner) && supports_message es
supports_message (cons (enum n inner) es) = supports_enum inner && supports_message es
supports_message (cons comment es) = supports_message es
supports_message (cons option es) = supports_message es
supports_message (cons reserved es) = supports_message es
supports_message (cons extensions es) = supports_message es
supports_message (cons e es) = supports_field e false && supports_message es

unfoldable pub supports_file : Elements → Bool
unfolding supports_message supports_enum
supports_file nil = true
supports_file (cons (message n is_extend inner) es) =
    (is_extend || supports_message inner) && supports_file es
supports_file (cons (enum n inner) es) = supports_enum inner && supports_file es
supports_file (cons syntax es) = supports_file es
supports_file (cons package_line es) = supports_file es
supports_file (cons option es) = supports_file es
supports_file (cons imports es) = supports_file es
supports_file (cons comment es) = supports_file es
supports_file (cons e es) = false

abbrev pub succeeds : {A : Type 0} → Result Error A → Bool
succeeds (ok a) = true
succeeds (err e) = false

module _ {A : Type 0} where
  pub succeeds-continue :
      {B : Type 0} (b c : Bool) (r : Result Error A × State) (f : A → Run B)
      → succeeds r.0 ≡ b
      → ((a : A) (t : State) → succeeds (f a t).0 ≡ c)
      → succeeds (continue r f).0 ≡ b && c
  succeeds-continue b c (ok a, t) f g h = h a t ∙ ap (λ x. x && c) g
  succeeds-continue b c (err e, t) f g h = ap (λ x. x && c) g

  pub then_succeeds :
      {B : Type 0} (b : Bool) (r : Result Error A × State) (f : A → Run B)
      → succeeds r.0 ≡ b
      → ((a : A) (t : State) → succeeds (f a t).0 ≡ true)
      → succeeds (continue r f).0 ≡ b
  then_succeeds b (ok a, t) f g h = h a t ∙ g
  then_succeeds b (err e, t) f g h = g

  pub succeeds-wrapped :
      (w : Error → Error) (r : Result Error A × State) → succeeds (wrapped w r).0 ≡ succeeds r.0
  succeeds-wrapped w (ok a, t) = refl
  succeeds-wrapped w (err e, t) = refl

module _ (trim_space : List ℕ → List ℕ) where
  succeeds-in_one_of :
      (name : List ℕ) (b c : Bool) (r : Result Error Field) (rest : Result Error Fields)
      → succeeds r ≡ b
      → succeeds rest ≡ c
      → succeeds (in_one_of trim_space name r rest) ≡ b && c
  succeeds-in_one_of name b c (err e) rest g h = ap (λ x. x && c) g
  succeeds-in_one_of name b c (ok f) (err e) g h = h ∙ ap (λ x. x && c) g
  succeeds-in_one_of name b c (ok f) (ok fs) g h = h ∙ ap (λ x. x && c) g

  succeeds-one_of_result :
      (name : List ℕ) (r : Result Error Fields)
      → succeeds (one_of_result trim_space name r) ≡ succeeds r
  succeeds-one_of_result name (ok fs) = refl
  succeeds-one_of_result name (err e) = refl

  mutual
    unfolding proto_to_field supports_field

    pub field_succeeds :
        (e : Element) (inside : Bool)
        → succeeds (proto_to_field trim_space e inside) ≡ supports_field e inside
    field_succeeds syntax inside = refl
    field_succeeds package_line inside = refl
    field_succeeds option inside = refl
    field_succeeds imports inside = refl
    field_succeeds comment inside = refl
    field_succeeds reserved inside = refl
    field_succeeds extensions inside = refl
    field_succeeds unknown inside = refl
    field_succeeds (message n x inner) inside = refl
    field_succeeds (enum n inner) inside = refl
    field_succeeds (enum_field n v c) inside = refl
    field_succeeds (map_field d t) inside = refl
    field_succeeds (normal_field d o r) inside = refl
    field_succeeds (one_of_field d) true = refl
    field_succeeds (one_of_field d) false = refl
    field_succeeds (one_of n fs) inside =
        succeeds-one_of_result n (one_of_fields trim_space n fs) ∙ one_of_succeeds n fs

    one_of_succeeds :
        (name : List ℕ) (es : Elements)
        → succeeds (one_of_fields trim_space name es) ≡ supports_one_of es
    one_of_succeeds name nil = refl
    one_of_succeeds name (cons syntax es) =
        succeeds-in_one_of name (supports_field syntax true) (supports_one_of es)
          (proto_to_field trim_space syntax true) (one_of_fields trim_space name es)
          (field_succeeds syntax true) (one_of_succeeds name es)
    one_of_succeeds name (cons package_line es) =
        succeeds-in_one_of name (supports_field package_line true) (supports_one_of es)
          (proto_to_field trim_space package_line true) (one_of_fields trim_space name es)
          (field_succeeds package_line true) (one_of_succeeds name es)
    one_of_succeeds name (cons option es) = one_of_succeeds name es
    one_of_succeeds name (cons imports es) =
        succeeds-in_one_of name (supports_field imports true) (supports_one_of es)
          (proto_to_field trim_space imports true) (one_of_fields trim_space name es)
          (field_succeeds imports true) (one_of_succeeds name es)
    one_of_succeeds name (cons comment es) = one_of_succeeds name es
    one_of_succeeds name (cons reserved es) =
        succeeds-in_one_of name (supports_field reserved true) (supports_one_of es)
          (proto_to_field trim_space reserved true) (one_of_fields trim_space name es)
          (field_succeeds reserved true) (one_of_succeeds name es)
    one_of_succeeds name (cons extensions es) =
        succeeds-in_one_of name (supports_field extensions true) (supports_one_of es)
          (proto_to_field trim_space extensions true) (one_of_fields trim_space name es)
          (field_succeeds extensions true) (one_of_succeeds name es)
    one_of_succeeds name (cons unknown es) =
        succeeds-in_one_of name (supports_field unknown true) (supports_one_of es)
          (proto_to_field trim_space unknown true) (one_of_fields trim_space name es)
          (field_succeeds unknown true) (one_of_succeeds name es)
    one_of_succeeds name (cons (message n x inner) es) =
        succeeds-in_one_of name (supports_field (message n x inner) true) (supports_one_of es)
          (proto_to_field trim_space (message n x inner) true) (one_of_fields trim_space name es)
          (field_succeeds (message n x inner) true) (one_of_succeeds name es)
    one_of_succeeds name (cons (enum n inner) es) =
        succeeds-in_one_of name (supports_field (enum n inner) true) (supports_one_of es)
          (proto_to_field trim_space (enum n inner) true) (one_of_fields trim_space name es)
          (field_succeeds (enum n inner) true) (one_of_succeeds name es)
    one_of_succeeds name (cons (enum_field n v c) es) =
        succeeds-in_one_of name (supports_field (enum_field n v c) true) (supports_one_of es)
          (proto_to_field trim_space (enum_field n v c) true) (one_of_fields trim_space name es)
          (field_succeeds (enum_field n v c) true) (one_of_succeeds name es)
    one_of_succeeds name (cons (map_field d t) es) =
        succeeds-in_one_of name (supports_field (map_field d t) true) (supports_one_of es)
          (proto_to_field trim_space (map_field d t) true) (one_of_fields trim_space name es)
          (field_succeeds (map_field d t) true) (one_of_succeeds name es)
    one_of_succeeds name (cons (normal_field d o r) es) =
        succeeds-in_one_of name (supports_field (normal_field d o r) true) (supports_one_of es)
          (proto_to_field trim_space (normal_field d o r) true) (one_of_fields trim_space name es)
          (field_succeeds (normal_field d o r) true) (one_of_succeeds name es)
    one_of_succeeds name (cons (one_of_field d) es) =
        succeeds-in_one_of name (supports_field (one_of_field d) true) (supports_one_of es)
          (proto_to_field trim_space (one_of_field d) true) (one_of_fields trim_space name es)
          (field_succeeds (one_of_field d) true) (one_of_succeeds name es)
    one_of_succeeds name (cons (one_of n fs) es) =
        succeeds-in_one_of name (supports_field (one_of n fs) true) (supports_one_of es)
          (proto_to_field trim_space (one_of n fs) true) (one_of_fields trim_space name es)
          (field_succeeds (one_of n fs) true) (one_of_succeeds name es)

  succeeds-add_entry :
      (x : EnumEntry) (r : Result Error (List EnumEntry))
      → succeeds (add_entry trim_space x r) ≡ succeeds r
  succeeds-add_entry x (ok xs) = refl
  succeeds-add_entry x (err e) = refl

  pub enum_succeeds : (es : Elements) → succeeds (enum_entries trim_space es) ≡ supports_enum es
  unfolding enum_entries supports_enum
  enum_succeeds nil = refl
  enum_succeeds (cons syntax es) = refl
  enum_succeeds (cons package_line es) = refl
  enum_succeeds (cons option es) = enum_succeeds es
  enum_succeeds (cons imports es) = refl
  enum_succeeds (cons comment es) = enum_succeeds es
  enum_succeeds (cons reserved es) = enum_succeeds es
  enum_succeeds (cons extensions es) = refl
  enum_succeeds (cons unknown es) = refl
  enum_succeeds (cons (message n x inner) es) = refl
  enum_succeeds (cons (enum n inner) es) = refl
  enum_succeeds (cons (enum_field n v c) es) =
      succeeds-add_entry (record { name = n; value = v; comment = comment_text trim_space c })
        (enum_entries trim_space es)
      ∙ enum_succeeds es
  enum_succeeds (cons (map_field d t) es) = refl
  enum_succeeds (cons (normal_field d o r) es) = refl
  enum_succeeds (cons (one_of_field d) es) = refl
  enum_succeeds (cons (one_of n fs) es) = refl
