-- ===== src/ProtoParser/Accepts.antt =====
-- proto_parser/parser.go: which files are accepted, by the loops over the messages.
use golang_core.Prelude.{
  ℕ, ◌≡◌, refl, ap, ◌∙◌, Bool, true, false, ◌&&◌, ◌||◌, List, [], ◌∷◌, ◌++◌, Result, ok, err,
}
use golang_core.Prelude.Exec.{pure}
use golang_core.ProtoParser.{
  Elements, syntax, package_line, option, imports, comment, reserved, extensions, unknown, message,
  enum, enum_field, map_field, normal_field, one_of_field, one_of, nil, cons, Error,
  process_message_error, process_enum_error, Field, Fields, add_field, State, InputContext,
}
use golang_core.ProtoParser.Convert.{proto_to_field, enum_entries}
use golang_core.ProtoParser.Messages.{
  Parser, Run, wrapping, lift, model_of, enum_of, store_model, store_enum, process_enum, in_message,
  with_field, process_elements, process_message, process_protobuf,
}
use golang_core.ProtoParser.Supported.{
  supports_field, supports_enum, supports_message, supports_file, succeeds, succeeds-continue,
  then_succeeds, succeeds-wrapped, enum_succeeds, field_succeeds,
}

module _ (parser : Parser) (input : InputContext) where
  succeeds-lift : {A : Type 0} (r : Result Error A) (s : State) → succeeds (lift r s).0 ≡ succeeds r
  succeeds-lift (ok a) s = refl
  succeeds-lift (err e) s = refl

  succeeds-process_enum :
      (path : List (List ℕ)) (n : List ℕ) (es : Elements) (s : State)
      → succeeds (process_enum parser input path n es s).0 ≡ supports_enum es
  unfolding process_enum store_enum
  succeeds-process_enum path n es s =
      then_succeeds (supports_enum es) (lift (enum_entries parser.trim_space es) s)
        (λ entries. store_enum parser input (enum_of parser input path n entries))
        (succeeds-lift (enum_entries parser.trim_space es) s ∙ enum_succeeds parser.trim_space es)
        (λ entries t. refl)

  succeeds-in_message :
      (path : List (List ℕ)) (n : List ℕ) (is_extend : Bool) (b : Bool) (body : Run Fields)
      (s : State)
      → succeeds (body s).0 ≡ b
      → succeeds (in_message parser input path n is_extend body s).0 ≡ is_extend || b
  unfolding store_model
  succeeds-in_message path n true b body s g = refl
  succeeds-in_message path n false b body s g =
      then_succeeds b (body s)
        (λ fields. store_model parser input (model_of parser input path n fields)) g
        (λ fields t. refl)

  succeeds-with_field :
      (b c : Bool) (r : Result Error Field) (rest : Run Fields) (s : State)
      → succeeds r ≡ b
      → succeeds (rest s).0 ≡ c
      → succeeds (with_field parser input r rest s).0 ≡ b && c
  succeeds-with_field b c (ok f) rest s g h =
      then_succeeds c (rest s) (λ fs. pure (add_field f fs)) h (λ fs t. refl) ∙ ap (λ x. x && c) g
  succeeds-with_field b c (err e) rest s g h = ap (λ x. x && c) g

  elements_succeeds :
      (path : List (List ℕ)) (name : List ℕ) (es : Elements) (s : State)
      → succeeds (process_elements parser input path name es s).0 ≡ supports_message es
  unfolding supports_message process_elements
  elements_succeeds path name nil s = refl
  elements_succeeds path name (cons (message n is_extend inner) es) s =
      let inside = path ++ name ∷ [] in
      let body =
        in_message parser input inside n is_extend (process_elements parser input inside n inner) in
      succeeds-continue (is_extend || supports_message inner) (supports_message es)
        (wrapping (process_message_error name) body s)
        (λ u. process_elements parser input path name es)
        (succeeds-wrapped (process_message_error name) (body s)
          ∙ succeeds-in_message inside n is_extend (supports_message inner)
              (process_elements parser input inside n inner) s (elements_succeeds inside n inner s))
        (λ u t. elements_succeeds path name es t)
  elements_succeeds path name (cons (enum n inner) es) s =
      let body = process_enum parser input (path ++ name ∷ []) n inner in
      succeeds-continue (supports_enum inner) (supports_message es)
        (wrapping (process_enum_error name) body s)
        (λ u. process_elements parser input path name es)
        (succeeds-wrapped (process_enum_error name) (body s)
          ∙ succeeds-process_enum (path ++ name ∷ []) n inner s)
        (λ u t. elements_succeeds path name es t)
  elements_succeeds path name (cons syntax es) s =
      succeeds-with_field (supports_field syntax false) (supports_message es)
        (proto_to_field parser.trim_space syntax false) (process_elements parser input path name es)
        s (field_succeeds parser.trim_space syntax false) (elements_succeeds path name es s)
  elements_succeeds path name (cons package_line es) s =
      succeeds-with_field (supports_field package_line false) (supports_message es)
        (proto_to_field parser.trim_space package_line false)
        (process_elements parser input path name es) s
        (field_succeeds parser.trim_space package_line false) (elements_succeeds path name es s)
  elements_succeeds path name (cons option es) s = elements_succeeds path name es s
  elements_succeeds path name (cons imports es) s =
      succeeds-with_field (supports_field imports false) (supports_message es)
        (proto_to_field parser.trim_space imports false)
        (process_elements parser input path name es) s
        (field_succeeds parser.trim_space imports false) (elements_succeeds path name es s)
  elements_succeeds path name (cons comment es) s = elements_succeeds path name es s
  elements_succeeds path name (cons reserved es) s = elements_succeeds path name es s
  elements_succeeds path name (cons extensions es) s = elements_succeeds path name es s
  elements_succeeds path name (cons unknown es) s =
      succeeds-with_field (supports_field unknown false) (supports_message es)
        (proto_to_field parser.trim_space unknown false)
        (process_elements parser input path name es) s
        (field_succeeds parser.trim_space unknown false) (elements_succeeds path name es s)
  elements_succeeds path name (cons (enum_field n v c) es) s =
      succeeds-with_field (supports_field (enum_field n v c) false) (supports_message es)
        (proto_to_field parser.trim_space (enum_field n v c) false)
        (process_elements parser input path name es) s
        (field_succeeds parser.trim_space (enum_field n v c) false)
        (elements_succeeds path name es s)
  elements_succeeds path name (cons (map_field d t) es) s =
      succeeds-with_field (supports_field (map_field d t) false) (supports_message es)
        (proto_to_field parser.trim_space (map_field d t) false)
        (process_elements parser input path name es) s
        (field_succeeds parser.trim_space (map_field d t) false) (elements_succeeds path name es s)
  elements_succeeds path name (cons (normal_field d o r) es) s =
      succeeds-with_field (supports_field (normal_field d o r) false) (supports_message es)
        (proto_to_field parser.trim_space (normal_field d o r) false)
        (process_elements parser input path name es) s
        (field_succeeds parser.trim_space (normal_field d o r) false)
        (elements_succeeds path name es s)
  elements_succeeds path name (cons (one_of_field d) es) s =
      succeeds-with_field (supports_field (one_of_field d) false) (supports_message es)
        (proto_to_field parser.trim_space (one_of_field d) false)
        (process_elements parser input path name es) s
        (field_succeeds parser.trim_space (one_of_field d) false) (elements_succeeds path name es s)
  elements_succeeds path name (cons (one_of n fs) es) s =
      succeeds-with_field (supports_field (one_of n fs) false) (supports_message es)
        (proto_to_field parser.trim_space (one_of n fs) false)
        (process_elements parser input path name es) s
        (field_succeeds parser.trim_space (one_of n fs) false) (elements_succeeds path name es s)

  succeeds-process_message :
      (n : List ℕ) (is_extend : Bool) (inner : Elements) (s : State)
      → succeeds (process_message parser input [] n is_extend inner s).0
        ≡ is_extend || supports_message inner
  unfolding process_message
  succeeds-process_message n is_extend inner s =
      succeeds-in_message [] n is_extend (supports_message inner)
        (process_elements parser input [] n inner) s (elements_succeeds [] n inner s)

  -- A file is processed without an error exactly when each element of it, and each one in a message, an
  -- enum or a oneof, is of a kind that may stand there; extensions are not looked into.
  pub succeeds-process_protobuf :
      (es : Elements) (s : State)
      → succeeds (process_protobuf parser input es s).0 ≡ supports_file es
  unfolding supports_file process_protobuf
  succeeds-process_protobuf nil s = refl
  succeeds-process_protobuf (cons (message n is_extend inner) es) s =
      let body = process_message parser input [] n is_extend inner in
      succeeds-continue (is_extend || supports_message inner) (supports_file es)
        (wrapping (process_message_error n) body s) (λ u. process_protobuf parser input es)
        (succeeds-wrapped (process_message_error n) (body s)
          ∙ succeeds-process_message n is_extend inner s)
        (λ u t. succeeds-process_protobuf es t)
  succeeds-process_protobuf (cons (enum n inner) es) s =
      let body = process_enum parser input [] n inner in
      succeeds-continue (supports_enum inner) (supports_file es)
        (wrapping (process_enum_error n) body s) (λ u. process_protobuf parser input es)
        (succeeds-wrapped (process_enum_error n) (body s) ∙ succeeds-process_enum [] n inner s)
        (λ u t. succeeds-process_protobuf es t)
  succeeds-process_protobuf (cons syntax es) s = succeeds-process_protobuf es s
  succeeds-process_protobuf (cons package_line es) s = succeeds-process_protobuf es s
  succeeds-process_protobuf (cons option es) s = succeeds-process_protobuf es s
  succeeds-process_protobuf (cons imports es) s = succeeds-process_protobuf es s
  succeeds-process_protobuf (cons comment es) s = succeeds-process_protobuf es s
  succeeds-process_protobuf (cons reserved es) s = refl
  succeeds-process_protobuf (cons extensions es) s = refl
  succeeds-process_protobuf (cons unknown es) s = refl
  succeeds-process_protobuf (cons (enum_field n v c) es) s = refl
  succeeds-process_protobuf (cons (map_field d t) es) s = refl
  succeeds-process_protobuf (cons (normal_field d o r) es) s = refl
  succeeds-process_protobuf (cons (one_of_field d) es) s = refl
  succeeds-process_protobuf (cons (one_of n fs) es) s = refl
