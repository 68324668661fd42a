-- ===== src/ProtoParser/Messages.antt =====
-- proto_parser/parser.go: `processMessage`, `processEnum`, `processProtobuf` and the loop of `Parse`.
use golang_core.Prelude.{
  ℕ, suc, Bool, false, List, [], ◌∷◌, ◌++◌, Result, ok, err, if◌then◌else◌, text_discrete,
}
use golang_core.Prelude.Exec.{Exec, pure, fail, ◌>>=◌, ◌>>◌}
use golang_core.Prelude.Dict.{put}
use golang_core.ProtoParser.{
  Elements, syntax, package_line, option, imports, comment, reserved, extensions, message, enum,
  nil, cons, Error, parse_input, process_file, process_message_error, process_enum_error,
  process_field, unknown_protobuf_element, Field, Fields, no_fields, add_field, EnumEntry, Model,
  Enum, State, InputContext, get_full_name,
}
use golang_core.ProtoParser.Convert.{proto_to_field, enum_entries}

-- What the parser is made with: the separator of the names in a path, and strings.TrimSpace.
pub record Parser : Type 0 where
  pub path_separator : List ℕ
  pub trim_space : List ℕ → List ℕ

abbrev pub Run : Type 0 → Type 0
Run A = Exec State Error A

-- `fmt.Errorf("%w: ...: %w", wrapper, ..., err)`
abbrev pub wrapped :
    {A : Type 0} → (Error → Error) → Result Error A × State → Result Error A × State
wrapped f (ok a, s) = (ok a, s)
wrapped f (err e, s) = (err (f e), s)

abbrev pub wrapping : {A : Type 0} → (Error → Error) → Run A → Run A
wrapping f m s = wrapped f (m s)

abbrev pub lift : {A : Type 0} → Result Error A → Run A
lift (ok a) = pure a
lift (err e) = fail e

module _ (parser : Parser) (input : InputContext) where
  abbrev pub model_of : List (List ℕ) → List ℕ → Fields → Model
  model_of path name fields = record {
    file_id = input.file_id;
    pkg = input.pkg;
    path = path;
    name = name;
    body = fields;
  }

  abbrev pub enum_of : List (List ℕ) → List ℕ → List EnumEntry → Enum
  enum_of path name entries = record {
    file_id = input.file_id;
    pkg = input.pkg;
    path = path;
    name = name;
    body = entries;
  }

  unfoldable pub store_model : Model → Run (Unit {0})
  store_model m s =
      (pure tt)
        (record s { models = put text_discrete s.models (get_full_name m parser.path_separator) m })

  unfoldable pub store_enum : Enum → Run (Unit {0})
  store_enum m s =
      (pure tt)
        (record s { enums = put text_discrete s.enums (get_full_name m parser.path_separator) m })

  unfoldable pub process_enum : List (List ℕ) → List ℕ → Elements → Run (Unit {0})
  unfolding store_enum
  process_enum path name es =
      lift (enum_entries parser.trim_space es) >>= λ entries. store_enum (enum_of path name entries)

  -- `processMessage` around its loop, whose fields `body` gives.
  abbrev pub in_message : List (List ℕ) → List ℕ → Bool → Run Fields → Run (Unit {0})
  in_message path name is_extend body =
      if is_extend then pure tt else (body >>= λ fields. store_model (model_of path name fields))

  abbrev pub with_field : Result Error Field → Run Fields → Run Fields
  with_field (ok f) rest = rest >>= λ fs. pure (add_field f fs)
  with_field (err e) rest = fail process_field

  -- The loop over the elements of the message `name`, and the fields that it collects.
  unfoldable pub process_elements : List (List ℕ) → List ℕ → Elements → Run Fields
  unfolding store_model process_enum
  process_elements path name nil = pure no_fields
  process_elements path name (cons (message n is_extend inner) es) =
      wrapping (process_message_error name)
        (in_message (path ++ name ∷ []) n is_extend (process_elements (path ++ name ∷ []) n inner))
      >> process_elements path name es
  process_elements path name (cons (enum n inner) es) =
      wrapping (process_enum_error name) (process_enum (path ++ name ∷ []) n inner)
      >> process_elements path name es
  process_elements path name (cons comment es) = process_elements path name es
  process_elements path name (cons option es) = process_elements path name es
  process_elements path name (cons reserved es) = process_elements path name es
  process_elements path name (cons extensions es) = process_elements path name es
  process_elements path name (cons e es) =
      with_field (proto_to_field parser.trim_space e false) (process_elements path name es)

  unfoldable pub process_message : List (List ℕ) → List ℕ → Bool → Elements → Run (Unit {0})
  unfolding process_elements store_model
  process_message path name is_extend es =
      in_message path name is_extend (process_elements path name es)

  unfoldable pub process_protobuf : Elements → Run (Unit {0})
  unfolding process_message process_enum
  process_protobuf nil = pure tt
  process_protobuf (cons syntax es) = process_protobuf es
  process_protobuf (cons package_line es) = process_protobuf es
  process_protobuf (cons option es) = process_protobuf es
  process_protobuf (cons imports es) = process_protobuf es
  process_protobuf (cons comment es) = process_protobuf es
  process_protobuf (cons (message n is_extend inner) es) =
      wrapping (process_message_error n) (process_message [] n is_extend inner)
      >> process_protobuf es
  process_protobuf (cons (enum n inner) es) =
      wrapping (process_enum_error n) (process_enum [] n inner) >> process_protobuf es
  process_protobuf (cons e es) = fail unknown_protobuf_element

-- An input: its tree is what the third-party parser makes of its text, or the error of opening or of
-- parsing it.
pub record Input : Type 0 where
  pub name : List ℕ
  pub pkg : List ℕ
  pub tree : Result Error Elements

unfoldable pub parse_one : Parser → ℕ → Input → Run (Unit {0})
unfolding process_protobuf
parse_one parser index input = lift input.tree >>= λ es.
    wrapping process_file (process_protobuf parser (record { file_id = index; pkg = input.pkg }) es)

-- The loop of `Parse`, from the input with the number `index` on.
unfoldable pub parse_inputs : Parser → ℕ → List Input → Run (Unit {0})
unfolding parse_one
parse_inputs parser index [] = pure tt
parse_inputs parser index (input ∷ rest) =
    wrapping (parse_input input.name) (parse_one parser index input)
    >> parse_inputs parser (suc index) rest
