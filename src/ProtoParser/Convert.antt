-- ===== src/ProtoParser/Convert.antt =====
-- proto_parser/parser.go: `protoToField`, with the options of proto_parser/field_option.go, and the
-- entries of an enum. `trim_space` is strings.TrimSpace.
use golang_core.Prelude.{
  ℕ, Bool, true, false, Option, none, some, List, [], ◌∷◌, ◌++◌, Result, ok, err, if◌then◌else◌,
  text_discrete, map,
}
use golang_core.Prelude.Dict.{empty, put}
use golang_core.ProtoParser.{
  FieldData, Element, Elements, syntax, package_line, option, imports, comment, reserved,
  extensions, unknown, message, enum, enum_field, map_field, normal_field, one_of_field, one_of,
  nil, cons, Error, process_one_of_field, unknown_protobuf_field, unknown_protobuf_enum_field,
  one_of_field_not_inside_one_of, FieldBase, Field, Fields, make_field, no_fields, add_field,
  EnumEntry,
}

abbrev pub FieldOption : Type 0
FieldOption = Field → Field

abbrev on_base : (FieldBase → FieldBase) → FieldOption
on_base f (make_field b children) = make_field (f b) children

abbrev pub with_children : Fields → FieldOption
with_children fields (make_field b children) = make_field b fields

abbrev pub with_additional_type : List ℕ → FieldOption
with_additional_type t = on_base (λ b. record b { additional_type = t })

abbrev pub with_is_one_of : FieldOption
with_is_one_of = on_base (λ b. record b { is_one_of = true })

abbrev pub with_is_map : FieldOption
with_is_map = on_base (λ b. record b { is_map = true })

abbrev pub with_is_optional : FieldOption
with_is_optional = on_base (λ b. record b { is_optional = true })

abbrev pub with_is_repeated : FieldOption
with_is_repeated = on_base (λ b. record b { is_repeated = true })

abbrev pub with_comment : List ℕ → FieldOption
with_comment t = on_base (λ b. record b { comment = t })

unfoldable pub with_attribute : List ℕ × List ℕ → FieldOption
with_attribute (key, value) =
    on_base (λ b. record b { attributes = put text_discrete b.attributes key value })

unfoldable pub apply_options : List FieldOption → Field → Field
apply_options [] f = f
apply_options (o ∷ os) f = apply_options os (o f)

unfoldable pub new_field : List ℕ → List ℕ → List FieldOption → Field
unfolding apply_options
new_field name typ options = apply_options options (
    make_field
      (record {
        name = name;
        typ = typ;
        additional_type = [];
        is_one_of = false;
        is_map = false;
        is_optional = false;
        is_repeated = false;
        comment = [];
        attributes = empty;
      })
      no_fields)

-- The name of the type of a oneof: "oneOf".
abbrev one_of_type : List ℕ
one_of_type = 111 ∷ 110 ∷ 101 ∷ 79 ∷ 102 ∷ []

-- `append(options, o)` under a condition.
abbrev when : Bool → FieldOption → List FieldOption
when b o = if b then o ∷ [] else []

module _ (trim_space : List ℕ → List ℕ) where
  abbrev comment_options : Option (List ℕ) → List FieldOption
  comment_options none = []
  comment_options (some t) = with_comment (trim_space t) ∷ []

  abbrev pub data_options : FieldData → List FieldOption
  data_options d = map with_attribute d.options ++ comment_options d.inline_comment

  -- How `protoToField` goes on in the loop over the fields of a oneof.
  abbrev pub in_one_of : List ℕ → Result Error Field → Result Error Fields → Result Error Fields
  in_one_of name (err e) rest = err (process_one_of_field name)
  in_one_of name (ok f) (err e) = err e
  in_one_of name (ok f) (ok fs) = ok (add_field f fs)

  abbrev pub one_of_result : List ℕ → Result Error Fields → Result Error Field
  one_of_result name (err e) = err e
  one_of_result name (ok fs) =
      ok (new_field name one_of_type (with_is_one_of ∷ with_children fs ∷ []))

  unfoldable mutual
    unfolding new_field with_attribute

    pub proto_to_field : Element → Bool → Result Error Field
    proto_to_field (map_field d key_type) inside =
        ok (new_field d.name d.typ (with_is_map ∷ with_additional_type key_type ∷ data_options d))
    proto_to_field (normal_field d optional repeated) inside = ok (
        new_field d.name d.typ
          (data_options d ++ when optional with_is_optional ++ when repeated with_is_repeated))
    proto_to_field (one_of_field d) inside =
        if inside
        then ok (new_field d.name d.typ (data_options d))
        else err (one_of_field_not_inside_one_of d.name)
    proto_to_field (one_of name es) inside = one_of_result name (one_of_fields name es)
    proto_to_field syntax inside = err unknown_protobuf_field
    proto_to_field package_line inside = err unknown_protobuf_field
    proto_to_field option inside = err unknown_protobuf_field
    proto_to_field imports inside = err unknown_protobuf_field
    proto_to_field comment inside = err unknown_protobuf_field
    proto_to_field reserved inside = err unknown_protobuf_field
    proto_to_field extensions inside = err unknown_protobuf_field
    proto_to_field unknown inside = err unknown_protobuf_field
    proto_to_field (message n x es) inside = err unknown_protobuf_field
    proto_to_field (enum n es) inside = err unknown_protobuf_field
    proto_to_field (enum_field n v c) inside = err unknown_protobuf_field

    pub one_of_fields : List ℕ → Elements → Result Error Fields
    one_of_fields name nil = ok no_fields
    one_of_fields name (cons comment es) = one_of_fields name es
    one_of_fields name (cons option es) = one_of_fields name es
    one_of_fields name (cons e es) = in_one_of name (proto_to_field e true) (one_of_fields name es)

  abbrev pub comment_text : Option (List ℕ) → List ℕ
  comment_text none = []
  comment_text (some t) = trim_space t

  abbrev pub add_entry : EnumEntry → Result Error (List EnumEntry) → Result Error (List EnumEntry)
  add_entry x (ok xs) = ok (x ∷ xs)
  add_entry x (err e) = err e

  -- The loop of `processEnum`.
  unfoldable pub enum_entries : Elements → Result Error (List EnumEntry)
  enum_entries nil = ok []
  enum_entries (cons comment es) = enum_entries es
  enum_entries (cons option es) = enum_entries es
  enum_entries (cons reserved es) = enum_entries es
  enum_entries (cons (enum_field n v c) es) =
      add_entry (record { name = n; value = v; comment = comment_text c }) (enum_entries es)
  enum_entries (cons e es) = err unknown_protobuf_enum_field
