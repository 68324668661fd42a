-- ===== src/ProtoParser/Tests.antt =====
-- proto_parser/parser.go: the theorems on a concrete file.
use golang_core.Prelude.{
  ℕ, ◌≡◌, refl, true, false, ◌||◌, none, List, [], ◌∷◌, text_discrete, ℕ_discrete,
}
use golang_core.ProtoParser.{
  FieldData, Elements, syntax, message, normal_field, one_of_field, nil, cons, InputContext,
  new_state, full_name,
}
use golang_core.ProtoParser.Convert.{proto_to_field, new_field, with_attribute, apply_options}
use golang_core.ProtoParser.Messages.{
  Parser, process_protobuf, process_message, process_elements, store_model,
}
use golang_core.ProtoParser.Names.{has_model, file_declares, declares}
use golang_core.ProtoParser.Declared.{has_model-process_protobuf}
use golang_core.ProtoParser.Supported.{succeeds, supports_file}
use golang_core.ProtoParser.Accepts.{succeeds-process_protobuf}

-- "A", "B" and a field of them
abbrev name_a : List ℕ
name_a = 65 ∷ []

abbrev name_b : List ℕ
name_b = 66 ∷ []

abbrev some_field : FieldData
some_field = record { name = 102 ∷ []; typ = 115 ∷ []; options = []; inline_comment = none }

abbrev plain_parser : Parser
plain_parser = record { path_separator = 46 ∷ []; trim_space = λ t. t }

abbrev first_input : InputContext
first_input = record { file_id = 0; pkg = [] }

-- A message B within a message A.
abbrev nested_file : Elements
nested_file = cons syntax (
    cons
      (message name_a false
        (cons (message name_b false (cons (normal_field some_field false true) nil)) nil))
      nil)

-- The full name of B: "A.B"
abbrev full_b : List ℕ
full_b = 65 ∷ 46 ∷ 66 ∷ []

has_model-process_protobuf_example :
    has_model full_b (process_protobuf plain_parser first_input nested_file new_state).1
    ≡ file_declares (46 ∷ []) full_b nested_file || has_model full_b new_state
unfolding process_protobuf process_message process_elements store_model proto_to_field new_field
    with_attribute apply_options
has_model-process_protobuf_example =
    has_model-process_protobuf plain_parser first_input full_b nested_file new_state refl

declared_b : file_declares (46 ∷ []) full_b nested_file ≡ true
unfolding file_declares declares full_name text_discrete ℕ_discrete
declared_b = refl

-- A field of a oneof that stands in a message is refused.
succeeds-process_protobuf_example :
    succeeds
      (process_protobuf plain_parser first_input
        (cons (message name_a false (cons (one_of_field some_field) nil)) nil)
        new_state).0
    ≡ supports_file (cons (message name_a false (cons (one_of_field some_field) nil)) nil)
succeeds-process_protobuf_example =
    succeeds-process_protobuf plain_parser first_input
      (cons (message name_a false (cons (one_of_field some_field) nil)) nil) new_state
