-- ===== src/ProtoParser/Declared.antt =====
-- proto_parser/parser.go: which models the loops over the messages leave behind.
use golang_core.Prelude.{
  ℕ, ◌≡◌, refl, ap, ◌∙◌, Bool, true, false, ◌||◌, List, [], ◌∷◌, ◌++◌, Result, ok, err,
  if◌then◌else◌, text_discrete, arith,
}
use golang_core.Prelude.Dict.{get-put}
use golang_core.ProtoParser.{
  Elements, syntax, package_line, option, imports, comment, reserved, extensions, unknown, message,
  enum, enum_field, map_field, normal_field, one_of_field, one_of, nil, cons, Error,
  process_message_error, process_enum_error, Field, Fields, add_field, Model, State, InputContext,
  full_name, get_full_name,
}
use golang_core.ProtoParser.Convert.{proto_to_field, enum_entries}
use golang_core.ProtoParser.Messages.{
  Parser, Run, wrapping, lift, model_of, enum_of, store_model, store_enum, process_enum, in_message,
  with_field, process_elements, process_message, process_protobuf,
}
use golang_core.ProtoParser.Names.{
  same_text, is_some, declares, file_declares, has_model, Gains, bind-Gains, Gains-ok,
  wrapped-Gains, map-Gains, lift-Gains,
}

module _ (parser : Parser) (input : InputContext) (k : List ℕ) where
  abbrev sep : List ℕ
  sep = parser.path_separator

  store_model-Gains :
      (m : Model) (s : State)
      → Gains k (same_text (get_full_name m sep) k) s (store_model parser input m s)
  unfolding store_model has_model
  store_model-Gains m s =
      ap is_some (get-put text_discrete s.models (get_full_name m sep) k m) ∙ ground arith

  process_enum-Gains :
      (path : List (List ℕ)) (n : List ℕ) (es : Elements) (s : State)
      → Gains k false s (process_enum parser input path n es s)
  unfolding process_enum store_enum has_model
  process_enum-Gains path n es s =
      bind-Gains k false false s (lift (enum_entries parser.trim_space es) s)
        (λ entries. store_enum parser input (enum_of parser input path n entries))
        (lift-Gains k s (enum_entries parser.trim_space es)) (λ entries t. refl)

  in_message-Gains :
      (path : List (List ℕ)) (n : List ℕ) (is_extend : Bool) (b : Bool) (body : Run Fields)
      (s : State)
      → Gains k b s (body s)
      → Gains k
          (if is_extend then false else (b || same_text (full_name sep path n) k))
          s
          (in_message parser input path n is_extend body s)
  in_message-Gains path n true b body s g = refl
  in_message-Gains path n false b body s g =
      bind-Gains k b (same_text (full_name sep path n) k) s (body s)
        (λ fields. store_model parser input (model_of parser input path n fields)) g
        (λ fields t. store_model-Gains (model_of parser input path n fields) t)

  with_field-Gains :
      (r : Result Error Field) (rest : Run Fields) (b : Bool) (s : State)
      → Gains k b s (rest s)
      → Gains k b s (with_field parser input r rest s)
  with_field-Gains (ok f) rest b s g = map-Gains k b s (rest s) (add_field f) g
  with_field-Gains (err e) rest b s g = tt

  elements-Gains :
      (path : List (List ℕ)) (name : List ℕ) (es : Elements) (s : State)
      → Gains k (declares sep k path name es) s (process_elements parser input path name es s)
  unfolding declares process_elements
  elements-Gains path name nil s = refl
  elements-Gains path name (cons (message n is_extend inner) es) s =
      let inside = path ++ name ∷ [] in
      bind-Gains k
        (if is_extend
          then false
          else (declares sep k inside n inner || same_text (full_name sep inside n) k))
        (declares sep k path name es) s
        (wrapping (process_message_error name)
          (in_message parser input inside n is_extend
            (process_elements parser input inside n inner))
          s)
        (λ u. process_elements parser input path name es)
        (wrapped-Gains k
          (if is_extend
            then false
            else (declares sep k inside n inner || same_text (full_name sep inside n) k))
          s (process_message_error name)
          (in_message parser input inside n is_extend (process_elements parser input inside n inner)
            s)
          (in_message-Gains inside n is_extend (declares sep k inside n inner)
            (process_elements parser input inside n inner) s (elements-Gains inside n inner s)))
        (λ u t. elements-Gains path name es t)
  elements-Gains path name (cons (enum n inner) es) s =
      bind-Gains k false (declares sep k path name es) s
        (wrapping (process_enum_error name) (process_enum parser input (path ++ name ∷ []) n inner)
          s)
        (λ u. process_elements parser input path name es)
        (wrapped-Gains k false s (process_enum_error name)
          (process_enum parser input (path ++ name ∷ []) n inner s)
          (process_enum-Gains (path ++ name ∷ []) n inner s))
        (λ u t. elements-Gains path name es t)
  elements-Gains path name (cons comment es) s = elements-Gains path name es s
  elements-Gains path name (cons option es) s = elements-Gains path name es s
  elements-Gains path name (cons reserved es) s = elements-Gains path name es s
  elements-Gains path name (cons extensions es) s = elements-Gains path name es s
  elements-Gains path name (cons syntax es) s =
      with_field-Gains (proto_to_field parser.trim_space syntax false)
        (process_elements parser input path name es) (declares sep k path name es) s
        (elements-Gains path name es s)
  elements-Gains path name (cons package_line es) s =
      with_field-Gains (proto_to_field parser.trim_space package_line false)
        (process_elements parser input path name es) (declares sep k path name es) s
        (elements-Gains path name es s)
  elements-Gains path name (cons imports es) s =
      with_field-Gains (proto_to_field parser.trim_space imports false)
        (process_elements parser input path name es) (declares sep k path name es) s
        (elements-Gains path name es s)
  elements-Gains path name (cons unknown es) s =
      with_field-Gains (proto_to_field parser.trim_space unknown false)
        (process_elements parser input path name es) (declares sep k path name es) s
        (elements-Gains path name es s)
  elements-Gains path name (cons (enum_field n v c) es) s =
      with_field-Gains (proto_to_field parser.trim_space (enum_field n v c) false)
        (process_elements parser input path name es) (declares sep k path name es) s
        (elements-Gains path name es s)
  elements-Gains path name (cons (map_field d t) es) s =
      with_field-Gains (proto_to_field parser.trim_space (map_field d t) false)
        (process_elements parser input path name es) (declares sep k path name es) s
        (elements-Gains path name es s)
  elements-Gains path name (cons (normal_field d o r) es) s =
      with_field-Gains (proto_to_field parser.trim_space (normal_field d o r) false)
        (process_elements parser input path name es) (declares sep k path name es) s
        (elements-Gains path name es s)
  elements-Gains path name (cons (one_of_field d) es) s =
      with_field-Gains (proto_to_field parser.trim_space (one_of_field d) false)
        (process_elements parser input path name es) (declares sep k path name es) s
        (elements-Gains path name es s)
  elements-Gains path name (cons (one_of n fs) es) s =
      with_field-Gains (proto_to_field parser.trim_space (one_of n fs) false)
        (process_elements parser input path name es) (declares sep k path name es) s
        (elements-Gains path name es s)

  message-Gains :
      (n : List ℕ) (is_extend : Bool) (inner : Elements) (s : State)
      → Gains k
          (if is_extend
            then false
            else (declares sep k [] n inner || same_text (full_name sep [] n) k))
          s
          (wrapping (process_message_error n) (process_message parser input [] n is_extend inner) s)
  unfolding process_message
  message-Gains n is_extend inner s =
      wrapped-Gains k
        (if is_extend
          then false
          else (declares sep k [] n inner || same_text (full_name sep [] n) k))
        s (process_message_error n)
        (in_message parser input [] n is_extend (process_elements parser input [] n inner) s)
        (in_message-Gains [] n is_extend (declares sep k [] n inner)
          (process_elements parser input [] n inner) s (elements-Gains [] n inner s))

  protobuf-Gains :
      (es : Elements) (s : State)
      → Gains k (file_declares sep k es) s (process_protobuf parser input es s)
  unfolding file_declares process_protobuf
  protobuf-Gains nil s = refl
  protobuf-Gains (cons (message n is_extend inner) es) s =
      bind-Gains k
        (if is_extend
          then false
          else (declares sep k [] n inner || same_text (full_name sep [] n) k))
        (file_declares sep k es) s
        (wrapping (process_message_error n) (process_message parser input [] n is_extend inner) s)
        (λ u. process_protobuf parser input es) (message-Gains n is_extend inner s)
        (λ u t. protobuf-Gains es t)
  protobuf-Gains (cons (enum n inner) es) s =
      bind-Gains k false (file_declares sep k es) s
        (wrapping (process_enum_error n) (process_enum parser input [] n inner) s)
        (λ u. process_protobuf parser input es)
        (wrapped-Gains k false s (process_enum_error n) (process_enum parser input [] n inner s)
          (process_enum-Gains [] n inner s))
        (λ u t. protobuf-Gains es t)
  protobuf-Gains (cons syntax es) s = protobuf-Gains es s
  protobuf-Gains (cons package_line es) s = protobuf-Gains es s
  protobuf-Gains (cons option es) s = protobuf-Gains es s
  protobuf-Gains (cons imports es) s = protobuf-Gains es s
  protobuf-Gains (cons comment es) s = protobuf-Gains es s
  protobuf-Gains (cons reserved es) s = tt
  protobuf-Gains (cons extensions es) s = tt
  protobuf-Gains (cons unknown es) s = tt
  protobuf-Gains (cons (enum_field n v c) es) s = tt
  protobuf-Gains (cons (map_field d t) es) s = tt
  protobuf-Gains (cons (normal_field d o r) es) s = tt
  protobuf-Gains (cons (one_of_field d) es) s = tt
  protobuf-Gains (cons (one_of n fs) es) s = tt

  -- A file that is processed without an error adds a model under the full name of each message that it
  -- declares, at any depth and with extensions left out, and under no other name.
  pub has_model-process_protobuf :
      (es : Elements) (s : State)
      → (process_protobuf parser input es s).0 ≡ ok tt
      → has_model k (process_protobuf parser input es s).1 ≡ file_declares sep k es || has_model k s
  has_model-process_protobuf es s q =
      Gains-ok k (file_declares sep k es) s (process_protobuf parser input es s) tt q
        (protobuf-Gains es s)
