-- ===== src/ProtoParser.antt =====
-- proto_parser/: the models and enums of parsed protobuf definitions. The parser of the text is third-party:
-- `Element` is what the source reads of its tree.
pub mod Convert
pub mod Messages
pub mod Names
pub mod Declared
pub mod Supported
pub mod Accepts
mod Tests
use golang_core.Prelude.{
  ℕ, zero, suc, ◌+◌, ℤ, Bool, true, false, Option, none, some, List, [], ◌∷◌, ◌++◌, Result, ok, err,
  if◌then◌else◌, text_discrete,
}
use golang_core.Prelude.Exec.{Exec, pure, fail, ◌>>=◌, ◌>>◌}
use golang_core.Prelude.Dict.{Dict, empty, put}

-- What the fields of the third-party tree have in common: the options by name and source.
pub record FieldData : Type 0 where
  pub name : List ℕ
  pub typ : List ℕ
  pub options : List (List ℕ × List ℕ)
  pub inline_comment : Option (List ℕ)

-- An element of the tree. `unknown` stands for the kinds that the source does not name.
mutual
  pub data Element : Type 0 where
    syntax : Element
    package_line : Element
    option : Element
    imports : Element
    comment : Element
    reserved : Element
    extensions : Element
    unknown : Element
    message : List ℕ → Bool → Elements → Element
    enum : List ℕ → Elements → Element
    enum_field : List ℕ → ℤ → Option (List ℕ) → Element
    map_field : FieldData → List ℕ → Element
    normal_field : FieldData → Bool → Bool → Element
    one_of_field : FieldData → Element
    one_of : List ℕ → Elements → Element

  pub data Elements : Type 0 where
    nil : Elements
    cons : Element → Elements → Elements

pub data Error : Type 0 where
  parse_input : List ℕ → Error → Error
  open_source : Error
  parse_file : Error
  process_file : Error → Error
  process_message_error : List ℕ → Error → Error
  process_enum_error : List ℕ → Error → Error
  process_field : Error
  process_one_of_field : List ℕ → Error
  unknown_protobuf_element : Error
  unknown_protobuf_field : Error
  unknown_protobuf_enum_field : Error
  one_of_field_not_inside_one_of : List ℕ → Error

-- `FieldImpl`
pub record FieldBase : Type 0 where
  pub name : List ℕ
  pub typ : List ℕ
  pub additional_type : List ℕ
  pub is_one_of : Bool
  pub is_map : Bool
  pub is_optional : Bool
  pub is_repeated : Bool
  pub comment : List ℕ
  pub attributes : Dict (List ℕ) (List ℕ)

mutual
  pub data Field : Type 0 where
    make_field : FieldBase → Fields → Field

  pub data Fields : Type 0 where
    no_fields : Fields
    add_field : Field → Fields → Fields

pub record EnumEntry : Type 0 where
  pub name : List ℕ
  pub value : ℤ
  pub comment : List ℕ

-- `ModelImpl` and `EnumImpl`, which differ in `A` only.
pub record Entity (A : Type 0) : Type 0 where
  pub file_id : ℕ
  pub pkg : List ℕ
  pub path : List (List ℕ)
  pub name : List ℕ
  pub body : A

abbrev pub Model : Type 0
Model = Entity Fields

abbrev pub Enum : Type 0
Enum = Entity (List EnumEntry)

pub record State : Type 0 where
  pub models : Dict (List ℕ) Model
  pub enums : Dict (List ℕ) Enum

abbrev pub new_state : State
new_state = record { models = empty; enums = empty }

pub record InputContext : Type 0 where
  pub file_id : ℕ
  pub pkg : List ℕ

-- `strings.Join`
abbrev pub join : List (List ℕ) → List ℕ → List ℕ
join [] sep = []
join (x ∷ []) sep = x
join (x ∷ y ∷ ys) sep = x ++ sep ++ join (y ∷ ys) sep

unfoldable pub full_name : List ℕ → List (List ℕ) → List ℕ → List ℕ
full_name sep [] name = name
full_name sep (x ∷ xs) name = join (x ∷ xs) sep ++ sep ++ name

abbrev pub get_full_name : {A : Type 0} → Entity A → List ℕ → List ℕ
get_full_name e sep = full_name sep e.path e.name
