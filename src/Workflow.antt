-- ===== src/Workflow.antt =====
-- gateway/localcanvas_gateway/workflows/model.py: a workflow's field schema, its bindings and its
-- graph. The paths of the two files are left out.
use local_canvas.Prelude.{
  String, Bool, true, false, Option, none, some, List, [], ◌∷◌, any, ◌==◌, ◌&&◌, not, if◌then◌else◌,
}
use local_canvas.Prelude.Dict.{Dict, lookup}
use local_canvas.Values.{Fields, Value}
use local_canvas.Values.Numbers.{Number}

pub data FieldType : Type 0 where
  string multiline integer float boolean select image video : FieldType

-- `FieldType.value`
unfoldable pub type_value : FieldType → String
type_value string = "string"
type_value multiline = "multiline"
type_value integer = "integer"
type_value float = "float"
type_value boolean = "boolean"
type_value select = "select"
type_value image = "image"
type_value video = "video"

-- The value of an option: the loader refuses what is neither text nor number.
pub data OptionValue : Type 0 where
  text : String → OptionValue
  number : Number → OptionValue

pub record SelectOption : Type 0 where
  pub value : OptionValue
  pub label : String

pub record Binding : Type 0 where
  pub node : String
  pub input : String

pub data Section : Type 0 where
  main advanced : Section

pub data FieldRole : Type 0 where
  seed : FieldRole

pub data FieldPair : Type 0 where
  width height : FieldPair

-- A field. `default` is `none` where `has_default` is false: no field has `None` for its default.
-- `duration` is the `fps` of the hint.
pub record InputField : Type 0 where
  pub id : String
  pub label : String
  pub field_type : FieldType
  pub required : Bool
  pub section : Section
  pub default : Option Value
  pub help : Option String
  pub min : Option Number
  pub max : Option Number
  pub step : Option Number
  pub options : List SelectOption
  pub role : Option FieldRole
  pub pair : Option FieldPair
  pub duration : Option Number
  pub translatable : Bool

-- `InputField.is_media`
unfoldable pub is_media : InputField → Bool
is_media f = elim f.field_type [ image ↦ true | video ↦ true | _ ↦ false ]

pub data TranslationMode : Type 0 where
  auto off : TranslationMode

pub record Presentation : Type 0 where
  pub group : Option String
  pub category : Option String
  pub badge : Option String
  pub short_description : Option String
  pub best_for : List String
  pub how_to_use : Option String
  pub input_summary : Option String
  pub example_prompt : Option String
  pub not_ideal_for : List String

-- `Presentation()`
abbrev pub no_presentation : Presentation
no_presentation = record {
  group = none;
  category = none;
  badge = none;
  short_description = none;
  best_for = [];
  how_to_use = none;
  input_summary = none;
  example_prompt = none;
  not_ideal_for = [];
}

pub record WorkflowDefinition : Type 0 where
  pub id : String
  pub name : String
  pub presentation : Presentation
  pub inputs : List InputField
  pub bindings : Dict (List Binding)
  pub graph : Fields
  pub translation_mode : TranslationMode

-- `name in workflow.fields_by_id`
unfoldable pub is_field : String → List InputField → Bool
is_field name inputs = any (λ (f : InputField). f.id == name) inputs

-- `bindings_for`
unfoldable pub bindings_for : WorkflowDefinition → String → List Binding
bindings_for workflow field_id = elim (lookup field_id workflow.bindings) [
  | none ↦ []
  | some targets ↦ targets
]

kinds_from : List String → List InputField → List String
kinds_from seen [] = []
kinds_from seen (f ∷ inputs) =
    let kind = type_value f.field_type in
    let new = is_media f && f.required && not (any (λ other. other == kind) seen) in
    let rest = kinds_from (if new then kind ∷ seen else seen) inputs in
    if new then kind ∷ rest else rest

-- `required_media`
unfoldable pub required_media : WorkflowDefinition → List String
unfolding kinds_from
required_media workflow = kinds_from [] workflow.inputs
