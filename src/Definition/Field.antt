-- ===== src/Definition/Field.antt =====
-- `_parse_field` of gateway/localcanvas_gateway/workflows/definition.py.
use local_canvas.Prelude.{ℕ, String, false, Option, none, some, List, [], ◌∷◌, if◌then◌else◌}
use local_canvas.Values.{Value, obj, Fields}
use local_canvas.Workflow.{FieldType, InputField, Binding}
use local_canvas.Binding.Targets.{find}
use local_canvas.Validation.Checks.{Printing}
use local_canvas.Definition.Notes.{
  must_not_be_empty, must_be_mapping, Found, pure, fail, noted, ◌>>=◌, ◌>>◌, reject_unknown_keys,
  at_index,
}
use local_canvas.Definition.Head.{non_blank}
use local_canvas.Definition.Hints.{
  is_text_type, parse_type, parse_flag, parse_section, parse_help, reject_wrong_type_keys,
  parse_role, parse_pair, parse_duration,
}
use local_canvas.Definition.Limits.{parse_bounds, parse_default}
use local_canvas.Definition.Options.{parse_options}
use local_canvas.Definition.Targets.{parse_bind}

-- `FIELD_KEYS`
abbrev field_keys : List String
field_keys =
    "id" ∷ "label" ∷ "type" ∷ "required" ∷ "section" ∷ "default" ∷ "help" ∷ "bind" ∷ "min" ∷ "max"
    ∷ "step" ∷ "options" ∷ "role" ∷ "pair" ∷ "duration" ∷ "translatable" ∷ []

-- A text of a field that is not blank; a missing key is noted as a blank one.
unfoldable pub text_in : Option String → String → Option Value → Found (Option String)
unfolding non_blank
text_in id place none = fail id (must_not_be_empty place) none
text_in id place (some v) = noted id (must_not_be_empty place) (non_blank v)

-- A field, with its targets unless they were rejected.
abbrev pub ParsedField : Type 0
ParsedField = InputField × Option (List Binding)

unfoldable pub with_label : Option String → (String → ParsedField) → Option ParsedField
with_label none parsed = none
with_label (some label) parsed = some (parsed label)

module _ (p : Printing) (graph : Option Fields) where
  -- The rest of `_parse_field`, where the id, the label and the type are known.
  unfoldable pub typed_field :
      Fields → String → Option String → FieldType → Found (Option ParsedField)
  unfolding with_label
  typed_field raw id label t = do
    required ← parse_flag raw "required" id false
    section ← parse_section raw id
    help ← parse_help raw id
    reject_wrong_type_keys raw t id
    options ← parse_options p id raw t
    b ← parse_bounds raw t id
    default ← parse_default raw t id required b options
    role ← parse_role raw t id
    pair ← parse_pair raw t id
    duration ← parse_duration raw t id
    translatable ← if is_text_type t then parse_flag raw "translatable" id false else pure false
    targets ← parse_bind raw id graph
    pure (
        with_label label (λ label. (
          record {
            id = id;
            label = label;
            field_type = t;
            required = required;
            section = section;
            default = default;
            help = help;
            min = b.min;
            max = b.max;
            step = b.step;
            options = options;
            role = role;
            pair = pair;
            duration = duration;
            translatable = translatable;
          },
          targets,
        )))

  unfoldable pub named_field : Fields → String → Found (Option ParsedField)
  unfolding text_in typed_field reject_unknown_keys
  named_field raw id = do
    reject_unknown_keys raw field_keys "field" (some id)
    label ← text_in (some id) "label" (find "label" raw)
    t ← parse_type raw id
    elim t [ none ↦ pure none | some t ↦ typed_field raw id label t ]

  unfoldable pub field_in : ℕ → Fields → Found (Option ParsedField)
  unfolding text_in named_field
  field_in index raw = do
    id ← text_in none (at_index "inputs" index) (find "id" raw)
    elim id [ none ↦ pure none | some id ↦ named_field raw id ]

  -- `_parse_field`
  unfoldable pub parse_field : ℕ → Value → Found (Option ParsedField)
  unfolding field_in
  parse_field index (obj raw) = field_in index raw
  parse_field index v = fail none (must_be_mapping (at_index "inputs" index)) none
