-- ===== src/Definition/Examples.antt =====
-- A small definition that loads (workflows/definition.py), and a submission to it.
use local_canvas.Prelude.{ℕ, String, ◌≡◌, ◌↔◌, refl, true, false, none, some, [], ◌∷◌}
use local_canvas.Prelude.Int.{pos, show_int}
use local_canvas.Prelude.Dict.{Dict, lookup, insert, has_key, keys}
use local_canvas.Prelude.Text.{sort_texts, show, is_blank}
use local_canvas.Values.{
  Value, str, int, bool, arr, obj, nil, cons, Fields, end, field, entries, has_field,
}
use local_canvas.Workflow.{
  Section, no_presentation, FieldType, InputField, WorkflowDefinition, auto, is_field,
}
use local_canvas.Binding.Bind.{Resolver, done, bind_values}
use local_canvas.Binding.Targets.{find, as_mapping, same_target}
use local_canvas.Validation.Checks.{Printing, valid, check, check_text}
use local_canvas.Validation.Inputs.{validate_inputs}
use local_canvas.Definition.Notes.{◌>>=◌, ◌>>◌, noted, reject_unknown_keys}
use local_canvas.Definition.Yaml.{Source, Node, scalar, mapping, pair, no_pairs, yaml, walk}
use local_canvas.Definition.Head.{
  GraphFile, claim_of, json, parse_workflow_id, parse_name, parse_graph, parse_presentation,
  parse_translation,
}
use local_canvas.Definition.Parse.{LoadedDefinition, load_definition, parse_inputs}
use local_canvas.Definition.Hints.{
  is_text_type, parse_type, parse_flag, parse_section, parse_help, reject_wrong_type_keys,
  parse_role, parse_pair, parse_duration,
}
use local_canvas.Definition.Limits.{parse_bounds, parse_default}
use local_canvas.Definition.Options.{parse_options}
use local_canvas.Definition.Targets.{parse_bind, parse_bind_target}
use local_canvas.Definition.Loaded.{Verdict, WellWired, load_definition-Verdict}
use local_canvas.Definition.Binds.{Settles, load_definition-bind_values}
use local_canvas.Definition.Duplicates.{Unique, walk-Unique}

abbrev pub printing : Printing
printing = record { repr_text = λ s. s; str_float = λ x. "a float" }

abbrev graph : Fields
graph = field "6" (obj (field "inputs" (obj (field "text" (str "") end)) end)) end

abbrev pub files : String → GraphFile
files path = json (obj graph)

abbrev prompt_field : Value
prompt_field = obj (
    field "id" (str "prompt") (
      field "label" (str "Prompt") (
        field "type" (str "string") (
          field "required" (bool true) (
            field "bind" (obj (field "node" (int (pos 6)) (field "input" (str "text") end)))
              end)))))

abbrev document : Fields
document = field "id" (str "flow") (
    field "name" (str "Flow")
      (field "workflow" (str "flow.json") (field "inputs" (arr (cons prompt_field nil)) end)))

abbrev root : Node
root =
    mapping
      (pair (scalar "id" 0) (scalar "flow" 0) (pair (scalar "name" 1) (scalar "Flow" 1) no_pairs))

abbrev pub file : Source
file = yaml root (obj document)

abbrev prompt : InputField
prompt = record {
  id = "prompt";
  label = "Prompt";
  field_type = FieldType.string;
  required = true;
  section = Section.main;
  default = none;
  help = none;
  step = none;
  role = none;
  pair = none;
  duration = none;
  min = none;
  max = none;
  options = [];
  translatable = false;
}

abbrev pub flow : WorkflowDefinition
flow = record {
  id = "flow";
  name = "Flow";
  presentation = no_presentation;
  inputs = prompt ∷ [];
  bindings = ("prompt", record { node = "6"; input = "text" } ∷ []) ∷ [];
  graph = graph;
  translation_mode = auto;
}

abbrev pub loaded : LoadedDefinition
loaded = record {
  source = "flow.yaml";
  workflow = some flow;
  diagnostics = [];
  workflow_id = some "flow";
}

pub file_loads : load_definition printing files "flow.yaml" file ≡ some loaded
unfolding load_definition sort_texts keys entries ◌>>=◌ parse_workflow_id find parse_name noted
    is_blank parse_graph parse_presentation parse_translation parse_inputs ◌>>◌ parse_type
    parse_flag parse_section parse_help reject_wrong_type_keys has_field parse_options parse_bounds
    parse_default parse_role parse_pair parse_duration parse_bind show_int as_mapping insert lookup
    has_key parse_bind_target reject_unknown_keys same_target is_text_type show claim_of
file_loads = refl

load_definition-Verdict_example : Verdict WellWired loaded
load_definition-Verdict_example =
    load_definition-Verdict printing files "flow.yaml" file loaded file_loads

abbrev resolver : Resolver String ℕ
resolver f v uploads = (done (str "up.png"), uploads)

abbrev pub values : Dict Value
values = ("prompt", str "a cat") ∷ []

pub values_are_accepted : validate_inputs printing flow values ≡ valid values
unfolding validate_inputs sort_texts keys is_field lookup insert check check_text is_blank
values_are_accepted = refl

load_definition-bind_values_example : Settles (bind_values (some resolver) flow values 0).0
load_definition-bind_values_example =
    load_definition-bind_values resolver printing files "flow.yaml" file loaded flow values values 0
      (λ f v s. tt) file_loads refl values_are_accepted

walk-Unique_example : (walk root ≡ none) ↔ Unique root
walk-Unique_example = walk-Unique root
