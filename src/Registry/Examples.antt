-- ===== src/Registry/Examples.antt =====
-- A registry (workflows/registry.py) of three files, two of which claim one id.
use local_canvas.Prelude.{String, ◌≡◌, refl, none, some, List, [], ◌∷◌}
use local_canvas.Prelude.Dict.{keys}
use local_canvas.Prelude.Text.{sort_texts, is_blank}
use local_canvas.Values.{str, arr, obj, nil, end, field, entries}
use local_canvas.Workflow.{WorkflowDefinition, no_presentation, auto}
use local_canvas.Binding.Targets.{find}
use local_canvas.Validation.Checks.{Printing}
use local_canvas.Definition.Notes.{Problem, is_required, ◌>>=◌, ◌>>◌, noted}
use local_canvas.Definition.Yaml.{Source, yaml, scalar}
use local_canvas.Definition.Head.{
  GraphFile, json, claim_of, parse_workflow_id, parse_name, parse_graph, parse_presentation,
  parse_translation,
}
use local_canvas.Definition.Parse.{LoadedDefinition, load_definition, parse_inputs}
use local_canvas.Registry.Resolve.{load_all, resolve, get_workflow}
use local_canvas.Registry.Claims.{claimants}
use local_canvas.Registry.Served.{sole_of, get_workflow-resolve}
use local_canvas.Registry.Order.{Ascending, resolve-Ascending}

abbrev printing : Printing
printing = record { repr_text = λ s. s; str_float = λ x. "a float" }

abbrev wording : Problem → String
wording problem = "a problem"

abbrev graphs : String → String → GraphFile
graphs name path = json (obj end)

-- A definition without fields.
abbrev document : String → String → Source
document id name = yaml (scalar "" 0) (
    obj (
      field "id" (str id)
        (field "name" (str name) (field "workflow" (str "g.json") (field "inputs" (arr nil) end)))))

-- A definition without a name.
abbrev broken : String → Source
broken id =
    yaml (scalar "" 0)
      (obj (field "id" (str id) (field "workflow" (str "g.json") (field "inputs" (arr nil) end))))

abbrev files : List (String × Source)
files =
    ("a.yaml", document "two" "Two")
    ∷ ("b.yaml", document "one" "One")
    ∷ ("c.yaml", broken "two")
    ∷ []

abbrev flow : String → String → WorkflowDefinition
flow id name = record {
  id = id;
  name = name;
  presentation = no_presentation;
  inputs = [];
  bindings = [];
  graph = end;
  translation_mode = auto;
}

abbrev good : String → String → String → LoadedDefinition
good source id name = record {
  source = source;
  workflow = some (flow id name);
  diagnostics = [];
  workflow_id = some id;
}

abbrev bad : LoadedDefinition
bad = record {
  source = "c.yaml";
  workflow = none;
  diagnostics =
      record {
        source = "c.yaml";
        workflow_id = some "two";
        note = record { field_id = none; problem = is_required "name" };
      }
      ∷ [];
  workflow_id = some "two";
}

abbrev loaded : List LoadedDefinition
loaded = good "a.yaml" "two" "Two" ∷ good "b.yaml" "one" "One" ∷ bad ∷ []

files_load : load_all printing graphs files ≡ some loaded
unfolding load_all load_definition sort_texts keys entries ◌>>=◌ parse_workflow_id find parse_name
    noted is_blank parse_graph parse_presentation parse_translation parse_inputs ◌>>◌ claim_of
files_load = refl

get_workflow-resolve_example :
    get_workflow "two" (resolve wording loaded).workflows ≡ sole_of (claimants "two" loaded)
get_workflow-resolve_example =
    get_workflow-resolve wording printing graphs files loaded "two" files_load

resolve-Ascending_example : Ascending (resolve wording loaded).workflows
resolve-Ascending_example = resolve-Ascending wording printing graphs files loaded files_load
