-- ===== src/Definition/Parse.antt =====
-- The fields and the whole of a definition, in gateway/localcanvas_gateway/workflows/definition.py.
use local_canvas.Prelude.{
  ℕ, suc, String, Bool, true, false, Option, none, some, List, [], ◌∷◌, ◌++◌, map, any,
  if◌then◌else◌,
}
use local_canvas.Prelude.Dict.{Dict, has_key, insert}
use local_canvas.Values.{Value, null, arr, Items, nil, cons, Fields, end}
use local_canvas.Workflow.{InputField, Binding, WorkflowDefinition, TranslationMode, Presentation}
use local_canvas.Binding.Bind.{is_empty}
use local_canvas.Binding.Targets.{find}
use local_canvas.Validation.Checks.{Printing}
use local_canvas.Definition.Notes.{
  Note, is_required, must_be_list, duplicate_field, target_taken, raised, Found, pure, fail, ◌>>=◌,
  reject_unknown_keys,
}
use local_canvas.Definition.Yaml.{Source, read_yaml}
use local_canvas.Definition.Head.{
  claim_of, parse_workflow_id, parse_name, GraphFile, parse_graph, parse_presentation,
  parse_translation,
}
use local_canvas.Definition.Field.{ParsedField, parse_field}
use local_canvas.Definition.Targets.{Placed, place_in}

-- What the loop over the fields keeps: the bindings of the fields so far, and each target that is
-- taken, with the field that has it.
pub record Loop : Type 0 where
  pub bindings : Dict (List Binding)
  pub taken : List Placed

-- One note for each target that another field has.
unfoldable pub taken_notes : String → List Placed → List Binding → List Note
unfolding place_in
taken_notes id taken [] = []
taken_notes id taken (t ∷ ts) =
    let rest = taken_notes id taken ts in
    elim (place_in t taken) [
      | none ↦ rest
      | some other ↦
          record { field_id = some id; problem = target_taken t.node t.input other } ∷ rest
    ]

-- The loop's body, after the field is parsed: the field, if it is kept, and the next state.
unfoldable pub keep_field : Loop → Option ParsedField → Found (Option InputField × Loop)
unfolding taken_notes is_empty
keep_field s none = pure (none, s)
keep_field s (some (f, targets)) =
    if has_key f.id s.bindings then fail (some f.id) duplicate_field (none, s) else (elim targets [
      | none ↦ pure (some f, s)
      | some ts ↦
          if is_empty (taken_notes f.id s.taken ts)
          then pure (
            some f,
            record {
              bindings = insert f.id ts s.bindings;
              taken = map (λ t. (f.id, t)) ts ++ s.taken;
            },
          )
          else ((none, s), taken_notes f.id s.taken ts)
    ])

unfoldable pub with_field : Option InputField → List InputField → List InputField
with_field none fs = fs
with_field (some f) fs = f ∷ fs

abbrev pub no_inputs_yet : Loop
no_inputs_yet = record { bindings = []; taken = [] }

abbrev pub Inputs : Type 0
Inputs = List InputField × Dict (List Binding)

module _ (p : Printing) (graph : Option Fields) where
  -- The loop.
  unfoldable pub fields_from : Loop → ℕ → Items → Found Inputs
  unfolding parse_field keep_field with_field
  fields_from s index nil = pure ([], s.bindings)
  fields_from s index (cons v vs) = parse_field p graph index v >>= λ parsed.
      keep_field s parsed >>= λ kept.
      fields_from kept.1 (suc index) vs >>= λ rest. pure (with_field kept.0 rest.0, rest.1)

  -- `_parse_inputs`
  unfoldable pub parse_inputs : Option Value → Found Inputs
  unfolding fields_from
  parse_inputs none = fail none (is_required "inputs") ([], [])
  parse_inputs (some null) = pure ([], [])
  parse_inputs (some (arr vs)) = fields_from no_inputs_yet 0 vs
  parse_inputs (some v) = fail none (must_be_list "inputs") ([], [])

-- `Diagnostic`
pub record Diagnostic : Type 0 where
  pub source : String
  pub workflow_id : Option String
  pub note : Note

pub record LoadedDefinition : Type 0 where
  pub source : String
  pub workflow : Option WorkflowDefinition
  pub diagnostics : List Diagnostic
  pub workflow_id : Option String

abbrev with_id : String → Option String → Note → Diagnostic
with_id source workflow_id note = record { source = source; workflow_id = workflow_id; note = note }

-- The definition, when the id, the name and the path are there.
unfoldable pub built :
    Option String
    → Option String
    → Option String
    → Option Fields
    → Presentation
    → TranslationMode
    → Inputs
    → Option WorkflowDefinition
built (some id) (some name) (some path) graph presentation mode (fields, bindings) = some (record {
  id = id;
  name = name;
  presentation = presentation;
  inputs = fields;
  bindings = bindings;
  graph = elim graph [ none ↦ end | some g ↦ g ];
  translation_mode = mode;
})
built id name path graph presentation mode inputs = none

-- `_result`: no definition with a diagnostic.
unfoldable pub result :
    String → Option WorkflowDefinition → List Diagnostic → Option String → LoadedDefinition
unfolding is_empty
result source workflow diagnostics claimed = record {
  source = source;
  workflow = (if is_empty diagnostics then workflow else none);
  diagnostics = diagnostics;
  workflow_id = claimed;
}

unfoldable pub is_raised : Diagnostic → Bool
is_raised d = elim d.note.problem [ raised ↦ true | _ ↦ false ]

module _ (p : Printing) (files : String → GraphFile) where
  -- The body of `parse`, behind the check of the keys.
  unfoldable pub parse_body : Fields → Found (Option WorkflowDefinition)
  unfolding built
  parse_body data_ = do
    id ← parse_workflow_id data_
    name ← parse_name data_
    graph ← parse_graph files data_
    presentation ← parse_presentation (find "presentation" data_)
    mode ← parse_translation (find "translation" data_)
    inputs ← parse_inputs p graph.1 (find "inputs" data_)
    pure (built id name graph.0 graph.1 presentation mode inputs)

  abbrev definition_keys : List String
  definition_keys = "id" ∷ "name" ∷ "workflow" ∷ "presentation" ∷ "inputs" ∷ "translation" ∷ []

  -- A problem with the keys is noted before the id is known.
  unfoldable pub parse_mapping : String → Fields → LoadedDefinition
  unfolding parse_body result reject_unknown_keys
  parse_mapping source data_ =
      let claimed : Option String = claim_of (find "id" data_) in
      let keys = (reject_unknown_keys data_ definition_keys "definition" none).1 in
      result source (parse_body data_).0
        (map (with_id source none) keys ++ map (with_id source claimed) (parse_body data_).1)
        claimed

  -- `parse`
  unfoldable pub parse : String → Source → LoadedDefinition
  unfolding parse_mapping read_yaml result
  parse source file = elim (read_yaml file).0 [
    | none ↦ result source none (map (with_id source none) (read_yaml file).1) none
    | some data_ ↦ parse_mapping source data_
  ]

  -- `load_definition`; `none` is the OverflowError of a frame rate.
  unfoldable pub load_definition : String → Source → Option LoadedDefinition
  unfolding parse is_raised
  load_definition source file =
      if any is_raised (parse source file).diagnostics then none else some (parse source file)
