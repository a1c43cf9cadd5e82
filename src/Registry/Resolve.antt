-- ===== src/Registry/Resolve.antt =====
-- `Registry`, `_resolve` and the loading of a list of files (workflows/registry.py), with the sort
-- key of workflows/diagnostics.py.
use local_canvas.Prelude.{
  ℕ, String, Bool, true, false, not, Option, none, some, List, [], ◌∷◌, ◌++◌, map, filter, length,
  ltb, ◌==◌, if◌then◌else◌,
}
use local_canvas.Prelude.Text.{text_le, sort_texts}
use local_canvas.Prelude.Dict.{Dict, lookup, insert, has_key}
use local_canvas.Workflow.{WorkflowDefinition}
use local_canvas.Validation.Checks.{Printing}
use local_canvas.Definition.Notes.{Problem, duplicate_id}
use local_canvas.Definition.Yaml.{Source}
use local_canvas.Definition.Head.{GraphFile}
use local_canvas.Definition.Parse.{Diagnostic, LoadedDefinition, load_definition}

-- `by_id.get(id, [])`
unfoldable pub held : String → Dict (List LoadedDefinition) → List LoadedDefinition
held id by_id = elim (lookup id by_id) [ none ↦ [] | some items ↦ items ]

-- The id that an item claims, unless it is none or empty.
unfoldable pub claimed_id : LoadedDefinition → Option String
claimed_id item = elim item.workflow_id [
  | none ↦ none
  | some id ↦ if id == "" then none else some id
]

-- `by_id.setdefault(item.workflow_id, []).append(item)`
unfoldable pub add_claim :
    Dict (List LoadedDefinition) → LoadedDefinition → Dict (List LoadedDefinition)
unfolding held claimed_id
add_claim by_id item = elim (claimed_id item) [
  | none ↦ by_id
  | some id ↦ insert id (held id by_id ++ (item ∷ [])) by_id
]

unfoldable pub claims_from :
    Dict (List LoadedDefinition) → List LoadedDefinition → Dict (List LoadedDefinition)
unfolding add_claim
claims_from by_id [] = by_id
claims_from by_id (item ∷ items) = claims_from (add_claim by_id item) items

-- The ids with more than one claimant.
unfoldable pub duplicated : Dict (List LoadedDefinition) → Dict (List LoadedDefinition)
duplicated [] = []
duplicated ((id, items) ∷ by_id) =
    let rest = duplicated by_id in if ltb 1 (length items) then (id, items) ∷ rest else rest

-- What is said of each claimant of a duplicated id.
duplicate_diagnostic : String → List String → ℕ → LoadedDefinition → Diagnostic
duplicate_diagnostic id files n claimant =
    let others = filter (λ name. not (name == claimant.source)) files in
    record {
      source = claimant.source;
      workflow_id = some id;
      note = record { field_id = none; problem = duplicate_id id others n };
    }

unfoldable pub duplicate_diagnostics : Dict (List LoadedDefinition) → List Diagnostic
unfolding duplicate_diagnostic
duplicate_diagnostics [] = []
duplicate_diagnostics ((id, claimants) ∷ rest) =
    let files = sort_texts (map (λ (c : LoadedDefinition). c.source) claimants) in
    map (duplicate_diagnostic id files (length claimants)) claimants ++ duplicate_diagnostics rest

unfoldable pub own_diagnostics : List LoadedDefinition → List Diagnostic
own_diagnostics [] = []
own_diagnostics (item ∷ items) = item.diagnostics ++ own_diagnostics items

-- The workflows that loaded and whose id is not duplicated.
unfoldable pub kept : Dict (List LoadedDefinition) → List LoadedDefinition → List WorkflowDefinition
kept duplicates [] = []
kept duplicates (item ∷ items) =
    let rest = kept duplicates items in
    elim item.workflow [ none ↦ rest | some w ↦ if has_key w.id duplicates then rest else w ∷ rest ]

unfoldable pub insert_workflow :
    WorkflowDefinition → List WorkflowDefinition → List WorkflowDefinition
insert_workflow w [] = w ∷ []
insert_workflow w (v ∷ vs) = if text_le w.id v.id then w ∷ v ∷ vs else v ∷ insert_workflow w vs

-- `workflows.sort(key=lambda workflow: workflow.id)`
unfoldable pub sort_workflows : List WorkflowDefinition → List WorkflowDefinition
unfolding insert_workflow
sort_workflows [] = []
sort_workflows (w ∷ ws) = insert_workflow w (sort_workflows ws)

-- `a <= b` of two tuples of texts.
key_le : List String → List String → Bool
key_le [] b = true
key_le (x ∷ a) [] = false
key_le (x ∷ a) (y ∷ b) = if x == y then key_le a b else text_le x y

or_empty : Option String → String
or_empty none = ""
or_empty (some s) = s

-- `Registry`, but for its root.
pub record Registry : Type 0 where
  pub workflows : List WorkflowDefinition
  pub diagnostics : List Diagnostic

-- The loop over the files; `none` is what `load_definition` raises.
unfoldable pub load_all :
    Printing
    → (String → String → GraphFile)
    → List (String × Source)
    → Option (List LoadedDefinition)
load_all p graphs [] = some []
load_all p graphs ((name, file) ∷ files) = elim (load_definition p (graphs name) name file) [
  | none ↦ none
  | some item ↦ elim (load_all p graphs files) [ none ↦ none | some rest ↦ some (item ∷ rest) ]
]

module _ (wording : Problem → String) where
  -- `sort_key`
  sort_key : Diagnostic → List String
  unfolding or_empty
  sort_key d =
      or_empty d.workflow_id ∷ d.source ∷ or_empty d.note.field_id ∷ wording d.note.problem ∷ []

  insert_diagnostic : Diagnostic → List Diagnostic → List Diagnostic
  unfolding sort_key key_le
  insert_diagnostic d [] = d ∷ []
  insert_diagnostic d (e ∷ es) =
      if key_le (sort_key d) (sort_key e) then d ∷ e ∷ es else e ∷ insert_diagnostic d es

  sort_diagnostics : List Diagnostic → List Diagnostic
  unfolding insert_diagnostic
  sort_diagnostics [] = []
  sort_diagnostics (d ∷ ds) = insert_diagnostic d (sort_diagnostics ds)

  -- `_resolve`
  unfoldable pub resolve : List LoadedDefinition → Registry
  unfolding claims_from duplicated kept sort_workflows sort_diagnostics own_diagnostics
      duplicate_diagnostics
  resolve loaded =
      let duplicates = duplicated (claims_from [] loaded) in
      record {
        workflows = sort_workflows (kept duplicates loaded);
        diagnostics = sort_diagnostics (own_diagnostics loaded ++ duplicate_diagnostics duplicates);
      }

  -- `load_registry`, of the definition files that stand under the root, in their order, with the
  -- graphs that stand beside each.
  unfoldable pub load_registry :
      Printing → (String → String → GraphFile) → List (String × Source) → Option Registry
  unfolding load_all resolve
  load_registry p graphs files = elim (load_all p graphs files) [
    | none ↦ none
    | some loaded ↦ some (resolve loaded)
  ]

-- `Registry.get`
unfoldable pub get_workflow : String → List WorkflowDefinition → Option WorkflowDefinition
get_workflow id [] = none
get_workflow id (w ∷ ws) = if w.id == id then some w else get_workflow id ws
