-- ===== src/Registry/Sound.antt =====
-- Each workflow that the registry (workflows/registry.py) serves is one that `load_definition` vouches
-- for.
use local_canvas.Prelude.{
  String, ◌≡◌, sym, some, List, [], ◌∷◌, ◌==◌, All, arith, Option-cases, Bool-cases, inl, inr,
}
use local_canvas.Prelude.Text.{text_le}
use local_canvas.Prelude.Dict.{Dict, has_key}
use local_canvas.Workflow.{WorkflowDefinition}
use local_canvas.Validation.Checks.{Printing}
use local_canvas.Definition.Notes.{Problem}
use local_canvas.Definition.Yaml.{Source}
use local_canvas.Definition.Head.{GraphFile}
use local_canvas.Definition.Parse.{LoadedDefinition, load_definition}
use local_canvas.Definition.Binds.{loaded-WellWired}
use local_canvas.Definition.Loaded.{WellWired}
use local_canvas.Registry.Resolve.{
  kept, insert_workflow, sort_workflows, resolve, get_workflow, load_all, duplicated, claims_from,
}

abbrev Vouched : LoadedDefinition → Type 0
Vouched item = (w : WorkflowDefinition) → item.workflow ≡ some w → WellWired w

load_all-Vouched :
    (p : Printing) (graphs : String → String → GraphFile) (files : List (String × Source))
    (loaded : List LoadedDefinition)
    → load_all p graphs files ≡ some loaded
    → All Vouched loaded
unfolding load_all
load_all-Vouched p graphs [] [] h = tt
load_all-Vouched p graphs [] (item ∷ loaded) h = absurd (ground arith)
load_all-Vouched p graphs ((name, file) ∷ files) loaded h =
    elim (Option-cases (load_definition p (graphs name) name file)) [
      | inl e ↦ absurd (ground arith)
      | inr (item, e) ↦ elim (Option-cases (load_all p graphs files)) [
        | inl none_left ↦ absurd (ground arith)
        | inr (rest, f) ↦
            let whole : loaded ≡ item ∷ rest = ground arith in
            rw whole (
              λ w. loaded-WellWired p (graphs name) name file item w e,
              load_all-Vouched p graphs files rest f,
            )
      ]
    ]

kept-WellWired :
    (dup : Dict (List LoadedDefinition)) (items : List LoadedDefinition)
    → All Vouched items
    → All WellWired (kept dup items)
unfolding kept
kept-WellWired dup [] h = tt
kept-WellWired dup (item ∷ items) (good, h) = elim (Option-cases item.workflow) [
  | inl e ↦ rw e (kept-WellWired dup items h)
  | inr (w, e) ↦ elim (Bool-cases (has_key w.id dup)) [
    | inl taken ↦ rw (e, taken) (kept-WellWired dup items h)
    | inr free ↦ rw (e, free) (good w e, kept-WellWired dup items h)
  ]
]

insert_workflow-WellWired :
    (w : WorkflowDefinition) (ws : List WorkflowDefinition)
    → WellWired w
    → All WellWired ws
    → All WellWired (insert_workflow w ws)
unfolding insert_workflow
insert_workflow-WellWired w [] good h = (good, tt)
insert_workflow-WellWired w (v ∷ vs) good (g, h) = elim (Bool-cases (text_le w.id v.id)) [
  | inl le ↦ rw le (good, (g, h))
  | inr gt ↦ rw gt (g, insert_workflow-WellWired w vs good h)
]

sort_workflows-WellWired :
    (ws : List WorkflowDefinition) → All WellWired ws → All WellWired (sort_workflows ws)
unfolding sort_workflows
sort_workflows-WellWired [] h = tt
sort_workflows-WellWired (w ∷ ws) (good, h) =
    insert_workflow-WellWired w (sort_workflows ws) good (sort_workflows-WellWired ws h)

-- Each workflow that the registry serves has an allowed id, fields with ids of their own, and targets
-- that the graph has and that no two fields share.
pub resolve-WellWired :
    (wording : Problem → String) (p : Printing) (graphs : String → String → GraphFile)
    (files : List (String × Source)) (loaded : List LoadedDefinition)
    → load_all p graphs files ≡ some loaded
    → All WellWired (resolve wording loaded).workflows
unfolding resolve
resolve-WellWired wording p graphs files loaded h =
    sort_workflows-WellWired (kept (duplicated (claims_from [] loaded)) loaded) (
      kept-WellWired (duplicated (claims_from [] loaded)) loaded
        (load_all-Vouched p graphs files loaded h))

-- What is found is one of the workflows.
pub get_workflow-All :
    (P : WorkflowDefinition → Type 0) (id : String) (ws : List WorkflowDefinition)
    (w : WorkflowDefinition)
    → All P ws
    → get_workflow id ws ≡ some w
    → P w
unfolding get_workflow
get_workflow-All P id [] w h e = absurd (ground arith)
get_workflow-All P id (v ∷ vs) w (good, h) e = elim (Bool-cases (v.id == id)) [
  | inl here ↦ let same : v ≡ w = ground arith in rw (sym same) good
  | inr later ↦ get_workflow-All P id vs w h (ground arith)
]
