-- ===== src/Registry/Served.antt =====
-- What the registry (workflows/registry.py) serves under an id.
use local_canvas.Prelude.{
  String, ◌≡◌, ◌≢◌, refl, sym, ◌∙◌, ap, true, false, Option, none, some, List, [], ◌∷◌, length, ltb,
  ◌==◌, eq_iff, arith, All, Option-cases, Bool-cases, inl, inr,
}
use local_canvas.Prelude.Text.{text_le}
use local_canvas.Prelude.Order.{text_le_self}
use local_canvas.Prelude.Dict.{Dict, has_key}
use local_canvas.Workflow.{WorkflowDefinition}
use local_canvas.Definition.Parse.{LoadedDefinition, load_definition}
use local_canvas.Validation.Checks.{Printing}
use local_canvas.Definition.Yaml.{Source}
use local_canvas.Definition.Head.{GraphFile, is_workflow_id}
use local_canvas.Definition.Loaded.{load_definition-Verdict}
use local_canvas.Registry.Resolve.{
  claimed_id, claims_from, duplicated, kept, insert_workflow, sort_workflows, resolve, get_workflow,
  load_all,
}
use local_canvas.Definition.Notes.{Problem}
use local_canvas.Registry.Claims.{is_claim, claimants, duplicated-claimants}

-- An item whose workflow, if it has one, has the id that the item claims.
abbrev pub OwnClaim : LoadedDefinition → Type 0
OwnClaim item = (w : WorkflowDefinition) → item.workflow ≡ some w → claimed_id item ≡ some w.id

-- The workflow of the one item of a list, if it has one.
abbrev pub sole_of : List LoadedDefinition → Option WorkflowDefinition
sole_of [] = none
sole_of (item ∷ []) = item.workflow
sole_of (item ∷ other ∷ items) = none

abbrev pub Duplicates : Type 0
Duplicates = Dict (List LoadedDefinition)

duplicated_get :
    (id : String) (dup : Duplicates) (items : List LoadedDefinition)
    → has_key id dup ≡ true
    → get_workflow id (kept dup items) ≡ none
unfolding kept get_workflow
duplicated_get id dup [] h = refl
duplicated_get id dup (item ∷ items) h = elim (Option-cases item.workflow) [
  | inl e ↦ ground (arith, duplicated_get id dup items h)
  | inr (w, e) ↦ ground (arith, duplicated_get id dup items h, eq_iff w.id id)
]

pub own_claim :
    (id : String) (item : LoadedDefinition) (w : WorkflowDefinition)
    → OwnClaim item
    → item.workflow ≡ some w
    → is_claim id item ≡ (w.id == id)
own_claim id item w own e = rw (is_claim, own w e) refl

pub unclaimed_get :
    (id : String) (dup : Duplicates) (items : List LoadedDefinition)
    → All OwnClaim items
    → claimants id items ≡ []
    → get_workflow id (kept dup items) ≡ none
unfolding kept get_workflow
unclaimed_get id dup [] own h = refl
unclaimed_get id dup (item ∷ items) (mine, own) h = elim (Bool-cases (is_claim id item)) [
  | inl claim ↦ absurd (ground arith)
  | inr other ↦ elim (Option-cases item.workflow) [
    | inl e ↦ ground (arith, unclaimed_get id dup items own)
    | inr (w, e) ↦ ground (arith, unclaimed_get id dup items own, own_claim id item w mine e)
  ]
]

sole_get :
    (id : String) (dup : Duplicates) (items : List LoadedDefinition) (one : LoadedDefinition)
    → All OwnClaim items
    → has_key id dup ≡ false
    → claimants id items ≡ one ∷ []
    → get_workflow id (kept dup items) ≡ one.workflow
unfolding kept get_workflow
sole_get id dup [] one own free h = absurd (ground arith)
sole_get id dup (item ∷ items) one (mine, own) free h = elim (Bool-cases (is_claim id item)) [
  | inl claim ↦
      let this : item ≡ one = ground arith in
      let rest : claimants id items ≡ [] = ground arith in
      elim (Option-cases item.workflow) [
        | inl e ↦ ground (arith, unclaimed_get id dup items own rest)
        | inr (w, e) ↦ ground (arith, own_claim id item w mine e, eq_iff w.id id)
      ]
  | inr other ↦ elim (Option-cases item.workflow) [
    | inl e ↦ ground (arith, sole_get id dup items one own free)
    | inr (w, e) ↦ ground (arith, sole_get id dup items one own free, own_claim id item w mine e)
  ]
]

-- The sort is stable, so it moves no workflow before another with its id.
get-insert_workflow :
    (id : String) (w : WorkflowDefinition) (ws : List WorkflowDefinition)
    → get_workflow id (insert_workflow w ws) ≡ get_workflow id (w ∷ ws)
unfolding get_workflow insert_workflow
get-insert_workflow id w [] = refl
get-insert_workflow id w (v ∷ vs) = elim (Bool-cases (text_le w.id v.id)) [
  | inl le ↦ ground arith
  | inr gt ↦
      ground
        (arith, get-insert_workflow id w vs, text_le_self w.id v.id, eq_iff w.id id, eq_iff v.id id)
]

pub get-sort_workflows :
    (id : String) (ws : List WorkflowDefinition)
    → get_workflow id (sort_workflows ws) ≡ get_workflow id ws
unfolding get_workflow sort_workflows
get-sort_workflows id [] = refl
get-sort_workflows id (w ∷ ws) =
    get-insert_workflow id w (sort_workflows ws) ∙ ground (arith, get-sort_workflows id ws)

kept_get :
    (id : String) (dup : Duplicates) (items owners : List LoadedDefinition)
    → All OwnClaim items
    → claimants id items ≡ owners
    → has_key id dup ≡ ltb 1 (length owners)
    → get_workflow id (kept dup items) ≡ sole_of owners
kept_get id dup items [] own h d = unclaimed_get id dup items own h
kept_get id dup items (one ∷ []) own h d = sole_get id dup items one own (d ∙ ground arith) h
kept_get id dup items (one ∷ two ∷ more) own h d = duplicated_get id dup items (d ∙ ground arith)

no_id : is_workflow_id "" ≢ true
unfolding is_workflow_id
no_id h = absurd (ground arith)

some_inj {ℓ} : {A : Type ℓ} {a b : A} → some a ≡ some b → a ≡ b
some_inj h = ground arith

id_text : (id : String) → is_workflow_id id ≡ true → (id == "") ≡ false
unfolding is_workflow_id
id_text id h = elim (Bool-cases (id == "")) [
  | inr e ↦ e
  | inl e ↦
      let nothing : id ≡ "" = (eq_iff id "").0 e in
      absurd (no_id (ap is_workflow_id (sym nothing) ∙ h))
]

load_definition-OwnClaim :
    (p : Printing) (files : String → GraphFile) (name : String) (file : Source)
    (item : LoadedDefinition)
    → load_definition p files name file ≡ some item
    → OwnClaim item
unfolding claimed_id
load_definition-OwnClaim p files name file item h w e =
    elim (load_definition-Verdict p files name file item h) [
      | inl (missing, noted) ↦ absurd (ground arith)
      | inr (w', e', quiet, claimed, (good, wired)) ↦
          let same : w' ≡ w = ground arith in
          rw (claimed_id, claimed, id_text w'.id good)
            (ap (λ (u : WorkflowDefinition). some u.id) same)
    ]

-- An item of the registry has the id that it claims.
pub load_all-OwnClaim :
    (p : Printing) (graphs : String → String → GraphFile) (files : List (String × Source))
    (loaded : List LoadedDefinition)
    → load_all p graphs files ≡ some loaded
    → All OwnClaim loaded
unfolding load_all
load_all-OwnClaim p graphs [] loaded h = rw (sym (some_inj h)) tt
load_all-OwnClaim p graphs ((name, file) ∷ files) loaded h =
    elim (Option-cases (load_definition p (graphs name) name file)) [
      | inl e ↦ absurd (ground arith)
      | inr (item, e) ↦ elim (Option-cases (load_all p graphs files)) [
        | inl none_left ↦ absurd (ground arith)
        | inr (rest, f) ↦
            let whole : loaded ≡ item ∷ rest = ground arith in
            rw whole (
              load_definition-OwnClaim p (graphs name) name file item e,
              load_all-OwnClaim p graphs files rest f,
            )
      ]
    ]

-- The registry serves under an id the workflow of the one file that claims it, and none when no file,
-- several files, or only a file without a valid definition claim it.
pub get_workflow-resolve :
    (wording : Problem → String) (p : Printing) (graphs : String → String → GraphFile)
    (files : List (String × Source)) (loaded : List LoadedDefinition) (id : String)
    → load_all p graphs files ≡ some loaded
    → get_workflow id (resolve wording loaded).workflows ≡ sole_of (claimants id loaded)
unfolding resolve
get_workflow-resolve wording p graphs files loaded id h =
    get-sort_workflows id (kept (duplicated (claims_from [] loaded)) loaded)
    ∙ kept_get id (duplicated (claims_from [] loaded)) loaded (claimants id loaded)
        (load_all-OwnClaim p graphs files loaded h) refl (duplicated-claimants id loaded)
