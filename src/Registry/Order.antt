-- ===== src/Registry/Order.antt =====
-- The order of what the registry (workflows/registry.py) serves.
use Prim.Native.Nat.{Ordering}
use Prim.Native.String.{compare}
use local_canvas.Prelude.{
  suc, ◌≤◌, String, ◌≡◌, refl, ◌∙◌, true, false, none, some, List, [], ◌∷◌, length, ◌==◌, eq_iff,
  eq_refl, arith, All, Option-cases, Bool-cases, inl, inr,
}
use local_canvas.Prelude.Text.{text_le}
use local_canvas.Prelude.Order.{lt_trans, text_le-lt, text_le-lt_ne}
use local_canvas.Prelude.Dict.{has_key}
use local_canvas.Workflow.{WorkflowDefinition}
use local_canvas.Definition.Parse.{LoadedDefinition}
use local_canvas.Validation.Checks.{Printing}
use local_canvas.Definition.Yaml.{Source}
use local_canvas.Definition.Head.{GraphFile}
use local_canvas.Registry.Resolve.{
  claims_from, duplicated, kept, insert_workflow, sort_workflows, resolve, get_workflow, load_all,
}
use local_canvas.Definition.Notes.{Problem}
use local_canvas.Registry.Claims.{is_claim, claimants, duplicated-claimants}
use local_canvas.Registry.Served.{
  OwnClaim, Duplicates, own_claim, unclaimed_get, get-sort_workflows, load_all-OwnClaim,
}

-- The ids go up, so no two are equal.
abbrev pub Ascending : List WorkflowDefinition → Type 0
Ascending [] = Unit
Ascending (w ∷ ws) =
    All (λ (v : WorkflowDefinition). compare w.id v.id ≡ Ordering.lt) ws × Ascending ws

All-above :
    (a b : String) (ws : List WorkflowDefinition)
    → compare a b ≡ Ordering.lt
    → All (λ (v : WorkflowDefinition). compare b v.id ≡ Ordering.lt) ws
    → All (λ (v : WorkflowDefinition). compare a v.id ≡ Ordering.lt) ws
All-above a b [] h r = tt
All-above a b (v ∷ vs) h (x, r) = (lt_trans a b v.id h x, All-above a b vs h r)

above-insert :
    (a : String) (w : WorkflowDefinition) (ws : List WorkflowDefinition)
    → compare a w.id ≡ Ordering.lt
    → All (λ (v : WorkflowDefinition). compare a v.id ≡ Ordering.lt) ws
    → All (λ (v : WorkflowDefinition). compare a v.id ≡ Ordering.lt) (insert_workflow w ws)
unfolding insert_workflow
above-insert a w [] h r = (h, tt)
above-insert a w (v ∷ vs) h (x, r) = elim (Bool-cases (text_le w.id v.id)) [
  | inl le ↦ rw le (h, (x, r))
  | inr gt ↦ rw gt (x, above-insert a w vs h r)
]

insert_workflow-Ascending :
    (w : WorkflowDefinition) (ws : List WorkflowDefinition)
    → get_workflow w.id ws ≡ none
    → Ascending ws
    → Ascending (insert_workflow w ws)
unfolding insert_workflow get_workflow
insert_workflow-Ascending w [] new r = (tt, tt)
insert_workflow-Ascending w (v ∷ vs) new (above, r) = elim (Bool-cases (v.id == w.id)) [
  | inl same ↦ absurd (ground arith)
  | inr other ↦ elim (Bool-cases (text_le w.id v.id)) [
    | inl le ↦
        let below : compare w.id v.id ≡ Ordering.lt =
          text_le-lt_ne w.id v.id le (λ e. absurd (ground (arith, eq_iff v.id w.id))) in
        rw le ((below, All-above w.id v.id vs below above), (above, r))
    | inr gt ↦ rw gt (
      above-insert v.id w vs (text_le-lt w.id v.id gt) above,
      insert_workflow-Ascending w vs (ground arith) r,
    )
  ]
]

-- No two of them have one id.
abbrev Distinct : List WorkflowDefinition → Type 0
Distinct [] = Unit
Distinct (w ∷ ws) = (get_workflow w.id ws ≡ none) × Distinct ws

sort_workflows-Ascending :
    (ws : List WorkflowDefinition) → Distinct ws → Ascending (sort_workflows ws)
unfolding sort_workflows
sort_workflows-Ascending [] d = tt
sort_workflows-Ascending (w ∷ ws) (new, d) =
    insert_workflow-Ascending w (sort_workflows ws) (get-sort_workflows w.id ws ∙ new)
      (sort_workflows-Ascending ws d)

no_more {ℓ} : {A : Type ℓ} (xs : List A) → suc (length xs) ≤ 1 → xs ≡ []
no_more [] h = refl
no_more (x ∷ xs) h = absurd (omega arith)

fewer :
    (id : String) (item : LoadedDefinition) (items : List LoadedDefinition)
    → length (claimants id (item ∷ items)) ≤ 1
    → length (claimants id items) ≤ 1
fewer id item items h = ground arith

last_claim :
    (id : String) (item : LoadedDefinition) (items : List LoadedDefinition)
    → is_claim id item ≡ true
    → length (claimants id (item ∷ items)) ≤ 1
    → claimants id items ≡ []
last_claim id item items claim h = no_more (claimants id items) (ground arith)

kept-Distinct :
    (dup : Duplicates) (items : List LoadedDefinition)
    → All OwnClaim items
    → ((id : String) → has_key id dup ≡ false → length (claimants id items) ≤ 1)
    → Distinct (kept dup items)
unfolding kept
kept-Distinct dup [] own single = tt
kept-Distinct dup (item ∷ items) (mine, own) single =
    let rest = kept-Distinct dup items own (λ id free. fewer id item items (single id free)) in
    elim (Option-cases item.workflow) [
      | inl e ↦ rw e rest
      | inr (w, e) ↦ elim (Bool-cases (has_key w.id dup)) [
        | inl taken ↦ rw (e, taken) rest
        | inr free ↦
            rw (e, free)
              (
                unclaimed_get w.id dup items own (
                    last_claim w.id item items (own_claim w.id item w mine e ∙ eq_refl w.id)
                      (single w.id free)),
                rest,
              )
      ]
    ]

-- The workflows that the registry serves are in the ascending order of their ids, which differ.
pub resolve-Ascending :
    (wording : Problem → String) (p : Printing) (graphs : String → String → GraphFile)
    (files : List (String × Source)) (loaded : List LoadedDefinition)
    → load_all p graphs files ≡ some loaded
    → Ascending (resolve wording loaded).workflows
unfolding resolve
resolve-Ascending wording p graphs files loaded h =
    sort_workflows-Ascending (kept (duplicated (claims_from [] loaded)) loaded) (
      kept-Distinct (duplicated (claims_from [] loaded)) loaded
        (load_all-OwnClaim p graphs files loaded h)
        (λ id free. ground (arith, duplicated-claimants id loaded)))
