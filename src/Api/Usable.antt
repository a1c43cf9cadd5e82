-- ===== src/Api/Usable.antt =====
-- The binding in a submission (api/jobs.py) to a workflow that the registry serves.
use local_canvas.Prelude.{
  String, ◌≡◌, refl, sym, ◌∙◌, ap, Bool, not, Option, some, List, [], ◌∷◌, ◌&&◌, filter, any, ◌==◌,
  arith, Option-cases, Bool-cases, inl, inr,
}
use local_canvas.Prelude.Text.{sort_texts}
use local_canvas.Prelude.Dict.{Dict, has_key, keys}
use local_canvas.Values.{Value, Fields, get_value, non_empty_text}
use local_canvas.Workflow.{InputField, WorkflowDefinition, is_field}
use local_canvas.Validation.Checks.{Printing, Checked, valid}
use local_canvas.Validation.Checks
use local_canvas.Validation.Inputs.{validate_inputs}
use local_canvas.Validation.Submission.{Distinct, validate_inputs-Accepted, validate_inputs-only}
use local_canvas.Translation.Service.{Config, Attempt, Translator, TranslationResult, apply}
use local_canvas.Translation.Service
use local_canvas.Translation.Names.{has_key-keys, apply-keys}
use local_canvas.Binding.Bind.{
  Resolver, is_empty, unknown_keys, missing_keys, bind_fields, bind_values,
}
use local_canvas.Binding.Targets.{find}
use local_canvas.Binding.Validated.{no_stray_keys, none_missing}
use local_canvas.Definition.Notes.{Problem}
use local_canvas.Definition.Yaml.{Source}
use local_canvas.Definition.Head.{GraphFile}
use local_canvas.Definition.Parse.{LoadedDefinition}
use local_canvas.Definition.Loaded.{WellWired}
use local_canvas.Definition.Binds.{Settles, wired-Ready, bind_fields-Settles}
use local_canvas.Registry.Resolve.{resolve, get_workflow, load_all}
use local_canvas.Registry.Sound.{resolve-WellWired, get_workflow-All}
use local_canvas.Api.Errors.{Answer, answered, refused, crashed, ◌>>=◌}
use local_canvas.Api.Payload.{
  mapping_of, workflow_of, inputs_of, translation_wanted, checked_inputs, Prepared, prepare,
}

filter-same {ℓ} :
    {A : Type ℓ} (p q : A → Bool) (xs : List A) → ((x : A) → p x ≡ q x) → filter p xs ≡ filter q xs
filter-same p q [] h = refl
filter-same p q (x ∷ xs) h = elim (Bool-cases (q x)) [
  | inl e ↦ ground (arith, h x ∙ e, filter-same p q xs h)
  | inr e ↦ ground (arith, h x ∙ e, filter-same p q xs h)
]

-- Values under the names of validated ones pass the checks of names in `bind_values`.
bind_values-named :
    {E S : Type 0} (resolver : Option (Resolver E S)) (p : Printing) (w : WorkflowDefinition)
    (inputs vals values : Dict Value) (s : S)
    → Distinct w.inputs
    → validate_inputs p w inputs ≡ valid vals
    → keys values ≡ keys vals
    → bind_values resolver w values s ≡ bind_fields resolver w w.inputs values w.graph s
unfolding bind_values unknown_keys missing_keys is_empty sort_texts
bind_values-named resolver p w inputs vals values s distinct h same =
    let known : filter (λ k. not (is_field k w.inputs)) (keys values) ≡ [] =
      ap (λ ks. filter (λ k. not (is_field k w.inputs)) ks) same
      ∙ no_stray_keys w.inputs vals
          (λ k other. validate_inputs-only p w inputs vals k h (inl other)) in
    let given : filter (λ (f : InputField). f.required && not (has_key f.id values)) w.inputs ≡ [] =
      filter-same (λ f. f.required && not (has_key f.id values))
        (λ f. f.required && not (has_key f.id vals)) w.inputs
        (λ f.
          ap (λ b. f.required && not b)
            (has_key-keys f.id values
              ∙ ap (λ ks. any (λ j. j == f.id) ks) same
              ∙ sym (has_key-keys f.id vals)))
      ∙ none_missing w.inputs inputs vals (validate_inputs-Accepted p w inputs vals distinct h) in
    rw (known, given) refl

answered-inj : {A : Type 0} {a b : A} → answered a ≡ answered b → a ≡ b
answered-inj h = cc

>>=-answered :
    {A B : Type 0} (m : Answer A) (f : A → Answer B) (b : B)
    → (m >>= f) ≡ answered b
    → (a : A) × (m ≡ answered a) × (f a ≡ answered b)
>>=-answered (answered a) f b h = (a, refl, h)
>>=-answered (refused e) f b h = absurd (ground arith)
>>=-answered crashed f b h = absurd (ground arith)

checked_inputs-answered :
    {A : Type 0} (m : Checked A) (a : A) → checked_inputs m ≡ answered a → m ≡ valid a
unfolding checked_inputs
checked_inputs-answered (Checks.valid x) a h = ap valid (answered-inj h)
checked_inputs-answered (Checks.refused f) a h = absurd (ground arith)
checked_inputs-answered Checks.overflow a h = absurd (ground arith)

workflow_of-answered :
    (ws : List WorkflowDefinition) (payload : Fields) (w : WorkflowDefinition)
    → workflow_of ws payload ≡ answered w
    → (id : String) × (get_workflow id ws ≡ some w)
unfolding workflow_of
workflow_of-answered ws payload w h =
    elim (Option-cases (non_empty_text (get_value "workflow_id" payload))) [
      | inl e ↦ absurd (ground arith)
      | inr (id, e) ↦ elim (Option-cases (get_workflow id ws)) [
        | inl gone ↦ absurd (ground arith)
        | inr (v, found) ↦ let same : v ≡ w = ground arith in (id, found ∙ ap some same)
      ]
    ]

-- What is known of a submission that was read.
abbrev Read : Printing → List WorkflowDefinition → Prepared → Type 0
Read p ws given =
    ((id : String) × (get_workflow id ws ≡ some given.workflow))
    × (validate_inputs p given.workflow given.inputs ≡ valid given.values)

prepared_from :
    (p : Printing) (ws : List WorkflowDefinition) (w : WorkflowDefinition) (inputs : Dict Value)
    (wanted : Bool) (values : Dict Value) (given : Prepared)
    → record { workflow = w; wanted = wanted; inputs = inputs; values = values } ≡ given
    → (id : String) × (get_workflow id ws ≡ some w)
    → validate_inputs p w inputs ≡ valid values
    → Read p ws given
prepared_from p ws w inputs wanted values given same found good = rw (sym same) (found, good)

-- A submission that was read: its workflow is served, and its values are validated ones.
prepare-answered :
    (p : Printing) (ws : List WorkflowDefinition) (payload : Value) (given : Prepared)
    → prepare p ws payload ≡ answered given
    → Read p ws given
unfolding prepare
prepare-answered p ws payload given h =
    let (fields, e0, h0) = >>=-answered (mapping_of payload) _ given h in
    let (w, e1, h1) = >>=-answered (workflow_of ws fields) _ given h0 in
    let (inputs, e2, h2) = >>=-answered (inputs_of (find "inputs" fields)) _ given h1 in
    let (wanted, e3, h3) =
      >>=-answered (translation_wanted (get_value "translation" fields)) _ given h2 in
    let (values, e4, h4) = >>=-answered (checked_inputs (validate_inputs p w inputs)) _ given h3 in
    prepared_from p ws w inputs wanted values given (answered-inj h4)
      (workflow_of-answered ws fields w e1)
      (checked_inputs-answered (validate_inputs p w inputs) values e4)

-- Let the registry have loaded its files, and let the media resolver itself raise no `BindingError`.
-- When a submission was read and validated and its translation succeeded, the binding ends with a
-- graph or with what the resolver raised.
pub submit-bind_values :
    {E R W : Type 0} (translate : Translator E W) (config : Config) (resolve_media : Resolver R W)
    (wording : Problem → String) (p : Printing) (graphs : String → String → GraphFile)
    (files : List (String × Source)) (loaded : List LoadedDefinition) (payload : Value)
    (given : Prepared) (result : TranslationResult) (w w' : W)
    → ((f : InputField) (v : Value) (s : W) → Settles (resolve_media f v s).0)
    → load_all p graphs files ≡ some loaded
    → prepare p (resolve wording loaded).workflows payload ≡ answered given
    → apply translate config given.workflow given.values given.wanted w ≡ (Service.done result, w')
    → Settles (bind_values (some resolve_media) given.workflow result.values w').0
submit-bind_values translate config resolve_media wording p graphs files loaded payload given result
      w w' settles load read translated =
    let ws : List WorkflowDefinition = (resolve wording loaded).workflows in
    let ((id, found), validated) = prepare-answered p ws payload given read in
    let (allowed, (distinct, fit, exclusive)) =
      get_workflow-All WellWired id ws given.workflow
        (resolve-WellWired wording p graphs files loaded load) found in
    let names =
      apply-keys translate config given.workflow given.values given.wanted w w' result translated in
    rw
      (bind_values-named (some resolve_media) p given.workflow given.inputs given.values
        result.values w' distinct validated names)
      (bind_fields-Settles resolve_media settles given.workflow given.workflow.inputs result.values
        given.workflow.graph w' (wired-Ready given.workflow given.workflow.inputs fit))
