-- ===== src/Definition/Binds.antt =====
-- From definition.py over validation.py to binding.py, of the gateway's workflows: the values of an
-- accepted submission to a loaded definition can be written.
use local_canvas.Prelude.{
  String, ◌≡◌, refl, sym, false, Option, none, some, List, [], ◌∷◌, arith, All, Option-cases,
  Bool-cases, inl, inr,
}
use local_canvas.Prelude.Dict.{Dict, lookup}
use local_canvas.Values.{Value, Fields}
use local_canvas.Workflow.{Binding, InputField, WorkflowDefinition, bindings_for, is_media}
use local_canvas.Binding.Bind.{
  Outcome, done, fault, raised, and_then, Resolver, resolved, is_empty, write_field, bind_fields,
  bind_values,
}
use local_canvas.Binding.Targets.{write_targets}
use local_canvas.Binding.Validated.{bind_values-validated}
use local_canvas.Validation.Checks.{Printing, valid}
use local_canvas.Validation.Inputs.{validate_inputs}
use local_canvas.Definition.Yaml.{Source}
use local_canvas.Definition.Head.{GraphFile}
use local_canvas.Definition.Parse.{LoadedDefinition, load_definition}
use local_canvas.Definition.Quiet.{Given, Drivable}
use local_canvas.Definition.Bindable.{SomeFit}
use local_canvas.Definition.Writable.{Readable, write_targets-some, every_written}
use local_canvas.Definition.Loaded.{WellWired, load_definition-Verdict}

-- A field that has at least one target, and whose targets the graph has.
abbrev Ready : WorkflowDefinition → Fields → InputField → Type 0
Ready w graph f =
    (is_empty (bindings_for w f.id) ≡ false) × All (Readable graph) (bindings_for w f.id)

-- Neither a `BindingError` nor a missing target.
abbrev pub Settles : {E A : Type 0} → Outcome E A → Type 0
Settles (done a) = Unit
Settles (fault e) = ⊥
Settles (raised e) = Unit

module _ {E S : Type 0} (resolve : Resolver E S) where
  write_field-done :
      (w : WorkflowDefinition) (f : InputField) (graph : Fields) (v : Value)
      → Ready w graph f
      → (graph' : Fields) × (write_field (some resolve) w f graph v ≡ done graph')
        × (write_targets (bindings_for w f.id) v graph ≡ some graph')
  unfolding write_field
  write_field-done w f graph v (some_target, r) =
      let (graph', h) = write_targets-some (bindings_for w f.id) v graph r in
      (graph', rw (some_target, h) refl, h)

  fields-Ready :
      (w : WorkflowDefinition) (f : InputField) (fs : List InputField) (graph graph' : Fields)
      (v : Value)
      → write_targets (bindings_for w f.id) v graph ≡ some graph'
      → All (Ready w graph) fs
      → All (Ready w graph') fs
  fields-Ready w f [] graph graph' v h r = tt
  fields-Ready w f (g ∷ fs) graph graph' v h ((at_least_one, r), rs) = (
    (at_least_one, every_written (bindings_for w f.id) v graph graph' (bindings_for w g.id) h r),
    fields-Ready w f fs graph graph' v h rs,
  )

  module _ (settles : (f : InputField) (v : Value) (s : S) → Settles (resolve f v s).0) where
    resolved-Settles :
        (f : InputField) (v : Value) (s : S) → Settles (resolved (some resolve) f v s).0
    unfolding resolved
    resolved-Settles f v s = elim (Bool-cases (is_media f)) [
      | inl e ↦ rw (e, resolved) (settles f v s)
      | inr e ↦ rw (e, resolved) tt
    ]

    and_then-Settles :
        {A B : Type 0} (m : Outcome E A × S) (next : A → S → Outcome E B × S)
        → Settles m.0
        → ((a : A) (s : S) → Settles (next a s).0)
        → Settles (and_then m next).0
    unfolding and_then
    and_then-Settles (done a, s) next here after = after a s
    and_then-Settles (fault e, s) next here after = here
    and_then-Settles (raised e, s) next here after = tt

    pub bind_fields-Settles :
        (w : WorkflowDefinition) (fs : List InputField) (vals : Dict Value) (graph : Fields) (s : S)
        → All (Ready w graph) fs
        → Settles (bind_fields (some resolve) w fs vals graph s).0
    unfolding bind_fields
    bind_fields-Settles w [] vals graph s r = tt
    bind_fields-Settles w (f ∷ fs) vals graph s (r, rs) = elim (Option-cases (lookup f.id vals)) [
      | inl e ↦ rw (e, bind_fields) (bind_fields-Settles w fs vals graph s rs)
      | inr (v, e) ↦
          rw (e, bind_fields)
            (and_then-Settles _ _ (resolved-Settles f v s) (λ x s'.
              let (graph', h, made) = write_field-done w f graph x r in
              rw (h, and_then)
                (bind_fields-Settles w fs vals graph' s'
                  (fields-Ready w f fs graph graph' x made rs))))
    ]

pub loaded-WellWired :
    (p : Printing) (files : String → GraphFile) (source : String) (file : Source)
    (d : LoadedDefinition) (w : WorkflowDefinition)
    → load_definition p files source file ≡ some d
    → d.workflow ≡ some w
    → WellWired w
loaded-WellWired p files source file d w h e =
    elim (load_definition-Verdict p files source file d h) [
      | inl (missing, noted) ↦ absurd (ground arith)
      | inr (w', e', quiet, claimed, good) ↦ let same : w' ≡ w = ground arith in rw (sym same) good
    ]

fit-Readable :
    (graph : Fields) (ts : List Binding) → All (Drivable graph) ts → All (Readable graph) ts
fit-Readable graph [] h = tt
fit-Readable graph (t ∷ ts) ((v, at, free), h) = ((v, at), fit-Readable graph ts h)

Given-Ready :
    (w : WorkflowDefinition) (f : InputField) (found : Option (List Binding))
    → lookup f.id w.bindings ≡ found
    → Given (SomeFit (some w.graph)) found
    → Ready w w.graph f
unfolding bindings_for
Given-Ready w f none e missing = absurd missing
Given-Ready w f (some ts) e (at_least_one, fit) =
    rw (e, bindings_for) (at_least_one, fit-Readable w.graph ts fit)

pub wired-Ready :
    (w : WorkflowDefinition) (fs : List InputField)
    → All (λ (f : InputField). Given (SomeFit (some w.graph)) (lookup f.id w.bindings)) fs
    → All (Ready w w.graph) fs
wired-Ready w [] h = tt
wired-Ready w (f ∷ fs) (good, h) =
    (Given-Ready w f (lookup f.id w.bindings) refl good, wired-Ready w fs h)

-- When `load_definition` has loaded a definition and validation has accepted a submission to it, then
-- the binding of the accepted values, with a resolver that itself raises no `BindingError`, ends with a graph or with what the resolver raised: never with an unknown or a missing
-- field, a field without a binding, or a target that the graph lacks.
pub load_definition-bind_values :
    {E S : Type 0} (resolve : Resolver E S) (p : Printing) (files : String → GraphFile)
    (source : String) (file : Source) (d : LoadedDefinition) (w : WorkflowDefinition)
    (inputs vals : Dict Value) (s : S)
    → ((f : InputField) (v : Value) (s : S) → Settles (resolve f v s).0)
    → load_definition p files source file ≡ some d
    → d.workflow ≡ some w
    → validate_inputs p w inputs ≡ valid vals
    → Settles (bind_values (some resolve) w vals s).0
load_definition-bind_values resolve p files source file d w inputs vals s settles h e accepted =
    let (id, (distinct, fit, exclusive)) = loaded-WellWired p files source file d w h e in
    rw (bind_values-validated (some resolve) p w inputs vals s distinct accepted)
      (bind_fields-Settles resolve settles w w.inputs vals w.graph s (wired-Ready w w.inputs fit))
