-- ===== src/Binding/Raised.antt =====
-- What `bind_values` (workflows/binding.py) raises besides its own errors is what the resolver raises.
use local_canvas.Prelude.{some, List, [], ◌∷◌, Option-cases, Bool-cases, inl, inr}
use local_canvas.Prelude.Dict.{Dict, lookup}
use local_canvas.Values.{Value, Fields}
use local_canvas.Workflow.{InputField, WorkflowDefinition, bindings_for, is_media}
use local_canvas.Binding.Targets.{write_targets}
use local_canvas.Binding.Bind.{
  Outcome, done, fault, raised, Resolver, and_then, is_empty, unknown_keys, missing_keys, resolved,
  write_field, bind_fields, bind_values,
}

-- If anything was raised, it is such an error.
abbrev pub RaisesOnly : {E A : Type 0} → (E → Type 0) → Outcome E A → Type 0
RaisesOnly P (done a) = Unit
RaisesOnly P (fault e) = Unit
RaisesOnly P (raised e) = P e

module _ {E S : Type 0} (P : E → Type 0) (resolve : Resolver E S)
    (only : (f : InputField) (v : Value) (s : S) → RaisesOnly P (resolve f v s).0) where
  resolved-RaisesOnly :
      (f : InputField) (v : Value) (s : S) → RaisesOnly P (resolved (some resolve) f v s).0
  unfolding resolved
  resolved-RaisesOnly f v s = elim (Bool-cases (is_media f)) [
    | inl e ↦ rw (e, resolved) (only f v s)
    | inr e ↦ rw (e, resolved) tt
  ]

  write_field-RaisesOnly :
      (w : WorkflowDefinition) (f : InputField) (graph : Fields) (v : Value)
      → RaisesOnly P (write_field (some resolve) w f graph v)
  unfolding write_field
  write_field-RaisesOnly w f graph v = elim (Bool-cases (is_empty (bindings_for w f.id))) [
    | inl e ↦ rw (e, write_field) tt
    | inr e ↦ elim (Option-cases (write_targets (bindings_for w f.id) v graph)) [
      | inl missing ↦ rw (e, missing, write_field) tt
      | inr (graph', there) ↦ rw (e, there, write_field) tt
    ]
  ]

  and_then-RaisesOnly :
      {A B : Type 0} (m : Outcome E A × S) (next : A → S → Outcome E B × S)
      → RaisesOnly P m.0
      → ((a : A) (s : S) → RaisesOnly P (next a s).0)
      → RaisesOnly P (and_then m next).0
  unfolding and_then
  and_then-RaisesOnly (done a, s) next here after = after a s
  and_then-RaisesOnly (fault e, s) next here after = tt
  and_then-RaisesOnly (raised e, s) next here after = here

  bind_fields-RaisesOnly :
      (w : WorkflowDefinition) (fs : List InputField) (vals : Dict Value) (graph : Fields) (s : S)
      → RaisesOnly P (bind_fields (some resolve) w fs vals graph s).0
  unfolding bind_fields
  bind_fields-RaisesOnly w [] vals graph s = tt
  bind_fields-RaisesOnly w (f ∷ fs) vals graph s = elim (Option-cases (lookup f.id vals)) [
    | inl e ↦ rw (e, bind_fields) (bind_fields-RaisesOnly w fs vals graph s)
    | inr (v, e) ↦
        rw (e, bind_fields)
          (and_then-RaisesOnly _ _ (resolved-RaisesOnly f v s) (λ x s'.
            and_then-RaisesOnly _ _ (write_field-RaisesOnly w f graph x)
              (λ graph' s''. bind_fields-RaisesOnly w fs vals graph' s'')))
  ]

  pub bind_values-RaisesOnly :
      (w : WorkflowDefinition) (vals : Dict Value) (s : S)
      → RaisesOnly P (bind_values (some resolve) w vals s).0
  unfolding bind_values
  bind_values-RaisesOnly w vals s = elim (Bool-cases (is_empty (unknown_keys w vals))) [
    | inr e ↦ rw (e, bind_values) tt
    | inl e ↦ elim (Bool-cases (is_empty (missing_keys w vals))) [
      | inr m ↦ rw (e, m, bind_values) tt
      | inl m ↦ rw (e, m, bind_values) (bind_fields-RaisesOnly w w.inputs vals w.graph s)
    ]
  ]
