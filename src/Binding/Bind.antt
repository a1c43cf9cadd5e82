-- ===== src/Binding/Bind.antt =====
-- `bind_values` of gateway/localcanvas_gateway/workflows/binding.py. The graph is a value, so the
-- loaded one cannot change. The resolver of media references is a parameter, with a state.
use local_canvas.Prelude.{
  String, Bool, true, false, not, Option, none, some, List, [], ◌∷◌, map, filter, ◌&&◌,
  if◌then◌else◌,
}
use local_canvas.Prelude.Text.{sort_texts}
use local_canvas.Prelude.Dict.{Dict, lookup, keys, has_key}
use local_canvas.Values.{Value, Fields}
use local_canvas.Workflow.{InputField, WorkflowDefinition, is_field, is_media, bindings_for}
use local_canvas.Binding.Targets.{write_targets}

-- What `bind_values` raises by itself: a `BindingError`, or the `KeyError` or `TypeError` of a
-- target that the graph does not have.
pub data BindFault : Type 0 where
  unknown_fields missing_fields : List String → BindFault
  no_resolver no_binding no_target : String → BindFault

-- `E` is what the resolver raises.
pub data Outcome (E A : Type 0) : Type 0 where
  done : A → Outcome E A
  fault : BindFault → Outcome E A
  raised : E → Outcome E A

-- What follows a step that may raise.
unfoldable pub and_then :
    {E S A B : Type 0} → Outcome E A × S → (A → S → Outcome E B × S) → Outcome E B × S
and_then (done a, s) rest = rest a s
and_then (fault e, s) rest = (fault e, s)
and_then (raised e, s) rest = (raised e, s)

unfoldable pub is_empty {ℓ} : {A : Type ℓ} → List A → Bool
is_empty [] = true
is_empty (x ∷ xs) = false

-- `sorted(key for key in values if key not in fields)`
unfoldable pub unknown_keys : WorkflowDefinition → Dict Value → List String
unknown_keys workflow values =
    sort_texts (filter (λ k. not (is_field k workflow.inputs)) (keys values))

-- The ids of the required fields that have no value.
unfoldable pub missing_keys : WorkflowDefinition → Dict Value → List String
missing_keys workflow values =
    map (λ (f : InputField). f.id)
      (filter (λ (f : InputField). f.required && not (has_key f.id values)) workflow.inputs)

-- A resolver: the value for the graph, or what it raises, and its state afterwards.
abbrev pub Resolver : Type 0 → Type 0 → Type 0
Resolver E S = InputField → Value → S → Outcome E Value × S

module _ {E S : Type 0} (resolver : Option (Resolver E S)) where
  -- The value that is bound: a media field's goes through the resolver.
  unfoldable pub resolved : InputField → Value → S → Outcome E Value × S
  resolved f v s =
      if is_media f
      then (elim resolver [ none ↦ (fault (no_resolver f.id), s) | some resolve ↦ resolve f v s ])
      else (done v, s)

  -- One field's value, written into every target of the field.
  unfoldable pub write_field : WorkflowDefinition → InputField → Fields → Value → Outcome E Fields
  write_field workflow f graph v =
      if is_empty (bindings_for workflow f.id)
      then fault (no_binding f.id)
      else (elim (write_targets (bindings_for workflow f.id) v graph) [
        | none ↦ fault (no_target f.id)
        | some graph' ↦ done graph'
      ])

  -- The loop over the fields.
  unfoldable pub bind_fields :
      WorkflowDefinition → List InputField → Dict Value → Fields → S → Outcome E Fields × S
  unfolding resolved write_field and_then
  bind_fields workflow [] values graph s = (done graph, s)
  bind_fields workflow (f ∷ fs) values graph s = elim (lookup f.id values) [
    | none ↦ bind_fields workflow fs values graph s
    | some v ↦
        and_then (resolved f v s)
          (λ x s'. and_then (write_field workflow f graph x, s') (bind_fields workflow fs values))
  ]

  -- `bind_values`
  unfoldable pub bind_values : WorkflowDefinition → Dict Value → S → Outcome E Fields × S
  unfolding is_empty bind_fields
  bind_values workflow values s =
      if is_empty (unknown_keys workflow values)
      then (if is_empty (missing_keys workflow values)
          then bind_fields workflow workflow.inputs values workflow.graph s
          else (fault (missing_fields (missing_keys workflow values)), s))
      else (fault (unknown_fields (unknown_keys workflow values)), s)
