-- ===== src/Binding/Validated.antt =====
-- What validation.py gives to workflows/binding.py: the values of an accepted submission pass the
-- checks of names that `bind_values` makes again.
use local_canvas.Prelude.{
  String, ◌≡◌, refl, false, not, Option, none, some, List, [], ◌∷◌, arith, filter, ◌&&◌, eq_refl,
  eq_iff, All, Bool-cases, inl, inr,
}
use local_canvas.Prelude.Text.{sort_texts}
use local_canvas.Prelude.Dict.{Dict, lookup, keys, has_key, has_key-false}
use local_canvas.Values.{Value}
use local_canvas.Workflow.{InputField, WorkflowDefinition, is_field}
use local_canvas.Validation.Checks.{valid, Printing}
use local_canvas.Validation.Inputs.{validate_inputs}
use local_canvas.Validation.Submission.{
  Distinct, Accepted, validate_inputs-Accepted, validate_inputs-only,
}
use local_canvas.Binding.Bind.{
  Resolver, is_empty, unknown_keys, missing_keys, bind_fields, bind_values,
}

pub no_stray_keys :
    (fs : List InputField) (vals : Dict Value)
    → ((k : String) → is_field k fs ≡ false → lookup k vals ≡ none)
    → filter (λ k. not (is_field k fs)) (keys vals) ≡ []
unfolding keys
no_stray_keys fs [] h = refl
no_stray_keys fs ((j, v) ∷ d) h = elim (Bool-cases (is_field j fs)) [
  | inr e ↦ absurd (unfold lookup in ground (arith, h j e, eq_refl j))
  | inl e ↦
      rw (e, filter)
        (no_stray_keys fs d (λ k other. unfold lookup in ground (arith, h k other, eq_iff j k)))
]

not_missing :
    (f : InputField) (given kept : Option Value) (vals : Dict Value)
    → lookup f.id vals ≡ kept
    → Accepted f given kept
    → f.required && not (has_key f.id vals) ≡ false
not_missing f none kept vals e (optional, out) = simp optional
not_missing f (some v) kept vals e (c, out, good) = elim (Bool-cases (has_key f.id vals)) [
  | inl there ↦ ground arith
  | inr away ↦ absurd (ground (arith, has_key-false f.id vals away))
]

pub none_missing :
    (fs : List InputField) (inputs vals : Dict Value)
    → All (λ f. Accepted f (lookup f.id inputs) (lookup f.id vals)) fs
    → filter (λ (f : InputField). f.required && not (has_key f.id vals)) fs ≡ []
none_missing [] inputs vals h = refl
none_missing (f ∷ fs) inputs vals (a, h) =
    rw (not_missing f (lookup f.id inputs) (lookup f.id vals) vals refl a, filter)
      (none_missing fs inputs vals h)

-- When validation has accepted a submission to a workflow whose fields have distinct ids, the
-- binding of its values raises neither for an unknown nor for a missing field: it is the loop over
-- the fields.
pub bind_values-validated :
    {E S : Type 0} (resolver : Option (Resolver E S)) (p : Printing) (workflow : WorkflowDefinition)
    (inputs vals : Dict Value) (s : S)
    → Distinct workflow.inputs
    → validate_inputs p workflow inputs ≡ valid vals
    → bind_values resolver workflow vals s
      ≡ bind_fields resolver workflow workflow.inputs vals workflow.graph s
unfolding bind_values unknown_keys missing_keys is_empty sort_texts
bind_values-validated resolver p workflow inputs vals s distinct h =
    let known =
      no_stray_keys workflow.inputs vals
        (λ k other. validate_inputs-only p workflow inputs vals k h (inl other)) in
    let given =
      none_missing workflow.inputs inputs vals
        (validate_inputs-Accepted p workflow inputs vals distinct h) in
    rw (known, given) refl
