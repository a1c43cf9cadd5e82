-- ===== src/Validation/Submission.antt =====
-- What `validate_inputs` (validation.py) promises of a whole submission.
use local_canvas.Prelude.{
  String, ◌≡◌, refl, false, ◌⊎◌, Option, none, some, List, [], ◌∷◌, arith, eq_iff, inl, inr,
  Option-cases, ◌∙◌, All,
}
use local_canvas.Prelude.Text.{sort_texts}
use local_canvas.Prelude.Dict.{Dict, lookup, insert, keys, lookup-insert, lookup-insert_self}
use local_canvas.Values.{Value}
use local_canvas.Workflow.{InputField, WorkflowDefinition, is_field}
use local_canvas.Validation.Checks.{valid, Printing, check}
use local_canvas.Validation.Inputs.{check_names, check_fields, validate_inputs}
use local_canvas.Validation.Conform.{Conforms, check-Conforms, >>=-eq-valid}

-- No two fields of the schema have one id.
abbrev pub Distinct : List InputField → Type 0
Distinct [] = Unit
Distinct (f ∷ fs) = (is_field f.id fs ≡ false) × Distinct fs

-- A field that was left out is optional and stays out; one that was given has a value that
-- conforms to its schema.
abbrev pub Accepted : InputField → Option Value → Option Value → Type 0
Accepted f none out = (f.required ≡ false) × (out ≡ none)
Accepted f (some v) out = (c : Value) × (out ≡ some c) × Conforms f.field_type f c

module _ (p : Printing) where
  -- What a step of the loop over the fields does when the whole loop succeeds.
  check_fields-cons :
      (f : InputField) (fs : List InputField) (inputs acc vals : Dict Value)
      → check_fields p (f ∷ fs) inputs acc ≡ valid vals
      → ((lookup f.id inputs ≡ none)
          × (f.required ≡ false)
          × (check_fields p fs inputs acc ≡ valid vals))
        ⊎ ((v c : Value) × (lookup f.id inputs ≡ some v)
            × (check p f v ≡ valid c)
            × (check_fields p fs inputs (insert f.id c acc) ≡ valid vals))
  unfolding check_fields
  check_fields-cons f fs inputs acc vals h = elim (Option-cases (lookup f.id inputs)) [
    | inl e ↦ inl (e, ground arith, ground arith)
    | inr (v, e) ↦
        let (c, ok, rest) =
          >>=-eq-valid (check p f v) (λ c. check_fields p fs inputs (insert f.id c acc))
            (rw (e, check_fields) at h) in
        inr (v, c, e, ok, rest)
  ]

  -- The loop leaves the value under an id that is no field's.
  check_fields-other :
      (fs : List InputField) (inputs acc vals : Dict Value) (k : String)
      → is_field k fs ≡ false
      → check_fields p fs inputs acc ≡ valid vals
      → lookup k vals ≡ lookup k acc
  check_fields-other [] inputs acc vals k other h = unfold check_fields in cc
  check_fields-other (f ∷ fs) inputs acc vals k other h =
      elim (check_fields-cons f fs inputs acc vals h) [
        | inl (e, r, rest) ↦
            check_fields-other fs inputs acc vals k (unfold is_field in ground arith) rest
        | inr (v, c, e, ok, rest) ↦
            check_fields-other fs inputs (insert f.id c acc) vals k
              (unfold is_field in ground arith) rest
            ∙ (unfold is_field in ground (arith, lookup-insert f.id k c acc))
      ]

  -- The loop leaves the value under an id that the submission does not give.
  check_fields-absent :
      (fs : List InputField) (inputs acc vals : Dict Value) (k : String)
      → lookup k inputs ≡ none
      → check_fields p fs inputs acc ≡ valid vals
      → lookup k vals ≡ lookup k acc
  check_fields-absent [] inputs acc vals k absent h = unfold check_fields in cc
  check_fields-absent (f ∷ fs) inputs acc vals k absent h =
      elim (check_fields-cons f fs inputs acc vals h) [
        | inl (e, r, rest) ↦ check_fields-absent fs inputs acc vals k absent rest
        | inr (v, c, e, ok, rest) ↦
            check_fields-absent fs inputs (insert f.id c acc) vals k absent rest
            ∙ ground (arith, lookup-insert f.id k c acc, eq_iff f.id k)
      ]

  -- The values that come out for each field of a schema with distinct ids.
  check_fields-Accepted :
      (fs : List InputField) (inputs acc vals : Dict Value)
      → Distinct fs
      → ((k : String) → lookup k inputs ≡ none → lookup k acc ≡ none)
      → check_fields p fs inputs acc ≡ valid vals
      → All (λ f. Accepted f (lookup f.id inputs) (lookup f.id vals)) fs
  check_fields-Accepted [] inputs acc vals d clean h = tt
  check_fields-Accepted (f ∷ fs) inputs acc vals (new, d) clean h =
      elim (check_fields-cons f fs inputs acc vals h) [
        | inl (e, r, rest) ↦ (
          rw e (r, check_fields-absent fs inputs acc vals f.id e rest ∙ clean f.id e),
          check_fields-Accepted fs inputs acc vals d clean rest,
        )
        | inr (v, c, e, ok, rest) ↦ (
          rw e (
            c,
            check_fields-other fs inputs (insert f.id c acc) vals f.id new rest
                ∙ lookup-insert_self f.id c acc,
            check-Conforms p f v c ok,
          ),
          check_fields-Accepted fs inputs (insert f.id c acc) vals d
              (λ k absent.
                ground (arith, lookup-insert f.id k c acc, eq_iff f.id k, clean k absent))
              rest,
        )
      ]

  accepted_fields :
      (workflow : WorkflowDefinition) (inputs vals : Dict Value)
      → validate_inputs p workflow inputs ≡ valid vals
      → (check_names p workflow.inputs (sort_texts (keys inputs)) ≡ valid tt)
        × (check_fields p workflow.inputs inputs [] ≡ valid vals)
  unfolding validate_inputs
  accepted_fields workflow inputs vals h =
      let (u, names, fields) =
        >>=-eq-valid (check_names p workflow.inputs (sort_texts (keys inputs)))
          (λ _. check_fields p workflow.inputs inputs []) h in
      (names, fields)

  -- When the fields of the workflow have distinct ids, an accepted submission has for each of them
  -- what the field asks for: a field that was left out is optional, and stays out; a field that was
  -- given has a value of the declared type, within the bounds or among the options, and not blank
  -- where the field is required.
  pub validate_inputs-Accepted :
      (workflow : WorkflowDefinition) (inputs vals : Dict Value)
      → Distinct workflow.inputs
      → validate_inputs p workflow inputs ≡ valid vals
      → All (λ f. Accepted f (lookup f.id inputs) (lookup f.id vals)) workflow.inputs
  validate_inputs-Accepted workflow inputs vals d h =
      check_fields-Accepted workflow.inputs inputs [] vals d (λ k absent. unfold lookup in refl)
        (accepted_fields workflow inputs vals h).1

  -- Nothing comes out under a key that is no field of the workflow, or that was not submitted.
  pub validate_inputs-only :
      (workflow : WorkflowDefinition) (inputs vals : Dict Value) (k : String)
      → validate_inputs p workflow inputs ≡ valid vals
      → ((is_field k workflow.inputs ≡ false) ⊎ (lookup k inputs ≡ none))
      → lookup k vals ≡ none
  validate_inputs-only workflow inputs vals k h (inl other) =
      check_fields-other workflow.inputs inputs [] vals k other
        (accepted_fields workflow inputs vals h).1
      ∙ (unfold lookup in refl)
  validate_inputs-only workflow inputs vals k h (inr absent) =
      check_fields-absent workflow.inputs inputs [] vals k absent
        (accepted_fields workflow inputs vals h).1
      ∙ (unfold lookup in refl)
