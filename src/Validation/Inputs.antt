-- ===== src/Validation/Inputs.antt =====
-- `validate_inputs` of gateway/localcanvas_gateway/validation.py: the unknown names first, then the
-- fields in the order of the schema.
use local_canvas.Prelude.{String, ◌<>◌, none, some, List, [], ◌∷◌, if◌then◌else◌}
use local_canvas.Prelude.Text.{sort_texts}
use local_canvas.Prelude.Dict.{Dict, lookup, insert, keys}
use local_canvas.Values.{Value}
use local_canvas.Workflow.{InputField, WorkflowDefinition, is_field}
use local_canvas.Validation.Checks.{Checked, valid, refused, ◌>>=◌, ◌>>◌, Printing, fails, check}

module _ (p : Printing) where
  -- The first name, in sorted order, that is no field's.
  unfoldable pub check_names : List InputField → List String → Checked (Unit {0})
  check_names inputs [] = valid tt
  check_names inputs (name ∷ names) =
      if is_field name inputs
      then check_names inputs names
      else refused (record {
        field = name;
        code = "unknown_field";
        message = "This workflow has no " <> p.repr_text name <> " setting.";
      })

  -- The loop over the fields, with the values validated so far.
  unfoldable pub check_fields : List InputField → Dict Value → Dict Value → Checked (Dict Value)
  unfolding fails
  check_fields [] inputs validated = valid validated
  check_fields (f ∷ fs) inputs validated = elim (lookup f.id inputs) [
    | none ↦
        let rest = check_fields fs inputs validated in
        if f.required then fails f "missing_field" (f.label <> " is required.") else rest
    | some v ↦ check p f v >>= λ checked. check_fields fs inputs (insert f.id checked validated)
  ]

  -- `validate_inputs`
  unfoldable pub validate_inputs : WorkflowDefinition → Dict Value → Checked (Dict Value)
  unfolding check_names check_fields
  validate_inputs workflow inputs = do
    check_names workflow.inputs (sort_texts (keys inputs))
    check_fields workflow.inputs inputs []
