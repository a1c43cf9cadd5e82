-- ===== src/Api/Payload.antt =====
-- The head of `submit_job` (api/jobs.py): what it reads from the payload and validates, before it
-- calls anything that has a state.
use local_canvas.Prelude.{
  String, Bool, true, false, not, Option, none, some, List, [], ◌∷◌, ◌==◌, ◌&&◌, if◌then◌else◌,
}
use local_canvas.Prelude.Int.{pos, eqb_ℤ}
use local_canvas.Prelude.Dict.{Dict}
use local_canvas.Values.{
  Value, null, str, int, float, bool, arr, obj, nil, cons, Fields, end, field, entries, get_value,
  non_empty_text,
}
use local_canvas.Values.Numbers.{dyadic, float_eq}
use local_canvas.Workflow.{WorkflowDefinition}
use local_canvas.Binding.Targets.{find}
use local_canvas.Validation.Checks.{Checked, Printing}
use local_canvas.Validation.Checks
use local_canvas.Validation.Inputs.{validate_inputs}
use local_canvas.Registry.Resolve.{get_workflow}
use local_canvas.Api.Errors.{
  failure_error, bad_request, workflow_not_found, Answer, answered, refused, crashed, ◌>>=◌,
}

unfoldable pub mapping_of : Value → Answer Fields
mapping_of (obj fields) = answered fields
mapping_of v = refused (bad_request "The request could not be understood. Expected JSON." none)

unfoldable pub workflow_of : List WorkflowDefinition → Fields → Answer WorkflowDefinition
workflow_of workflows payload = elim (non_empty_text (get_value "workflow_id" payload)) [
  | none ↦ refused (bad_request "No workflow was chosen." (some "workflow_id"))
  | some id ↦ elim (get_workflow id workflows) [
    | none ↦ refused workflow_not_found
    | some workflow ↦ answered workflow
  ]
]

unfoldable pub inputs_of : Option Value → Answer (Dict Value)
inputs_of none = answered []
inputs_of (some null) = answered []
inputs_of (some (obj fields)) = answered (entries fields)
inputs_of (some v) =
    refused (bad_request "The settings for this generation could not be read." (some "inputs"))

abbrev not_off : Answer Bool
not_off = refused (
    bad_request "Translation can only be switched off for a generation, never on."
      (some "translation"))

-- `_translation_wanted`, on `payload.get("translation")`.
unfoldable pub translation_wanted : Value → Answer Bool
translation_wanted null = answered true
translation_wanted (obj (field key (str mode) end)) =
    if key == "mode" && mode == "off" then answered false else not_off
translation_wanted v = not_off

-- `validate_inputs` in the route: a `ValidationFailure` is an `ApiError`.
unfoldable pub checked_inputs : {A : Type 0} → Checked A → Answer A
unfolding failure_error
checked_inputs (Checks.valid a) = answered a
checked_inputs (Checks.refused f) = refused (failure_error f)
checked_inputs Checks.overflow = crashed

-- A submission that has been read and validated.
pub record Prepared : Type 0 where
  pub workflow : WorkflowDefinition
  pub wanted : Bool
  pub inputs : Dict Value
  pub values : Dict Value

unfoldable pub prepare : Printing → List WorkflowDefinition → Value → Answer Prepared
unfolding mapping_of workflow_of inputs_of translation_wanted checked_inputs
prepare p workflows payload = do
  fields ← mapping_of payload
  workflow ← workflow_of workflows fields
  inputs ← inputs_of (find "inputs" fields)
  wanted ← translation_wanted (get_value "translation" fields)
  values ← checked_inputs (validate_inputs p workflow inputs)
  answered (record { workflow = workflow; wanted = wanted; inputs = inputs; values = values })

-- `bool(value)`
unfoldable pub is_truthy : Value → Bool
unfolding float_eq
is_truthy null = false
is_truthy (str s) = not (s == "")
is_truthy (int n) = not (eqb_ℤ n (pos 0))
is_truthy (float x) = not (float_eq x (dyadic (pos 0) 0))
is_truthy (bool b) = b
is_truthy (arr nil) = false
is_truthy (arr (cons v vs)) = true
is_truthy (obj end) = false
is_truthy (obj (field k v fs)) = true

-- The class of one node, if it is a mapping that has one.
class_type : Value → Option Value
unfolding is_truthy
class_type (obj node) = let v = get_value "class_type" node in if is_truthy v then some v else none
class_type v = none

-- `_node_types`, with `str` of a value; the job makes a set of the names.
unfoldable pub node_types : (Value → String) → Fields → List String
unfolding class_type
node_types show_value end = []
node_types show_value (field id node nodes) = elim (class_type node) [
  | none ↦ node_types show_value nodes
  | some v ↦ show_value v ∷ node_types show_value nodes
]
