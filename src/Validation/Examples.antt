-- ===== src/Validation/Examples.antt =====
-- A workflow with a prompt and a strength, and submissions to it, through validation.py.
use local_canvas.Prelude.{arith, ◌≡◌, refl, true, false, none, some, [], ◌∷◌, All, inl, ◌^◌}
use local_canvas.Prelude.Int.{negsuc, pos}
use local_canvas.Prelude.Dict.{Dict, lookup, insert, keys}
use local_canvas.Prelude.Text.{sort_texts, is_blank}
use local_canvas.Values.{Value, str, int, float, end}
use local_canvas.Values.Numbers.{Float, dyadic, nan, float_of_int}
use local_canvas.Values.Numbers
use local_canvas.Workflow.{
  Section, no_presentation, FieldType, InputField, WorkflowDefinition, auto, is_field,
}
use local_canvas.Validation.Checks.{
  Printing, valid, overflow, check, check_text, as_number, in_range, below, above, number_value,
}
use local_canvas.Validation.Inputs.{validate_inputs}
use local_canvas.Validation.Conform.{Conforms, check-Conforms}
use local_canvas.Validation.Fixed.{check_fixed, check-check, check-nan, check-overflow}
use local_canvas.Validation.Submission.{
  Distinct, Accepted, validate_inputs-Accepted, validate_inputs-only,
}

abbrev printing : Printing
printing = record { repr_text = λ s. s; str_float = λ x. "a float" }

abbrev prompt : InputField
prompt = record {
  id = "prompt";
  label = "Prompt";
  field_type = FieldType.string;
  required = true;
  section = Section.main;
  default = none;
  help = none;
  step = none;
  role = none;
  pair = none;
  duration = none;
  min = none;
  max = none;
  options = [];
  translatable = true;
}

abbrev strength : InputField
strength = record {
  id = "strength";
  label = "Strength";
  field_type = FieldType.float;
  required = false;
  section = Section.main;
  default = none;
  help = none;
  step = none;
  role = none;
  pair = none;
  duration = none;
  min = some (Numbers.int (pos 0));
  max = some (Numbers.int (pos 1));
  options = [];
  translatable = false;
}

abbrev flow : WorkflowDefinition
flow = record {
  id = "flow";
  name = "Flow";
  presentation = no_presentation;
  inputs = prompt ∷ strength ∷ [];
  bindings = [];
  graph = end;
  translation_mode = auto;
}

abbrev inputs : Dict Value
inputs = ("prompt", str "a cat") ∷ ("strength", int (pos 1)) ∷ []

abbrev values : Dict Value
values = ("prompt", str "a cat") ∷ ("strength", float (dyadic (pos 1) 0)) ∷ []

one_is_accepted : check printing strength (int (pos 1)) ≡ valid (float (dyadic (pos 1) 0))
unfolding check as_number float_of_int Numbers.round_nat in_range below Numbers.number_lt above
    number_value
one_is_accepted = refl

inputs_are_accepted : validate_inputs printing flow inputs ≡ valid values
unfolding validate_inputs sort_texts keys is_field lookup insert check check_text is_blank as_number
    float_of_int Numbers.round_nat in_range below Numbers.number_lt above number_value
inputs_are_accepted = refl

check-Conforms_example : Conforms FieldType.float strength (float (dyadic (pos 1) 0))
check-Conforms_example =
    check-Conforms printing strength (int (pos 1)) (float (dyadic (pos 1) 0)) one_is_accepted

check_fixed_example : check printing prompt (str "a cat") ≡ valid (str "a cat")
check_fixed_example =
    check_fixed printing prompt (str "a cat") ("a cat", refl, unfold is_blank in refl)

check-check_example :
    check printing strength (float (dyadic (pos 1) 0)) ≡ valid (float (dyadic (pos 1) 0))
check-check_example =
    check-check printing strength (int (pos 1)) (float (dyadic (pos 1) 0)) one_is_accepted

check-nan_example : check printing strength (float nan) ≡ valid (float nan)
check-nan_example = check-nan printing strength refl

check-overflow_example : check printing strength (int (negsuc (2 ^ 1024))) ≡ overflow
check-overflow_example = check-overflow printing strength (negsuc (2 ^ 1024)) refl (omega arith)

flow-Distinct : Distinct flow.inputs
unfolding is_field
flow-Distinct = (refl, (refl, tt))

validate_inputs-Accepted_example :
    All (λ (f : InputField). Accepted f (lookup f.id inputs) (lookup f.id values)) flow.inputs
validate_inputs-Accepted_example =
    validate_inputs-Accepted printing flow inputs values flow-Distinct inputs_are_accepted

validate_inputs-only_example : lookup "steps" values ≡ none
validate_inputs-only_example =
    validate_inputs-only printing flow inputs values "steps" inputs_are_accepted
      (inl (unfold is_field in refl))
