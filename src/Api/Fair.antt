-- ===== src/Api/Fair.antt =====
-- The refusals of the head of `submit_job` (api/jobs.py), which reads and validates a request.
use local_canvas.Prelude.{
  ◌≢◌, ap, ◌==◌, ◌&&◌, Bool-cases, Option, none, some, List, arith, Option-cases, inl, inr,
}
use local_canvas.Values.{Value, Fields, get_value, non_empty_text}
use local_canvas.Values
use local_canvas.Workflow.{WorkflowDefinition}
use local_canvas.Validation.Checks.{Printing, Checked}
use local_canvas.Validation.Checks
use local_canvas.Validation.Inputs.{validate_inputs}
use local_canvas.Binding.Targets.{find}
use local_canvas.Registry.Resolve.{get_workflow}
use local_canvas.Api.Errors.{
  ApiError, workflow_unusable, failure_error, Answer, answered, refused, crashed, ◌>>=◌,
}
use local_canvas.Api.Payload.{
  mapping_of, workflow_of, inputs_of, translation_wanted, checked_inputs, prepare,
}

-- An error that is not the one of a workflow that could not be bound.
abbrev pub Other : ApiError → Type 0
Other e = e ≢ workflow_unusable

-- A refusal that may come of reading a request.
abbrev pub Fair : {A : Type 0} → Answer A → Type 0
Fair (answered a) = Unit
Fair (refused e) = Other e
Fair crashed = Unit

pub by_status : (e : ApiError) → e.status_code ≢ 500 → Other e
by_status e other same = other (ap (λ (x : ApiError). x.status_code) same)

>>=-Fair :
    {A B : Type 0} (m : Answer A) (f : A → Answer B)
    → Fair m
    → ((a : A) → Fair (f a))
    → Fair (m >>= f)
>>=-Fair (answered a) f h hs = hs a
>>=-Fair (refused e) f h hs = h
>>=-Fair crashed f h hs = tt

mapping_of-Fair : (v : Value) → Fair (mapping_of v)
unfolding mapping_of
mapping_of-Fair (Values.obj fields) = tt
mapping_of-Fair v = by_status _ (omega arith)

workflow_of-Fair : (ws : List WorkflowDefinition) (payload : Fields) → Fair (workflow_of ws payload)
unfolding workflow_of
workflow_of-Fair ws payload =
    elim (Option-cases (non_empty_text (get_value "workflow_id" payload))) [
      | inl e ↦ rw (e, workflow_of) (by_status _ (omega arith))
      | inr (id, e) ↦ elim (Option-cases (get_workflow id ws)) [
        | inl gone ↦ rw (e, gone, workflow_of) (by_status _ (omega arith))
        | inr (w, there) ↦ rw (e, there, workflow_of) tt
      ]
    ]

inputs_of-Fair : (o : Option Value) → Fair (inputs_of o)
unfolding inputs_of
inputs_of-Fair none = tt
inputs_of-Fair (some Values.null) = tt
inputs_of-Fair (some (Values.obj fields)) = tt
inputs_of-Fair (some v) = by_status _ (omega arith)

translation_wanted-Fair : (v : Value) → Fair (translation_wanted v)
unfolding translation_wanted
translation_wanted-Fair Values.null = tt
translation_wanted-Fair (Values.obj (Values.field key (Values.str mode) Values.end)) =
    elim (Bool-cases (key == "mode" && mode == "off")) [
      | inl e ↦ rw (e, translation_wanted) tt
      | inr e ↦ rw (e, translation_wanted) (by_status _ (omega arith))
    ]
translation_wanted-Fair v = by_status _ (omega arith)

checked_inputs-Fair : {A : Type 0} (m : Checked A) → Fair (checked_inputs m)
unfolding checked_inputs failure_error
checked_inputs-Fair (Checks.valid a) = tt
checked_inputs-Fair (Checks.refused f) = by_status _ (omega arith)
checked_inputs-Fair Checks.overflow = tt

pub prepare-Fair :
    (p : Printing) (ws : List WorkflowDefinition) (payload : Value) → Fair (prepare p ws payload)
unfolding prepare
prepare-Fair p ws payload = >>=-Fair (mapping_of payload) _ (mapping_of-Fair payload) (λ fields.
    >>=-Fair (workflow_of ws fields) _ (workflow_of-Fair ws fields) (λ w.
      >>=-Fair (inputs_of (find "inputs" fields)) _ (inputs_of-Fair (find "inputs" fields))
        (λ inputs.
          >>=-Fair (translation_wanted (get_value "translation" fields)) _
            (translation_wanted-Fair (get_value "translation" fields))
            (λ here.
              >>=-Fair (checked_inputs (validate_inputs p w inputs)) _
                (checked_inputs-Fair (validate_inputs p w inputs)) (λ values. tt)))))
