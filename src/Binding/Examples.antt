-- ===== src/Binding/Examples.antt =====
-- A workflow with a prompt and a picture, bound (workflows/binding.py) with a resolver that counts.
use local_canvas.Prelude.{
  ℕ, ◌+◌, String, ◌≡◌, refl, true, false, Option, none, some, List, [], ◌∷◌, if◌then◌else◌,
}
use local_canvas.Prelude.Dict.{Dict, lookup, keys, has_key}
use local_canvas.Prelude.Text.{sort_texts}
use local_canvas.Values.{Value, str, int, obj, Fields, end, field}
use local_canvas.Prelude.Int.{pos}
use local_canvas.Workflow.{
  Section, no_presentation, Binding, FieldType, InputField, WorkflowDefinition, auto, is_media,
  is_field, bindings_for,
}
use local_canvas.Binding.Targets.{
  find, put, as_mapping, read_target, write_targets, is_target, read-write_targets,
}
use local_canvas.Binding.Bind.{done, Resolver, bind_values, unknown_keys, missing_keys}
use local_canvas.Prelude.Dict.{insert}
use local_canvas.Prelude.Text.{is_blank}
use local_canvas.Validation.Checks.{valid, Printing, check, check_text, check_media}
use local_canvas.Validation.Inputs.{validate_inputs}
use local_canvas.Validation.Submission.{Distinct}
use local_canvas.Binding.Bind.{bind_fields}
use local_canvas.Binding.Validated.{bind_values-validated}
use local_canvas.Binding.Refinement.{reading, Bound, bind_values-Bound}

abbrev prompt : InputField
prompt = record {
  id = "prompt";
  label = "Prompt";
  field_type = FieldType.string;
  required = true;
  section = Section.main;
  default = none;
  help = none;
  step = none;
  role = none;
  pair = none;
  duration = none;
  min = none;
  max = none;
  options = [];
  translatable = true;
}

abbrev photo : InputField
photo = record prompt { id = "photo"; field_type = FieldType.image; translatable = false }

abbrev text_input : Binding
text_input = record { node = "6"; input = "text" }

abbrev image_input : Binding
image_input = record { node = "7"; input = "image" }

abbrev steps_input : Binding
steps_input = record { node = "7"; input = "steps" }

abbrev graph : Fields
graph = field "6" (obj (field "inputs" (obj (field "text" (str "") end)) end)) (
    field "7"
      (obj (field "inputs" (obj (field "image" (str "") (field "steps" (int (pos 20)) end))) end))
      end)

abbrev bound_graph : Fields
bound_graph = field "6" (obj (field "inputs" (obj (field "text" (str "a cat") end)) end)) (
    field "7"
      (obj (
        field "inputs" (obj (field "image" (str "up.png") (field "steps" (int (pos 20)) end))) end))
      end)

abbrev flow : WorkflowDefinition
flow = record {
  id = "flow";
  name = "Flow";
  presentation = no_presentation;
  inputs = prompt ∷ photo ∷ [];
  bindings = ("prompt", text_input ∷ []) ∷ ("photo", image_input ∷ []) ∷ [];
  graph = graph;
  translation_mode = auto;
}

abbrev values : Dict Value
values = ("prompt", str "a cat") ∷ ("photo", obj (field "media_id" (str "m-1") end)) ∷ []

abbrev resolver : Option (Resolver String ℕ)
resolver = some (λ f v uploads. (done (str "up.png"), uploads + 1))

values_are_bound : bind_values resolver flow values 0 ≡ (done bound_graph, 1)
unfolding bind_values unknown_keys sort_texts keys is_field missing_keys has_key lookup is_media
    bindings_for write_targets as_mapping find put
values_are_bound = refl

bind_values-Bound_example :
    (bound : List (InputField × Value)) × Bound resolver values flow.inputs 0 bound 1
    × ((u : Binding) → read_target u bound_graph ≡ reading flow bound u (read_target u graph))
bind_values-Bound_example = bind_values-Bound resolver flow values bound_graph 0 1 values_are_bound

abbrev text_graph : Fields
text_graph = field "6" (obj (field "inputs" (obj (field "text" (str "a cat") end)) end)) (
    field "7"
      (obj (field "inputs" (obj (field "image" (str "") (field "steps" (int (pos 20)) end))) end))
      end)

text_is_written : write_targets (text_input ∷ []) (str "a cat") graph ≡ some text_graph
unfolding write_targets find put as_mapping
text_is_written = refl

read-write_targets_example : read_target steps_input text_graph ≡ (
    if is_target (text_input ∷ []) steps_input
    then some (str "a cat")
    else read_target steps_input graph)
read-write_targets_example =
    read-write_targets (text_input ∷ []) steps_input (str "a cat") graph text_graph text_is_written

abbrev printing : Printing
printing = record { repr_text = λ s. s; str_float = λ x. "a float" }

flow-Distinct : Distinct flow.inputs
unfolding is_field
flow-Distinct = (refl, (refl, tt))

values_are_accepted : validate_inputs printing flow values ≡ valid values
unfolding validate_inputs sort_texts keys is_field lookup insert check check_text check_media
    is_blank
values_are_accepted = refl

bind_values-validated_example :
    bind_values resolver flow values 0 ≡ bind_fields resolver flow flow.inputs values graph 0
bind_values-validated_example =
    bind_values-validated resolver printing flow values values 0 flow-Distinct values_are_accepted
