-- ===== src/Definition/Parsed.antt =====
-- What the parser of one field (workflows/definition.py) answers where it notes nothing: a field with
-- at least one target, and each of them can be driven in the graph.
use local_canvas.Prelude.{ℕ, String, Option, none, some}
use local_canvas.Values.{Value, null, str, int, float, bool, arr, obj, Fields}
use local_canvas.Workflow.{FieldType}
use local_canvas.Binding.Targets.{find}
use local_canvas.Validation.Checks.{Printing}
use local_canvas.Definition.Notes.{at_index}
use local_canvas.Definition.Hints.{parse_type, type_named, type_in}
use local_canvas.Definition.Field.{
  ParsedField, with_label, typed_field, named_field, field_in, parse_field,
}
use local_canvas.Definition.Quiet.{
  Answers, Answers-pure, Answers-fail, Answers-bind, Answers-skip, Answers-then, Answers-Given,
  Given, Any, Given-Any, noted-Answers, text_in-Answers,
}
use local_canvas.Definition.Bindable.{SomeFit, parse_bind-Answers}

type_in-Answers : (id : String) (v : Option Value) → Answers (Given Any) (type_in id v)
unfolding type_in
type_in-Answers id none = Answers-fail _ _ _ _
type_in-Answers id (some null) = Answers-fail _ _ _ _
type_in-Answers id (some (str name)) = Given-Any (noted-Answers _ _ (type_named name))
type_in-Answers id (some (int n)) = Answers-fail _ _ _ _
type_in-Answers id (some (float x)) = Answers-fail _ _ _ _
type_in-Answers id (some (bool b)) = Answers-fail _ _ _ _
type_in-Answers id (some (arr vs)) = Answers-fail _ _ _ _
type_in-Answers id (some (obj fs)) = Answers-fail _ _ _ _

-- A parsed field that has targets, each of which fits.
abbrev pub GoodField : Option Fields → ParsedField → Type 0
GoodField graph (f, targets) = Given (SomeFit graph) targets

module _ (p : Printing) (graph : Option Fields) where
  typed_field-Answers :
      (raw : Fields) (id label : String) (t : FieldType)
      → Answers (Given (GoodField graph)) (typed_field p graph raw id (some label) t)
  unfolding typed_field with_label
  typed_field-Answers raw id label t = Answers-skip _ _ _ (λ required.
      Answers-skip _ _ _ (λ section. Answers-skip _ _ _ (λ help. Answers-then _ _ _ (
        Answers-skip _ _ _ (λ options. Answers-skip _ _ _ (λ b. Answers-skip _ _ _ (λ default.
          Answers-skip _ _ _ (λ role. Answers-skip _ _ _ (λ pair. Answers-skip _ _ _ (λ duration.
            Answers-skip _ _ _ (λ translatable.
              Answers-bind _ _ _ _ (parse_bind-Answers raw id graph)
                (λ targets good. Answers-pure _ _ good))))))))))))

  named_field-Answers :
      (raw : Fields) (id : String) → Answers (Given (GoodField graph)) (named_field p graph raw id)
  unfolding named_field parse_type
  named_field-Answers raw id = Answers-then _ _ _ (
      Answers-Given _ _ _ _ (text_in-Answers (some id) "label" (find "label" raw)) (λ label _.
        Answers-Given _ _ _ _ (type_in-Answers id (find "type" raw))
          (λ t _. typed_field-Answers raw id label t)))

  field_in-Answers :
      (index : ℕ) (raw : Fields) → Answers (Given (GoodField graph)) (field_in p graph index raw)
  unfolding field_in
  field_in-Answers index raw =
      Answers-Given _ _ _ _ (text_in-Answers none (at_index "inputs" index) (find "id" raw))
        (λ id _. named_field-Answers raw id)

  pub parse_field-Answers :
      (index : ℕ) (v : Value) → Answers (Given (GoodField graph)) (parse_field p graph index v)
  unfolding parse_field
  parse_field-Answers index (obj raw) = field_in-Answers index raw
  parse_field-Answers index null = Answers-fail _ _ _ _
  parse_field-Answers index (str s) = Answers-fail _ _ _ _
  parse_field-Answers index (int n) = Answers-fail _ _ _ _
  parse_field-Answers index (float x) = Answers-fail _ _ _ _
  parse_field-Answers index (bool b) = Answers-fail _ _ _ _
  parse_field-Answers index (arr vs) = Answers-fail _ _ _ _
