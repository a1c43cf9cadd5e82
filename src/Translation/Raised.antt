-- ===== src/Translation/Raised.antt =====
-- What `apply` (translation/service.py) raises is what the translator raises.
use local_canvas.Prelude.{
  String, Bool, true, false, List, [], ◌∷◌, ◌==◌, Option-cases, Bool-cases, inl, inr, ◌||◌,
}
use local_canvas.Prelude.Dict.{Dict}
use local_canvas.Values.{Value}
use local_canvas.Workflow.{InputField, WorkflowDefinition}
use local_canvas.Translation.Spans.{Span, split_spans}
use local_canvas.Translation.Detect.{detect_source}
use local_canvas.Translation.Service.{
  Config, FieldTranslation, TranslationResult, Attempt, done, raised, Translator, before,
  after_answer, is_left, rendered, trimmed, join_cores, render, translate_text, wanted, after_entry,
  with_entry, is_off, apply_fields, apply,
}

-- If anything was raised, it is such an error.
abbrev pub RaisesOnly : {E A : Type 0} → (E → Type 0) → Attempt E A → Type 0
RaisesOnly P (done a) = Unit
RaisesOnly P (raised e) = P e

module _ {E W : Type 0} (P : E → Type 0) (translate : Translator E W) (config : Config)
    (only : (text source target : String) (w : W)
      → RaisesOnly P (translate text source target w).0) where
  before-RaisesOnly :
      (piece : String) (new : Bool) (a : Attempt E (String × Bool) × W)
      → RaisesOnly P a.0
      → RaisesOnly P (before piece new a).0
  unfolding before
  before-RaisesOnly piece new (done (text, applied), w) h = tt
  before-RaisesOnly piece new (raised e, w) h = h

  after_answer-RaisesOnly :
      (lead trail : String) (rest : W → Attempt E (String × Bool) × W) (a : Attempt E String × W)
      → ((w : W) → RaisesOnly P (rest w).0)
      → RaisesOnly P a.0
      → RaisesOnly P (after_answer lead trail rest a).0
  unfolding after_answer
  after_answer-RaisesOnly lead trail rest (done text, w) hs h =
      before-RaisesOnly _ true (rest w) (hs w)
  after_answer-RaisesOnly lead trail rest (raised e, w) hs h = h

  render-RaisesOnly :
      (source : String) (spans : List Span) (w : W)
      → RaisesOnly P (render translate config source spans w).0
  unfolding render
  render-RaisesOnly source [] w = tt
  render-RaisesOnly source (span ∷ spans) w =
      elim (Bool-cases (span.protected || is_left source span.text)) [
        | inl e ↦
            rw (e, render) (before-RaisesOnly span.text false _ (render-RaisesOnly source spans w))
        | inr e ↦
            rw (e, render)
              (after_answer-RaisesOnly (trimmed span.text).0 (trimmed span.text).2 _ _
                (λ w'. render-RaisesOnly source spans w')
                (only (trimmed span.text).1 source config.target w))
      ]

  rendered-RaisesOnly :
      (text id source : String) (a : Attempt E (String × Bool) × W)
      → RaisesOnly P a.0
      → RaisesOnly P (rendered config text id source a).0
  unfolding rendered
  rendered-RaisesOnly text id source (done (effective, applied), w) h = tt
  rendered-RaisesOnly text id source (raised e, w) h = h

  translate_text-RaisesOnly :
      (text id : String) (w : W) → RaisesOnly P (translate_text translate config text id w).0
  unfolding translate_text
  translate_text-RaisesOnly text id w =
      let spans : List Span = split_spans text config.preserve_quoted_literals in
      elim (Bool-cases config.enabled) [
        | inr e ↦ rw (e, translate_text) tt
        | inl e ↦ elim (Option-cases (detect_source (join_cores spans) config.sources)) [
          | inl missing ↦ rw (e, missing, translate_text) tt
          | inr (source, there) ↦ elim (Bool-cases (source == config.target)) [
            | inl same ↦ rw (e, there, same, translate_text) tt
            | inr other ↦
                rw (e, there, other, translate_text)
                  (rendered-RaisesOnly text id source _ (render-RaisesOnly source spans w))
          ]
        ]
      ]

  after_entry-RaisesOnly :
      (result : TranslationResult) (rest : TranslationResult → W → Attempt E TranslationResult × W)
      (a : Attempt E FieldTranslation × W)
      → ((r : TranslationResult) (w : W) → RaisesOnly P (rest r w).0)
      → RaisesOnly P a.0
      → RaisesOnly P (after_entry result rest a).0
  unfolding after_entry
  after_entry-RaisesOnly result rest (done entry, w) hs h = hs (with_entry entry result) w
  after_entry-RaisesOnly result rest (raised e, w) hs h = h

  apply_fields-RaisesOnly :
      (fs : List InputField) (values : Dict Value) (result : TranslationResult) (w : W)
      → RaisesOnly P (apply_fields translate config fs values result w).0
  unfolding apply_fields
  apply_fields-RaisesOnly [] values result w = tt
  apply_fields-RaisesOnly (f ∷ fs) values result w = elim (Option-cases (wanted f values)) [
    | inl e ↦ rw (e, apply_fields) (apply_fields-RaisesOnly fs values result w)
    | inr (text, e) ↦
        rw (e, apply_fields)
          (after_entry-RaisesOnly result (apply_fields translate config fs values)
            (translate_text translate config text f.id w)
            (λ r w'. apply_fields-RaisesOnly fs values r w')
            (translate_text-RaisesOnly text f.id w))
  ]

  pub apply-RaisesOnly :
      (workflow : WorkflowDefinition) (values : Dict Value) (here : Bool) (w : W)
      → RaisesOnly P (apply translate config workflow values here w).0
  unfolding apply
  apply-RaisesOnly workflow values here w = elim (Bool-cases (is_off config workflow here)) [
    | inl e ↦ rw (e, apply) tt
    | inr e ↦ rw (e, apply) (apply_fields-RaisesOnly workflow.inputs values _ w)
  ]
