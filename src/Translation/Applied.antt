-- ===== src/Translation/Applied.antt =====
-- `apply` (translation/service.py) over a submission, and what the translator may see of it.
use local_canvas.Prelude.{
  String, ◌≡◌, ◌≢◌, refl, sym, ap, ◌∙◌, Bool, true, false, ◌||◌, ◌&&◌, List, [], ◌∷◌, arith, ◌==◌,
  Bool-cases, Option-cases, inl, inr, eq_iff, any, if◌then◌else◌,
}
use local_canvas.Prelude.Dict.{Dict, lookup, lookup-insert}
use local_canvas.Values.{Value, str}
use local_canvas.Workflow.{InputField, WorkflowDefinition}
use local_canvas.Translation.Spans.{Span, split_spans, has_quote}
use local_canvas.Translation.Detect.{detect_source}
use local_canvas.Translation.Service.{
  Config, FieldTranslation, TranslationResult, Attempt, done, raised, Translator, trimmed, core,
  join_cores, is_left, before as put_before, after_answer, rendered, untranslated, render,
  translate_text, wanted, with_entry, after_entry, apply_fields, is_off, apply,
}
use local_canvas.Translation.Partition.{IsGuarded, AllGuarded, split_spans-AllGuarded}
use local_canvas.Translation.Rendering.{translate_text-cases}
use local_canvas.Translation.Trimmed.{has_quote-core}

unprotected :
    (p b : Bool) (text : String) → p || b ≡ false → IsGuarded p text → has_quote text ≡ false
unprotected true b text e h = cc
unprotected false b text e h = h

module _ {E W : Type 0} (f g : Translator E W) (config : Config)
    (agree : (text source : String) (w : W)
      → has_quote text ≡ false
      → f text source config.target w ≡ g text source config.target w) where
  after_answer-agrees :
      (source : String) (span : Span) (rest rest' : W → Attempt E (String × Bool) × W) (w : W)
      → has_quote (core span.text) ≡ false
      → ((w : W) → rest w ≡ rest' w)
      → after_answer
          (trimmed span.text).0
          (trimmed span.text).2
          rest
          (f (core span.text) source config.target w)
        ≡ after_answer
            (trimmed span.text).0
            (trimmed span.text).2
            rest'
            (g (core span.text) source config.target w)
  after_answer-agrees source span rest rest' w clean same =
      let all_same : rest ≡ rest' = λ i w. same w i in
      ap (λ r. after_answer (trimmed span.text).0 (trimmed span.text).2 rest r)
        (agree (core span.text) source w clean)
      ∙ ap
          (λ k.
            after_answer (trimmed span.text).0 (trimmed span.text).2 k
              (g (core span.text) source config.target w))
          all_same

  render-agrees :
      (source : String) (spans : List Span) (w : W)
      → AllGuarded spans
      → render f config source spans w ≡ render g config source spans w
  unfolding render core is_left
  render-agrees source [] w h = refl
  render-agrees source (span ∷ spans) w (h, all) =
      elim (Bool-cases (span.protected || is_left source span.text)) [
        | inl e ↦ simp e (ap (put_before span.text false) (render-agrees source spans w all))
        | inr e ↦ simp e (
            after_answer-agrees source span (render f config source spans)
              (render g config source spans) w
              (has_quote-core span.text
                (unprotected span.protected (is_left source span.text) span.text e h))
              (λ w. render-agrees source spans w all))
      ]

  -- With quoted literals preserved, two translators that agree on the texts without a quote
  -- character make the same of every text: a quoted literal never reaches the translator, and so
  -- cannot change what comes out.
  pub translate_text-agrees :
      config.preserve_quoted_literals ≡ true
      → (text id : String) (w : W)
      → translate_text f config text id w ≡ translate_text g config text id w
  unfolding translate_text
  translate_text-agrees keep text id w = elim (Bool-cases config.enabled) [
    | inr off ↦ simp off
    | inl on ↦
        let spans : List Span = split_spans text config.preserve_quoted_literals in
        let guarded : AllGuarded (split_spans text config.preserve_quoted_literals) =
          rw keep (split_spans-AllGuarded text) in
        elim (Option-cases (detect_source (join_cores spans) config.sources)) [
          | inl e ↦ rw (on, e)
          | inr (source, e) ↦
              rw (on, e)
                (ap
                  (λ r.
                    if source == config.target
                    then (done (untranslated config text id), w)
                    else rendered config text id source r)
                  (render-agrees source spans w guarded))
        ]
  ]

-- A field of that id whose text the workflow lets be translated.
unfoldable pub is_translatable : String → List InputField → Bool
is_translatable k fs = any (λ (f : InputField). f.translatable && f.id == k) fs

-- What the stage leaves of the values: those under the keys of no translatable field.
abbrev pub Untouched : List InputField → Dict Value → TranslationResult → Type 0
Untouched fs values result =
    (k : String) → is_translatable k fs ≡ false → lookup k result.values ≡ lookup k values

abbrev pub HasId : {E : Type 0} → String → Attempt E FieldTranslation → Type 0
HasId id (done entry) = entry.field_id ≡ id
HasId id (raised e) = Unit

abbrev Keeps : {E : Type 0} → String → TranslationResult → Attempt E TranslationResult → Type 0
Keeps k result (done result') = lookup k result'.values ≡ lookup k result.values
Keeps k result (raised e) = Unit

lookup-with_entry :
    (k : String) (entry : FieldTranslation) (result : TranslationResult)
    → entry.field_id ≢ k
    → lookup k (with_entry entry result).values ≡ lookup k result.values
unfolding with_entry
lookup-with_entry k entry result other = elim (Bool-cases entry.applied) [
  | inl e ↦ simp e (
      ground (
        arith,
        lookup-insert entry.field_id k (str entry.effective) result.values,
        eq_iff entry.field_id k,
      ))
  | inr e ↦ simp e
]

Keeps-trans :
    {E : Type 0} (k : String) (before after : TranslationResult) (r : Attempt E TranslationResult)
    → lookup k after.values ≡ lookup k before.values
    → Keeps k after r
    → Keeps k before r
Keeps-trans k before after (done result) e h = h ∙ e
Keeps-trans k before after (raised x) e h = tt

after_entry-Keeps :
    {E W : Type 0} (k id : String) (result : TranslationResult)
    (rest : TranslationResult → W → Attempt E TranslationResult × W)
    (r : Attempt E FieldTranslation × W)
    → id ≢ k
    → HasId id r.0
    → ((result : TranslationResult) (w : W) → Keeps k result (rest result w).0)
    → Keeps k result (after_entry result rest r).0
unfolding after_entry
after_entry-Keeps k id result rest (raised e, w) other same h = tt
after_entry-Keeps k id result rest (done entry, w) other same h =
    Keeps-trans k result (with_entry entry result) (rest (with_entry entry result) w).0
      (lookup-with_entry k entry result (λ e. other (sym same ∙ e))) (h (with_entry entry result) w)

module _ {E W : Type 0} (translate : Translator E W) (config : Config) where
  rendered-HasId :
      (text id source : String) (r : Attempt E (String × Bool) × W)
      → HasId id (rendered config text id source r).0
  unfolding rendered
  rendered-HasId text id source (done (t, a), w) = refl
  rendered-HasId text id source (raised e, w) = tt

  pub translate_text-HasId :
      (text id : String) (w : W) → HasId id (translate_text translate config text id w).0
  unfolding untranslated
  translate_text-HasId text id w = elim (translate_text-cases translate config text id w) [
    | inl e ↦ rw e refl
    | inr (source, e) ↦ rw e (rendered-HasId text id source _)
  ]

  apply_fields-Keeps :
      (k : String) (fs : List InputField) (values : Dict Value) (result : TranslationResult) (w : W)
      → is_translatable k fs ≡ false
      → Keeps k result (apply_fields translate config fs values result w).0
  unfolding apply_fields is_translatable wanted
  apply_fields-Keeps k [] values result w other = refl
  apply_fields-Keeps k (f ∷ fs) values result w other = elim (Option-cases (wanted f values)) [
    | inl e ↦ rw (e, apply_fields) (apply_fields-Keeps k fs values result w (ground arith))
    | inr (text, e) ↦
        rw (e, apply_fields)
          (after_entry-Keeps k f.id result (apply_fields translate config fs values)
            (translate_text translate config text f.id w) (ground (arith, eq_iff f.id k))
            (translate_text-HasId text f.id w)
            (λ result w. apply_fields-Keeps k fs values result w (ground arith)))
  ]

  apply-Keeps :
      (k : String) (workflow : WorkflowDefinition) (values : Dict Value) (wanted_here : Bool)
      (w : W)
      → is_translatable k workflow.inputs ≡ false
      → Keeps k
          (record { values = values; fields = [] })
          (apply translate config workflow values wanted_here w).0
  unfolding apply
  apply-Keeps k workflow values wanted_here w other =
      elim (Bool-cases (is_off config workflow wanted_here)) [
        | inl e ↦ simp e refl
        | inr e ↦ simp e (
            apply_fields-Keeps k workflow.inputs values (record { values = values; fields = [] }) w
              other)
      ]

  -- When the stage succeeds, every value that is not of a translatable field of the workflow goes
  -- to binding as validation gave it, and none appears or goes.
  pub apply-Untouched :
      (workflow : WorkflowDefinition) (values : Dict Value) (wanted_here : Bool) (w w' : W)
      (result : TranslationResult)
      → apply translate config workflow values wanted_here w ≡ (done result, w')
      → Untouched workflow.inputs values result
  apply-Untouched workflow values wanted_here w w' result h k other =
      rw h at (apply-Keeps k workflow values wanted_here w other)
