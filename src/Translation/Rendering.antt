-- ===== src/Translation/Rendering.antt =====
-- What `translate_text` (translation/service.py) makes of a text, span by span.
use local_canvas.Prelude.{
  String, ◌<>◌, ◌≡◌, refl, ap, ◌∙◌, Bool, true, false, ◌||◌, List, [], ◌∷◌, arith, ◌==◌, Bool-cases,
  Option-cases, inl, inr, ◌⊎◌,
}
use local_canvas.Translation.Spans.{Span, split_spans, join_spans}
use local_canvas.Translation.Detect.{has_source_script, detect_source}
use local_canvas.Translation.Service.{
  Config, FieldTranslation, Attempt, done, raised, Translator, trimmed, core, join_cores, is_left,
  before, after_answer, rendered, untranslated, render, translate_text,
}
use local_canvas.Translation.Partition.{join-split_spans}
use local_canvas.Translation.Trimmed.{join-trimmed}

module _ {E W : Type 0} (translate : Translator E W) (target : String) where
  -- A text made of the spans of another: each span stands in it as it was, or, where it is not
  -- protected and has the source's script, as what the translator answered for its core, with the
  -- span's own whitespace around it. The Boolean says whether one was translated.
  pub data Rendered (source : String) : List Span → String → Bool → Type 0 where
    ends : Rendered source [] String.[] false
    copies :
        (span : Span) {spans : List Span} {text : String} {applied : Bool}
        → Rendered source spans text applied
        → Rendered source (span ∷ spans) (span.text <> text) applied
    translates :
        (span : Span) {spans : List Span} {text : String} {applied : Bool} (answer : String)
        (w w' : W)
        → span.protected ≡ false
        → has_source_script (core span.text) source ≡ true
        → translate (core span.text) source target w ≡ (done answer, w')
        → Rendered source spans text applied
        → Rendered source
            (span ∷ spans)
            (((trimmed span.text).0 <> (answer <> (trimmed span.text).2)) <> text)
            true

  copied : (source : String) (spans : List Span) → Rendered source spans (join_spans spans) false
  unfolding join_spans
  copied source [] = ends
  copied source (span ∷ spans) = copies span (copied source spans)

  Rendered-join :
      {source : String} {spans : List Span} {text : String} {applied : Bool}
      → Rendered source spans text applied
      → applied ≡ false
      → text ≡ join_spans spans
  unfolding join_spans
  Rendered-join ends h = refl
  Rendered-join (copies span r) h = ap (λ t. span.text <> t) (Rendered-join r h)
  Rendered-join (translates span answer w w' p s e r) h = cc

  Rendered-identity :
      ((text source : String) (w w' : W) (answer : String)
        → translate text source target w ≡ (done answer, w')
        → answer ≡ text)
      → {source : String} {spans : List Span} {text : String} {applied : Bool}
      → Rendered source spans text applied
      → text ≡ join_spans spans
  unfolding join_spans core
  Rendered-identity same ends = refl
  Rendered-identity same (copies span r) = ap (λ t. span.text <> t) (Rendered-identity same r)
  Rendered-identity same {source = source} (translates span {text = text} answer w w' p s e r) =
      ap (λ a. ((trimmed span.text).0 <> (a <> (trimmed span.text).2)) <> text)
        (same (core span.text) source w w' answer e)
      ∙ ap (λ t. t <> text) (join-trimmed span.text)
      ∙ ap (λ t. span.text <> t) (Rendered-identity same r)

  -- What the loop over the spans gives: a text made of them, or what the translator raised.
  abbrev pub IsRendered : String → List Span → Attempt E (String × Bool) → Type 0
  IsRendered source spans (done (text, applied)) = Rendered source spans text applied
  IsRendered source spans (raised e) =
      (part : String) × (w : W) × (w' : W) × (translate part source target w ≡ (raised e, w'))

  before-copies :
      (source : String) (span : Span) (spans : List Span) (r : Attempt E (String × Bool) × W)
      → IsRendered source spans r.0
      → IsRendered source (span ∷ spans) (before span.text false r).0
  unfolding before
  before-copies source span spans (done (text, applied), w) h = copies span h
  before-copies source span spans (raised e, w) h = h

  before-translates :
      (source : String) (span : Span) (spans : List Span) (answer : String) (w0 w1 : W)
      (r : Attempt E (String × Bool) × W)
      → span.protected ≡ false
      → has_source_script (core span.text) source ≡ true
      → translate (core span.text) source target w0 ≡ (done answer, w1)
      → IsRendered source spans r.0
      → IsRendered source
          (span ∷ spans)
          (before ((trimmed span.text).0 <> (answer <> (trimmed span.text).2)) true r).0
  unfolding before
  before-translates source span spans answer w0 w1 (done (text, applied), w) p s e h =
      translates span answer w0 w1 p s e h
  before-translates source span spans answer w0 w1 (raised x, w) p s e h = h

  after_answer-Rendered :
      (source : String) (span : Span) (spans : List Span) (w : W)
      (rest : W → Attempt E (String × Bool) × W) (r : Attempt E String × W)
      → span.protected ≡ false
      → has_source_script (core span.text) source ≡ true
      → translate (core span.text) source target w ≡ r
      → ((w : W) → IsRendered source spans (rest w).0)
      → IsRendered source
          (span ∷ spans)
          (after_answer (trimmed span.text).0 (trimmed span.text).2 rest r).0
  unfolding after_answer
  after_answer-Rendered source span spans w rest (done answer, w') p s e h =
      before-translates source span spans answer w w' (rest w') p s e (h w')
  after_answer-Rendered source span spans w rest (raised x, w') p s e h = (core span.text, w, w', e)

module _ {E W : Type 0} (translate : Translator E W) (config : Config) where
  render-Rendered :
      (source : String) (spans : List Span) (w : W)
      → IsRendered translate config.target source spans (render translate config source spans w).0
  unfolding render is_left core
  render-Rendered source [] w = ends
  render-Rendered source (span ∷ spans) w =
      elim (Bool-cases (span.protected || is_left source span.text)) [
        | inl e ↦ simp e (
            before-copies translate config.target source span spans
              (render translate config source spans w) (render-Rendered source spans w))
        | inr e ↦ simp e (
            after_answer-Rendered translate config.target source span spans w
              (render translate config source spans)
              (translate (core span.text) source config.target w) (ground arith) (ground arith) refl
              (render-Rendered source spans))
      ]

  -- An entry for the text, made of the text's spans; or what the translator raised.
  abbrev pub IsTranslation : String → Attempt E FieldTranslation → Type 0
  IsTranslation text (done entry) =
      (entry.original ≡ text)
      × ((source : String) × Rendered translate config.target source
            (split_spans text config.preserve_quoted_literals) entry.effective entry.applied)
  IsTranslation text (raised e) =
      (part : String) × (source : String) × (w : W) × (w' : W) × (translate part source
          config.target w
        ≡ (raised e, w'))

  untranslated-IsTranslation :
      (text id : String) → IsTranslation text (done (untranslated config text id))
  unfolding untranslated
  untranslated-IsTranslation text id = (
    refl,
    (
      "",
      rw (join-split_spans text config.preserve_quoted_literals) at
          (copied translate config.target "" (split_spans text config.preserve_quoted_literals)),
    ),
  )

  rendered-IsTranslation :
      (text id source : String) (r : Attempt E (String × Bool) × W)
      → IsRendered translate config.target source
          (split_spans text config.preserve_quoted_literals)
          r.0
      → IsTranslation text (rendered config text id source r).0
  unfolding rendered
  rendered-IsTranslation text id source (done (t, a), w) h = (refl, (source, h))
  rendered-IsTranslation text id source (raised e, w) (part, w0, w1, h) = (part, source, w0, w1, h)

  pub translate_text-cases :
      (text id : String) (w : W)
      → (translate_text translate config text id w ≡ (done (untranslated config text id), w))
        ⊎ ((source : String) × (translate_text translate config text id w
              ≡ rendered config text id source (
                  render translate config source
                    (split_spans text config.preserve_quoted_literals)
                    w)))
  unfolding translate_text
  translate_text-cases text id w = elim (Bool-cases config.enabled) [
    | inr off ↦ inl (simp off)
    | inl on ↦
        elim (Option-cases (
          detect_source (join_cores (split_spans text config.preserve_quoted_literals))
            config.sources)) [
              | inl e ↦ inl (rw (e, on, translate_text))
              | inr (source, e) ↦ elim (Bool-cases (source == config.target)) [
                | inl same ↦ inl (rw (e, on, same, translate_text))
                | inr differs ↦ inr (source, rw (e, on, differs, translate_text))
              ]
            ]
  ]

  -- Every answer of the pipeline is made of the spans of the text, in order: a protected one as it
  -- was, another as it was or with the translator's answer for its core and its own whitespace
  -- around it. Nothing is lost, moved or added; what is raised is what the translator raised.
  pub translate_text-IsTranslation :
      (text id : String) (w : W) → IsTranslation text (translate_text translate config text id w).0
  translate_text-IsTranslation text id w = elim (translate_text-cases text id w) [
    | inl e ↦ rw e (untranslated-IsTranslation text id)
    | inr (source, e) ↦ rw e (
        rendered-IsTranslation text id source
          (render translate config source (split_spans text config.preserve_quoted_literals) w)
          (render-Rendered source (split_spans text config.preserve_quoted_literals) w))
  ]

  -- An entry that says no translation was applied has the original text as the effective one, the
  -- same to the byte.
  pub translate_text-passthrough :
      (text id : String) (w w' : W) (entry : FieldTranslation)
      → translate_text translate config text id w ≡ (done entry, w')
      → entry.applied ≡ false
      → entry.effective ≡ text
  translate_text-passthrough text id w w' entry h kept =
      let (_, (source, r)) = rw h at (translate_text-IsTranslation text id w) in
      Rendered-join translate config.target r kept
      ∙ join-split_spans text config.preserve_quoted_literals

  -- With a translator that answers each text with itself, the effective text is the original: what
  -- the pipeline takes apart around the translator it puts together again.
  pub translate_text-identity :
      ((part source : String) (w w' : W) (answer : String)
        → translate part source config.target w ≡ (done answer, w')
        → answer ≡ part)
      → (text id : String) (w w' : W) (entry : FieldTranslation)
      → translate_text translate config text id w ≡ (done entry, w')
      → entry.effective ≡ text
  translate_text-identity same text id w w' entry h =
      let (_, (source, r)) = rw h at (translate_text-IsTranslation text id w) in
      Rendered-identity translate config.target same r
      ∙ join-split_spans text config.preserve_quoted_literals
