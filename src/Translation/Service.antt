-- ===== src/Translation/Service.antt =====
-- `_trimmed`, `translate_text` and `apply` of gateway/localcanvas_gateway/translation/service.py.
-- The translator is a parameter, with a state: it answers a text or raises.
use local_canvas.Prelude.{
  String, ◌<>◌, Bool, true, false, not, Option, none, some, List, [], ◌∷◌, ◌++◌, ◌==◌, ◌&&◌, ◌||◌,
  if◌then◌else◌,
}
use local_canvas.Prelude.Text.{is_space}
use local_canvas.Prelude.Dict.{Dict, lookup, insert}
use local_canvas.Values.{Value, str}
use local_canvas.Workflow.{InputField, WorkflowDefinition, auto, off}
use local_canvas.Translation.Spans.{Span, split_spans}
use local_canvas.Translation.Detect.{has_source_script, detect_source}

pub record Config : Type 0 where
  pub enabled : Bool
  pub sources : List String
  pub target : String
  pub preserve_quoted_literals : Bool

pub record FieldTranslation : Type 0 where
  pub field_id : String
  pub original : String
  pub effective : String
  pub applied : Bool
  pub source : Option String
  pub target : String

pub record TranslationResult : Type 0 where
  pub values : Dict Value
  pub fields : List FieldTranslation

unfoldable pub is_nothing : String → Bool
is_nothing String.[] = true
is_nothing (String.◌∷◌ c s) = false

-- The leading whitespace, and `text.lstrip()`.
unfoldable pub split_start : String → String × String
split_start String.[] = (String.[], String.[])
split_start (String.◌∷◌ c s) =
    let (lead, rest) = split_start s in
    if is_space c then (String.◌∷◌ c lead, rest) else (String.[], String.◌∷◌ c s)

-- `text.rstrip()`, and the trailing whitespace.
unfoldable pub split_end : String → String × String
unfolding is_nothing
split_end String.[] = (String.[], String.[])
split_end (String.◌∷◌ c s) =
    let (kept, trail) = split_end s in
    if is_space c && is_nothing kept
    then (String.[], String.◌∷◌ c trail)
    else (String.◌∷◌ c kept, trail)

-- `text.strip()`
unfoldable pub strip : String → String
unfolding split_start split_end
strip text = (split_end (split_start text).1).0

-- `_trimmed`: leading whitespace, core, trailing whitespace.
unfoldable pub trimmed : String → String × String × String
unfolding strip
trimmed text =
    if is_nothing (strip text)
    then (text, String.[], String.[])
    else ((split_start text).0, strip text, (split_end text).1)

-- The text in the middle.
unfoldable pub core : String → String
core text = (trimmed text).1

-- `"".join(cores)`
unfoldable pub join_cores : List Span → String
unfolding core
join_cores [] = String.[]
join_cores (span ∷ spans) =
    if span.protected then join_cores spans else core span.text <> join_cores spans

pub data Attempt (E A : Type 0) : Type 0 where
  done : A → Attempt E A
  raised : E → Attempt E A

-- `translate(core, source, target)`, which answers a text or raises.
abbrev pub Translator : Type 0 → Type 0 → Type 0
Translator E W = String → String → String → W → Attempt E String × W

-- One piece of the answer, then the pieces of the spans that follow.
unfoldable pub before :
    {E W : Type 0} → String → Bool → Attempt E (String × Bool) × W → Attempt E (String × Bool) × W
before piece new (done (text, applied), w) = (done (piece <> text, new || applied), w)
before piece new (raised e, w) = (raised e, w)

-- What the translator answered, between the whitespace that was taken off.
unfoldable pub after_answer :
    {E W : Type 0}
    → String
    → String
    → (W → Attempt E (String × Bool) × W)
    → Attempt E String × W
    → Attempt E (String × Bool) × W
unfolding before
after_answer lead trail rest (done text, w) = before (lead <> text <> trail) true (rest w)
after_answer lead trail rest (raised e, w) = (raised e, w)

-- A fragment that is left as it is: no core, or none of the source's script.
unfoldable pub is_left : String → String → Bool
is_left source text = is_nothing (core text) || not (has_source_script (core text) source)

unfoldable pub untranslated : Config → String → String → FieldTranslation
untranslated config text id = record {
  field_id = id;
  original = text;
  effective = text;
  applied = false;
  source = none;
  target = config.target;
}

-- The entry from the pieces that the loop made.
unfoldable pub rendered :
    {E W : Type 0}
    → Config
    → String
    → String
    → String
    → Attempt E (String × Bool) × W
    → Attempt E FieldTranslation × W
rendered config text id source (raised e, w) = (raised e, w)
rendered config text id source (done (effective, applied), w) = (
  done (record {
    field_id = id;
    original = text;
    effective = effective;
    applied = applied;
    source = if applied then some source else none;
    target = config.target;
  }),
  w,
)

module _ {E W : Type 0} (translate : Translator E W) (config : Config) where
  -- The loop over the spans: the pieces, joined, and whether one was translated.
  unfoldable pub render : String → List Span → W → Attempt E (String × Bool) × W
  unfolding is_left after_answer before trimmed
  render source [] w = (done (String.[], false), w)
  render source (span ∷ spans) w =
      let rest = render source spans in
      if span.protected || is_left source span.text
      then before span.text false (rest w)
      else (let (lead, middle, trail) = trimmed span.text in
          after_answer lead trail rest (translate middle source config.target w))

  -- `translate_text`
  unfoldable pub translate_text : String → String → W → Attempt E FieldTranslation × W
  unfolding render rendered untranslated join_cores
  translate_text text id w =
      let spans = split_spans text config.preserve_quoted_literals in
      if config.enabled
      then (elim (detect_source (join_cores spans) config.sources) [
        | none ↦ (done (untranslated config text id), w)
        | some source ↦
            if source == config.target
            then (done (untranslated config text id), w)
            else rendered config text id source (render source spans w)
      ])
      else (done (untranslated config text id), w)

-- The text of a translatable field that has one in the values.
unfoldable pub text_of : Option Value → Option String
text_of (some (str text)) = some text
text_of _ = none

unfoldable pub wanted : InputField → Dict Value → Option String
unfolding text_of
wanted f values = if f.translatable then text_of (lookup f.id values) else none

-- `entries.append(entry)`, and the translated text in the values where it was applied.
unfoldable pub with_entry : FieldTranslation → TranslationResult → TranslationResult
with_entry entry result = record {
  values =
      if entry.applied
      then insert entry.field_id (str entry.effective) result.values
      else result.values;
  fields = result.fields ++ entry ∷ [];
}

unfoldable pub after_entry :
    {E W : Type 0}
    → TranslationResult
    → (TranslationResult → W → Attempt E TranslationResult × W)
    → Attempt E FieldTranslation × W
    → Attempt E TranslationResult × W
unfolding with_entry
after_entry result rest (done entry, w) = rest (with_entry entry result) w
after_entry result rest (raised e, w) = (raised e, w)

-- The stage is off: for this submission, for this PC or for this workflow.
unfoldable pub is_off : Config → WorkflowDefinition → Bool → Bool
is_off config workflow wanted_here =
    not wanted_here
    || not config.enabled
    || (elim workflow.translation_mode [ off ↦ true | auto ↦ false ])

module _ {E W : Type 0} (translate : Translator E W) (config : Config) where
  -- The loop over the fields.
  unfoldable pub apply_fields :
      List InputField → Dict Value → TranslationResult → W → Attempt E TranslationResult × W
  unfolding wanted after_entry
  apply_fields [] values result w = (done result, w)
  apply_fields (f ∷ fs) values result w = elim (wanted f values) [
    | none ↦ apply_fields fs values result w
    | some text ↦
        after_entry result (apply_fields fs values) (translate_text translate config text f.id w)
  ]

  -- `apply`
  unfoldable pub apply :
      WorkflowDefinition → Dict Value → Bool → W → Attempt E TranslationResult × W
  unfolding apply_fields is_off
  apply workflow values wanted_here w =
      let result : TranslationResult = record { values = values; fields = [] } in
      if is_off config workflow wanted_here
      then (done result, w)
      else apply_fields workflow.inputs values result w
