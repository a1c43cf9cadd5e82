-- ===== src/Translation/Examples.antt =====
-- A prompt with a quoted literal, and a submission of it, through the translation stage.
use local_canvas.Prelude.{ℕ, String, ◌≡◌, refl, true, false, none, some, [], ◌∷◌, if◌then◌else◌}
use local_canvas.Prelude.Dict.{Dict, lookup, insert}
use local_canvas.Prelude.Text.{is_space}
use local_canvas.Translation.Detect.{detect_source, contains}
use local_canvas.Values.{Value, str, end}
use local_canvas.Workflow.{
  Section, no_presentation, FieldType, InputField, WorkflowDefinition, auto,
}
use local_canvas.Translation.Spans.{split_spans, join_spans, is_quote, is_escape, has_quote}
use local_canvas.Translation.Service.{
  Config, FieldTranslation, TranslationResult, done, Translator, translate_text, apply,
}
use local_canvas.Translation.Partition.{join-split_spans, AllGuarded, split_spans-AllGuarded}
use local_canvas.Translation.Rendering.{
  IsTranslation, translate_text-IsTranslation, translate_text-passthrough, translate_text-identity,
}
use local_canvas.Translation.Applied.{Untouched, translate_text-agrees, apply-Untouched}

abbrev sign : String
sign = "кот с \"надписью\" sign"

abbrev english : String
english = "a cat"

abbrev config : Config
config = record {
  enabled = true;
  sources = "ru" ∷ "ja" ∷ [];
  target = "en";
  preserve_quoted_literals = true;
}

-- A translator that knows one sentence, and one that answers each text with itself.
abbrev known : Translator String ℕ
known text source target w = (done "a cat with", w)

abbrev echo : Translator String ℕ
echo text source target w = (done text, w)

-- One that differs from the first only on texts with a quote.
abbrev careless : Translator String ℕ
careless text source target w =
    if has_quote text then (done "a note", w) else (done "a cat with", w)

known_is_careless :
    (text source : String) (w : ℕ)
    → has_quote text ≡ false
    → known text source config.target w ≡ careless text source config.target w
known_is_careless text source w clean = simp clean

abbrev prompt : InputField
prompt = record {
  id = "prompt";
  label = "Prompt";
  field_type = FieldType.string;
  required = true;
  section = Section.main;
  default = none;
  help = none;
  step = none;
  role = none;
  pair = none;
  duration = none;
  min = none;
  max = none;
  options = [];
  translatable = true;
}

abbrev flow : WorkflowDefinition
flow = record {
  id = "flow";
  name = "Flow";
  presentation = no_presentation;
  inputs = prompt ∷ [];
  bindings = [];
  graph = end;
  translation_mode = auto;
}

abbrev values : Dict Value
values = ("prompt", str sign) ∷ ("checkpoint", str "модель") ∷ []

abbrev kept_entry : FieldTranslation
kept_entry = record {
  field_id = "prompt";
  original = english;
  effective = english;
  applied = false;
  source = none;
  target = "en";
}

abbrev echoed_entry : FieldTranslation
echoed_entry = record {
  field_id = "prompt";
  original = sign;
  effective = sign;
  applied = true;
  source = some "ru";
  target = "en";
}

abbrev known_entry : FieldTranslation
known_entry = record echoed_entry { effective = "a cat with \"надписью\" sign" }

abbrev translated : TranslationResult
translated = record {
  values = ("prompt", str "a cat with \"надписью\" sign") ∷ ("checkpoint", str "модель") ∷ [];
  fields = known_entry ∷ [];
}

english_is_kept : translate_text known config english "prompt" 0 ≡ (done kept_entry, 0)
unfolding translate_text detect_source contains split_spans is_quote is_space is_escape
english_is_kept = refl

sign_is_echoed : translate_text echo config sign "prompt" 0 ≡ (done echoed_entry, 0)
unfolding translate_text detect_source contains split_spans is_quote is_space is_escape
sign_is_echoed = refl

values_are_translated : apply known config flow values true 0 ≡ (done translated, 0)
unfolding apply lookup insert translate_text detect_source contains split_spans is_quote is_space
    is_escape
values_are_translated = refl

join-split_spans_example : join_spans (split_spans sign true) ≡ sign
join-split_spans_example = join-split_spans sign true

split_spans-AllGuarded_example : AllGuarded (split_spans sign true)
split_spans-AllGuarded_example = split_spans-AllGuarded sign

translate_text-IsTranslation_example :
    IsTranslation known config sign (translate_text known config sign "prompt" 0).0
translate_text-IsTranslation_example = translate_text-IsTranslation known config sign "prompt" 0

translate_text-passthrough_example : kept_entry.effective ≡ english
translate_text-passthrough_example =
    translate_text-passthrough known config english "prompt" 0 0 kept_entry english_is_kept refl

echo_answers :
    (text source : String) (w w' : ℕ) (answer : String)
    → echo text source config.target w ≡ (done answer, w')
    → answer ≡ text
echo_answers text source w w' answer h = cc

translate_text-identity_example : echoed_entry.effective ≡ sign
translate_text-identity_example =
    translate_text-identity echo config echo_answers sign "prompt" 0 0 echoed_entry sign_is_echoed

translate_text-agrees_example :
    translate_text known config sign "prompt" 0 ≡ translate_text careless config sign "prompt" 0
translate_text-agrees_example =
    translate_text-agrees known careless config known_is_careless refl sign "prompt" 0

apply-Untouched_example : Untouched flow.inputs values translated
apply-Untouched_example =
    apply-Untouched known config flow values true 0 0 translated values_are_translated
