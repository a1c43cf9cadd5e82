-- ===== src/Definition/Options.antt =====
-- `_parse_options` of gateway/localcanvas_gateway/workflows/definition.py: the options of a select.
use local_canvas.Prelude.{
  ℕ, suc, String, Bool, true, false, Option, none, some, List, [], ◌∷◌, ◌==◌, any, if◌then◌else◌,
}
use local_canvas.Prelude.Int.{show_int}
use local_canvas.Values.{Value, str, int, float, arr, obj, Items, nil, cons, Fields}
use local_canvas.Values.Numbers.{Float, nan, Number, number_lt, number_le, number_eq}
use local_canvas.Values.Numbers
use local_canvas.Workflow.{FieldType, select, OptionValue, text, number, SelectOption}
use local_canvas.Binding.Targets.{find}
use local_canvas.Validation.Checks.{Printing}
use local_canvas.Definition.Notes.{
  Problem, no_options, is_required, must_be_mapping, must_not_be_empty, option_kind, option_label,
  duplicate_option, Found, pure, fail, ◌>>=◌, ◌>>◌, reject_unknown_keys, at_index,
}
use local_canvas.Definition.Head.{non_blank}

-- `a == b`, or the same object: every NaN of a YAML file is the same one.
unfoldable pub same_number : Number → Number → Bool
unfolding number_eq
same_number (Numbers.float nan) (Numbers.float nan) = true
same_number a b = number_eq a b

-- A test of `in`, on the values of options.
unfoldable pub same_option : OptionValue → OptionValue → Bool
unfolding same_number
same_option (text a) (text b) = a == b
same_option (number a) (number b) = same_number a b
same_option a b = false

-- A value that an option may have, but for the empty text.
unfoldable pub option_of : Value → Option OptionValue
option_of (str s) = some (text s)
option_of (int n) = some (number (Numbers.int n))
option_of (float x) = some (number (Numbers.float x))
option_of v = none

unfoldable pub is_empty_text : OptionValue → Bool
is_empty_text (text s) = s == ""
is_empty_text (number n) = false

module _ (p : Printing) (id : String) where
  -- `str(option_value)`
  unfoldable pub option_text : OptionValue → String
  option_text (text s) = s
  option_text (number (Numbers.int n)) = show_int n
  option_text (number (Numbers.float x)) = p.str_float x

  label_in : String → OptionValue → Option Value → Found (Option SelectOption)
  unfolding option_text non_blank
  label_in place value none = pure (some (record { value = value; label = option_text value }))
  label_in place value (some v) = elim (non_blank v) [
    | none ↦ fail (some id) (option_label place) none
    | some label ↦ pure (some (record { value = value; label = label }))
  ]

  -- One entry: the value that is seen from here on, and the option.
  abbrev Entry : Type 0
  Entry = Option OptionValue × Option SelectOption

  abbrev skip : String → (String → Problem) → Found Entry
  skip place problem = fail (some id) (problem place) (none, none)

  value_in : List OptionValue → String → Fields → Option Value → Found Entry
  unfolding label_in option_of is_empty_text same_option
  value_in seen place entry none = skip place is_required
  value_in seen place entry (some v) = elim (option_of v) [
    | none ↦ skip place option_kind
    | some value ↦
        if is_empty_text value
        then skip place must_not_be_empty
        else if any (λ other. same_option other value) seen
        then skip place (λ _. duplicate_option)
        else (label_in place value (find "label" entry) >>= λ option. pure (some value, option))
  ]

  abbrev option_keys : List String
  option_keys = "value" ∷ "label" ∷ []

  parse_option : List OptionValue → String → Value → Found Entry
  unfolding value_in reject_unknown_keys
  parse_option seen place (obj entry) = do
    reject_unknown_keys entry option_keys place (some id)
    value_in seen place entry (find "value" entry)
  parse_option seen place v = skip place must_be_mapping

  with_some {ℓ} : {A : Type ℓ} → Option A → List A → List A
  with_some none xs = xs
  with_some (some x) xs = x ∷ xs

  -- The loop over the entries.
  options_from : List OptionValue → ℕ → Items → Found (List SelectOption)
  unfolding parse_option with_some at_index
  options_from seen index nil = pure []
  options_from seen index (cons v vs) = parse_option seen (at_index "options" index) v >>= λ entry.
      options_from (with_some entry.0 seen) (suc index) vs >>= λ rest. pure (with_some entry.1 rest)

  options_in : Option Value → Found (List SelectOption)
  unfolding options_from
  options_in (some (arr (cons v vs))) = options_from [] 0 (cons v vs)
  options_in v = fail (some id) no_options []

  -- `_parse_options`
  unfoldable pub parse_options : Fields → FieldType → Found (List SelectOption)
  unfolding options_in
  parse_options raw select = options_in (find "options" raw)
  parse_options raw t = pure []
