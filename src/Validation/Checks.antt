-- ===== src/Validation/Checks.antt =====
-- The checks of one value in gateway/localcanvas_gateway/validation.py.
use local_canvas.Prelude.{
  String, ◌<>◌, Bool, true, false, not, Option, none, some, List, [], ◌∷◌, map, ◌==◌, ◌&&◌,
  if◌then◌else◌,
}
use local_canvas.Prelude.Int.{show_int, eqb_ℤ}
use local_canvas.Prelude.Text.{is_blank, join_texts}
use local_canvas.Values.{Value, null, bool, int, float, str, obj, end, field}
use local_canvas.Values.Numbers.{
  Float, Number, float_eq, number_lt, float_lt, is_integer, truncate, float_of_int, nan, infinity,
  dyadic,
}
use local_canvas.Values.Numbers
use local_canvas.Workflow.{FieldType, OptionValue, text, number, SelectOption, InputField}

-- `ValidationFailure`
pub record Failure : Type 0 where
  pub field : String
  pub code : String
  pub message : String

-- A check returns, raises `ValidationFailure`, or raises the `OverflowError` of `float(value)`.
pub data Checked {ℓ} (A : Type ℓ) : Type ℓ where
  valid : A → Checked A
  refused : Failure → Checked A
  overflow : Checked A

infixl 5 ◌>>=◌
abbrev pub ◌>>=◌ {ℓ κ} : {A : Type ℓ} {B : Type κ} → Checked A → (A → Checked B) → Checked B
valid a >>= f = f a
refused failure >>= f = refused failure
overflow >>= f = overflow

infixl 5 ◌>>◌
abbrev pub ◌>>◌ {ℓ} : {B : Type ℓ} → Checked (Unit {0}) → Checked B → Checked B
m >> k = m >>= λ _. k

-- How Python's `repr` prints a text, and `str` a float.
pub record Printing : Type 0 where
  pub repr_text : String → String
  pub str_float : Float → String

unfoldable pub fails {ℓ} : {A : Type ℓ} → InputField → String → String → Checked A
fails f code message = refused (record { field = f.id; code = code; message = message })

-- `_check_text`
unfoldable pub check_text : InputField → Value → Checked Value
unfolding fails
check_text f (str s) =
    if f.required && is_blank s
    then fails f "missing_field" (f.label <> " is required.")
    else valid (str s)
check_text f v = fails f "invalid_input" (f.label <> " must be text.")

-- `_check_boolean`
unfoldable pub check_boolean : InputField → Value → Checked Value
unfolding fails
check_boolean f (bool b) = valid (bool b)
check_boolean f v = fails f "invalid_input" (f.label <> " must be on or off.")

-- `type(candidate) is type(value) and candidate == value`
unfoldable pub is_option : OptionValue → Value → Bool
unfolding float_eq
is_option (text a) (str b) = a == b
is_option (number (Numbers.int a)) (int b) = eqb_ℤ a b
is_option (number (Numbers.float a)) (float b) = float_eq a b
is_option o v = false

unfoldable pub is_choice : List SelectOption → Value → Bool
unfolding is_option
is_choice [] v = false
is_choice (o ∷ options) v = if is_option o.value v then true else is_choice options v

-- `_check_select`
unfoldable pub check_select : InputField → Value → Checked Value
unfolding is_choice fails
check_select f v =
    if is_choice f.options v
    then valid v
    else fails f "invalid_choice" (
        f.label
        <> " must be one of: "
        <> join_texts ", " (map (λ (o : SelectOption). o.label) f.options)
        <> ".")

media_kind : FieldType → String
media_kind FieldType.image = "an image"
media_kind _ = "a video"

-- `_check_media`: exactly `{"media_id": <text>}`, the text not blank.
unfoldable pub check_media : InputField → Value → Checked Value
unfolding fails media_kind
check_media f (obj (field key (str media_id) end)) =
    if key == "media_id" && not (is_blank media_id)
    then valid (obj (field key (str media_id) end))
    else fails f "invalid_input"
        (f.label <> " needs " <> media_kind f.field_type <> " you send first. Choose it again.")
check_media f v =
    fails f "invalid_input"
      (f.label <> " needs " <> media_kind f.field_type <> " you send first. Choose it again.")

number_word : Bool → String
number_word true = "whole number"
number_word false = "number"

-- The head of `_check_number`: a bool is no number, a float in a whole field must be an integer,
-- and an int in the other fields is rounded to a double.
unfoldable pub as_number : InputField → Bool → Value → Checked Number
unfolding fails number_word
as_number f true (int n) = valid (Numbers.int n)
as_number f false (int n) = elim (float_of_int n) [
  | none ↦ overflow
  | some x ↦ valid (Numbers.float x)
]
as_number f true (float x) =
    if is_integer x
    then valid (Numbers.int (truncate x))
    else fails f "invalid_input" (f.label <> " must be a whole number.")
as_number f false (float x) = valid (Numbers.float x)
as_number f whole v = fails f "invalid_input" (f.label <> " must be a " <> number_word whole <> ".")

unfoldable pub number_value : Number → Value
number_value (Numbers.int n) = int n
number_value (Numbers.float x) = float x

-- `_number`
unfoldable pub number_text : Printing → Number → Bool → Checked String
unfolding show_int
number_text p (Numbers.int n) true = valid (show_int n)
number_text p (Numbers.float x) true = valid (show_int (truncate x))
number_text p (Numbers.int n) false = elim (float_of_int n) [
  | none ↦ overflow
  | some _ ↦ valid (show_int n)
]
number_text p (Numbers.float x) false =
    valid (if is_integer x then show_int (truncate x) else p.str_float x)

-- `value < field.min`
unfoldable pub below : Number → Option Number → Bool
below n none = false
below n (some min) = number_lt n min

-- `value > field.max`
unfoldable pub above : Number → Option Number → Bool
above n none = false
above n (some max) = number_lt max n

module _ (p : Printing) where
  unfoldable pub out_of_range : InputField → Bool → String → Option Number → Checked Value
  unfolding number_text fails
  out_of_range f whole phrase none = fails f "out_of_range" (f.label <> phrase)
  out_of_range f whole phrase (some bound) = do
    shown ← number_text p bound whole
    fails f "out_of_range" (f.label <> phrase <> shown <> ".")

  -- The range tests of `_check_number`.
  unfoldable pub in_range : InputField → Bool → Number → Checked Value
  unfolding out_of_range
  in_range f whole n =
      if below n f.min
      then out_of_range f whole " must be at least " f.min
      else if above n f.max
      then out_of_range f whole " must be at most " f.max
      else valid (number_value n)

  -- `_check_number`
  unfoldable pub check_number : InputField → Bool → Value → Checked Value
  check_number f whole v = do n ← as_number f whole v; in_range f whole n

  unfoldable pub check_typed : FieldType → InputField → Value → Checked Value
  unfolding check_number
  check_typed FieldType.string f v = check_text f v
  check_typed FieldType.multiline f v = check_text f v
  check_typed FieldType.integer f v = check_number f true v
  check_typed FieldType.float f v = check_number f false v
  check_typed FieldType.boolean f v = check_boolean f v
  check_typed FieldType.select f v = check_select f v
  check_typed FieldType.image f v = check_media f v
  check_typed FieldType.video f v = check_media f v

  -- `_check`
  unfoldable pub check : InputField → Value → Checked Value
  unfolding check_typed fails
  check f null =
      fails f (if f.required then "missing_field" else "invalid_input")
        (f.label <> " needs a value.")
  check f v = check_typed f.field_type f v
