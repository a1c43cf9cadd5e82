-- ===== src/Definition/Limits.antt =====
-- The bounds of a number and the default of a field, in
-- gateway/localcanvas_gateway/workflows/definition.py.
use local_canvas.Prelude.{
  String, Bool, true, false, Option, none, some, List, [], ◌∷◌, ◌&&◌, any, if◌then◌else◌,
}
use local_canvas.Prelude.Int.{pos}
use local_canvas.Prelude.Text.{is_blank}
use local_canvas.Values.{Value, null, str, int, bool, Fields}
use local_canvas.Values.Numbers.{Float, nan, Number, number_lt, number_le, number_eq}
use local_canvas.Values.Numbers
use local_canvas.Workflow.{FieldType, string, multiline, integer, boolean, select, SelectOption}
use local_canvas.Binding.Targets.{find}
use local_canvas.Definition.Notes.{
  must_be_integer, must_be_number, must_be_positive, min_above_max, default_null, default_empty,
  default_kind, default_no_option, default_below, default_above, Found, pure, fail, noted, ◌>>=◌,
}
use local_canvas.Definition.Options.{same_option, option_of}
use local_canvas.Definition.Hints.{number_of, is_media_type}

-- The dict of `_parse_bounds`.
pub record Bounds : Type 0 where
  pub min : Option Number
  pub max : Option Number
  pub step : Option Number

-- A number of the field's type: a whole one on an integer field.
unfoldable pub number_for : Bool → Value → Option Number
unfolding number_of
number_for true (int n) = some (Numbers.int n)
number_for true v = none
number_for false v = number_of v

bound_in : String → Bool → String → Option Value → Found (Option Number)
unfolding number_for
bound_in id whole key none = pure none
bound_in id whole key (some v) =
    noted (some id) (if whole then must_be_integer key else must_be_number key) (number_for whole v)

positive_step : String → Option Number → Found (Option Number)
unfolding number_le
positive_step id none = pure none
positive_step id (some step) =
    if number_le step (Numbers.int (pos 0))
    then fail (some id) (must_be_positive "step") none
    else pure (some step)

-- `min` and `max`, both dropped when they are in the wrong order.
ordered : String → Option Number → Option Number → Found (Option Number × Option Number)
unfolding number_lt
ordered id (some min) (some max) =
    if number_lt max min
    then fail (some id) min_above_max (none, none)
    else pure (some min, some max)
ordered id min max = pure (min, max)

bounds_in : Bool → Fields → String → Found Bounds
unfolding bound_in positive_step ordered
bounds_in whole raw id = do
  min ← bound_in id whole "min" (find "min" raw)
  max ← bound_in id whole "max" (find "max" raw)
  given ← bound_in id whole "step" (find "step" raw)
  step ← positive_step id given
  range ← ordered id min max
  pure (record { min = range.0; max = range.1; step = step })

-- `_parse_bounds`
unfoldable pub parse_bounds : Fields → FieldType → String → Found Bounds
unfolding bounds_in
parse_bounds raw integer id = bounds_in true raw id
parse_bounds raw FieldType.float id = bounds_in false raw id
parse_bounds raw t id = pure (record { min = none; max = none; step = none })

is_below : Number → Option Number → Bool
unfolding number_lt
is_below n none = false
is_below n (some min) = number_lt n min

is_above : Number → Option Number → Bool
unfolding number_lt
is_above n none = false
is_above n (some max) = number_lt max n

default_number : String → Bool → Bounds → Value → Found (Option Value)
unfolding number_for is_below is_above
default_number id whole b v = elim (number_for whole v) [
  | none ↦ fail (some id) default_kind none
  | some n ↦
      if is_below n b.min
      then fail (some id) default_below none
      else if is_above n b.max
      then fail (some id) default_above none
      else pure (some v)
]

default_choice : String → List SelectOption → Value → Found (Option Value)
unfolding option_of same_option
default_choice id [] v = pure none
default_choice id (o ∷ options) v = elim (option_of v) [
  | none ↦ fail (some id) default_kind none
  | some value ↦
      if any (λ (other : SelectOption). same_option other.value value) (o ∷ options)
      then pure (some v)
      else fail (some id) default_no_option none
]

default_text : String → Value → Found (Option Value)
default_text id (str s) = pure (some (str s))
default_text id v = fail (some id) default_kind none

default_flag : String → Value → Found (Option Value)
default_flag id (bool b) = pure (some (bool b))
default_flag id v = fail (some id) default_kind none

-- A required field's default that is blank.
unfoldable pub is_empty_default : Bool → Value → Bool
is_empty_default required (str s) = required && is_blank s
is_empty_default required v = false

default_for : FieldType → String → Bounds → List SelectOption → Value → Found (Option Value)
unfolding default_text default_flag default_choice default_number
default_for string id b options v = default_text id v
default_for multiline id b options v = default_text id v
default_for boolean id b options v = default_flag id v
default_for select id b options v = default_choice id options v
default_for integer id b options v = default_number id true b v
default_for FieldType.float id b options v = default_number id false b v
default_for t id b options v = pure none

default_in :
    FieldType → String → Bool → Bounds → List SelectOption → Option Value → Found (Option Value)
unfolding default_for is_empty_default
default_in t id required b options none = pure none
default_in t id required b options (some null) = fail (some id) default_null none
default_in t id required b options (some v) =
    if is_empty_default required v
    then fail (some id) default_empty none
    else default_for t id b options v

-- `_parse_default`
unfoldable pub parse_default :
    Fields → FieldType → String → Bool → Bounds → List SelectOption → Found (Option Value)
unfolding default_in is_media_type
parse_default raw t id required b options =
    if is_media_type t then pure none else default_in t id required b options (find "default" raw)
