-- ===== src/Definition/Hints.antt =====
-- The parts of a field that say how it is shown, in
-- gateway/localcanvas_gateway/workflows/definition.py: its type, flags, section, help, the keys that
-- its type may not have, its role, its pair and its duration.
use local_canvas.Prelude.{
  String, Bool, true, false, not, Option, none, some, List, [], ◌∷◌, ◌==◌, ◌&&◌, any, map, filter,
  if◌then◌else◌,
}
use local_canvas.Prelude.Int.{pos}
use local_canvas.Values.{Value, null, str, int, float, bool, obj, Fields, has_field}
use local_canvas.Values.Numbers.{Float, nan, infinity, dyadic, Number, number_le, float_of_int}
use local_canvas.Values.Numbers
use local_canvas.Workflow.{
  FieldType, string, multiline, integer, boolean, select, image, video, Section, main, advanced,
  FieldRole, seed, FieldPair, width, height,
}
use local_canvas.Binding.Targets.{find}
use local_canvas.Translation.Service.{strip}
use local_canvas.Definition.Notes.{
  Note, is_required, must_be_text, must_be_mapping, must_be_boolean, bad_section, bad_role,
  bad_pair, unknown_type, not_valid_for, media_default, must_be_number, must_be_finite,
  must_be_positive, raised, Found, pure, fail, noted, ◌>>◌, reject_unknown_keys,
}

-- `FieldType(value)`; `none` is ValueError.
unfoldable pub type_named : String → Option FieldType
type_named name =
    if name == "string"
    then some string
    else if name == "multiline"
    then some multiline
    else if name == "integer"
    then some integer
    else if name == "float"
    then some FieldType.float
    else if name == "boolean"
    then some boolean
    else if name == "select"
    then some select
    else if name == "image"
    then some image
    else if name == "video"
    then some video
    else none

unfoldable pub type_in : String → Option Value → Found (Option FieldType)
unfolding type_named
type_in id none = fail (some id) (is_required "type") none
type_in id (some null) = fail (some id) (is_required "type") none
type_in id (some (str name)) = noted (some id) (unknown_type name) (type_named name)
type_in id (some v) = fail (some id) (must_be_text "type") none

-- `_parse_type`
unfoldable pub parse_type : Fields → String → Found (Option FieldType)
unfolding type_in
parse_type raw id = type_in id (find "type" raw)

flag_in : String → String → Bool → Option Value → Found Bool
flag_in key id default none = pure default
flag_in key id default (some (bool b)) = pure b
flag_in key id default (some v) = fail (some id) (must_be_boolean key) default

-- `_parse_flag`
unfoldable pub parse_flag : Fields → String → String → Bool → Found Bool
unfolding flag_in
parse_flag raw key id default = flag_in key id default (find key raw)

section_in : String → Option Value → Found Section
section_in id none = pure main
section_in id (some (str s)) =
    if s == "main"
    then pure main
    else if s == "advanced"
    then pure advanced
    else fail (some id) (bad_section s) main
section_in id (some v) = fail (some id) (bad_section "") main

-- `_parse_section`
unfoldable pub parse_section : Fields → String → Found Section
unfolding section_in
parse_section raw id = section_in id (find "section" raw)

help_in : String → Option Value → Found (Option String)
unfolding strip
help_in id none = pure none
help_in id (some (str s)) = pure (some (strip s))
help_in id (some v) = fail (some id) (must_be_text "help") none

-- `_parse_help`
unfoldable pub parse_help : Fields → String → Found (Option String)
unfolding help_in
parse_help raw id = help_in id (find "help" raw)

-- `_TYPE_EXTRAS`
unfoldable pub type_extras : FieldType → List String
type_extras string = "translatable" ∷ []
type_extras multiline = "translatable" ∷ []
type_extras integer = "min" ∷ "max" ∷ "step" ∷ "role" ∷ "pair" ∷ "duration" ∷ []
type_extras FieldType.float = "min" ∷ "max" ∷ "step" ∷ []
type_extras boolean = []
type_extras select = "options" ∷ []
type_extras image = []
type_extras video = []

-- `_TYPE_SPECIFIC_KEYS`
abbrev type_specific_keys : List String
type_specific_keys =
    "min" ∷ "max" ∷ "step" ∷ "options" ∷ "role" ∷ "pair" ∷ "duration" ∷ "translatable" ∷ []

-- `field_type in MEDIA_FIELD_TYPES`
unfoldable pub is_media_type : FieldType → Bool
is_media_type image = true
is_media_type video = true
is_media_type t = false

-- `field_type in _TEXT_FIELD_TYPES`
unfoldable pub is_text_type : FieldType → Bool
is_text_type string = true
is_text_type multiline = true
is_text_type t = false

-- The type-specific keys that the field has and its type does not.
unfoldable pub foreign_keys : Fields → FieldType → List String
unfolding type_extras
foreign_keys raw t =
    filter (λ key. has_field key raw && not (any (λ k. k == key) (type_extras t)))
      type_specific_keys

-- `_reject_wrong_type_keys`
unfoldable pub reject_wrong_type_keys : Fields → FieldType → String → Found (Unit {0})
unfolding foreign_keys is_media_type
reject_wrong_type_keys raw t id =
    let media : Bool = has_field "default" raw && is_media_type t in
    let foreign : List Note =
      map (λ key. record { field_id = some id; problem = not_valid_for key t })
        (foreign_keys raw t) in
    (tt, foreign) >> (if media then fail (some id) media_default tt else pure tt)

role_in : String → Option Value → Found (Option FieldRole)
role_in id none = pure none
role_in id (some (str s)) =
    if s == "seed" then pure (some seed) else fail (some id) (bad_role s) none
role_in id (some v) = fail (some id) (bad_role "") none

pair_in : String → Option Value → Found (Option FieldPair)
pair_in id none = pure none
pair_in id (some (str s)) =
    if s == "width"
    then pure (some width)
    else if s == "height"
    then pure (some height)
    else fail (some id) (bad_pair s) none
pair_in id (some v) = fail (some id) (bad_pair "") none

-- The role of `_parse_hints`.
unfoldable pub parse_role : Fields → FieldType → String → Found (Option FieldRole)
unfolding role_in
parse_role raw integer id = role_in id (find "role" raw)
parse_role raw t id = pure none

-- The pair of `_parse_hints`.
unfoldable pub parse_pair : Fields → FieldType → String → Found (Option FieldPair)
unfolding pair_in
parse_pair raw integer id = pair_in id (find "pair" raw)
parse_pair raw t id = pure none

-- `_is_number`
unfoldable pub number_of : Value → Option Number
number_of (int n) = some (Numbers.int n)
number_of (float x) = some (Numbers.float x)
number_of v = none

-- `math.isfinite`; `none` is the OverflowError of an int that no double can hold.
unfoldable pub is_finite : Number → Option Bool
is_finite (Numbers.int n) = elim (float_of_int n) [ none ↦ none | some x ↦ some true ]
is_finite (Numbers.float nan) = some false
is_finite (Numbers.float (infinity s)) = some false
is_finite (Numbers.float (dyadic m k)) = some true

positive_fps : String → Number → Found (Option Number)
unfolding is_finite number_le
positive_fps id fps = elim (is_finite fps) [
  | none ↦ fail (some id) raised none
  | some false ↦ fail (some id) (must_be_finite "duration.fps") none
  | some true ↦
      if number_le fps (Numbers.int (pos 0))
      then fail (some id) (must_be_positive "duration.fps") none
      else pure (some fps)
]

fps_in : String → Option Value → Found (Option Number)
unfolding number_of positive_fps
fps_in id none = fail (some id) (is_required "duration.fps") none
fps_in id (some v) = elim (number_of v) [
  | none ↦ fail (some id) (must_be_number "duration.fps") none
  | some fps ↦ positive_fps id fps
]

duration_in : String → Option Value → Found (Option Number)
unfolding fps_in reject_unknown_keys
duration_in id none = pure none
duration_in id (some (obj block)) = do
  reject_unknown_keys block ("fps" ∷ []) "duration" (some id)
  fps_in id (find "fps" block)
duration_in id (some v) = fail (some id) (must_be_mapping "duration") none

-- `_parse_duration`
unfoldable pub parse_duration : Fields → FieldType → String → Found (Option Number)
unfolding duration_in
parse_duration raw integer id = duration_in id (find "duration" raw)
parse_duration raw t id = pure none
