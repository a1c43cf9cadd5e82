-- ===== src/Values.antt =====
-- The values of Python that cross from a request's JSON body and from ComfyUI's answers, with the
-- numbers that the gateway compares. A `dict` that was read from JSON has each key once.
pub mod Numbers
pub mod Rounding
use local_canvas.Prelude.{
  String, Bool, true, false, Option, none, some, List, [], ◌∷◌, ◌==◌, ◌||◌, if◌then◌else◌,
}
use local_canvas.Prelude.Int.{ℤ}
use local_canvas.Prelude.Dict.{Dict}
use Numbers.{Float}

mutual
  pub data Items : Type 0 where
    nil : Items
    cons : Value → Items → Items

  pub data Fields : Type 0 where
    end : Fields
    field : String → Value → Fields → Fields

  pub data Value : Type 0 where
    null : Value
    str : String → Value
    int : ℤ → Value
    float : Float → Value
    bool : Bool → Value
    arr : Items → Value
    obj : Fields → Value

-- The items of a list, and of a dict.
unfoldable pub items : Items → List Value
items nil = []
items (cons v vs) = v ∷ items vs

unfoldable pub entries : Fields → Dict Value
entries end = []
entries (field k v fs) = (k, v) ∷ entries fs

-- `mapping.get(key)`: a missing key and a `null` are both `None`.
unfoldable pub get_value : String → Fields → Value
get_value k end = null
get_value k (field j v fs) = if j == k then v else get_value k fs

-- `value if isinstance(value, str) and value else None`
unfoldable pub non_empty_text : Value → Option String
non_empty_text (str s) = if s == "" then none else some s
non_empty_text v = none

-- `key in mapping`
unfoldable pub has_field : String → Fields → Bool
has_field k end = false
has_field k (field j v fs) = j == k || has_field k fs
