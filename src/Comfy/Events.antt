-- ===== src/Comfy/Events.antt =====
-- `handle` of `ComfyEvents` (gateway/localcanvas_gateway/comfy/events.py): one frame of ComfyUI's
-- socket, and the call that it makes on the job store, if any. Connecting is not modelled.
use local_canvas.Prelude.{
  ℕ, String, Bool, true, false, Option, none, some, List, [], ◌∷◌, any, ltb, leb, ◌==◌, ◌&&◌,
  if◌then◌else◌,
}
use local_canvas.Prelude.Int.{ℤ, pos}
use local_canvas.Values.{
  Value, null, int, float, str, obj, Fields, end, get_value, non_empty_text, arr,
}
use local_canvas.Values.Numbers.{is_integer, truncate}

-- A frame: bytes, or a text with what `json.loads` makes of it (`none`: it raises).
pub data Frame : Type 0 where
  binary : Frame
  text : Option Value → Frame

-- The calls on the job store.
pub data Notice : Type 0 where
  note_change : String → Notice
  note_progress : String → ℕ → ℕ → Notice

-- `_executing`, and the call of this frame.
abbrev pub Handled : Type 0
Handled = Option String × Option Notice

-- `_LIFECYCLE`
abbrev pub lifecycle : List String
lifecycle =
    "execution_start" ∷ "execution_cached" ∷ "execution_success" ∷ "execution_error"
    ∷ "execution_interrupted" ∷ []

-- `_count`
unfoldable pub count : Value → Option ℤ
count (int n) = some n
count (float x) = if is_integer x then some (truncate x) else none
count v = none

-- A step within a total that is not zero.
unfoldable pub position : Option ℤ → Option ℤ → Option (ℕ × ℕ)
position (some (pos step)) (some (pos total)) =
    if ltb 0 total && leb step total then some (step, total) else none
position step total = none

-- `a or b`
abbrev pub or_else : Option String → Option String → Option String
or_else (some a) b = some a
or_else none b = b

-- `_progress`
unfoldable pub progress_notice : Fields → Option String → Option Notice
unfolding non_empty_text count position
progress_notice fields executing =
    elim (or_else (non_empty_text (get_value "prompt_id" fields)) executing) [
      | none ↦ none
      | some prompt_id ↦
          elim (position (count (get_value "value" fields)) (count (get_value "max" fields))) [
            | none ↦ none
            | some (step, total) ↦ some (note_progress prompt_id step total)
          ]
    ]

-- `node is None`
unfoldable pub is_none : Value → Bool
is_none null = true
is_none v = false

unfoldable pub executing_notice : Fields → Option String → Option String → Handled
unfolding is_none
executing_notice fields none executing = (executing, none)
executing_notice fields (some prompt_id) executing = (
  some prompt_id,
  if is_none (get_value "node" fields) then some (note_change prompt_id) else none,
)

-- `self._executing == prompt_id`
unfoldable pub is_executing : Option String → String → Bool
is_executing none prompt_id = false
is_executing (some p) prompt_id = p == prompt_id

unfoldable pub lifecycle_notice : String → Option String → Option String → Handled
unfolding is_executing
lifecycle_notice kind none executing = (executing, none)
lifecycle_notice kind (some prompt_id) executing = (
  if kind == "execution_start"
      then some prompt_id
      else (if is_executing executing prompt_id then none else executing),
  some (note_change prompt_id),
)

-- `data` when it is an object, or else an empty one.
unfoldable pub data_of : Value → Fields
data_of (obj fields) = fields
data_of v = end

-- A message with that type and that data; `none` is the TypeError of a type that cannot be hashed,
-- a list or an object.
unfoldable pub on_message : Value → Fields → Option String → Option Handled
unfolding progress_notice executing_notice lifecycle_notice non_empty_text
on_message (str kind) fields executing = some (
    if kind == "progress"
    then (executing, progress_notice fields executing)
    else if kind == "executing"
    then executing_notice fields (non_empty_text (get_value "prompt_id" fields)) executing
    else if any (λ k. k == kind) lifecycle
    then lifecycle_notice kind (non_empty_text (get_value "prompt_id" fields)) executing
    else (executing, none))
on_message (arr vs) fields executing = none
on_message (obj fs) fields executing = none
on_message kind fields executing = some (executing, none)

-- `handle`
unfoldable pub handle : Frame → Option String → Option Handled
unfolding on_message data_of
handle binary executing = some (executing, none)
handle (text (some (obj payload))) executing =
    on_message (get_value "type" payload) (data_of (get_value "data" payload)) executing
handle (text other) executing = some (executing, none)
