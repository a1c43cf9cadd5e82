-- ===== src/Comfy/Reading.antt =====
-- What `ComfyClient` (gateway/localcanvas_gateway/comfy/client.py) reads out of the JSON bodies of
-- /history and /queue. The HTTP request and `json` are not modelled: a body is a value.
use local_canvas.Prelude.{
  String, Bool, true, false, not, Option, none, some, List, [], ◌∷◌, ◌++◌, any, ◌==◌, ◌&&◌, ◌||◌,
  if◌then◌else◌,
}
use local_canvas.Prelude.Text.{is_blank}
use local_canvas.Prelude.Int.{pos, show_int, eqb_ℤ}
use local_canvas.Values.{
  has_field, Value, null, bool, int, float, str, arr, obj, nil, cons, Fields, end, field, items,
  get_value,
}
use local_canvas.Values.Numbers.{dyadic}
use local_canvas.Comfy.{
  QueuePlace, running, pending, absent, OutputFile, ExecutionError, HistoryEntry, Reply, answered,
  unreachable,
}

-- `bool(value)`
unfoldable pub truthy : Value → Bool
truthy null = false
truthy (bool b) = b
truthy (int n) = not (eqb_ℤ n (pos 0))
truthy (float (dyadic m k)) = not (eqb_ℤ m (pos 0))
truthy (float x) = true
truthy (str s) = not (s == "")
truthy (arr nil) = false
truthy (arr (cons v vs)) = true
truthy (obj end) = false
truthy (obj (field k v fs)) = true

-- `value == name`
unfoldable pub is_str : String → Value → Bool
is_str name (str s) = s == name
is_str name v = false

-- `_in_queue`
unfoldable pub is_queue_item : String → Value → Bool
unfolding is_str
is_queue_item prompt_id (arr (cons v (cons w vs))) = is_str prompt_id w
is_queue_item prompt_id v = false

unfoldable pub in_queue : Value → String → Bool
unfolding is_queue_item
in_queue (arr vs) prompt_id = any (is_queue_item prompt_id) (items vs)
in_queue v prompt_id = false

-- `queue_place`, of the answer's body.
unfoldable pub read_queue_place : Fields → String → QueuePlace
read_queue_place payload prompt_id =
    if in_queue (get_value "queue_running" payload) prompt_id
    then running
    else if in_queue (get_value "queue_pending" payload) prompt_id
    then pending
    else absent

-- `_has_message`
unfoldable pub is_message : String → Value → Bool
is_message name (arr (cons v vs)) = is_str name v
is_message name v = false

unfoldable pub has_message : Value → String → Bool
unfolding is_message
has_message (arr vs) name = any (is_message name) (items vs)
has_message v name = false

-- `_text_or_none`
unfoldable pub text_or_none : Value → Option String
unfolding show_int
text_or_none (str s) = if is_blank s then none else some s
text_or_none (int n) = some (show_int n)
text_or_none v = none

-- `_execution_error`: the payload of the first message that is an error with an object.
unfoldable pub error_payload : Value → Option Fields
unfolding is_str
error_payload (arr (cons name (cons (obj payload) vs))) =
    if is_str "execution_error" name then some payload else none
error_payload v = none

first_error : List Value → Option Fields
unfolding error_payload
first_error [] = none
first_error (v ∷ vs) = elim (error_payload v) [
  | some payload ↦ some payload
  | none ↦ first_error vs
]

unfoldable pub execution_error : Value → Option ExecutionError
unfolding first_error
execution_error (arr vs) = elim (first_error (items vs)) [
  | none ↦ none
  | some payload ↦ some (record {
    message = text_or_none (get_value "exception_message" payload);
    exception_type = text_or_none (get_value "exception_type" payload);
    node_id = text_or_none (get_value "node_id" payload);
    node_type = text_or_none (get_value "node_type" payload);
  })
]
execution_error v = none

-- What `for item in value or ()` meets: the items of a list, nothing that is a mapping in a text or
-- an object, and a TypeError (`none`) for a number or `True`.
unfoldable pub iterated : Value → Option (List Value)
iterated (arr vs) = some (items vs)
iterated (int n) = if truthy (int n) then none else some []
iterated (float x) = if truthy (float x) then none else some []
iterated (bool b) = if b then none else some []
iterated v = some []

-- `_history_entry`, up to the outputs.
unfoldable pub entry_of : Value → Fields → List OutputFile → HistoryEntry
unfolding is_str has_message execution_error has_field truthy
entry_of (obj status) entry files =
    let is_error = is_str "error" (get_value "status_str" status) in
    let messages = get_value "messages" status in
    let interrupted = is_error && has_message messages "execution_interrupted" in
    let failed = is_error && not interrupted in
    record {
      found = true;
      finished =
          not failed
          && not interrupted
          && (truthy (get_value "completed" status)
              || is_str "success" (get_value "status_str" status));
      failed = failed;
      interrupted = interrupted;
      error = if failed then execution_error messages else none;
      outputs = files;
    }
entry_of status entry files = record {
  found = true;
  finished = has_field "outputs" entry;
  failed = false;
  interrupted = false;
  error = none;
  outputs = files;
}

abbrev pub no_entry : HistoryEntry
no_entry = record {
  found = false;
  finished = false;
  failed = false;
  interrupted = false;
  error = none;
  outputs = [];
}

-- The keys of `_OUTPUT_KINDS`, in order.
abbrev pub output_kinds : List (String × String)
output_kinds = ("images", "image") ∷ ("gifs", "video") ∷ ("videos", "video") ∷ []

-- `str_of` is Python's `str` of a value that is no text.
module _ (str_of : Value → String) where
  -- `str(value or default)`
  unfoldable pub text_or : String → Value → String
  text_or default (str s) = if s == "" then default else s
  text_or default v = if truthy v then str_of v else default

  -- One item of a node's output with that filename, under a key of that kind.
  unfoldable pub file_named : String → Fields → Value → List OutputFile
  unfolding text_or
  file_named kind item (str filename) =
      if filename == ""
      then []
      else record {
        filename = filename;
        subfolder = text_or "" (get_value "subfolder" item);
        folder_type = text_or "output" (get_value "type" item);
        kind = kind;
      }
        ∷ []
  file_named kind item v = []

  unfoldable pub output_file : String → Value → List OutputFile
  unfolding file_named
  output_file kind (obj item) = file_named kind item (get_value "filename" item)
  output_file kind v = []

  unfoldable pub output_files : String → List Value → List OutputFile
  unfolding output_file
  output_files kind [] = []
  output_files kind (v ∷ vs) = output_file kind v ++ output_files kind vs

  -- The files under the keys.
  unfoldable pub files_under : List (String × String) → Fields → Option (List OutputFile)
  unfolding iterated output_files
  files_under [] node_output = some []
  files_under ((key, kind) ∷ keys) node_output = elim (iterated (get_value key node_output)) [
    | none ↦ none
    | some vs ↦ elim (files_under keys node_output) [
      | none ↦ none
      | some files ↦ some (output_files kind vs ++ files)
    ]
  ]

  unfoldable pub node_files : Value → Option (List OutputFile)
  unfolding files_under
  node_files (obj node_output) = files_under output_kinds node_output
  node_files v = some []

  -- `_outputs`; `none` is the TypeError.
  unfoldable pub outputs_of : Fields → Option (List OutputFile)
  unfolding node_files
  outputs_of end = some []
  outputs_of (field node v fs) = elim (node_files v) [
    | none ↦ none
    | some files ↦ elim (outputs_of fs) [ none ↦ none | some rest ↦ some (files ++ rest) ]
  ]

  unfoldable pub outputs : Value → Option (List OutputFile)
  unfolding outputs_of
  outputs (obj raw) = outputs_of raw
  outputs v = some []

  unfoldable pub history_entry : Fields → Option HistoryEntry
  unfolding entry_of outputs
  history_entry entry = elim (outputs (get_value "outputs" entry)) [
    | none ↦ none
    | some files ↦ some (entry_of (get_value "status" entry) entry files)
  ]

  -- `history`, of the answer's body; an entry that is no object is a `ComfyError`.
  unfoldable pub read_history : Fields → String → Option (Reply HistoryEntry)
  unfolding history_entry
  read_history payload prompt_id = elim (get_value prompt_id payload) [
    | null ↦ some (answered no_entry)
    | obj entry ↦ elim (history_entry entry) [ none ↦ none | some e ↦ some (answered e) ]
    | _ ↦ some unreachable
  ]
