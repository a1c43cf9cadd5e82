-- ===== src/Definition/Head.antt =====
-- What stands at the top of a definition, in gateway/localcanvas_gateway/workflows/definition.py:
-- its id, its name, its graph, its presentation and its translation mode.
use Prim.Native.Char.{Char, code}
use local_canvas.Prelude.{
  String, ◌<>◌, Bool, true, false, Option, none, some, List, [], ◌∷◌, ◌==◌, ◌&&◌, ◌||◌, leb, eqb,
  if◌then◌else◌,
}
use local_canvas.Prelude.Text.{is_blank}
use local_canvas.Values.{Value, null, str, bool, arr, obj, Items, nil, cons, Fields, end, field}
use local_canvas.Workflow.{TranslationMode, auto, off, Presentation, no_presentation}
use local_canvas.Binding.Targets.{find}
use local_canvas.Translation.Service.{strip, is_nothing}
use local_canvas.Definition.Notes.{
  Problem, is_required, must_be_text, must_not_be_empty, must_be_mapping, must_be_text_list,
  id_not_allowed, workflow_is_rooted, graph_not_found, graph_not_a_file, graph_not_utf8,
  graph_unreadable, graph_not_json, graph_not_an_object, node_not_an_object, no_translation_on,
  bad_translation_mode, Found, pure, fail, noted, ◌>>=◌, ◌>>◌, reject_unknown_keys,
}

-- A text that is not blank.
unfoldable pub non_blank : Value → Option String
non_blank (str s) = if is_blank s then none else some s
non_blank v = none

-- `WORKFLOW_ID_PATTERN`, `^[a-z0-9_-]+$`: the `$` also stands before a newline at the end.
is_id_char : Char → Bool
is_id_char ch =
    let c = code ch in (leb 97 c && leb c 122) || (leb 48 c && leb c 57) || eqb c 95 || eqb c 45

is_id_tail : String → Bool
unfolding is_id_char
is_id_tail String.[] = true
is_id_tail (String.◌∷◌ c s) = (is_id_char c && is_id_tail s) || (eqb (code c) 10 && is_nothing s)

unfoldable pub is_workflow_id : String → Bool
unfolding is_id_tail
is_workflow_id String.[] = false
is_workflow_id (String.◌∷◌ c s) = is_id_char c && is_id_tail s

-- `self.workflow_id` after `_parse_workflow_id`: any text but the empty one.
unfoldable pub claim_of : Option Value → Option String
claim_of (some (str s)) = if s == "" then none else some s
claim_of v = none

unfoldable pub id_of : Option Value → Found (Option String)
unfolding is_workflow_id
id_of none = fail none (is_required "id") none
id_of (some (str s)) =
    if s == ""
    then fail none (must_not_be_empty "id") none
    else if is_workflow_id s
    then pure (some s)
    else fail none (id_not_allowed s) none
id_of (some v) = fail none (must_be_text "id") none

-- `_parse_workflow_id`
unfoldable pub parse_workflow_id : Fields → Found (Option String)
unfolding id_of
parse_workflow_id data_ = id_of (find "id" data_)

-- A key at the top that must have a text which is not blank.
unfoldable pub text_at : String → Option Value → Found (Option String)
unfolding non_blank
text_at key none = fail none (is_required key) none
text_at key (some v) = noted none (must_not_be_empty key) (non_blank v)

-- `_parse_name`
unfoldable pub parse_name : Fields → Found (Option String)
unfolding text_at
parse_name data_ = text_at "name" (find "name" data_)

-- What stands at the path that a definition names, and what JSON its text reads as.
pub data GraphFile : Type 0 where
  absent no_file no_text no_read no_json : GraphFile
  json : Value → GraphFile

-- `_graph_structure_problem` of a mapping: its first value that is no mapping.
unfoldable pub bad_node_in : Fields → Option Problem
bad_node_in end = none
bad_node_in (field k (obj node) fs) = bad_node_in fs
bad_node_in (field k v fs) = some (node_not_an_object k)

-- The graph of a text that reads as JSON.
unfoldable pub graph_in : Value → Found (Option Fields)
unfolding bad_node_in
graph_in (obj graph) = elim (bad_node_in graph) [
  | none ↦ pure (some graph)
  | some problem ↦ fail none problem none
]
graph_in v = fail none graph_not_an_object none

unfoldable pub read_graph : GraphFile → Found (Option Fields)
unfolding graph_in
read_graph absent = fail none graph_not_found none
read_graph no_file = fail none graph_not_a_file none
read_graph no_text = fail none graph_not_utf8 none
read_graph no_read = fail none graph_unreadable none
read_graph no_json = fail none graph_not_json none
read_graph (json v) = graph_in v

-- A path with a root or a drive, on either kind of system: it begins with a slash or a backslash,
-- or a colon is its second character.
is_colon_next : String → Bool
is_colon_next String.[] = false
is_colon_next (String.◌∷◌ c s) = eqb (code c) 58

unfoldable pub is_rooted : String → Bool
unfolding is_colon_next
is_rooted String.[] = false
is_rooted (String.◌∷◌ c s) = eqb (code c) 47 || eqb (code c) 92 || is_colon_next s

-- `_parse_graph`: the path, which is given whenever it was judged, and the graph.
unfoldable pub parse_graph : (String → GraphFile) → Fields → Found (Option String × Option Fields)
unfolding text_at is_rooted read_graph
parse_graph files data_ = text_at "workflow" (find "workflow" data_) >>= λ path. elim path [
  | none ↦ pure (none, none)
  | some raw ↦
      if is_rooted raw
      then fail none (workflow_is_rooted raw) (none, none)
      else (read_graph (files raw) >>= λ graph. pure (some raw, graph))
]

stripped : String → Value → Found (Option String)
unfolding strip
stripped place (str s) = pure (some (strip s))
stripped place v = fail none (must_be_text place) none

-- One text of the presentation.
unfoldable pub text_entry : Fields → String → Found (Option String)
unfolding stripped
text_entry raw key = elim (find key raw) [
  | none ↦ pure none
  | some v ↦ stripped ("presentation." <> key) v
]

-- The items of a list of texts, without their blanks.
all_texts : Items → Option (List String)
unfolding strip
all_texts nil = some []
all_texts (cons (str s) vs) = elim (all_texts vs) [
  | none ↦ none
  | some rest ↦ some (strip s ∷ rest)
]
all_texts (cons v vs) = none

texts_of : String → Value → Found (List String)
unfolding all_texts
texts_of place (arr vs) = elim (all_texts vs) [
  | none ↦ fail none (must_be_text_list place) []
  | some texts ↦ pure texts
]
texts_of place v = fail none (must_be_text_list place) []

unfoldable pub list_entry : Fields → String → Found (List String)
unfolding texts_of
list_entry raw key = elim (find key raw) [
  | none ↦ pure []
  | some v ↦ texts_of ("presentation." <> key) v
]

abbrev presentation_keys : List String
presentation_keys =
    "group" ∷ "category" ∷ "badge" ∷ "short_description" ∷ "how_to_use" ∷ "input_summary"
    ∷ "example_prompt" ∷ "best_for" ∷ "not_ideal_for" ∷ []

presentation_in : Fields → Found Presentation
unfolding text_entry list_entry reject_unknown_keys
presentation_in raw = do
  reject_unknown_keys raw presentation_keys "presentation" none
  group ← text_entry raw "group"
  category ← text_entry raw "category"
  badge ← text_entry raw "badge"
  short_description ← text_entry raw "short_description"
  how_to_use ← text_entry raw "how_to_use"
  input_summary ← text_entry raw "input_summary"
  example_prompt ← text_entry raw "example_prompt"
  best_for ← list_entry raw "best_for"
  not_ideal_for ← list_entry raw "not_ideal_for"
  pure (record {
    group = group;
    category = category;
    badge = badge;
    short_description = short_description;
    best_for = best_for;
    how_to_use = how_to_use;
    input_summary = input_summary;
    example_prompt = example_prompt;
    not_ideal_for = not_ideal_for;
  })

-- `_parse_presentation`, on `data.get("presentation")`.
unfoldable pub parse_presentation : Option Value → Found Presentation
unfolding presentation_in
parse_presentation none = pure no_presentation
parse_presentation (some null) = pure no_presentation
parse_presentation (some (obj raw)) = presentation_in raw
parse_presentation (some v) = fail none (must_be_mapping "presentation") no_presentation

mode_of : Option Value → Found TranslationMode
mode_of none = fail none (is_required "translation.mode") auto
mode_of (some (bool true)) = fail none no_translation_on auto
mode_of (some (bool false)) = pure off
mode_of (some (str mode)) =
    if mode == "auto"
    then pure auto
    else if mode == "off"
    then pure off
    else fail none bad_translation_mode auto
mode_of (some v) = fail none bad_translation_mode auto

-- `_parse_translation`, on `data.get("translation")`.
unfoldable pub parse_translation : Option Value → Found TranslationMode
unfolding mode_of reject_unknown_keys
parse_translation none = pure auto
parse_translation (some null) = pure auto
parse_translation (some (obj raw)) = do
  reject_unknown_keys raw ("mode" ∷ []) "translation" none
  mode_of (find "mode" raw)
parse_translation (some v) = fail none (must_be_mapping "translation") auto
