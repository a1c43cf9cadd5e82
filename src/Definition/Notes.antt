-- ===== src/Definition/Notes.antt =====
-- The diagnostics of gateway/localcanvas_gateway/workflows/definition.py. A message is a constructor
-- that names its sentence, with what the sentence quotes.
use local_canvas.Prelude.{
  ℕ, String, ◌<>◌, not, List, [], ◌∷◌, ◌++◌, Option, none, some, map, filter, any, ◌==◌,
}
use local_canvas.Prelude.Text.{sort_texts, show}
use local_canvas.Prelude.Dict.{keys}
use local_canvas.Values.{Fields, entries}
use local_canvas.Workflow.{FieldType}

-- `String` is mostly the `where` of a message, or the key or the text that it quotes; a value that is
-- no text is not kept.
pub data Problem : Type 0 where
  -- the file
  not_utf8 unreadable yaml_error empty_file not_a_mapping : Problem
  duplicate_key : String → ℕ → Problem
  unknown_key : String → String → Problem
  -- the top level
  is_required must_be_text must_not_be_empty must_be_mapping must_be_list : String → Problem
  must_be_text_list : String → Problem
  id_not_allowed workflow_is_rooted : String → Problem
  graph_not_found graph_not_a_file graph_not_utf8 graph_unreadable graph_not_json : Problem
  graph_not_an_object : Problem
  node_not_an_object : String → Problem
  no_translation_on bad_translation_mode : Problem
  -- the fields
  duplicate_field : Problem
  target_taken : String → String → String → Problem
  unknown_type : String → Problem
  must_be_boolean bad_section bad_role bad_pair : String → Problem
  not_valid_for : String → FieldType → Problem
  media_default no_options : Problem
  option_kind option_label : String → Problem
  duplicate_option : Problem
  must_be_integer must_be_number must_be_finite must_be_positive : String → Problem
  min_above_max : Problem
  default_null default_empty default_kind default_no_option default_below default_above : Problem
  -- the bindings
  bind_empty : Problem
  bind_kind bad_node : String → Problem
  repeated_target : String → String → Problem
  node_missing no_inputs input_missing input_wired : String → Problem
  -- across the files: the id, the other files that claim it, and how many claim it
  duplicate_id : String → List String → ℕ → Problem
  -- not a message: an exception that the parser does not catch
  raised : Problem

-- A problem, with the field that it is about.
pub record Note : Type 0 where
  pub field_id : Option String
  pub problem : Problem

-- What a part of the parser answers, and what it noted, in order.
abbrev pub Found : Type 0 → Type 0
Found A = A × List Note

infixl 5 ◌>>=◌
unfoldable pub ◌>>=◌ : {A B : Type 0} → Found A → (A → Found B) → Found B
m >>= f = ((f m.0).0, m.1 ++ (f m.0).1)

infixl 5 ◌>>◌
unfoldable pub ◌>>◌ : {A B : Type 0} → Found A → Found B → Found B
m >> k = (k.0, m.1 ++ k.1)

abbrev pub pure : {A : Type 0} → A → Found A
pure a = (a, [])

-- `self.fail(problem, field_id)`, then the answer.
abbrev pub fail : {A : Type 0} → Option String → Problem → A → Found A
fail field_id problem a = (a, record { field_id = field_id; problem = problem } ∷ [])

-- An answer that is there, or else the problem.
unfoldable pub noted : {A : Type 0} → Option String → Problem → Option A → Found (Option A)
noted field_id problem none = fail field_id problem none
noted field_id problem (some a) = pure (some a)

-- `_reject_unknown_keys`
unfoldable pub unknown_names : List String → Fields → List String
unknown_names allowed mapping =
    sort_texts (filter (λ k. not (any (λ a. a == k) allowed)) (keys (entries mapping)))

unfoldable pub reject_unknown_keys :
    Fields → List String → String → Option String → Found (Unit {0})
unfolding unknown_names
reject_unknown_keys mapping allowed place field_id = (
  tt,
  map (λ k. record { field_id = field_id; problem = unknown_key place k })
      (unknown_names allowed mapping),
)

-- `"name[{}]".format(index)`
unfoldable pub at_index : String → ℕ → String
at_index name index = name <> "[" <> show index <> "]"
