-- ===== src/Definition/Yaml.antt =====
-- `_duplicate_mapping_key` and `_read_yaml` of gateway/localcanvas_gateway/workflows/definition.py.
-- What the YAML library composes and loads from a text is given; a text is modelled whose keys are
-- texts and whose values are those of JSON.
use local_canvas.Prelude.{
  ℕ, ◌+◌, String, Option, none, some, List, [], ◌∷◌, any, ◌==◌, if◌then◌else◌,
}
use local_canvas.Values.{Value, null, obj, Fields}
use local_canvas.Definition.Notes.{
  not_utf8, unreadable, yaml_error, empty_file, not_a_mapping, duplicate_key, Found, pure, fail,
}

-- The node graph: a scalar with its text and its line, counted from 0.
mutual
  pub data Node : Type 0 where
    scalar : String → ℕ → Node
    mapping : Pairs → Node
    sequence : Nodes → Node

  pub data Pairs : Type 0 where
    no_pairs : Pairs
    pair : Node → Node → Pairs → Pairs

  pub data Nodes : Type 0 where
    no_nodes : Nodes
    node : Node → Nodes → Nodes

abbrev pub Key : Type 0
Key = Option (String × ℕ)

abbrev or_else : Key → Key → Key
or_else (some k) other = some k
or_else none other = other

-- `walk`: the first key that stands twice in one mapping, and its line, counted from 1.
unfoldable mutual
  pub walk : Node → Key
  walk (scalar text line) = none
  walk (mapping pairs) = walk_pairs [] pairs
  walk (sequence nodes) = walk_nodes nodes

  pub walk_pairs : List String → Pairs → Key
  walk_pairs seen no_pairs = none
  walk_pairs seen (pair (scalar key line) value rest) =
      let inner = or_else (walk value) (walk_pairs (key ∷ seen) rest) in
      if any (λ k. k == key) seen then some (key, line + 1) else inner
  walk_pairs seen (pair key value rest) = or_else (walk value) (walk_pairs seen rest)

  pub walk_nodes : Nodes → Key
  walk_nodes no_nodes = none
  walk_nodes (node n rest) = or_else (walk n) (walk_nodes rest)

-- The definition file: bytes that are no text, a read that fails, a text that the library refuses,
-- or one that it reads.
pub data Source : Type 0 where
  no_text no_read no_yaml : Source
  yaml : Node → Value → Source

unfoldable pub top_mapping : Value → Found (Option Fields)
top_mapping null = fail none empty_file none
top_mapping (obj fields) = pure (some fields)
top_mapping v = fail none not_a_mapping none

-- `_read_yaml`
unfoldable pub read_yaml : Source → Found (Option Fields)
unfolding top_mapping walk
read_yaml no_text = fail none not_utf8 none
read_yaml no_read = fail none unreadable none
read_yaml no_yaml = fail none yaml_error none
read_yaml (yaml root value) = elim (walk root) [
  | some (key, line) ↦ fail none (duplicate_key key line) none
  | none ↦ top_mapping value
]
