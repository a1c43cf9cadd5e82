-- ===== src/Definition/Targets.antt =====
-- A field's `bind`, in gateway/localcanvas_gateway/workflows/definition.py: the node inputs that it
-- writes, each of which the graph must have and no other node may drive.
use local_canvas.Prelude.{
  ℕ, suc, String, ◌<>◌, Bool, true, false, Option, none, some, List, [], ◌∷◌, map, if◌then◌else◌,
}
use local_canvas.Prelude.Int.{show_int}
use local_canvas.Values.{Value, null, int, arr, obj, Items, nil, cons, Fields}
use local_canvas.Workflow.{Binding}
use local_canvas.Binding.Targets.{find, as_mapping, same_target}
use local_canvas.Definition.Notes.{
  Problem, is_required, must_not_be_empty, must_be_mapping, bind_empty, bind_kind, bad_node,
  repeated_target, node_missing, no_inputs, input_missing, input_wired, Found, pure, fail, noted,
  ◌>>=◌, ◌>>◌, reject_unknown_keys, at_index,
}
use local_canvas.Definition.Head.{non_blank}

-- `isinstance(current, (list, dict))`
unfoldable pub is_wired : Value → Bool
is_wired (arr vs) = true
is_wired (obj fs) = true
is_wired v = false

unfoldable pub input_problem : Option Value → String → Option Problem
unfolding is_wired
input_problem none place = some (input_missing place)
input_problem (some v) place = if is_wired v then some (input_wired place) else none

unfoldable pub node_problem : Option Value → String → String → Option Problem
unfolding input_problem
node_problem none input place = some (node_missing place)
node_problem (some null) input place = some (node_missing place)
node_problem (some v) input place = elim (as_mapping (some v)) [
  | none ↦ some (no_inputs place)
  | some node ↦ elim (as_mapping (find "inputs" node)) [
    | none ↦ some (no_inputs place)
    | some ins ↦ input_problem (find input ins) place
  ]
]

-- `_binding_problem`
unfoldable pub binding_problem : Binding → Fields → String → Option Problem
unfolding node_problem
binding_problem t graph place = node_problem (find t.node graph) t.input place

unfoldable pub node_in : String → String → Option Value → Found (Option String)
unfolding non_blank
node_in id place none = fail (some id) (is_required (place <> ".node")) none
node_in id place (some (int n)) = pure (some (show_int n))
node_in id place (some v) = noted (some id) (bad_node place) (non_blank v)

unfoldable pub input_in : String → String → Option Value → Found (Option String)
unfolding non_blank
input_in id place none = fail (some id) (is_required (place <> ".input")) none
input_in id place (some v) = noted (some id) (must_not_be_empty (place <> ".input")) (non_blank v)

-- The target against the graph: without a graph it is not judged.
unfoldable pub judged : String → String → Option Fields → Binding → Found (Option Binding)
unfolding binding_problem
judged id place none t = pure (some t)
judged id place (some graph) t = elim (binding_problem t graph place) [
  | none ↦ pure (some t)
  | some problem ↦ fail (some id) problem none
]

unfoldable pub target_in : String → String → Option Fields → Fields → Found (Option Binding)
unfolding node_in input_in judged
target_in id place graph bind = node_in id place (find "node" bind) >>= λ node. elim node [
  | none ↦ pure none
  | some n ↦ input_in id place (find "input" bind) >>= λ input. elim input [
    | none ↦ pure none
    | some i ↦ judged id place graph (record { node = n; input = i })
  ]
]

abbrev bind_keys : List String
bind_keys = "node" ∷ "input" ∷ []

-- `_parse_bind_target`
unfoldable pub parse_bind_target : String → String → Option Fields → Value → Found (Option Binding)
unfolding target_in reject_unknown_keys
parse_bind_target id place graph (obj bind) = do
  reject_unknown_keys bind bind_keys place (some id)
  target_in id place graph bind
parse_bind_target id place graph v = fail (some id) (must_be_mapping place) none

-- A target with the place of the definition that names it.
abbrev pub Placed : Type 0
Placed = String × Binding

-- One more target, when neither it nor one of the others was rejected.
unfoldable pub with_target : String → Option Binding → Option (List Placed) → Option (List Placed)
with_target place (some t) (some ts) = some ((place, t) ∷ ts)
with_target place t ts = none

-- The loop over the entries, which goes on after a rejected one.
unfoldable pub targets_from : String → Option Fields → ℕ → Items → Found (Option (List Placed))
unfolding parse_bind_target with_target at_index
targets_from id graph index nil = pure (some [])
targets_from id graph index (cons v vs) = do
  target ← parse_bind_target id (at_index "bind" index) graph v
  rest ← targets_from id graph (suc index) vs
  pure (with_target (at_index "bind" index) target rest)

-- `seen.get(target)`
unfoldable pub place_in : Binding → List Placed → Option String
place_in t [] = none
place_in t ((place, u) ∷ seen) = if same_target u t then some place else place_in t seen

-- The first target that an earlier one names too, with the places of both.
unfoldable pub repeat_in : List Placed → List Placed → Option (String × String)
unfolding place_in
repeat_in seen [] = none
repeat_in seen ((place, t) ∷ ts) = elim (place_in t seen) [
  | some other ↦ some (place, other)
  | none ↦ repeat_in ((place, t) ∷ seen) ts
]

unfoldable pub without_repeats : String → Option (List Placed) → Found (Option (List Binding))
unfolding repeat_in
without_repeats id none = pure none
without_repeats id (some ts) = elim (repeat_in [] ts) [
  | some (place, other) ↦ fail (some id) (repeated_target place other) none
  | none ↦ pure (some (map (λ t. t.1) ts))
]

unfoldable pub bind_in : String → Option Fields → Option Value → Found (Option (List Binding))
unfolding parse_bind_target targets_from without_repeats with_target
bind_in id graph none = fail (some id) (is_required "bind") none
bind_in id graph (some (obj bind)) = parse_bind_target id "bind" graph (obj bind) >>= λ t.
    without_repeats id (with_target "bind" t (some []))
bind_in id graph (some (arr nil)) = fail (some id) bind_empty none
bind_in id graph (some (arr (cons v vs))) =
    targets_from id graph 0 (cons v vs) >>= without_repeats id
bind_in id graph (some v) = fail (some id) (bind_kind "bind") none

-- `_parse_bind`
unfoldable pub parse_bind : Fields → String → Option Fields → Found (Option (List Binding))
unfolding bind_in
parse_bind raw id graph = bind_in id graph (find "bind" raw)
