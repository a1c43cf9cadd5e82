-- ===== src/Binding/Targets.antt =====
-- `graph[target.node]["inputs"][target.input] = value` of workflows/binding.py.
use local_canvas.Prelude.{
  String, ◌≡◌, refl, Bool, Option, none, some, List, [], ◌∷◌, arith, ◌==◌, eq_iff, if◌then◌else◌,
  Option-cases, Bool-cases, inl, inr, eq_refl, any, ◌&&◌,
}
use local_canvas.Values.{Value, obj, Fields, end, field}
use local_canvas.Workflow.{Binding}

-- `mapping[key]`; `none` is KeyError.
unfoldable pub find : String → Fields → Option Value
find k end = none
find k (field j v fs) = if j == k then some v else find k fs

-- `mapping[key] = value`
unfoldable pub put : String → Value → Fields → Fields
put k v end = field k v end
put k v (field j w fs) = if j == k then field k v fs else field j w (put k v fs)

-- A value that is a mapping.
unfoldable pub as_mapping : Option Value → Option Fields
as_mapping (some (obj fs)) = some fs
as_mapping _ = none

-- The value at a target of the graph.
unfoldable pub read_target : Binding → Fields → Option Value
read_target t graph = elim (as_mapping (find t.node graph)) [
  | none ↦ none
  | some node ↦ elim (as_mapping (find "inputs" node)) [ none ↦ none | some ins ↦ find t.input ins ]
]

-- The write; `none` is the KeyError or TypeError of a node without inputs.
unfoldable pub write_target : Binding → Value → Fields → Option Fields
write_target t v graph = elim (as_mapping (find t.node graph)) [
  | none ↦ none
  | some node ↦ elim (as_mapping (find "inputs" node)) [
    | none ↦ none
    | some ins ↦ some (put t.node (obj (put "inputs" (obj (put t.input v ins)) node)) graph)
  ]
]

-- `for target in targets`
unfoldable pub write_targets : List Binding → Value → Fields → Option Fields
unfolding write_target
write_targets [] v graph = some graph
write_targets (t ∷ ts) v graph = elim (write_target t v graph) [
  | none ↦ none
  | some graph' ↦ write_targets ts v graph'
]

unfoldable pub same_target : Binding → Binding → Bool
same_target t u = t.node == u.node && t.input == u.input

pub find-put :
    (k j : String) (v : Value) (fs : Fields)
    → find j (put k v fs) ≡ (if k == j then some v else find j fs)
unfolding find put
find-put k j v end = refl
find-put k j v (field i w fs) =
    ground (arith, eq_iff k j, eq_iff i k, eq_iff i j, find-put k j v fs)

-- The graph after the write of a value under one node's inputs.
abbrev written : Binding → Value → Fields → Fields → Fields → Fields
written t v graph node ins = put t.node (obj (put "inputs" (obj (put t.input v ins)) node)) graph

read-written :
    (t u : Binding) (v : Value) (graph node ins : Fields)
    → as_mapping (find t.node graph) ≡ some node
    → as_mapping (find "inputs" node) ≡ some ins
    → read_target u (written t v graph node ins)
      ≡ (if same_target t u then some v else read_target u graph)
unfolding read_target same_target as_mapping
read-written t u v graph node ins e i = elim (Bool-cases (t.node == u.node)) [
  | inl same ↦
      let at : t.node ≡ u.node = (eq_iff t.node u.node).0 same in
      ground (
        arith,
        find-put t.node u.node (obj (put "inputs" (obj (put t.input v ins)) node)) graph,
        find-put "inputs" "inputs" (obj (put t.input v ins)) node,
        eq_refl "inputs",
        find-put t.input u.input v ins,
      )
  | inr differs ↦
      ground
        (arith, find-put t.node u.node (obj (put "inputs" (obj (put t.input v ins)) node)) graph)
]

-- A write is read back at its target, and every other target reads as before.
pub read-write_target :
    (t u : Binding) (v : Value) (graph graph' : Fields)
    → write_target t v graph ≡ some graph'
    → read_target u graph' ≡ (if same_target t u then some v else read_target u graph)
unfolding write_target
read-write_target t u v graph graph' h = elim (Option-cases (as_mapping (find t.node graph))) [
  | inl e ↦ absurd (ground arith)
  | inr (node, e) ↦ elim (Option-cases (as_mapping (find "inputs" node))) [
    | inl i ↦ absurd (ground arith)
    | inr (ins, i) ↦
        let same : graph' ≡ written t v graph node ins = ground arith in
        rw same (read-written t u v graph node ins e i)
  ]
]

-- The targets that a list of writes reaches.
unfoldable pub is_target : List Binding → Binding → Bool
unfolding same_target
is_target ts u = any (λ t. same_target t u) ts

-- Writing one value into several targets: each of them reads it, every other target as before.
pub read-write_targets :
    (ts : List Binding) (u : Binding) (v : Value) (graph graph' : Fields)
    → write_targets ts v graph ≡ some graph'
    → read_target u graph' ≡ (if is_target ts u then some v else read_target u graph)
unfolding write_targets is_target
read-write_targets [] u v graph graph' h = ground arith
read-write_targets (t ∷ ts) u v graph graph' h = elim (Option-cases (write_target t v graph)) [
  | inl e ↦ absurd (ground arith)
  | inr (next, e) ↦ ground (
    arith,
    read-write_targets ts u v next graph' (ground arith),
    read-write_target t u v graph next e,
  )
]
