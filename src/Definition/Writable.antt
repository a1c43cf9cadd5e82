-- ===== src/Definition/Writable.antt =====
-- Targets of a graph that a write of workflows/binding.py reaches, and that no write takes away.
use local_canvas.Prelude.{
  ◌≡◌, refl, some, List, [], ◌∷◌, arith, All, Option-cases, Bool-cases, inl, inr,
}
use local_canvas.Values.{Value, Fields}
use local_canvas.Workflow.{Binding}
use local_canvas.Binding.Targets.{
  find, as_mapping, read_target, write_target, write_targets, read-write_target, read-write_targets,
  same_target, is_target,
}

-- A target that the graph has.
abbrev pub Readable : Fields → Binding → Type 0
Readable graph t = (v : Value) × (read_target t graph ≡ some v)

write_target-some :
    (t : Binding) (v : Value) (graph : Fields)
    → Readable graph t
    → (graph' : Fields) × (write_target t v graph ≡ some graph')
unfolding read_target write_target
write_target-some t v graph (w, h) = elim (Option-cases (write_target t v graph)) [
  | inr found ↦ found
  | inl missing ↦ elim (Option-cases (as_mapping (find t.node graph))) [
    | inl e ↦ absurd (ground arith)
    | inr (node, e) ↦ elim (Option-cases (as_mapping (find "inputs" node))) [
      | inl i ↦ absurd (ground arith)
      | inr (ins, i) ↦ absurd (ground arith)
    ]
  ]
]

-- A write takes no target away.
written-Readable :
    (t u : Binding) (v : Value) (graph graph' : Fields)
    → write_target t v graph ≡ some graph'
    → Readable graph u
    → Readable graph' u
written-Readable t u v graph graph' h (w, before) = elim (Bool-cases (same_target t u)) [
  | inl same ↦ (v, ground (arith, read-write_target t u v graph graph' h))
  | inr other ↦ (w, ground (arith, read-write_target t u v graph graph' h))
]

still-Readable :
    (t : Binding) (v : Value) (graph graph' : Fields) (ts : List Binding)
    → write_target t v graph ≡ some graph'
    → All (Readable graph) ts
    → All (Readable graph') ts
still-Readable t v graph graph' [] h r = tt
still-Readable t v graph graph' (u ∷ ts) h (r, rs) =
    (written-Readable t u v graph graph' h r, still-Readable t v graph graph' ts h rs)

pub write_targets-some :
    (ts : List Binding) (v : Value) (graph : Fields)
    → All (Readable graph) ts
    → (graph' : Fields) × (write_targets ts v graph ≡ some graph')
unfolding write_targets
write_targets-some [] v graph r = (graph, refl)
write_targets-some (t ∷ ts) v graph (r, rs) =
    let (next, e) = write_target-some t v graph r in
    let (last, h) = write_targets-some ts v next (still-Readable t v graph next ts e rs) in
    (last, rw (e, write_targets) h)

writes-Readable :
    (ts : List Binding) (v : Value) (graph graph' : Fields) (u : Binding)
    → write_targets ts v graph ≡ some graph'
    → Readable graph u
    → Readable graph' u
writes-Readable ts v graph graph' u h (w, before) = elim (Bool-cases (is_target ts u)) [
  | inl same ↦ (v, ground (arith, read-write_targets ts u v graph graph' h))
  | inr other ↦ (w, ground (arith, read-write_targets ts u v graph graph' h))
]

pub every_written :
    (ts : List Binding) (v : Value) (graph graph' : Fields) (us : List Binding)
    → write_targets ts v graph ≡ some graph'
    → All (Readable graph) us
    → All (Readable graph') us
every_written ts v graph graph' [] h r = tt
every_written ts v graph graph' (u ∷ us) h (r, rs) =
    (writes-Readable ts v graph graph' u h r, every_written ts v graph graph' us h rs)
