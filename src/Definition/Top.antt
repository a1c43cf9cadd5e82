-- ===== src/Definition/Top.antt =====
-- What the parts of `parse` (workflows/definition.py) answer where they note nothing: an id that is
-- allowed, a path and a graph, and inputs that are wired to the graph.
use local_canvas.Prelude.{
  String, ◌≡◌, true, ◌==◌, Option, none, some, List, [], ◌∷◌, arith, All, Option-cases, Bool-cases,
  inl, inr,
}
use local_canvas.Prelude.Dict.{Dict, lookup}
use local_canvas.Values.{Value, null, str, int, float, bool, arr, obj, Fields}
use local_canvas.Workflow.{Binding, InputField}
use local_canvas.Binding.Targets.{find}
use local_canvas.Validation.Checks.{Printing}
use local_canvas.Validation.Submission.{Distinct}
use local_canvas.Definition.Head.{
  non_blank, is_workflow_id, claim_of, id_of, text_at, GraphFile, absent, no_file, no_text, no_read,
  no_json, json, graph_in, bad_node_in, read_graph, is_rooted, parse_graph,
}
use local_canvas.Definition.Parse.{Inputs, no_inputs_yet, parse_inputs}
use local_canvas.Definition.Quiet.{
  Answers, Answers-pure, Answers-fail, Answers-Given, Given, Any, Given-Any, noted-Answers,
}
use local_canvas.Definition.Bindable.{SomeFit}
use local_canvas.Definition.Exclusive.{Exclusive}
use local_canvas.Definition.Grown.{Grown, New, fields_from-Grown}

-- The inputs of a definition: fields with ids of their own, each with targets that fit the graph, and
-- no target for two of them.
abbrev pub Wired : Option Fields → Inputs → Type 0
Wired graph (fs, bindings) =
    Distinct fs
    × All (λ (f : InputField). Given (SomeFit graph) (lookup f.id bindings)) fs
    × Exclusive bindings

All-fit :
    (graph : Option Fields) (bindings : Dict (List Binding)) (fs : List InputField)
    → All (New graph no_inputs_yet bindings) fs
    → All (λ (f : InputField). Given (SomeFit graph) (lookup f.id bindings)) fs
All-fit graph bindings [] h = tt
All-fit graph bindings (f ∷ fs) ((away, good), h) = (good, All-fit graph bindings fs h)

Grown-Wired :
    (graph : Option Fields) (out : Inputs) → Grown graph no_inputs_yet out → Wired graph out
Grown-Wired graph (fs, bindings) (stay, all_new, distinct, exclusive) = (
  distinct,
  All-fit graph bindings fs all_new,
  exclusive (λ id ts t e at. absurd (unfold lookup in ground arith)),
)

nothing-Wired : (graph : Option Fields) → Wired graph ([], [])
unfolding lookup
nothing-Wired graph = (tt, tt, λ id id' ts ts' t e. absurd (ground arith))

module _ (p : Printing) (graph : Option Fields) where
  pub parse_inputs-Answers : (v : Option Value) → Answers (Wired graph) (parse_inputs p graph v)
  unfolding parse_inputs
  parse_inputs-Answers none = Answers-fail _ _ _ _
  parse_inputs-Answers (some null) = Answers-pure _ _ (nothing-Wired graph)
  parse_inputs-Answers (some (arr vs)) = record {
    quietly = λ h. Grown-Wired graph _ ((fields_from-Grown p graph no_inputs_yet 0 vs).quietly h);
  }
  parse_inputs-Answers (some (str s)) = Answers-fail _ _ _ _
  parse_inputs-Answers (some (int n)) = Answers-fail _ _ _ _
  parse_inputs-Answers (some (float x)) = Answers-fail _ _ _ _
  parse_inputs-Answers (some (bool b)) = Answers-fail _ _ _ _
  parse_inputs-Answers (some (obj fs)) = Answers-fail _ _ _ _

-- An id that the definition claims and that the pattern allows.
abbrev pub GoodId : Option Value → String → Type 0
GoodId v id = (claim_of v ≡ some id) × (is_workflow_id id ≡ true)

pub id_of-Answers : (v : Option Value) → Answers (Given (GoodId v)) (id_of v)
unfolding id_of claim_of
id_of-Answers none = Answers-fail _ _ _ _
id_of-Answers (some (str s)) = elim (Bool-cases (s == "")) [
  | inl e ↦ rw (e, id_of) (Answers-fail _ _ _ _)
  | inr e ↦ elim (Bool-cases (is_workflow_id s)) [
    | inl good ↦ rw (e, good, id_of) (Answers-pure _ (some s) (ground arith, good))
    | inr bad ↦ rw (e, bad, id_of) (Answers-fail _ _ _ _)
  ]
]
id_of-Answers (some null) = Answers-fail _ _ _ _
id_of-Answers (some (int n)) = Answers-fail _ _ _ _
id_of-Answers (some (float x)) = Answers-fail _ _ _ _
id_of-Answers (some (bool b)) = Answers-fail _ _ _ _
id_of-Answers (some (arr vs)) = Answers-fail _ _ _ _
id_of-Answers (some (obj fs)) = Answers-fail _ _ _ _

pub text_at-Answers : (key : String) (v : Option Value) → Answers (Given Any) (text_at key v)
unfolding text_at
text_at-Answers key none = Answers-fail _ _ _ _
text_at-Answers key (some v) = Given-Any (noted-Answers _ _ (non_blank v))

graph_in-Answers : (v : Value) → Answers (Given Any) (graph_in v)
unfolding graph_in
graph_in-Answers (obj graph) = elim (Option-cases (bad_node_in graph)) [
  | inl e ↦ rw (e, graph_in) (Answers-pure _ (some graph) tt)
  | inr (problem, e) ↦ rw (e, graph_in) (Answers-fail _ _ _ _)
]
graph_in-Answers null = Answers-fail _ _ _ _
graph_in-Answers (str s) = Answers-fail _ _ _ _
graph_in-Answers (int n) = Answers-fail _ _ _ _
graph_in-Answers (float x) = Answers-fail _ _ _ _
graph_in-Answers (bool b) = Answers-fail _ _ _ _
graph_in-Answers (arr vs) = Answers-fail _ _ _ _

read_graph-Answers : (file : GraphFile) → Answers (Given Any) (read_graph file)
unfolding read_graph
read_graph-Answers absent = Answers-fail _ _ _ _
read_graph-Answers no_file = Answers-fail _ _ _ _
read_graph-Answers no_text = Answers-fail _ _ _ _
read_graph-Answers no_read = Answers-fail _ _ _ _
read_graph-Answers no_json = Answers-fail _ _ _ _
read_graph-Answers (json v) = graph_in-Answers v

-- A path and a graph that are both there.
abbrev pub BothThere : Option String × Option Fields → Type 0
BothThere r = Given Any r.0 × Given Any r.1

pub parse_graph-Answers :
    (files : String → GraphFile) (data_ : Fields) → Answers BothThere (parse_graph files data_)
unfolding parse_graph
parse_graph-Answers files data_ =
    Answers-Given _ _ _ _ (text_at-Answers "workflow" (find "workflow" data_)) (λ raw _.
      elim (Bool-cases (is_rooted raw)) [
        | inl e ↦ rw e (Answers-fail _ _ _ _)
        | inr e ↦ rw e (
            Answers-Given _ _ _ _ (read_graph-Answers (files raw))
              (λ graph _. Answers-pure _ (some raw, some graph) (tt, tt)))
      ])
