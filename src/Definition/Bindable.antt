-- ===== src/Definition/Bindable.antt =====
-- What the parser of a field's `bind` (workflows/definition.py) answers when it notes nothing: at
-- least one target, and each of them can be driven in the graph.
use local_canvas.Prelude.{
  ℕ, suc, String, ◌≡◌, refl, false, Option, none, some, List, [], ◌∷◌, map, All, Option-cases, inl,
  inr,
}
use local_canvas.Values.{Value, null, str, int, float, bool, arr, obj, Items, nil, cons, Fields}
use local_canvas.Workflow.{Binding}
use local_canvas.Binding.Bind.{is_empty}
use local_canvas.Binding.Targets.{find}
use local_canvas.Definition.Notes.{noted, ◌>>=◌, at_index}
use local_canvas.Definition.Head.{non_blank}
use local_canvas.Definition.Targets.{
  Placed, node_in, input_in, judged, target_in, parse_bind_target, binding_problem, with_target,
  targets_from, repeat_in, without_repeats, bind_in, parse_bind,
}
use local_canvas.Definition.Quiet.{
  Answers, Answers-pure, Answers-fail, Answers-then, Answers-Given, Given, Any, Given-Any,
  noted-Answers, Drivable, binding_problem-Drivable,
}

-- A target against the graph, which may not have been read.
abbrev pub Fits : Option Fields → Binding → Type 0
Fits none t = Unit
Fits (some graph) t = Drivable graph t

judged-Answers :
    (id place : String) (graph : Option Fields) (t : Binding)
    → Answers (Given (Fits graph)) (judged id place graph t)
unfolding judged
judged-Answers id place none t = Answers-pure _ _ tt
judged-Answers id place (some graph) t = elim (Option-cases (binding_problem t graph place)) [
  | inl e ↦ rw (e, judged) (Answers-pure _ (some t) (binding_problem-Drivable t graph place e))
  | inr (problem, e) ↦ rw (e, judged) (Answers-fail _ _ _ _)
]

node_in-Answers : (id place : String) (v : Option Value) → Answers (Given Any) (node_in id place v)
unfolding node_in noted
node_in-Answers id place none = Answers-fail _ _ _ _
node_in-Answers id place (some (int n)) = Answers-pure _ _ tt
node_in-Answers id place (some (str s)) = Given-Any (noted-Answers _ _ (non_blank (str s)))
node_in-Answers id place (some null) = Answers-fail _ _ _ _
node_in-Answers id place (some (float x)) = Answers-fail _ _ _ _
node_in-Answers id place (some (bool b)) = Answers-fail _ _ _ _
node_in-Answers id place (some (arr vs)) = Answers-fail _ _ _ _
node_in-Answers id place (some (obj fs)) = Answers-fail _ _ _ _

input_in-Answers :
    (id place : String) (v : Option Value) → Answers (Given Any) (input_in id place v)
unfolding input_in
input_in-Answers id place none = Answers-fail _ _ _ _
input_in-Answers id place (some v) = Given-Any (noted-Answers _ _ (non_blank v))

target_in-Answers :
    (id place : String) (graph : Option Fields) (bind : Fields)
    → Answers (Given (Fits graph)) (target_in id place graph bind)
unfolding target_in
target_in-Answers id place graph bind =
    Answers-Given _ _ _ _ (node_in-Answers id place (find "node" bind)) (λ n _.
      Answers-Given _ _ _ _ (input_in-Answers id place (find "input" bind))
        (λ i _. judged-Answers id place graph _))

parse_bind_target-Answers :
    (id place : String) (graph : Option Fields) (v : Value)
    → Answers (Given (Fits graph)) (parse_bind_target id place graph v)
unfolding parse_bind_target
parse_bind_target-Answers id place graph (obj bind) =
    Answers-then _ _ _ (target_in-Answers id place graph bind)
parse_bind_target-Answers id place graph null = Answers-fail _ _ _ _
parse_bind_target-Answers id place graph (str s) = Answers-fail _ _ _ _
parse_bind_target-Answers id place graph (int n) = Answers-fail _ _ _ _
parse_bind_target-Answers id place graph (float x) = Answers-fail _ _ _ _
parse_bind_target-Answers id place graph (bool b) = Answers-fail _ _ _ _
parse_bind_target-Answers id place graph (arr vs) = Answers-fail _ _ _ _

abbrev AllFit : Option Fields → List Placed → Type 0
AllFit graph ts = All (λ (t : Placed). Fits graph t.1) ts

-- At least one target, and each fits.
abbrev pub SomeFit : Option Fields → List Binding → Type 0
SomeFit graph ts = (is_empty ts ≡ false) × All (Fits graph) ts

abbrev ConsFit : Option Fields → List Placed → Type 0
ConsFit graph [] = ⊥
ConsFit graph (t ∷ ts) = AllFit graph (t ∷ ts)

targets_from-Answers :
    (id : String) (graph : Option Fields) (index : ℕ) (vs : Items)
    → Answers (Given (AllFit graph)) (targets_from id graph index vs)
unfolding targets_from with_target
targets_from-Answers id graph index nil = Answers-pure _ _ tt
targets_from-Answers id graph index (cons v vs) =
    Answers-Given _ _ _ _ (parse_bind_target-Answers id (at_index "bind" index) graph v) (λ t good.
      Answers-Given _ _ _ _ (targets_from-Answers id graph (suc index) vs)
        (λ ts rest. Answers-pure _ _ (good, rest)))

All-targets :
    (graph : Option Fields) (ts : List Placed)
    → AllFit graph ts
    → All (Fits graph) (map (λ (t : Placed). t.1) ts)
All-targets graph [] good = tt
All-targets graph (t ∷ ts) (good, rest) = (good, All-targets graph ts rest)

without_repeats-Answers :
    (id : String) (graph : Option Fields) (t : Placed) (ts : List Placed)
    → AllFit graph (t ∷ ts)
    → Answers (Given (SomeFit graph)) (without_repeats id (some (t ∷ ts)))
unfolding without_repeats is_empty
without_repeats-Answers id graph t ts good = elim (Option-cases (repeat_in [] (t ∷ ts))) [
  | inl e ↦
      rw (e, without_repeats)
        (Answers-pure _ (some (map (λ t. t.1) (t ∷ ts))) (refl, All-targets graph (t ∷ ts) good))
  | inr (twice, e) ↦ rw (e, without_repeats) (Answers-fail _ _ _ _)
]

cons-Answers :
    (id : String) (graph : Option Fields) (ts : List Placed)
    → ConsFit graph ts
    → Answers (Given (SomeFit graph)) (without_repeats id (some ts))
cons-Answers id graph [] none_there = absurd none_there
cons-Answers id graph (t ∷ ts) good = without_repeats-Answers id graph t ts good

listed-Answers :
    (id : String) (graph : Option Fields) (v : Value) (vs : Items)
    → Answers (Given (SomeFit graph)) (targets_from id graph 0 (cons v vs) >>= without_repeats id)
unfolding targets_from with_target
listed-Answers id graph v vs =
    Answers-Given _ (ConsFit graph) _ _
      (Answers-Given _ _ _ _ (parse_bind_target-Answers id (at_index "bind" 0) graph v) (λ t good.
        Answers-Given _ _ _ _ (targets_from-Answers id graph 1 vs)
          (λ ts rest. Answers-pure _ _ (good, rest))))
      (cons-Answers id graph)

bind_in-Answers :
    (id : String) (graph : Option Fields) (v : Option Value)
    → Answers (Given (SomeFit graph)) (bind_in id graph v)
unfolding bind_in with_target
bind_in-Answers id graph none = Answers-fail _ _ _ _
bind_in-Answers id graph (some (obj bind)) =
    Answers-Given _ _ _ _ (parse_bind_target-Answers id "bind" graph (obj bind))
      (λ t good. without_repeats-Answers id graph ("bind", t) [] (good, tt))
bind_in-Answers id graph (some (arr nil)) = Answers-fail _ _ _ _
bind_in-Answers id graph (some (arr (cons v vs))) = listed-Answers id graph v vs
bind_in-Answers id graph (some null) = Answers-fail _ _ _ _
bind_in-Answers id graph (some (str s)) = Answers-fail _ _ _ _
bind_in-Answers id graph (some (int n)) = Answers-fail _ _ _ _
bind_in-Answers id graph (some (float x)) = Answers-fail _ _ _ _
bind_in-Answers id graph (some (bool b)) = Answers-fail _ _ _ _

-- A field whose `bind` notes nothing has at least one target, and each fits the graph.
pub parse_bind-Answers :
    (raw : Fields) (id : String) (graph : Option Fields)
    → Answers (Given (SomeFit graph)) (parse_bind raw id graph)
unfolding parse_bind
parse_bind-Answers raw id graph = bind_in-Answers id graph (find "bind" raw)
