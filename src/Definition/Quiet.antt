-- ===== src/Definition/Quiet.antt =====
-- Parts of the parser of workflows/definition.py that note nothing, and what they answer then.
use local_canvas.Prelude.{
  String, ◌≡◌, refl, false, Option, none, some, List, [], ◌∷◌, ◌++◌, arith, Option-cases, inl, inr,
}
use local_canvas.Values.{Value, null, str, int, float, bool, arr, obj, Fields}
use local_canvas.Workflow.{Binding}
use local_canvas.Binding.Targets.{find, as_mapping, read_target}
use local_canvas.Definition.Notes.{Problem, Found, pure, fail, noted, ◌>>=◌, ◌>>◌}
use local_canvas.Definition.Head.{non_blank}
use local_canvas.Definition.Field.{text_in}
use local_canvas.Definition.Targets.{is_wired, input_problem, node_problem, binding_problem}

-- A list that is empty in two parts.
pub append-empty {ℓ} : {A : Type ℓ} {xs ys : List A} → xs ++ ys ≡ [] → (xs ≡ []) × (ys ≡ [])
append-empty {xs = []} h = (refl, h)
append-empty {xs = x ∷ xs} h = absurd (ground arith)

-- When a part of the parser notes nothing, its answer is a good one.
pub record Answers {A : Type 0} (Good : A → Type 0) (m : Found A) : Type 0 where
  pub quietly : m.1 ≡ [] → Good m.0

-- An answer that is there.
abbrev pub Given : {A : Type 0} → (A → Type 0) → Option A → Type 0
Given P none = ⊥
Given P (some a) = P a

-- An answer of which nothing is said.
abbrev pub Any : {A : Type 0} → A → Type 0
Any a = Unit

module _ {A : Type 0} (P : A → Type 0) where
  pub Answers-pure : (a : A) → P a → Answers P (pure a)
  Answers-pure a good = record { quietly = λ h. good }

  pub Answers-fail :
      (id : Option String) (problem : Problem) (a : A) → Answers P (fail id problem a)
  Answers-fail id problem a = record { quietly = λ h. absurd (ground arith) }

  pub Answers-any : (m : Found A) → ((a : A) → P a) → Answers P m
  Answers-any m every = record { quietly = λ h. every m.0 }

module _ {A B : Type 0} (P : B → Type 0) where
  -- One part after another.
  pub Answers-bind :
      (Q : A → Type 0) (m : Found A) (f : A → Found B)
      → Answers Q m
      → ((a : A) → Q a → Answers P (f a))
      → Answers P (m >>= f)
  unfolding ◌>>=◌
  Answers-bind Q m f first next = record {
    quietly = λ h. let (q, r) = append-empty h in (next m.0 (first.quietly q)).quietly r;
  }

  -- A part whose answer does not matter.
  pub Answers-skip :
      (m : Found A) (f : A → Found B) → ((a : A) → Answers P (f a)) → Answers P (m >>= f)
  Answers-skip m f next = Answers-bind Any m f (Answers-any Any m (λ a. tt)) (λ a _. next a)

  pub Answers-then : (m : Found A) (k : Found B) → Answers P k → Answers P (m >> k)
  unfolding ◌>>◌
  Answers-then m k next = record { quietly = λ h. next.quietly (append-empty h).1 }

  by_case :
      (Q : A → Type 0) (f : Option A → Found B)
      → ((a : A) → Q a → Answers P (f (some a)))
      → (o : Option A) → Given Q o
      → Answers P (f o)
  by_case Q f next none missing = absurd missing
  by_case Q f next (some a) there = next a there

  -- A part without whose answer the next is not reached.
  pub Answers-Given :
      (Q : A → Type 0) (m : Found (Option A)) (f : Option A → Found B)
      → Answers (Given Q) m
      → ((a : A) → Q a → Answers P (f (some a)))
      → Answers P (m >>= f)
  unfolding ◌>>=◌
  Answers-Given Q m f first next = record {
    quietly =
        λ h. let (q, r) = append-empty h in (by_case Q f next m.0 (first.quietly q)).quietly r;
  }

pub noted-Answers :
    {A : Type 0} (id : Option String) (problem : Problem) (o : Option A)
    → Answers (Given (λ a. o ≡ some a)) (noted id problem o)
unfolding noted
noted-Answers id problem none = Answers-fail _ _ _ _
noted-Answers id problem (some a) = Answers-pure _ _ refl

pub text_in-Answers :
    (id : Option String) (place : String) (v : Option Value)
    → Answers (Given Any) (text_in id place v)
unfolding text_in noted
text_in-Answers id place none = Answers-fail _ _ _ _
text_in-Answers id place (some v) = elim (Option-cases (non_blank v)) [
  | inl e ↦ rw e (Answers-fail _ _ _ _)
  | inr (s, e) ↦ rw e (Answers-pure _ _ tt)
]

Any-Given : {A : Type 0} (Q : A → Type 0) (o : Option A) → Given Q o → Given Any o
Any-Given Q none missing = missing
Any-Given Q (some a) there = tt

pub Given-Any :
    {A : Type 0} {Q : A → Type 0} {m : Found (Option A)}
    → Answers (Given Q) m
    → Answers (Given Any) m
Given-Any {Q = Q} {m = m} first = record { quietly = λ h. Any-Given Q m.0 (first.quietly h) }

-- A target that a user's field can drive: the graph reads a value there, and no other node's output.
abbrev pub Drivable : Fields → Binding → Type 0
Drivable graph t = (v : Value) × (read_target t graph ≡ some v) × (is_wired v ≡ false)

input_problem-none :
    (v : Option Value) (place : String)
    → input_problem v place ≡ none
    → (w : Value) × (v ≡ some w) × (is_wired w ≡ false)
unfolding input_problem
input_problem-none none place h = absurd (ground arith)
input_problem-none (some v) place h = (v, refl, ground arith)

-- The value at an input of what stands under a node's id.
read_node : Option Value → String → Option Value
read_node v input = elim (as_mapping v) [
  | none ↦ none
  | some node ↦ elim (as_mapping (find "inputs" node)) [ none ↦ none | some ins ↦ find input ins ]
]

node_problem-none :
    (v : Option Value) (input place : String)
    → node_problem v input place ≡ none
    → (w : Value) × (read_node v input ≡ some w) × (is_wired w ≡ false)
unfolding node_problem as_mapping read_node
node_problem-none none input place h = absurd (ground arith)
node_problem-none (some null) input place h = absurd (ground arith)
node_problem-none (some (str s)) input place h = absurd (ground arith)
node_problem-none (some (int n)) input place h = absurd (ground arith)
node_problem-none (some (float x)) input place h = absurd (ground arith)
node_problem-none (some (bool b)) input place h = absurd (ground arith)
node_problem-none (some (arr vs)) input place h = absurd (ground arith)
node_problem-none (some (obj node)) input place h =
    elim (Option-cases (as_mapping (find "inputs" node))) [
      | inl e ↦ absurd (ground arith)
      | inr (ins, e) ↦
          let (w, at, free) = input_problem-none (find input ins) place (ground arith) in
          (w, ground arith, free)
    ]

-- The target of a binding without a problem is one that a field can drive.
pub binding_problem-Drivable :
    (t : Binding) (graph : Fields) (place : String)
    → binding_problem t graph place ≡ none
    → Drivable graph t
unfolding binding_problem read_target read_node
binding_problem-Drivable t graph place h = node_problem-none (find t.node graph) t.input place h
