-- ===== src/Definition/Loaded.antt =====
-- What `load_definition` (workflows/definition.py) promises of a definition that it loads.
use local_canvas.Prelude.{
  String, ◌≡◌, refl, sym, ◌⊎◌, true, false, Option, none, some, List, [], ◌∷◌, map, any, arith,
  Option-cases, Bool-cases, inl, inr,
}
use local_canvas.Values.{Value, null, str, int, float, bool, arr, obj, Fields}
use local_canvas.Workflow.{WorkflowDefinition, Presentation, TranslationMode}
use local_canvas.Binding.Bind.{is_empty}
use local_canvas.Binding.Targets.{find}
use local_canvas.Validation.Checks.{Printing}
use local_canvas.Definition.Yaml.{
  Source, no_text, no_read, no_yaml, yaml, walk, top_mapping, read_yaml,
}
use local_canvas.Definition.Head.{
  is_workflow_id, claim_of, parse_workflow_id, parse_name, GraphFile,
}
use local_canvas.Definition.Parse.{
  Inputs, Diagnostic, LoadedDefinition, built, parse_body, result, parse_mapping, parse, is_raised,
  load_definition,
}
use local_canvas.Definition.Quiet.{
  Answers, Answers-pure, Answers-fail, Answers-bind, Answers-skip, Answers-Given, Given, Any,
  append-empty,
}
use local_canvas.Definition.Top.{
  Wired, GoodId, BothThere, parse_inputs-Answers, id_of-Answers, text_at-Answers,
  parse_graph-Answers,
}

-- A definition whose id is the one that the file claims and is allowed, and whose inputs are wired.
abbrev Sound : Fields → WorkflowDefinition → Type 0
Sound data_ w = GoodId (find "id" data_) w.id × Wired (some w.graph) (w.inputs, w.bindings)

module _ (p : Printing) (files : String → GraphFile) where
  built-Sound :
      (data_ : Fields) (id name : String) (path : Option String) (graph : Option Fields)
      (presentation : Presentation) (mode : TranslationMode) (inputs : Inputs)
      → GoodId (find "id" data_) id
      → BothThere (path, graph)
      → Wired graph inputs
      → Given (Sound data_) (built (some id) (some name) path graph presentation mode inputs)
  unfolding built
  built-Sound data_ id name none graph presentation mode inputs good (missing, g) wired = missing
  built-Sound data_ id name (some path) none presentation mode inputs good (there, g) wired =
      absurd g
  built-Sound data_ id name (some path) (some g) presentation mode (fs, bs) good there wired =
      (good, wired)

  parse_body-Answers : (data_ : Fields) → Answers (Given (Sound data_)) (parse_body p files data_)
  unfolding parse_body parse_workflow_id parse_name
  parse_body-Answers data_ = Answers-Given _ _ _ _ (id_of-Answers (find "id" data_)) (λ id good.
      Answers-Given _ _ _ _ (text_at-Answers "name" (find "name" data_)) (λ name _.
        Answers-bind _ _ _ _ (parse_graph-Answers files data_) (λ graph there.
          Answers-skip _ _ _ (λ presentation. Answers-skip _ _ _ (λ mode.
            Answers-bind _ _ _ _ (parse_inputs-Answers p graph.1 (find "inputs" data_))
              (λ inputs wired. Answers-pure _ _ (
                built-Sound data_ id name graph.0 graph.1 presentation mode inputs good there
                  wired)))))))

-- A definition whose id is allowed, whose fields have ids of their own and each at least one target
-- that it can drive in the graph, and of whose targets none comes to two fields.
abbrev pub WellWired : WorkflowDefinition → Type 0
WellWired w = (is_workflow_id w.id ≡ true) × Wired (some w.graph) (w.inputs, w.bindings)

-- With a diagnostic there is no definition, and without one there is a good one, under the claimed id.
abbrev pub Verdict : (WorkflowDefinition → Type 0) → LoadedDefinition → Type 0
Verdict Good d =
    ((d.workflow ≡ none) × (is_empty d.diagnostics ≡ false))
    ⊎ ((w : WorkflowDefinition) × (d.workflow ≡ some w)
        × (d.diagnostics ≡ [])
        × (d.workflow_id ≡ some w.id)
        × Good w)

map-empty {ℓ κ} : {A : Type ℓ} {B : Type κ} (f : A → B) (xs : List A) → map f xs ≡ [] → xs ≡ []
map-empty f [] h = refl
map-empty f (x ∷ xs) h = absurd (ground arith)

is_empty-eq {ℓ} : {A : Type ℓ} (xs : List A) → is_empty xs ≡ true → xs ≡ []
unfolding is_empty
is_empty-eq [] h = refl
is_empty-eq (x ∷ xs) h = absurd (ground arith)

top_mapping-Answers : (v : Value) → Answers (Given Any) (top_mapping v)
unfolding top_mapping
top_mapping-Answers null = Answers-fail _ _ _ _
top_mapping-Answers (obj fields) = Answers-pure _ _ tt
top_mapping-Answers (str s) = Answers-fail _ _ _ _
top_mapping-Answers (int n) = Answers-fail _ _ _ _
top_mapping-Answers (float x) = Answers-fail _ _ _ _
top_mapping-Answers (bool b) = Answers-fail _ _ _ _
top_mapping-Answers (arr vs) = Answers-fail _ _ _ _

read_yaml-Answers : (file : Source) → Answers (Given Any) (read_yaml file)
unfolding read_yaml
read_yaml-Answers no_text = Answers-fail _ _ _ _
read_yaml-Answers no_read = Answers-fail _ _ _ _
read_yaml-Answers no_yaml = Answers-fail _ _ _ _
read_yaml-Answers (yaml root v) = elim (Option-cases (walk root)) [
  | inl e ↦ rw (e, read_yaml) (top_mapping-Answers v)
  | inr (found, e) ↦ rw (e, read_yaml) (Answers-fail _ _ _ _)
]

result-Verdict :
    (Good : WorkflowDefinition → Type 0) (source : String) (workflow : Option WorkflowDefinition)
    (diagnostics : List Diagnostic) (claimed : Option String)
    → (diagnostics ≡ [] → Given (λ w. (claimed ≡ some w.id) × Good w) workflow)
    → Verdict Good (result source workflow diagnostics claimed)
unfolding result is_empty
result-Verdict Good source workflow (d ∷ diagnostics) claimed good = inl (refl, refl)
result-Verdict Good source none [] claimed good = absurd (good refl)
result-Verdict Good source (some w) [] claimed good =
    inr (w, refl, refl, (good refl).0, (good refl).1)

well_wired :
    (data_ : Fields) (w : Option WorkflowDefinition)
    → Given (Sound data_) w
    → Given (λ w. (claim_of (find "id" data_) ≡ some w.id) × WellWired w) w
well_wired data_ none missing = missing
well_wired data_ (some w) ((claimed, good), wired) = (claimed, (good, wired))

no_mapping : (o : Option Fields) → o ≡ none → Given Any o → ⊥
no_mapping none e missing = missing
no_mapping (some data_) e there = absurd (ground arith)

module _ (p : Printing) (files : String → GraphFile) where
  parse_mapping-Verdict :
      (source : String) (data_ : Fields) → Verdict WellWired (parse_mapping p files source data_)
  unfolding parse_mapping
  parse_mapping-Verdict source data_ =
      result-Verdict WellWired source (parse_body p files data_).0 _ (claim_of (find "id" data_))
        (λ h. well_wired data_ (parse_body p files data_).0 (
          (parse_body-Answers p files data_).quietly
            (map-empty _ (parse_body p files data_).1 (append-empty h).1)))

  parse-Verdict : (source : String) (file : Source) → Verdict WellWired (parse p files source file)
  unfolding parse
  parse-Verdict source file = elim (Option-cases (read_yaml file).0) [
    | inr (data_, e) ↦ rw (e, parse) (parse_mapping-Verdict source data_)
    | inl e ↦
        rw (e, parse)
          (result-Verdict WellWired source none _ none (λ h. absurd (
            no_mapping (read_yaml file).0 e
              ((read_yaml-Answers file).quietly (map-empty _ (read_yaml file).1 h)))))
  ]

  -- Every file that `load_definition` gets through comes out in one of two ways: with a diagnostic and
  -- without a definition, or without a diagnostic and with a definition. That has the id that the
  -- file claims, which is allowed; its fields have ids of their own and each at least one target,
  -- which the graph has and no other node drives; and no two fields share a target.
  pub load_definition-Verdict :
      (source : String) (file : Source) (d : LoadedDefinition)
      → load_definition p files source file ≡ some d
      → Verdict WellWired d
  unfolding load_definition
  load_definition-Verdict source file d h =
      elim (Bool-cases (any is_raised (parse p files source file).diagnostics)) [
        | inl e ↦ absurd (ground arith)
        | inr e ↦
            let same : parse p files source file ≡ d = ground arith in
            rw (sym same) (parse-Verdict source file)
      ]
