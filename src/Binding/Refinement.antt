-- ===== src/Binding/Refinement.antt =====
-- What the bound graph (workflows/binding.py) reads at every target, against a description of it.
use local_canvas.Prelude.{
  true, false, ◌≡◌, ◌≢◌, refl, Option, none, some, List, [], ◌∷◌, arith, Option-cases, Bool-cases,
  inl, inr, if◌then◌else◌, ap, sym,
}
use local_canvas.Prelude.Dict.{Dict, lookup}
use local_canvas.Values.{Value, Fields}
use local_canvas.Workflow.{Binding, InputField, WorkflowDefinition, bindings_for, is_media}
use local_canvas.Binding.Targets.{read_target, write_targets, is_target, read-write_targets}
use local_canvas.Binding.Bind.{
  BindFault, and_then, Outcome, done, fault, raised, Resolver, is_empty, resolved, write_field,
  bind_fields, bind_values, unknown_keys, missing_keys,
}

-- What a target reads after values were bound to fields, one after the other: the last of them whose
-- field is bound to the target, and what it read before where there is none.
abbrev pub reading :
    WorkflowDefinition → List (InputField × Value) → Binding → Option Value → Option Value
reading workflow [] u before = before
reading workflow ((f, x) ∷ bound) u before =
    reading workflow bound u (if is_target (bindings_for workflow f.id) u then some x else before)

-- The values that are bound for a list of fields, and the state of the resolver before and after: for a
-- field without a value none, for a media field what the resolver answers for its value in the state
-- that the fields before it left, and for any other field its value.
pub data Bound {E S : Type 0} (resolver : Option (Resolver E S)) (values : Dict Value)
    : List InputField → S → List (InputField × Value) → S → Type 0 where
  no_field : {s : S} → Bound resolver values [] s [] s
  no_value :
      {f : InputField} {fs : List InputField} {s out : S} {bound : List (InputField × Value)}
      → lookup f.id values ≡ none
      → Bound resolver values fs s bound out
      → Bound resolver values (f ∷ fs) s bound out
  submitted :
      {f : InputField} {fs : List InputField} {s out : S} {bound : List (InputField × Value)}
      → (v : Value) → lookup f.id values ≡ some v
      → is_media f ≡ false
      → Bound resolver values fs s bound out
      → Bound resolver values (f ∷ fs) s ((f, v) ∷ bound) out
  answered :
      {f : InputField} {fs : List InputField} {s out : S} {bound : List (InputField × Value)}
      → (resolve : Resolver E S) (v x : Value) (s' : S) → lookup f.id values ≡ some v
      → is_media f ≡ true
      → resolver ≡ some resolve
      → resolve f v s ≡ (done x, s')
      → Bound resolver values fs s' bound out
      → Bound resolver values (f ∷ fs) s ((f, x) ∷ bound) out

fault_not_done : {E A : Type 0} {o : Outcome E A} {e : BindFault} {a : A} → o ≡ fault e → o ≢ done a
fault_not_done g h = cc

raised_not_done : {E A : Type 0} {o : Outcome E A} {e : E} {a : A} → o ≡ raised e → o ≢ done a
raised_not_done g h = cc

done-inj : {E A : Type 0} {o : Outcome E A} {a b : A} → o ≡ done a → o ≡ done b → a ≡ b
done-inj g h = cc

and_then-done :
    {E S A B : Type 0} (p : Outcome E A × S) (rest : A → S → Outcome E B × S) {b : B} {out : S}
    → and_then p rest ≡ (done b, out)
    → (a : A) × (s : S) × (p ≡ (done a, s)) × (rest a s ≡ (done b, out))
unfolding and_then
and_then-done (done a, s) rest h = (a, s, refl, h)
and_then-done (fault e, s) rest h = absurd (fault_not_done refl (ap (λ q. q.0) h))
and_then-done (raised e, s) rest h = absurd (raised_not_done refl (ap (λ q. q.0) h))

module _ {E S : Type 0} (resolver : Option (Resolver E S)) where
  write_field-done :
      (workflow : WorkflowDefinition) (f : InputField) (graph graph' : Fields) (v : Value)
      → write_field resolver workflow f graph v ≡ done graph'
      → write_targets (bindings_for workflow f.id) v graph ≡ some graph'
  unfolding write_field
  write_field-done workflow f graph graph' v h =
      elim (Option-cases (write_targets (bindings_for workflow f.id) v graph)) [
        | inl e ↦ absurd (ground arith)
        | inr (g, e) ↦ ground arith
      ]

  -- One round of the loop, when the whole loop succeeds.
  data Round (workflow : WorkflowDefinition) (f : InputField) (fs : List InputField)
      (values : Dict Value) (graph : Fields) (s : S) (out : Outcome E Fields × S) : Type 0 where
    skips :
        lookup f.id values ≡ none
        → bind_fields resolver workflow fs values graph s ≡ out
        → Round workflow f fs values graph s out
    writes :
        (v x : Value) (s' : S) (next : Fields)
        → lookup f.id values ≡ some v
        → resolved resolver f v s ≡ (done x, s')
        → write_targets (bindings_for workflow f.id) x graph ≡ some next
        → bind_fields resolver workflow fs values next s' ≡ out
        → Round workflow f fs values graph s out

  bind_fields-Round :
      (workflow : WorkflowDefinition) (f : InputField) (fs : List InputField) (values : Dict Value)
      (graph graph' : Fields) (s : S) (out : S)
      → bind_fields resolver workflow (f ∷ fs) values graph s ≡ (done graph', out)
      → Round workflow f fs values graph s (done graph', out)
  unfolding bind_fields
  bind_fields-Round workflow f fs values graph graph' s out h =
      elim (Option-cases (lookup f.id values)) [
        | inl e ↦ skips e (rw (e, bind_fields) at h)
        | inr (v, e) ↦
            let (x, s', res, h1) =
              and_then-done (resolved resolver f v s)
                (λ x s'.
                  and_then (write_field resolver workflow f graph x, s')
                    (bind_fields resolver workflow fs values))
                (rw (e, bind_fields) at h) in
            let (next, s'', wr, h2) =
              and_then-done (write_field resolver workflow f graph x, s')
                (bind_fields resolver workflow fs values) h1 in
            writes v x s' next e res (write_field-done workflow f graph next x (ap (λ q. q.0) wr))
              (rw (← ap (λ q. q.1) wr) at h2)
      ]

  -- A value that was resolved is one more that is bound.
  resolved-Bound :
      (f : InputField) (fs : List InputField) (values : Dict Value) (v x : Value) (s s' out : S)
      (bound : List (InputField × Value))
      → lookup f.id values ≡ some v
      → resolved resolver f v s ≡ (done x, s')
      → Bound resolver values fs s' bound out
      → Bound resolver values (f ∷ fs) s ((f, x) ∷ bound) out
  unfolding resolved
  resolved-Bound f fs values v x s s' out bound e res rest = elim (Bool-cases (is_media f)) [
    | inl media ↦ elim (Option-cases resolver) [
      | inl missing ↦
          absurd (fault_not_done refl (ap (λ q. q.0) (rw (media, missing, resolved) at res)))
      | inr (resolve, there) ↦
          answered resolve v x s' e media there (rw (media, there, resolved) at res) rest
    ]
    | inr plain ↦
        let same : (done v, s) ≡ (done x, s') = rw (plain, resolved) at res in
        let value : v ≡ x = done-inj refl (ap (λ q. q.0) same) in
        let state : s ≡ s' = ap (λ q. q.1) same in
        let given : Bound resolver values fs s bound out = rw state rest in
        rw (← value) (submitted {s = s} {out = out} {bound = bound} v e plain given)
  ]

  module _ (workflow : WorkflowDefinition) (values : Dict Value) where
    bind_fields-Bound :
        (fs : List InputField) (graph graph' : Fields) (s out : S)
        → bind_fields resolver workflow fs values graph s ≡ (done graph', out)
        → (bound : List (InputField × Value)) × Bound resolver values fs s bound out
          × ((u : Binding) → read_target u graph' ≡ reading workflow bound u (read_target u graph))
    unfolding bind_fields
    bind_fields-Bound [] graph graph' s out h = (
      [],
      rw (ap (λ q. q.1) h) no_field,
      λ u. sym (ap (read_target u) (done-inj refl (ap (λ q. q.0) h))),
    )
    bind_fields-Bound (f ∷ fs) graph graph' s out h =
        elim (bind_fields-Round workflow f fs values graph graph' s out h) [
          | skips e rest ↦
              let (bound, given, reads) = bind_fields-Bound fs graph graph' s out rest in
              (bound, no_value e given, reads)
          | writes v x s' next e res wrote rest ↦
              let (bound, given, reads) = bind_fields-Bound fs next graph' s' out rest in
              (
                (f, x) ∷ bound,
                resolved-Bound f fs values v x s s' out bound e res given,
                λ u.
                    rw (← read-write_targets (bindings_for workflow f.id) u x graph next wrote)
                      (reads u),
              )
        ]

    -- When the binding succeeds, the resolver was asked once for each media field that has a value, in
    -- the workflow's order, each time in the state that the time before left. Every target of the graph
    -- reads what was bound last to a field bound to it, which is the submitted value, or for a media
    -- field the resolver's answer, and a target to which nothing was bound reads as in the loaded graph.
    pub bind_values-Bound :
        (graph : Fields) (s out : S)
        → bind_values resolver workflow values s ≡ (done graph, out)
        → (bound : List (InputField × Value)) × Bound resolver values workflow.inputs s bound out
          × ((u : Binding)
              → read_target u graph ≡ reading workflow bound u (read_target u workflow.graph))
    unfolding bind_values
    bind_values-Bound graph s out h = elim (Bool-cases (is_empty (unknown_keys workflow values))) [
      | inr e ↦ absurd (fault_not_done refl (ap (λ q. q.0) (rw (e, bind_values) at h)))
      | inl e ↦ elim (Bool-cases (is_empty (missing_keys workflow values))) [
        | inr m ↦ absurd (fault_not_done refl (ap (λ q. q.0) (rw (e, m, bind_values) at h)))
        | inl m ↦
            bind_fields-Bound workflow.inputs workflow.graph graph s out
              (rw (e, m, bind_values) at h)
      ]
    ]
