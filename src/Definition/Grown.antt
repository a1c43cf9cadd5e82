-- ===== src/Definition/Grown.antt =====
-- The loop over the fields of a definition (workflows/definition.py), where it notes nothing: every
-- field is kept with its targets, under an id of its own.
use local_canvas.Prelude.{
  ℕ, suc, String, ◌≡◌, refl, true, false, eq_iff, Option, none, some, List, [], ◌∷◌, arith, All,
  Bool-cases, inl, inr,
}
use local_canvas.Prelude.Dict.{
  Dict, lookup, has_key, has_key-false, lookup-insert, lookup-insert_self,
}
use local_canvas.Values.{Items, nil, cons, Fields}
use local_canvas.Workflow.{Binding, InputField, is_field}
use local_canvas.Binding.Bind.{is_empty}
use local_canvas.Validation.Checks.{Printing}
use local_canvas.Validation.Submission.{Distinct}
use local_canvas.Definition.Notes.{Found, pure, ◌>>=◌}
use local_canvas.Definition.Parse.{Loop, taken_notes, keep_field, with_field, Inputs, fields_from}
use local_canvas.Definition.Field.{ParsedField}
use local_canvas.Definition.Quiet.{
  Answers, Answers-pure, Answers-fail, Answers-bind, Answers-Given, Given,
}
use local_canvas.Definition.Bindable.{SomeFit}
use local_canvas.Definition.Parsed.{parse_field-Answers}
use local_canvas.Definition.Exclusive.{Owned, Exclusive, Owned-Exclusive, kept_state, kept-Owned}

-- A field that the loop keeps: its id and its targets are new.
abbrev Kept : Loop → InputField → List Binding → Option InputField × Loop → Type 0
Kept s f ts r =
    (r ≡ (some f, kept_state s f ts))
    × (has_key f.id s.bindings ≡ false)
    × (taken_notes f.id s.taken ts ≡ [])

empty_list {ℓ} : {A : Type ℓ} (xs : List A) → is_empty xs ≡ true → xs ≡ []
unfolding is_empty
empty_list [] h = refl
empty_list (x ∷ xs) h = absurd (ground arith)

keep_field-Answers :
    (s : Loop) (f : InputField) (ts : List Binding)
    → Answers (Kept s f ts) (keep_field s (some (f, some ts)))
unfolding keep_field
keep_field-Answers s f ts = elim (Bool-cases (has_key f.id s.bindings)) [
  | inl twice ↦ rw (twice, keep_field) (Answers-fail _ _ _ _)
  | inr new ↦ elim (Bool-cases (is_empty (taken_notes f.id s.taken ts))) [
    | inl free ↦
        rw (new, free, keep_field)
          (Answers-pure _ _ (refl, new, empty_list (taken_notes f.id s.taken ts) free))
    | inr taken ↦
        rw (new, taken, keep_field)
          (record { quietly = λ h. absurd (unfold is_empty in ground arith) })
  ]
]

-- A field whose id is new, and that comes to targets which fit.
abbrev pub New : Option Fields → Loop → Dict (List Binding) → InputField → Type 0
New graph s out f = (lookup f.id s.bindings ≡ none) × Given (SomeFit graph) (lookup f.id out)

-- What a quiet run of the loop makes of its state: the bindings that were there stay, each of the
-- fields has an id that is new and targets that fit, and no target comes to two fields.
abbrev pub Grown : Option Fields → Loop → Inputs → Type 0
Grown graph s (fs, bindings) =
    ((id : String) (ts : List Binding)
      → lookup id s.bindings ≡ some ts
      → lookup id bindings ≡ some ts)
    × All (New graph s bindings) fs
    × Distinct fs
    × (Owned s → Exclusive bindings)

absent-not_field :
    (k : String) (fs : List InputField) (d : Dict (List Binding)) (ts : List Binding)
    → All (λ (f : InputField). lookup f.id d ≡ none) fs
    → lookup k d ≡ some ts
    → is_field k fs ≡ false
unfolding is_field
absent-not_field k [] d ts h e = refl
absent-not_field k (f ∷ fs) d ts (away, h) e =
    ground (arith, eq_iff f.id k, absent-not_field k fs d ts h e)

-- Fields that are new after one is kept are new before.
earlier-New :
    (graph : Option Fields) (s : Loop) (f : InputField) (ts : List Binding)
    (out : Dict (List Binding)) (fs : List InputField)
    → All (New graph (kept_state s f ts) out) fs
    → All (New graph s out) fs
      × All (λ (g : InputField). lookup g.id (kept_state s f ts).bindings ≡ none) fs
earlier-New graph s f ts out [] h = (tt, tt)
earlier-New graph s f ts out (g ∷ fs) ((away, good), h) =
    let (before, after) = earlier-New graph s f ts out fs h in
    let earlier : lookup g.id s.bindings ≡ none =
      ground (arith, lookup-insert f.id g.id ts s.bindings) in
    (((earlier, good), before), (away, after))

Grown-cons :
    (graph : Option Fields) (s : Loop) (f : InputField) (ts : List Binding) (rest : Inputs)
    → SomeFit graph ts
    → has_key f.id s.bindings ≡ false
    → taken_notes f.id s.taken ts ≡ []
    → Grown graph (kept_state s f ts) rest
    → Grown graph s (f ∷ rest.0, rest.1)
Grown-cons graph s f ts (fs, out) fit new free (stay, all_new, distinct, exclusive) =
    let absent : lookup f.id s.bindings ≡ none = has_key-false f.id s.bindings new in
    let mine : lookup f.id out ≡ some ts = stay f.id ts (lookup-insert_self f.id ts s.bindings) in
    let (before, after) = earlier-New graph s f ts out fs all_new in
    (
      λ id us e. stay id us (ground (arith, lookup-insert f.id id ts s.bindings, eq_iff f.id id)),
      ((absent, rw mine fit), before),
      (
        absent-not_field f.id fs (kept_state s f ts).bindings ts after
            (lookup-insert_self f.id ts s.bindings),
        distinct,
      ),
      λ owned. exclusive (kept-Owned s f ts new free owned),
    )

module _ (p : Printing) (graph : Option Fields) where
  -- The loop's body, before a rest of the loop that grows the state.
  abbrev step : Loop → (Loop → Found Inputs) → ParsedField → Found Inputs
  step s rest parsed = keep_field s (some parsed) >>= λ kept.
      rest kept.1 >>= λ later. pure (with_field kept.0 later.0, later.1)

  step-Grown :
      (s : Loop) (rest : Loop → Found Inputs) (f : InputField) (targets : Option (List Binding))
      → Given (SomeFit graph) targets
      → ((s' : Loop) → Answers (Grown graph s') (rest s'))
      → Answers (Grown graph s) (step s rest (f, targets))
  unfolding with_field
  step-Grown s rest f none missing later = absurd missing
  step-Grown s rest f (some ts) fit later =
      Answers-bind _ _ _ _ (keep_field-Answers s f ts) (λ kept (e, new, free). rw e (
        Answers-bind _ _ _ _ (later (kept_state s f ts))
          (λ out grown. Answers-pure _ _ (Grown-cons graph s f ts out fit new free grown))))

  pub fields_from-Grown :
      (s : Loop) (index : ℕ) (vs : Items) → Answers (Grown graph s) (fields_from p graph s index vs)
  unfolding fields_from
  fields_from-Grown s index nil = Answers-pure _ _ (λ id ts e. e, tt, tt, Owned-Exclusive s)
  fields_from-Grown s index (cons v vs) =
      Answers-Given _ _ _ _ (parse_field-Answers p graph index v) (λ parsed good.
        step-Grown s (λ s'. fields_from p graph s' (suc index) vs) parsed.0 parsed.1 good
          (λ s'. fields_from-Grown s' (suc index) vs))
