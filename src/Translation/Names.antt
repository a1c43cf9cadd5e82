-- ===== src/Translation/Names.antt =====
-- The stage (translation/service.py) changes values, and no names.
use local_canvas.Prelude.{
  String, ◌≡◌, refl, sym, ◌∙◌, ap, Bool, true, some, List, [], ◌∷◌, ◌||◌, any, ◌==◌, eq_iff, arith,
  Option-cases, Bool-cases, inl, inr,
}
use local_canvas.Prelude.Dict.{Dict, insert, has_key, keys, has_key-false}
use local_canvas.Values.{Value, str}
use local_canvas.Workflow.{InputField, WorkflowDefinition}
use local_canvas.Translation.Service.{
  Config, FieldTranslation, TranslationResult, Attempt, done, raised, Translator, translate_text,
  wanted, text_of, with_entry, after_entry, is_off, apply_fields, apply,
}
use local_canvas.Translation.Applied.{HasId, translate_text-HasId}

pub has_key-keys : (k : String) (d : Dict Value) → has_key k d ≡ any (λ j. j == k) (keys d)
unfolding has_key keys
has_key-keys k [] = refl
has_key-keys k ((j, v) ∷ d) = ap (λ b. j == k || b) (has_key-keys k d)

keys-insert :
    (k : String) (v : Value) (d : Dict Value) → has_key k d ≡ true → keys (insert k v d) ≡ keys d
unfolding has_key keys insert
keys-insert k v [] h = absurd (ground arith)
keys-insert k v ((j, w) ∷ d) h = elim (Bool-cases (j == k)) [
  | inl same ↦ rw same (ap (λ i. i ∷ keys d) (sym ((eq_iff j k).0 same)))
  | inr other ↦ rw other (ap (λ ks. j ∷ ks) (keys-insert k v d (ground arith)))
]

wanted-has_key :
    (f : InputField) (values : Dict Value) (text : String)
    → wanted f values ≡ some text
    → has_key f.id values ≡ true
unfolding wanted text_of
wanted-has_key f values text h = elim (Bool-cases (has_key f.id values)) [
  | inl there ↦ there
  | inr away ↦ absurd (ground (arith, has_key-false f.id values away))
]

with_entry-keys :
    (entry : FieldTranslation) (result : TranslationResult)
    → has_key entry.field_id result.values ≡ true
    → keys (with_entry entry result).values ≡ keys result.values
unfolding with_entry
with_entry-keys entry result h = elim (Bool-cases entry.applied) [
  | inl e ↦ rw (with_entry, e) (keys-insert entry.field_id (str entry.effective) result.values h)
  | inr e ↦ rw (with_entry, e) refl
]

-- What the stage answers has the names of the values.
abbrev Named : {E : Type 0} → List String → Attempt E TranslationResult → Type 0
Named names (done result) = keys result.values ≡ names
Named names (raised e) = Unit

module _ {E W : Type 0} (translate : Translator E W) (config : Config) where
  after_entry-Named :
      (id : String) (names : List String) (result : TranslationResult)
      (rest : TranslationResult → W → Attempt E TranslationResult × W)
      (entry : Attempt E FieldTranslation × W)
      → HasId id entry.0
      → has_key id result.values ≡ true
      → keys result.values ≡ names
      → ((result : TranslationResult) (w : W)
          → keys result.values ≡ names
          → Named names (rest result w).0)
      → Named names (after_entry result rest entry).0
  unfolding after_entry
  after_entry-Named id names result rest (raised e, w) mine there same later = tt
  after_entry-Named id names result rest (done entry, w) mine there same later =
      later (with_entry entry result) w (with_entry-keys entry result (rw mine there) ∙ same)

  apply_fields-Named :
      (fs : List InputField) (values : Dict Value) (result : TranslationResult) (w : W)
      → keys result.values ≡ keys values
      → Named (keys values) (apply_fields translate config fs values result w).0
  unfolding apply_fields
  apply_fields-Named [] values result w same = same
  apply_fields-Named (f ∷ fs) values result w same = elim (Option-cases (wanted f values)) [
    | inl e ↦ rw (e, apply_fields) (apply_fields-Named fs values result w same)
    | inr (text, e) ↦
        let there : has_key f.id result.values ≡ true =
          has_key-keys f.id result.values
          ∙ ap (λ ks. any (λ j. j == f.id) ks) same
          ∙ sym (has_key-keys f.id values)
          ∙ wanted-has_key f values text e in
        rw (e, apply_fields)
          (after_entry-Named f.id (keys values) result (apply_fields translate config fs values)
            (translate_text translate config text f.id w)
            (translate_text-HasId translate config text f.id w) there same
            (λ result w. apply_fields-Named fs values result w))
  ]

  apply-Named :
      (workflow : WorkflowDefinition) (values : Dict Value) (wanted_here : Bool) (w : W)
      → Named (keys values) (apply translate config workflow values wanted_here w).0
  unfolding apply
  apply-Named workflow values wanted_here w =
      elim (Bool-cases (is_off config workflow wanted_here)) [
        | inl e ↦ simp e refl
        | inr e ↦ simp e (
            apply_fields-Named workflow.inputs values (record { values = values; fields = [] }) w
              refl)
      ]

  -- When the stage succeeds, its values have the names of those that it was given, in their order.
  pub apply-keys :
      (workflow : WorkflowDefinition) (values : Dict Value) (wanted_here : Bool) (w w' : W)
      (result : TranslationResult)
      → apply translate config workflow values wanted_here w ≡ (done result, w')
      → keys result.values ≡ keys values
  apply-keys workflow values wanted_here w w' result h =
      rw h at (apply-Named workflow values wanted_here w)
