-- ===== src/Registry/Claims.antt =====
-- The claims of ids that `_resolve` (workflows/registry.py) collects: an id is duplicated exactly when
-- more than one file claims it.
use local_canvas.Prelude.{
  String, ◌≡◌, refl, sym, ◌∙◌, ap, Bool, false, none, some, List, [], ◌∷◌, ◌++◌, filter, length,
  ltb, ◌==◌, ◌||◌, eq_iff, arith, Option-cases, Bool-cases, inl, inr, if◌then◌else◌,
}
use local_canvas.Prelude.Dict.{Dict, lookup, insert, has_key, lookup-insert}
use local_canvas.Definition.Parse.{LoadedDefinition}
use local_canvas.Registry.Resolve.{held, claimed_id, add_claim, claims_from, duplicated}

-- An item that claims an id.
abbrev pub is_claim : String → LoadedDefinition → Bool
is_claim id item = elim (claimed_id item) [ none ↦ false | some other ↦ other == id ]

-- The items that claim an id, in order.
abbrev pub claimants : String → List LoadedDefinition → List LoadedDefinition
claimants id loaded = filter (is_claim id) loaded

append_assoc {ℓ} : {A : Type ℓ} (xs ys zs : List A) → (xs ++ ys) ++ zs ≡ xs ++ (ys ++ zs)
append_assoc [] ys zs = refl
append_assoc (x ∷ xs) ys zs = ap (λ l. x ∷ l) (append_assoc xs ys zs)

append-nil {ℓ} : {A : Type ℓ} (xs : List A) → xs ++ [] ≡ xs
append-nil [] = refl
append-nil (x ∷ xs) = ap (λ l. x ∷ l) (append-nil xs)

held-insert :
    (j k : String) (items : List LoadedDefinition) (d : Dict (List LoadedDefinition))
    → held j (insert k items d) ≡ (if k == j then items else held j d)
unfolding held
held-insert j k items d = elim (Bool-cases (k == j)) [
  | inl same ↦ rw (held, lookup-insert k j items d, same) refl
  | inr other ↦ rw (held, lookup-insert k j items d, other) refl
]

held-add_claim :
    (id : String) (by_id : Dict (List LoadedDefinition)) (item : LoadedDefinition)
    → held id (add_claim by_id item) ≡ held id by_id ++ (if is_claim id item then item ∷ [] else [])
unfolding add_claim
held-add_claim id by_id item = elim (Option-cases (claimed_id item)) [
  | inl e ↦ rw (add_claim, is_claim, e) (sym (append-nil (held id by_id)))
  | inr (k, e) ↦ elim (Bool-cases (k == id)) [
    | inl same ↦
        let here : k ≡ id = (eq_iff k id).0 same in
        rw (add_claim, is_claim, e, held-insert id k (held k by_id ++ (item ∷ [])) by_id, same)
          (ap (λ j. held j by_id ++ (item ∷ [])) here)
    | inr other ↦
        rw (add_claim, is_claim, e, held-insert id k (held k by_id ++ (item ∷ [])) by_id, other)
          (sym (append-nil (held id by_id)))
  ]
]

filter-cons :
    (p : LoadedDefinition → Bool) (x : LoadedDefinition) (xs : List LoadedDefinition)
    → filter p (x ∷ xs) ≡ (if p x then x ∷ [] else []) ++ filter p xs
filter-cons p x xs = elim (Bool-cases (p x)) [
  | inl e ↦ rw (filter, e) refl
  | inr e ↦ rw (filter, e) refl
]

held-claims_from :
    (id : String) (by_id : Dict (List LoadedDefinition)) (items : List LoadedDefinition)
    → held id (claims_from by_id items) ≡ held id by_id ++ claimants id items
unfolding claims_from
held-claims_from id by_id [] = sym (append-nil (held id by_id))
held-claims_from id by_id (item ∷ items) =
    held-claims_from id (add_claim by_id item) items
    ∙ ap (λ l. l ++ claimants id items) (held-add_claim id by_id item)
    ∙ append_assoc (held id by_id) (if is_claim id item then item ∷ [] else []) (claimants id items)
    ∙ ap (λ l. held id by_id ++ l) (sym (filter-cons (is_claim id) item items))

-- A dict with each key once.
abbrev Keyed : Dict (List LoadedDefinition) → Type 0
Keyed [] = Unit
Keyed ((k, items) ∷ d) = (has_key k d ≡ false) × Keyed d

has_key-insert :
    (j k : String) (items : List LoadedDefinition) (d : Dict (List LoadedDefinition))
    → has_key j (insert k items d) ≡ (k == j || has_key j d)
unfolding has_key insert
has_key-insert j k items [] = refl
has_key-insert j k items ((i, v) ∷ d) =
    ground (arith, has_key-insert j k items d, eq_iff i k, eq_iff k j, eq_iff i j)

insert-Keyed :
    (k : String) (items : List LoadedDefinition) (d : Dict (List LoadedDefinition))
    → Keyed d
    → Keyed (insert k items d)
unfolding insert has_key
insert-Keyed k items [] keyed = (refl, tt)
insert-Keyed k items ((i, v) ∷ d) (new, keyed) = elim (Bool-cases (i == k)) [
  | inl same ↦ let here : i ≡ k = (eq_iff i k).0 same in rw same (rw (sym here) new, keyed)
  | inr other ↦ rw other (
    ground (arith, has_key-insert i k items d, eq_iff k i, eq_iff i k),
    insert-Keyed k items d keyed,
  )
]

add_claim-Keyed :
    (by_id : Dict (List LoadedDefinition)) (item : LoadedDefinition)
    → Keyed by_id
    → Keyed (add_claim by_id item)
unfolding add_claim
add_claim-Keyed by_id item keyed = elim (Option-cases (claimed_id item)) [
  | inl e ↦ rw (e, add_claim) keyed
  | inr (k, e) ↦ rw (e, add_claim) (insert-Keyed k (held k by_id ++ (item ∷ [])) by_id keyed)
]

claims_from-Keyed :
    (by_id : Dict (List LoadedDefinition)) (items : List LoadedDefinition)
    → Keyed by_id
    → Keyed (claims_from by_id items)
unfolding claims_from
claims_from-Keyed by_id [] keyed = keyed
claims_from-Keyed by_id (item ∷ items) keyed =
    claims_from-Keyed (add_claim by_id item) items (add_claim-Keyed by_id item keyed)

not_key-duplicated :
    (k : String) (d : Dict (List LoadedDefinition))
    → has_key k d ≡ false
    → has_key k (duplicated d) ≡ false
unfolding duplicated has_key
not_key-duplicated k [] h = refl
not_key-duplicated k ((j, items) ∷ d) h = ground (arith, not_key-duplicated k d)

not_key-held : (k : String) (d : Dict (List LoadedDefinition)) → has_key k d ≡ false → held k d ≡ []
unfolding held lookup has_key
not_key-held k [] h = refl
not_key-held k ((j, items) ∷ d) h = ground (arith, not_key-held k d)

has_key-duplicated :
    (k : String) (d : Dict (List LoadedDefinition))
    → Keyed d
    → has_key k (duplicated d) ≡ ltb 1 (length (held k d))
unfolding duplicated held lookup has_key
has_key-duplicated k [] keyed = refl
has_key-duplicated k ((j, items) ∷ d) (new, keyed) =
    ground (arith, has_key-duplicated k d keyed, not_key-duplicated j d new, eq_iff j k)

-- An id is duplicated exactly when more than one item claims it.
pub duplicated-claimants :
    (id : String) (loaded : List LoadedDefinition)
    → has_key id (duplicated (claims_from [] loaded)) ≡ ltb 1 (length (claimants id loaded))
duplicated-claimants id loaded =
    has_key-duplicated id (claims_from [] loaded) (claims_from-Keyed [] loaded tt)
    ∙ ap (λ l. ltb 1 (length l)) (held-claims_from id [] loaded ∙ (unfold held lookup in refl))
