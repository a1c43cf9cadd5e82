-- ===== src/Definition/Exclusive.antt =====
-- The targets that the loop over the fields of a definition (workflows/definition.py) has given out:
-- no two fields share one.
use local_canvas.Prelude.{
  String, ◌≡◌, refl, sym, true, false, ◌==◌, eq_iff, none, some, List, [], ◌∷◌, ◌++◌, map, arith,
  Option-cases, Bool-cases, inl, inr, if◌then◌else◌,
}
use local_canvas.Prelude.Dict.{Dict, lookup, insert, has_key, lookup-insert}
use local_canvas.Workflow.{Binding, InputField}
use local_canvas.Binding.Targets.{is_target, same_target}
use local_canvas.Definition.Targets.{Placed, place_in}
use local_canvas.Definition.Parse.{Loop, taken_notes}

-- Each target of a field is taken by it.
abbrev pub Owned : Loop → Type 0
Owned s =
    (id : String) (ts : List Binding) (t : Binding)
    → lookup id s.bindings ≡ some ts
    → is_target ts t ≡ true
    → place_in t s.taken ≡ some id

-- No target belongs to two fields.
abbrev pub Exclusive : Dict (List Binding) → Type 0
Exclusive bindings =
    (id id' : String) (ts ts' : List Binding) (t : Binding)
    → lookup id bindings ≡ some ts
    → lookup id' bindings ≡ some ts'
    → is_target ts t ≡ true
    → is_target ts' t ≡ true
    → id ≡ id'

pub Owned-Exclusive : (s : Loop) → Owned s → Exclusive s.bindings
Owned-Exclusive s owned id id' ts ts' t e e' at at' =
    ground (arith, owned id ts t e at, owned id' ts' t e' at')

-- The state after a field is kept.
abbrev pub kept_state : Loop → InputField → List Binding → Loop
kept_state s f ts = record {
  bindings = insert f.id ts s.bindings;
  taken = map (λ t. (f.id, t)) ts ++ s.taken;
}

place_in-kept :
    (id : String) (ts : List Binding) (taken : List Placed) (t : Binding)
    → place_in t (map (λ u. (id, u)) ts ++ taken)
      ≡ (if is_target ts t then some id else place_in t taken)
unfolding place_in is_target
place_in-kept id [] taken t = refl
place_in-kept id (u ∷ ts) taken t = ground (arith, place_in-kept id ts taken t)

same_target-eq : (t u : Binding) → same_target t u ≡ true → t ≡ u
unfolding same_target
same_target-eq t u h =
    let node : t.node ≡ u.node = (eq_iff t.node u.node).0 (ground arith) in
    let input : t.input ≡ u.input = (eq_iff t.input u.input).0 (ground arith) in cc

-- A target without a note is not taken.
no_notes-free :
    (id : String) (taken : List Placed) (ts : List Binding) (t : Binding)
    → taken_notes id taken ts ≡ []
    → is_target ts t ≡ true
    → place_in t taken ≡ none
unfolding taken_notes is_target
no_notes-free id taken [] t h at = absurd (ground arith)
no_notes-free id taken (u ∷ ts) t h at = elim (Option-cases (place_in u taken)) [
  | inr (other, e) ↦ absurd (ground arith)
  | inl e ↦ elim (Bool-cases (same_target u t)) [
    | inl same ↦ rw (sym (same_target-eq u t same)) e
    | inr differs ↦ no_notes-free id taken ts t (ground arith) (ground arith)
  ]
]

pub kept-Owned :
    (s : Loop) (f : InputField) (ts : List Binding)
    → has_key f.id s.bindings ≡ false
    → taken_notes f.id s.taken ts ≡ []
    → Owned s
    → Owned (kept_state s f ts)
kept-Owned s f ts new free owned id us t e at = elim (Bool-cases (f.id == id)) [
  | inl same ↦
      ground (
        arith,
        eq_iff f.id id,
        place_in-kept f.id ts s.taken t,
        lookup-insert f.id id ts s.bindings,
      )
  | inr other ↦
      let before : lookup id s.bindings ≡ some us =
        ground (arith, lookup-insert f.id id ts s.bindings) in
      let mine = owned id us t before at in
      elim (Bool-cases (is_target ts t)) [
        | inl both ↦ absurd (ground (arith, no_notes-free f.id s.taken ts t free both))
        | inr not_mine ↦ ground (arith, place_in-kept f.id ts s.taken t)
      ]
]
