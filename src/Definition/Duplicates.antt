-- ===== src/Definition/Duplicates.antt =====
-- The search for duplicate keys (workflows/definition.py), against what it is to have none.
use local_canvas.Prelude.{
  String, ◌≡◌, ◌↔◌, refl, false, none, List, [], ◌∷◌, any, ◌==◌, arith, Option-cases, Bool-cases,
  inl, inr,
}
use local_canvas.Definition.Yaml.{
  Node, Pairs, Nodes, scalar, mapping, sequence, no_pairs, pair, no_nodes, node, walk, walk_pairs,
  walk_nodes,
}

-- The keys of a mapping that are scalars, in order.
abbrev pub scalar_keys : Pairs → List String
scalar_keys no_pairs = []
scalar_keys (pair (scalar key line) v rest) = key ∷ scalar_keys rest
scalar_keys (pair (mapping ps) v rest) = scalar_keys rest
scalar_keys (pair (sequence ns) v rest) = scalar_keys rest

-- Keys that differ from one another and from the given ones.
abbrev pub Fresh : List String → List String → Type 0
Fresh seen [] = Unit
Fresh seen (k ∷ ks) = (any (λ j. j == k) seen ≡ false) × Fresh (k ∷ seen) ks

-- Every mapping below a node, in values and in sequences, has its scalar keys but once.
unfoldable mutual
  pub Unique : Node → Type 0
  Unique (scalar text line) = Unit
  Unique (mapping pairs) = Fresh [] (scalar_keys pairs) × UniqueValues pairs
  Unique (sequence nodes) = UniqueAll nodes

  pub UniqueValues : Pairs → Type 0
  UniqueValues no_pairs = Unit
  UniqueValues (pair key v rest) = Unique v × UniqueValues rest

  pub UniqueAll : Nodes → Type 0
  UniqueAll no_nodes = Unit
  UniqueAll (node n rest) = Unique n × UniqueAll rest

mutual
  unfolding walk Unique

  walk-none : (n : Node) → walk n ≡ none → Unique n
  walk-none (scalar text line) h = tt
  walk-none (mapping pairs) h = walk_pairs-none [] pairs h
  walk-none (sequence nodes) h = walk_nodes-none nodes h

  walk_pairs-none :
      (seen : List String) (ps : Pairs)
      → walk_pairs seen ps ≡ none
      → Fresh seen (scalar_keys ps) × UniqueValues ps
  walk_pairs-none seen no_pairs h = (tt, tt)
  walk_pairs-none seen (pair (scalar key line) v rest) h =
      elim (Bool-cases (any (λ k. k == key) seen)) [
        | inl twice ↦ absurd (ground arith)
        | inr new ↦ elim (Option-cases (walk v)) [
          | inr (found, e) ↦ absurd (ground arith)
          | inl e ↦
              let (fresh, unique) = walk_pairs-none (key ∷ seen) rest (ground arith) in
              ((new, fresh), (walk-none v e, unique))
        ]
      ]
  walk_pairs-none seen (pair (mapping ps) v rest) h = elim (Option-cases (walk v)) [
    | inr (found, e) ↦ absurd (ground arith)
    | inl e ↦
        let (fresh, unique) = walk_pairs-none seen rest (ground arith) in
        (fresh, (walk-none v e, unique))
  ]
  walk_pairs-none seen (pair (sequence ns) v rest) h = elim (Option-cases (walk v)) [
    | inr (found, e) ↦ absurd (ground arith)
    | inl e ↦
        let (fresh, unique) = walk_pairs-none seen rest (ground arith) in
        (fresh, (walk-none v e, unique))
  ]

  walk_nodes-none : (ns : Nodes) → walk_nodes ns ≡ none → UniqueAll ns
  walk_nodes-none no_nodes h = tt
  walk_nodes-none (node n rest) h = elim (Option-cases (walk n)) [
    | inr (found, e) ↦ absurd (ground arith)
    | inl e ↦ (walk-none n e, walk_nodes-none rest (ground arith))
  ]

mutual
  unfolding walk Unique

  Unique-none : (n : Node) → Unique n → walk n ≡ none
  Unique-none (scalar text line) h = refl
  Unique-none (mapping pairs) (fresh, unique) = UniqueValues-none [] pairs fresh unique
  Unique-none (sequence nodes) h = UniqueAll-none nodes h

  UniqueValues-none :
      (seen : List String) (ps : Pairs)
      → Fresh seen (scalar_keys ps)
      → UniqueValues ps
      → walk_pairs seen ps ≡ none
  UniqueValues-none seen no_pairs fresh unique = refl
  UniqueValues-none seen (pair (scalar key line) v rest) (new, fresh) (u, unique) =
      ground (arith, Unique-none v u, UniqueValues-none (key ∷ seen) rest fresh unique)
  UniqueValues-none seen (pair (mapping ps) v rest) fresh (u, unique) =
      ground (arith, Unique-none v u, UniqueValues-none seen rest fresh unique)
  UniqueValues-none seen (pair (sequence ns) v rest) fresh (u, unique) =
      ground (arith, Unique-none v u, UniqueValues-none seen rest fresh unique)

  UniqueAll-none : (ns : Nodes) → UniqueAll ns → walk_nodes ns ≡ none
  UniqueAll-none no_nodes h = refl
  UniqueAll-none (node n rest) (u, h) = ground (arith, Unique-none n u, UniqueAll-none rest h)

-- The walk finds no key exactly when every mapping of the document, at any depth below values and
-- list items, has no scalar key twice.
pub walk-Unique : (root : Node) → (walk root ≡ none) ↔ Unique root
walk-Unique root = (walk-none root, Unique-none root)
