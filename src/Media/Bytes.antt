-- ===== src/Media/Bytes.antt =====
-- The search in an EBML header of gateway/localcanvas_gateway/media.py, and where it ends.
use local_canvas.Prelude.{
  ℕ, zero, suc, ◌+◌, ◌/◌, ◌≤◌, ◌<◌, String, ◌≡◌, ◌≢◌, Option, none, some, List, [], ◌∷◌, length,
  get_elem?, ltb, arith, Option-cases, Bool-cases, inl, inr,
}
use local_canvas.Values.Numbers.{bit_length}
use local_canvas.Media.Sniff.{
  slice, first, same_bytes, doctype_id, number_at, ebml_id, ebml_size, unfinished, ebml_search,
  ebml_outcome, doctype, as_search, smaller, sniff_bytes,
}

bit_length-bound : (f n : ℕ) → bit_length f n ≤ f
unfolding bit_length
bit_length-bound zero n = ground arith
bit_length-bound (suc f) n = ground (arith, bit_length-bound f (n / 2))

-- A number takes at least one byte.
number_at-next :
    (window : List ℕ) (offset byte n next : ℕ)
    → number_at window offset ≡ some (byte, n, next)
    → offset < next
unfolding number_at
number_at-next window offset byte n next h = elim (Option-cases (get_elem? window offset)) [
  | inl e ↦ absurd (ground arith)
  | inr (b, e) ↦ ground (arith, bit_length-bound 8 b)
]

ebml_id-next :
    (window : List ℕ) (offset : ℕ) (id : List ℕ) (next : ℕ)
    → ebml_id window offset ≡ some (id, next)
    → offset < next
unfolding ebml_id
ebml_id-next window offset id next h = elim (Option-cases (number_at window offset)) [
  | inl e ↦ absurd (ground arith)
  | inr ((byte, n, after), e) ↦ ground (arith, number_at-next window offset byte n after e)
]

ebml_size-next :
    (window : List ℕ) (offset n next : ℕ) → ebml_size window offset ≡ some (n, next) → offset < next
unfolding ebml_size
ebml_size-next window offset n next h = elim (Option-cases (number_at window offset)) [
  | inl e ↦ absurd (ground arith)
  | inr ((byte, m, after), e) ↦ ground (arith, number_at-next window offset byte m after e)
]

as_search-ends : (t : Option String) → as_search t ≢ unfinished
unfolding as_search
as_search-ends none h = absurd (ground arith)
as_search-ends (some t) h = absurd (ground arith)

-- Each round goes at least two bytes on, so a step for each byte before the end is enough.
ebml_search-ends :
    (fuel : ℕ) (window : List ℕ) (stop offset : ℕ)
    → stop ≤ offset + fuel
    → ebml_search fuel window stop offset ≢ unfinished
unfolding ebml_search
ebml_search-ends zero window stop offset enough h = absurd (ground arith)
ebml_search-ends (suc fuel) window stop offset enough h = elim (Bool-cases (ltb offset stop)) [
  | inr e ↦ absurd (ground arith)
  | inl e ↦ elim (Option-cases (ebml_id window offset)) [
    | inl none_here ↦ absurd (ground arith)
    | inr ((id, after_id), f) ↦ elim (Option-cases (ebml_size window after_id)) [
      | inl none_there ↦ absurd (ground arith)
      | inr ((n, start), g) ↦ elim (Bool-cases (same_bytes id doctype_id)) [
        | inl here ↦ elim (Bool-cases (ltb (length window) (start + n))) [
          | inl beyond ↦ absurd (ground arith)
          | inr within ↦ as_search-ends (doctype (slice start (start + n) window)) (ground arith)
        ]
        | inr other ↦
            ebml_search-ends fuel window stop (start + n)
              (omega (
                arith,
                ebml_id-next window offset id after_id f,
                ebml_size-next window after_id n start g,
                enough,
              ))
              (ground arith)
      ]
    ]
  ]
]

first-bound : (n : ℕ) (bytes : List ℕ) → length (first n bytes) ≤ n
unfolding first
first-bound zero bytes = ground arith
first-bound (suc n) [] = ground arith
first-bound (suc n) (b ∷ bytes) = omega (arith, first-bound n bytes)

smaller-bound : (a b : ℕ) → smaller a b ≤ b
unfolding smaller
smaller-bound a b = ground arith

-- The search for the document type of an EBML header always ends: with a type or without one.
pub ebml_outcome-ends : (head : List ℕ) → ebml_outcome head ≢ unfinished
unfolding ebml_outcome slice
ebml_outcome-ends head h = elim (Option-cases (ebml_size (slice 0 sniff_bytes head) 4)) [
  | inl e ↦ absurd (ground arith)
  | inr ((size, offset), e) ↦
      let short : length (slice 0 sniff_bytes head) ≤ sniff_bytes = first-bound sniff_bytes head in
      ebml_search-ends sniff_bytes (slice 0 sniff_bytes head)
        (smaller (offset + size) (length (slice 0 sniff_bytes head))) offset
        (omega (arith, short, smaller-bound (offset + size) (length (slice 0 sniff_bytes head))))
        (rw (ebml_outcome, e) at h)
]
