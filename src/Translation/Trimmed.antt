-- ===== src/Translation/Trimmed.antt =====
-- `_trimmed` (translation/service.py) takes a text apart and loses nothing of it.
use Prim.Native.Char.{Char}
use text.Mathlib.TextLemmas.{nil-append, cons-append, append-nil, append_assoc}
use local_canvas.Prelude.{
  String, ◌<>◌, ◌≡◌, refl, sym, ap, ◌∙◌, true, false, ◌||◌, ◌&&◌, arith, Bool-cases, inl, inr,
}
use local_canvas.Prelude.Text.{is_space}
use local_canvas.Translation.Spans.{has_quote}
use local_canvas.Translation.Service.{is_nothing, split_start, split_end, strip, trimmed, core}

join-split_start : (s : String) → (split_start s).0 <> (split_start s).1 ≡ s
unfolding split_start
join-split_start String.[] = nil-append _
join-split_start (String.◌∷◌ c s) = elim (Bool-cases (is_space c)) [
  | inl e ↦ simp e (cons-append c _ _ ∙ ap (String.◌∷◌ c) (join-split_start s))
  | inr e ↦ simp e (nil-append _)
]

nothing_is_empty : (s : String) → is_nothing s ≡ true → s ≡ String.[]
unfolding is_nothing
nothing_is_empty String.[] h = refl
nothing_is_empty (String.◌∷◌ c s) h = cc

is_nothing-append : (a b : String) → is_nothing b ≡ false → is_nothing (a <> b) ≡ false
unfolding is_nothing
is_nothing-append String.[] b h = ap is_nothing (nil-append b) ∙ h
is_nothing-append (String.◌∷◌ c a) b h = ap is_nothing (cons-append c a b)

join-split_end : (s : String) → (split_end s).0 <> (split_end s).1 ≡ s
unfolding split_end
join-split_end String.[] = nil-append _
join-split_end (String.◌∷◌ c s) = elim (Bool-cases (is_space c && is_nothing (split_end s).0)) [
  | inl e ↦ simp e (
      nil-append _
      ∙ ap (String.◌∷◌ c) (
          sym (nil-append _)
          ∙ ap (λ t. t <> (split_end s).1) (sym (nothing_is_empty (split_end s).0 (ground arith)))
          ∙ join-split_end s))
  | inr e ↦ simp e (cons-append c _ _ ∙ ap (String.◌∷◌ c) (join-split_end s))
]

split_start-space :
    (c : Char) (s : String)
    → is_space c ≡ true
    → split_start (String.◌∷◌ c s) ≡ (String.◌∷◌ c (split_start s).0, (split_start s).1)
unfolding split_start
split_start-space c s e = simp e

split_start-other :
    (c : Char) (s : String)
    → is_space c ≡ false
    → split_start (String.◌∷◌ c s) ≡ (String.[], String.◌∷◌ c s)
unfolding split_start
split_start-other c s e = simp e

split_end-kept :
    (c : Char) (s : String)
    → is_nothing (split_end s).0 ≡ false
    → split_end (String.◌∷◌ c s) ≡ (String.◌∷◌ c (split_end s).0, (split_end s).1)
unfolding split_end
split_end-kept c s e = elim (Bool-cases (is_space c)) [ inl x ↦ simp (x, e) | inr x ↦ simp (x, e) ]

-- Behind leading whitespace a text that is not blank ends as it does with it.
split_end-lead :
    (s : String)
    → is_nothing (split_end (split_start s).1).0 ≡ false
    → split_end s
      ≡ ((split_start s).0 <> (split_end (split_start s).1).0, (split_end (split_start s).1).1)
split_end-lead String.[] h = absurd (unfold split_start split_end is_nothing in cc h)
split_end-lead (String.◌∷◌ c s) h = elim (Bool-cases (is_space c)) [
  | inr e ↦
      rw (split_start-other c s e)
        (ap (λ t. (t, (split_end (String.◌∷◌ c s)).1)) (sym (nil-append _)))
  | inl e ↦
      let some_text : is_nothing (split_end (split_start s).1).0 ≡ false =
        rw (split_start-space c s e) at h in
      let inner = split_end-lead s some_text in
      let kept : is_nothing (split_end s).0 ≡ false =
        ap (λ p. is_nothing p.0) inner ∙ is_nothing-append _ _ some_text in
      rw (split_start-space c s e, split_end-kept c s kept, inner)
        (ap (λ t. (t, (split_end (split_start s).1).1)) (sym (cons-append c _ _)))
]

-- The three parts of a text make it up again.
pub join-trimmed : (s : String) → (trimmed s).0 <> ((trimmed s).1 <> (trimmed s).2) ≡ s
unfolding trimmed strip
join-trimmed s = elim (Bool-cases (is_nothing (strip s))) [
  | inl e ↦ simp e (append-nil s)
  | inr e ↦ simp e (
      sym (append_assoc (split_start s).0 (strip s) (split_end s).1)
      ∙ ap (λ t. t <> (split_end s).1) (sym (ap (λ p. p.0) (split_end-lead s e)))
      ∙ join-split_end s)
]

has_quote-append : (a b : String) → has_quote (a <> b) ≡ has_quote a || has_quote b
unfolding has_quote
has_quote-append String.[] b = ap has_quote (nil-append b)
has_quote-append (String.◌∷◌ c a) b =
    ap has_quote (cons-append c a b) ∙ ground (arith, has_quote-append a b)

-- The core of a text without a quote has none.
pub has_quote-core : (s : String) → has_quote s ≡ false → has_quote (core s) ≡ false
unfolding core
has_quote-core s h = ground (
  arith,
  has_quote-append (trimmed s).0 ((trimmed s).1 <> (trimmed s).2),
  has_quote-append (trimmed s).1 (trimmed s).2,
  ap has_quote (join-trimmed s),
)
