-- ===== src/Translation/Partition.antt =====
-- The spans of a text (spans.py) are a partition of it, and a quote is never offered to the
-- translator.
use Prim.Native.Char.{Char}
use Prim.Native.String.{count}
use text.Mathlib.TextLemmas.{nil-append, cons-append, append-nil, append_assoc, length-cons}
use local_canvas.Prelude.{
  ℕ, zero, suc, ◌≤◌, ◌<◌, String, ◌<>◌, ◌≡◌, refl, sym, ap, ◌∙◌, Bool, true, false, List, [], ◌∷◌,
  arith, Bool-cases, inl, inr, All,
}
use local_canvas.Translation.Spans.{
  Span, is_quote, is_escape, of_char, literal_step, literal_end, flush, scan, split_spans,
  join_spans, has_quote,
}

-- The two parts of a text behind an opening quote make it up again, and the second is no longer.
abbrev IsSplit : String → String × String → Type 0
IsSplit s p = (p.0 <> p.1 ≡ s) × (count p.1 ≤ count s)

step_splits :
    (c : Char) (s : String) (p : String × String)
    → IsSplit s p
    → IsSplit (String.◌∷◌ c s) (literal_step c p)
step_splits c s p (e, le) =
    (cons-append c p.0 p.1 ∙ ap (String.◌∷◌ c) e, omega (arith, length-cons c s))

pub literal_end_splits : (s : String) → IsSplit s (literal_end s)
unfolding literal_end
literal_end_splits String.[] = (nil-append _, omega arith)
literal_end_splits (String.◌∷◌ c String.[]) = (append-nil _, omega (arith, length-cons c String.[]))
literal_end_splits (String.◌∷◌ c (String.◌∷◌ d s)) = elim (Bool-cases (is_escape c)) [
  | inl e ↦ simp e (
      step_splits c (String.◌∷◌ d s) (literal_step d (literal_end s))
        (step_splits d s (literal_end s) (literal_end_splits s)))
  | inr e ↦ elim (Bool-cases (is_quote c)) [
    | inl q ↦
        simp (e, q)
          (
            cons-append c String.[] (String.◌∷◌ d s)
                ∙ ap (String.◌∷◌ c) (nil-append (String.◌∷◌ d s)),
            omega (arith, length-cons c (String.◌∷◌ d s)),
          )
    | inr q ↦
        simp (e, q)
          (step_splits c (String.◌∷◌ d s) (literal_end (String.◌∷◌ d s))
            (literal_end_splits (String.◌∷◌ d s)))
  ]
]

join-flush :
    (pending : String) (spans : List Span)
    → join_spans (flush pending spans) ≡ pending <> join_spans spans
unfolding join_spans flush
join-flush String.[] spans = sym (nil-append _)
join-flush (String.◌∷◌ c s) spans = refl

-- The literal that opens behind a quote, and what the loop makes of the text after it.
join_literal :
    (c : Char) (s tail : String) (spans : List Span)
    → join_spans spans ≡ tail
    → (literal_end s).1 ≡ tail
    → join_spans (record { text = String.◌∷◌ c (literal_end s).0; protected = true } ∷ spans)
      ≡ String.◌∷◌ c s
unfolding join_spans
join_literal c s tail spans e r =
    ap (λ t. String.◌∷◌ c (literal_end s).0 <> t) (e ∙ sym r)
    ∙ cons-append c (literal_end s).0 (literal_end s).1
    ∙ ap (String.◌∷◌ c) (literal_end_splits s).0

join-scan :
    (fuel : ℕ) (pending text : String)
    → count text < fuel
    → join_spans (scan fuel pending text) ≡ pending <> text
unfolding scan join_spans
join-scan zero pending text h = elim h [ ]
join-scan (suc fuel) pending String.[] h = join-flush pending []
join-scan (suc fuel) pending (String.◌∷◌ c s) h = elim (Bool-cases (is_quote c)) [
  | inl q ↦ simp q (
      join-flush pending (
        record { text = String.◌∷◌ c (literal_end s).0; protected = true }
        ∷ scan fuel String.[] (literal_end s).1)
      ∙ ap (λ t. pending <> t)
          (join_literal c s (literal_end s).1 (scan fuel String.[] (literal_end s).1)
            (join-scan fuel String.[] (literal_end s).1
                (omega (arith, length-cons c s, (literal_end_splits s).1))
              ∙ nil-append (literal_end s).1)
            refl))
  | inr q ↦ simp q (
      join-scan fuel (pending <> of_char c) s (omega (arith, length-cons c s))
      ∙ append_assoc pending (of_char c) s
      ∙ ap (λ t. pending <> t) (cons-append c String.[] s ∙ ap (String.◌∷◌ c) (nil-append s)))
]

-- The spans of a text, joined, are the text, whether quoted literals are preserved or not.
pub join-split_spans :
    (text : String) (preserve : Bool) → join_spans (split_spans text preserve) ≡ text
unfolding split_spans join_spans
join-split_spans String.[] preserve = refl
join-split_spans (String.◌∷◌ c s) false = append-nil _
join-split_spans (String.◌∷◌ c s) true =
    join-scan (suc (count (String.◌∷◌ c s))) String.[] (String.◌∷◌ c s) (omega arith)
    ∙ nil-append (String.◌∷◌ c s)

abbrev pub starts_with_quote : String → Bool
starts_with_quote String.[] = false
starts_with_quote (String.◌∷◌ c s) = is_quote c

-- A protected span opens with a quote; an unprotected one holds none.
abbrev pub IsGuarded : Bool → String → Type 0
IsGuarded true text = starts_with_quote text ≡ true
IsGuarded false text = has_quote text ≡ false

abbrev pub AllGuarded : List Span → Type 0
AllGuarded = All (λ (span : Span). IsGuarded span.protected span.text)

has_quote-snoc :
    (pending : String) (c : Char)
    → has_quote pending ≡ false
    → is_quote c ≡ false
    → has_quote (pending <> of_char c) ≡ false
unfolding has_quote
has_quote-snoc String.[] c h q = rw nil-append (simp q)
has_quote-snoc (String.◌∷◌ d s) c h q = rw cons-append (ground (arith, has_quote-snoc s c))

flush-AllGuarded :
    (pending : String) (spans : List Span)
    → has_quote pending ≡ false
    → AllGuarded spans
    → AllGuarded (flush pending spans)
unfolding flush
flush-AllGuarded String.[] spans h all = all
flush-AllGuarded (String.◌∷◌ c s) spans h all = (h, all)

scan-AllGuarded :
    (fuel : ℕ) (pending text : String)
    → has_quote pending ≡ false
    → AllGuarded (scan fuel pending text)
unfolding scan
scan-AllGuarded zero pending text h = flush-AllGuarded pending [] h tt
scan-AllGuarded (suc fuel) pending String.[] h = flush-AllGuarded pending [] h tt
scan-AllGuarded (suc fuel) pending (String.◌∷◌ c s) h = elim (Bool-cases (is_quote c)) [
  | inl q ↦ simp q (
      flush-AllGuarded pending
        (record { text = String.◌∷◌ c (literal_end s).0; protected = true }
          ∷ scan fuel String.[] (literal_end s).1)
        h (q, scan-AllGuarded fuel String.[] (literal_end s).1 (unfold has_quote in refl)))
  | inr q ↦ simp q (scan-AllGuarded fuel (pending <> of_char c) s (has_quote-snoc pending c h q))
]

-- With quoted literals preserved, every protected span opens with a quote, and no unprotected
-- span, so nothing that is offered to the translator, holds one.
pub split_spans-AllGuarded : (text : String) → AllGuarded (split_spans text true)
unfolding split_spans
split_spans-AllGuarded String.[] = tt
split_spans-AllGuarded (String.◌∷◌ c s) =
    scan-AllGuarded (suc (count (String.◌∷◌ c s))) String.[] (String.◌∷◌ c s)
      (unfold has_quote in refl)
