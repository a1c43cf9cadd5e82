-- ===== src/Translation/Spans.antt =====
-- gateway/localcanvas_gateway/translation/spans.py. A position in the text is the rest of the text
-- from there; the loop's fuel is one more than the characters of the text, and each round takes one.
use Prim.Native.Char.{Char, code}
use Prim.Native.String.{count}
use local_canvas.Prelude.{
  ℕ, zero, suc, String, ◌<>◌, Bool, true, false, List, [], ◌∷◌, eqb, if◌then◌else◌,
}

-- `QUOTE` and `ESCAPE`
unfoldable pub is_quote : Char → Bool
is_quote c = eqb (code c) 34

unfoldable pub is_escape : Char → Bool
is_escape c = eqb (code c) 92

abbrev pub of_char : Char → String
of_char c = String.◌∷◌ c String.[]

pub record Span : Type 0 where
  pub text : String
  pub protected : Bool

abbrev pub literal_step : Char → String × String → String × String
literal_step c (literal, rest) = (String.◌∷◌ c literal, rest)

-- `_literal_end`, from behind the opening quote: the rest of the literal, and what follows it.
unfoldable pub literal_end : String → String × String
literal_end String.[] = (String.[], String.[])
literal_end (String.◌∷◌ c String.[]) = (of_char c, String.[])
literal_end (String.◌∷◌ c (String.◌∷◌ d s)) =
    let escaped = literal_step c (literal_step d (literal_end s)) in
    let plain = literal_step c (literal_end (String.◌∷◌ d s)) in
    if is_escape c then escaped else if is_quote c then (of_char c, String.◌∷◌ d s) else plain

-- `flush`, then what comes after it.
unfoldable pub flush : String → List Span → List Span
flush String.[] spans = spans
flush (String.◌∷◌ c s) spans = record { text = String.◌∷◌ c s; protected = false } ∷ spans

-- The loop, with the pending characters.
unfoldable pub scan : ℕ → String → String → List Span
unfolding flush literal_end
scan zero pending text = flush pending []
scan (suc fuel) pending String.[] = flush pending []
scan (suc fuel) pending (String.◌∷◌ c s) =
    let (literal, rest) = literal_end s in
    let quoted =
      flush pending
        (record { text = String.◌∷◌ c literal; protected = true } ∷ scan fuel String.[] rest) in
    let plain = scan fuel (pending <> of_char c) s in if is_quote c then quoted else plain

-- `split_spans`
unfoldable pub split_spans : String → Bool → List Span
unfolding scan
split_spans String.[] preserve_quoted_literals = []
split_spans (String.◌∷◌ c s) false = record { text = String.◌∷◌ c s; protected = false } ∷ []
split_spans (String.◌∷◌ c s) true = scan (suc (count (String.◌∷◌ c s))) String.[] (String.◌∷◌ c s)

-- `"".join(span.text for span in spans)`
unfoldable pub join_spans : List Span → String
join_spans [] = String.[]
join_spans (span ∷ spans) = span.text <> join_spans spans

-- A text that holds a quote character.
unfoldable pub has_quote : String → Bool
has_quote String.[] = false
has_quote (String.◌∷◌ c s) = if is_quote c then true else has_quote s
