-- ===== src/Prelude/Text.antt =====
-- Python's `str` as native text: whitespace, `strip`, equality decided, decimal numerals.
use Prim.Native.Nat.{ℕ, zero, suc, ◌/◌, ◌%◌}
use Prim.Native.Char.{Char, code}
use Prim.Native.Nat.{Ordering}
use Prim.Native.String.{String, compare, ◌++◌ as ◌<>◌}
use mathlib.Core.List.{List, [], ◌∷◌}
use mathlib.Core.Path.{◌≡◌, refl}
use mathlib.Core.Bool.{Bool, true, false, ◌||◌, ◌&&◌}
use text.Mathlib.Text.{◌==◌}
use text.Mathlib.TextEquality.{eq_iff}
use mathlib.Core.Option.{none, some}
use local_canvas.Prelude.Lists.{get_elem?}
use local_canvas.Prelude.Tests.{leb, ltb, eqb, if◌then◌else◌}

decide_eq : (s t : String) (b : Bool) → (s == t) ≡ b → Dec (s ≡ t)
decide_eq s t true h = yes ((eq_iff s t).0 h)
decide_eq s t false h = no (λ e. cc (h, (eq_iff s t).1 e))

unfoldable pub String_discrete : Discrete String
unfolding decide_eq
String_discrete s t = decide_eq s t (s == t) refl

-- `str.isspace` of one character: the code points that Unicode and Python class as whitespace.
unfoldable pub is_space : Char → Bool
is_space ch =
    let c = code ch in
    (leb 9 c && leb c 13)
    || (leb 28 c && leb c 32)
    || eqb c 133
    || eqb c 160
    || eqb c 5760
    || (leb 8192 c && leb c 8202)
    || eqb c 8232
    || eqb c 8233
    || eqb c 8239
    || eqb c 8287
    || eqb c 12288

-- `not text.strip()`: nothing but whitespace.
unfoldable pub is_blank : String → Bool
unfolding is_space
is_blank String.[] = true
is_blank (String.◌∷◌ c s) = is_space c && is_blank s

abbrev digits : List String
digits = "0" ∷ "1" ∷ "2" ∷ "3" ∷ "4" ∷ "5" ∷ "6" ∷ "7" ∷ "8" ∷ "9" ∷ []

digit : ℕ → String
digit n = elim (get_elem? digits n) [ none ↦ "" | some d ↦ d ]

show_fuel : ℕ → ℕ → String
unfolding digit
show_fuel zero n = ""
show_fuel (suc f) n =
    let rest = show_fuel f (n / 10) in if ltb n 10 then digit n else rest <> digit (n % 10)

-- `str(n)`: the decimal numeral of a natural number. A number has at most as many digits as units.
unfoldable pub show : ℕ → String
unfolding show_fuel
show n = show_fuel (suc n) n

-- `a <= b` of two texts, by code points.
unfoldable pub text_le : String → String → Bool
text_le a b = elim (compare a b) [ Ordering.gt ↦ false | _ ↦ true ]

insert_text : String → List String → List String
unfolding text_le
insert_text a [] = a ∷ []
insert_text a (b ∷ bs) = if text_le a b then a ∷ b ∷ bs else b ∷ insert_text a bs

-- `sorted(names)`
unfoldable pub sort_texts : List String → List String
unfolding insert_text
sort_texts [] = []
sort_texts (a ∷ names) = insert_text a (sort_texts names)

-- `separator.join(names)`
unfoldable pub join_texts : String → List String → String
join_texts separator [] = ""
join_texts separator (a ∷ []) = a
join_texts separator (a ∷ b ∷ names) = a <> separator <> join_texts separator (b ∷ names)
