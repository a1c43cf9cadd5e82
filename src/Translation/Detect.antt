-- ===== src/Translation/Detect.antt =====
-- gateway/localcanvas_gateway/translation/detect.py: the language of a text, by its script.
use Prim.Native.Char.{Char, code}
use local_canvas.Prelude.{
  ℕ, String, Bool, false, Option, none, some, List, [], ◌∷◌, any, leb, ◌==◌, ◌&&◌, ◌||◌,
  if◌then◌else◌,
}

-- `_CYRILLIC_RANGES` and `_KANA_RANGES`, as inclusive code points.
abbrev pub cyrillic_ranges : List (ℕ × ℕ)
cyrillic_ranges = (1024, 1279) ∷ (1280, 1327) ∷ (11744, 11775) ∷ (42560, 42655) ∷ []

abbrev pub kana_ranges : List (ℕ × ℕ)
kana_ranges = (12352, 12447) ∷ (12448, 12543) ∷ (12784, 12799) ∷ (65382, 65437) ∷ []

unfoldable pub in_ranges : List (ℕ × ℕ) → Char → Bool
in_ranges ranges c = any (λ (r : ℕ × ℕ). leb r.0 (code c) && leb (code c) r.1) ranges

-- `present` of `_contains`
unfoldable pub contains : List (ℕ × ℕ) → String → Bool
unfolding in_ranges
contains ranges String.[] = false
contains ranges (String.◌∷◌ c s) = in_ranges ranges c || contains ranges s

-- `has_source_script`: only the keys of `SOURCE_SCRIPTS` have a script.
unfoldable pub has_source_script : String → String → Bool
has_source_script text source =
    if source == "ru"
    then contains cyrillic_ranges text
    else if source == "ja"
    then contains kana_ranges text
    else false

-- `detect_source`: the first of the configured sources whose script the text has.
unfoldable pub detect_source : String → List String → Option String
unfolding has_source_script
detect_source text [] = none
detect_source text (source ∷ sources) =
    if has_source_script text source then some source else detect_source text sources
