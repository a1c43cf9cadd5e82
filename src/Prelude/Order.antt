-- ===== src/Prelude/Order.antt =====
-- The order of Python's `str`, by code points: total and transitive.
use Prim.Native.Nat.{ℕ, Ordering, compare as compare_ℕ}
use Prim.Native.Char.{code}
use Prim.Native.String.{String, compare, [], ◌∷◌, then}
use Prim.Native.String.compare
use mathlib.Core.Path.{◌≡◌, sym, ◌∙◌}
use mathlib.Core.Bool.{true, false}
use mathlib.Core.Logic.{◌≢◌}
use native.Mathlib.Omega.{arith}
use text.Mathlib.TextEquality.{path_by_compare}
use text.Mathlib.TextPositions.{compare_refl}
use local_canvas.Prelude.Text.{text_le}

then-flip :
    (m n : ℕ) (r r' : Ordering)
    → (r ≡ Ordering.gt → r' ≡ Ordering.lt)
    → then (compare_ℕ m n) r ≡ Ordering.gt
    → then (compare_ℕ n m) r' ≡ Ordering.lt
then-flip m n r r' f h = ground arith

then_trans :
    (m n k : ℕ) (r r' r'' : Ordering)
    → (r ≡ Ordering.lt → r' ≡ Ordering.lt → r'' ≡ Ordering.lt)
    → then (compare_ℕ m n) r ≡ Ordering.lt
    → then (compare_ℕ n k) r' ≡ Ordering.lt
    → then (compare_ℕ m k) r'' ≡ Ordering.lt
then_trans m n k r r' r'' f h g = ground arith

pub gt-lt : (a b : String) → compare a b ≡ Ordering.gt → compare b a ≡ Ordering.lt
gt-lt [] [] h = absurd (ground (arith, compare.nil-nil))
gt-lt [] (d ∷ t) h = absurd (ground (arith, compare.nil-cons d t))
gt-lt (c ∷ s) [] h = compare.nil-cons c s
gt-lt (c ∷ s) (d ∷ t) h =
    compare.cons-cons d c t s
    ∙ then-flip (code c) (code d) (compare s t) (compare t s) (gt-lt s t)
        (sym (compare.cons-cons c d s t) ∙ h)

pub lt_trans :
    (a b c : String)
    → compare a b ≡ Ordering.lt
    → compare b c ≡ Ordering.lt
    → compare a c ≡ Ordering.lt
lt_trans [] [] c h g = g
lt_trans a (d ∷ t) [] h g = absurd (ground (arith, compare.cons-nil d t))
lt_trans (e ∷ u) [] c h g = absurd (ground (arith, compare.cons-nil e u))
lt_trans [] (d ∷ t) (x ∷ y) h g = compare.nil-cons x y
lt_trans (e ∷ u) (d ∷ t) (x ∷ y) h g =
    compare.cons-cons e x u y
    ∙ then_trans (code e) (code d) (code x) (compare u t) (compare t y) (compare u y)
        (lt_trans u t y) (sym (compare.cons-cons e d u t) ∙ h) (sym (compare.cons-cons d x t y) ∙ g)

pub text_le_self : (a b : String) → a ≡ b → text_le a b ≡ true
unfolding text_le
text_le_self a b e = ground (arith, compare_refl a)

pub text_le-lt : (a b : String) → text_le a b ≡ false → compare b a ≡ Ordering.lt
unfolding text_le
text_le-lt a b h = gt-lt a b (ground arith)

pub text_le-lt_ne : (a b : String) → text_le a b ≡ true → a ≢ b → compare a b ≡ Ordering.lt
unfolding text_le
text_le-lt_ne a b h differ = ground (arith, path_by_compare a b)
