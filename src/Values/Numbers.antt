-- ===== src/Values/Numbers.antt =====
-- Python's numbers: `int` without bound and `float` as IEEE double. A finite double is a dyadic
-- rational, m / 2^k; comparisons between the two types are exact, as Python's are.
use local_canvas.Prelude.{
  ℕ, zero, suc, ◌+◌, ◌-◌, ◌*◌, ◌/◌, ◌%◌, ◌^◌, Bool, true, false, not, ◌&&◌, ◌||◌, Option, none,
  some, ltb, leb, eqb, if◌then◌else◌,
}
use local_canvas.Prelude.Int.{ℤ, pos, negsuc, ltb_ℤ}

pub data Float : Type 0 where
  nan : Float
  -- negative infinity, or else positive
  infinity : Bool → Float
  -- m / 2^k
  dyadic : ℤ → ℕ → Float

pub data Number : Type 0 where
  int : ℤ → Number
  float : Float → Number

-- n * 2^k
unfoldable pub shift_left : ℤ → ℕ → ℤ
shift_left (pos n) k = pos (n * 2 ^ k)
shift_left (negsuc n) k = negsuc ((n + 1) * 2 ^ k - 1)

-- `a < b` of two floats: false where either is NaN.
unfoldable pub float_lt : Float → Float → Bool
unfolding shift_left
float_lt nan b = false
float_lt (infinity s) nan = false
float_lt (infinity false) b = false
float_lt (infinity true) (infinity false) = true
float_lt (infinity true) (infinity true) = false
float_lt (infinity true) (dyadic m k) = true
float_lt (dyadic m k) nan = false
float_lt (dyadic m k) (infinity true) = false
float_lt (dyadic m k) (infinity false) = true
float_lt (dyadic m k) (dyadic n j) = ltb_ℤ (shift_left m j) (shift_left n k)

-- An int is compared at its exact value.
unfoldable pub exactly : Number → Float
exactly (int n) = dyadic n 0
exactly (float x) = x

-- `a < b`
unfoldable pub number_lt : Number → Number → Bool
unfolding float_lt exactly
number_lt a b = float_lt (exactly a) (exactly b)

-- `a == b` of two floats: NaN equals nothing.
unfoldable pub float_eq : Float → Float → Bool
float_eq nan y = false
float_eq x nan = false
float_eq (infinity s) (infinity t) = if s then t else not t
float_eq (dyadic m k) (dyadic n j) =
    not (float_lt (dyadic m k) (dyadic n j)) && not (float_lt (dyadic n j) (dyadic m k))
float_eq x y = false

-- `a == b`
unfoldable pub number_eq : Number → Number → Bool
unfolding float_eq exactly
number_eq a b = float_eq (exactly a) (exactly b)

-- `a <= b`
unfoldable pub number_le : Number → Number → Bool
unfolding number_lt number_eq
number_le a b = number_lt a b || number_eq a b

-- `float.is_integer`
unfoldable pub is_integer : Float → Bool
is_integer nan = false
is_integer (infinity s) = false
is_integer (dyadic (pos n) k) = eqb (n % 2 ^ k) 0
is_integer (dyadic (negsuc n) k) = eqb ((n + 1) % 2 ^ k) 0

-- `int(x)` of a float that is an integer
unfoldable pub truncate : Float → ℤ
truncate nan = pos 0
truncate (infinity s) = pos 0
truncate (dyadic (pos n) k) = pos (n / 2 ^ k)
truncate (dyadic (negsuc n) k) =
    let q = (n + 1) / 2 ^ k in if eqb q 0 then pos 0 else negsuc (q - 1)

-- Bits of a number, at most as many as the fuel.
unfoldable pub bit_length : ℕ → ℕ → ℕ
bit_length zero n = 0
bit_length (suc f) n = let rest = bit_length f (n / 2) in if eqb n 0 then 0 else rest + 1

-- n rounded to a multiple of 2^e, to the nearest, a tie to the even one.
unfoldable pub round_to : ℕ → ℕ → ℕ
round_to e n =
    let unit : ℕ = 2 ^ e in
    let q = n / unit in
    let r = 2 * (n % unit) in
    if ltb r unit || (eqb r unit && eqb (q % 2) 0) then q * unit else (q + 1) * unit

-- The double nearest to a natural number: 53 bits of it. `none` is OverflowError.
unfoldable pub round_nat : ℕ → Option ℕ
unfolding bit_length round_to
round_nat n =
    if leb n (2 ^ 53)
    then some n
    else (let r = round_to (bit_length 2048 n - 53) n in if ltb r (2 ^ 1024) then some r else none)

-- `float(n)` of an int
unfoldable pub float_of_int : ℤ → Option Float
float_of_int (pos n) = elim (round_nat n) [ none ↦ none | some r ↦ some (dyadic (pos r) 0) ]
float_of_int (negsuc n) = elim (round_nat (n + 1)) [
  | none ↦ none
  | some r ↦ some (dyadic (negsuc (r - 1)) 0)
]
