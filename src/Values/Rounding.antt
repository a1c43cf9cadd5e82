-- ===== src/Values/Rounding.antt =====
-- The range of the conversion of an int to a float (`float(value)` in workflows/validation.py).
use mathlib.Core.Path.{subst}
use native.Mathlib.Nat.{
  pow-le-pow_right, one-le-pow, le-div_iff_mul-le, mul-le-mul_right, two-pow-succ, pow-zero,
  zero-add, one-mul, le_trans,
}
use local_canvas.Prelude.{
  ℕ, zero, suc, ◌+◌, ◌-◌, ◌*◌, ◌/◌, ◌^◌, ◌≤◌, ◌<◌, Bool, ◌≡◌, refl, sym, true, false, none, ltb,
  leb, arith, Bool-cases, inl, inr, if◌then◌else◌,
}
use local_canvas.Prelude.Int.{ℤ, pos, negsuc}
use local_canvas.Values.Numbers.{bit_length, round_to, round_nat, float_of_int}

-- The distance of an integer from zero.
abbrev pub magnitude : ℤ → ℕ
magnitude (pos n) = n
magnitude (negsuc n) = n + 1

two-pow-pos : (e : ℕ) → 0 < 2 ^ e
two-pow-pos e = omega (arith, one-le-pow e 2)

two-pow-add : (j e : ℕ) → 2 ^ (j + e) ≡ 2 ^ j * 2 ^ e
two-pow-add zero e = rw zero-add (rw pow-zero (sym (one-mul (2 ^ e))))
two-pow-add (suc j) e = grind (arith, two-pow-add j e, two-pow-succ (j + e), two-pow-succ j)

bit_length-zero : (f : ℕ) → bit_length f 0 ≡ 0
unfolding bit_length
bit_length-zero zero = refl
bit_length-zero (suc f) = ground arith

bit_length-suc : (f n : ℕ) → 0 < n → bit_length (suc f) n ≡ suc (bit_length f (n / 2))
unfolding bit_length
bit_length-suc f n h = ground arith

-- A number is at least half of the power of two of its length in bits.
bit_length-pow : (f n : ℕ) → 0 < n → 2 ^ bit_length f n ≤ 2 * n
bit_length-pow zero n h = unfold bit_length in omega arith
bit_length-pow (suc f) n h = rw (bit_length-suc f n h) (elim (Bool-cases (ltb 0 (n / 2))) [
  | inl more ↦ ground (arith, bit_length-pow f (n / 2), two-pow-succ (bit_length f (n / 2)))
  | inr one ↦
      let none_left : n / 2 ≡ 0 = ground arith in rw (none_left, bit_length-zero f) (omega arith)
])

-- The unit of the rounding is no more than the number.
unit_bound : (f n : ℕ) → 2 ^ 53 < n → 2 ^ (bit_length f n - 53) ≤ n
unit_bound f n large = elim (Bool-cases (leb (bit_length f n) 0)) [
  | inl e ↦ let bits : bit_length f n - 53 ≡ 0 = ground arith in rw bits (omega (arith, large))
  | inr e ↦
      let less : bit_length f n - 53 ≤ bit_length f n - 1 = omega arith in
      let bits : bit_length f n ≡ suc (bit_length f n - 1) = ground arith in
      let half : 2 ^ suc (bit_length f n - 1) ≤ 2 * n =
        subst (λ b. 2 ^ b ≤ 2 * n) bits (bit_length-pow f n (omega (arith, large))) in
      omega (
        arith,
        pow-le-pow_right {n = 2} (omega arith) less,
        two-pow-succ (bit_length f n - 1),
        half,
      )
]

-- Rounding down to a multiple of a power of two does not pass below a power of two.
round_down-ge : (k e n : ℕ) → 2 ^ k ≤ n → 2 ^ e ≤ n → 2 ^ k ≤ n / 2 ^ e * 2 ^ e
round_down-ge k e n large unit = elim (Bool-cases (leb e k)) [
  | inl le ↦
      let split : 2 ^ k ≡ 2 ^ (k - e) * 2 ^ e =
        subst (λ j. 2 ^ j ≡ 2 ^ (k - e) * 2 ^ e) (ground arith) (two-pow-add (k - e) e) in
      let fits : 2 ^ (k - e) ≤ n / 2 ^ e =
        (le-div_iff_mul-le (two-pow-pos e)).1 (rw (← split) large) in
      rw split (mul-le-mul_right (2 ^ e) fits)
  | inr gt ↦
      let some_unit : 1 ≤ n / 2 ^ e =
        (le-div_iff_mul-le (two-pow-pos e)).1 (rw (one-mul (2 ^ e)) unit) in
      omega (
        arith,
        pow-le-pow_right {n = 2} (omega arith) {i = k} {j = e} (ground arith),
        mul-le-mul_right (2 ^ e) some_unit,
      )
]

le-add_one : (n : ℕ) → n ≤ n + 1
le-add_one n = omega arith

leb-false : (a b : ℕ) → b < a → leb a b ≡ false
leb-false a b h = ground arith

ltb-false : (a b : ℕ) → b ≤ a → ltb a b ≡ false
ltb-false a b h = ground arith

either_way : (b : Bool) (m x y : ℕ) → m ≤ x → m ≤ y → m ≤ (if b then x else y)
either_way true m x y h g = h
either_way false m x y h g = g

round_to-ge : (k e n : ℕ) → 2 ^ k ≤ n → 2 ^ e ≤ n → 2 ^ k ≤ round_to e n
unfolding round_to
round_to-ge k e n large unit =
    either_way _ (2 ^ k) (n / 2 ^ e * 2 ^ e) ((n / 2 ^ e + 1) * 2 ^ e)
      (round_down-ge k e n large unit)
      (le_trans (round_down-ge k e n large unit)
        (mul-le-mul_right (2 ^ e) (le-add_one (n / 2 ^ e))))

-- A number of 2^1024 or more is out of the range.
round_nat-none : (n : ℕ) → 2 ^ 1024 ≤ n → round_nat n ≡ none
unfolding round_nat
round_nat-none n large =
    let long : 2 ^ 53 < n = omega (arith, large) in
    let rounded : 2 ^ 1024 ≤ round_to (bit_length 2048 n - 53) n =
      round_to-ge 1024 (bit_length 2048 n - 53) n large (unit_bound 2048 n long) in
    let wide : leb n (2 ^ 53) ≡ false = leb-false n (2 ^ 53) long in
    let out : ltb (round_to (bit_length 2048 n - 53) n) (2 ^ 1024) ≡ false =
      ltb-false _ (2 ^ 1024) rounded in
    rw (wide, out, round_nat) refl

pub float_of_int-none : (n : ℤ) → 2 ^ 1024 ≤ magnitude n → float_of_int n ≡ none
unfolding float_of_int
float_of_int-none (pos n) large = rw (round_nat-none n large, float_of_int) refl
float_of_int-none (negsuc n) large = rw (round_nat-none (n + 1) large, float_of_int) refl
